-- ===== src/Server/AutopsyRpcs/Reading.antt =====
-- A report read back, and the list of a tenant's reports.
use distributed_scheduler.Prelude.{
  ℕ, suc, ◌≤◌, ◌≡◌, refl, String, Bool, true, false, none, some, List, [], ◌∷◌, ◌++◌, map, take,
  length, All, All-take, select-All, All-order_by, All-imp, order_by, select, ltb, length-take-le,
  length-map, All-map, if◌then◌else◌, if_elim, str_eq, eq_iff, first, arith, Bool-cases, inl, inr,
}
use distributed_scheduler.Prelude.Int.{ℤ, pos, negsuc}
use distributed_scheduler.Db.{
  Db, Env, Link, answered, Session, JobRow, StoredAutopsy, Result, ok, err, M, statement, deliver,
  scan_row,
}
use distributed_scheduler.JobStore.Queries.{by_id}
use distributed_scheduler.Autopsy.{
  Library, AutopsyReport, scan_transition, build_report, transitions_of, generate_report,
}
use distributed_scheduler.AutopsyStore.{
  new_autopsy, store_autopsy, about_job, get_autopsy_by_job_id, clamp_limit, list_autopsies,
}
use distributed_scheduler.Server.Rpc.{Rpc, reply, status, not_found}
use distributed_scheduler.Server.AutopsyRpcs.{
  generate_autopsy, handle_get_autopsy, AutopsySummary, summary, list_reply, ListAutopsiesResponse,
  handle_list_autopsies,
}

module _ {ℓ} {A : Type ℓ} (p : A → Bool) where
  first-append :
      (xs : List A) (x : A) → first p xs ≡ none → p x ≡ true → first p (xs ++ x ∷ []) ≡ some x
  unfolding first
  first-append [] x h e = ground arith
  first-append (y ∷ xs) x h e = ground (arith, first-append xs x)

  first-append_not :
      (xs : List A) (x : A) → first p xs ≡ none → p x ≡ false → first p (xs ++ x ∷ []) ≡ none
  unfolding first
  first-append_not [] x h e = ground arith
  first-append_not (y ∷ xs) x h e = ground (arith, first-append_not xs x)

module _ (e : Env) (answers : (n : ℕ) → e.link n ≡ answered) (l : Library) (now : ℕ)
    (job_id : String) (s : Session) (r : JobRow) (json : String)
    (found : first (by_id job_id) s.db.jobs ≡ some r)
    (marshalled : l.marshal
        (build_report l now job_id r (map scan_transition (transitions_of job_id s.db)))
      ≡ ok json)
    (fresh : first (λ a. str_eq a.id (e.uuid (suc (suc s.sent)))) s.db.autopsies ≡ none) where
  abbrev report : AutopsyReport
  report = build_report l now job_id r (map scan_transition (transitions_of job_id s.db))

  abbrev stored : Session
  stored = record {
    db = record s.db {
      autopsies = s.db.autopsies ++ new_autopsy e l (suc (suc s.sent)) report json ∷ [];
    };
    sent = suc (suc (suc s.sent));
  }

  generate_autopsy-stored : (generate_autopsy e l now job_id s).1 ≡ stored
  unfolding generate_autopsy generate_report store_autopsy statement scan_row build_report
  generate_autopsy-stored = ground (
    arith,
    answers s.sent,
    answers (suc s.sent),
    answers (suc (suc s.sent)),
    found,
    marshalled,
    fresh,
  )

  module _ (tenant_id : String) (named : str_eq job_id "" ≡ false)
      (tenant : str_eq tenant_id "" ≡ false)
      (unread : first (about_job job_id tenant_id) s.db.autopsies ≡ none) where
    -- Where the server answers, the job is there, its report can be marshalled, the id drawn is a
    -- new one and no report on the job is stored yet for a tenant: after generateAutopsy,
    -- GetAutopsy gives the report to that tenant, as the database prints it, if the job is the
    -- tenant's, and answers any other tenant that there is none.
    pub handle_get_autopsy-generate :
        (handle_get_autopsy e job_id tenant_id (generate_autopsy e l now job_id s).1).0
        ≡ ok (
            if str_eq r.tenant_id tenant_id
            then reply (record { found = true; report_json = l.jsonb json; message = "ok" })
            else status not_found)
    unfolding handle_get_autopsy get_autopsy_by_job_id statement scan_row build_report
    handle_get_autopsy-generate =
        let new = new_autopsy e l (suc (suc s.sent)) report json in
        let mine : str_eq job_id job_id ≡ true = (eq_iff job_id job_id).1 refl in
        rw generate_autopsy-stored (elim (Bool-cases (str_eq r.tenant_id tenant_id)) [
          | inl h ↦
              let q =
                first-append (about_job job_id tenant_id) s.db.autopsies new unread
                  (ground arith) in
              ground (arith, answers (suc (suc (suc s.sent))))
          | inr h ↦
              let q =
                first-append_not (about_job job_id tenant_id) s.db.autopsies new unread
                  (ground arith) in
              ground (arith, answers (suc (suc (suc s.sent))))
        ])

clamp_limit-le : (limit : ℤ) → clamp_limit limit ≤ 100
unfolding clamp_limit
clamp_limit-le (negsuc n) = omega arith
clamp_limit-le (pos ℕ.zero) = omega arith
clamp_limit-le (pos (suc n)) = ground arith

abbrev OfTenant : String → StoredAutopsy → Type 0
OfTenant tenant_id a = str_eq a.tenant_id tenant_id ≡ true

abbrev page : String → ℤ → Db → List StoredAutopsy
page tenant_id limit d = take (clamp_limit limit) (
    order_by (λ y x. ltb x.created_at y.created_at)
      (select (λ a. str_eq a.tenant_id tenant_id) d.autopsies))

page-OfTenant :
    (tenant_id : String) (limit : ℤ) (d : Db) → All (OfTenant tenant_id) (page tenant_id limit d)
page-OfTenant tenant_id limit d = All-take (OfTenant tenant_id) (clamp_limit limit) _ (
    All-order_by (OfTenant tenant_id) (λ y x. ltb x.created_at y.created_at) _
      (select-All (λ a. str_eq a.tenant_id tenant_id) d.autopsies))

-- The answer of ListAutopsies: an error, or the summaries of reports of the tenant, a hundred at
-- most.
abbrev pub IsPage : String → Result (Rpc ListAutopsiesResponse) → Type 0
IsPage tenant_id (ok (reply r)) =
    All (λ a. a.tenant_id ≡ tenant_id) r.autopsies × (length r.autopsies ≤ 100)
IsPage tenant_id (ok (status c)) = Unit
IsPage tenant_id (err x) = ⊥

summaries-IsPage :
    (l : Library) (tenant_id : String) (limit : ℤ) (d : Db)
    → All (λ a. a.tenant_id ≡ tenant_id) (map (summary l) (page tenant_id limit d))
      × (length (map (summary l) (page tenant_id limit d)) ≤ 100)
unfolding summary
summaries-IsPage l tenant_id limit d =
    let xs = page tenant_id limit d in
    (
      All-map (λ (a : AutopsySummary). a.tenant_id ≡ tenant_id) (summary l) xs
          (All-imp (OfTenant tenant_id) (λ a h. (eq_iff a.tenant_id tenant_id).0 h) xs
            (page-OfTenant tenant_id limit d)),
      omega (
        arith,
        length-map xs (summary l),
        clamp_limit-le limit,
        length-take-le (clamp_limit limit) (
            order_by (λ (y x : StoredAutopsy). ltb x.created_at y.created_at)
              (select (λ a. str_eq a.tenant_id tenant_id) d.autopsies)),
      ),
    )

answer-IsPage :
    (l : Library) (tenant_id : String) (limit : ℤ) (d : Db) (k : Link) (s : Session)
    → IsPage tenant_id (ok (list_reply l (deliver k (ok (page tenant_id limit d), d) s).0))
unfolding deliver list_reply
answer-IsPage l tenant_id limit d Link.answered s = summaries-IsPage l tenant_id limit d
answer-IsPage l tenant_id limit d Link.request_lost s = tt
answer-IsPage l tenant_id limit d Link.reply_lost s = tt

-- Whatever the server does and whatever limit is asked for, ListAutopsies names no report of
-- another tenant, and a hundred reports at most.
pub handle_list_autopsies-IsPage :
    (e : Env) (l : Library) (tenant_id : String) (limit : ℤ) (s : Session)
    → IsPage tenant_id (handle_list_autopsies e l tenant_id limit s).0
unfolding handle_list_autopsies list_autopsies statement
handle_list_autopsies-IsPage e l tenant_id limit s =
    if_elim (λ (m : M (Rpc ListAutopsiesResponse)). IsPage tenant_id (m s).0) (str_eq tenant_id "")
      (λ _. tt) (λ _. answer-IsPage l tenant_id limit s.db (e.link s.sent) s)
