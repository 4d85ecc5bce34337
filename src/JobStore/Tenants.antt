-- ===== src/JobStore/Tenants.antt =====
-- CancelJob and ListJobs of internal/db/jobstore.go: what one tenant can see and do.
use distributed_scheduler.Prelude.{
  Bool-cases, inl, inr, ℕ, suc, ◌≤◌, ◌≡◌, ◌≢◌, refl, subst, String, Bool, true, false, ◌&&◌, Option,
  some, List, arith, first, update, select, map, str_eq, eq_iff, length, take, drop, order_by, All,
  All-order_by, All-take, All-drop, All-of_In, select-In, All-map, length-map, length-take-le,
  first-update_at, first-update_apart, first-matching, In-first, first-In, ◌⊎◌, matching,
  matching_zero, if◌then◌else◌,
}
use distributed_scheduler.Models.{is_final, Job}
use distributed_scheduler.Db.{
  Db, Env, Link, JobRow, Session, ok, err, cannot_be_cancelled, answered, ◌>>=◌, ◌>>◌, statement,
  deliver, return, guard, throw,
}
use distributed_scheduler.JobStore.Queries.{by_id, touch, scan_job, record_transition}
use distributed_scheduler.JobStore.Sweeps.{
  can_cancel, cancel_row, cancel_job, has_status, newer, list_jobs,
}
use distributed_scheduler.JobStore.Evolution.{HasKeys}
use distributed_scheduler.JobStore.History.{find_job}
use distributed_scheduler.JobStore.Lease.{no_match, only_row}
use distributed_scheduler.JobStore.Reports.{by_id_apart}

abbrev pub cancelled_at : ℕ → JobRow → JobRow
cancelled_at now r = touch now (cancel_row now r)

module _ (e : Env) (job_id tenant_id : String) (s : Session) where
  -- Whatever becomes of the statements, a cancellation leaves each job of another tenant, and each
  -- job that is SUCCEEDED, CANCELLED or DEAD_LETTER, as it was.
  pub cancel_job_spares :
      (other : String) (x : JobRow)
      → find_job other s.db ≡ some x
      → (x.tenant_id ≢ tenant_id) ⊎ (is_final x.status ≡ true)
      → find_job other (cancel_job e job_id tenant_id s).1.db ≡ some x
  unfolding cancel_job record_transition ◌>>=◌ ◌>>◌ statement guard return throw
  cancel_job_spares other x stored spared =
      let p = can_cancel job_id tenant_id in
      let at =
        first-update_at (by_id other) p (cancelled_at (e.clock s.sent)) (λ y. refl) x s.db.jobs
          stored in
      let missed : can_cancel job_id tenant_id x ≡ false =
        ground (arith, eq_iff x.tenant_id tenant_id, spared) in
      ground (arith, at, missed, stored)

  -- On a server that answers, and where ids are distinct, a stored job of the tenant that is not
  -- final is cancelled, and no other job changes; any other request is refused and changes nothing.
  pub cancel_job_updates :
      (x : JobRow)
      → HasKeys s.db
      → find_job job_id s.db ≡ some x
      → e.link s.sent ≡ answered
      → e.link (suc s.sent) ≡ answered
      → let (result, t) = cancel_job e job_id tenant_id s in
        ((can_cancel job_id tenant_id x ≡ true)
          × (result ≡ ok tt)
          × (find_job job_id t.db ≡ some (cancelled_at (e.clock s.sent) x))
          × ((other : String) → other ≢ job_id → find_job other t.db ≡ find_job other s.db))
        ⊎ ((can_cancel job_id tenant_id x ≡ false)
            × (result ≡ err cannot_be_cancelled)
            × (t.db ≡ s.db))
  unfolding cancel_job record_transition ◌>>=◌ ◌>>◌ statement guard return throw
  cancel_job_updates x keys stored l l' = elim (Bool-cases (can_cancel job_id tenant_id x)) [
    | inl can ↦ inl (
      can,
      ground (arith, l, l', at, hit can),
      ground (arith, l, l', at, hit can, can),
      λ other ne. ground (arith, l, l', at, hit can, rest other ne),
    )
    | inr cannot ↦
        let none_match = only_row p job_id x s.db keys stored (λ r h. ground arith) cannot in
        inr (
          cannot,
          ground (arith, l, l', matching_zero p s.db.jobs none_match),
          ground (arith, l, l', matching_zero p s.db.jobs none_match, no_match s.db p f none_match),
        )
  ]
    where
      p : JobRow → Bool
      p = can_cancel job_id tenant_id

      f : JobRow → JobRow
      f = cancelled_at (e.clock s.sent)

      at : first (by_id job_id) (update p f s.db.jobs) ≡ some (if p x then f x else x)
      at = first-update_at (by_id job_id) p f (λ y. refl) x s.db.jobs stored

      hit : p x ≡ true → matching p s.db.jobs ≢ 0
      hit can =
          let (y, found) =
            In-first p x s.db.jobs (first-In (by_id job_id) x s.db.jobs stored) can in
          first-matching p f y s.db.jobs found

      rest :
          (other : String)
          → other ≢ job_id
          → first (by_id other) (update p f s.db.jobs) ≡ first (by_id other) s.db.jobs
      rest other ne =
          first-update_apart (by_id other) p f (λ y. refl)
            (λ y t. by_id_apart other job_id y ne (ground arith)) s.db.jobs

deliver_ok :
    {A : Type 0} {a b : A} (d : Db) (l : Link) (s : Session)
    → (deliver l (ok a, d) s).0 ≡ ok b
    → a ≡ b
unfolding deliver
deliver_ok d Link.answered s h = cc
deliver_ok d Link.request_lost s h = cc
deliver_ok d Link.reply_lost s h = cc

-- A listing that comes back holds at most `limit` jobs, all of the tenant, and all of the status that
-- was asked for, if one was; and it changes nothing.
pub list_jobs-All :
    (e : Env) (tenant_id : String) (status : Option String) (limit offset : ℕ) (s : Session)
    (jobs : List Job)
    → (list_jobs e tenant_id status limit offset s).0 ≡ ok jobs
    → (length jobs ≤ limit)
      × All (λ j. (j.tenant_id ≡ tenant_id) × (has_status status j.status ≡ true)) jobs
      × ((list_jobs e tenant_id status limit offset s).1.db ≡ s.db)
unfolding list_jobs statement deliver scan_job
list_jobs-All e t st limit offset s jobs h = (
  subst (λ js. length js ≤ limit) same (rw (length-map rows scan_job) (length-take-le limit _)),
  subst (All (λ j. (j.tenant_id ≡ t) × (has_status st j.status ≡ true))) same (
      All-map _ scan_job rows (
        All-take _ limit _ (
          All-drop _ offset _ (
            All-order_by _ newer _ (
              All-of_In _ _ λ r i.
                let held = (select-In asked r s.db.jobs i).1 in
                (ground (arith, eq_iff r.tenant_id t), ground arith)))))),
  unchanged (e.link s.sent),
)
  where
    asked : JobRow → Bool
    asked r = str_eq r.tenant_id t && has_status st r.status

    rows : List JobRow
    rows = take limit (drop offset (order_by newer (select asked s.db.jobs)))

    same : map scan_job rows ≡ jobs
    same = deliver_ok s.db (e.link s.sent) s h

    unchanged : (l : Link) → (deliver l (ok (map scan_job rows), s.db) s).1.db ≡ s.db
    unchanged l = ground arith
