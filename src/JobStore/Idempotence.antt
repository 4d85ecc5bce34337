-- ===== src/JobStore/Idempotence.antt =====
-- One request, one job: CreateJob of internal/db/jobstore.go.
use distributed_scheduler.Prelude.{
  suc, ◌≡◌, inl, inr, refl, String, Option, none, some, List, [], ◌∷◌, subst, sym, ◌∙◌, str_eq,
  Option-cases, Bool-cases, eq_refl, arith, first, first-append_new,
}
use distributed_scheduler.Models.{Job}
use distributed_scheduler.Db.{
  Db, Env, Link, JobRow, Session, ok, ◌>>=◌, ◌>>◌, statement, return, scan_row,
}
use distributed_scheduler.JobStore.Queries.{
  by_id, by_request_id, scan_job, record_transition, get_job_by_request_id,
}
use distributed_scheduler.JobStore.Submission.{
  new_row, insert_outcome, insert_job, created_job, create_job,
}
use distributed_scheduler.JobStore.Machine.{AnyKind, Reach, Reach-Advances}
use distributed_scheduler.JobStore.Evolution.{Evolves, HasKeys}
use distributed_scheduler.JobStore.Refinement.{create_job-Refines}
use distributed_scheduler.JobStore.Calls.{Call, run, run_any-Refines}

abbrev find_request : String → Db → Option JobRow
find_request request_id d = first (by_request_id request_id) d.jobs

-- What comes back for a request that is stored.
stored_result :
    (e : Env) (request_id : String) (s : Session) (x : JobRow) (a : Job)
    → find_request request_id s.db ≡ some x
    → (l : Link) → e.link s.sent ≡ l
    → (get_job_by_request_id e request_id s).0 ≡ ok a
    → a.id ≡ x.id
unfolding get_job_by_request_id statement scan_row scan_job
stored_result e k s x a h Link.answered l r = ground (arith, h, l, r)
stored_result e k s x a h Link.request_lost l r = ground (arith, l, r)
stored_result e k s x a h Link.reply_lost l r = ground (arith, l, r)

again_result :
    (e : Env) (job : Job) (s : Session) (x : JobRow) (a : Job)
    → find_request job.request_id s.db ≡ some x
    → (l : Link) → e.link s.sent ≡ l
    → (create_job e job s).0 ≡ ok a
    → a.id ≡ x.id
unfolding create_job insert_job insert_outcome created_job ◌>>=◌ statement
again_result e job s x a h Link.answered l r =
    let t : Session = record s { sent = suc s.sent } in
    ground (arith, h, l, r, stored_result e job.request_id t x a h (e.link t.sent) refl)
again_result e job s x a h Link.request_lost l r = ground (arith, l, r)
again_result e job s x a h Link.reply_lost l r = ground (arith, l, r)

-- A request that is stored: nothing changes, and the stored job comes back, or an error.
create_job_again :
    (e : Env) (job : Job) (s : Session) (x : JobRow)
    → find_request job.request_id s.db ≡ some x
    → ((create_job e job s).1.db ≡ s.db) × ((a : Job) → (create_job e job s).0 ≡ ok a → a.id ≡ x.id)
unfolding create_job insert_job insert_outcome created_job get_job_by_request_id ◌>>=◌ statement
create_job_again e job s x h =
    (ground (arith, h), λ a. again_result e job s x a h (e.link s.sent) refl)

-- A new request that is answered with success.
new_result :
    (e : Env) (job : Job) (s : Session) (a : Job)
    → find_request job.request_id s.db ≡ none
    → (l : Link) → e.link s.sent ≡ l
    → (create_job e job s).0 ≡ ok a
    → (find_request job.request_id (create_job e job s).1.db ≡ some (new_row e s.sent job))
      × (a.id ≡ e.uuid s.sent)
unfolding create_job insert_job insert_outcome created_job record_transition ◌>>=◌ ◌>>◌ statement
    return
new_result e job s a new Link.answered l r =
    elim (Option-cases (first (by_id (e.uuid s.sent)) s.db.jobs)) [
      | inr (x, taken) ↦ absurd (ground (arith, taken, new, l, r))
      | inl free ↦
          let stored =
            first-append_new (by_request_id job.request_id) s.db.jobs (new_row e s.sent job) new
              (eq_refl job.request_id) in
          (ground (arith, free, new, l, r, stored), ground (arith, free, new, l, r))
    ]
new_result e job s a new Link.request_lost l r = absurd (ground (arith, l, r))
new_result e job s a new Link.reply_lost l r = absurd (ground (arith, l, r))

-- A success stores the request under the id that it returns.
create_job_stores :
    (e : Env) (job : Job) (s : Session) (a : Job)
    → (create_job e job s).0 ≡ ok a
    → (x : JobRow) × (find_request job.request_id (create_job e job s).1.db ≡ some x)
      × (x.id ≡ a.id)
create_job_stores e job s a r = elim (Option-cases (find_request job.request_id s.db)) [
  | inr (x, h) ↦
      let again = create_job_again e job s x h in
      (x, subst (λ d. find_request job.request_id d ≡ some x) (sym again.0) h, sym (again.1 a r))
  | inl new ↦
      let (stored, id) = new_result e job s a new (e.link s.sent) refl r in
      (new_row e s.sent job, stored, sym id)
]

Evolves-request :
    (k : String) (x : JobRow) (xs ys : List JobRow)
    → Evolves AnyKind xs ys
    → first (by_request_id k) xs ≡ some x
    → (y : JobRow) × (first (by_request_id k) ys ≡ some y) × Reach AnyKind x y
unfolding first
Evolves-request k x [] ys h e = cc
Evolves-request k x (x' ∷ xs) [] h e = absurd h
Evolves-request k x (x' ∷ xs) (y ∷ ys) h e =
    let same : y.request_id ≡ x'.request_id = (Reach-Advances h.0).same_request in
    elim (Bool-cases (str_eq x'.request_id k)) [
      | inl t ↦ (y, ground arith, subst (λ z. Reach AnyKind z y) (ground arith) h.0)
      | inr f ↦
          let (z, found, r) = Evolves-request k x xs ys h.1 (ground arith) in (z, ground arith, r)
    ]

-- Where ids and request ids are distinct, and once a request was submitted with success, submitting
-- its request id again, after any calls, leaves every table as it was, and returns an error or the
-- job with the id that the first submission returned.
pub create_job_idempotent :
    (e : Env) (cs : List Call) (s : Session) (job job' a : Job)
    → HasKeys s.db
    → (create_job e job s).0 ≡ ok a
    → job'.request_id ≡ job.request_id
    → let t = run e cs (create_job e job s).1 in
      ((create_job e job' t).1.db ≡ t.db)
      × ((b : Job) → (create_job e job' t).0 ≡ ok b → b.id ≡ a.id)
create_job_idempotent e cs s job job' a keys r same =
    let s' = (create_job e job s).1 in
    let t = run e cs s' in
    let (x, stored, id) = create_job_stores e job s a r in
    let keys' = (create_job-Refines AnyKind e job s keys).1 in
    let (y, found, reach) =
      Evolves-request job.request_id x s'.db.jobs t.db.jobs (run_any-Refines e cs s' keys').0
        stored in
    let again = create_job_again e job' t y (rw same found) in
    (again.0, λ b k. again.1 b k ∙ (Reach-Advances reach).same_id ∙ id)
