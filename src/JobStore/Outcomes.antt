-- ===== src/JobStore/Outcomes.antt =====
-- What the statements of internal/db/jobstore.go make of the rows, written out column by column.
use distributed_scheduler.Prelude.{
  ℕ, zero, suc, ◌+◌, ◌*◌, ◌/◌, ◌≤◌, ◌<◌, ◌≡◌, ◌≢◌, ◌⊎◌, inl, inr, refl, sym, String, true, false,
  none, some, List, [], ◌∷◌, update, matching, eq_iff, Bool-cases, first-select, Option-cases,
  subst, arith,
}
use distributed_scheduler.Models.{pending, succeeded, cancelled, dead_letter, is_final, second}
use distributed_scheduler.Db.{Env, JobRow, Session, ok, err, cannot_be_cancelled, answered}
use distributed_scheduler.Retry.{calculate_backoff}
use distributed_scheduler.JobStore.Queries.{by_id}
use distributed_scheduler.JobStore.Results.{
  assigned_to, can_finish, exhausted, or_now, complete_job, fail_job,
}
use distributed_scheduler.JobStore.Sweeps.{expired, reclaim_expired_jobs, can_cancel, cancel_job}
use distributed_scheduler.JobStore.Machine.{Holds, InFlight, IsOpen, Began}
use distributed_scheduler.JobStore.Guards.{in_flight-InFlight, or_now_began, open_status}
use distributed_scheduler.JobStore.Evolution.{HasKeys}
use distributed_scheduler.JobStore.History.{find_job}
use distributed_scheduler.JobStore.Reports.{complete_job_updates, fail_job_updates}
use distributed_scheduler.JobStore.Reclaim.{reclaim_expired_jobs_updates}
use distributed_scheduler.JobStore.Tenants.{cancel_job_updates}

can_finish_of :
    (j w : String) (v : ℕ) (x : JobRow) → Holds j w v x → InFlight x → can_finish j w v x ≡ true
can_finish_of j w v x (id, worker, version) flies =
    let same = (eq_iff x.id j).1 id in
    let own : assigned_to w x.assigned_worker ≡ true = rw worker ((eq_iff w w).1 refl) in
    ground (arith, same, own, version, flies)

module _ (e : Env) (s : Session) (job_id worker_id : String) (v : ℕ) (x : JobRow)
    (stored : find_job job_id s.db ≡ some x) (held : Holds job_id worker_id v x)
    (flies : InFlight x) where
  -- CompleteJob, its two statements answered, for a job that is DISPATCHED or RUNNING under the
  -- worker's lease and version: it succeeds; the job is SUCCEEDED, completed now, and started when it
  -- was started, or now if it never was; its other columns stay, and so does every other job.
  pub complete_job_lem :
      e.link s.sent ≡ answered
      → e.link (suc s.sent) ≡ answered
      → let now = e.clock s.sent in
        let (result, t) = complete_job e job_id worker_id v s in
        (result ≡ ok tt)
        × ((began : ℕ) × Began now x began
            × (find_job job_id t.db
                ≡ some (record x {
                  status = succeeded;
                  started_at = some began;
                  completed_at = some now;
                  updated_at = now;
                })))
        × ((other : String) → other ≢ job_id → find_job other t.db ≡ find_job other s.db)
  complete_job_lem l l' =
      let now = e.clock s.sent in
      let can = can_finish_of job_id worker_id v x held flies in
      let (result, found, others) = complete_job_updates e s job_id worker_id v x stored can l l' in
      (result, (or_now now x.started_at, or_now_began now x.started_at, found), others)

  -- FailJob, its three statements answered, for a job that is DISPATCHED or RUNNING under the
  -- worker's lease and version: it succeeds and counts the failure, records the reason, and takes the
  -- worker, the lease and its expiry away. With tries left the job is PENDING again, after the whole
  -- seconds of the backoff; with none left it is DEAD_LETTER. Its other columns stay, and so does
  -- every other job.
  pub fail_job_lem :
      (reason : String) (base_delay max_delay : ℕ)
      → e.link s.sent ≡ answered
      → e.link (suc s.sent) ≡ answered
      → e.link (suc (suc s.sent)) ≡ answered
      → let now = e.clock (suc s.sent) in
        let backoff =
          calculate_backoff e.to_float64 e.to_int64
            (e.rand (suc s.sent))
            x.retry_count
            base_delay
            max_delay in
        let (result, t) = fail_job e job_id worker_id reason v base_delay max_delay s in
        (result ≡ ok tt)
        × (((x.retry_count + 1 < x.max_retries)
              × (find_job job_id t.db
                  ≡ some (record x {
                    status = pending;
                    retry_count = x.retry_count + 1;
                    last_error = some reason;
                    assigned_worker = none;
                    lease_id = none;
                    lease_expires_at = none;
                    retry_after = some (now + backoff / second * second);
                    updated_at = now;
                  })))
            ⊎ ((x.max_retries ≤ x.retry_count + 1)
                × (find_job job_id t.db
                    ≡ some (record x {
                      status = dead_letter;
                      retry_count = x.retry_count + 1;
                      last_error = some reason;
                      assigned_worker = none;
                      lease_id = none;
                      lease_expires_at = none;
                      retry_after = none;
                      updated_at = now;
                    }))))
        × ((other : String) → other ≢ job_id → find_job other t.db ≡ find_job other s.db)
  fail_job_lem m b c l l' l'' =
      let can = can_finish_of job_id worker_id v x held flies in
      let (result, found, ends, others) =
        fail_job_updates e s job_id worker_id v x stored can m b c l l' l'' in
      (
        result,
        elim (Bool-cases (exhausted x)) [
          | inl spent ↦ inr (ground arith, rw spent at found)
          | inr left ↦ inl (ground arith, rw left at found)
        ],
        others,
      )

-- A job whose lease has run out.
abbrev pub IsExpired : ℕ → JobRow → Type 0
IsExpired now x = (expiry : ℕ) × InFlight x × (x.lease_expires_at ≡ some expiry) × (expiry < now)

-- A table before and after a sweep that takes `n` jobs back.
pub data Sweep (now : ℕ) : ℕ → List JobRow → List JobRow → Type 0 where
  nothing : Sweep now zero [] []
  takes :
      {n : ℕ} {xs ys : List JobRow} (x : JobRow)
      → IsExpired now x
      → Sweep now n xs ys
      → Sweep now (suc n) (x ∷ xs) (
          record x {
            status = pending;
            assigned_worker = none;
            lease_id = none;
            lease_expires_at = none;
            retry_after = none;
            updated_at = now;
          }
          ∷ ys)
  leaves :
      {n : ℕ} {xs ys : List JobRow} (x : JobRow)
      → ¬ IsExpired now x
      → Sweep now n xs ys
      → Sweep now n (x ∷ xs) (x ∷ ys)

expired-IsExpired : (now : ℕ) (x : JobRow) → expired now x ≡ true → IsExpired now x
expired-IsExpired now x h =
    let flies = in_flight-InFlight x (ground arith) in
    elim (Option-cases x.lease_expires_at) [
      | inl e ↦ absurd (ground arith)
      | inr (t, e) ↦ (t, flies, e, ground arith)
    ]

not_expired : (now : ℕ) (x : JobRow) → expired now x ≡ false → ¬ IsExpired now x
not_expired now x h (t, flies, e, late) = ground arith

update-Sweep :
    (now : ℕ) (f : JobRow → JobRow)
    → ((x : JobRow)
        → f x ≡ record x {
          status = pending;
          assigned_worker = none;
          lease_id = none;
          lease_expires_at = none;
          retry_after = none;
          updated_at = now;
        })
    → (xs : List JobRow) → Sweep now (matching (expired now) xs) xs (update (expired now) f xs)
unfolding matching update
update-Sweep now f same [] = nothing
update-Sweep now f same (x ∷ xs) =
    let rest = update-Sweep now f same xs in
    elim (Bool-cases (expired now x)) [
      | inl t ↦ rw (t, same x) (takes x (expired-IsExpired now x t) rest)
      | inr g ↦ rw g (leaves x (not_expired now x g) rest)
    ]

-- Where its query is answered, the sweep takes back exactly the jobs that are DISPATCHED or RUNNING
-- and whose lease ran out before the server's clock: each is PENDING, without worker, lease, expiry
-- and delay, and every other column and row stays. It returns how many it took, whatever becomes of
-- the entries in the audit log.
pub reclaim_expired_jobs_lem :
    (e : Env) (s : Session)
    → e.link s.sent ≡ answered
    → let (result, t) = reclaim_expired_jobs e s in
      (n : ℕ) × (result ≡ ok n) × Sweep (e.clock s.sent) n s.db.jobs t.db.jobs
reclaim_expired_jobs_lem e s l =
    let now = e.clock s.sent in
    let (result, jobs, left) = reclaim_expired_jobs_updates e s l in
    (
      matching (expired now) s.db.jobs,
      result,
      subst (Sweep now (matching (expired now) s.db.jobs) s.db.jobs) (sym jobs)
          (update-Sweep now _ (λ x. refl) s.db.jobs),
    )

closed :
    (t : String) (j : String) (x : JobRow)
    → by_id j x ≡ true
    → can_cancel j t x ≡ false
    → (x.tenant_id ≢ t) ⊎ ¬ IsOpen x
closed t j x same f = elim (Bool-cases (is_final x.status)) [
  | inl final ↦ inr (λ p. ground (arith, final))
  | inr live ↦ inl (λ p. ground (arith, live, same, (eq_iff x.tenant_id t).1 p))
]

-- On a server that answers, and where ids are distinct, a stored job of the tenant that is not
-- SUCCEEDED, CANCELLED or DEAD_LETTER is CANCELLED, its other columns stay, and so does every other
-- job; a cancellation of any other stored job is refused and changes nothing.
pub cancel_job_lem :
    (e : Env) (job_id tenant_id : String) (s : Session) (x : JobRow)
    → HasKeys s.db
    → find_job job_id s.db ≡ some x
    → e.link s.sent ≡ answered
    → e.link (suc s.sent) ≡ answered
    → let (result, t) = cancel_job e job_id tenant_id s in
      ((x.tenant_id ≡ tenant_id)
        × IsOpen x
        × (result ≡ ok tt)
        × (find_job job_id t.db
            ≡ some (record x { status = cancelled; updated_at = e.clock s.sent }))
        × ((other : String) → other ≢ job_id → find_job other t.db ≡ find_job other s.db))
      ⊎ (((x.tenant_id ≢ tenant_id) ⊎ ¬ IsOpen x)
          × (result ≡ err cannot_be_cancelled)
          × (t.db ≡ s.db))
cancel_job_lem e j t s x keys stored l l' = elim (cancel_job_updates e j t s x keys stored l l') [
  | inl (can, result, found, others) ↦ inl (
    (eq_iff x.tenant_id t).0 (ground arith),
    open_status x.status (ground arith),
    result,
    found,
    others,
  )
  | inr (cannot, result, same) ↦
      inr (closed t j x (first-select (by_id j) s.db.jobs stored) cannot, result, same)
]
