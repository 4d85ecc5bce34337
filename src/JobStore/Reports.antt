-- ===== src/JobStore/Reports.antt =====
-- CompleteJob and FailJob of internal/db/jobstore.go for the worker that holds the lease.
use distributed_scheduler.Prelude.{
  ◌⊎◌, ℕ, suc, ◌+◌, ◌≤◌, ◌<◌, ◌≡◌, ◌≢◌, refl, sym, ◌∙◌, String, Bool, true, false, none, some, List,
  arith, first, eq_iff, first-update_at, first-update_apart, first-In, first-matching, select-first,
  Bool-cases, inl, inr, In-first,
}
use distributed_scheduler.Models.{pending, dead_letter}
use distributed_scheduler.Db.{
  Env, JobRow, Session, ok, answered, ◌>>=◌, ◌>>◌, statement, return, guard, draw, scan_row,
}
use distributed_scheduler.Retry.{calculate_backoff}
use distributed_scheduler.JobStore.Queries.{by_id, touch, whole_seconds, record_transition}
use distributed_scheduler.JobStore.Results.{
  exhausted, can_finish, complete_row, fail_row, complete_job, fail_job, read_retry_count,
  update_failed, record_failure,
}
use distributed_scheduler.JobStore.History.{find_job}

pub by_id_apart :
    (other job_id : String) (y : JobRow)
    → other ≢ job_id
    → by_id job_id y ≡ true
    → by_id other y ≡ false
by_id_apart other job_id y ne t = elim (Bool-cases (by_id other y)) [
  | inl h ↦ absurd (ne (sym ((eq_iff y.id other).0 h) ∙ (eq_iff y.id job_id).0 t))
  | inr h ↦ h
]

-- A search by a condition that a found row meets finds a row.
met :
    (p q : JobRow → Bool) (x : JobRow) (xs : List JobRow)
    → first q xs ≡ some x
    → p x ≡ true
    → (y : JobRow) × (first p xs ≡ some y)
met p q x xs h t = In-first p x xs (first-In q x xs h) t

module _ (e : Env) (s : Session) (job_id worker_id : String) (v : ℕ) (x : JobRow)
    (stored : find_job job_id s.db ≡ some x) (holds : can_finish job_id worker_id v x ≡ true) where
  -- CompleteJob, its two statements answered: it succeeds for the worker that holds the lease, the
  -- job is SUCCEEDED, completed now and started at the latest now, and no other job changes.
  pub complete_job_updates :
      e.link s.sent ≡ answered
      → e.link (suc s.sent) ≡ answered
      → let now = e.clock s.sent in
        let (result, t) = complete_job e job_id worker_id v s in
        (result ≡ ok tt)
        × (find_job job_id t.db ≡ some (touch now (complete_row now x)))
        × ((other : String) → other ≢ job_id → find_job other t.db ≡ find_job other s.db)
  unfolding complete_job record_transition ◌>>=◌ ◌>>◌ statement return guard
  complete_job_updates l l' =
      let now = e.clock s.sent in
      let p = can_finish job_id worker_id v in
      let f = λ (r : JobRow). touch now (complete_row now r) in
      let at = first-update_at (by_id job_id) p f (λ y. refl) x s.db.jobs stored in
      let (y, hit) = met p (by_id job_id) x s.db.jobs stored holds in
      let some_match = first-matching p f y s.db.jobs hit in
      (
        ground (arith, l, l', at, some_match),
        ground (arith, l, l', at, some_match, holds),
        λ other ne.
            let rest =
              first-update_apart (by_id other) p f (λ y. refl)
                (λ y t. by_id_apart other job_id y ne (ground arith)) s.db.jobs in
            ground (arith, l, l', at, some_match, rest),
      )

  -- FailJob, its three statements answered: it succeeds for the worker that holds the lease, counts
  -- the failure, records the reason and takes the lease away; a job with tries left is PENDING again,
  -- not before the backoff has passed, and one with none left is DEAD_LETTER; no other job changes.
  pub fail_job_updates :
      (reason : String) (base_delay max_delay : ℕ)
      → e.link s.sent ≡ answered
      → e.link (suc s.sent) ≡ answered
      → e.link (suc (suc s.sent)) ≡ answered
      → let now = e.clock (suc s.sent) in
        let delay = whole_seconds (
          calculate_backoff e.to_float64 e.to_int64
            (e.rand (suc s.sent))
            x.retry_count
            base_delay
            max_delay) in
        let y = touch now (fail_row reason delay now x) in
        let (result, t) = fail_job e job_id worker_id reason v base_delay max_delay s in
        (result ≡ ok tt)
        × (find_job job_id t.db ≡ some y)
        × (((x.retry_count + 1 < x.max_retries)
              × (y.status ≡ pending)
              × (y.retry_after ≡ some (now + delay)))
            ⊎ ((x.max_retries ≤ x.retry_count + 1)
                × (y.status ≡ dead_letter)
                × (y.retry_after ≡ none)))
        × ((other : String) → other ≢ job_id → find_job other t.db ≡ find_job other s.db)
  unfolding fail_job update_failed read_retry_count record_failure record_transition draw scan_row
      ◌>>=◌ statement
  fail_job_updates m b c l l' l'' =
      let now = e.clock (suc s.sent) in
      let delay =
        whole_seconds
          (calculate_backoff e.to_float64 e.to_int64 (e.rand (suc s.sent)) x.retry_count b c) in
      let p = can_finish job_id worker_id v in
      let f = λ (r : JobRow). touch now (fail_row m delay now r) in
      let at = first-update_at (by_id job_id) p f (λ y. refl) x s.db.jobs stored in
      let (y, hit) = met p (by_id job_id) x s.db.jobs stored holds in
      let (r, rs, rows) = select-first p f y s.db.jobs hit in
      (
        ground (arith, l, l', l'', at, rows),
        ground (arith, l, l', l'', at, rows),
        elim (Bool-cases (exhausted x)) [
          | inl spent ↦ inr (ground arith, ground (arith, spent), ground (arith, spent))
          | inr left ↦ inl (ground arith, ground (arith, left), ground (arith, left))
        ],
        λ other ne.
            let rest =
              first-update_apart (by_id other) p f (λ y. refl)
                (λ y t. by_id_apart other job_id y ne (ground arith)) s.db.jobs in
            ground (arith, l, l', l'', at, rows, rest),
      )
