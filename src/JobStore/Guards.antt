-- ===== src/JobStore/Guards.antt =====
-- The WHERE clauses and the SET clauses of internal/db/jobstore.go, as the guards and the outcomes of
-- the machine of a job.
use distributed_scheduler.Prelude.{
  ℕ, ◌+◌, ◌≡◌, ◌⊎◌, ◌≢◌, inl, inr, refl, String, true, false, Option, none, some, eq_iff,
  Bool-cases, Option-cases, arith,
}
use distributed_scheduler.Models.{
  JobStatus, pending, succeeded, cancelled, dead_letter, in_flight, is_final,
}
use distributed_scheduler.Db.{Env, JobRow}
use distributed_scheduler.JobStore.Queries.{touch, whole_seconds}
use distributed_scheduler.JobStore.Claiming.{claim_row}
use distributed_scheduler.JobStore.Results.{
  assigned_to, holds_lease, can_start, can_finish, exhausted, or_now, start_row, complete_row,
  fail_row,
}
use distributed_scheduler.JobStore.Sweeps.{expired, reclaim_row, can_cancel, cancel_row}
use distributed_scheduler.JobStore.Renewal.{can_renew, renew_row}
use distributed_scheduler.JobStore.Machine.{
  Holds, InFlight, Kind, Move, claiming, starting, completing, failing, reclaiming, cancelling,
  renewing, claim, start, complete, retry, bury, reclaim, cancel, renew,
}

assigned_eq : (w : String) (o : Option String) → assigned_to w o ≡ true → o ≡ some w
assigned_eq w none h = cc
assigned_eq w (some w') h = rw ((eq_iff w' w).0 h) refl

pub holds_lease-Holds :
    (j w : String) (v : ℕ) (x : JobRow) → holds_lease j w v x ≡ true → Holds j w v x
holds_lease-Holds j w v x h =
    ((eq_iff x.id j).0 (ground arith), assigned_eq w x.assigned_worker (ground arith), ground arith)

pub in_flight-InFlight : (x : JobRow) → in_flight x.status ≡ true → InFlight x
in_flight-InFlight x h = ground arith

pub open_status :
    (st : JobStatus)
    → is_final st ≡ false
    → (st ≢ succeeded) × (st ≢ cancelled) × (st ≢ dead_letter)
open_status st h = ground arith

pub or_now_began :
    (now : ℕ) (o : Option ℕ) → (o ≡ some (or_now now o)) ⊎ ((o ≡ none) × (or_now now o ≡ now))
or_now_began now none = inr (refl, refl)
or_now_began now (some t) = inl refl

module _ (K : Kind → Type 0) where
  pub claim-Move :
      (e : Env) (n : ℕ) (w : String) (l : ℕ) (x : JobRow)
      → K (claiming w)
      → x.status ≡ pending
      → Move K x (touch (e.clock n) (claim_row e n w l x))
  claim-Move e n w l x k h = (claim (e.clock n) w (e.uuid n) (e.clock n + whole_seconds l) h, k)

  pub start-Move :
      (now : ℕ) (j w : String) (v : ℕ) (x : JobRow)
      → K (starting j w v)
      → can_start j w v x ≡ true
      → Move K x (touch now (start_row now x))
  start-Move now j w v x k h =
      (start now j w v (holds_lease-Holds j w v x (ground arith)) (ground arith), k)

  pub complete-Move :
      (now : ℕ) (j w : String) (v : ℕ) (x : JobRow)
      → K (completing j w v)
      → can_finish j w v x ≡ true
      → Move K x (touch now (complete_row now x))
  complete-Move now j w v x k h =
      let held = holds_lease-Holds j w v x (ground arith) in
      let flies = in_flight-InFlight x (ground arith) in
      (complete now j w v (or_now now x.started_at) held flies (or_now_began now x.started_at), k)

  pub fail-Move :
      (now : ℕ) (j w m : String) (v delay : ℕ) (x : JobRow)
      → K (failing j w m v)
      → can_finish j w v x ≡ true
      → Move K x (touch now (fail_row m delay now x))
  fail-Move now j w m v delay x k h =
      let held = holds_lease-Holds j w v x (ground arith) in
      let flies = in_flight-InFlight x (ground arith) in
      elim (Bool-cases (exhausted x)) [
        | inl e ↦ rw e (bury now j w m v held flies (ground arith), k)
        | inr e ↦ rw e (retry now j w m v delay held flies (ground arith), k)
      ]

  pub reclaim-Move :
      (now : ℕ) (x : JobRow)
      → K reclaiming
      → expired now x ≡ true
      → Move K x (touch now (reclaim_row now x))
  reclaim-Move now x k h =
      let flies = in_flight-InFlight x (ground arith) in
      elim (Option-cases x.lease_expires_at) [
        | inl e ↦ absurd (ground arith)
        | inr (t, e) ↦ (reclaim now t flies e (ground arith), k)
      ]

  pub cancel-Move :
      (now : ℕ) (j t : String) (x : JobRow)
      → K (cancelling j t)
      → can_cancel j t x ≡ true
      → Move K x (touch now (cancel_row now x))
  cancel-Move now j t x k h = (
    cancel now j t ((eq_iff x.id j).0 (ground arith)) ((eq_iff x.tenant_id t).0 (ground arith))
        (open_status x.status (ground arith)),
    k,
  )

  pub renew-Move :
      (now : ℕ) (j w : String) (v expiry : ℕ) (x : JobRow)
      → K (renewing j w v)
      → can_renew j w v x ≡ true
      → Move K x (touch now (renew_row expiry x))
  renew-Move now j w v t x k h =
      (renew now j w v t (holds_lease-Holds j w v x (ground arith)) (ground arith), k)
