-- ===== src/JobStore/Machine.antt =====
-- The life of one row of `jobs` as a step relation, stated by itself: what may become of a job, and
-- when; and what holds along every path of it.
use distributed_scheduler.Prelude.{
  ℕ, ◌+◌, ◌≤◌, ◌<◌, ◌≡◌, ◌≢◌, ◌⊎◌, String, true, false, none, some, arith,
}
use distributed_scheduler.Models.{
  pending, dispatched, running, succeeded, cancelled, dead_letter, in_flight, is_final,
}
use distributed_scheduler.Db.{JobRow}

-- A row as CreateJob inserts it.
pub record IsFresh (x : JobRow) : Type 0 where
  pub waits : x.status ≡ pending
  pub unleased : x.lease_version ≡ 0
  pub untried : x.retry_count ≡ 0
  pub unassigned : x.assigned_worker ≡ none
  pub no_lease : x.lease_id ≡ none
  pub no_expiry : x.lease_expires_at ≡ none

-- A lease on the job: a worker, under a version.
abbrev pub Holds : String → String → ℕ → JobRow → Type 0
Holds job_id worker_id v x =
    (x.id ≡ job_id) × (x.assigned_worker ≡ some worker_id) × (x.lease_version ≡ v)

abbrev pub InFlight : JobRow → Type 0
InFlight x = (x.status ≡ dispatched) ⊎ (x.status ≡ running)

abbrev pub IsOpen : JobRow → Type 0
IsOpen x = (x.status ≢ succeeded) × (x.status ≢ cancelled) × (x.status ≢ dead_letter)

-- Since when a job that ends at `now` has run.
abbrev pub Began : ℕ → JobRow → ℕ → Type 0
Began now x began = (x.started_at ≡ some began) ⊎ ((x.started_at ≡ none) × (began ≡ now))

-- What may happen to a job, as the product means it.
pub data Step (x : JobRow) : JobRow → Type 0 where
  claim :
      (now : ℕ) (worker_id lease_id : String) (expiry : ℕ)
      → x.status ≡ pending
      → Step x (record x {
        status = dispatched;
        assigned_worker = some worker_id;
        lease_id = some lease_id;
        lease_expires_at = some expiry;
        lease_version = x.lease_version + 1;
        dispatched_at = some now;
        updated_at = now;
      })
  start :
      (now : ℕ) (job_id worker_id : String) (v : ℕ)
      → Holds job_id worker_id v x
      → x.status ≡ dispatched
      → Step x (record x { status = running; started_at = some now; updated_at = now })
  complete :
      (now : ℕ) (job_id worker_id : String) (v began : ℕ)
      → Holds job_id worker_id v x
      → InFlight x
      → Began now x began
      → Step x (record x {
        status = succeeded;
        started_at = some began;
        completed_at = some now;
        updated_at = now;
      })
  retry :
      (now : ℕ) (job_id worker_id reason : String) (v delay : ℕ)
      → Holds job_id worker_id v x
      → InFlight x
      → x.retry_count + 1 < x.max_retries
      → Step x (record x {
        status = pending;
        retry_count = x.retry_count + 1;
        last_error = some reason;
        assigned_worker = none;
        lease_id = none;
        lease_expires_at = none;
        retry_after = some (now + delay);
        updated_at = now;
      })
  bury :
      (now : ℕ) (job_id worker_id reason : String) (v : ℕ)
      → Holds job_id worker_id v x
      → InFlight x
      → x.max_retries ≤ x.retry_count + 1
      → Step x (record x {
        status = dead_letter;
        retry_count = x.retry_count + 1;
        last_error = some reason;
        assigned_worker = none;
        lease_id = none;
        lease_expires_at = none;
        retry_after = none;
        updated_at = now;
      })
  reclaim :
      (now expiry : ℕ)
      → InFlight x
      → x.lease_expires_at ≡ some expiry
      → expiry < now
      → Step x (record x {
        status = pending;
        assigned_worker = none;
        lease_id = none;
        lease_expires_at = none;
        retry_after = none;
        updated_at = now;
      })
  cancel :
      (now : ℕ) (job_id tenant_id : String)
      → x.id ≡ job_id
      → x.tenant_id ≡ tenant_id
      → IsOpen x
      → Step x (record x { status = cancelled; updated_at = now })
  renew :
      (now : ℕ) (job_id worker_id : String) (v expiry : ℕ)
      → Holds job_id worker_id v x
      → x.status ≡ running
      → Step x (record x { lease_expires_at = some expiry; updated_at = now })

-- What a step was made for.
pub data Kind : Type 0 where
  claiming : (worker_id : String) → Kind
  starting : (job_id worker_id : String) (v : ℕ) → Kind
  completing : (job_id worker_id : String) (v : ℕ) → Kind
  failing : (job_id worker_id reason : String) (v : ℕ) → Kind
  reclaiming : Kind
  cancelling : (job_id tenant_id : String) → Kind
  renewing : (job_id worker_id : String) (v : ℕ) → Kind

abbrev pub kind_of : {x y : JobRow} → Step x y → Kind
kind_of (claim now w l t h) = claiming w
kind_of (start now j w v h d) = starting j w v
kind_of (complete now j w v b h f k) = completing j w v
kind_of (retry now j w m v b h f r) = failing j w m v
kind_of (bury now j w m v h f r) = failing j w m v
kind_of (reclaim now t f h l) = reclaiming
kind_of (cancel now j t h k o) = cancelling j t
kind_of (renew now j w v t h r) = renewing j w v

-- Every kind of step.
abbrev pub AnyKind : Kind → Type 0
AnyKind k = Unit

-- A step of one of the kinds `K`.
abbrev pub Move : (Kind → Type 0) → JobRow → JobRow → Type 0
Move K x y = (st : Step x y) × K (kind_of st)

-- A path of steps of the kinds `K`.
pub data Reach (K : Kind → Type 0) (x : JobRow) : JobRow → Type 0 where
  here : Reach K x x
  next : {y z : JobRow} → Reach K x y → Move K y z → Reach K x z

pub Reach-trans :
    {K : Kind → Type 0} (x : JobRow) {y z : JobRow} → Reach K x y → Reach K y z → Reach K x z
Reach-trans x r here = r
Reach-trans x r (next s t) = next (Reach-trans x r s) t

-- What every later state of a row keeps of it.
pub record Advances (x y : JobRow) : Type 0 where
  pub same_id : y.id ≡ x.id
  pub same_request : y.request_id ≡ x.request_id
  pub same_tenant : y.tenant_id ≡ x.tenant_id
  pub same_payload : y.payload ≡ x.payload
  pub same_limit : y.max_retries ≡ x.max_retries
  pub version_grows : x.lease_version ≤ y.lease_version
  pub count_grows : x.retry_count ≤ y.retry_count
  pub final_stays : is_final x.status ≡ true → y.status ≡ x.status
  -- A job in flight is under a newer lease, or still under the same one, with the same worker.
  pub one_holder :
      in_flight y.status ≡ true
      → (x.lease_version < y.lease_version)
        ⊎ ((y.lease_version ≡ x.lease_version)
            × (in_flight x.status ≡ true)
            × (y.assigned_worker ≡ x.assigned_worker))

Advances-refl : (x : JobRow) → Advances x x
Advances-refl x = ground arith

Step-Advances : {x y : JobRow} → Step x y → Advances x y
Step-Advances (claim now w l t h) = ground arith
Step-Advances (start now j w v h d) = ground arith
Step-Advances (complete now j w v b h f k) = ground arith
Step-Advances (retry now j w m v b h f r) = ground arith
Step-Advances (bury now j w m v h f r) = ground arith
Step-Advances (reclaim now t f h l) = ground arith
Step-Advances (cancel now j t h k op) = ground arith
Step-Advances (renew now j w v t h r) = ground arith

Advances-trans : (x y z : JobRow) → Advances x y → Advances y z → Advances x z
Advances-trans x y z a b = ground arith

pub Reach-Advances : {K : Kind → Type 0} {x y : JobRow} → Reach K x y → Advances x y
Reach-Advances {x} here = Advances-refl x
Reach-Advances {x} (next {y = y} {z = z} r s) =
    Advances-trans x y z (Reach-Advances r) (Step-Advances s.0)

-- What holds of a row at any time.
pub record IsSound (x : JobRow) : Type 0 where
  -- A job in flight has a worker, a lease and an expiry, and has been leased before.
  pub has_worker : in_flight x.status ≡ true → (w : String) × (x.assigned_worker ≡ some w)
  pub has_lease : in_flight x.status ≡ true → (l : String) × (x.lease_id ≡ some l)
  pub has_expiry : in_flight x.status ≡ true → (t : ℕ) × (x.lease_expires_at ≡ some t)
  pub was_leased : in_flight x.status ≡ true → 0 < x.lease_version
  -- A waiting job is nobody's, and has a try left, or has not failed yet.
  pub is_free : x.status ≡ pending → x.assigned_worker ≡ none
  pub has_tries :
      (x.status ≡ pending) ⊎ (in_flight x.status ≡ true)
      → (x.retry_count ≡ 0) ⊎ (x.retry_count < x.max_retries)
  -- A dead job has used up its tries; no job has failed under fewer leases than it has tries used.
  pub is_spent : x.status ≡ dead_letter → x.max_retries ≤ x.retry_count
  pub tries_leased : (x.retry_count + 1 ≤ x.lease_version) ⊎ (in_flight x.status ≡ false)
  pub tries_bounded : x.retry_count ≤ x.lease_version

pub IsFresh-IsSound : (x : JobRow) → IsFresh x → IsSound x
IsFresh-IsSound x f = ground arith

pub Step-IsSound : {x y : JobRow} → Step x y → IsSound x → IsSound y
Step-IsSound {x} (claim now w l t h) s = ground (arith, s.is_free, s.has_tries)
Step-IsSound {x} (start now j w v h d) s = ground arith
Step-IsSound {x} (complete now j w v b h f k) s = ground arith
Step-IsSound {x} (retry now j w m v b h f r) s = ground arith
Step-IsSound {x} (bury now j w m v h f r) s = ground arith
Step-IsSound {x} (reclaim now t f h l) s = ground arith
Step-IsSound {x} (cancel now j t h k op) s = ground arith
Step-IsSound {x} (renew now j w v t h r) s = ground arith

pub Reach-IsSound : {K : Kind → Type 0} {x y : JobRow} → Reach K x y → IsSound x → IsSound y
Reach-IsSound here s = s
Reach-IsSound (next r t) s = Step-IsSound t.0 (Reach-IsSound r s)
