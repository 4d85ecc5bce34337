-- ===== src/JobStore/Choice.antt =====
-- Which job the subquery of ClaimNextJob in internal/db/jobstore.go chooses.
use distributed_scheduler.Prelude.{
  ℕ, ◌≤◌, ◌≡◌, true, false, none, some, List, arith, select, All, All-intro, In, In-All, All-of_In,
  In-select, select-In, IsStrict, best-Least, best-none-select,
}
use distributed_scheduler.Models.{pending}
use distributed_scheduler.Db.{Db, Env, JobRow}
use distributed_scheduler.JobStore.Claiming.{priority_rank, eligible, claims_before, next_job}

claims_before-IsStrict : IsStrict (λ x. Unit {0}) claims_before
unfolding claims_before
claims_before-IsStrict = record {
  irreflexive = λ x. ground arith;
  asymmetric = λ x y h. ground arith;
  ties = λ x y z i h k. ground arith;
}

-- x is served no later than y: a higher priority, or the same and as old.
pub record Precedes (x y : JobRow) : Type 0 where
  pub ranked : priority_rank x.priority ≤ priority_rank y.priority
  pub older : priority_rank x.priority ≡ priority_rank y.priority → x.created_at ≤ y.created_at

Precedes-of_before : (r x : JobRow) → claims_before x r ≡ false → Precedes r x
unfolding claims_before
Precedes-of_before r x h = ground arith

pub record IsNext (e : Env) (n : ℕ) (jobs : List JobRow) (r : JobRow) : Type 0 where
  pub stored : In r jobs
  pub chosen : eligible e n r ≡ true
  pub foremost : All (λ x. eligible e n x ≡ true → Precedes r x) jobs

pub next_job-IsNext :
    (e : Env) (n : ℕ) (d : Db) (r : JobRow) → next_job e n d ≡ some r → IsNext e n d.jobs r
unfolding next_job
next_job-IsNext e n d r h =
    let (i, least) =
      best-Least claims_before claims_before-IsStrict (select (eligible e n) d.jobs) r
        (All-intro _ _ (λ x. tt)) h in
    let (stored, chosen) = select-In (eligible e n) r d.jobs i in
    record {
      stored = stored;
      chosen = chosen;
      foremost = All-of_In _ d.jobs λ x k ok. Precedes-of_before r x (
          In-All (λ z. claims_before z r ≡ false) x _ least
            (In-select (eligible e n) x d.jobs k ok));
    }

-- No job is chosen exactly when none is eligible.
pub next_job-none :
    (e : Env) (n : ℕ) (d : Db) → next_job e n d ≡ none → All (λ x. eligible e n x ≡ false) d.jobs
unfolding next_job
next_job-none e n d h = best-none-select claims_before (eligible e n) d.jobs h

pub eligible-pending : (e : Env) (n : ℕ) (r : JobRow) → eligible e n r ≡ true → r.status ≡ pending
unfolding eligible
eligible-pending e n r h = ground arith
