-- ===== src/WorkerStore/Selection.antt =====
-- Which worker internal/db/workerstore.go offers for the next job.
use distributed_scheduler.Prelude.{
  ℕ, ◌*◌, ◌≤◌, ◌<◌, ◌≡◌, ◌⊎◌, inl, inr, true, false, none, some, arith, select, best, All, In,
  In-All, All-of_In, In-select, select-In, IsStrict, best-Least, best-none-select, Option-cases,
}
use native.Mathlib.Nat.{le_of_mul-le-mul_left, mul-le-mul_right}
use distributed_scheduler.Models.{Worker}
use distributed_scheduler.Db.{Env, Session, ok, answered}
use distributed_scheduler.WorkerStore.{has_room, less_loaded, get_least_loaded_worker}

abbrev HasCapacity : Worker → Type 0
HasCapacity w = 0 < w.max_jobs

-- a/b ≤ c/d and c/d ≤ e/f give a/b ≤ e/f, over positive denominators.
fractions_trans : (a b c d e f : ℕ) → 0 < d → a * d ≤ c * b → c * f ≤ e * d → a * f ≤ e * b
fractions_trans a b c d e f pos h k =
    le_of_mul-le-mul_left {k = d} (omega (arith, mul-le-mul_right f h, mul-le-mul_right b k)) pos

less_loaded-IsStrict : IsStrict HasCapacity less_loaded
unfolding less_loaded
less_loaded-IsStrict = record {
  irreflexive = λ x. ground arith;
  asymmetric = λ x y h. ground arith;
  ties = λ x y z pos h k. ground (
    arith,
    fractions_trans x.active_jobs x.max_jobs y.active_jobs y.max_jobs z.active_jobs z.max_jobs pos,
  );
}

-- w is as good a choice as x.
abbrev pub NoMoreLoaded : Worker → Worker → Type 0
NoMoreLoaded w x = w.active_jobs * x.max_jobs ≤ x.active_jobs * w.max_jobs

not_before : (w x : Worker) → less_loaded x w ≡ false → NoMoreLoaded w x
unfolding less_loaded
not_before w x h = ground arith

-- An answered query offers no worker exactly when none is ACTIVE with fewer jobs than it can take; or
-- it offers such a worker whose load, jobs to capacity, is the least among them. It changes nothing.
pub get_least_loaded_worker_lem :
    (e : Env) (s : Session)
    → e.link s.sent ≡ answered
    → let (result, t) = get_least_loaded_worker e s in
      (t.db ≡ s.db)
      × (((result ≡ ok none) × All (λ x. has_room x ≡ false) s.db.workers)
          ⊎ ((w : Worker) × (result ≡ ok (some w))
              × In w s.db.workers
              × (has_room w ≡ true)
              × All (λ x. has_room x ≡ true → NoMoreLoaded w x) s.db.workers))
unfolding get_least_loaded_worker
get_least_loaded_worker_lem e s l = (
  ground (arith, l),
  elim (Option-cases (best less_loaded (select has_room s.db.workers))) [
    | inl h ↦ inl (ground (arith, l, h), best-none-select less_loaded has_room s.db.workers h)
    | inr (w, h) ↦
        let least =
          best-Least less_loaded less_loaded-IsStrict (select has_room s.db.workers) w
            (All-of_In HasCapacity _
              λ x i. let roomy = (select-In has_room x s.db.workers i).1 in ground arith)
            h in
        let (stored, roomy) = select-In has_room w s.db.workers least.0 in
        inr (
          w,
          ground (arith, l, h),
          stored,
          roomy,
          All-of_In _ s.db.workers λ x i room. not_before w x (
              In-All (λ z. less_loaded z w ≡ false) x _ least.1
                (In-select has_room x s.db.workers i room)),
        )
  ],
)
