-- ===== src/Cron/Runs.antt =====
-- The runs that scheduler/cron.go catches up on, and the next run after a firing.
use distributed_scheduler.Prelude.{
  ℕ, zero, suc, ◌≤◌, ◌<◌, ◌≡◌, ◌⊎◌, inl, inr, refl, ap, String, Option, some, List, [], ◌∷◌, All,
  length, arith, leb, Bool-cases,
}
use distributed_scheduler.Models.{Schedule, MissedRunPolicy, skip, run_once, run_all}
use distributed_scheduler.Cron.{missed_runs, compute_missed_runs}

-- Each run is the next one after the run before it.
abbrev pub Follow : (ℕ → ℕ) → ℕ → List ℕ → Type 0
Follow next t [] = Unit {0}
Follow next t (x ∷ xs) = (x ≡ t) × Follow next (next x) xs

-- In order of time, with no run twice.
abbrev pub Increasing : List ℕ → Type 0
Increasing [] = Unit {0}
Increasing (x ∷ xs) = All (λ y. x < y) xs × Increasing xs

-- The run that follows the last one.
abbrev pub following : (ℕ → ℕ) → ℕ → List ℕ → ℕ
following next t [] = t
following next t (x ∷ xs) = following next (next x) xs

module _ (next : ℕ → ℕ) (onwards : (t : ℕ) → t < next t) (now : ℕ) where
  missed_runs-after :
      (more from t : ℕ) → from < t → All (λ y. from < y) (missed_runs (some next) now more t)
  unfolding missed_runs
  missed_runs-after zero from t h = tt
  missed_runs-after (suc more) from t h = elim (Bool-cases (leb t now)) [
    | inl due ↦ rw due (h, missed_runs-after more from (next t) (omega (arith, h, onwards t)))
    | inr later ↦ rw later tt
  ]

  missed_runs-some : (more t : ℕ) → t ≤ now → 0 < length (missed_runs (some next) now (suc more) t)
  unfolding missed_runs
  missed_runs-some more t due = ground arith

  missed_runs_lem :
      (more t : ℕ)
      → let runs = missed_runs (some next) now more t in
        (length runs ≤ more)
        × All (λ y. y ≤ now) runs
        × Increasing runs
        × Follow next t runs
        × ((length runs ≡ more) ⊎ (now < following next t runs))
  unfolding missed_runs
  missed_runs_lem zero t = (omega arith, tt, tt, tt, inl refl)
  missed_runs_lem (suc more) t = elim (Bool-cases (leb t now)) [
    | inl due ↦
        let (short, past, grow, follow, all_of_them) = missed_runs_lem more (next t) in
        rw due (
          omega (arith, short),
          (ground arith, past),
          (missed_runs-after more t (next t) (onwards t), grow),
          (refl, follow),
          elim all_of_them [ inl full ↦ inl (ap suc full) | inr last ↦ inr last ],
        )
    | inr later ↦ rw later (omega arith, tt, tt, tt, inr (ground arith))
  ]

module _ (parse : String → Option (ℕ → ℕ)) (request_id : String → ℕ → String) (sched : Schedule)
    (next : ℕ → ℕ) (now : ℕ) where
  -- What a firing owes a schedule under its policy.
  abbrev pub IsCaughtUp : MissedRunPolicy → List ℕ → Type 0
  IsCaughtUp run_all runs = (length runs ≡ 10) ⊎ (now < following next sched.next_run_at runs)
  IsCaughtUp _ runs = runs ≡ sched.next_run_at ∷ []

  abbrev CatchesUp : List ℕ → Type 0
  CatchesUp runs =
      (0 < length runs)
      × (length runs ≤ 10)
      × All (λ t. t ≤ now) runs
      × Increasing runs
      × Follow next sched.next_run_at runs
      × IsCaughtUp sched.missed_policy runs

  -- The runs that a due schedule, whose expression parses and goes forward in time, is fired for:
  -- the first is the one that it was due at, each is the next of the expression after the one
  -- before, none is later than now and none comes twice; they are at most ten. SKIP and RUN_ONCE
  -- fire that first run alone; RUN_ALL leaves out no run up to now, but where there are ten.
  pub compute_missed_runs_lem :
      parse sched.cron_expr ≡ some next
      → ((t : ℕ) → t < next t)
      → sched.next_run_at ≤ now
      → let runs = compute_missed_runs parse request_id sched now in
        (0 < length runs)
        × (length runs ≤ 10)
        × All (λ t. t ≤ now) runs
        × Increasing runs
        × Follow next sched.next_run_at runs
        × IsCaughtUp sched.missed_policy runs
  unfolding compute_missed_runs
  compute_missed_runs_lem parses onwards due = by_policy sched.missed_policy refl
    where
      by_policy :
          (p : MissedRunPolicy)
          → sched.missed_policy ≡ p
          → CatchesUp (compute_missed_runs parse request_id sched now)
      by_policy skip p = rw p (omega arith, omega arith, (due, tt), (tt, tt), (refl, tt), refl)
      by_policy run_once p = rw p (omega arith, omega arith, (due, tt), (tt, tt), (refl, tt), refl)
      by_policy run_all p =
          let (short, past, grow, follow, all_of_them) =
            missed_runs_lem next onwards now 10 sched.next_run_at in
          rw (p, parses)
            (
              missed_runs-some next onwards now 9 sched.next_run_at due,
              short,
              past,
              grow,
              follow,
              all_of_them,
            )
