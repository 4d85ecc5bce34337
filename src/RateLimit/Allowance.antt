-- ===== src/RateLimit/Allowance.antt =====
-- How many requests of a tenant scheduler/ratelimit.go lets through.
use distributed_scheduler.Prelude.{ℕ, ◌≤◌, List, [], ◌∷◌}
use distributed_scheduler.RateLimit.{Event, calls, cleans}

-- Events in order of time, from `from` to `end`.
abbrev pub time : Event → ℕ
time (calls caller now) = now
time (cleans now) = now

abbrev pub Within : ℕ → ℕ → List Event → Type 0
Within from end [] = from ≤ end
Within from end (ev ∷ evs) = (from ≤ time ev) × (time ev ≤ end) × Within (time ev) end evs
