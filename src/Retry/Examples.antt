-- ===== src/Retry/Examples.antt =====
-- The delays of internal/retry/backoff.go at small numbers.
use distributed_scheduler.Prelude.{ℕ, ◌+◌, ◌≤◌, refl, arith}
use distributed_scheduler.Prelude.Int.{pos}
use distributed_scheduler.Retry.{calculate_backoff}
use distributed_scheduler.Retry.Bounds.{calculate_backoff_bounds}

abbrev lowest : ℕ → ℕ
lowest bound = 0

calculate_backoff_bounds_example :
    let backoff = calculate_backoff (λ n. n) pos lowest 3 2000 60000 in
    (16000 ≤ backoff + 4000) × (backoff ≤ 20000)
calculate_backoff_bounds_example =
    calculate_backoff_bounds (λ n. n) pos lowest (λ n h. h) (λ n h. refl) (λ n h. refl) 3 2000 60000
      (omega arith) (omega arith) (omega arith)
