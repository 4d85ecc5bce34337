-- ===== src/Retry.antt =====
-- internal/retry/backoff.go: the delay before a job is tried again.
-- Delays are int64 nanoseconds. The conversion of an int64 to a float64 (`to_float64`), which rounds
-- past 2^53, its conversion back (`to_int64`) and rand.Int63n (`rand`) are parameters. The product with
-- a power of two is exact, since a float64 scales by these.
pub mod Bounds
mod Examples
use distributed_scheduler.Prelude.{
  ℕ, ◌+◌, ◌-◌, ◌*◌, ◌/◌, ◌^◌, Bool, true, false, ltb, if◌then◌else◌,
}
use distributed_scheduler.Prelude.Int.{ℤ, pos, negsuc, pos_part}

-- An int64 that has grown past its range comes out negative.
unfoldable pub wrap_int64 : ℕ → ℤ
wrap_int64 n = if ltb n (2 ^ 63) then pos n else negsuc (2 ^ 64 - 1 - n)

abbrev is_negative : ℤ → Bool
is_negative (pos n) = false
is_negative (negsuc n) = true

-- min(d, max_delay)
cap_delay : ℤ → ℕ → ℤ
cap_delay (pos d) max_delay = if ltb max_delay d then pos max_delay else pos d
cap_delay (negsuc d) max_delay = negsuc d

-- The jitter is drawn from 0 up to twice the range, less the range. A negative delay has no range.
add_jitter : (ℕ → ℕ) → ℤ → ℤ
unfolding wrap_int64
add_jitter rand delay =
    let jitter_range = pos_part delay / 4 in
    if ltb 0 jitter_range
    then wrap_int64 (pos_part delay + rand (2 * jitter_range) - jitter_range)
    else delay

unfoldable pub calculate_backoff : (ℕ → ℕ) → (ℕ → ℤ) → (ℕ → ℕ) → ℕ → ℕ → ℕ → ℕ
unfolding cap_delay add_jitter
calculate_backoff to_float64 to_int64 rand retry_count base_delay max_delay =
    let delay =
      add_jitter rand (cap_delay (to_int64 (to_float64 base_delay * 2 ^ retry_count)) max_delay) in
    if is_negative delay then base_delay else pos_part delay
