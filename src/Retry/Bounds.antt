-- ===== src/Retry/Bounds.antt =====
-- Bounds of the delay that internal/retry/backoff.go computes.
use distributed_scheduler.Prelude.{
  ℕ, ◌+◌, ◌*◌, ◌/◌, ◌^◌, ◌≤◌, ◌<◌, ◌≡◌, ◌⊎◌, arith, ltb, if◌then◌else◌,
}
use distributed_scheduler.Prelude.Int.{ℤ, pos, negsuc, pos_part}
use distributed_scheduler.Retry.{is_negative, wrap_int64, cap_delay, add_jitter, calculate_backoff}

abbrev capped : ℕ → ℕ → ℕ
capped d max_delay = if ltb max_delay d then max_delay else d

module _ (to_float64 : ℕ → ℕ) (to_int64 : ℕ → ℤ) (rand : ℕ → ℕ)
    (drawn : (n : ℕ) → 0 < n → rand n < n) where
  -- Where a float64 holds the base delay exactly, as it does up to 2^53, the scaled delay fits an
  -- int64, the maximum is below 2^62, and the draw is below its bound, the delay lies within a quarter
  -- of min(base_delay * 2^retry_count, max_delay), below it and above it.
  pub calculate_backoff_bounds :
      ((n : ℕ) → n ≤ 2 ^ 53 → to_float64 n ≡ n)
      → ((n : ℕ) → n < 2 ^ 63 → to_int64 n ≡ pos n)
      → (retry_count base_delay max_delay : ℕ) → base_delay ≤ 2 ^ 53
      → base_delay * 2 ^ retry_count < 2 ^ 63
      → max_delay < 2 ^ 62
      → let delay = capped (base_delay * 2 ^ retry_count) max_delay in
        let backoff = calculate_backoff to_float64 to_int64 rand retry_count base_delay max_delay in
        (delay ≤ backoff + delay / 4) × (backoff ≤ delay + delay / 4)
  unfolding calculate_backoff
  calculate_backoff_bounds held exact n b m small h k =
      let delay = capped (b * 2 ^ n) m in
      rw (held b small) (ground (arith, exact (b * 2 ^ n) h, drawn (2 * (delay / 4))))

  delay_le :
      (z : ℤ) (base_delay max_delay : ℕ)
      → let delay = add_jitter rand (cap_delay z max_delay) in
        let backoff = if is_negative delay then base_delay else pos_part delay in
        (backoff ≤ max_delay + max_delay / 4) ⊎ (backoff ≡ base_delay)
  unfolding cap_delay add_jitter wrap_int64
  delay_le (pos d) b m = ground (arith, drawn (2 * (capped d m / 4)))
  delay_le (negsuc d) b m = ground arith

  -- Whatever the conversion gives, on overflow too, and where the draw is below its bound, the
  -- delay is at most a quarter above the maximum, or it is the base delay.
  pub calculate_backoff-le :
      (retry_count base_delay max_delay : ℕ)
      → let backoff = calculate_backoff to_float64 to_int64 rand retry_count base_delay max_delay in
        (backoff ≤ max_delay + max_delay / 4) ⊎ (backoff ≡ base_delay)
  unfolding calculate_backoff
  calculate_backoff-le n b m = delay_le (to_int64 (to_float64 b * 2 ^ n)) b m

-- Where the conversion overflows to a negative number, as it does on amd64, the job is retried after
-- the base delay again, and not after the maximum.
pub calculate_backoff_overflow :
    (to_float64 : ℕ → ℕ) (to_int64 : ℕ → ℤ) (rand : ℕ → ℕ) (retry_count base_delay max_delay d : ℕ)
    → to_int64 (to_float64 base_delay * 2 ^ retry_count) ≡ negsuc d
    → calculate_backoff to_float64 to_int64 rand retry_count base_delay max_delay ≡ base_delay
unfolding calculate_backoff
calculate_backoff_overflow to_float64 to_int64 rand n b m d h = ground arith
