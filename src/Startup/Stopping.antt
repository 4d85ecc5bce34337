-- ===== src/Startup/Stopping.antt =====
-- When a worker that stops has waited long enough.
use distributed_scheduler.Prelude.{
  ℕ, zero, suc, ◌+◌, ◌≤◌, ◌<◌, ◌≡◌, ◌==◌, ap, ◌∙◌, arith, Bool-cases, inl, inr,
}
use distributed_scheduler.Startup.{cleanly, drain_wait}

-- A worker whose jobs are gone by a tick before the deadline stops cleanly, at that tick or at an
-- earlier one that finds no job.
pub drain_wait-cleanly :
    (remaining : ℕ → ℕ) (ticks from n : ℕ)
    → n < ticks
    → remaining (from + n) ≡ 0
    → (m : ℕ) × (drain_wait remaining ticks from ≡ cleanly m) × (m ≤ from + n) × (remaining m ≡ 0)
unfolding drain_wait
drain_wait-cleanly remaining zero from n h e = absurd (omega (arith, h))
drain_wait-cleanly remaining (suc ticks) from zero h e =
    let here : remaining from ≡ 0 = ground arith in (from, ground arith, omega arith, here)
drain_wait-cleanly remaining (suc ticks) from (suc n) h e =
    elim (Bool-cases (remaining from == 0)) [
      | inl t ↦ (from, ground arith, omega arith, ground arith)
      | inr f ↦
          let shift : suc from + n ≡ from + suc n = omega arith in
          let (m, stops, bound, gone) =
            drain_wait-cleanly remaining ticks (suc from) n (omega arith)
              (ap remaining shift ∙ e) in
          (m, rw f stops, omega (arith, bound), gone)
    ]
