-- ===== src/RateLimit/Bound.antt =====
-- What a call of scheduler/ratelimit.go leaves of the credit of a tenant.
use distributed_scheduler.Prelude.{
  ℕ, ◌+◌, ◌-◌, ◌*◌, ◌≤◌, ◌≡◌, refl, sym, ap, subst, ◌∙◌, String, Bool, true, false, not, ◌&&◌, List,
  [], ◌∷◌, arith, first, select, str_eq, eq_iff, eq_refl, Bool-cases, inl, inr, if◌then◌else◌,
  Option-cases,
}
use distributed_scheduler.RateLimit.{
  TokenBucket, token, take_token, Entry, RateLimiter, is_for, bucket_for, put, allow,
}
use native.Mathlib.Nat.{add-mul, mul-le-mul_right}

-- What a bucket can let through by `end`.
abbrev pub credit : ℕ → TokenBucket → ℕ
credit end tb = tb.tokens + (end - tb.last_refill) * tb.refill_rate

pub rate_split : (a b r end : ℕ) → a ≤ b → b ≤ end → (b - a) * r + (end - b) * r ≡ (end - a) * r
rate_split a b r end h k = sym (add-mul (b - a) (end - b) r) ∙ ap (λ x. x * r) (omega (arith, h, k))

take_token-credit :
    (now end : ℕ) (tb : TokenBucket)
    → tb.last_refill ≤ now
    → now ≤ end
    → let (after, allowed) = take_token now tb in
      ((if allowed then token else 0) + credit end after ≤ credit end tb)
      × (after.last_refill ≡ now)
      × (after.refill_rate ≡ tb.refill_rate)
unfolding take_token
take_token-credit now end tb h k = (
  ground (arith, rate_split tb.last_refill now tb.refill_rate end h k),
  ground arith,
  ground arith,
)

-- The bucket of a tenant, for a call no earlier than `from`.
pub record IsReady (rl : RateLimiter) (tenant : String) (from : ℕ) : Type 0 where
  pub filled_before : (bucket_for rl tenant from).last_refill ≤ from
  pub at_rate : (bucket_for rl tenant from).refill_rate ≡ rl.rate

module _ (rl : RateLimiter) (tenant : String) where
  pub later_credit :
      (from now end : ℕ)
      → from ≤ now
      → IsReady rl tenant from
      → (credit end (bucket_for rl tenant now) ≤ credit end (bucket_for rl tenant from))
        × IsReady rl tenant now
  later_credit from now end h ready = elim (Option-cases (first (is_for tenant) rl.buckets)) [
    | inl new ↦
        let less : (end - now) * rl.rate ≤ (end - from) * rl.rate =
          mul-le-mul_right rl.rate (omega (arith, h)) in
        (
          ground (arith, new, less),
          record { filled_before = ground (arith, new); at_rate = ground (arith, new) },
        )
    | inr (x, known) ↦ (
      ground (arith, known),
      record {
        filled_before = ground (arith, known, h, ready.filled_before);
        at_rate = ground (arith, known, ready.at_rate);
      },
    )
  ]

  pub put_same : (tb : TokenBucket) (now : ℕ) → bucket_for (put tenant tb rl) tenant now ≡ tb
  unfolding first
  put_same tb now = ground (arith, eq_refl tenant)

first-select_apart :
    {A : Type 0} (p q : A → Bool) (xs : List A)
    → ((x : A) → p x ≡ true → q x ≡ true)
    → first p (select q xs) ≡ first p xs
unfolding first select
first-select_apart p q [] h = refl
first-select_apart p q (x ∷ xs) h = ground (arith, h x, first-select_apart p q xs h)

others :
    (caller tenant : String) (x : Entry)
    → str_eq caller tenant ≡ false
    → is_for tenant x ≡ true
    → not (is_for caller x) ≡ true
others caller tenant x ne t = elim (Bool-cases (is_for caller x)) [
  | inl h ↦
      let same =
        (eq_iff caller tenant).1
          (sym ((eq_iff x.tenant caller).0 h) ∙ (eq_iff x.tenant tenant).0 t) in
      absurd (ground (arith, ne, same))
  | inr h ↦ ground (arith, h)
]

put_other :
    (rl : RateLimiter) (caller tenant : String) (tb : TokenBucket) (now : ℕ)
    → str_eq caller tenant ≡ false
    → bucket_for (put caller tb rl) tenant now ≡ bucket_for rl tenant now
unfolding first
put_other rl caller tenant tb now ne =
    let kept =
      first-select_apart (is_for tenant) (λ x. not (is_for caller x)) rl.buckets
        λ x t. others caller tenant x ne t in
    ground (arith, ne, kept)

module _ (rl : RateLimiter) (tenant : String) (now end : ℕ) (k : now ≤ end) where
  -- What a call leaves of the tenant's credit.
  abbrev pub Spends : String → Type 0
  Spends caller =
      let (after, allowed) = allow rl caller now in
      IsReady after tenant now
      × ((if allowed && str_eq caller tenant then token else 0)
            + credit end (bucket_for after tenant now)
          ≤ credit end (bucket_for rl tenant now))

  own_call : IsReady rl tenant now → Spends tenant
  unfolding allow
  own_call ready =
      let before = bucket_for rl tenant now in
      let (spent, at, rate) = take_token-credit now end before ready.filled_before k in
      let after = (take_token now before).0 in
      let put_there = put_same rl tenant after now in
      (
        record {
          filled_before = ground (arith, put_there, at);
          at_rate = ground (arith, put_there, rate, ready.at_rate);
        },
        ground (arith, put_there, spent, eq_refl tenant),
      )

  other_call :
      (caller : String) → str_eq caller tenant ≡ false → IsReady rl tenant now → Spends caller
  unfolding allow
  other_call caller ne ready =
      let after = (take_token now (bucket_for rl caller now)).0 in
      let kept = put_other rl caller tenant after now ne in
      (
        record {
          filled_before = ground (arith, kept, ready.filled_before);
          at_rate = ground (arith, kept, ready.at_rate);
        },
        ground (arith, kept, ne),
      )

  pub call : (caller : String) → IsReady rl tenant now → Spends caller
  call caller ready = elim (Bool-cases (str_eq caller tenant)) [
    | inl same ↦ subst Spends (sym ((eq_iff caller tenant).0 same)) (own_call ready)
    | inr ne ↦ other_call caller ne ready
  ]
