-- ===== src/RateLimit/Cleanup.antt =====
-- The cleanup of scheduler/ratelimit.go, and the requests that come after it.
use distributed_scheduler.Prelude.{
  ℕ, ◌-◌, ◌*◌, ◌≤◌, ◌≡◌, ◌≢◌, refl, sym, ap, subst, ◌∙◌, String, Bool, true, false, not, none, some,
  List, [], ◌∷◌, arith, first, select, eq_iff, Bool-cases, inl, inr, Option-cases, All, All-select,
  All-first, Distinct, Lacks, if_elim,
}
use distributed_scheduler.RateLimit.Bound.{put_same}
use native.Mathlib.Nat.{mul-le-mul_right}
use distributed_scheduler.RateLimit.{
  token, refill, spend, take_token, Entry, RateLimiter, new_rate_limiter, is_for, new_bucket,
  bucket_for, allow, in_use, cleanup, Event, calls, cleans,
}

abbrev tenant_of : Entry → String
tenant_of x = x.tenant

-- A bucket of the limiter's own size and rate.
abbrev pub IsOwn : RateLimiter → Entry → Type 0
IsOwn rl x = (x.bucket.max_tokens ≡ rl.burst) × (x.bucket.refill_rate ≡ rl.rate)

pub record IsWellFormed (rl : RateLimiter) : Type 0 where
  pub one_each : Distinct tenant_of rl.buckets
  pub own : All (IsOwn rl) rl.buckets

module _ (q : Entry → Bool) where
  select-Lacks :
      (k : String) (xs : List Entry) → Lacks tenant_of k xs → Lacks tenant_of k (select q xs)
  select-Lacks k xs h = All-select (λ x. x.tenant ≢ k) q xs h

  select-Distinct : (xs : List Entry) → Distinct tenant_of xs → Distinct tenant_of (select q xs)
  unfolding select
  select-Distinct [] h = tt
  select-Distinct (x ∷ xs) h =
      let rest = select-Distinct xs h.1 in
      if_elim (Distinct tenant_of) (q x) (λ e. (select-Lacks x.tenant xs h.0, rest)) (λ e. rest)

  first-Lacks : (k : String) (xs : List Entry) → Lacks tenant_of k xs → first (is_for k) xs ≡ none
  unfolding first
  first-Lacks k [] h = refl
  first-Lacks k (x ∷ xs) h = ground (arith, eq_iff x.tenant k, h.0, first-Lacks k xs h.1)

  -- What a search finds after rows have been taken out.
  pub first-select_kept :
      (k : String) (xs : List Entry) (x : Entry)
      → first (is_for k) xs ≡ some x
      → q x ≡ true
      → first (is_for k) (select q xs) ≡ some x
  unfolding first select
  first-select_kept k [] x h t = cc
  first-select_kept k (y ∷ xs) x h t = ground (arith, h, t, first-select_kept k xs x)

  pub first-select_gone :
      (k : String) (xs : List Entry) (x : Entry)
      → Distinct tenant_of xs
      → first (is_for k) xs ≡ some x
      → q x ≡ false
      → first (is_for k) (select q xs) ≡ none
  unfolding first select
  first-select_gone k [] x d h f = cc
  first-select_gone k (y ∷ xs) x d h f = elim (Bool-cases (is_for k y)) [
    | inl t ↦
        let others = first-Lacks k (select q xs) (
          subst (λ k. Lacks tenant_of k (select q xs)) ((eq_iff y.tenant k).0 t)
            (select-Lacks y.tenant xs d.0)) in
        ground (arith, h, t, f, others)
    | inr t ↦ ground (arith, h, t, f, first-select_gone k xs x d.1)
  ]

  pub first-select-none :
      (k : String) (xs : List Entry)
      → first (is_for k) xs ≡ none
      → first (is_for k) (select q xs) ≡ none
  unfolding first select
  first-select-none k [] h = refl
  first-select-none k (y ∷ xs) h = ground (arith, h, first-select-none k xs)

-- A bucket that has been idle for long is full, as a new one is.
idle_full :
    (rl : RateLimiter) (c now : ℕ) (x : Entry)
    → IsOwn rl x
    → rl.burst ≤ rl.cleanup_tick * rl.rate
    → c ≤ now
    → in_use rl c x ≡ false
    → refill now x.bucket ≡ refill now (new_bucket rl now)
idle_full rl c now x own enough h idle =
    let long : rl.cleanup_tick ≤ now - x.bucket.last_refill = ground arith in
    let filled : rl.cleanup_tick * rl.rate ≤ (now - x.bucket.last_refill) * rl.rate =
      mul-le-mul_right rl.rate long in
    ground (arith, filled, own.0, own.1)

IsOwn-bucket :
    (rl : RateLimiter) (tenant : String) (now : ℕ)
    → IsWellFormed rl
    → IsOwn rl (record { tenant = tenant; bucket = bucket_for rl tenant now })
IsOwn-bucket rl tenant now w = elim (Option-cases (first (is_for tenant) rl.buckets)) [
  | inl new ↦ (ground (arith, new), ground (arith, new))
  | inr (x, known) ↦
      let own = All-first (IsOwn rl) (is_for tenant) rl.buckets w.own known in
      (ground (arith, known, own.0), ground (arith, known, own.1))
]

not_for-Lacks :
    (k : String) (xs : List Entry) → Lacks tenant_of k (select (λ x. not (is_for k x)) xs)
unfolding select
not_for-Lacks k [] = tt
not_for-Lacks k (x ∷ xs) =
    let rest = not_for-Lacks k xs in
    if_elim (Lacks tenant_of k) (not (is_for k x))
      (λ t. ((λ e. ground (arith, t, (eq_iff x.tenant k).1 e)), rest)) (λ f. rest)

pub allow-IsWellFormed :
    (rl : RateLimiter) (tenant : String) (now : ℕ)
    → IsWellFormed rl
    → IsWellFormed (allow rl tenant now).0
unfolding allow take_token
allow-IsWellFormed rl tenant now w =
    let q = λ (x : Entry). not (is_for tenant x) in
    let own = IsOwn-bucket rl tenant now w in
    record {
      one_each = (not_for-Lacks tenant rl.buckets, select-Distinct q rl.buckets w.one_each);
      own = (
        (ground (arith, own.0), ground (arith, own.1)),
        All-select (IsOwn rl) q rl.buckets w.own,
      );
    }

pub cleanup-IsWellFormed :
    (rl : RateLimiter) (now : ℕ) → IsWellFormed rl → IsWellFormed (cleanup rl now)
unfolding cleanup
cleanup-IsWellFormed rl now w = record {
  one_each = select-Distinct (in_use rl now) rl.buckets w.one_each;
  own = All-select (IsOwn rl) (in_use rl now) rl.buckets w.own;
}

abbrev pub after : RateLimiter → List Event → RateLimiter
after rl [] = rl
after rl (calls tenant now ∷ evs) = after (allow rl tenant now).0 evs
after rl (cleans now ∷ evs) = after (cleanup rl now) evs

after-IsWellFormed :
    (rl : RateLimiter) (evs : List Event)
    → IsWellFormed rl
    → IsWellFormed (after rl evs)
      × ((after rl evs).burst ≡ rl.burst)
      × ((after rl evs).rate ≡ rl.rate)
      × ((after rl evs).cleanup_tick ≡ rl.cleanup_tick)
unfolding allow cleanup
after-IsWellFormed rl [] w = (w, refl, refl, refl)
after-IsWellFormed rl (calls tenant now ∷ evs) w =
    after-IsWellFormed (allow rl tenant now).0 evs (allow-IsWellFormed rl tenant now w)
after-IsWellFormed rl (cleans now ∷ evs) w =
    after-IsWellFormed (cleanup rl now) evs (cleanup-IsWellFormed rl now w)

cleaned_bucket :
    (rl : RateLimiter) (tenant : String) (c now : ℕ)
    → IsWellFormed rl
    → rl.burst ≤ rl.cleanup_tick * rl.rate
    → c ≤ now
    → take_token now (bucket_for (cleanup rl c) tenant now)
      ≡ take_token now (bucket_for rl tenant now)
unfolding cleanup take_token
cleaned_bucket rl tenant c now w enough h = elim (Option-cases (first (is_for tenant) rl.buckets)) [
  | inl new ↦ rw (new, first-select-none (in_use rl c) tenant rl.buckets new)
  | inr (x, known) ↦ elim (Bool-cases (in_use rl c x)) [
    | inl used ↦ rw (known, first-select_kept (in_use rl c) tenant rl.buckets x known used)
    | inr idle ↦
        let own = All-first (IsOwn rl) (is_for tenant) rl.buckets w.own known in
        let gone = first-select_gone (in_use rl c) tenant rl.buckets x w.one_each known idle in
        let full = idle_full rl c now x own enough h idle in
        rw (known, gone) (ap (λ tb. spend tb) (sym full))
  ]
]

-- Where the burst is no more than what the rate adds in a cleanup interval, as it is by default,
-- the cleanup cannot be noticed: after any calls and cleanups, one more cleanup makes no difference
-- to the answer of a call that is no earlier, nor to the bucket that the call leaves.
pub cleanup_unnoticed :
    (per_second burst interval : ℕ) (evs : List Event) (tenant : String) (c now : ℕ)
    → burst * token ≤ interval * per_second
    → c ≤ now
    → let rl = after (new_rate_limiter per_second burst interval) evs in
      let (with_it, answer) = allow (cleanup rl c) tenant now in
      let (without_it, same_answer) = allow rl tenant now in
      (answer ≡ same_answer) × (bucket_for with_it tenant now ≡ bucket_for without_it tenant now)
unfolding allow first
cleanup_unnoticed per_second burst interval evs tenant c now enough h =
    let fresh = new_rate_limiter per_second burst interval in
    let (w, b, r, t) = after-IsWellFormed fresh evs (record { one_each = tt; own = tt }) in
    let rl = after fresh evs in
    let same = cleaned_bucket rl tenant c now w (rw (b, r, t) enough) h in
    (
      ap (λ x. x.1) same,
      put_same (cleanup rl c) tenant _ now ∙ ap (λ x. x.0) same ∙ sym (put_same rl tenant _ now),
    )
