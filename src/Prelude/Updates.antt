-- ===== src/Prelude/Updates.antt =====
-- What searches and counts find after an UPDATE or an INSERT.
use Prim.Native.Nat.{suc, ◌≤◌, ◌<◌}
use mathlib.Core.Path.{◌≡◌, refl, sym, ap, ◌∙◌}
use mathlib.Core.Logic.{inl, inr, ◌≢◌}
use mathlib.Core.Bool.{Bool, true, false}
use mathlib.Core.Option.{some}
use mathlib.Core.List.{List, [], ◌∷◌, ◌++◌, map}
use native.Mathlib.Omega.{arith}
use distributed_scheduler.Prelude.Tests.{if◌then◌else◌, if_elim, Bool-cases}
use distributed_scheduler.Prelude.Lists.{All, length}
use distributed_scheduler.Prelude.Keys.{In}
use distributed_scheduler.Prelude.Rows.{select, first, update, matching}

module _ {A : Type 0} (q p : A → Bool) (f : A → A) (same : (y : A) → q (f y) ≡ q y) where
  pub first-update_at :
      (x : A) (xs : List A)
      → first q xs ≡ some x
      → first q (update p f xs) ≡ some (if p x then f x else x)
  unfolding first update
  first-update_at x [] h = cc
  first-update_at x (y ∷ xs) h = ground (arith, same y, first-update_at x xs)

  pub first-update_apart :
      ((y : A) → p y ≡ true → q y ≡ false) → (xs : List A) → first q (update p f xs) ≡ first q xs
  unfolding first update
  first-update_apart apart [] = refl
  first-update_apart apart (y ∷ xs) = ground (arith, same y, apart y, first-update_apart apart xs)

module _ {A : Type 0} (p : A → Bool) (f : A → A) where
  -- After the update no row meets the condition, where the update takes it away.
  pub update_clears :
      ((x : A) → p x ≡ true → p (f x) ≡ false)
      → (xs : List A) → All (λ x. p x ≡ false) (update p f xs)
  unfolding update
  update_clears h [] = tt
  update_clears h (x ∷ xs) = (if_elim (λ y. p y ≡ false) (p x) (h x) (λ e. e), update_clears h xs)

  pub length-map-select : (xs : List A) → length (map f (select p xs)) ≡ matching p xs
  unfolding select matching
  length-map-select [] = refl
  length-map-select (x ∷ xs) = ground (arith, length-map-select xs)

  pub first-matching : (x : A) (xs : List A) → first p xs ≡ some x → matching p xs ≢ 0
  unfolding first matching
  first-matching x [] h = cc
  first-matching x (y ∷ xs) h = ground (arith, first-matching x xs)

  pub select-first :
      (x : A) (xs : List A) → first p xs ≡ some x → (y : A) × (ys : List A) × (select p xs ≡ y ∷ ys)
  unfolding first select
  select-first x [] h = cc
  select-first x (y ∷ xs) h = elim (Bool-cases (p y)) [
    | inl t ↦ (y, select p xs, rw t)
    | inr e ↦ let (z, zs, rest) = select-first x xs (ground arith) in (z, zs, rw e rest)
  ]

-- Rows that an UPDATE takes out of a condition.
module _ {A : Type 0} (p q : A → Bool) (f : A → A) (out : (x : A) → p (f x) ≡ false) where
  matching-update-le : (xs : List A) → matching p (update q f xs) ≤ matching p xs
  unfolding matching update
  matching-update-le [] = omega arith
  matching-update-le (x ∷ xs) = ground (arith, out x, matching-update-le xs)

  pub matching-update-lt :
      (xs : List A) (r : A)
      → In r xs
      → p r ≡ true
      → q r ≡ true
      → matching p (update q f xs) < matching p xs
  unfolding matching update
  matching-update-lt [] r i h k = absurd i
  matching-update-lt (x ∷ xs) r (inl e) h k =
      let h' : p x ≡ true = sym (ap p e) ∙ h in
      let k' : q x ≡ true = sym (ap q e) ∙ k in ground (arith, out x, matching-update-le xs)
  matching-update-lt (x ∷ xs) r (inr i) h k = ground (arith, out x, matching-update-lt xs r i h k)

-- How many rows a condition meets after an INSERT.
pub matching-append :
    {A : Type 0} (p : A → Bool) (xs : List A) (y : A)
    → matching p (xs ++ y ∷ []) ≤ suc (matching p xs)
      × (p y ≡ false → matching p (xs ++ y ∷ []) ≡ matching p xs)
unfolding matching
matching-append p [] y = (ground arith, λ f. ground arith)
matching-append p (x ∷ xs) y =
    (ground (arith, (matching-append p xs y).0), λ f. ground (arith, (matching-append p xs y).1 f))
