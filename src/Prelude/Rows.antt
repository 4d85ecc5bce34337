-- ===== src/Prelude/Rows.antt =====
-- SQL on a table held as a list of rows, in the order of insertion: WHERE is a Boolean test, ORDER BY
-- an order test, and rows that tie in an order stay in the order of the table.
use Prim.Native.Nat.{ℕ, suc}
use mathlib.Core.Path.{◌≡◌, refl, subst}
use mathlib.Core.Logic.{inl, inr}
use mathlib.Core.Bool.{Bool, true}
use mathlib.Core.Option.{Option, none, some}
use mathlib.Core.List.{List, [], ◌∷◌}
use native.Mathlib.Omega.{arith}
use distributed_scheduler.Prelude.Tests.{if◌then◌else◌, if_elim, Bool-cases}
use distributed_scheduler.Prelude.Lists.{All, length}

module _ {ℓ} {A : Type ℓ} where
  -- SELECT … WHERE p
  unfoldable pub select : (A → Bool) → List A → List A
  select p [] = []
  select p (x ∷ xs) = let rest = select p xs in if p x then x ∷ rest else rest

  -- the row that `SELECT … WHERE p` yields first
  unfoldable pub first : (A → Bool) → List A → Option A
  first p [] = none
  first p (x ∷ xs) = let rest = first p xs in if p x then some x else rest

  -- UPDATE … SET f WHERE p
  unfoldable pub update : (A → Bool) → (A → A) → List A → List A
  update p f [] = []
  update p f (x ∷ xs) = (if p x then f x else x) ∷ update p f xs

  -- how many rows a condition meets, such as RowsAffected
  unfoldable pub matching : (A → Bool) → List A → ℕ
  matching p [] = 0
  matching p (x ∷ xs) = let rest = matching p xs in if p x then suc rest else rest

  -- ORDER BY … LIMIT 1: `before y x` when y comes strictly before x
  unfoldable pub best : (A → A → Bool) → List A → Option A
  best before [] = none
  best before (x ∷ xs) = elim (best before xs) [
    | none ↦ some x
    | some y ↦ some (if before y x then y else x)
  ]

  insert_row : (A → A → Bool) → A → List A → List A
  insert_row before x [] = x ∷ []
  insert_row before x (y ∷ ys) =
      let rest = insert_row before x ys in if before y x then y ∷ rest else x ∷ y ∷ ys

  -- ORDER BY
  unfoldable pub order_by : (A → A → Bool) → List A → List A
  unfolding insert_row
  order_by before [] = []
  order_by before (x ∷ xs) = insert_row before x (order_by before xs)

  pub first-select : (p : A → Bool) (xs : List A) {x : A} → first p xs ≡ some x → p x ≡ true
  unfolding first
  first-select p [] h = cc
  first-select p (x ∷ xs) {x = y} h = ground (arith, first-select p xs {x = y})

  pub first-none-matching : (p : A → Bool) (xs : List A) → first p xs ≡ none → matching p xs ≡ 0
  unfolding first matching
  first-none-matching p [] h = refl
  first-none-matching p (x ∷ xs) h = ground (arith, first-none-matching p xs)

  pub matching-select : (p : A → Bool) (xs : List A) → length (select p xs) ≡ matching p xs
  unfolding select matching
  matching-select p [] = refl
  matching-select p (x ∷ xs) = ground (arith, matching-select p xs)

  -- An update that no row meets changes nothing.
  pub update_no_match :
      (p : A → Bool) (f : A → A) (xs : List A) → matching p xs ≡ 0 → update p f xs ≡ xs
  unfolding update matching
  update_no_match p f [] h = refl
  update_no_match p f (x ∷ xs) h = ground (arith, update_no_match p f xs)

  pub select-All : (p : A → Bool) (xs : List A) → All (λ x. p x ≡ true) (select p xs)
  unfolding select
  select-All p [] = tt
  select-All p (x ∷ xs) =
      let rest = select-All p xs in
      if_elim (All (λ y. p y ≡ true)) (p x) (λ e. (e, rest)) (λ e. rest)

  module _ {κ} (P : A → Type κ) where
    pub All-update :
        (p : A → Bool) (f : A → A)
        → ((x : A) → p x ≡ true → P x → P (f x))
        → (xs : List A) → All P xs
        → All P (update p f xs)
    unfolding update
    All-update p f k [] h = tt
    All-update p f k (x ∷ xs) h =
        (if_elim P (p x) (λ e. k x e h.0) (λ e. h.0), All-update p f k xs h.1)

    pub All-select : (p : A → Bool) (xs : List A) → All P xs → All P (select p xs)
    unfolding select
    All-select p [] h = tt
    All-select p (x ∷ xs) h =
        let rest = All-select p xs h.1 in if_elim (All P) (p x) (λ e. (h.0, rest)) (λ e. rest)

    insert_row-All :
        (before : A → A → Bool) (x : A) (xs : List A)
        → P x
        → All P xs
        → All P (insert_row before x xs)
    unfolding insert_row
    insert_row-All before x [] h k = (h, tt)
    insert_row-All before x (y ∷ ys) h k =
        let rest = insert_row-All before x ys h k.1 in
        if_elim (All P) (before y x) (λ e. (k.0, rest)) (λ e. (h, k))

    pub All-order_by : (before : A → A → Bool) (xs : List A) → All P xs → All P (order_by before xs)
    unfolding order_by
    All-order_by before [] h = tt
    All-order_by before (x ∷ xs) h =
        insert_row-All before x (order_by before xs) h.0 (All-order_by before xs h.1)

    pub All-first : (p : A → Bool) (xs : List A) {x : A} → All P xs → first p xs ≡ some x → P x
    unfolding first
    All-first p [] h e = cc
    All-first p (x ∷ xs) {x = y} h e = elim (Bool-cases (p x)) [
      | inl t ↦ subst P (cc) h.0
      | inr f ↦ All-first p xs h.1 (ground arith)
    ]
