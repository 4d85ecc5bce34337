-- ===== src/Prelude/Keys.antt =====
-- Rows in a table, the keys that tell them apart, and what ORDER BY … LIMIT 1 chooses.
use Prim.Native.String.{String}
use mathlib.Core.Path.{◌≡◌, refl, sym, ◌∙◌, subst, ap}
use mathlib.Core.Logic.{◌⊎◌, inl, inr, ◌≢◌}
use mathlib.Core.Bool.{Bool, true, false}
use mathlib.Core.Option.{none, some}
use mathlib.Core.List.{List, [], ◌∷◌, ◌++◌}
use native.Mathlib.Omega.{arith}
use text.Mathlib.Text.{◌==◌ as str_eq}
use text.Mathlib.TextEquality.{eq_iff}
use distributed_scheduler.Prelude.Tests.{if◌then◌else◌, if_elim, Bool-cases, Option-cases}
use distributed_scheduler.Prelude.Lists.{All}
use distributed_scheduler.Prelude.Rows.{select, first, update, matching, best}

module _ {A : Type 0} where
  abbrev pub In : A → List A → Type 0
  In r [] = ⊥
  In r (x ∷ xs) = (r ≡ x) ⊎ In r xs

  pub In-All {κ} : (P : A → Type κ) (r : A) (xs : List A) → All P xs → In r xs → P r
  In-All P r [] h k = absurd k
  In-All P r (x ∷ xs) h (inl e) = subst P (sym e) h.0
  In-All P r (x ∷ xs) h (inr k) = In-All P r xs h.1 k

  pub All-of_In {κ} : (P : A → Type κ) (xs : List A) → ((r : A) → In r xs → P r) → All P xs
  All-of_In P [] h = tt
  All-of_In P (x ∷ xs) h = (h x (inl refl), All-of_In P xs (λ r k. h r (inr k)))

  In-kept :
      (p : A → Bool) (r x : A) (xs ys : List A) (b : Bool)
      → p x ≡ b
      → (In r ys → In r xs × (p r ≡ true))
      → In r (if b then x ∷ ys else ys)
      → In r (x ∷ xs) × (p r ≡ true)
  In-kept p r x xs ys true e rest (inl same) = (inl same, rw same e)
  In-kept p r x xs ys true e rest (inr k) = (inr (rest k).0, (rest k).1)
  In-kept p r x xs ys false e rest k = (inr (rest k).0, (rest k).1)

  pub select-In : (p : A → Bool) (r : A) (xs : List A) → In r (select p xs) → In r xs × (p r ≡ true)
  unfolding select
  select-In p r [] k = absurd k
  select-In p r (x ∷ xs) k = In-kept p r x xs (select p xs) (p x) refl (select-In p r xs) k

  pub In-select : (p : A → Bool) (r : A) (xs : List A) → In r xs → p r ≡ true → In r (select p xs)
  unfolding select
  In-select p r [] k h = k
  In-select p r (x ∷ xs) (inl e) h =
      if_elim (In r) (p x) (λ t. inl e) (λ f. absurd (ground (arith, ap p e)))
  In-select p r (x ∷ xs) (inr k) h =
      let rest = In-select p r xs k h in if_elim (In r) (p x) (λ e. inr rest) (λ e. rest)

  best-none : (before : A → A → Bool) (xs : List A) → best before xs ≡ none → xs ≡ []
  unfolding best
  best-none before [] h = refl
  best-none before (x ∷ xs) h = ground arith

  abbrev pub Least : (A → A → Bool) → A → List A → Type 0
  Least before r xs = In r xs × All (λ x. before x r ≡ false) xs

  -- A strict order on the rows with `P`, in which rows may tie.
  pub record IsStrict (P : A → Type 0) (before : A → A → Bool) : Type 0 where
    pub irreflexive : (x : A) → before x x ≡ false
    pub asymmetric : (x y : A) → before y x ≡ true → before x y ≡ false
    pub ties : (x y z : A) → P y → before z y ≡ false → before y x ≡ false → before z x ≡ false

  All-ties :
      {P : A → Type 0} (before : A → A → Bool) (s : IsStrict P before) (x y : A) (xs : List A)
      → P y
      → before y x ≡ false
      → All (λ z. before z y ≡ false) xs
      → All (λ z. before z x ≡ false) xs
  All-ties before s x y [] i h k = tt
  All-ties before s x y (z ∷ xs) i h k = (s.ties x y z i k.0 h, All-ties before s x y xs i h k.1)

  best_step :
      {P : A → Type 0} (before : A → A → Bool) (s : IsStrict P before) (x y : A) (xs : List A)
      → P y
      → Least before y xs
      → (b : Bool) → before y x ≡ b
      → Least before (if b then y else x) (x ∷ xs)
  best_step before s x y xs i h true e = (inr h.0, (s.asymmetric x y e, h.1))
  best_step before s x y xs i h false e =
      (inl refl, (s.irreflexive x, All-ties before s x y xs i e h.1))

  -- ORDER BY … LIMIT 1 yields a row that no row of the table comes before, if there is a row.
  pub best-Least :
      {P : A → Type 0} (before : A → A → Bool)
      → IsStrict P before
      → (xs : List A) (r : A) → All P xs
      → best before xs ≡ some r
      → Least before r xs
  unfolding best
  best-Least before s [] r k h = cc
  best-Least {P} before s (x ∷ xs) r k h = elim (Option-cases (best before xs)) [
    | inl e ↦
        subst (λ r. Least before r (x ∷ xs)) (ground arith)
          (subst (λ xs. Least before x (x ∷ xs)) (sym (best-none before xs e))
            (inl refl, (s.irreflexive x, tt)))
    | inr (y, e) ↦
        let least = best-Least before s xs y k.1 e in
        subst (λ r. Least before r (x ∷ xs)) (ground arith)
          (best_step before s x y xs (In-All P y xs k.1 least.0) least (before y x) refl)
  ]

  pub best-none-select :
      (before : A → A → Bool) (p : A → Bool) (xs : List A)
      → best before (select p xs) ≡ none
      → All (λ x. p x ≡ false) xs
  best-none-select before p xs h =
      All-of_In (λ x. p x ≡ false) xs
        λ x k. elim (Bool-cases (p x)) [
          | inl t ↦ absurd (subst (In x) (best-none before _ h) (In-select p x xs k t))
          | inr f ↦ f
        ]

-- A column whose values tell the rows apart.
module _ {A : Type 0} (key : A → String) where
  abbrev pub Lacks : String → List A → Type 0
  Lacks k xs = All (λ x. key x ≢ k) xs

  abbrev pub Distinct : List A → Type 0
  Distinct [] = Unit {0}
  Distinct (x ∷ xs) = Lacks (key x) xs × Distinct xs

  Lacks-update :
      (k : String) (p : A → Bool) (f : A → A)
      → ((x : A) → key (f x) ≡ key x)
      → (xs : List A) → Lacks k xs
      → Lacks k (update p f xs)
  unfolding update
  Lacks-update k p f same [] h = tt
  Lacks-update k p f same (x ∷ xs) h = (
    if_elim (λ y. key y ≢ k) (p x) (λ _. λ e. h.0 (sym (same x) ∙ e)) (λ _. h.0),
    Lacks-update k p f same xs h.1,
  )

  pub Distinct-update :
      (p : A → Bool) (f : A → A)
      → ((x : A) → key (f x) ≡ key x)
      → (xs : List A) → Distinct xs
      → Distinct (update p f xs)
  unfolding update
  Distinct-update p f same [] h = tt
  Distinct-update p f same (x ∷ xs) h = (
    if_elim (λ y. Lacks (key y) (update p f xs)) (p x)
        (λ _. subst (λ k. Lacks k (update p f xs)) (sym (same x)) rest) (λ _. rest),
    Distinct-update p f same xs h.1,
  )
    where
      rest : Lacks (key x) (update p f xs)
      rest = Lacks-update (key x) p f same xs h.0

  Lacks-append :
      (k : String) (xs : List A) (y : A) → Lacks k xs → key y ≢ k → Lacks k (xs ++ y ∷ [])
  Lacks-append k [] y h n = (n, tt)
  Lacks-append k (x ∷ xs) y h n = (h.0, Lacks-append k xs y h.1 n)

  pub Distinct-append :
      (xs : List A) (y : A) → Distinct xs → Lacks (key y) xs → Distinct (xs ++ y ∷ [])
  Distinct-append [] y h n = (tt, tt)
  Distinct-append (x ∷ xs) y h n =
      (Lacks-append (key x) xs y h.0 (λ e. n.0 (sym e)), Distinct-append xs y h.1 n.1)

  -- A search by the key that finds nothing.
  pub first-none-Lacks :
      (k : String) (xs : List A) → first (λ x. str_eq (key x) k) xs ≡ none → Lacks k xs
  unfolding first
  first-none-Lacks k [] h = tt
  first-none-Lacks k (x ∷ xs) h =
      (λ e. ground (arith, eq_iff (key x) k, h), first-none-Lacks k xs (ground arith))

  -- The key determines the row.
  pub Distinct-unique :
      (r : A) (xs : List A) → Distinct xs → In r xs → All (λ x. key x ≡ key r → x ≡ r) xs
  Distinct-unique r [] h k = tt
  Distinct-unique r (x ∷ xs) h (inl e) = (
    λ _. sym e,
    All-of_In _ xs λ y i same. absurd (In-All (λ z. key z ≢ key x) y xs h.0 i (same ∙ ap key e)),
  )
  Distinct-unique r (x ∷ xs) h (inr k) = (
    λ same. absurd (In-All (λ z. key z ≢ key x) r xs h.0 k (sym same)),
    Distinct-unique r xs h.1 k,
  )

module _ {A : Type 0} (p : A → Bool) where
  pub first-In : (x : A) (xs : List A) → first p xs ≡ some x → In x xs
  unfolding first
  first-In x [] h = cc
  first-In x (y ∷ xs) h = elim (Bool-cases (p y)) [
    | inl t ↦ inl (ground arith)
    | inr f ↦ inr (first-In x xs (ground arith))
  ]

  pub matching_zero : (xs : List A) → All (λ x. p x ≡ false) xs → matching p xs ≡ 0
  unfolding matching
  matching_zero [] h = refl
  matching_zero (x ∷ xs) h = rw h.0 (matching_zero xs h.1)

  pub select_none : (xs : List A) → All (λ x. p x ≡ false) xs → select p xs ≡ []
  unfolding select
  select_none [] h = refl
  select_none (x ∷ xs) h = rw h.0 (select_none xs h.1)

  pub In-first : (r : A) (xs : List A) → In r xs → p r ≡ true → (x : A) × (first p xs ≡ some x)
  unfolding first
  In-first r [] k h = absurd k
  In-first r (x ∷ xs) k h = elim (Bool-cases (p x)) [
    | inl t ↦ (x, ground arith)
    | inr f ↦ let (y, e) = In-first r xs (later k f) h in (y, ground arith)
  ]
    where
      later : (r ≡ x) ⊎ In r xs → p x ≡ false → In r xs
      later (inl same) f = absurd (ground (arith, ap p same))
      later (inr k) f = k

  -- An update that keeps its condition.
  pub first-update :
      (f : A → A) (x : A) (xs : List A)
      → ((y : A) → p y ≡ true → p (f y) ≡ true)
      → first p xs ≡ some x
      → first p (update p f xs) ≡ some (f x)
  unfolding first update
  first-update f x [] keep h = cc
  first-update f x (y ∷ xs) keep h = elim (Bool-cases (p y)) [
    | inl t ↦ rw (t, keep y t) (ground arith)
    | inr e ↦ rw (e, e) (first-update f x xs keep (ground arith))
  ]

  pub first-append_new :
      (xs : List A) (y : A) → first p xs ≡ none → p y ≡ true → first p (xs ++ y ∷ []) ≡ some y
  unfolding first
  first-append_new [] y h t = rw t
  first-append_new (x ∷ xs) y h t = elim (Bool-cases (p x)) [
    | inl e ↦ absurd (ground arith)
    | inr e ↦ rw e (first-append_new xs y (ground arith) t)
  ]
