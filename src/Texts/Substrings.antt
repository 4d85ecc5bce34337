-- ===== src/Texts/Substrings.antt =====
-- Comparison, search and the last index, against what they mean.
use distributed_scheduler.Prelude.{
  ℕ, suc, ◌≡◌, refl, ◌≢◌, ◌⊎◌, inl, inr, ap, true, none, some, List, [], ◌∷◌, ◌++◌, length, drop,
  All, sym, subst, arith, Bool-cases, Option-cases,
}
use distributed_scheduler.Texts.{Text, text_eq, text_in, has_prefix, contains, last_index}

pub eq_of_text_eq : (s t : Text) → text_eq s t ≡ true → s ≡ t
unfolding text_eq
eq_of_text_eq [] [] h = refl
eq_of_text_eq [] (d ∷ t) h = cc
eq_of_text_eq (c ∷ s) [] h = cc
eq_of_text_eq (c ∷ s) (d ∷ t) h = ground (arith, eq_of_text_eq s t)

pub text_eq_refl : (s : Text) → text_eq s s ≡ true
unfolding text_eq
text_eq_refl [] = refl
text_eq_refl (c ∷ s) = ground (arith, text_eq_refl s)

pub text_eq_of_eq : (s t : Text) → s ≡ t → text_eq s t ≡ true
text_eq_of_eq s t e = subst (λ u. text_eq s u ≡ true) e (text_eq_refl s)

-- A member of a list of texts.
abbrev pub Among : Text → List Text → Type 0
Among s [] = ⊥
Among s (t ∷ ts) = (s ≡ t) ⊎ Among s ts

pub text_in-Among : (s : Text) (ts : List Text) → text_in s ts ≡ true → Among s ts
unfolding text_in
text_in-Among s [] h = cc
text_in-Among s (t ∷ ts) h = elim (Bool-cases (text_eq s t)) [
  | inl e ↦ inl (eq_of_text_eq s t e)
  | inr e ↦ inr (text_in-Among s ts (ground arith))
]

pub Among-text_in : (s : Text) (ts : List Text) → Among s ts → text_in s ts ≡ true
unfolding text_in
Among-text_in s [] h = absurd h
Among-text_in s (t ∷ ts) (inl e) = ground (arith, text_eq_refl s)
Among-text_in s (t ∷ ts) (inr h) = ground (arith, Among-text_in s ts h)

pub Among-All {κ} : (P : Text → Type κ) (s : Text) (ts : List Text) → Among s ts → All P ts → P s
Among-All P s [] a h = absurd a
Among-All P s (t ∷ ts) (inl e) h = subst P (sym e) h.0
Among-All P s (t ∷ ts) (inr a) h = Among-All P s ts a h.1

-- A text with another somewhere inside.
pub record Contains (s p : Text) : Type 0 where
  pub before : Text
  pub after : Text
  pub whole : s ≡ before ++ (p ++ after)

pub has_prefix-after : (s p : Text) → has_prefix s p ≡ true → (after : Text) × (s ≡ p ++ after)
unfolding has_prefix
has_prefix-after s [] h = (s, refl)
has_prefix-after [] (c ∷ p) h = absurd cc
has_prefix-after (d ∷ s) (c ∷ p) h =
    let rest = has_prefix-after s p (ground arith) in (rest.0, ground (arith, rest.1))

pub has_prefix-append : (p after : Text) → has_prefix (p ++ after) p ≡ true
unfolding has_prefix
has_prefix-append [] after = refl
has_prefix-append (c ∷ p) after = ground (arith, has_prefix-append p after)

pub contains-Contains : (s p : Text) → contains s p ≡ true → Contains s p
unfolding contains
contains-Contains [] p h =
    let rest = has_prefix-after [] p h in record { before = []; after = rest.0; whole = rest.1 }
contains-Contains (c ∷ s) p h = elim (Bool-cases (has_prefix (c ∷ s) p)) [
  | inl e ↦
      let rest = has_prefix-after (c ∷ s) p e in
      record { before = []; after = rest.0; whole = rest.1 }
  | inr e ↦
      let rest = contains-Contains s p (ground arith) in
      record { before = c ∷ rest.before; after = rest.after; whole = ap (◌∷◌ c) rest.whole }
]

contains-here : (s p after : Text) → s ≡ p ++ after → contains s p ≡ true
unfolding contains
contains-here [] p after e = rw e (has_prefix-append p after)
contains-here (c ∷ s) p after e =
    let h : has_prefix (c ∷ s) p ≡ true = rw e (has_prefix-append p after) in ground arith

pub contains-append : (before p after : Text) → contains (before ++ (p ++ after)) p ≡ true
unfolding contains
contains-append [] p after = contains-here (p ++ after) p after refl
contains-append (c ∷ before) p after = ground (arith, contains-append before p after)

pub Contains-contains : (s p : Text) → Contains s p → contains s p ≡ true
Contains-contains s p h = rw h.whole (contains-append h.before p h.after)

-- The last index, from the text after it.
abbrev pub Lacks : ℕ → Text → Type 0
Lacks c s = All (λ d. d ≢ c) s

pub last_index-Lacks : (s : Text) (c : ℕ) → Lacks c s → last_index s c ≡ none
unfolding last_index
last_index-Lacks [] c h = refl
last_index-Lacks (d ∷ s) c (n, h) = ground (arith, last_index-Lacks s c h)

pub last_index-append :
    (before after : Text) (c : ℕ)
    → Lacks c after
    → last_index (before ++ c ∷ after) c ≡ some (length before)
unfolding last_index
last_index-append [] after c h = ground (arith, last_index-Lacks after c h)
last_index-append (d ∷ before) after c h = ground (arith, last_index-append before after c h)

pub drop-append : (before after : Text) → drop (length before) (before ++ after) ≡ after
drop-append [] after = refl
drop-append (d ∷ before) after = drop-append before after

pub drop-suc-append :
    (before after : Text) (c : ℕ) → drop (suc (length before)) (before ++ c ∷ after) ≡ after
drop-suc-append [] after c = refl
drop-suc-append (d ∷ before) after c = drop-suc-append before after c

-- What stands before the last index.
pub last_index-before :
    (s : Text) (c : ℕ) {i : ℕ}
    → last_index s c ≡ some i
    → (before : Text) × (s ≡ before ++ c ∷ drop (suc i) s)
unfolding last_index
last_index-before [] c h = absurd cc
last_index-before (d ∷ s) c {i} h = elim (Option-cases (last_index s c)) [
  | inl e ↦ ([], ground (arith))
  | inr (j, e) ↦ let rest = last_index-before s c e in (d ∷ rest.0, ground (arith, rest.1))
]
