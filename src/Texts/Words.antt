-- ===== src/Texts/Words.antt =====
-- strings.Fields against its words: what they are made of, and what they are put together to.
use distributed_scheduler.Prelude.{
  ℕ, ◌≡◌, refl, ◌≢◌, sym, ◌∙◌, true, false, List, [], ◌∷◌, ◌++◌, All, All-append, if_elim, arith,
  Bool-cases, inl, inr, ap,
}
use mathlib.Core.List.{append-nil, append_assoc}
use distributed_scheduler.Texts.{Text, is_space, fields, fields_from, flush, next_word}

abbrev pub IsSpace : ℕ → Type 0
IsSpace c = is_space c ≡ true

abbrev pub IsBlank : Text → Type 0
IsBlank s = All IsSpace s

abbrev pub NotSpace : ℕ → Type 0
NotSpace c = is_space c ≡ false

abbrev pub IsSolid : Text → Type 0
IsSolid w = All NotSpace w

abbrev pub IsWord : Text → Type 0
IsWord w = (w ≢ []) × IsSolid w

-- Every word is one: not empty, and without white space.
flush-IsWord : (w : Text) (ws : List Text) → IsSolid w → All IsWord ws → All IsWord (flush w ws)
flush-IsWord [] ws s h = h
flush-IsWord (c ∷ w) ws s h = (((λ e. cc), s), h)

next_word-IsSolid : (w : Text) (c : ℕ) → IsSolid w → IsSolid (next_word w c)
unfolding next_word
next_word-IsSolid w c s = elim (Bool-cases (is_space c)) [
  | inl e ↦ rw e tt
  | inr e ↦ rw e (All-append NotSpace w (c ∷ []) s (e, tt))
]

fields_from-IsWord : (w s : Text) → IsSolid w → All IsWord (fields_from w s)
unfolding fields_from
fields_from-IsWord w [] h = flush-IsWord w [] h tt
fields_from-IsWord w (c ∷ s) h =
    let rest = fields_from-IsWord (next_word w c) s (next_word-IsSolid w c h) in
    if_elim (All IsWord) (is_space c) (λ e. flush-IsWord w _ h rest) (λ e. rest)

pub fields-IsWord : (s : Text) → All IsWord (fields s)
unfolding fields
fields-IsWord s = fields_from-IsWord [] s tt

-- There are none exactly when there is nothing but white space.
flush-eq-nil : (w : Text) (ws : List Text) → flush w ws ≡ [] → (w ≡ []) × (ws ≡ [])
flush-eq-nil [] ws h = (refl, h)
flush-eq-nil (c ∷ w) ws h = absurd cc

next_word-ne-nil : (w : Text) (c : ℕ) → is_space c ≡ false → next_word w c ≢ []
unfolding next_word
next_word-ne-nil [] c e h = ground arith
next_word-ne-nil (d ∷ w) c e h = ground arith

fields_from-nil : (w s : Text) → fields_from w s ≡ [] → (w ≡ []) × IsBlank s
unfolding fields_from
fields_from-nil w [] h = ((flush-eq-nil w [] h).0, tt)
fields_from-nil w (c ∷ s) h = elim (Bool-cases (is_space c)) [
  | inl e ↦
      let both = flush-eq-nil w (fields_from (next_word w c) s) (ground arith) in
      (both.0, (e, (fields_from-nil (next_word w c) s both.1).1))
  | inr e ↦ absurd (next_word-ne-nil w c e (fields_from-nil (next_word w c) s (ground arith)).0)
]

pub fields-nil : (s : Text) → fields s ≡ [] → IsBlank s
unfolding fields
fields-nil s h = (fields_from-nil [] s h).1

fields_from-blank : (s : Text) → IsBlank s → fields_from [] s ≡ []
unfolding fields_from next_word
fields_from-blank [] h = refl
fields_from-blank (c ∷ s) (p, h) = ground (arith, fields_from-blank s h)

pub fields-blank : (s : Text) → IsBlank s → fields s ≡ []
unfolding fields
fields-blank s h = fields_from-blank s h

-- A word followed by the end, or by one white space character and more.
fields_from-solid : (w v s : Text) → IsSolid v → fields_from w (v ++ s) ≡ fields_from (w ++ v) s
unfolding fields_from next_word
fields_from-solid w [] s h = rw append-nil refl
fields_from-solid w (c ∷ v) s (p, h) =
    let rest = fields_from-solid (w ++ c ∷ []) v s h in
    rw p (rest ∙ ap (λ t. fields_from t s) (append_assoc w (c ∷ []) v))

pub fields-word : (v : Text) → IsWord v → fields v ≡ v ∷ []
unfolding fields fields_from
fields-word [] (n, h) = absurd (n refl)
fields-word (c ∷ v) (n, h) =
    ap (fields_from []) (sym (append-nil (c ∷ v))) ∙ fields_from-solid [] (c ∷ v) [] h

pub fields-word_space :
    (v : Text) (c : ℕ) (s : Text) → IsWord v → IsSpace c → fields (v ++ c ∷ s) ≡ v ∷ fields s
unfolding fields fields_from next_word
fields-word_space [] c s (n, h) e = absurd (n refl)
fields-word_space (d ∷ v) c s (n, h) e = fields_from-solid [] (d ∷ v) (c ∷ s) h ∙ rw e refl
