-- ===== src/Texts.antt =====
-- What the workers use of Go's packages strings and unicode, on texts as lists of code points.
-- A text that comes from JSON is valid UTF-8, so that its code points and its bytes determine each
-- other; what a process or a server writes is a list of bytes.
pub mod Substrings
pub mod Words
use Prim.Native.Char.{code}
use Prim.Native.String
use distributed_scheduler.Prelude.{
  ℕ, suc, ◌+◌, ◌≤◌, String, Bool, true, false, ◌&&◌, ◌||◌, Option, none, some, List, [], ◌∷◌, ◌++◌,
  map, length, take, drop, ltb, leb, ◌==◌, if◌then◌else◌,
}

abbrev pub Text : Type 0
Text = List ℕ

-- The code points of a literal.
abbrev pub codes : String → Text
codes String.[] = []
codes (String.◌∷◌ c s) = code c ∷ codes s

-- s == t
unfoldable pub text_eq : Text → Text → Bool
text_eq [] [] = true
text_eq [] (d ∷ t) = false
text_eq (c ∷ s) [] = false
text_eq (c ∷ s) (d ∷ t) = c == d && text_eq s t

-- A map[string]bool, by the keys that are true.
unfoldable pub text_in : Text → List Text → Bool
unfolding text_eq
text_in s [] = false
text_in s (t ∷ ts) = text_eq s t || text_in s ts

-- strings.HasPrefix(s, p)
unfoldable pub has_prefix : Text → Text → Bool
has_prefix s [] = true
has_prefix [] (c ∷ p) = false
has_prefix (d ∷ s) (c ∷ p) = d == c && has_prefix s p

-- strings.Contains(s, p)
unfoldable pub contains : Text → Text → Bool
unfolding has_prefix
contains [] p = has_prefix [] p
contains (c ∷ s) p = has_prefix (c ∷ s) p || contains s p

later_index : Bool → Option ℕ → Option ℕ
later_index here (some i) = some (suc i)
later_index here none = if here then some 0 else none

-- strings.LastIndex(s, c) of one character; `none` is -1
unfoldable pub last_index : Text → ℕ → Option ℕ
unfolding later_index
last_index [] c = none
last_index (d ∷ s) c = later_index (d == c) (last_index s c)

-- unicode.IsSpace
unfoldable pub is_space : ℕ → Bool
is_space c =
    (leb 9 c && leb c 13)
    || c == 32
    || c == 0x85
    || c == 0xA0
    || c == 0x1680
    || (leb 0x2000 c && leb c 0x200A)
    || c == 0x2028
    || c == 0x2029
    || c == 0x202F
    || c == 0x205F
    || c == 0x3000

-- A word that has ended, if it is not empty.
abbrev pub flush : Text → List Text → List Text
flush [] ws = ws
flush (c ∷ w) ws = (c ∷ w) ∷ ws

-- The word so far, after a character.
unfoldable pub next_word : Text → ℕ → Text
next_word w c = if is_space c then [] else w ++ c ∷ []

unfoldable pub fields_from : Text → Text → List Text
fields_from w [] = flush w []
fields_from w (c ∷ s) =
    let rest = fields_from (next_word w c) s in if is_space c then flush w rest else rest

-- strings.Fields
unfoldable pub fields : Text → List Text
unfolding fields_from next_word
fields s = fields_from [] s

-- strings.ToLower, with the case table of the characters that are not ASCII
unfoldable pub lower : (ℕ → ℕ) → ℕ → ℕ
lower table c = if ltb c 128 then if leb b'A' c && leb c b'Z' then c + 32 else c else table c

unfoldable pub to_lower : (ℕ → ℕ) → Text → Text
unfolding lower
to_lower table s = map (lower table) s
