-- ===== src/Executor/Commands/Checks.antt =====
-- The loops of validateCommand, and the base name, against what they look for.
use distributed_scheduler.Prelude.{
  suc, ◌≡◌, refl, ◌≢◌, ◌↔◌, inl, inr, sym, true, false, none, List, [], ◌∷◌, ◌++◌, drop, All, subst,
  arith, Bool-cases, Option-cases,
}
use distributed_scheduler.Texts.{Text, text_in, contains, last_index}
use distributed_scheduler.Texts.Substrings.{
  Among, Among-All, text_in-Among, Among-text_in, Contains, contains-Contains, Contains-contains,
  Lacks, last_index-Lacks, last_index-append, last_index-before, drop-suc-append,
}
use distributed_scheduler.Executor.Commands.{
  Outcome, done, panicked, allowed_commands, blocked_args, traversal, Rejection, base_name,
  find_blocked, check_traversal, check_patterns,
}

-- An argument that holds none of the patterns.
abbrev pub Avoids : Text → Text → Type 0
Avoids arg p = ¬ Contains arg p

abbrev pub IsClean : Text → Type 0
IsClean arg = All (Avoids arg) blocked_args × Avoids arg traversal

-- A path to one of the permitted names: the name, or the name after a directory.
pub data IsPathTo (name : Text) : Text → Type 0 where
  bare : IsPathTo name name
  under : (directory : Text) → IsPathTo name (directory ++ b'/' ∷ name)

pub record IsPermitted (binary : Text) : Type 0 where
  pub name : Text
  pub permitted : Among name allowed_commands
  pub path : IsPathTo name binary

Avoids-contains : (arg p : Text) → Avoids arg p → contains arg p ≡ false
Avoids-contains arg p h = elim (Bool-cases (contains arg p)) [
  | inl e ↦ absurd (h (contains-Contains arg p e))
  | inr e ↦ e
]

contains-Avoids : (arg p : Text) → contains arg p ≡ false → Avoids arg p
contains-Avoids arg p e h = let e' = Contains-contains arg p h in absurd cc

find_blocked-none : (arg : Text) (ps : List Text) → find_blocked arg ps ≡ none → All (Avoids arg) ps
unfolding find_blocked
find_blocked-none arg [] h = tt
find_blocked-none arg (p ∷ ps) h = elim (Bool-cases (contains arg p)) [
  | inl e ↦ absurd (ground arith)
  | inr e ↦ (contains-Avoids arg p e, find_blocked-none arg ps (ground arith))
]

All-find_blocked : (arg : Text) (ps : List Text) → All (Avoids arg) ps → find_blocked arg ps ≡ none
unfolding find_blocked
All-find_blocked arg [] h = refl
All-find_blocked arg (p ∷ ps) (a, h) = rw (Avoids-contains arg p a) (All-find_blocked arg ps h)

-- The two loops.
pub check_traversal-done :
    (args : List Text) → check_traversal args ≡ done → All (λ arg. Avoids arg traversal) args
unfolding check_traversal
check_traversal-done [] h = tt
check_traversal-done (arg ∷ args) h = elim (Bool-cases (contains arg traversal)) [
  | inl e ↦ absurd (ground arith)
  | inr e ↦ (contains-Avoids arg traversal e, check_traversal-done args (ground arith))
]

pub check_patterns-done :
    (args : List Text) (after : Outcome Rejection)
    → check_patterns args after ≡ done
    → All (λ arg. All (Avoids arg) blocked_args) args × (after ≡ done)
unfolding check_patterns
check_patterns-done [] after h = (tt, h)
check_patterns-done (arg ∷ args) after h = elim (Option-cases (find_blocked arg blocked_args)) [
  | inl e ↦
      let rest = check_patterns-done args after (ground arith) in
      ((find_blocked-none arg blocked_args e, rest.0), rest.1)
  | inr (p, e) ↦ absurd (ground arith)
]

pub check_traversal-ne-panicked : (args : List Text) → check_traversal args ≢ panicked
unfolding check_traversal
check_traversal-ne-panicked [] h = ground arith
check_traversal-ne-panicked (arg ∷ args) h = ground (arith, check_traversal-ne-panicked args)

pub check_patterns-ne-panicked :
    (args : List Text) (after : Outcome Rejection)
    → after ≢ panicked
    → check_patterns args after ≢ panicked
unfolding check_patterns
check_patterns-ne-panicked [] after n h = n h
check_patterns-ne-panicked (arg ∷ args) after n h =
    elim (Option-cases (find_blocked arg blocked_args)) [
      | inl e ↦ check_patterns-ne-panicked args after n (ground arith)
      | inr (p, e) ↦ ground arith
    ]

pub All-check_traversal : (args : List Text) → All IsClean args → check_traversal args ≡ done
unfolding check_traversal
All-check_traversal [] h = refl
All-check_traversal (arg ∷ args) (c, h) =
    rw (Avoids-contains arg traversal c.1) (All-check_traversal args h)

pub All-check_patterns :
    (args : List Text) (after : Outcome Rejection)
    → All IsClean args
    → check_patterns args after ≡ after
unfolding check_patterns
All-check_patterns [] after h = refl
All-check_patterns (arg ∷ args) after (c, h) =
    rw (All-find_blocked arg blocked_args c.0) (All-check_patterns args after h)

pub All-both :
    (args : List Text)
    → All (λ arg. All (Avoids arg) blocked_args) args
    → All (λ arg. Avoids arg traversal) args
    → All IsClean args
All-both [] h k = tt
All-both (arg ∷ args) h k = ((h.0, k.0), All-both args h.1 k.1)

-- The base name is the name that the path leads to.
base_name-IsPathTo : (binary : Text) → IsPathTo (base_name binary) binary
unfolding base_name
base_name-IsPathTo binary = elim (Option-cases (last_index binary b'/')) [
  | inl e ↦ rw e bare
  | inr (i, e) ↦
      let (before, p) = last_index-before binary b'/' e in
      rw e (subst (IsPathTo (drop (suc i) binary)) (sym p) (under before))
]

IsPathTo-base_name :
    (name binary : Text) → Lacks b'/' name → IsPathTo name binary → base_name binary ≡ name
unfolding base_name
IsPathTo-base_name name binary h bare = rw (last_index-Lacks name b'/' h) refl
IsPathTo-base_name name binary h (under directory) =
    rw (last_index-append directory name b'/' h) (drop-suc-append directory name b'/')

names_lack_slash : All (Lacks b'/') allowed_commands
names_lack_slash = omega arith

pub IsPermitted-iff :
    (binary : Text) → (text_in (base_name binary) allowed_commands ≡ true) ↔ IsPermitted binary
IsPermitted-iff binary = (
  λ h. record {
    name = base_name binary;
    permitted = text_in-Among (base_name binary) allowed_commands h;
    path = base_name-IsPathTo binary;
  },
  λ h.
      let lacks = Among-All (Lacks b'/') h.name allowed_commands h.permitted names_lack_slash in
      rw (IsPathTo-base_name h.name binary lacks h.path)
        (Among-text_in h.name allowed_commands h.permitted),
)
