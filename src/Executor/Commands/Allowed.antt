-- ===== src/Executor/Commands/Allowed.antt =====
-- Which commands validateCommand lets through, refuses and panics at.
use distributed_scheduler.Prelude.{
  ◌≡◌, refl, ◌≢◌, ◌↔◌, inl, inr, sym, ◌∙◌, ap, false, List, [], ◌∷◌, All, arith, Bool-cases,
}
use distributed_scheduler.Texts.{Text, text_eq, text_in, fields}
use distributed_scheduler.Texts.Words.{IsBlank, fields-nil, fields-blank}
use distributed_scheduler.Executor.Commands.Checks.{
  IsPermitted, IsClean, check_traversal-done, check_patterns-done, check_traversal-ne-panicked,
  check_patterns-ne-panicked, All-check_traversal, All-check_patterns, All-both, IsPermitted-iff,
}
use distributed_scheduler.Executor.Commands.{
  done, panicked, allowed_commands, base_name, check_traversal, validate_parts, validate_command,
}

pub record IsAllowed (command : Text) : Type 0 where
  pub binary : Text
  pub args : List Text
  pub parts : fields command ≡ binary ∷ args
  pub permitted : IsPermitted binary
  pub clean : All IsClean args

validate_parts-done :
    (binary : Text) (args : List Text)
    → validate_parts (binary ∷ args) ≡ done
    → IsPermitted binary × All IsClean args
unfolding validate_parts
validate_parts-done binary args h =
    elim (Bool-cases (text_in (base_name binary) allowed_commands)) [
      | inl e ↦
          let loops = check_patterns-done args (check_traversal args) (ground arith) in
          ((IsPermitted-iff binary).0 e, All-both args loops.0 (check_traversal-done args loops.1))
      | inr e ↦ absurd (ground arith)
    ]

pub All-validate_parts :
    (binary : Text) (args : List Text)
    → IsPermitted binary
    → All IsClean args
    → validate_parts (binary ∷ args) ≡ done
unfolding validate_parts
All-validate_parts binary args p h =
    rw ((IsPermitted-iff binary).1 p)
      (All-check_patterns args (check_traversal args) h ∙ All-check_traversal args h)

validate_parts-ne-panicked :
    (binary : Text) (args : List Text) → validate_parts (binary ∷ args) ≢ panicked
unfolding validate_parts
validate_parts-ne-panicked binary args h = ground (
  arith,
  check_patterns-ne-panicked args (check_traversal args) (check_traversal-ne-panicked args),
)

nonempty-text_eq : (command : Text) → command ≢ [] → text_eq command [] ≡ false
unfolding text_eq
nonempty-text_eq [] n = absurd (n refl)
nonempty-text_eq (c ∷ command) n = refl

parts-nonempty :
    (command : Text) (parts : List Text) → fields command ≡ parts → parts ≢ [] → command ≢ []
parts-nonempty command parts e n m = n (sym e ∙ ap fields m ∙ fields-blank [] tt)

accepted :
    (command : Text) (parts : List Text)
    → fields command ≡ parts
    → validate_parts parts ≡ done
    → IsAllowed command
unfolding validate_parts
accepted command [] e h = absurd (ground arith)
accepted command (binary ∷ args) e h =
    let both = validate_parts-done binary args h in
    record { binary = binary; args = args; parts = e; permitted = both.0; clean = both.1 }

-- validateCommand accepts a command exactly when it has a first word that is one of the eleven
-- permitted names, or a path to one in any directory, and when none of the other words holds one of
-- the fifteen blocked patterns or a "../".
pub validate_command_lem : (command : Text) → (validate_command command ≡ done) ↔ IsAllowed command
unfolding validate_command
validate_command_lem command = (
  λ h. elim (Bool-cases (text_eq command [])) [
    | inl e ↦ absurd (ground arith)
    | inr e ↦ accepted command (fields command) refl (ground arith)
  ],
  λ a.
      let n = parts-nonempty command (a.binary ∷ a.args) a.parts (λ z. cc) in
      rw (nonempty-text_eq command n, a.parts)
        (All-validate_parts a.binary a.args a.permitted a.clean),
)

text_eq-nonempty : (command : Text) → text_eq command [] ≡ false → command ≢ []
unfolding text_eq
text_eq-nonempty [] e m = cc
text_eq-nonempty (c ∷ command) e m = cc

panicked-IsBlank :
    (command : Text) (parts : List Text)
    → fields command ≡ parts
    → validate_parts parts ≡ panicked
    → IsBlank command
panicked-IsBlank command [] e h = fields-nil command e
panicked-IsBlank command (binary ∷ args) e h = absurd (validate_parts-ne-panicked binary args h)

-- validateCommand panics exactly at a command that is not empty and holds nothing but white space.
pub validate_command-panicked :
    (command : Text) → (validate_command command ≡ panicked) ↔ ((command ≢ []) × IsBlank command)
unfolding validate_command validate_parts
validate_command-panicked command = (
  λ h. elim (Bool-cases (text_eq command [])) [
    | inl e ↦ absurd (ground arith)
    | inr e ↦
        (text_eq-nonempty command e, panicked-IsBlank command (fields command) refl (ground arith))
  ],
  λ h. rw (nonempty-text_eq command h.0, fields-blank command h.1) refl,
)
