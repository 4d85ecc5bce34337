-- ===== src/Executor/Commands.antt =====
-- worker/executor.go: which commands a shell job may run.
pub mod Checks
pub mod Allowed
use distributed_scheduler.Prelude.{
  ℕ, suc, Bool, true, false, not, Option, none, some, List, [], ◌∷◌, drop, map, if◌then◌else◌,
}
use distributed_scheduler.Texts.{Text, codes, text_eq, text_in, contains, last_index, fields}

-- What a function of type error returns: nil, an error, or not at all, where a run-time panic
-- unwinds it.
pub data Outcome (E : Type 0) : Type 0 where
  done : Outcome E
  failed : E → Outcome E
  panicked : Outcome E

abbrev pub allowed_commands : List Text
allowed_commands =
    codes "echo"
    ∷ codes "date"
    ∷ codes "hostname"
    ∷ codes "ls"
    ∷ codes "cat"
    ∷ codes "wc"
    ∷ codes "sort"
    ∷ codes "head"
    ∷ codes "tail"
    ∷ codes "grep"
    ∷ codes "sleep"
    ∷ []

abbrev pub blocked_args : List Text
blocked_args =
    codes "--exec"
    ∷ codes "-o"
    ∷ codes "--output"
    ∷ codes "--upload-file"
    ∷ codes "-T"
    ∷ codes "-K"
    ∷ codes "-F"
    ∷ codes ">/"
    ∷ codes "|"
    ∷ codes ";"
    ∷ codes "&&"
    ∷ codes "||"
    ∷ codes "`"
    ∷ codes "$("
    ∷ codes "-c"
    ∷ []

abbrev pub traversal : Text
traversal = codes "../"

pub data Rejection : Type 0 where
  command_required : Rejection
  not_in_allowlist : Text → Rejection
  blocked_pattern : (arg blocked : Text) → Rejection
  path_traversal : Text → Rejection

-- binary[idx+1:]
after_index : Text → Option ℕ → Text
after_index binary none = binary
after_index binary (some i) = drop (suc i) binary

-- The base name: what follows the last '/'.
unfoldable pub base_name : Text → Text
unfolding after_index
base_name binary = after_index binary (last_index binary b'/')

unfoldable pub find_blocked : Text → List Text → Option Text
find_blocked arg [] = none
find_blocked arg (blocked ∷ rest) =
    if contains arg blocked then some blocked else find_blocked arg rest

blocked_or : Text → Option Text → Outcome Rejection → Outcome Rejection
blocked_or arg none rest = rest
blocked_or arg (some blocked) rest = failed (blocked_pattern arg blocked)

-- The second loop over the arguments.
unfoldable pub check_traversal : List Text → Outcome Rejection
check_traversal [] = done
check_traversal (arg ∷ args) =
    if contains arg traversal then failed (path_traversal arg) else check_traversal args

-- The first loop over the arguments, and what follows it.
unfoldable pub check_patterns : List Text → Outcome Rejection → Outcome Rejection
unfolding blocked_or
check_patterns [] after = after
check_patterns (arg ∷ args) after =
    blocked_or arg (find_blocked arg blocked_args) (check_patterns args after)

-- `parts[0]` of no parts panics.
unfoldable pub validate_parts : List Text → Outcome Rejection
unfolding base_name check_patterns check_traversal
validate_parts [] = panicked
validate_parts (binary ∷ args) =
    if not (text_in (base_name binary) allowed_commands)
    then failed (not_in_allowlist (base_name binary))
    else check_patterns args (check_traversal args)

-- validateCommand
unfoldable pub validate_command : Text → Outcome Rejection
unfolding validate_parts
validate_command command =
    if text_eq command [] then failed command_required else validate_parts (fields command)
