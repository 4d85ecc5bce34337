-- ===== src/Client/Flags.antt =====
-- The flags of client/main.go, written and read.
use distributed_scheduler.Prelude.{
  ◌≡◌, refl, String, false, List, [], ◌∷◌, All, if◌then◌else◌, str_eq, arith,
}
use distributed_scheduler.Client.{parse_flag}

-- Flags with their values, as they stand on the command line.
unfoldable pub command_line : List (String × String) → List String
command_line [] = []
command_line ((flag, value) ∷ options) = flag ∷ value ∷ command_line options

-- The value of a flag's first use.
unfoldable pub value_or : String → String → List (String × String) → String
value_or flag def [] = def
value_or flag def ((f, value) ∷ options) =
    if str_eq f flag then value else value_or flag def options

-- A value that is no flag is passed over.
parse_flag-skip :
    (value : String) (args : List String) (flag def : String)
    → str_eq value flag ≡ false
    → parse_flag (value ∷ args) flag def ≡ parse_flag args flag def
unfolding parse_flag
parse_flag-skip value [] flag def h = refl
parse_flag-skip value (arg ∷ []) flag def h = ground (arith, h)
parse_flag-skip value (arg ∷ next ∷ args) flag def h = ground (arith, h)

-- Of options that are written as flags with their values parseFlag reads the value of the first use
-- of a flag, and the default where it is not used, as long as no value is spelled like the flag.
pub parse_flag-command_line :
    (options : List (String × String)) (flag def : String)
    → All (λ o. str_eq o.1 flag ≡ false) options
    → parse_flag (command_line options) flag def ≡ value_or flag def options
unfolding parse_flag command_line value_or
parse_flag-command_line [] flag def h = refl
parse_flag-command_line ((f, value) ∷ options) flag def (n, h) = ground (
  arith,
  parse_flag-skip value (command_line options) flag def n,
  parse_flag-command_line options flag def h,
)
