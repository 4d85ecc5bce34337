-- ===== src/Client/Examples.antt =====
-- Command lines, and the theorems at them.
use distributed_scheduler.Prelude.{◌≡◌, refl, String, List, [], ◌∷◌, str_eq, if◌then◌else◌}
use distributed_scheduler.Prelude.Int.{ℤ, pos}
use distributed_scheduler.Client.{
  Call, submits, sends, parse_flag, require, cmd_submit, run_command, client_main,
}
use distributed_scheduler.Client.Flags.{command_line, value_or, parse_flag-command_line}
use distributed_scheduler.Client.Complete.{HasToken, IsComplete, client_main-IsComplete}

abbrev options : List (String × String)
options = ("--payload", "{}") ∷ ("--tenant", "acme") ∷ []

parse_flag-command_line_example :
    parse_flag (command_line options) "--tenant" "default" ≡ value_or "--tenant" "default" options
parse_flag-command_line_example =
    parse_flag-command_line options "--tenant" "default" (refl, (refl, tt))

abbrev scan : String → ℤ
scan s = pos 3

abbrev getenv : String → String
getenv key = if str_eq key "API_TOKEN" then "token" else ""

abbrev submission : Call
submission = submits "uuid" "acme" "MEDIUM" "{}" (pos 3) (pos 3)

submitted : client_main scan "uuid" getenv ("submit" ∷ command_line options) ≡ sends submission
unfolding client_main run_command cmd_submit require parse_flag command_line
submitted = refl

client_main-IsComplete_example : HasToken getenv × IsComplete submission
client_main-IsComplete_example =
    client_main-IsComplete scan "uuid" getenv ("submit" ∷ command_line options) submission submitted
