-- ===== src/Client.antt =====
-- client/main.go: the command line, up to the request that it sends. What the replies are printed as
-- is left out. `scan` is fmt.Sscanf of a decimal number, 0 where there is none; the UUID that a
-- submission draws is an argument.
pub mod Flags
pub mod Complete
mod Examples
use Prim.Native.String.{◌++◌ as ◌+++◌}
use distributed_scheduler.Prelude.{
  ℕ, zero, suc, ◌+◌, String, Bool, true, false, not, ◌&&◌, ◌||◌, Option, none, some, List, [], ◌∷◌,
  length, ◌==◌, if◌then◌else◌, str_eq,
}
use distributed_scheduler.Prelude.Int.{ℤ, pos, negsuc, ltb_ℤ}

-- A request to the scheduler.
pub data Call : Type 0 where
  submits : (request_id tenant_id priority payload : String) (max_retries run_timeout_ms : ℤ) → Call
  gets : (job_id : String) → Call
  lists : (tenant_id status : String) (limit : ℕ) → Call
  cancels : (job_id tenant_id : String) → Call
  gets_autopsy : (job_id tenant_id : String) → Call
  lists_autopsies : (tenant_id : String) (limit : ℤ) → Call
  creates_schedule :
      (tenant_id name cron_expr payload priority missed_policy : String)
      (max_retries run_timeout_ms : ℕ)
      → Call
  lists_schedules : (tenant_id : String) → Call
  toggles_schedule : (schedule_id tenant_id : String) (enabled : Bool) → Call
  deletes_schedule : (schedule_id tenant_id : String) → Call

-- How the program goes on: the usage or an error and exit 1, a request, or the demo.
pub data Run : Type 0 where
  usage : Run
  fails : String → Run
  sends : Call → Run
  demo : Run

-- parseFlag: the argument after the first flag that has one behind it
unfoldable pub parse_flag : List String → String → String → String
parse_flag [] flag def = def
parse_flag (arg ∷ []) flag def = def
parse_flag (arg ∷ value ∷ args) flag def =
    if str_eq arg flag then value else parse_flag (value ∷ args) flag def

unfoldable pub require : String → String → Run → Run
require value message run = if str_eq value "" then fails message else run

unfoldable pub cmd_submit : (String → ℤ) → String → List String → Run
cmd_submit scan uuid args =
    let payload = parse_flag args "--payload" "" in
    require payload "Error: --payload is required" (
      sends (
        submits uuid (parse_flag args "--tenant" "default") (parse_flag args "--priority" "MEDIUM")
          payload (scan (parse_flag args "--retries" "3"))
          (scan (parse_flag args "--timeout" "60000"))))

unfoldable pub cmd_status : List String → Run
cmd_status args =
    let job_id = parse_flag args "--job-id" "" in
    require job_id "Error: --job-id is required" (sends (gets job_id))

unfoldable pub cmd_list : List String → Run
cmd_list args =
    sends (lists (parse_flag args "--tenant" "default") (parse_flag args "--status" "") 50)

unfoldable pub cmd_cancel : List String → Run
cmd_cancel args =
    let job_id = parse_flag args "--job-id" "" in
    require job_id "Error: --job-id is required"
      (sends (cancels job_id (parse_flag args "--tenant" "default")))

unfoldable pub cmd_autopsy : List String → Run
cmd_autopsy args =
    let job_id = parse_flag args "--job-id" "" in
    require job_id "Error: --job-id is required"
      (sends (gets_autopsy job_id (parse_flag args "--tenant" "default")))

-- 20 where the limit is not positive
unfoldable pub autopsy_limit : ℤ → ℤ
autopsy_limit limit = if ltb_ℤ (pos 0) limit then limit else pos 20

unfoldable pub cmd_autopsy_list : (String → ℤ) → List String → Run
unfolding autopsy_limit
cmd_autopsy_list scan args = sends (
    lists_autopsies (parse_flag args "--tenant" "default")
      (autopsy_limit (scan (parse_flag args "--limit" "20"))))

unfoldable pub cmd_schedule_create : List String → Run
cmd_schedule_create args =
    let name = parse_flag args "--name" "" in
    let cron_expr = parse_flag args "--cron" "" in
    let payload = parse_flag args "--payload" "" in
    if str_eq name "" || str_eq cron_expr "" || str_eq payload ""
    then fails "Error: --name, --cron, and --payload are required"
    else sends (
        creates_schedule (parse_flag args "--tenant" "default") name cron_expr payload
          (parse_flag args "--priority" "MEDIUM") (parse_flag args "--missed-policy" "SKIP") 3
          300000)

unfoldable pub cmd_schedule_list : List String → Run
cmd_schedule_list args = sends (lists_schedules (parse_flag args "--tenant" "default"))

unfoldable pub cmd_schedule_toggle : Bool → List String → Run
cmd_schedule_toggle enabled args =
    let schedule_id = parse_flag args "--id" "" in
    require schedule_id "Error: --id is required"
      (sends (toggles_schedule schedule_id (parse_flag args "--tenant" "default") enabled))

unfoldable pub cmd_schedule_delete : List String → Run
cmd_schedule_delete args =
    let schedule_id = parse_flag args "--id" "" in
    require schedule_id "Error: --id is required"
      (sends (deletes_schedule schedule_id (parse_flag args "--tenant" "default")))

-- The switch on os.Args[1].
unfoldable pub run_command : (String → ℤ) → String → String → List String → Run
run_command scan uuid command args =
    if str_eq command "submit"
    then cmd_submit scan uuid args
    else if str_eq command "status"
    then cmd_status args
    else if str_eq command "list"
    then cmd_list args
    else if str_eq command "cancel"
    then cmd_cancel args
    else if str_eq command "autopsy"
    then cmd_autopsy args
    else if str_eq command "autopsy-list"
    then cmd_autopsy_list scan args
    else if str_eq command "schedule-create"
    then cmd_schedule_create args
    else if str_eq command "schedule-list"
    then cmd_schedule_list args
    else if str_eq command "schedule-pause"
    then cmd_schedule_toggle false args
    else if str_eq command "schedule-resume"
    then cmd_schedule_toggle true args
    else if str_eq command "schedule-delete"
    then cmd_schedule_delete args
    else if str_eq command "demo"
    then demo
    else usage

-- The checks of main before the switch.
unfoldable pub client_main : (String → ℤ) → String → (String → String) → List String → Run
client_main scan uuid getenv [] = usage
client_main scan uuid getenv (command ∷ args) =
    if str_eq (getenv "API_TOKEN") ""
    then fails "Error: API_TOKEN environment variable is required"
    else if str_eq (getenv "TLS_ENABLED") "true" && str_eq (getenv "TLS_CERT_FILE") ""
    then fails "Error: TLS_CERT_FILE is required when TLS_ENABLED=true"
    else run_command scan uuid command args
