-- ===== src/Client/Complete.antt =====
-- What stands in the requests that client/main.go sends.
use distributed_scheduler.Prelude.{
  ◌≡◌, refl, ◌⊎◌, String, Bool, true, false, ◌&&◌, ◌||◌, List, [], ◌∷◌, if_elim, str_eq, arith,
  Bool-cases, inl, inr, subst,
}
use distributed_scheduler.Prelude.Int.{ℤ, pos, ◌≤ℤ◌}
use distributed_scheduler.Client.{
  Call, submits, gets, lists, cancels, gets_autopsy, lists_autopsies, creates_schedule,
  lists_schedules, toggles_schedule, deletes_schedule, Run, sends, require, autopsy_limit,
  cmd_submit, cmd_status, cmd_list, cmd_cancel, cmd_autopsy, cmd_autopsy_list, cmd_schedule_create,
  cmd_schedule_list, cmd_schedule_toggle, cmd_schedule_delete, run_command, client_main, parse_flag,
}

abbrev pub IsGiven : String → Type 0
IsGiven value = str_eq value "" ≡ false

-- A request has a job or a schedule to be about, a new one a payload, a name and an expression, and
-- a list a limit above zero.
abbrev pub IsComplete : Call → Type 0
IsComplete (submits request_id tenant_id priority payload max_retries run_timeout_ms) =
    IsGiven payload
IsComplete (gets job_id) = IsGiven job_id
IsComplete (lists tenant_id status limit) = limit ≡ 50
IsComplete (cancels job_id tenant_id) = IsGiven job_id
IsComplete (gets_autopsy job_id tenant_id) = IsGiven job_id
IsComplete (lists_autopsies tenant_id limit) = pos 1 ≤ℤ limit
IsComplete (creates_schedule tenant_id name cron_expr payload priority policy retries timeout) =
    IsGiven name × IsGiven cron_expr × IsGiven payload
IsComplete (lists_schedules tenant_id) = Unit
IsComplete (toggles_schedule schedule_id tenant_id enabled) = IsGiven schedule_id
IsComplete (deletes_schedule schedule_id tenant_id) = IsGiven schedule_id

-- The environment has what a request needs.
abbrev pub HasToken : (String → String) → Type 0
HasToken getenv =
    IsGiven (getenv "API_TOKEN")
    × ((str_eq (getenv "TLS_ENABLED") "true" ≡ false) ⊎ IsGiven (getenv "TLS_CERT_FILE"))

abbrev SendsComplete : Run → Type 0
SendsComplete (sends c) = IsComplete c
SendsComplete _ = Unit

require-SendsComplete :
    (value message : String) (run : Run)
    → (IsGiven value → SendsComplete run)
    → SendsComplete (require value message run)
unfolding require
require-SendsComplete value message run h =
    if_elim SendsComplete (str_eq value "") (λ _. tt) (λ g. h g)

autopsy_limit-pos : (limit : ℤ) → pos 1 ≤ℤ autopsy_limit limit
unfolding autopsy_limit
autopsy_limit-pos limit = ground arith

module _ (scan : String → ℤ) (uuid : String) (args : List String) where
  submit-SendsComplete : SendsComplete (cmd_submit scan uuid args)
  unfolding cmd_submit
  submit-SendsComplete = require-SendsComplete _ _ _ (λ g. g)

  status-SendsComplete : SendsComplete (cmd_status args)
  unfolding cmd_status
  status-SendsComplete = require-SendsComplete _ _ _ (λ g. g)

  cancel-SendsComplete : SendsComplete (cmd_cancel args)
  unfolding cmd_cancel
  cancel-SendsComplete = require-SendsComplete _ _ _ (λ g. g)

  autopsy-SendsComplete : SendsComplete (cmd_autopsy args)
  unfolding cmd_autopsy
  autopsy-SendsComplete = require-SendsComplete _ _ _ (λ g. g)

  autopsy_list-SendsComplete : SendsComplete (cmd_autopsy_list scan args)
  unfolding cmd_autopsy_list
  autopsy_list-SendsComplete = autopsy_limit-pos (scan (parse_flag args "--limit" "20"))

  create-SendsComplete : SendsComplete (cmd_schedule_create args)
  unfolding cmd_schedule_create
  create-SendsComplete =
      let name = parse_flag args "--name" "" in
      let cron_expr = parse_flag args "--cron" "" in
      let payload = parse_flag args "--payload" "" in
      if_elim SendsComplete (str_eq name "" || str_eq cron_expr "" || str_eq payload "") (λ _. tt)
        (λ g. (ground arith, ground arith, ground arith))

  toggle-SendsComplete : (enabled : Bool) → SendsComplete (cmd_schedule_toggle enabled args)
  unfolding cmd_schedule_toggle
  toggle-SendsComplete enabled = require-SendsComplete _ _ _ (λ g. g)

  delete-SendsComplete : SendsComplete (cmd_schedule_delete args)
  unfolding cmd_schedule_delete
  delete-SendsComplete = require-SendsComplete _ _ _ (λ g. g)

  run_command-SendsComplete :
      (command : String) → SendsComplete (run_command scan uuid command args)
  unfolding run_command cmd_list cmd_schedule_list
  run_command-SendsComplete command =
      if_elim SendsComplete (str_eq command "submit") (λ _. submit-SendsComplete)
        λ _.
          if_elim SendsComplete (str_eq command "status") (λ _. status-SendsComplete)
            λ _.
              if_elim SendsComplete (str_eq command "list") (λ _. refl)
                λ _.
                  if_elim SendsComplete (str_eq command "cancel") (λ _. cancel-SendsComplete)
                    λ _.
                      if_elim SendsComplete (str_eq command "autopsy") (λ _. autopsy-SendsComplete)
                        λ _.
                          if_elim SendsComplete (str_eq command "autopsy-list")
                            (λ _. autopsy_list-SendsComplete)
                            λ _.
                              if_elim SendsComplete (str_eq command "schedule-create")
                                (λ _. create-SendsComplete)
                                λ _.
                                  if_elim SendsComplete (str_eq command "schedule-list") (λ _. tt)
                                    λ _.
                                      if_elim SendsComplete (str_eq command "schedule-pause")
                                        (λ _. toggle-SendsComplete false)
                                        λ _.
                                          if_elim SendsComplete (str_eq command "schedule-resume")
                                            (λ _. toggle-SendsComplete true)
                                            λ _.
                                              if_elim SendsComplete
                                                (str_eq command "schedule-delete")
                                                (λ _. delete-SendsComplete)
                                                λ _.
                                                  if_elim SendsComplete (str_eq command "demo")
                                                    (λ _. tt) (λ _. tt)

-- The client sends no request without an API token and, where TLS is on,
-- a certificate; whatever the arguments are, a request names the job or the schedule that it is
-- about, a new job has a payload, a new schedule a name, an expression and a payload, and the limit
-- on a list is above zero.
pub client_main-IsComplete :
    (scan : String → ℤ) (uuid : String) (getenv : String → String) (args : List String) (c : Call)
    → client_main scan uuid getenv args ≡ sends c
    → HasToken getenv × IsComplete c
unfolding client_main
client_main-IsComplete scan uuid getenv [] c h = absurd (ground arith)
client_main-IsComplete scan uuid getenv (command ∷ args) c h =
    let token = getenv "API_TOKEN" in
    let tls = getenv "TLS_ENABLED" in
    let cert = getenv "TLS_CERT_FILE" in
    elim (Bool-cases (str_eq token "")) [
      | inl t ↦ absurd (ground arith)
      | inr t ↦ elim (Bool-cases (str_eq tls "true" && str_eq cert "")) [
        | inl b ↦ absurd (ground arith)
        | inr b ↦
            let e : run_command scan uuid command args ≡ sends c = ground arith in
            (
              (t, ground arith),
              subst SendsComplete e (run_command-SendsComplete scan uuid args command),
            )
      ]
    ]
