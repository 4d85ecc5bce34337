-- ===== src/Startup.antt =====
-- The main functions of scheduler/scheduler.go and worker/worker.go: the settings that they read from
-- the environment, the answers on health, and how long a worker waits for its jobs when it is told
-- to stop. `getenv` is os.Getenv, empty where a variable is not set. What stops the program, as
-- log.Fatal does, is none.
pub mod Stopping
use distributed_scheduler.Prelude.{
  ℕ, zero, suc, String, Bool, true, false, not, ◌&&◌, ◌||◌, Option, none, some, ◌==◌, if◌then◌else◌,
  str_eq,
}
use distributed_scheduler.Config.{Config, default}

-- The settings of TLS: as they were where it is not enabled.
unfoldable pub tls_settings : (String → String) → Config → Option Config
tls_settings getenv cfg =
    if not (str_eq (getenv "TLS_ENABLED") "true")
    then some cfg
    else if str_eq (getenv "TLS_CERT_FILE") "" || str_eq (getenv "TLS_KEY_FILE") ""
    then none
    else some (record cfg {
      tls_enabled = true;
      tls_cert_file = getenv "TLS_CERT_FILE";
      tls_key_file = getenv "TLS_KEY_FILE";
    })

-- The beginning of the scheduler's main.
unfoldable pub scheduler_settings : (String → String) → Option Config
unfolding tls_settings
scheduler_settings getenv =
    if str_eq (getenv "DATABASE_URL") ""
    then none
    else if str_eq (getenv "API_TOKEN") ""
    then none
    else if str_eq (getenv "WORKER_TOKEN") ""
    then none
    else tls_settings getenv (record default {
      database_url = getenv "DATABASE_URL";
      api_token = getenv "API_TOKEN";
      worker_token_secret = getenv "WORKER_TOKEN";
    })

unfoldable pub or_else : String → String → String
or_else def value = if str_eq value "" then def else value

pub record WorkerSettings : Type 0 where
  pub worker_id : String
  pub tenant_id : String
  pub worker_addr : String
  pub scheduler_addr : String
  pub worker_token : String

-- The beginning of the worker's main. The addresses by default have the ports of the default
-- settings.
unfoldable pub worker_settings : String → (String → String) → Option WorkerSettings
unfolding or_else
worker_settings uuid getenv =
    if str_eq (getenv "WORKER_TOKEN") ""
    then none
    else some (record {
      worker_id = or_else uuid (getenv "WORKER_ID");
      tenant_id = or_else "default" (getenv "TENANT_ID");
      worker_addr = or_else "localhost:50052" (getenv "WORKER_ADDR");
      scheduler_addr = or_else "localhost:50051" (getenv "SCHEDULER_ADDR");
      worker_token = getenv "WORKER_TOKEN";
    })

-- /health and /ready: the code and the body, by whether the database answers
unfoldable pub health : Bool → ℕ × String
health true = (200, "{\"status\":\"healthy\"}")
health false = (503, "{\"status\":\"unhealthy\"}")

unfoldable pub ready : Bool → Bool → ℕ × String
ready false leader = (503, "{\"ready\":false,\"leader\":false}")
ready true true = (200, "{\"ready\":true,\"leader\":true}")
ready true false = (200, "{\"ready\":true,\"leader\":false}")

-- How the wait of a worker that stops ends: at a tick that finds no job, or by the deadline.
pub data Stopped : Type 0 where
  cleanly : (tick : ℕ) → Stopped
  forced : Stopped

-- drainLoop, over the ticks that come before the deadline: 119 or 120, as the last one and the
-- deadline are due at once. `remaining` is the number of active jobs at a tick.
unfoldable pub drain_wait : (ℕ → ℕ) → ℕ → ℕ → Stopped
drain_wait remaining zero tick = forced
drain_wait remaining (suc ticks) tick =
    let rest = drain_wait remaining ticks (suc tick) in
    if remaining tick == 0 then cleanly tick else rest
