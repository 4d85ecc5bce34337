-- ===== src/Config.antt =====
-- config/config.go: the settings and their defaults. Durations are nanoseconds.
use distributed_scheduler.Prelude.{ℕ, ◌*◌, String, Bool, false}
use distributed_scheduler.Models.{second}

pub record Config : Type 0 where
  pub scheduler_port : ℕ
  pub worker_port : ℕ
  pub heartbeat_interval : ℕ
  pub heartbeat_timeout : ℕ
  pub missed_heartbeats : ℕ
  pub lease_duration : ℕ
  pub lease_renew_at : ℕ
  pub grace_period : ℕ
  pub max_retries : ℕ
  pub retry_base_delay : ℕ
  pub retry_max_delay : ℕ
  pub dispatch_timeout : ℕ
  pub run_timeout : ℕ
  pub max_queue_length : ℕ
  pub max_payload_bytes : ℕ
  pub max_worker_count : ℕ
  pub database_url : String
  pub metrics_port : ℕ
  pub log_level : String
  pub api_token : String
  pub worker_token_secret : String
  pub tls_enabled : Bool
  pub tls_cert_file : String
  pub tls_key_file : String
  pub rate_limit_per_second : ℕ
  pub rate_limit_burst : ℕ
  pub rate_limit_window : ℕ
  pub default_tenant_quota : ℕ

abbrev pub default : Config
default = record {
  scheduler_port = 50051;
  worker_port = 50052;
  heartbeat_interval = 5 * second;
  heartbeat_timeout = 15 * second;
  missed_heartbeats = 3;
  lease_duration = 30 * second;
  lease_renew_at = 10 * second;
  grace_period = 5 * second;
  max_retries = 5;
  retry_base_delay = 2 * second;
  retry_max_delay = 60 * second;
  dispatch_timeout = 10 * second;
  run_timeout = 5 * 60 * second;
  max_queue_length = 10000;
  max_payload_bytes = 1048576;
  max_worker_count = 100;
  database_url = "";
  metrics_port = 9090;
  log_level = "info";
  api_token = "";
  worker_token_secret = "";
  tls_enabled = false;
  tls_cert_file = "";
  tls_key_file = "";
  rate_limit_per_second = 50;
  rate_limit_burst = 100;
  rate_limit_window = 60 * second;
  default_tenant_quota = 1000;
}
