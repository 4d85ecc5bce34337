-- ===== src/Auth.antt =====
-- The interceptors of scheduler/auth.go and scheduler/ratelimit.go, in the order in which
-- scheduler/scheduler.go chains them, and workerAuthInterceptor of worker/worker.go.
-- A call's metadata is none, or the values of its authorization header. A request shows the tenant_id
-- of its body; none where its type has none that tenantFromRequest reads.
-- subtle.ConstantTimeCompare is the equality of texts.
pub mod Tokens
mod Examples
use Prim.Native.String.{len, slice}
use text.Mathlib.Text.{starts_with}
use distributed_scheduler.Prelude.{
  ℕ, String, Bool, true, false, not, ◌&&◌, ◌||◌, Option, none, some, List, [], ◌∷◌, ltb,
  if◌then◌else◌, str_eq,
}
use distributed_scheduler.Server.Rpc.{
  Rpc, reply, status, unauthenticated, permission_denied, unimplemented, resource_exhausted,
}
use distributed_scheduler.RateLimit.{RateLimiter, allow}

-- clientRPCs
abbrev pub client_rpcs : List String
client_rpcs =
    "/scheduler.SchedulerService/SubmitJob" ∷ "/scheduler.SchedulerService/GetJob"
    ∷ "/scheduler.SchedulerService/CancelJob" ∷ "/scheduler.SchedulerService/ListJobs"
    ∷ "/scheduler.SchedulerService/CreateSchedule" ∷ "/scheduler.SchedulerService/ListSchedules"
    ∷ "/scheduler.SchedulerService/ToggleSchedule" ∷ "/scheduler.SchedulerService/DeleteSchedule"
    ∷ "/scheduler.SchedulerService/GetAutopsy" ∷ "/scheduler.SchedulerService/ListAutopsies" ∷ []

-- workerRPCs
abbrev pub worker_rpcs : List String
worker_rpcs =
    "/scheduler.SchedulerService/RegisterWorker" ∷ "/scheduler.SchedulerService/Heartbeat"
    ∷ "/scheduler.SchedulerService/ReportResult" ∷ "/scheduler.SchedulerService/RenewLease" ∷ []

unfoldable pub is_in : String → List String → Bool
is_in m [] = false
is_in m (x ∷ xs) = str_eq m x || is_in m xs

-- The token that a method needs; none for an unknown method.
unfoldable pub required_token : String → String → String → Option String
required_token api_token worker_token method =
    if is_in method client_rpcs
    then some api_token
    else if is_in method worker_rpcs
    then some worker_token
    else none

-- "Bearer <token>" or just "<token>"
unfoldable pub bearer : String → String
bearer token =
    if ltb 7 (len token) && starts_with token "Bearer " then slice token 7 (len token) else token

abbrev pub Metadata : Type 0
Metadata = Option (List String)

-- What the two interceptors share: the check of the token, and then the handler.
unfoldable pub check_token : {A : Type 0} → String → Metadata → Rpc A → Rpc A
check_token required none handler = status unauthenticated
check_token required (some []) handler = status unauthenticated
check_token required (some (t ∷ _)) handler =
    if str_eq (bearer t) required then handler else status permission_denied

abbrev pub check_for : {A : Type 0} → Option String → Metadata → Rpc A → Rpc A
check_for none md handler = status unimplemented
check_for (some required) md handler = check_token required md handler

-- authInterceptor
unfoldable pub auth_interceptor : {A : Type 0} → String → String → String → Metadata → Rpc A → Rpc A
auth_interceptor api_token worker_token method md handler =
    check_for (required_token api_token worker_token method) md handler

-- workerAuthInterceptor
unfoldable pub worker_auth_interceptor : {A : Type 0} → String → Metadata → Rpc A → Rpc A
worker_auth_interceptor worker_token md handler = check_token worker_token md handler

abbrev pub first_or_unknown : List String → String
first_or_unknown [] = "unknown"
first_or_unknown (t ∷ _) = t

-- tenantFromContext, on the x-tenant-id header
abbrev pub tenant_from_context : Metadata → String
tenant_from_context none = "unknown"
tenant_from_context (some tenants) = first_or_unknown tenants

-- tenantFromRequest
unfoldable pub tenant_from_request : Metadata → Option String → String
tenant_from_request md none = tenant_from_context md
tenant_from_request md (some tenant_id) =
    if str_eq tenant_id "" then tenant_from_context md else tenant_id

-- rateLimitInterceptor, with the limiter that it leaves
unfoldable pub rate_limit_interceptor :
    {A : Type 0} → RateLimiter → ℕ → String → Metadata → Option String → Rpc A → RateLimiter × Rpc A
rate_limit_interceptor rl now method md tenant_id handler =
    if is_in method client_rpcs
    then (let (rl', allowed) = allow rl (tenant_from_request md tenant_id) now in
        (rl', if allowed then handler else status resource_exhausted))
    else (rl, handler)
