-- ===== src/Auth/Examples.antt =====
-- Calls that the interceptors of scheduler/auth.go see.
use distributed_scheduler.Prelude.{some, [], ◌∷◌}
use distributed_scheduler.Auth.{auth_interceptor}
use distributed_scheduler.Auth.Tokens.{IsAuthorised, IsVerdict, auth_interceptor-IsVerdict}

auth_interceptor-IsVerdict_example :
    IsVerdict
      (IsAuthorised "my-api-token" "my-worker-token" "/scheduler.SchedulerService/SubmitJob"
        (some ("Bearer my-api-token" ∷ [])))
      (λ A handler.
        auth_interceptor "my-api-token" "my-worker-token" "/scheduler.SchedulerService/SubmitJob"
          (some ("Bearer my-api-token" ∷ []))
          handler)
auth_interceptor-IsVerdict_example =
    auth_interceptor-IsVerdict "my-api-token" "my-worker-token"
      "/scheduler.SchedulerService/SubmitJob" (some ("Bearer my-api-token" ∷ []))
