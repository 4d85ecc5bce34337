-- ===== src/JobStore/Calls.antt =====
-- The operations of internal/db/jobstore.go, and the query of RenewLease, as a history of calls.
use distributed_scheduler.Prelude.{
  ℕ, ◌≡◌, refl, String, Option, List, [], ◌∷◌, All, All-intro, In, All-of_In,
}
use distributed_scheduler.Models.{Job}
use distributed_scheduler.Db.{Env, Session}
use distributed_scheduler.JobStore.Queries.{get_job_by_id}
use distributed_scheduler.JobStore.Submission.{create_job}
use distributed_scheduler.JobStore.Claiming.{claim_next_job}
use distributed_scheduler.JobStore.Results.{mark_job_running, complete_job, fail_job}
use distributed_scheduler.JobStore.Sweeps.{reclaim_expired_jobs, cancel_job, list_jobs}
use distributed_scheduler.JobStore.Renewal.{renew_query}
use distributed_scheduler.JobStore.Machine.{
  Kind, AnyKind, claiming, starting, completing, failing, reclaiming, cancelling, renewing,
}
use distributed_scheduler.JobStore.Evolution.{Evolves, HasKeys, Refines, Refines-IsPreorder}
use distributed_scheduler.JobStore.Refinement.{
  get_job_by_id-Refines, create_job-Refines, claim_next_job-Refines, mark_job_running-Refines,
  complete_job-Refines, fail_job-Refines, reclaim_expired_jobs-Refines, cancel_job-Refines,
  list_jobs-Refines, renew_query-Refines,
}

pub data Call : Type 0 where
  create : Job → Call
  get : String → Call
  claims : (worker_id : String) (lease_duration : ℕ) → Call
  starts : (job_id worker_id : String) (lease_version : ℕ) → Call
  completes : (job_id worker_id : String) (lease_version : ℕ) → Call
  fails : (job_id worker_id reason : String) (lease_version base_delay max_delay : ℕ) → Call
  reclaims : Call
  cancels : (job_id tenant_id : String) → Call
  lists : (tenant_id : String) (status : Option String) (limit offset : ℕ) → Call
  renews : (job_id worker_id : String) (lease_version lease_duration : ℕ) → Call

-- The session after a call, whatever the call returned.
unfoldable pub perform : Env → Call → Session → Session
perform e (create job) s = (create_job e job s).1
perform e (get job_id) s = (get_job_by_id e job_id s).1
perform e (claims w l) s = (claim_next_job e w l s).1
perform e (starts j w v) s = (mark_job_running e j w v s).1
perform e (completes j w v) s = (complete_job e j w v s).1
perform e (fails j w m v b c) s = (fail_job e j w m v b c s).1
perform e reclaims s = (reclaim_expired_jobs e s).1
perform e (cancels j t) s = (cancel_job e j t s).1
perform e (lists t st l k) s = (list_jobs e t st l k s).1
perform e (renews j w v l) s = (renew_query e j w v l s).1

unfoldable pub run : Env → List Call → Session → Session
run e [] s = s
run e (c ∷ cs) s = run e cs (perform e c s)

-- The kinds of step that a call makes are among `K`.
abbrev pub Permits : (Kind → Type 0) → Call → Type 0
Permits K (claims w l) = K (claiming w)
Permits K (starts j w v) = K (starting j w v)
Permits K (completes j w v) = K (completing j w v)
Permits K (fails j w m v b c) = K (failing j w m v)
Permits K reclaims = K reclaiming
Permits K (cancels j t) = K (cancelling j t)
Permits K (renews j w v l) = K (renewing j w v)
Permits K _ = Unit {0}

pub Permits-any : (c : Call) → Permits AnyKind c
Permits-any (create job) = tt
Permits-any _ = tt

module _ (K : Kind → Type 0) (e : Env) where
  pub perform-Refines : (c : Call) (s : Session) → Permits K c → Refines K s.db (perform e c s).db
  unfolding perform
  perform-Refines (create job) s k = create_job-Refines K e job s
  perform-Refines (get job_id) s k = get_job_by_id-Refines K e job_id s
  perform-Refines (claims w l) s k = claim_next_job-Refines K e w l k s
  perform-Refines (starts j w v) s k = mark_job_running-Refines K e j w v k s
  perform-Refines (completes j w v) s k = complete_job-Refines K e j w v k s
  perform-Refines (fails j w m v b c) s k = fail_job-Refines K e j w m v b c k s
  perform-Refines reclaims s k = reclaim_expired_jobs-Refines K e k s
  perform-Refines (cancels j t) s k = cancel_job-Refines K e j t k s
  perform-Refines (lists t st l n) s k = list_jobs-Refines K e t st l n s
  perform-Refines (renews j w v l) s k = renew_query-Refines K e j w v l k s

  pub run-Refines :
      (cs : List Call) (s : Session) → All (Permits K) cs → Refines K s.db (run e cs s).db
  unfolding run
  run-Refines [] s k = (Refines-IsPreorder K).refl_at s.db
  run-Refines (c ∷ cs) s k =
      (Refines-IsPreorder K).trans_at s.db (perform e c s).db _ (perform-Refines c s k.0)
        (run-Refines cs (perform e c s) k.1)

pub run_any-Refines :
    (e : Env) (cs : List Call) (s : Session) → Refines AnyKind s.db (run e cs s).db
run_any-Refines e cs s = run-Refines AnyKind e cs s (All-intro (Permits AnyKind) cs Permits-any)

-- The steps that a call asks for: its own kind, for its own job, worker and version, or tenant.
abbrev pub Asks : Call → Kind → Type 0
Asks (claims w l) k = k ≡ claiming w
Asks (starts j w v) k = k ≡ starting j w v
Asks (completes j w v) k = k ≡ completing j w v
Asks (fails j w m v b c) k = k ≡ failing j w m v
Asks reclaims k = k ≡ reclaiming
Asks (cancels j t) k = k ≡ cancelling j t
Asks (renews j w v l) k = k ≡ renewing j w v
Asks _ k = ⊥

-- The steps that one of the calls asks for.
abbrev pub AskedBy : List Call → Kind → Type 0
AskedBy cs k = (c : Call) × In c cs × Asks c k

Permits-own : (cs : List Call) (c : Call) → In c cs → Permits (AskedBy cs) c
Permits-own cs (claims w l) i = (claims w l, i, refl)
Permits-own cs (starts j w v) i = (starts j w v, i, refl)
Permits-own cs (completes j w v) i = (completes j w v, i, refl)
Permits-own cs (fails j w m v b c) i = (fails j w m v b c, i, refl)
Permits-own cs reclaims i = (reclaims, i, refl)
Permits-own cs (cancels j t) i = (cancels j t, i, refl)
Permits-own cs (renews j w v l) i = (renews j w v l, i, refl)
Permits-own cs (create job) i = tt
Permits-own cs (get job_id) i = tt
Permits-own cs (lists t st l k) i = tt

-- The queries refine the machine of a job: on tables with unique ids and request ids, after any
-- series of calls, whoever makes them and whatever becomes of their statements, these are unique
-- still, every row that was there has moved along a path of the machine's steps, in its place, and
-- every further row was inserted fresh and has moved along such a path since. Each of the steps was
-- asked for by one of the calls: for its job, by its worker and under its version, or by its tenant.
pub run-Evolves :
    (e : Env) (cs : List Call) (s : Session)
    → HasKeys s.db
    → Evolves (AskedBy cs) s.db.jobs (run e cs s).db.jobs × HasKeys (run e cs s).db
run-Evolves e cs s keys =
    run-Refines (AskedBy cs) e cs s (All-of_In (Permits (AskedBy cs)) cs (Permits-own cs)) keys
