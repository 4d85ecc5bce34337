-- ===== src/JobStore/Renewals.antt =====
-- RenewLease and the status RUNNING: internal/db/jobstore.go has MarkJobRunning, the one query that
-- makes a job RUNNING, and no code calls it; the query of RenewLease in scheduler/scheduler.go renews
-- RUNNING jobs only.
use distributed_scheduler.Prelude.{
  ℕ, ◌+◌, ◌≡◌, ◌⊎◌, refl, false, String, List, [], ◌∷◌, arith, All, All-imp, select, update,
  select_none,
}
use distributed_scheduler.Models.{is_running}
use distributed_scheduler.Db.{Env, JobRow, Session, ok, err, query_failed, statement, deliver}
use distributed_scheduler.JobStore.Queries.{touch, whole_seconds}
use distributed_scheduler.JobStore.Renewal.{can_renew, renew_row, renew_query}
use distributed_scheduler.JobStore.Machine.{
  Kind, starting, claim, start, complete, retry, bury, reclaim, cancel, renew, Move, Reach, here,
  next,
}
use distributed_scheduler.JobStore.Evolution.{Evolves, HasKeys}
use distributed_scheduler.JobStore.Calls.{Call, Permits, run, run-Refines}
use distributed_scheduler.JobStore.Lease.{no_match}

-- The steps that the program makes.
abbrev pub NotStarting : Kind → Type 0
NotStarting (starting j w v) = ⊥
NotStarting _ = Unit {0}

abbrev pub IsIdle : JobRow → Type 0
IsIdle r = is_running r.status ≡ false

Move-IsIdle : {x y : JobRow} → Move NotStarting x y → IsIdle x → IsIdle y
Move-IsIdle (claim now w l t h, k) i = refl
Move-IsIdle (start now j w v h d, k) i = absurd k
Move-IsIdle (complete now j w v b h f g, k) i = refl
Move-IsIdle (retry now j w m v b h f r, k) i = refl
Move-IsIdle (bury now j w m v h f r, k) i = refl
Move-IsIdle (reclaim now t f h l, k) i = refl
Move-IsIdle (cancel now j t h g p, k) i = refl
Move-IsIdle (renew now j w v t h r, k) i = i

Reach-IsIdle : {x y : JobRow} → Reach NotStarting x y → IsIdle x → IsIdle y
Reach-IsIdle here i = i
Reach-IsIdle (next r m) i = Move-IsIdle m (Reach-IsIdle r i)

Evolves-IsIdle : (xs ys : List JobRow) → Evolves NotStarting xs ys → All IsIdle xs → All IsIdle ys
Evolves-IsIdle [] [] h i = tt
Evolves-IsIdle [] (y ∷ ys) ((x, f, r), h) i =
    (Reach-IsIdle r (ground (arith, f.waits)), Evolves-IsIdle [] ys h tt)
Evolves-IsIdle (x ∷ xs) [] h i = absurd h
Evolves-IsIdle (x ∷ xs) (y ∷ ys) h i = (Reach-IsIdle h.0 i.0, Evolves-IsIdle xs ys h.1 i.1)

-- From tables with distinct ids and no RUNNING job, after any calls but MarkJobRunning, no job is
-- RUNNING, and a renewal of any lease by any worker changes no table and finds no row, or fails.
pub renewal_refused :
    (e : Env) (cs : List Call) (s : Session) (job_id worker_id : String)
    (lease_version lease_duration : ℕ)
    → HasKeys s.db
    → All IsIdle s.db.jobs
    → All (Permits NotStarting) cs
    → let t = run e cs s in
      let renewal = renew_query e job_id worker_id lease_version lease_duration t in
      All IsIdle t.db.jobs
      × (renewal.1.db ≡ t.db)
      × ((renewal.0 ≡ ok []) ⊎ (renewal.0 ≡ err query_failed))
unfolding renew_query statement deliver
renewal_refused e cs s j w v l keys idle permitted =
    (still, ground (arith, at), ground (arith, at, none_match))
  where
    t : Session
    t = run e cs s

    still : All IsIdle t.db.jobs
    still =
        Evolves-IsIdle s.db.jobs t.db.jobs (run-Refines NotStarting e cs s permitted keys).0 idle

    unmet : All (λ r. can_renew j w v r ≡ false) t.db.jobs
    unmet = All-imp IsIdle (λ r i. ground arith) t.db.jobs still

    none_match : select (can_renew j w v) t.db.jobs ≡ []
    none_match = select_none (can_renew j w v) t.db.jobs unmet

    at :
        record t.db {
          jobs =
              update
                (can_renew j w v)
                (λ r. touch (e.clock t.sent) (renew_row (e.clock t.sent + whole_seconds l) r))
                t.db.jobs;
        }
        ≡ t.db
    at = no_match t.db (can_renew j w v) _ unmet
