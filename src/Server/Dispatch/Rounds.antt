-- ===== src/Server/Dispatch/Rounds.antt =====
-- A round of dispatchPendingJobs in scheduler/scheduler.go.
use distributed_scheduler.Prelude.{
  ℕ, zero, suc, ◌≤◌, ◌<◌, ◌≡◌, refl, ap, subst, ◌∙◌, String, Bool, Option, none, some, List, [],
  ◌∷◌, arith, length, select, update, matching, best, All, matching-update-lt, eq_refl,
}
use distributed_scheduler.Models.{Job, Worker, is_pending}
use distributed_scheduler.Config.{Config}
use distributed_scheduler.Db.{
  Db, Env, JobRow, Link, Session, Result, ok, err, M, return, attempt, continue, ◌>>=◌, ◌>>◌,
  statement,
}
use distributed_scheduler.Db.Rules.{
  IsPreorder, Respects, return-Respects, bind-Respects, then-Respects, statement-Respects,
}
use distributed_scheduler.JobStore.Queries.{by_id, touch, scan_job, record_transition}
use distributed_scheduler.JobStore.Claiming.{
  claim_row, next_job, claim_chosen, claim_statement, claimed_job, claim_next_job,
}
use distributed_scheduler.JobStore.Choice.{next_job-IsNext, eligible-pending}
use distributed_scheduler.WorkerStore.{has_room, less_loaded, get_least_loaded_worker}
use distributed_scheduler.Server.Dispatch.{Round, claim_turn, worker_turn, dispatch_pending_jobs}

abbrev waits : JobRow → Bool
waits r = is_pending r.status

-- How many jobs are PENDING.
abbrev pub waiting : Db → ℕ
waiting d = matching waits d.jobs

abbrev SameWorkers : Db → Db → Type 0
SameWorkers d d' = d'.workers ≡ d.workers

same_workers : IsPreorder SameWorkers
same_workers = record { refl_at = λ d. refl; trans_at = λ d e f h k. k ∙ h }

-- A claim that yields a job took a row that waited, for this worker, and left the workers alone.
module _ (e : Env) (worker_id : String) (lease_duration : ℕ) (s : Session) where
  abbrev leased : JobRow → JobRow
  leased x = touch (e.clock s.sent) (claim_row e s.sent worker_id lease_duration x)

  abbrev TakenFrom : Job → JobRow → Type 0
  TakenFrom job r =
      (job ≡ scan_job (leased r))
      × ((claim_next_job e worker_id lease_duration s).1.db.jobs
          ≡ update (by_id r.id) leased s.db.jobs)

  taken_from :
      (job : Job) (l l' : Link) (chosen : Option JobRow)
      → e.link s.sent ≡ l
      → e.link (suc s.sent) ≡ l'
      → next_job e s.sent s.db ≡ chosen
      → (claim_next_job e worker_id lease_duration s).0 ≡ ok (some job)
      → (r : JobRow) × (next_job e s.sent s.db ≡ some r) × TakenFrom job r
  unfolding claim_next_job claim_statement claim_chosen claimed_job record_transition ◌>>=◌ ◌>>◌
      statement return
  taken_from job Link.request_lost l' chosen i i' c h = absurd (ground (arith, i, i', c, h))
  taken_from job Link.reply_lost l' chosen i i' c h = absurd (ground (arith, i, i', c, h))
  taken_from job Link.answered l' none i i' c h = absurd (ground (arith, i, i', c, h))
  taken_from job Link.answered l' (some r) i i' c h =
      (r, c, (ground (arith, i, i', c, h), ground (arith, i, i', c, h)))

  claim-fewer :
      (job : Job)
      → (claim_next_job e worker_id lease_duration s).0 ≡ ok (some job)
      → (waiting (claim_next_job e worker_id lease_duration s).1.db < waiting s.db)
        × (job.assigned_worker ≡ worker_id)
  unfolding scan_job
  claim-fewer job h =
      let (r, c, (same, jobs)) = taken_from job _ _ _ refl refl refl h in
      let next = next_job-IsNext e s.sent s.db r c in
      let status = eligible-pending e s.sent r next.chosen in
      let fewer =
        matching-update-lt waits (by_id r.id) leased (λ x. refl) s.db.jobs r next.stored
          (ap is_pending status) (eq_refl r.id) in
      (ground (arith, jobs, fewer), ground (arith, same))

module _ (e : Env) (worker_id : String) (lease_duration : ℕ) where
  claimed_job-SameWorkers : (r : Option JobRow) → Respects SameWorkers (claimed_job e worker_id r)
  unfolding claimed_job record_transition
  claimed_job-SameWorkers none = return-Respects same_workers _
  claimed_job-SameWorkers (some r) =
      then-Respects same_workers _ _ (statement-Respects same_workers e _ (λ n d. ground arith))
        (return-Respects same_workers _)

  claim_chosen-SameWorkers :
      (n : ℕ) (d : Db) (r : Option JobRow)
      → SameWorkers d (claim_chosen e n worker_id lease_duration d r).1
  unfolding claim_chosen
  claim_chosen-SameWorkers n d none = refl
  claim_chosen-SameWorkers n d (some r) = refl

  claim-SameWorkers : Respects SameWorkers (claim_next_job e worker_id lease_duration)
  unfolding claim_next_job claim_statement
  claim-SameWorkers =
      bind-Respects same_workers _ _
        (statement-Respects same_workers e _ (λ n d. claim_chosen-SameWorkers n d (next_job e n d)))
        claimed_job-SameWorkers

-- The worker that a query would offer.
abbrev pub offered : Db → Option Worker
offered d = best less_loaded (select has_room d.workers)

abbrev Each : List (Job × Worker) → Option Worker → Type 0
Each sent chosen = All (λ p. (p.0.assigned_worker ≡ p.1.id) × (chosen ≡ some p.1)) sent

-- A round that started from `d`, at its end.
abbrev pub IsRound : Db → Result Round → Type 0
IsRound d result =
    (sent : List (Job × Worker)) × (result ≡ ok (some sent))
    × (length sent ≤ waiting d)
    × Each sent (offered d)

ended : (d : Db) → IsRound d (ok (some []))
ended d = ([], refl, omega arith, tt)

module _ (e : Env) (cfg : Config) where
  -- The turn after the claim of a job: `c` is the claim's result and `t` the session after it.
  claim_turn-IsRound :
      (s t : Session) (w : Worker) (more : M Round) (c : Result (Option Job))
      → offered s.db ≡ some w
      → ((job : Job)
          → c ≡ ok (some job)
          → IsRound t.db (more t).0
            × (waiting t.db < waiting s.db)
            × (job.assigned_worker ≡ w.id)
            × (offered t.db ≡ offered s.db))
      → IsRound s.db (claim_turn w more c t).0
  unfolding claim_turn return ◌>>=◌ continue
  claim_turn-IsRound s t w more (err x) o h = ended s.db
  claim_turn-IsRound s t w more (ok none) o h = ended s.db
  claim_turn-IsRound s t w more (ok (some job)) o h =
      let ((sent, result, bound, each), fewer, same, offers) = h job refl in
      (
        (job, w) ∷ sent,
        rw result,
        omega (arith, bound, fewer),
        ((same, o), subst (Each sent) offers each),
      )

  worker_turn-IsRound :
      (s : Session) (more : M Round) (o : Result (Option Worker))
      → ((w : Worker) → o ≡ ok (some w) → offered s.db ≡ some w)
      → ((t : Session) → waiting t.db < waiting s.db → IsRound t.db (more t).0)
      → IsRound s.db (worker_turn e cfg more o s).0
  unfolding worker_turn ◌>>=◌ attempt continue return
  worker_turn-IsRound s more (err x) o h = ended s.db
  worker_turn-IsRound s more (ok none) o h = ended s.db
  worker_turn-IsRound s more (ok (some w)) o h =
      let t = (claim_next_job e w.id cfg.lease_duration s).1 in
      claim_turn-IsRound s t w more (claim_next_job e w.id cfg.lease_duration s).0 (o w refl)
        λ job claimed.
          let (fewer, assigned) = claim-fewer e w.id cfg.lease_duration s job claimed in
          (
            h t fewer,
            fewer,
            assigned,
            ap (λ ws. best less_loaded (select has_room ws))
                (claim-SameWorkers e w.id cfg.lease_duration s),
          )

  -- A read changes no table.
  offer :
      (s : Session) (l : Link)
      → e.link s.sent ≡ l
      → let (o, t) = get_least_loaded_worker e s in
        (t.db ≡ s.db) × ((w : Worker) → o ≡ ok (some w) → offered s.db ≡ some w)
  unfolding get_least_loaded_worker statement
  offer s Link.answered l = (ground (arith, l), λ w h. ground (arith, l, h))
  offer s Link.request_lost l = (ground (arith, l), λ w h. absurd (ground (arith, l, h)))
  offer s Link.reply_lost l = (ground (arith, l), λ w h. absurd (ground (arith, l, h)))

  -- With more fuel than there are PENDING jobs a round of the dispatcher comes to its end, whatever
  -- becomes of its statements. It hands out at most the PENDING jobs, each leased to the worker that
  -- it is sent to, and all of them to one worker: the one that a query offers when the round starts.
  pub dispatch_pending_jobs-IsRound :
      (fuel : ℕ) (s : Session)
      → waiting s.db < fuel
      → (sent : List (Job × Worker)) × ((dispatch_pending_jobs e cfg fuel s).0 ≡ ok (some sent))
        × (length sent ≤ waiting s.db)
        × All (λ p. (p.0.assigned_worker ≡ p.1.id) × (offered s.db ≡ some p.1)) sent
  unfolding dispatch_pending_jobs ◌>>=◌ attempt continue
  dispatch_pending_jobs-IsRound zero s h = absurd (omega (arith, h))
  dispatch_pending_jobs-IsRound (suc fuel) s h =
      let (o, t) = get_least_loaded_worker e s in
      let (same, offers) = offer s _ refl in
      subst (λ d. IsRound d (worker_turn e cfg (dispatch_pending_jobs e cfg fuel) o t).0) same
        (worker_turn-IsRound t (dispatch_pending_jobs e cfg fuel) o
          (λ w k. ap offered same ∙ offers w k)
          λ u fewer.
            dispatch_pending_jobs-IsRound fuel u
              (let bound = ap waiting same in omega (arith, fewer, bound, h)))
