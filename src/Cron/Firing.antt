-- ===== src/Cron/Firing.antt =====
-- A firing of scheduler/cron.go, and the schedule after it.
use distributed_scheduler.Prelude.{
  ℕ, ◌<◌, ◌≡◌, refl, ap, ◌∙◌, String, false, Option, none, some, List, [], ◌∷◌, arith, first,
  first-update, str_eq,
}
use distributed_scheduler.Models.{Schedule, Job}
use distributed_scheduler.Db.{
  Db, Env, JobRow, Link, Session, Result, ok, err, return, continue, ◌>>=◌, ◌>>◌, statement,
}
use distributed_scheduler.Db.Rules.{
  IsPreorder, Respects, return-Respects, bind-Respects, then-Respects, statement-Respects,
}
use distributed_scheduler.JobStore.Queries.{record_transition, get_job_by_request_id}
use distributed_scheduler.JobStore.Submission.{insert_outcome, insert_job, created_job, create_job}
use distributed_scheduler.ScheduleStore.{is_due, advance_schedule}
use distributed_scheduler.Cron.{compute_missed_runs, job_of, create_runs, fire_schedule}

abbrev pub find_schedule : String → Db → Option Schedule
find_schedule schedule_id d = first (λ x. str_eq x.id schedule_id) d.schedules

abbrev SameSchedules : Db → Db → Type 0
SameSchedules d d' = d'.schedules ≡ d.schedules

same_schedules : IsPreorder SameSchedules
same_schedules = record { refl_at = λ d. refl; trans_at = λ d e f h k. k ∙ h }

module _ (e : Env) (job : Job) where
  created_job-SameSchedules : (r : Option JobRow) → Respects SameSchedules (created_job e job r)
  unfolding created_job record_transition get_job_by_request_id
  created_job-SameSchedules none = statement-Respects same_schedules e _ (λ n d. refl)
  created_job-SameSchedules (some r) =
      then-Respects same_schedules _ _ (statement-Respects same_schedules e _ (λ n d. ground arith))
        (return-Respects same_schedules _)

  create_job-SameSchedules : Respects SameSchedules (create_job e job)
  unfolding create_job insert_job insert_outcome
  create_job-SameSchedules =
      bind-Respects same_schedules _ _ (statement-Respects same_schedules e _ (λ n d. ground arith))
        created_job-SameSchedules

module _ (parse : String → Option (ℕ → ℕ)) (request_id : String → ℕ → String) (e : Env)
    (sched : Schedule) where
  create_runs-SameSchedules :
      (ts : List ℕ) → Respects SameSchedules (create_runs parse request_id e sched ts)
  unfolding create_runs
  create_runs-SameSchedules [] = return-Respects same_schedules _
  create_runs-SameSchedules (t ∷ ts) =
      then-Respects same_schedules _ _
        (create_job-SameSchedules e (job_of parse request_id sched t))
        (create_runs-SameSchedules ts)

  abbrev advanced : ℕ → ℕ → Schedule → Schedule
  advanced now next_run x = record x { last_run_at = some now; next_run_at = next_run }

  -- The last statement of a firing that succeeds.
  advance_answered :
      (s : Session) (now next_run : ℕ) (x : Schedule) (l : Link)
      → e.link s.sent ≡ l
      → find_schedule sched.id s.db ≡ some x
      → (advance_schedule e sched.id now next_run s).0 ≡ ok tt
      → find_schedule sched.id (advance_schedule e sched.id now next_run s).1.db
        ≡ some (advanced now next_run x)
  unfolding advance_schedule statement return ◌>>=◌ continue
  advance_answered s now next_run x Link.answered l stored h =
      let there =
        first-update (λ y. str_eq y.id sched.id) (advanced now next_run) x s.db.schedules (λ y t. t)
          stored in
      ground (arith, l, there)
  advance_answered s now next_run x Link.request_lost l stored h = absurd (ground (arith, l, h))
  advance_answered s now next_run x Link.reply_lost l stored h = absurd (ground (arith, l, h))

  fired :
      (r : Result (Unit {0})) (u s : Session) (now : ℕ) (next : ℕ → ℕ) (x : Schedule)
      → SameSchedules s.db u.db
      → find_schedule sched.id s.db ≡ some x
      → (continue r (λ _. advance_schedule e sched.id now (next now)) u).0 ≡ ok tt
      → find_schedule sched.id (continue r (λ _. advance_schedule e sched.id now (next now)) u).1.db
        ≡ some (advanced now (next now) x)
  unfolding continue
  fired (ok _) u s now next x same stored h =
      advance_answered u now (next now) x _ refl
        (ap (first (λ y. str_eq y.id sched.id)) same ∙ stored) h
  fired (err y) u s now next x same stored h = absurd (ground (arith, h))

  -- A firing of a stored schedule, whose expression parses and goes forward in time, that succeeds
  -- moves the schedule on: it ran now, and is due next at the first run of its expression after
  -- now, so that it is not due before that, at now either.
  pub fire_schedule_lem :
      (s : Session) (now : ℕ) (next : ℕ → ℕ) (x : Schedule)
      → parse sched.cron_expr ≡ some next
      → ((t : ℕ) → t < next t)
      → find_schedule sched.id s.db ≡ some x
      → (fire_schedule parse request_id e sched now s).0 ≡ ok tt
      → let t = (fire_schedule parse request_id e sched now s).1 in
        (y : Schedule) × (find_schedule sched.id t.db ≡ some y)
        × (y ≡ record x { last_run_at = some now; next_run_at = next now })
        × (is_due now y ≡ false)
  unfolding fire_schedule ◌>>=◌ ◌>>◌
  fire_schedule_lem s now next x parses onwards stored h =
      let runs = compute_missed_runs parse request_id sched now in
      let made = create_runs parse request_id e sched runs s in
      let kept = create_runs-SameSchedules runs s in
      let ends = fired made.0 made.1 s now next x kept stored (rw parses at h) in
      (advanced now (next now) x, rw parses ends, refl, ground (arith, onwards now))
