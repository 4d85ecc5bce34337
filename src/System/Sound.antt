-- ===== src/System/Sound.antt =====
-- Every request and every tick of scheduler/scheduler.go, in any order.
use distributed_scheduler.Prelude.{ℕ, String, Option, List, [], ◌∷◌, All}
use distributed_scheduler.Config.{Config}
use distributed_scheduler.Db.{Env, Session}
use distributed_scheduler.Autopsy.{Library}
use distributed_scheduler.JobStore.Machine.{AnyKind, IsSound}
use distributed_scheduler.JobStore.Evolution.{Evolves, HasKeys, Refines}
use distributed_scheduler.JobStore.History.{Evolves-IsSound}
use distributed_scheduler.System.{
  Event, registers, beats, reports, renews, submits, gets, cancels, lists, creates_schedule,
  lists_schedules, toggles_schedule, deletes_schedule, gets_autopsy, lists_autopsies, makes_autopsy,
  monitors, reconciles, dispatches, evaluates, measures, serve, serve_all,
}
use distributed_scheduler.System.Serving.{
  o, handle_register-Moves, handle_heartbeat-Moves, handle_report-Moves, handle_renew-Moves,
  handle_submit-Moves, handle_get-Moves, handle_cancel-Moves, handle_list-Moves,
}
use distributed_scheduler.System.Loops.{
  reap_dead_workers-Moves, reconcile-Moves, dispatch_pending_jobs-Moves, evaluate-Moves,
  update_gauge_metrics-Moves,
}
use distributed_scheduler.System.Asides.{
  handle_create_schedule-Moves, handle_list_schedules-Moves, handle_toggle_schedule-Moves,
  handle_delete_schedule-Moves, generate_autopsy-Moves, handle_get_autopsy-Moves,
  handle_list_autopsies-Moves,
}

module _ (parse : String → Option (ℕ → ℕ)) (request_id : String → ℕ → String) (l : Library)
    (cfg : Config) (e : Env) where
  serve-Refines :
      (ev : Event) (s : Session) → Refines AnyKind s.db (serve parse request_id l cfg e ev s).db
  unfolding serve
  serve-Refines (registers worker) s = handle_register-Moves e worker s
  serve-Refines (beats w n status) s = handle_heartbeat-Moves e w n status s
  serve-Refines (reports req) s = handle_report-Moves e cfg req s
  serve-Refines (renews j w v) s = handle_renew-Moves e cfg j w v s
  serve-Refines (submits meanwhile req) s = handle_submit-Moves e cfg meanwhile req s
  serve-Refines (gets req) s = handle_get-Moves e req s
  serve-Refines (cancels j t) s = handle_cancel-Moves e j t s
  serve-Refines (lists t st limit offset) s = handle_list-Moves e t st limit offset s
  serve-Refines (creates_schedule req meanwhile now) s =
      handle_create_schedule-Moves e parse cfg now meanwhile req s
  serve-Refines (lists_schedules t) s = handle_list_schedules-Moves e t s
  serve-Refines (toggles_schedule i t b) s = handle_toggle_schedule-Moves e i t b s
  serve-Refines (deletes_schedule i t) s = handle_delete_schedule-Moves e i t s
  serve-Refines (gets_autopsy j t) s = handle_get_autopsy-Moves e j t s
  serve-Refines (lists_autopsies t limit) s = handle_list_autopsies-Moves e l t limit s
  serve-Refines (makes_autopsy now j) s = generate_autopsy-Moves e l now j s
  serve-Refines monitors s = reap_dead_workers-Moves e cfg s
  serve-Refines reconciles s = reconcile-Moves e s
  serve-Refines (dispatches fuel) s = dispatch_pending_jobs-Moves e cfg fuel s
  serve-Refines (evaluates now) s = evaluate-Moves e parse request_id now s
  serve-Refines (measures g) s = update_gauge_metrics-Moves e g s

  serve_all-Refines :
      (evs : List Event) (s : Session)
      → Refines AnyKind s.db (serve_all parse request_id l cfg e evs s).db
  unfolding serve_all
  serve_all-Refines [] s = o.refl_at s.db
  serve_all-Refines (ev ∷ evs) s =
      o.trans_at s.db (serve parse request_id l cfg e ev s).db _ (serve-Refines ev s)
        (serve_all-Refines evs (serve parse request_id l cfg e ev s))

  -- Whatever requests the scheduler serves and whatever ticks of its loops come between them, in any
  -- order and whatever becomes of their statements: where the ids and the request ids of the jobs are
  -- distinct and every job is sound, they stay so. The table of jobs has evolved: each job that was
  -- there went along the moves of the machine of jobs, and each further job started as a new one.
  pub serve_all-IsSound :
      (evs : List Event) (s : Session)
      → HasKeys s.db
      → All IsSound s.db.jobs
      → HasKeys (serve_all parse request_id l cfg e evs s).db
        × Evolves AnyKind s.db.jobs (serve_all parse request_id l cfg e evs s).db.jobs
        × All IsSound (serve_all parse request_id l cfg e evs s).db.jobs
  serve_all-IsSound evs s keys sound =
      let (evolves, keys') = serve_all-Refines evs s keys in
      (keys', evolves, Evolves-IsSound s.db.jobs _ evolves sound)
