-- ===== src/System/Asides.antt =====
-- The handlers of the schedules and of the autopsies in scheduler/scheduler.go, which write no job.
use distributed_scheduler.Prelude.{
  ℕ, ◌≡◌, refl, String, Bool, ◌||◌, Option, none, some, List, [], ◌∷◌, ◌++◌, if◌then◌else◌, if_elim,
  str_eq, first,
}
use distributed_scheduler.Prelude.Int.{ℤ}
use distributed_scheduler.Models.{Schedule, MissedRunPolicy}
use distributed_scheduler.Config.{Config}
use distributed_scheduler.Db.{
  Db, Env, Result, ok, err, M, unique_violation, foreign_key_violation, return, ◌>>=◌,
}
use distributed_scheduler.Db.Rules.{
  return-Respects, throw-Respects, guard-Respects, bind-Respects, then-Respects, attempt-Respects,
}
use distributed_scheduler.JobStore.Queries.{is_some, by_id}
use distributed_scheduler.JobStore.Machine.{AnyKind}
use distributed_scheduler.JobStore.Evolution.{same_jobs-Refines}
use distributed_scheduler.ScheduleStore.{
  count_schedules, read_quota, insert_schedule, others_write, create_schedule, list_schedules,
  toggle_schedule, delete_rows, delete_schedule,
}
use distributed_scheduler.Server.Rpc.{Rpc, status, invalid_argument}
use distributed_scheduler.Server.ScheduleRpcs.{
  policy_of, CreateScheduleRequest, schedule_run, with_policy, is_invalid, handle_create_schedule,
  handle_list_schedules, handle_toggle_schedule, handle_delete_schedule,
}
use distributed_scheduler.Autopsy.{
  AutopsyReport, Library, build_report, read_job, read_transitions, generate_report,
}
use distributed_scheduler.AutopsyStore.{
  from_result, new_autopsy, insert_autopsy, store_autopsy, get_autopsy_by_job_id, list_autopsies,
}
use distributed_scheduler.Server.AutopsyRpcs.{
  generate_autopsy, GetAutopsyResponse, handle_get_autopsy, ListAutopsiesResponse,
  handle_list_autopsies,
}
use distributed_scheduler.System.Serving.{Moves, o, aside-Moves}

-- One of two outcomes that are both asides.
same_either :
    {A : Type 0} (b : Bool) (x y : Result A × Db) (d : Db)
    → x.1.jobs ≡ d.jobs
    → y.1.jobs ≡ d.jobs
    → (if b then x else y).1.jobs ≡ d.jobs
same_either {A = A} b x y d h g =
    if_elim (λ (r : Result A × Db). r.1.jobs ≡ d.jobs) b (λ _. h) (λ _. g)

module _ (e : Env) where
  insert_schedule-Moves : (x : Schedule) → Moves (insert_schedule e x)
  unfolding insert_schedule
  insert_schedule-Moves x = aside-Moves e _ (λ n d. same_either _ _ _ d refl refl)

  others_write-Moves : (meanwhile : List Schedule → List Schedule) → Moves (others_write meanwhile)
  unfolding others_write
  others_write-Moves meanwhile s = same_jobs-Refines AnyKind s.db _ refl

  create_schedule-Moves :
      (meanwhile : List Schedule → List Schedule) (x : Schedule)
      → Moves (create_schedule e meanwhile x)
  unfolding create_schedule count_schedules read_quota
  create_schedule-Moves meanwhile x = bind-Respects o _ _ (aside-Moves e _ (λ n d. refl)) λ count.
      bind-Respects o _ _ (aside-Moves e _ (λ n d. refl)) λ max.
        then-Respects o _ _ (others_write-Moves meanwhile)
          (then-Respects o _ _ (guard-Respects o _ _) (insert_schedule-Moves x))

  module _ (parse : String → Option (ℕ → ℕ)) (cfg : Config) (now : ℕ)
      (meanwhile : List Schedule → List Schedule) where
    schedule_run-Moves :
        (req : CreateScheduleRequest) (policy : MissedRunPolicy) (next : Option (ℕ → ℕ))
        → Moves (schedule_run parse e cfg now meanwhile req policy next)
    unfolding schedule_run
    schedule_run-Moves req policy none = return-Respects o _
    schedule_run-Moves req policy (some next) =
        bind-Respects o _ _ (attempt-Respects o _ (create_schedule-Moves meanwhile _))
          (λ r. return-Respects o _)

    with_policy-Moves :
        (req : CreateScheduleRequest) (policy : Option MissedRunPolicy)
        → Moves (with_policy parse e cfg now meanwhile req policy)
    unfolding with_policy
    with_policy-Moves req none = return-Respects o _
    with_policy-Moves req (some policy) = schedule_run-Moves req policy (parse req.cron_expr)

    pub handle_create_schedule-Moves :
        (req : CreateScheduleRequest) → Moves (handle_create_schedule parse e cfg now meanwhile req)
    unfolding handle_create_schedule
    handle_create_schedule-Moves req =
        if_elim (λ (m : M (Rpc Schedule)). Moves m) (is_invalid parse e cfg now req)
          (λ _. return-Respects o {A = Rpc Schedule} (status invalid_argument))
          (λ _. with_policy-Moves req (policy_of req.missed_policy))

  pub handle_list_schedules-Moves : (tenant_id : String) → Moves (handle_list_schedules e tenant_id)
  unfolding handle_list_schedules list_schedules
  handle_list_schedules-Moves t =
      if_elim (λ (m : M (Rpc (List Schedule))). Moves m) (str_eq t "")
        (λ _. return-Respects o {A = Rpc (List Schedule)} (status invalid_argument))
        (λ _. aside-Moves e _ (λ n d. refl))

  toggle_schedule-Moves :
      (schedule_id tenant_id : String) (enabled : Bool)
      → Moves (toggle_schedule e schedule_id tenant_id enabled)
  unfolding toggle_schedule
  toggle_schedule-Moves i t b =
      bind-Respects o _ _ (aside-Moves e _ (λ n d. refl)) (λ affected. guard-Respects o _ _)

  pub handle_toggle_schedule-Moves :
      (schedule_id tenant_id : String) (enabled : Bool)
      → Moves (handle_toggle_schedule e schedule_id tenant_id enabled)
  unfolding handle_toggle_schedule
  handle_toggle_schedule-Moves i t b =
      if_elim (λ (m : M (Rpc String)). Moves m) (str_eq i "" || str_eq t "")
        (λ _. return-Respects o {A = Rpc String} (status invalid_argument))
        (λ _. toggle_schedule-Moves i t b)

  delete_schedule-Moves :
      (schedule_id tenant_id : String) → Moves (delete_schedule e schedule_id tenant_id)
  unfolding delete_schedule delete_rows
  delete_schedule-Moves i t =
      bind-Respects o _ _ (aside-Moves e _ (λ n d. refl)) (λ affected. guard-Respects o _ _)

  pub handle_delete_schedule-Moves :
      (schedule_id tenant_id : String) → Moves (handle_delete_schedule e schedule_id tenant_id)
  unfolding handle_delete_schedule
  handle_delete_schedule-Moves i t =
      if_elim (λ (m : M (Rpc String)). Moves m) (str_eq i "" || str_eq t "")
        (λ _. return-Respects o {A = Rpc String} (status invalid_argument))
        (λ _. delete_schedule-Moves i t)

  module _ (l : Library) where
    from_result-Moves : (r : Result String) → Moves (from_result r)
    from_result-Moves (ok json) = return-Respects o _
    from_result-Moves (err x) = throw-Respects o _ _

    insert_autopsy-Moves :
        (report : AutopsyReport) (json : String) → Moves (insert_autopsy e l report json)
    unfolding insert_autopsy
    insert_autopsy-Moves report json = aside-Moves e _ λ n d.
        same_either {A = Unit {0}} (is_some (first (λ a. str_eq a.id (e.uuid n)) d.autopsies))
          (err unique_violation, d)
          (if is_some (first (by_id report.job_id) d.jobs)
            then (ok tt, record d { autopsies = d.autopsies ++ new_autopsy e l n report json ∷ [] })
            else (err foreign_key_violation, d))
          d refl
          (same_either {A = Unit {0}} (is_some (first (by_id report.job_id) d.jobs))
            (ok tt, record d { autopsies = d.autopsies ++ new_autopsy e l n report json ∷ [] })
            (err foreign_key_violation, d) d refl refl)

    store_autopsy-Moves : (report : AutopsyReport) → Moves (store_autopsy e l report)
    unfolding store_autopsy
    store_autopsy-Moves report =
        bind-Respects o (from_result (l.marshal report)) (insert_autopsy e l report)
          (from_result-Moves (l.marshal report)) (insert_autopsy-Moves report)

    read_job-Moves : (job_id : String) → Moves (read_job e job_id)
    unfolding read_job
    read_job-Moves j = aside-Moves e _ (λ n d. refl)

    read_transitions-Moves : (job_id : String) → Moves (read_transitions e job_id)
    unfolding read_transitions
    read_transitions-Moves j = aside-Moves e _ (λ n d. refl)

    generate_report-Moves : (now : ℕ) (job_id : String) → Moves (generate_report e l now job_id)
    unfolding generate_report
    generate_report-Moves now j =
        bind-Respects o (read_job e j)
          (λ job. read_transitions e j >>= λ ts. return (build_report l now j job ts))
          (read_job-Moves j)
          λ job.
            bind-Respects o (read_transitions e j) (λ ts. return (build_report l now j job ts))
              (read_transitions-Moves j) (λ ts. return-Respects o (build_report l now j job ts))

    pub generate_autopsy-Moves :
        (now : ℕ) (job_id : String) → Moves (generate_autopsy e l now job_id)
    unfolding generate_autopsy
    generate_autopsy-Moves now j =
        bind-Respects o (generate_report e l now j) (store_autopsy e l)
          (generate_report-Moves now j) store_autopsy-Moves

    pub handle_list_autopsies-Moves :
        (tenant_id : String) (limit : ℤ) → Moves (handle_list_autopsies e l tenant_id limit)
    unfolding handle_list_autopsies list_autopsies
    handle_list_autopsies-Moves t limit =
        if_elim (λ (m : M (Rpc ListAutopsiesResponse)). Moves m) (str_eq t "")
          (λ _. return-Respects o {A = Rpc ListAutopsiesResponse} (status invalid_argument))
          (λ _. aside-Moves e _ (λ n d. refl))

  pub handle_get_autopsy-Moves :
      (job_id tenant_id : String) → Moves (handle_get_autopsy e job_id tenant_id)
  unfolding handle_get_autopsy get_autopsy_by_job_id
  handle_get_autopsy-Moves j t =
      if_elim (λ (m : M (Rpc GetAutopsyResponse)). Moves m) (str_eq j "" || str_eq t "")
        (λ _. return-Respects o {A = Rpc GetAutopsyResponse} (status invalid_argument))
        (λ _. aside-Moves e _ (λ n d. refl))
