-- ===== src/Server/ScheduleRpcs/Runnable.antt =====
-- Which schedules the handlers of scheduler/scheduler.go and the evaluator of scheduler/cron.go leave
-- in the table.
use distributed_scheduler.Prelude.{
  ℕ, ◌≡◌, ◌≢◌, refl, String, Bool, true, false, Option, none, some, List, [], ◌∷◌, All, All-append,
  All-select, All-update, arith, str_eq, if_elim, if◌then◌else◌,
}
use distributed_scheduler.Models.{Schedule, MissedRunPolicy}
use distributed_scheduler.Config.{Config}
use distributed_scheduler.Db.{Db, Env, Session, Result, return}
use distributed_scheduler.Db.Rules.{
  Keeps, Keeps-IsPreorder, IsPreorder, Respects, return-Respects, bind-Respects, then-Respects,
  attempt-Respects, guard-Respects, statement-Respects,
}
use distributed_scheduler.Cron.{validate_cron_expr}
use distributed_scheduler.ScheduleStore.{
  update_schedules, create_schedule, others_write, count_schedules, read_quota, insert_schedule,
  new_schedule, toggle_schedule, delete_schedule, delete_rows, advance_schedule,
}
use distributed_scheduler.Server.Rpc.{status, invalid_argument}
use distributed_scheduler.Server.ScheduleRpcs.{
  CreateScheduleRequest, policy_of, schedule_of, schedule_run, with_policy, is_invalid,
  handle_create_schedule,
}

module _ (parse : String → Option (ℕ → ℕ)) where
  -- A schedule that the evaluator can move on, with a tenant and a name.
  pub record IsRunnable (x : Schedule) : Type 0 where
    pub parses : parse x.cron_expr ≢ none
    pub has_tenant : str_eq x.tenant_id "" ≡ false
    pub has_name : str_eq x.name "" ≡ false

  abbrev pub AllRunnable : Db → Type 0
  AllRunnable d = All IsRunnable d.schedules

  abbrev o : IsPreorder (Keeps AllRunnable)
  o = Keeps-IsPreorder AllRunnable

  module _ (e : Env) where
    insert-Keeps :
        (x : Schedule) → IsRunnable x → Respects (Keeps AllRunnable) (insert_schedule e x)
    unfolding insert_schedule
    insert-Keeps x r = statement-Respects o e _ λ n d h.
        if_elim (λ (t : Result Schedule × Db). AllRunnable t.1) _ (λ _. h)
          λ _.
            All-append IsRunnable d.schedules (new_schedule e n x ∷ []) h
              (record { parses = r.parses; has_tenant = r.has_tenant; has_name = r.has_name }, tt)

    count-Keeps : (tenant_id : String) → Respects (Keeps AllRunnable) (count_schedules e tenant_id)
    unfolding count_schedules
    count-Keeps tenant_id = statement-Respects o e _ (λ n d h. h)

    quota-Keeps : (tenant_id : String) → Respects (Keeps AllRunnable) (read_quota e tenant_id)
    unfolding read_quota
    quota-Keeps tenant_id = statement-Respects o e _ (λ n d h. h)

    -- Nothing comes between the statements.
    alone-Keeps : Respects (Keeps AllRunnable) (others_write (λ xs. xs))
    unfolding others_write
    alone-Keeps s h = h

    create-Keeps :
        (x : Schedule)
        → IsRunnable x
        → Respects (Keeps AllRunnable) (create_schedule e (λ xs. xs) x)
    unfolding create_schedule
    create-Keeps x r = bind-Respects o _ _ (count-Keeps x.tenant_id) λ count.
        bind-Respects o _ _ (quota-Keeps x.tenant_id) λ max.
          then-Respects o _ _ alone-Keeps
            (then-Respects o _ _ (guard-Respects o _ _) (insert-Keeps x r))

    update-Keeps :
        (test : Schedule → Bool) (set : Schedule → Schedule)
        → ((x : Schedule) → IsRunnable x → IsRunnable (set x))
        → Respects (Keeps AllRunnable) (update_schedules e test set)
    update-Keeps test set k =
        statement-Respects o e _
          λ n d h. All-update IsRunnable test set (λ x _ r. k x r) d.schedules h

    pub toggle-Keeps :
        (schedule_id tenant_id : String) (enabled : Bool)
        → Respects (Keeps AllRunnable) (toggle_schedule e schedule_id tenant_id enabled)
    unfolding toggle_schedule
    toggle-Keeps i t b =
        bind-Respects o _ _
          (update-Keeps _ _
            λ x r. record { parses = r.parses; has_tenant = r.has_tenant; has_name = r.has_name })
          λ affected. guard-Respects o _ _

    delete_rows-Keeps : (test : Schedule → Bool) → Respects (Keeps AllRunnable) (delete_rows e test)
    unfolding delete_rows
    delete_rows-Keeps test = statement-Respects o e _ λ n d h. All-select IsRunnable _ d.schedules h

    delete-Keeps :
        (schedule_id tenant_id : String)
        → Respects (Keeps AllRunnable) (delete_schedule e schedule_id tenant_id)
    unfolding delete_schedule
    delete-Keeps i t = bind-Respects o _ _ (delete_rows-Keeps _) λ affected. guard-Respects o _ _

    advance-Keeps :
        (schedule_id : String) (last_run next_run : ℕ)
        → Respects (Keeps AllRunnable) (advance_schedule e schedule_id last_run next_run)
    unfolding advance_schedule
    advance-Keeps i l n =
        bind-Respects o _ _
          (update-Keeps _ _
            λ x r. record { parses = r.parses; has_tenant = r.has_tenant; has_name = r.has_name })
          λ affected. return-Respects o _

    module _ (cfg : Config) (now : ℕ) (req : CreateScheduleRequest) where
      valid-IsRunnable :
          (policy : MissedRunPolicy) (next_run : ℕ)
          → is_invalid parse e cfg now req ≡ false
          → IsRunnable (schedule_of parse e cfg now req policy next_run)
      unfolding validate_cron_expr
      valid-IsRunnable policy next_run h = record {
        parses = λ bad. ground (arith, h, bad);
        has_tenant = ground (arith, h);
        has_name = ground (arith, h);
      }

      schedule_run-Keeps :
          (policy : MissedRunPolicy) (next : Option (ℕ → ℕ))
          → is_invalid parse e cfg now req ≡ false
          → Respects (Keeps AllRunnable) (schedule_run parse e cfg now (λ xs. xs) req policy next)
      unfolding schedule_run
      schedule_run-Keeps policy none h = return-Respects o _
      schedule_run-Keeps policy (some next) h =
          bind-Respects o _ _
            (attempt-Respects o _ (create-Keeps _ (valid-IsRunnable policy (next now) h)))
            λ created. return-Respects o _

      with_policy-Keeps :
          (policy : Option MissedRunPolicy)
          → is_invalid parse e cfg now req ≡ false
          → Respects (Keeps AllRunnable) (with_policy parse e cfg now (λ xs. xs) req policy)
      unfolding with_policy
      with_policy-Keeps none h = return-Respects o _
      with_policy-Keeps (some policy) h = schedule_run-Keeps policy (parse req.cron_expr) h

      checked-Keeps :
          (b : Bool)
          → is_invalid parse e cfg now req ≡ b
          → Respects (Keeps AllRunnable) (
              if b
              then return (status invalid_argument)
              else with_policy parse e cfg now (λ xs. xs) req (policy_of req.missed_policy))
      checked-Keeps true h = return-Respects o _
      checked-Keeps false h = with_policy-Keeps (policy_of req.missed_policy) h

-- What changes the table of schedules: the handler of CreateSchedule, and the queries that toggle,
-- delete and advance a schedule.
pub data Change : Type 0 where
  creates : CreateScheduleRequest → ℕ → Change
  toggles : (schedule_id tenant_id : String) → Bool → Change
  deletes : (schedule_id tenant_id : String) → Change
  advances : (schedule_id : String) (last_run next_run : ℕ) → Change

abbrev pub apply : (String → Option (ℕ → ℕ)) → Env → Config → Change → Session → Session
apply parse e cfg (creates req now) s = (handle_create_schedule parse e cfg now (λ xs. xs) req s).1
apply parse e cfg (toggles i t b) s = (toggle_schedule e i t b s).1
apply parse e cfg (deletes i t) s = (delete_schedule e i t s).1
apply parse e cfg (advances i l n) s = (advance_schedule e i l n s).1

abbrev pub apply_all : (String → Option (ℕ → ℕ)) → Env → Config → List Change → Session → Session
apply_all parse e cfg [] s = s
apply_all parse e cfg (c ∷ cs) s = apply_all parse e cfg cs (apply parse e cfg c s)

apply-Keeps :
    (parse : String → Option (ℕ → ℕ)) (e : Env) (cfg : Config) (c : Change) (s : Session)
    → AllRunnable parse s.db
    → AllRunnable parse (apply parse e cfg c s).db
unfolding handle_create_schedule
apply-Keeps parse e cfg (creates req now) s h =
    checked-Keeps parse e cfg now req (is_invalid parse e cfg now req) refl s h
apply-Keeps parse e cfg (toggles i t b) s h = toggle-Keeps parse e i t b s h
apply-Keeps parse e cfg (deletes i t) s h = delete-Keeps parse e i t s h
apply-Keeps parse e cfg (advances i l n) s h = advance-Keeps parse e i l n s h

-- Whatever creations, toggles, deletes and advances there are, and whatever becomes of their
-- statements, every stored schedule has a tenant, a name, and an expression that the evaluator can
-- parse, so that no firing is stuck for want of a next run, if this holds of the schedules before.
pub apply_all-Runnable :
    (parse : String → Option (ℕ → ℕ)) (e : Env) (cfg : Config) (cs : List Change) (s : Session)
    → All (IsRunnable parse) s.db.schedules
    → All (IsRunnable parse) (apply_all parse e cfg cs s).db.schedules
apply_all-Runnable parse e cfg [] s h = h
apply_all-Runnable parse e cfg (c ∷ cs) s h =
    apply_all-Runnable parse e cfg cs (apply parse e cfg c s) (apply-Keeps parse e cfg c s h)
