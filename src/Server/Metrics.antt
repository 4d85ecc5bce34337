-- ===== src/Server/Metrics.antt =====
-- updateGaugeMetrics of scheduler/scheduler.go, with the two gauges that it sets.
use distributed_scheduler.Prelude.{ℕ, String, not, List, [], ◌∷◌, length, str_eq, select, matching}
use distributed_scheduler.Models.{Worker, status_text}
use distributed_scheduler.Db.{Env, Result, ok, err, M, return, attempt, ◌>>=◌, statement}
use distributed_scheduler.WorkerStore.{get_active_workers}

pub record Gauges : Type 0 where
  pub job_queue_depth : List (String × ℕ)
  pub workers_active : ℕ

abbrev pub statuses : List String
statuses = "PENDING" ∷ "DISPATCHED" ∷ "RUNNING" ∷ "SUCCEEDED" ∷ "FAILED" ∷ "DEAD_LETTER" ∷ []

unfoldable pub count_status : Env → String → M ℕ
unfolding statement
count_status e st =
    statement e λ n d. (ok (matching (λ r. str_eq (status_text r.status) st) d.jobs), d)

set_depth : String → Result ℕ → Gauges → Gauges
set_depth st (ok count) g = record g {
  job_queue_depth = (st, count) ∷ select (λ p. not (str_eq p.0 st)) g.job_queue_depth;
}
set_depth st (err x) g = g

unfoldable pub set_depths : Env → List String → Gauges → M Gauges
unfolding set_depth
set_depths e [] g = return g
set_depths e (st ∷ sts) g = do
  count ← attempt (count_status e st)
  set_depths e sts (set_depth st count g)

set_workers : Result (List Worker) → Gauges → Gauges
set_workers (ok workers) g = record g { workers_active = length workers }
set_workers (err x) g = g

-- updateGaugeMetrics
unfoldable pub update_gauge_metrics : Env → Gauges → M Gauges
unfolding set_workers
update_gauge_metrics e g = do
  g' ← set_depths e statuses g
  workers ← attempt (get_active_workers e)
  return (set_workers workers g')
