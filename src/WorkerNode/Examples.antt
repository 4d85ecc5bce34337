-- ===== src/WorkerNode/Examples.antt =====
-- Runs of worker/worker.go on a small worker, and its theorems at them.
use distributed_scheduler.Prelude.{◌*◌, ◌≡◌, refl, some, [], ◌∷◌, arith, first}
use distributed_scheduler.Models.{draining, second}
use distributed_scheduler.Db.{answered}
use distributed_scheduler.Samples.{server, two_workers, worker_a}
use distributed_scheduler.WorkerStore.Registry.{find_worker}
use distributed_scheduler.WorkerNode.{Node, dispatches, cancels, run, send_heartbeat, drain}
use distributed_scheduler.WorkerNode.Tracking.{InStep, run-InStep}
use distributed_scheduler.WorkerNode.Draining.{drain_undone}

abbrev idle : Node
idle = record {
  id = "worker-a";
  tenant_id = "acme";
  address = "10.0.0.1:50052";
  max_worker_count = 2;
  active_jobs = [];
  cancel_funcs = [];
  contexts = 0;
  cancelled = [];
}

run-InStep_example :
    InStep (run idle (dispatches "job-1" 1 5 ∷ dispatches "job-2" 1 6 ∷ cancels "job-1" ∷ []))
run-InStep_example =
    run-InStep idle (dispatches "job-1" 1 5 ∷ dispatches "job-2" 1 6 ∷ cancels "job-1" ∷ [])
      (record { single = tt; bounded = omega arith; same_keys = refl })

drain_undone_example :
    let drained = (drain server answered idle two_workers).1 in
    let later = (send_heartbeat server answered answered idle drained).1 in
    (find_worker "worker-a" drained.db ≡ some (record worker_a { status = draining }))
    × (find_worker "worker-a" later.db ≡ some (record worker_a { last_heartbeat = 1052 * second }))
unfolding first
drain_undone_example = drain_undone server idle two_workers worker_a refl refl refl refl refl
