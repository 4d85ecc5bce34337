-- ===== src/WorkerStore.antt =====
-- internal/db/workerstore.go: the queries on the table `workers`.
-- The quotient of two counts as floats is compared as the fraction that it stands for.
pub mod Registry
pub mod Selection
use distributed_scheduler.Prelude.{
  ℕ, ◌+◌, ◌*◌, String, Bool, not, ◌&&◌, Option, none, some, List, [], ◌∷◌, ◌++◌, ltb, ◌==◌,
  if◌then◌else◌, str_eq, select, first, update, matching, best, order_by,
}
use distributed_scheduler.Models.{Worker, WorkerStatus, active, dead, draining, is_active}
use distributed_scheduler.Db.{
  Db, Env, Result, ok, err, not_active, M, return, guard, ◌>>=◌, ◌>>◌, statement, scan_row,
}
use distributed_scheduler.JobStore.Queries.{is_some, whole_seconds}

abbrev pub by_id : String → Worker → Bool
by_id worker_id w = str_eq w.id worker_id

abbrev pub fresh_worker : ℕ → Worker → Worker
fresh_worker now worker = record worker {
  status = active;
  last_heartbeat = now;
  registered_at = now;
  active_jobs = 0;
}

-- ON CONFLICT (id) DO UPDATE SET …: the capacities and the tenant stay as they were.
abbrev pub back_again : ℕ → Worker → Worker → Worker
back_again now worker w = record w {
  status = active;
  address = worker.address;
  last_heartbeat = now;
  version = worker.version;
}

-- RETURNING id, status, registered_at, last_heartbeat
abbrev pub with_returned : Worker → Worker → Worker
with_returned worker w = record worker {
  id = w.id;
  status = w.status;
  registered_at = w.registered_at;
  last_heartbeat = w.last_heartbeat;
}

unfoldable pub upsert_known : ℕ → Worker → Db → Option Worker → Result Worker × Db
upsert_known now worker d none = (
  ok (with_returned worker (fresh_worker now worker)),
  record d { workers = d.workers ++ fresh_worker now worker ∷ [] },
)
upsert_known now worker d (some w) = (
  ok (with_returned worker (back_again now worker w)),
  record d { workers = update (by_id worker.id) (back_again now worker) d.workers },
)

unfoldable pub register_worker : Env → Worker → M Worker
unfolding upsert_known statement
register_worker e worker =
    statement e λ n d. upsert_known (e.clock n) worker d (first (by_id worker.id) d.workers)

-- UPDATE workers SET set WHERE id = … AND status = 'ACTIVE': the rows affected.
abbrev pub serves : String → Worker → Bool
serves worker_id w = by_id worker_id w && is_active w.status

abbrev pub update_worker : Env → String → (ℕ → Worker → Worker) → M ℕ
update_worker e worker_id set = statement e λ n d. (
  ok (matching (serves worker_id) d.workers),
  record d { workers = update (serves worker_id) (set (e.clock n)) d.workers },
)

abbrev pub beat : ℕ → ℕ → Worker → Worker
beat active_jobs now w = record w { last_heartbeat = now; active_jobs = active_jobs }

unfoldable pub record_heartbeat : Env → String → ℕ → M (Unit {0})
unfolding ◌>>=◌ statement guard
record_heartbeat e worker_id active_jobs = do
  affected ← update_worker e worker_id (beat active_jobs)
  guard (not (affected == 0)) not_active

unfoldable pub mark_worker_dead : Env → String → M (Unit {0})
unfolding ◌>>=◌ statement return
mark_worker_dead e worker_id = do
  affected ← update_worker e worker_id (λ now w. record w { status = dead })
  return tt

unfoldable pub drain_worker : Env → String → M (Unit {0})
unfolding ◌>>=◌ statement return
drain_worker e worker_id = do
  affected ← update_worker e worker_id (λ now w. record w { status = draining })
  return tt

unfoldable pub get_worker : Env → String → M Worker
unfolding statement scan_row
get_worker e worker_id = statement e λ n d. (scan_row (first (by_id worker_id) d.workers), d)

-- ORDER BY active_jobs ASC
unfoldable pub get_active_workers : Env → M (List Worker)
unfolding statement
get_active_workers e = statement e λ n d. (
  ok (
      order_by (λ y x. ltb y.active_jobs x.active_jobs)
        (select (λ w. is_active w.status) d.workers)),
  d,
)

-- last_heartbeat < NOW() - timeout
abbrev pub is_stale : ℕ → ℕ → Worker → Bool
is_stale timeout now w = is_active w.status && ltb (w.last_heartbeat + whole_seconds timeout) now

unfoldable pub get_stale_workers : Env → ℕ → M (List Worker)
unfolding statement
get_stale_workers e timeout =
    statement e λ n d. (ok (select (is_stale timeout (e.clock n)) d.workers), d)

abbrev pub has_room : Worker → Bool
has_room w = is_active w.status && ltb w.active_jobs w.max_jobs

-- active_jobs / max_jobs, in ascending order
unfoldable pub less_loaded : Worker → Worker → Bool
less_loaded y x = ltb (y.active_jobs * x.max_jobs) (x.active_jobs * y.max_jobs)

unfoldable pub get_least_loaded_worker : Env → M (Option Worker)
unfolding statement
get_least_loaded_worker e =
    statement e λ n d. (ok (best less_loaded (select has_room d.workers)), d)
