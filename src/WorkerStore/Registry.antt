-- ===== src/WorkerStore/Registry.antt =====
-- Registration, heartbeats and draining in internal/db/workerstore.go.
use distributed_scheduler.Prelude.{
  ℕ, ◌≡◌, ◌≢◌, inl, inr, refl, sym, ◌∙◌, String, Bool, true, false, Option, none, some, List, [],
  ◌∷◌, ◌++◌, arith, first, eq_iff, eq_refl, Option-cases, Bool-cases, first-update,
  first-update_apart, first-append_new,
}
use distributed_scheduler.Models.{Worker}
use distributed_scheduler.Db.{Db, Env, Session, answered}
use distributed_scheduler.WorkerStore.{by_id, fresh_worker, back_again, register_worker}

abbrev pub find_worker : String → Db → Option Worker
find_worker worker_id d = first (by_id worker_id) d.workers

-- The row that a registration leaves.
abbrev pub registered : ℕ → Worker → Option Worker → Worker
registered now worker none = fresh_worker now worker
registered now worker (some w) = back_again now worker w

pub by_id_apart :
    (other worker_id : String) (y : Worker)
    → other ≢ worker_id
    → by_id worker_id y ≡ true
    → by_id other y ≡ false
by_id_apart other worker_id y ne t = elim (Bool-cases (by_id other y)) [
  | inl h ↦ absurd (ne (sym ((eq_iff y.id other).0 h) ∙ (eq_iff y.id worker_id).0 t))
  | inr h ↦ h
]

first-append_apart :
    (p : Worker → Bool) (xs : List Worker) (y : Worker)
    → p y ≡ false
    → first p (xs ++ y ∷ []) ≡ first p xs
unfolding first
first-append_apart p [] y h = rw h
first-append_apart p (x ∷ xs) y h = rw (first-append_apart p xs y h)

-- A registration that is answered leaves the worker ACTIVE, seen now, at the address and with the
-- version that it gave, whatever its status was; a worker that is new gets the capacities it gave, and
-- one that is known keeps its tenant, its capacities and its count of jobs. No other worker changes.
pub register_worker_lem :
    (e : Env) (worker : Worker) (s : Session)
    → e.link s.sent ≡ answered
    → let now = e.clock s.sent in
      let t = (register_worker e worker s).1 in
      (find_worker worker.id t.db ≡ some (registered now worker (find_worker worker.id s.db)))
      × ((other : String) → other ≢ worker.id → find_worker other t.db ≡ find_worker other s.db)
unfolding register_worker
register_worker_lem e worker s l = elim (Option-cases (find_worker worker.id s.db)) [
  | inl new ↦ (
    ground (
      arith,
      l,
      new,
      first-append_new (by_id worker.id) s.db.workers (fresh_worker (e.clock s.sent) worker) new
          (eq_refl worker.id),
    ),
    λ other ne. ground (
      arith,
      l,
      new,
      first-append_apart (by_id other) s.db.workers (fresh_worker (e.clock s.sent) worker) (
          by_id_apart other worker.id (fresh_worker (e.clock s.sent) worker) ne
            (eq_refl worker.id)),
    ),
  )
  | inr (w, known) ↦ (
    ground (
      arith,
      l,
      known,
      first-update (by_id worker.id) (back_again (e.clock s.sent) worker) w s.db.workers (λ y t. t)
          known,
    ),
    λ other ne. ground (
      arith,
      l,
      known,
      first-update_apart (by_id other) (by_id worker.id) (back_again (e.clock s.sent) worker)
          (λ y. refl) (λ y. by_id_apart other worker.id y ne) s.db.workers,
    ),
  )
]
