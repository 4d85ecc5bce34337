-- ===== src/Server/Dispatch/Reaping.antt =====
-- reapDeadWorkers of scheduler/scheduler.go on a server that answers.
use distributed_scheduler.Prelude.{
  ℕ, suc, ◌≡◌, ◌≢◌, inl, inr, refl, sym, ap, subst, ◌∙◌, String, true, false, List, [], ◌∷◌, arith,
  map, select, first, update, All, All-of_In, In, In-select, select-In, In-All, All-imp, Bool-cases,
  eq_iff, first-update_apart, if_elim,
}
use distributed_scheduler.Models.{Worker, dead}
use distributed_scheduler.Config.{Config}
use distributed_scheduler.Db.{
  Env, Session, answered, return, attempt, continue, ◌>>=◌, ◌>>◌, statement,
}
use distributed_scheduler.WorkerStore.{by_id, serves, is_stale, get_stale_workers, mark_worker_dead}
use distributed_scheduler.WorkerStore.Registry.{find_worker, by_id_apart}
use distributed_scheduler.Server.Dispatch.{mark_dead, mark_stale, reap_dead_workers}

abbrev buried : Worker → Worker
buried w = record w { status = dead }

module _ (timeout now : ℕ) where
  -- Every stale worker is among those to mark.
  abbrev Listed : List Worker → List Worker → Type 0
  Listed ws table = All (λ x. is_stale timeout now x ≡ true → In x.id (map (λ w. w.id) ws)) table

  mark-Listed :
      (w : Worker) (ws table : List Worker)
      → Listed (w ∷ ws) table
      → Listed ws (update (serves w.id) buried table)
  unfolding update
  mark-Listed w ws [] h = tt
  mark-Listed w ws (x ∷ table) h = (
    if_elim (λ y. is_stale timeout now y ≡ true → In y.id (map (λ w. w.id) ws)) (serves w.id x)
        (λ t k. absurd (ground (arith, k)))
        (λ f k. elim (h.0 k) [
          | inl same ↦ absurd (ground (arith, f, k, (eq_iff x.id w.id).1 same))
          | inr listed ↦ listed
        ]),
    mark-Listed w ws table h.1,
  )

  mark_dead-Listed :
      (e : Env) (ws : List Worker) (s : Session)
      → ((n : ℕ) → e.link n ≡ answered)
      → Listed ws s.db.workers
      → Listed [] (mark_dead e ws s).1.db.workers
  unfolding mark_dead mark_worker_dead attempt continue statement return ◌>>=◌ ◌>>◌
  mark_dead-Listed e [] s l h = h
  mark_dead-Listed e (w ∷ ws) s l h =
      let t = (mark_worker_dead e w.id s).1 in
      let marked : t.db.workers ≡ update (serves w.id) buried s.db.workers =
        ground (arith, l s.sent) in
      mark_dead-Listed e ws t l (subst (Listed ws) (sym marked) (mark-Listed w ws s.db.workers h))

mark_dead-apart :
    (e : Env) (other : String) (ws : List Worker) (s : Session)
    → ((n : ℕ) → e.link n ≡ answered)
    → All (λ w. other ≢ w.id) ws
    → find_worker other (mark_dead e ws s).1.db ≡ find_worker other s.db
unfolding mark_dead mark_worker_dead attempt continue statement return ◌>>=◌ ◌>>◌
mark_dead-apart e other [] s l h = refl
mark_dead-apart e other (w ∷ ws) s l h =
    let t = (mark_worker_dead e w.id s).1 in
    let marked : t.db.workers ≡ update (serves w.id) buried s.db.workers =
      ground (arith, l s.sent) in
    let spared =
      first-update_apart (by_id other) (serves w.id) buried (λ y. refl)
        (λ y k. by_id_apart other w.id y h.0 (ground arith)) s.db.workers in
    mark_dead-apart e other ws t l h.1 ∙ (ap (first (by_id other)) marked ∙ spared)

In-map : {A B : Type 0} (f : A → B) (x : A) (xs : List A) → In x xs → In (f x) (map f xs)
In-map f x [] i = i
In-map f x (y ∷ xs) (inl e) = inl (ap f e)
In-map f x (y ∷ xs) (inr i) = inr (In-map f x xs i)

-- The reaper marks the workers that its query finds.
reaps :
    (e : Env) (cfg : Config) (s : Session)
    → e.link s.sent ≡ answered
    → (reap_dead_workers e cfg s).1
      ≡ (mark_dead e
          (select (is_stale cfg.heartbeat_timeout (e.clock s.sent)) s.db.workers)
          (record s { sent = suc s.sent })).1
unfolding reap_dead_workers get_stale_workers statement attempt continue ◌>>=◌ mark_stale
reaps e cfg s l = ground (arith, l)

-- On a server that answers, after the reaper has run no worker is ACTIVE whose last heartbeat, when
-- the reaper looked, was older than the timeout; and a worker whose id no such worker has is as it was.
pub reap_dead_workers_lem :
    (e : Env) (cfg : Config) (s : Session)
    → ((n : ℕ) → e.link n ≡ answered)
    → let stale = is_stale cfg.heartbeat_timeout (e.clock s.sent) in
      let t = (reap_dead_workers e cfg s).1 in
      All (λ w. stale w ≡ false) t.db.workers
      × ((other : String)
          → All (λ w. stale w ≡ true → other ≢ w.id) s.db.workers
          → find_worker other t.db ≡ find_worker other s.db)
reap_dead_workers_lem e cfg s l =
    let stale = is_stale cfg.heartbeat_timeout (e.clock s.sent) in
    let found = select stale s.db.workers in
    let u : Session = record s { sent = suc s.sent } in
    let listed =
      All-of_In (λ x. stale x ≡ true → In x.id (map (λ w. w.id) found)) s.db.workers
        λ x i k. In-map (λ w. w.id) x found (In-select stale x s.db.workers i k) in
    (
      subst (λ t. All (λ w. stale w ≡ false) t.db.workers) (sym (reaps e cfg s (l s.sent)))
          (All-imp _ (λ x k. elim (Bool-cases (stale x)) [ inl t ↦ absurd (k t) | inr f ↦ f ])
            (mark_dead e found u).1.db.workers
            (mark_dead-Listed cfg.heartbeat_timeout (e.clock s.sent) e found u l listed)),
      λ other apart.
          ap (λ t. find_worker other t.db) (reaps e cfg s (l s.sent))
          ∙ mark_dead-apart e other found u l (
              All-of_In (λ w. other ≢ w.id) found
                λ w i.
                  let (stored, k) = select-In stale w s.db.workers i in
                  In-All (λ w. stale w ≡ true → other ≢ w.id) w s.db.workers apart stored k),
    )
