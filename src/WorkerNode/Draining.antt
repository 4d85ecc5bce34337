-- ===== src/WorkerNode/Draining.antt =====
-- worker/worker.go and scheduler/scheduler.go together: a worker that drains, and its next heartbeat.
use distributed_scheduler.Prelude.{
  suc, ◌≡◌, refl, ap, ◌∙◌, true, false, some, arith, first, update, matching, first-select,
  first-update_at, length, update_no_match, update_clears, matching_zero,
}
use distributed_scheduler.Models.{Worker, active, draining}
use distributed_scheduler.Db.{guard, Env, Session, answered, ok, continue}
use distributed_scheduler.Server.Rpc.{text}
use distributed_scheduler.Server.WorkerRpcs.{handle_heartbeat, handle_register}
use distributed_scheduler.WorkerStore.{
  by_id, beat, serves, drain_worker, record_heartbeat, register_worker,
}
use distributed_scheduler.WorkerStore.Registry.{find_worker, register_worker_lem}
use distributed_scheduler.WorkerNode.{Node, registration, register, send_heartbeat, drain}

-- The drain takes the worker out of service.
drain_lem :
    (e : Env) (w : Node) (s : Session) (x : Worker)
    → find_worker w.id s.db ≡ some x
    → x.status ≡ active
    → e.link s.sent ≡ answered
    → let t = (drain e answered w s).1 in
      (find_worker w.id t.db ≡ some (record x { status = draining })) × (t.sent ≡ suc s.sent)
unfolding drain handle_heartbeat drain_worker
drain_lem e w s x stored serving l =
    let at =
      first-update_at (by_id w.id) (serves w.id) (λ y. record y { status = draining }) (λ y. refl) x
        s.db.workers stored in
    let same : by_id w.id x ≡ true = first-select (by_id w.id) s.db.workers stored in
    (ground (arith, l, at, same, serving), ground (arith, l))

-- Before the next heartbeat the worker is not served, and that heartbeat is refused.
refused_lem :
    (e : Env) (w : Node) (s : Session)
    → matching (serves w.id) s.db.workers ≡ 0
    → e.link s.sent ≡ answered
    → let (r, t) = handle_heartbeat e w.id (length w.active_jobs) "ACTIVE" s in
      (r ≡ ok (record { success = false; message = text "RE_REGISTER" }))
      × (t.db.workers ≡ s.db.workers)
      × (t.sent ≡ suc s.sent)
unfolding handle_heartbeat record_heartbeat
refused_lem e w s none_served l =
    let kept =
      update_no_match (serves w.id) (beat (length w.active_jobs) (e.clock s.sent)) s.db.workers
        none_served in
    (ground (arith, l, none_served), ground (arith, l, kept), ground (arith, l))

drained_none :
    (e : Env) (w : Node) (s : Session)
    → e.link s.sent ≡ answered
    → matching (serves w.id) (drain e answered w s).1.db.workers ≡ 0
unfolding drain handle_heartbeat drain_worker
drained_none e w s l =
    let set : Worker → Worker = λ y. record y { status = draining } in
    let cleared = update_clears (serves w.id) set (λ y h. ground arith) s.db.workers in
    let none_left = matching_zero (serves w.id) (update (serves w.id) set s.db.workers) cleared in
    ground (arith, l, none_left)

-- What the caller of `register` makes of the reply changes no table.
register_session :
    (e : Env) (w : Node) (t : Session)
    → (register e answered w t).1 ≡ (register_worker e (registration w) t).1
unfolding register handle_register guard continue
register_session e w t = ground arith

-- A refused heartbeat registers the worker again, in the statement after it.
heartbeat_registers :
    (e : Env) (w : Node) (s : Session)
    → matching (serves w.id) s.db.workers ≡ 0
    → e.link s.sent ≡ answered
    → e.link (suc s.sent) ≡ answered
    → (t : Session) × (t.db.workers ≡ s.db.workers)
      × (t.sent ≡ suc s.sent)
      × ((send_heartbeat e answered answered w s).1 ≡ (register_worker e (registration w) t).1)
unfolding send_heartbeat continue
heartbeat_registers e w s none_served l l' =
    let refused = refused_lem e w s none_served l in
    let t = (handle_heartbeat e w.id (length w.active_jobs) "ACTIVE" s).1 in
    (t, refused.1, refused.2, rw (refused.0, register_session e w t))

-- A drain does not last. A worker that the scheduler knows as ACTIVE tells it that it drains, and is
-- then DRAINING; its next heartbeat, which says ACTIVE, is refused, so that it registers again and is
-- ACTIVE once more with the capacity it had. The three statements are answered.
pub drain_undone :
    (e : Env) (w : Node) (s : Session) (x : Worker)
    → find_worker w.id s.db ≡ some x
    → x.status ≡ active
    → e.link s.sent ≡ answered
    → e.link (suc s.sent) ≡ answered
    → e.link (suc (suc s.sent)) ≡ answered
    → let drained = (drain e answered w s).1 in
      let later = (send_heartbeat e answered answered w drained).1 in
      (find_worker w.id drained.db ≡ some (record x { status = draining }))
      × (find_worker w.id later.db
          ≡ some (record x {
            status = active;
            address = w.address;
            last_heartbeat = e.clock (suc (suc s.sent));
            version = "1.0.0";
          }))
drain_undone e w s x stored serving l l' l'' =
    let t = (drain e answered w s).1 in
    let (now_drains, sent) = drain_lem e w s x stored serving l in
    let (u, same, sent', registers) =
      heartbeat_registers e w t (drained_none e w s l) (ground (arith, sent, l'))
        (ground (arith, sent, l'')) in
    let again = register_worker_lem e (registration w) u (ground (arith, sent, sent', l'')) in
    let known : find_worker w.id u.db ≡ some (record x { status = draining }) =
      ap (first (by_id w.id)) same ∙ now_drains in
    (now_drains, rw (registers, again.0, known, sent', sent))
