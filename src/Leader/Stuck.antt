-- ===== src/Leader/Stuck.antt =====
-- A lock that is held by a connection which its elector has given back to the pool.
use distributed_scheduler.Prelude.{
  ℕ, ◌≡◌, inl, inr, refl, Bool, true, false, not, ◌&&◌, Option, none, some, List, [], ◌∷◌, ◌==◌,
  if◌then◌else◌, Bool-cases, if_elim, All, sym, ◌∙◌, arith,
}
use distributed_scheduler.Db.{Link, answered, request_lost, reply_lost}
use distributed_scheduler.Leader.{
  LeaderElector, Attempt, Check, try_acquire_lock, verify_lock, release_conn, tick, release_lock,
}
use distributed_scheduler.Leader.Cluster.{
  Cluster, try_lock, attempt_of, put, poll, drop_session, unlock, stop, Happening, polls, drops,
  stops, happen, happen_all,
}

-- A happening that does not meet the session: it does not end it, and its scheduler does not draw its
-- connection from the pool.
unfoldable pub spares : ℕ → ℕ → Happening → Bool
spares i conn (polls j none link) = true
spares i conn (polls j (some other) link) = not (i == j && conn == other)
spares i conn (drops j other) = not (i == j && conn == other)
spares i conn (stops j link) = true

-- No scheduler leads, and none has a connection of its own.
abbrev pub IsIdle : (ℕ → LeaderElector) → Type 0
IsIdle electors = (j : ℕ) → ((electors j).is_leader ≡ false) × ((electors j).lock_conn ≡ none)

-- The lock is held and nobody leads.
abbrev IsStuck : ℕ → ℕ → Cluster → Type 0
IsStuck i conn c = IsIdle c.electors × (c.holder ≡ some (i, conn))

put-IsIdle :
    (j : ℕ) (le : LeaderElector) (electors : ℕ → LeaderElector)
    → (le.is_leader ≡ false) × (le.lock_conn ≡ none)
    → IsIdle electors
    → IsIdle (put j le electors)
put-IsIdle j le electors x h k =
    if_elim (λ (m : LeaderElector). (m.is_leader ≡ false) × (m.lock_conn ≡ none)) (k == j) (λ _. x)
      (λ _. h k)

-- An attempt that the lock refuses.
refused_attempt :
    (link : Link) (i conn j other : ℕ) (le : LeaderElector)
    → (i == j && conn == other) ≡ false
    → (le.is_leader ≡ false) × (le.lock_conn ≡ none)
    → (let a = try_lock link j other (some (i, conn)) in
        ((try_acquire_lock a.0 le).is_leader ≡ false)
        × ((try_acquire_lock a.0 le).lock_conn ≡ none)
        × (a.1 ≡ some (i, conn)))
unfolding try_lock try_acquire_lock
refused_attempt answered i conn j other le f x = rw f (x.0, x.1, refl)
refused_attempt request_lost i conn j other le f x = (x.0, x.1, refl)
refused_attempt reply_lost i conn j other le f x = rw f (x.0, x.1, refl)

idle_attempt :
    (i conn j : ℕ) (c : Cluster) (given : Option ℕ) (link : Link) (le : LeaderElector)
    → spares i conn (polls j given link) ≡ true
    → c.holder ≡ some (i, conn)
    → (le.is_leader ≡ false) × (le.lock_conn ≡ none)
    → (let a = attempt_of c j given link in
        ((try_acquire_lock a.0 le).is_leader ≡ false)
        × ((try_acquire_lock a.0 le).lock_conn ≡ none)
        × (a.1 ≡ some (i, conn)))
unfolding attempt_of spares try_acquire_lock
idle_attempt i conn j c none link le f h x = (x.0, x.1, h)
idle_attempt i conn j c (some other) link le f h x = elim (Bool-cases (c.lost j other)) [
  | inl t ↦ rw t (x.0, x.1, h)
  | inr g ↦ rw (g, h) (refused_attempt link i conn j other le (ground arith) x)
]

standby_tick :
    (le : LeaderElector) (a : Attempt) (x : Check)
    → le.is_leader ≡ false
    → tick le (a, x) ≡ try_acquire_lock a le
unfolding tick
standby_tick le a x f = pick le.is_leader f
  where
    pick :
        (b : Bool)
        → b ≡ false
        → (if b then verify_lock x le else try_acquire_lock a le) ≡ try_acquire_lock a le
    pick false e = refl
    pick true e = cc

held_tick : (b : Bool) (h h' : Option (ℕ × ℕ)) → h ≡ h' → (if b then h else h') ≡ h
held_tick b h h' e = if_elim (λ z. z ≡ h) b (λ _. refl) (λ _. sym e)

poll-IsStuck :
    (i conn j : ℕ) (given : Option ℕ) (link : Link) (c : Cluster)
    → spares i conn (polls j given link) ≡ true
    → IsStuck i conn c
    → IsStuck i conn (poll j given link c)
unfolding poll
poll-IsStuck i conn j given link c f (idle, h) =
    let a = idle_attempt i conn j c given link (c.electors j) f h (idle j) in
    (
      put-IsIdle j _ c.electors
          (rw (standby_tick (c.electors j) (attempt_of c j given link).0 _ (idle j).0) (a.0, a.1))
          idle,
      held_tick (c.electors j).is_leader _ _ (h ∙ sym a.2) ∙ h,
    )

drop_session-IsStuck :
    (i conn j other : ℕ) (c : Cluster)
    → spares i conn (drops j other) ≡ true
    → IsStuck i conn c
    → IsStuck i conn (drop_session j other c)
unfolding drop_session spares
drop_session-IsStuck i conn j other c f (idle, h) =
    let away : (i == j && conn == other) ≡ false = ground arith in (idle, rw (h, away) refl)

released_conn :
    (m : Option ℕ) (le : LeaderElector) → le.lock_conn ≡ none → (release_conn m le).lock_conn ≡ none
released_conn none le e = e
released_conn (some conn) le e = refl

stop-IsStuck :
    (i conn j : ℕ) (link : Link) (c : Cluster) → IsStuck i conn c → IsStuck i conn (stop j link c)
unfolding stop unlock release_lock
stop-IsStuck i conn j link c (idle, h) =
    let none_held = (idle j).1 in
    (
      put-IsIdle j _ c.electors
          (refl, released_conn (c.electors j).lock_conn (c.electors j) none_held) idle,
      rw (none_held, h) refl,
    )

-- Where the lock is held and no scheduler leads or has a connection of its own, as after a demotion
-- whose connection is still alive: no scheduler leads again, whatever becomes of the polls, the
-- sessions and the links, as long as the session that holds the lock does not end and its scheduler
-- is not given its connection by the pool.
pub lock_stuck :
    (i conn : ℕ) (xs : List Happening) (c : Cluster)
    → c.holder ≡ some (i, conn)
    → IsIdle c.electors
    → All (λ x. spares i conn x ≡ true) xs
    → IsIdle (happen_all xs c).electors
unfolding happen_all happen
lock_stuck i conn [] c h idle spared = idle
lock_stuck i conn (polls j given link ∷ xs) c h idle (f, spared) =
    let (idle', h') = poll-IsStuck i conn j given link c f (idle, h) in
    lock_stuck i conn xs (poll j given link c) h' idle' spared
lock_stuck i conn (drops j other ∷ xs) c h idle (f, spared) =
    let (idle', h') = drop_session-IsStuck i conn j other c f (idle, h) in
    lock_stuck i conn xs (drop_session j other c) h' idle' spared
lock_stuck i conn (stops j link ∷ xs) c h idle (f, spared) =
    let (idle', h') = stop-IsStuck i conn j link c (idle, h) in
    lock_stuck i conn xs (stop j link c) h' idle' spared
