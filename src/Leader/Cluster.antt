-- ===== src/Leader/Cluster.antt =====
-- The electors of scheduler/leader.go in several schedulers, and the one advisory lock of their
-- database.
-- A session of PostgreSQL is a scheduler, by number, with a connection of its pool. The lock is a lock
-- of a session: it is held until the session unlocks it or ends. What a poll is answered follows from
-- who holds it, from whether the session has ended, and from the link.
use distributed_scheduler.Prelude.{
  ℕ, Bool, true, false, ◌&&◌, Option, none, some, List, [], ◌∷◌, ◌==◌, if◌then◌else◌,
}
use distributed_scheduler.Db.{Link, answered, request_lost, reply_lost}
use distributed_scheduler.Leader.{
  LeaderElector, new_leader_elector, Attempt, no_connection, taken, granted, Check, ping_failed,
  not_held, held, tick, release_lock,
}

pub record Cluster : Type 0 where
  pub electors : ℕ → LeaderElector
  pub holder : Option (ℕ × ℕ)
  pub lost : ℕ → ℕ → Bool

abbrev pub new_cluster : Cluster
new_cluster = record { electors = λ i. new_leader_elector; holder = none; lost = λ i conn. false }

-- Whether the lock is held by a connection of a scheduler, by another session, or by none.
abbrev pub holds : ℕ → ℕ → Option (ℕ × ℕ) → Bool
holds i conn none = false
holds i conn (some (j, other)) = j == i && other == conn

-- A session that holds the lock may take it again.
abbrev pub is_free : ℕ → ℕ → Option (ℕ × ℕ) → Bool
is_free i conn none = true
is_free i conn (some session) = holds i conn (some session)

-- SELECT pg_try_advisory_lock: what the elector hears, and who holds the lock after.
unfoldable pub try_lock : Link → ℕ → ℕ → Option (ℕ × ℕ) → Attempt × Option (ℕ × ℕ)
try_lock answered i conn h =
    if is_free i conn h then (granted conn, some (i, conn)) else (taken conn, h)
try_lock request_lost i conn h = (Attempt.query_failed conn, h)
try_lock reply_lost i conn h =
    (Attempt.query_failed conn, if is_free i conn h then some (i, conn) else h)

-- An attempt with the connection that the pool gives, if it gives one.
unfoldable pub attempt_of : Cluster → ℕ → Option ℕ → Link → Attempt × Option (ℕ × ℕ)
unfolding try_lock
attempt_of c i none link = (no_connection, c.holder)
attempt_of c i (some conn) link =
    if c.lost i conn then (Attempt.query_failed conn, c.holder) else try_lock link i conn c.holder

-- The ping, and the query of pg_locks.
unfoldable pub check_conn : Link → Bool → Bool → Check
check_conn link true b = ping_failed
check_conn answered false true = held
check_conn answered false false = not_held
check_conn _ false b = Check.query_failed

unfoldable pub check_of : Cluster → ℕ → Option ℕ → Link → Check
unfolding check_conn
check_of c i none link = ping_failed
check_of c i (some conn) link = check_conn link (c.lost i conn) (holds i conn c.holder)

abbrev pub put : ℕ → LeaderElector → (ℕ → LeaderElector) → ℕ → LeaderElector
put i le electors j = if j == i then le else electors j

-- A tick of an elector.
unfoldable pub poll : ℕ → Option ℕ → Link → Cluster → Cluster
unfolding attempt_of check_of
poll i conn link c =
    let le = c.electors i in
    let a = attempt_of c i conn link in
    record c {
      electors = put i (tick le (a.0, check_of c i le.lock_conn link)) c.electors;
      holder = if le.is_leader then c.holder else a.1;
    }

-- The end of a session: PostgreSQL frees what it held.
unfoldable pub drop_session : ℕ → ℕ → Cluster → Cluster
drop_session i conn c = record c {
  holder = if holds i conn c.holder then none else c.holder;
  lost = λ j other. if j == i && other == conn then true else c.lost j other;
}

-- SELECT pg_advisory_unlock, where there is a connection.
unfoldable pub unlock : ℕ → Option ℕ → Link → Option (ℕ × ℕ) → Option (ℕ × ℕ)
unlock i none link h = h
unlock i (some conn) request_lost h = h
unlock i (some conn) _ h = if holds i conn h then none else h

-- The end of Run.
unfoldable pub stop : ℕ → Link → Cluster → Cluster
unfolding unlock
stop i link c = record c {
  electors = put i (release_lock (c.electors i)) c.electors;
  holder = unlock i (c.electors i).lock_conn link c.holder;
}

pub data Happening : Type 0 where
  polls : (i : ℕ) (conn : Option ℕ) → Link → Happening
  drops : (i conn : ℕ) → Happening
  stops : (i : ℕ) → Link → Happening

unfoldable pub happen : Happening → Cluster → Cluster
unfolding poll drop_session stop
happen (polls i conn link) c = poll i conn link c
happen (drops i conn) c = drop_session i conn c
happen (stops i link) c = stop i link c

unfoldable pub happen_all : List Happening → Cluster → Cluster
happen_all [] c = c
happen_all (x ∷ xs) c = happen_all xs (happen x c)
