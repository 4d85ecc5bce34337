-- ===== src/Leader.antt =====
-- scheduler/leader.go: the election of the leader among the schedulers.
-- A connection of the pool is a number. What PostgreSQL answers to a poll, and whether the pool has a
-- connection to give, is the poll's argument. `callbacks` lists the calls of onPromote and onDemote,
-- the latest first; `acquired` and `released` count the pool's Acquire and Release.
pub mod Polls
pub mod Loops
pub mod Cluster
pub mod Standing
pub mod Exclusion
pub mod Stuck
mod Examples
use distributed_scheduler.Prelude.{
  ℕ, suc, Bool, true, false, Option, none, some, List, [], ◌∷◌, if◌then◌else◌,
}

pub data Callback : Type 0 where
  on_promote on_demote : Callback

pub record LeaderElector : Type 0 where
  pub is_leader : Bool
  pub lock_conn : Option ℕ
  pub callbacks : List Callback
  pub acquired : ℕ
  pub released : ℕ

-- NewLeaderElector
abbrev pub new_leader_elector : LeaderElector
new_leader_elector = record {
  is_leader = false;
  lock_conn = none;
  callbacks = [];
  acquired = 0;
  released = 0;
}

-- What becomes of an attempt at the lock.
pub data Attempt : Type 0 where
  no_connection : Attempt
  query_failed taken granted : (conn : ℕ) → Attempt

-- What becomes of a check of the lock.
pub data Check : Type 0 where
  ping_failed query_failed not_held held : Check

-- tryAcquireLock
unfoldable pub try_acquire_lock : Attempt → LeaderElector → LeaderElector
try_acquire_lock no_connection le = le
try_acquire_lock (Attempt.query_failed conn) le = record le {
  acquired = suc le.acquired;
  released = suc le.released;
}
try_acquire_lock (taken conn) le = record le {
  acquired = suc le.acquired;
  released = suc le.released;
}
try_acquire_lock (granted conn) le = record le {
  acquired = suc le.acquired;
  lock_conn = some conn;
  is_leader = true;
  callbacks = on_promote ∷ le.callbacks;
}

-- lockConn.Release, where there is one
abbrev pub release_conn : Option ℕ → LeaderElector → LeaderElector
release_conn none le = le
release_conn (some conn) le = record le { lock_conn = none; released = suc le.released }

unfoldable pub demote : LeaderElector → LeaderElector
demote le =
    let standby = release_conn le.lock_conn (record le { is_leader = false }) in
    record standby { callbacks = on_demote ∷ standby.callbacks }

check_lock : Check → LeaderElector → LeaderElector
check_lock held le = le
check_lock _ le = demote le

verify_conn : Check → LeaderElector → Option ℕ → LeaderElector
verify_conn c le none = demote le
verify_conn c le (some conn) = check_lock c le

-- verifyLock
unfoldable pub verify_lock : Check → LeaderElector → LeaderElector
unfolding check_lock verify_conn
verify_lock c le = verify_conn c le le.lock_conn

-- One tick of Run's loop: of the two answers, the one that the state asks for.
unfoldable pub tick : LeaderElector → Attempt × Check → LeaderElector
tick le (a, c) = if le.is_leader then verify_lock c le else try_acquire_lock a le

unfoldable pub ticks : LeaderElector → List (Attempt × Check) → LeaderElector
ticks le [] = le
ticks le (t ∷ ts) = ticks (tick le t) ts

unfoldable pub release_lock : LeaderElector → LeaderElector
release_lock le = record (release_conn le.lock_conn le) { is_leader = false }

-- Run: ticks until the context is cancelled.
unfoldable pub run : LeaderElector → List (Attempt × Check) → LeaderElector
run le ts = release_lock (ticks le ts)
