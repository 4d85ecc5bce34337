-- ===== src/Leader/Polls.antt =====
-- What the polls of scheduler/leader.go keep.
use distributed_scheduler.Prelude.{
  ◌+◌, ◌≡◌, refl, Bool, true, false, none, List, [], ◌∷◌, arith, if◌then◌else◌, not,
}
use distributed_scheduler.JobStore.Queries.{is_some}
use distributed_scheduler.Leader.{
  Callback, on_promote, on_demote, LeaderElector, new_leader_elector, Attempt, granted, Check, held,
  try_acquire_lock, demote, verify_lock, tick, ticks, release_lock, run,
}

-- Whether the callbacks, the latest first, leave the scheduler leading.
abbrev pub leads : List Callback → Bool
leads [] = false
leads (on_promote ∷ cs) = true
leads (on_demote ∷ cs) = false

abbrev pub promotes : Callback → Bool
promotes on_promote = true
promotes on_demote = false

-- A promotion comes first and after a demotion only, and a demotion after a promotion only.
abbrev pub Alternate : List Callback → Type 0
Alternate [] = Unit {0}
Alternate (c ∷ cs) = (promotes c ≡ not (leads cs)) × Alternate cs

pub record IsConsistent (le : LeaderElector) : Type 0 where
  pub holds_conn : is_some le.lock_conn ≡ le.is_leader
  pub called_back : leads le.callbacks ≡ le.is_leader
  pub in_turn : Alternate le.callbacks
  pub no_leak : le.acquired ≡ le.released + (if le.is_leader then 1 else 0)

tick-IsConsistent :
    (le : LeaderElector) (a : Attempt) (c : Check) → IsConsistent le → IsConsistent (tick le (a, c))
unfolding tick try_acquire_lock verify_lock demote
tick-IsConsistent le a c i = ground (arith, i)

ticks-IsConsistent :
    (le : LeaderElector) (ts : List (Attempt × Check))
    → IsConsistent le
    → IsConsistent (ticks le ts)
unfolding ticks
ticks-IsConsistent le [] i = i
ticks-IsConsistent le ((a, c) ∷ ts) i =
    ticks-IsConsistent (tick le (a, c)) ts (tick-IsConsistent le a c i)

-- Through any polls a new elector leads exactly while it has the connection with the lock,
-- onPromote and onDemote are called in turn, beginning with onPromote, so that the last call tells
-- whether it leads, and it has taken from the pool no connection that it has not given back, but
-- the one with the lock. When Run returns it does not lead and has given back every connection.
pub run-IsConsistent :
    (ts : List (Attempt × Check))
    → let le = run new_leader_elector ts in
      IsConsistent (ticks new_leader_elector ts)
      × (le.is_leader ≡ false)
      × (le.lock_conn ≡ none)
      × (le.acquired ≡ le.released)
unfolding run release_lock
run-IsConsistent ts =
    let fresh : IsConsistent new_leader_elector = record {
      holds_conn = refl;
      called_back = refl;
      in_turn = tt;
      no_leak = refl;
    } in
    let i = ticks-IsConsistent new_leader_elector ts fresh in
    let le = ticks new_leader_elector ts in
    (i, refl, ground arith, ground (arith, i.no_leak, i.holds_conn))

abbrev pub is_granted : Attempt → Bool
is_granted (granted conn) = true
is_granted _ = false

abbrev pub is_held : Check → Bool
is_held held = true
is_held _ = false

-- A poll of a consistent elector: a leader leads on exactly if it is still seen to hold the lock, a
-- standby leads exactly if it is granted the lock, and a callback is made exactly if this changes.
pub tick_lem :
    (le : LeaderElector) (a : Attempt) (c : Check)
    → IsConsistent le
    → let after = tick le (a, c) in
      (after.is_leader ≡ (if le.is_leader then is_held c else is_granted a))
      × (after.callbacks ≡ (
          if le.is_leader
          then (if after.is_leader then le.callbacks else on_demote ∷ le.callbacks)
          else if after.is_leader
          then on_promote ∷ le.callbacks
          else le.callbacks))
unfolding tick try_acquire_lock verify_lock demote
tick_lem le a c i = (ground (arith, i), ground (arith, i))
