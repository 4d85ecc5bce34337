-- ===== src/Leader/Examples.antt =====
-- An election of scheduler/leader.go: granted the lock, seen to hold it, and then cut off.
use distributed_scheduler.Prelude.{
  ℕ, suc, ◌≡◌, ◌⊎◌, refl, false, ◌==◌, none, some, List, [], ◌∷◌, arith,
}
use distributed_scheduler.Leader.{
  new_leader_elector, Attempt, no_connection, granted, Check, ping_failed, held, tick,
  try_acquire_lock, verify_lock, demote, ticks, run,
}
use distributed_scheduler.Db.{answered, request_lost}
use distributed_scheduler.Leader.Cluster.{
  Cluster, new_cluster, Happening, polls, drops, happen, happen_all, poll, drop_session, try_lock,
  attempt_of, check_of, check_conn,
}
use distributed_scheduler.Leader.Exclusion.{IsStale, two_leaders-IsStale}
use distributed_scheduler.Leader.Stuck.{spares, IsIdle, lock_stuck}
use distributed_scheduler.Leader.Loops.{Follow, loops_after, ticks-Follow}
use distributed_scheduler.Leader.Polls.{IsConsistent, run-IsConsistent}

abbrev term : List (Attempt × Check)
term = (granted 7, held) ∷ (no_connection, held) ∷ (no_connection, ping_failed) ∷ []

run-IsConsistent_example :
    let le = run new_leader_elector term in
    IsConsistent (ticks new_leader_elector term)
    × (le.is_leader ≡ false)
    × (le.lock_conn ≡ none)
    × (le.acquired ≡ le.released)
run-IsConsistent_example = run-IsConsistent term

ticks-Follow_example :
    let le = ticks new_leader_elector term in Follow le.is_leader (loops_after le.callbacks)
ticks-Follow_example = ticks-Follow term

-- Scheduler 0 leads, its session ends, and scheduler 1 takes the lock before scheduler 0 looks.
abbrev cut_off : List Happening
cut_off = polls 0 (some 7) answered ∷ drops 0 7 ∷ polls 1 (some 3) answered ∷ []

two_leaders-IsStale_example :
    IsStale 0 (happen_all cut_off new_cluster) ⊎ IsStale 1 (happen_all cut_off new_cluster)
unfolding happen_all happen poll drop_session tick try_acquire_lock attempt_of try_lock
two_leaders-IsStale_example = two_leaders-IsStale cut_off 0 1 (ground arith) refl refl

-- Scheduler 0 leads, and a check of its lock fails while its session lives on.
abbrev demoted : Cluster
demoted = happen_all (polls 0 (some 7) answered ∷ polls 0 none request_lost ∷ []) new_cluster

abbrev later : List Happening
later = polls 1 (some 3) answered ∷ polls 0 (some 8) answered ∷ drops 1 3 ∷ []

demoted-IsIdle : IsIdle demoted.electors
unfolding happen_all happen poll tick try_acquire_lock verify_lock demote attempt_of try_lock
    check_of check_conn
demoted-IsIdle ℕ.zero = (refl, refl)
demoted-IsIdle (suc n) = let apart : (suc n == 0) ≡ false = ground arith in rw apart (refl, refl)

lock_stuck_example : IsIdle (happen_all later demoted).electors
unfolding happen_all happen poll tick try_acquire_lock verify_lock demote attempt_of try_lock
    check_of check_conn spares
lock_stuck_example = lock_stuck 0 7 later demoted refl demoted-IsIdle (refl, (refl, (refl, tt)))
