-- ===== src/Leader/Loops.antt =====
-- onPromote and onDemote of main in scheduler/scheduler.go: the loops of a leader, as the elector of
-- scheduler/leader.go starts and stops them. A context of the loops is a number, in the order of
-- creation; the sweep that onPromote starts with is JobStore's ReclaimExpiredJobs, and changes none.
use distributed_scheduler.Prelude.{
  ℕ, zero, suc, ◌≡◌, refl, inl, inr, Bool, true, false, Option, none, some, List, [], ◌∷◌, arith,
  if_elim, Option-cases,
}
use distributed_scheduler.Leader.{
  Callback, on_promote, on_demote, LeaderElector, new_leader_elector, Attempt, no_connection, taken,
  granted, Check, ping_failed, not_held, held, try_acquire_lock, demote, verify_lock, verify_conn,
  tick, ticks,
}

-- leaderLoopCancel is `current`; `cancelled` has the contexts whose cancel function was called, the
-- latest first.
pub record Loops : Type 0 where
  pub started : ℕ
  pub current : Option ℕ
  pub cancelled : List ℕ

abbrev pub no_loops : Loops
no_loops = record { started = 0; current = none; cancelled = [] }

cancel_current : Option ℕ → Loops → Loops
cancel_current none ls = ls
cancel_current (some k) ls = record ls { current = none; cancelled = k ∷ ls.cancelled }

-- onPromote and onDemote
unfoldable pub call_back : Callback → Loops → Loops
unfolding cancel_current
call_back on_promote ls = record ls { started = suc ls.started; current = some ls.started }
call_back on_demote ls = cancel_current ls.current ls

-- The loops after the callbacks that an elector has made, the latest first.
unfoldable pub loops_after : List Callback → Loops
loops_after [] = no_loops
loops_after (c ∷ earlier) = call_back c (loops_after earlier)

-- The contexts before the k-th, the latest first.
abbrev pub earlier_than : ℕ → List ℕ
earlier_than zero = []
earlier_than (suc k) = k ∷ earlier_than k

-- A leader has one context that is not cancelled, its latest, and a standby has none.
abbrev pub Follow : Bool → Loops → Type 0
Follow true ls =
    (k : ℕ) × (ls.started ≡ suc k) × (ls.current ≡ some k) × (ls.cancelled ≡ earlier_than k)
Follow false ls = (ls.current ≡ none) × (ls.cancelled ≡ earlier_than ls.started)

promote-Follow : (ls : Loops) → Follow false ls → Follow true (call_back on_promote ls)
unfolding call_back
promote-Follow ls (c, x) = (ls.started, refl, refl, x)

demote-Follow : (ls : Loops) → Follow true ls → Follow false (call_back on_demote ls)
unfolding call_back
demote-Follow ls (k, s, c, x) = (ground (arith, c), ground (arith, c, s, x))

demoted :
    (le : LeaderElector)
    → ((demote le).is_leader ≡ false) × ((demote le).callbacks ≡ on_demote ∷ le.callbacks)
unfolding demote
demoted le = elim (Option-cases le.lock_conn) [
  | inl e ↦ (ground (arith, e), ground (arith, e))
  | inr (n, e) ↦ (ground (arith, e), ground (arith, e))
]

abbrev IsFollowed : LeaderElector → Type 0
IsFollowed le = Follow le.is_leader (loops_after le.callbacks)

demote-IsFollowed :
    (le : LeaderElector) → Follow true (loops_after le.callbacks) → IsFollowed (demote le)
unfolding loops_after
demote-IsFollowed le f =
    let (b, cs) = demoted le in rw (b, cs) (demote-Follow (loops_after le.callbacks) f)

acquire-IsFollowed :
    (le : LeaderElector) (a : Attempt)
    → le.is_leader ≡ false
    → IsFollowed le
    → IsFollowed (try_acquire_lock a le)
unfolding try_acquire_lock loops_after
acquire-IsFollowed le no_connection l f = f
acquire-IsFollowed le (Attempt.query_failed conn) l f = f
acquire-IsFollowed le (taken conn) l f = f
acquire-IsFollowed le (granted conn) l f = promote-Follow (loops_after le.callbacks) (rw l at f)

verify_conn-IsFollowed :
    (le : LeaderElector) (c : Check) (o : Option ℕ)
    → le.is_leader ≡ true
    → IsFollowed le
    → IsFollowed (verify_conn c le o)
unfolding verify_lock
verify_conn-IsFollowed le c none l f = demote-IsFollowed le (rw l at f)
verify_conn-IsFollowed le held (some n) l f = f
verify_conn-IsFollowed le ping_failed (some n) l f = demote-IsFollowed le (rw l at f)
verify_conn-IsFollowed le Check.query_failed (some n) l f = demote-IsFollowed le (rw l at f)
verify_conn-IsFollowed le not_held (some n) l f = demote-IsFollowed le (rw l at f)

verify-IsFollowed :
    (le : LeaderElector) (c : Check)
    → le.is_leader ≡ true
    → IsFollowed le
    → IsFollowed (verify_lock c le)
unfolding verify_lock
verify-IsFollowed le c l f = verify_conn-IsFollowed le c le.lock_conn l f

tick-IsFollowed :
    (le : LeaderElector) (a : Attempt) (c : Check) → IsFollowed le → IsFollowed (tick le (a, c))
unfolding tick
tick-IsFollowed le a c f =
    if_elim IsFollowed le.is_leader (λ l. verify-IsFollowed le c l f)
      (λ l. acquire-IsFollowed le a l f)

ticks-IsFollowed :
    (le : LeaderElector) (ts : List (Attempt × Check)) → IsFollowed le → IsFollowed (ticks le ts)
unfolding ticks
ticks-IsFollowed le [] f = f
ticks-IsFollowed le ((a, c) ∷ ts) f =
    ticks-IsFollowed (tick le (a, c)) ts (tick-IsFollowed le a c f)

-- Whatever a new elector's polls are answered, a scheduler runs one set of background loops while it
-- leads, the one that its latest promotion started, and none while it stands by: every other set
-- that was ever started has been cancelled, each once.
pub ticks-Follow :
    (ts : List (Attempt × Check))
    → let le = ticks new_leader_elector ts in Follow le.is_leader (loops_after le.callbacks)
unfolding loops_after
ticks-Follow ts = ticks-IsFollowed new_leader_elector ts (refl, refl)
