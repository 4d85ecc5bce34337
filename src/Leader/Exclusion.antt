-- ===== src/Leader/Exclusion.antt =====
-- Who leads, of several schedulers.
use distributed_scheduler.Prelude.{
  ℕ, ◌≡◌, ◌≢◌, ◌⊎◌, inl, inr, refl, Bool, true, false, Option, none, some, List, Bool-cases, sym,
  ◌∙◌, ap, arith,
}
use distributed_scheduler.Db.{Link}
use distributed_scheduler.Leader.{
  LeaderElector, Attempt, Check, ping_failed, verify_lock, demote, tick,
}
use distributed_scheduler.Leader.Cluster.{
  Cluster, new_cluster, holds, attempt_of, check_conn, check_of, poll, Happening, happen_all,
}
use distributed_scheduler.Leader.Standing.{backed, same_self, Stand, happen_all-Stand}

-- A leader whose session has ended: its next tick makes it a standby, whatever that is answered.
abbrev pub IsStale : ℕ → Cluster → Type 0
IsStale i c =
    (conn : ℕ) × ((c.electors i).lock_conn ≡ some conn)
    × (c.lost i conn ≡ true)
    × ((given : Option ℕ) (link : Link) → ((poll i given link c).electors i).is_leader ≡ false)

ended_tick :
    (le : LeaderElector) (a : Attempt) (x : Check) (conn : ℕ)
    → le.is_leader ≡ true
    → le.lock_conn ≡ some conn
    → x ≡ ping_failed
    → (tick le (a, x)).is_leader ≡ false
unfolding tick verify_lock demote
ended_tick le a x conn t e p = ground arith

ended-IsStale :
    (i conn : ℕ) (c : Cluster)
    → (c.electors i).is_leader ≡ true
    → (c.electors i).lock_conn ≡ some conn
    → c.lost i conn ≡ true
    → IsStale i c
unfolding poll check_of check_conn
ended-IsStale i conn c t e lost = (
  conn,
  e,
  lost,
  λ given link.
      rw (same_self i)
        (ended_tick (c.electors i) (attempt_of c i given link).0 _ conn t e (rw (e, lost) refl)),
)

holds_eq : (i conn : ℕ) (h : Option (ℕ × ℕ)) → holds i conn h ≡ true → h ≡ some (i, conn)
holds_eq i conn none e = cc
holds_eq i conn (some (j, other)) e =
    let same : j ≡ i = ground arith in
    let same_conn : other ≡ conn = ground arith in rw (same, same_conn) refl

backed_by :
    (i : ℕ) (m : Option ℕ) (h : Option (ℕ × ℕ)) (lost : ℕ → ℕ → Bool)
    → backed i m h lost ≡ true
    → (conn : ℕ) × (m ≡ some conn) × ((lost i conn ≡ true) ⊎ (h ≡ some (i, conn)))
backed_by i none h lost b = cc
backed_by i (some conn) h lost b = elim (Bool-cases (lost i conn)) [
  | inl t ↦ (conn, refl, inl t)
  | inr f ↦ (conn, refl, inr (holds_eq i conn h (ground arith)))
]

leader_holds :
    (i : ℕ) (c : Cluster)
    → Stand c
    → (c.electors i).is_leader ≡ true
    → IsStale i c ⊎ ((conn : ℕ) × (c.holder ≡ some (i, conn)))
leader_holds i c s t =
    let b : backed i (c.electors i).lock_conn c.holder c.lost ≡ true = ground (arith, s i) in
    let (conn, e, k) = backed_by i (c.electors i).lock_conn c.holder c.lost b in
    elim k [ inl lost ↦ inl (ended-IsStale i conn c t e lost) | inr h ↦ inr (conn, h) ]

scheduler_of : Option (ℕ × ℕ) → ℕ
scheduler_of none = 0
scheduler_of (some session) = session.0

-- Of the schedulers that start as standbys on a free lock, two lead at a time only where one of them
-- leads by a session that has ended since its last tick, whatever becomes of the polls, the sessions
-- and the links; and that one's next tick makes it a standby, whatever it is answered.
pub two_leaders-IsStale :
    (xs : List Happening) (i j : ℕ)
    → i ≢ j
    → ((happen_all xs new_cluster).electors i).is_leader ≡ true
    → ((happen_all xs new_cluster).electors j).is_leader ≡ true
    → IsStale i (happen_all xs new_cluster) ⊎ IsStale j (happen_all xs new_cluster)
unfolding scheduler_of
two_leaders-IsStale xs i j apart li lj =
    let c = happen_all xs new_cluster in
    let s = happen_all-Stand xs new_cluster (λ k. refl) in
    elim (leader_holds i c s li) [
      | inl stale ↦ inl stale
      | inr (_, h) ↦ elim (leader_holds j c s lj) [
        | inl stale ↦ inr stale
        | inr (_, g) ↦ absurd (apart (ap scheduler_of (sym h ∙ g)))
      ]
    ]
