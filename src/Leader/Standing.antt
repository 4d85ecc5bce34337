-- ===== src/Leader/Standing.antt =====
-- What backs a leader: the lock, or a session that has ended since.
use distributed_scheduler.Prelude.{
  ℕ, ◌≡◌, ◌≢◌, inl, inr, refl, Bool, true, false, not, ◌&&◌, ◌||◌, Option, none, some, List, [],
  ◌∷◌, ◌==◌, if◌then◌else◌, Bool-cases, subst, arith,
}
use distributed_scheduler.Db.{Link, answered, request_lost, reply_lost}
use distributed_scheduler.Leader.{
  LeaderElector, Check, ping_failed, not_held, held, try_acquire_lock, verify_lock, demote, tick,
  release_lock,
}
use distributed_scheduler.Leader.Cluster.{
  Cluster, holds, is_free, try_lock, attempt_of, check_of, put, poll, drop_session, unlock, stop,
  Happening, polls, drops, stops, happen, happen_all,
}

-- The connection of a leader holds the lock, or its session has ended.
abbrev pub backed : ℕ → Option ℕ → Option (ℕ × ℕ) → (ℕ → ℕ → Bool) → Bool
backed i none h lost = false
backed i (some conn) h lost = holds i conn h || lost i conn

abbrev pub stands : ℕ → LeaderElector → Option (ℕ × ℕ) → (ℕ → ℕ → Bool) → Bool
stands i le h lost = not le.is_leader || backed i le.lock_conn h lost

check_stands :
    (x : Check) (i : ℕ) (le : LeaderElector) (h : Option (ℕ × ℕ)) (lost : ℕ → ℕ → Bool)
    → stands i le h lost ≡ true
    → stands i (verify_lock x le) h lost ≡ true
unfolding verify_lock demote
check_stands ping_failed i le h lost s = ground arith
check_stands Check.query_failed i le h lost s = ground arith
check_stands not_held i le h lost s = ground arith
check_stands held i le h lost s = ground arith

pub same_self : (n : ℕ) → (n == n) ≡ true
same_self n = ground arith

-- A poll of a standby with the connection that it is given.
lock_stands :
    (link : Link) (i conn : ℕ) (le : LeaderElector) (h : Option (ℕ × ℕ)) (lost : ℕ → ℕ → Bool)
    → le.is_leader ≡ false
    → (let a = try_lock link i conn h in stands i (try_acquire_lock a.0 le) a.1 lost ≡ true)
unfolding try_lock try_acquire_lock
lock_stands answered i conn le h lost f = elim (Bool-cases (is_free i conn h)) [
  | inl t ↦ rw (t, same_self i, same_self conn)
  | inr g ↦ rw (g, f)
]
lock_stands request_lost i conn le h lost f = rw f
lock_stands reply_lost i conn le h lost f = rw f

attempt_stands :
    (c : Cluster) (i : ℕ) (conn : Option ℕ) (link : Link) (le : LeaderElector)
    → le.is_leader ≡ false
    → (let a = attempt_of c i conn link in stands i (try_acquire_lock a.0 le) a.1 c.lost ≡ true)
unfolding attempt_of try_acquire_lock
attempt_stands c i none link le f = rw f
attempt_stands c i (some conn) link le f = elim (Bool-cases (c.lost i conn)) [
  | inl t ↦ rw (t, f)
  | inr g ↦ rw g (lock_stands link i conn le c.holder c.lost f)
]

-- The lock of one scheduler is not taken by another.
lock_keeps :
    (link : Link) (i conn j other : ℕ) (h : Option (ℕ × ℕ))
    → i ≢ j
    → holds j other h ≡ true
    → holds j other (try_lock link i conn h).1 ≡ true
unfolding try_lock
lock_keeps answered i conn j other (some (k, m)) apart e = ground arith
lock_keeps request_lost i conn j other h apart e = e
lock_keeps reply_lost i conn j other (some (k, m)) apart e = ground arith
lock_keeps answered i conn j other none apart e = cc
lock_keeps reply_lost i conn j other none apart e = cc

attempt_keeps :
    (c : Cluster) (i : ℕ) (conn : Option ℕ) (link : Link) (j other : ℕ)
    → i ≢ j
    → holds j other c.holder ≡ true
    → holds j other (attempt_of c i conn link).1 ≡ true
unfolding attempt_of
attempt_keeps c i none link j other apart e = e
attempt_keeps c i (some conn) link j other apart e = elim (Bool-cases (c.lost i conn)) [
  | inl t ↦ rw (t, e)
  | inr g ↦ rw g (lock_keeps link i conn j other c.holder apart e)
]

-- Whoever is backed stays so while the lock does not leave a scheduler that holds it.
backed_keeps :
    (i : ℕ) (conn : Option ℕ) (h h' : Option (ℕ × ℕ)) (lost lost' : ℕ → ℕ → Bool)
    → ((k : ℕ) → holds i k h ≡ true → holds i k h' || lost' i k ≡ true)
    → ((k : ℕ) → lost i k ≡ true → lost' i k ≡ true)
    → backed i conn h lost ≡ true
    → backed i conn h' lost' ≡ true
backed_keeps i none h h' lost lost' keep gone b = cc
backed_keeps i (some k) h h' lost lost' keep gone b = ground (arith, keep k, gone k)

-- Every elector stands.
abbrev pub Stand : Cluster → Type 0
Stand c = (j : ℕ) → stands j (c.electors j) c.holder c.lost ≡ true

stands_keeps :
    (i : ℕ) (le : LeaderElector) (h h' : Option (ℕ × ℕ)) (lost lost' : ℕ → ℕ → Bool)
    → ((k : ℕ) → holds i k h ≡ true → holds i k h' || lost' i k ≡ true)
    → ((k : ℕ) → lost i k ≡ true → lost' i k ≡ true)
    → stands i le h lost ≡ true
    → stands i le h' lost' ≡ true
stands_keeps i le h h' lost lost' keep gone s =
    ground (arith, s, backed_keeps i le.lock_conn h h' lost lost' keep gone)

either_stands :
    (c : Cluster) (i : ℕ) (conn : Option ℕ) (link : Link) (le : LeaderElector) (x : Check)
    (b : Bool)
    → le.is_leader ≡ b
    → stands i le c.holder c.lost ≡ true
    → (let a = attempt_of c i conn link in
        stands i
          (if b then verify_lock x le else try_acquire_lock a.0 le)
          (if b then c.holder else a.1)
          c.lost
        ≡ true)
either_stands c i conn link le x true e s = check_stands x i le c.holder c.lost s
either_stands c i conn link le x false e s = attempt_stands c i conn link le e

-- One elector changes, and the others keep what backs them.
put-Stand :
    (c : Cluster) (i : ℕ) (le : LeaderElector) (h : Option (ℕ × ℕ))
    → stands i le h c.lost ≡ true
    → ((j k : ℕ) → i ≢ j → holds j k c.holder ≡ true → holds j k h ≡ true)
    → Stand c
    → Stand (record c { electors = put i le c.electors; holder = h })
put-Stand c i le h own keep s j = elim (Bool-cases (j == i)) [
  | inl t ↦
      let e : i ≡ j = ground arith in
      subst (λ m. stands m (put i le c.electors m) h c.lost ≡ true) e (rw (same_self i) own)
  | inr f ↦ rw f (
      stands_keeps j (c.electors j) c.holder h c.lost c.lost
        (λ k e. rw (keep j k (ground arith) e) refl) (λ k e. e) (s j))
]

either_keeps :
    (c : Cluster) (i : ℕ) (conn : Option ℕ) (link : Link) (b : Bool) (j k : ℕ)
    → i ≢ j
    → holds j k c.holder ≡ true
    → holds j k (if b then c.holder else (attempt_of c i conn link).1) ≡ true
either_keeps c i conn link true j k apart e = e
either_keeps c i conn link false j k apart e = attempt_keeps c i conn link j k apart e

poll-Stand :
    (i : ℕ) (conn : Option ℕ) (link : Link) (c : Cluster) → Stand c → Stand (poll i conn link c)
unfolding poll tick
poll-Stand i conn link c s =
    let le = c.electors i in
    put-Stand c i _ _
      (either_stands c i conn link le (check_of c i le.lock_conn link) le.is_leader refl (s i))
      (either_keeps c i conn link le.is_leader) s

unlock_keeps :
    (i : ℕ) (conn : Option ℕ) (link : Link) (h : Option (ℕ × ℕ)) (j k : ℕ)
    → i ≢ j
    → holds j k h ≡ true
    → holds j k (unlock i conn link h) ≡ true
unfolding unlock
unlock_keeps i none link h j k apart e = e
unlock_keeps i (some conn) request_lost h j k apart e = e
unlock_keeps i (some conn) answered (some (a, b)) j k apart e = ground arith
unlock_keeps i (some conn) reply_lost (some (a, b)) j k apart e = ground arith
unlock_keeps i (some conn) answered none j k apart e = cc
unlock_keeps i (some conn) reply_lost none j k apart e = cc

stop-Stand : (i : ℕ) (link : Link) (c : Cluster) → Stand c → Stand (stop i link c)
unfolding stop release_lock
stop-Stand i link c s =
    put-Stand c i _ _ refl (unlock_keeps i (c.electors i).lock_conn link c.holder) s

drop_keeps :
    (i conn j k : ℕ) (h : Option (ℕ × ℕ)) (lost : Bool)
    → holds j k h ≡ true
    → holds j k (if holds i conn h then none else h) || (if j == i && k == conn then true else lost)
      ≡ true
drop_keeps i conn j k none lost e = cc
drop_keeps i conn j k (some (a, b)) lost e = ground arith

drop_session-Stand : (i conn : ℕ) (c : Cluster) → Stand c → Stand (drop_session i conn c)
unfolding drop_session
drop_session-Stand i conn c s j =
    stands_keeps j (c.electors j) c.holder _ c.lost _
      (λ k e. drop_keeps i conn j k c.holder (c.lost j k) e) (λ k e. ground arith) (s j)

pub happen_all-Stand : (xs : List Happening) (c : Cluster) → Stand c → Stand (happen_all xs c)
unfolding happen_all happen
happen_all-Stand [] c s = s
happen_all-Stand (polls i conn link ∷ xs) c s =
    happen_all-Stand xs (poll i conn link c) (poll-Stand i conn link c s)
happen_all-Stand (drops i conn ∷ xs) c s =
    happen_all-Stand xs (drop_session i conn c) (drop_session-Stand i conn c s)
happen_all-Stand (stops i link ∷ xs) c s =
    happen_all-Stand xs (stop i link c) (stop-Stand i link c s)
