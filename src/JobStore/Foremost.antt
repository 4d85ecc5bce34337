-- ===== src/JobStore/Foremost.antt =====
-- Which job ClaimNextJob of internal/db/jobstore.go takes, and what becomes of it, written out.
use distributed_scheduler.Prelude.{
  ℕ, suc, ◌+◌, ◌*◌, ◌/◌, ◌≤◌, ◌<◌, ◌≡◌, ◌≢◌, ◌⊎◌, inl, inr, refl, sym, String, Bool, true, false,
  Option, none, some, List, [], ◌∷◌, All, All-imp, update, if_elim, eq_iff, Bool-cases, subst, In,
  arith, str_eq,
}
use distributed_scheduler.Models.{pending, dispatched, second}
use distributed_scheduler.Db.{Env, JobRow, Session, ok, answered}
use distributed_scheduler.JobStore.Queries.{by_id, scan_job}
use distributed_scheduler.JobStore.Claiming.{retry_due, priority_rank, eligible, claim_next_job}
use distributed_scheduler.JobStore.Choice.{Precedes}
use distributed_scheduler.JobStore.Claim.{leased, claim_next_job_updates}

-- A job that may be claimed: PENDING, past its delay if it has one, and not locked by another session.
abbrev pub IsWaiting : Env → ℕ → JobRow → Type 0
IsWaiting e n x =
    (x.status ≡ pending)
    × ((x.retry_after ≡ none) ⊎ ((t : ℕ) × (x.retry_after ≡ some t) × (t ≤ e.clock n)))
    × (e.locked n x.id ≡ false)

-- The order of the priorities.
pub data Ranked : String → ℕ → Type 0 where
  high : Ranked "HIGH" 1
  medium : Ranked "MEDIUM" 2
  low : Ranked "LOW" 3
  unknown : (p : String) → p ≢ "HIGH" → p ≢ "MEDIUM" → p ≢ "LOW" → Ranked p 4

-- x comes no later than y: it has a higher priority, or the same and is as old.
abbrev pub IsAhead : JobRow → JobRow → Type 0
IsAhead x y =
    (a : ℕ) × (b : ℕ) × Ranked x.priority a
    × Ranked y.priority b
    × ((a < b) ⊎ ((a ≡ b) × (x.created_at ≤ y.created_at)))

-- Two tables whose rows are related, each to the one in its place.
abbrev pub RowByRow : (JobRow → JobRow → Type 0) → List JobRow → List JobRow → Type 0
RowByRow R [] [] = Unit
RowByRow R (x ∷ xs) (y ∷ ys) = R x y × RowByRow R xs ys
RowByRow R _ _ = ⊥

-- A row after the claim of the job with an id: leased to the worker, where it is the job's.
abbrev pub AfterClaim : Env → ℕ → String → ℕ → String → JobRow → JobRow → Type 0
AfterClaim e n worker_id lease_duration job_id x y =
    ((x.id ≡ job_id)
      × (y ≡ record x {
        status = dispatched;
        assigned_worker = some worker_id;
        lease_id = some (e.uuid n);
        lease_expires_at = some (e.clock n + lease_duration / second * second);
        lease_version = x.lease_version + 1;
        dispatched_at = some (e.clock n);
        updated_at = e.clock n;
      }))
    ⊎ ((x.id ≢ job_id) × (y ≡ x))

ranked : (p : String) → Ranked p (priority_rank p)
unfolding priority_rank
ranked p = elim (Bool-cases (str_eq p "HIGH")) [
  | inl h ↦ rw h (subst (λ q. Ranked q 1) (sym ((eq_iff p "HIGH").0 h)) high)
  | inr h ↦ elim (Bool-cases (str_eq p "MEDIUM")) [
    | inl m ↦ rw (h, m) (subst (λ q. Ranked q 2) (sym ((eq_iff p "MEDIUM").0 m)) medium)
    | inr m ↦ elim (Bool-cases (str_eq p "LOW")) [
      | inl l ↦ rw (h, m, l) (subst (λ q. Ranked q 3) (sym ((eq_iff p "LOW").0 l)) low)
      | inr l ↦
          rw (h, m, l)
            (unknown p (λ q. ground (arith, h, (eq_iff p "HIGH").1 q))
              (λ q. ground (arith, m, (eq_iff p "MEDIUM").1 q))
              (λ q. ground (arith, l, (eq_iff p "LOW").1 q)))
    ]
  ]
]

due :
    (now : ℕ) (o : Option ℕ)
    → retry_due now o ≡ true
    → (o ≡ none) ⊎ ((t : ℕ) × (o ≡ some t) × (t ≤ now))
due now none h = inl refl
due now (some t) h = inr (t, refl, ground arith)

not_due :
    (now : ℕ) (o : Option ℕ)
    → retry_due now o ≡ false
    → ¬ ((o ≡ none) ⊎ ((t : ℕ) × (o ≡ some t) × (t ≤ now)))
not_due now none h k = cc
not_due now (some t) h (inl k) = cc
not_due now (some t) h (inr (u, k, le)) = ground arith

eligible-IsWaiting : (e : Env) (n : ℕ) (x : JobRow) → eligible e n x ≡ true → IsWaiting e n x
unfolding eligible
eligible-IsWaiting e n x h =
    (ground arith, due (e.clock n) x.retry_after (ground arith), ground arith)

not_eligible : (e : Env) (n : ℕ) (x : JobRow) → eligible e n x ≡ false → ¬ IsWaiting e n x
unfolding eligible
not_eligible e n x h (waits, past, unlocked) =
    elim (Bool-cases (retry_due (e.clock n) x.retry_after)) [
      | inl t ↦ ground (arith, t)
      | inr f ↦ not_due (e.clock n) x.retry_after f past
    ]

IsWaiting-IsAhead :
    (e : Env) (n : ℕ) (r x : JobRow)
    → (eligible e n x ≡ true → Precedes r x)
    → (¬ IsWaiting e n x) ⊎ IsAhead r x
IsWaiting-IsAhead e n r x h = elim (Bool-cases (eligible e n x)) [
  | inr f ↦ inl (not_eligible e n x f)
  | inl t ↦
      let p = h t in
      inr (
        priority_rank r.priority,
        priority_rank x.priority,
        ranked r.priority,
        ranked x.priority,
        ground (arith, p.ranked, p.older),
      )
]

update-RowByRow :
    (R : JobRow → JobRow → Type 0) (p : JobRow → Bool) (f : JobRow → JobRow)
    → ((x : JobRow) → p x ≡ true → R x (f x))
    → ((x : JobRow) → p x ≡ false → R x x)
    → (xs : List JobRow) → RowByRow R xs (update p f xs)
unfolding update
update-RowByRow R p f hit miss [] = tt
update-RowByRow R p f hit miss (x ∷ xs) =
    (if_elim (R x) (p x) (hit x) (miss x), update-RowByRow R p f hit miss xs)

-- On a server that answers both statements, a claim either finds that no job may be claimed, returns
-- none and changes nothing; or it returns a job that may be claimed and that comes no later, in
-- priority and then in age, than any other that may. Every row with that job's id is DISPATCHED to
-- the worker, under a new lease for the whole seconds of the duration and a version one higher; its
-- other columns stay, and so does every other row.
pub claim_next_job-IsNext :
    (e : Env) (worker_id : String) (lease_duration : ℕ) (s : Session)
    → e.link s.sent ≡ answered
    → e.link (suc s.sent) ≡ answered
    → let (result, t) = claim_next_job e worker_id lease_duration s in
      let now = e.clock s.sent in
      (All (λ x. ¬ IsWaiting e s.sent x) s.db.jobs × (result ≡ ok none) × (t.db ≡ s.db))
      ⊎ ((r : JobRow) × In r s.db.jobs
          × IsWaiting e s.sent r
          × All (λ x. (¬ IsWaiting e s.sent x) ⊎ IsAhead r x) s.db.jobs
          × ((leased_row : JobRow) × AfterClaim e s.sent worker_id lease_duration r.id r leased_row
              × (result ≡ ok (some (scan_job leased_row))))
          × RowByRow (AfterClaim e s.sent worker_id lease_duration r.id) s.db.jobs t.db.jobs)
claim_next_job-IsNext e w l s a b = elim (claim_next_job_updates e w l s a b) [
  | inl (none_waits, result, same) ↦
      inl (All-imp _ (λ x h. not_eligible e s.sent x h) s.db.jobs none_waits, result, same)
  | inr (r, next, result, jobs) ↦ inr (
    r,
    next.stored,
    eligible-IsWaiting e s.sent r next.chosen,
    All-imp _ (λ x h. IsWaiting-IsAhead e s.sent r x h) s.db.jobs next.foremost,
    (leased e w l s r, inl (refl, refl), result),
    subst (RowByRow (AfterClaim e s.sent w l r.id) s.db.jobs) (sym jobs) (
        update-RowByRow (AfterClaim e s.sent w l r.id) (by_id r.id) (leased e w l s)
          (λ x t. inl ((eq_iff x.id r.id).0 t, refl))
          (λ x f. inr (λ q. ground (arith, f, (eq_iff x.id r.id).1 q), refl)) s.db.jobs),
  )
]
