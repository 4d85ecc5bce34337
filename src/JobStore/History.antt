-- ===== src/JobStore/History.antt =====
-- What holds of a job through any history of calls on internal/db/jobstore.go.
use distributed_scheduler.Prelude.{
  ◌≡◌, inl, inr, String, Option, some, List, [], ◌∷◌, first, All, str_eq, subst, Bool-cases, arith,
}
use distributed_scheduler.Db.{Db, Env, JobRow, Session}
use distributed_scheduler.JobStore.Queries.{by_id}
use distributed_scheduler.JobStore.Machine.{
  AnyKind, Reach, Advances, Reach-Advances, IsSound, IsFresh-IsSound, Reach-IsSound,
}
use distributed_scheduler.JobStore.Evolution.{Evolves, HasKeys}
use distributed_scheduler.JobStore.Calls.{Call, run, run_any-Refines}

-- The row of a job.
abbrev pub find_job : String → Db → Option JobRow
find_job job_id d = first (by_id job_id) d.jobs

Evolves-first :
    (job_id : String) (x : JobRow) (xs ys : List JobRow)
    → Evolves AnyKind xs ys
    → first (by_id job_id) xs ≡ some x
    → (y : JobRow) × (first (by_id job_id) ys ≡ some y) × Reach AnyKind x y
unfolding first
Evolves-first j x [] ys h e = cc
Evolves-first j x (x' ∷ xs) [] h e = absurd h
Evolves-first j x (x' ∷ xs) (y ∷ ys) h e =
    let same : y.id ≡ x'.id = (Reach-Advances h.0).same_id in
    elim (Bool-cases (str_eq x'.id j)) [
      | inl t ↦ (y, ground arith, subst (λ z. Reach AnyKind z y) (ground arith) h.0)
      | inr f ↦
          let (z, found, r) = Evolves-first j x xs ys h.1 (ground arith) in (z, ground arith, r)
    ]

-- Where ids and request ids are distinct, a job that is stored stays stored through any calls,
-- whatever becomes of their statements: with the same id, request, tenant, payload and limit on
-- retries, a lease version and a retry count that never fall, and, once it is SUCCEEDED, CANCELLED
-- or DEAD_LETTER, in that status for good. While it is in flight under one lease version it has one
-- worker, and a change of worker takes a new version.
pub run-Advances :
    (e : Env) (cs : List Call) (s : Session) (job_id : String) (x : JobRow)
    → HasKeys s.db
    → find_job job_id s.db ≡ some x
    → (y : JobRow) × (find_job job_id (run e cs s).db ≡ some y) × Advances x y
run-Advances e cs s j x keys h =
    let (y, found, r) =
      Evolves-first j x s.db.jobs (run e cs s).db.jobs (run_any-Refines e cs s keys).0 h in
    (y, found, Reach-Advances r)

pub Evolves-IsSound :
    (xs ys : List JobRow) → Evolves AnyKind xs ys → All IsSound xs → All IsSound ys
Evolves-IsSound [] [] h s = tt
Evolves-IsSound [] (y ∷ ys) ((x, f, r), h) s =
    (Reach-IsSound r (IsFresh-IsSound x f), Evolves-IsSound [] ys h tt)
Evolves-IsSound (x ∷ xs) [] h s = absurd h
Evolves-IsSound (x ∷ xs) (y ∷ ys) h s = (Reach-IsSound h.0 s.0, Evolves-IsSound xs ys h.1 s.1)

-- Any calls, whatever becomes of their statements, keep the ids and the request ids of the jobs
-- distinct, and every job sound: in flight it has a worker, a lease, an expiry and a version above 0;
-- PENDING it has no worker; PENDING or in flight it has not failed yet or has a try left; DEAD_LETTER
-- it has none; and it never has more failures than leases.
pub run-IsSound :
    (e : Env) (cs : List Call) (s : Session)
    → HasKeys s.db
    → All IsSound s.db.jobs
    → HasKeys (run e cs s).db × All IsSound (run e cs s).db.jobs
run-IsSound e cs s keys sound =
    let (evolves, keys') = run_any-Refines e cs s keys in
    (keys', Evolves-IsSound s.db.jobs (run e cs s).db.jobs evolves sound)
