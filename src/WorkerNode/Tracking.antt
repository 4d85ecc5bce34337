-- ===== src/WorkerNode/Tracking.antt =====
-- The two maps of worker/worker.go, and its capacity.
use distributed_scheduler.Prelude.{
  ℕ, ◌≤◌, ◌≡◌, refl, String, false, none, List, [], ◌∷◌, map, length, str_eq, select, first, arith,
  inl, inr, not, leb, ◌≢◌, Distinct, Lacks, All-select, if_elim, eq_iff, Option-cases,
}
use distributed_scheduler.WorkerNode.{
  RunningJob, CancelFunc, Node, DispatchResponse, job_key, cancel_key, delete, store, dispatch_job,
  cancel_job, finish_job, Event, dispatches, cancels, finishes, step, run,
}

-- A worker tracks no more jobs than its capacity, each once, and has a cancel function for exactly
-- those jobs.
pub record InStep (w : Node) : Type 0 where
  pub single : Distinct job_key w.active_jobs
  pub bounded : length w.active_jobs ≤ w.max_worker_count
  pub same_keys : map job_key w.active_jobs ≡ map cancel_key w.cancel_funcs

length-delete-le :
    {A : Type 0} (key : A → String) (k : String) (m : List A) → length (delete key k m) ≤ length m
unfolding delete select
length-delete-le key k [] = omega arith
length-delete-le key k (x ∷ m) = ground (arith, length-delete-le key k m)

delete-same_keys :
    (k : String) (js : List RunningJob) (cs : List CancelFunc)
    → map job_key js ≡ map cancel_key cs
    → map job_key (delete job_key k js) ≡ map cancel_key (delete cancel_key k cs)
unfolding delete select
delete-same_keys k [] [] h = refl
delete-same_keys k [] (c ∷ cs) h = cc
delete-same_keys k (j ∷ js) [] h = cc
delete-same_keys k (j ∷ js) (c ∷ cs) h = ground (arith, h, delete-same_keys k js cs)

module _ {A : Type 0} (key : A → String) (k : String) where
  delete-Lacks :
      (other : String) (m : List A) → Lacks key other m → Lacks key other (delete key k m)
  unfolding delete
  delete-Lacks other m h = All-select (λ x. key x ≢ other) (λ x. not (str_eq (key x) k)) m h

  delete-gone : (m : List A) → Lacks key k (delete key k m)
  unfolding delete select
  delete-gone [] = tt
  delete-gone (x ∷ m) =
      if_elim (Lacks key k) (not (str_eq (key x) k))
        (λ t. ((λ e. ground (arith, t, (eq_iff (key x) k).1 e)), delete-gone m))
        (λ f. delete-gone m)

  delete-Distinct : (m : List A) → Distinct key m → Distinct key (delete key k m)
  unfolding delete select
  delete-Distinct [] h = tt
  delete-Distinct (x ∷ m) h =
      if_elim (Distinct key) (not (str_eq (key x) k))
        (λ t. (delete-Lacks (key x) m h.0, delete-Distinct m h.1)) (λ f. delete-Distinct m h.1)

-- An accepted dispatch.
stored-InStep :
    (w : Node) (job_id : String) (v now : ℕ) → InStep w → InStep (dispatch_job job_id v now w).0
unfolding dispatch_job store
stored-InStep w j v now i =
    if_elim (λ (x : Node × DispatchResponse). InStep x.0)
      (leb w.max_worker_count (length w.active_jobs)) (λ _. i)
      λ room. record {
        single =
            (delete-gone job_key j w.active_jobs, delete-Distinct job_key j w.active_jobs i.single);
        bounded = ground (arith, room, length-delete-le job_key j w.active_jobs);
        same_keys = ground (arith, delete-same_keys j w.active_jobs w.cancel_funcs i.same_keys);
      }

forgotten-InStep : (w : Node) (job_id : String) → InStep w → InStep (finish_job job_id w)
unfolding finish_job
forgotten-InStep w j i = record {
  single = delete-Distinct job_key j w.active_jobs i.single;
  bounded = ground (arith, i.bounded, length-delete-le job_key j w.active_jobs);
  same_keys = delete-same_keys j w.active_jobs w.cancel_funcs i.same_keys;
}

cancelled-InStep : (w : Node) (job_id : String) → InStep w → InStep (cancel_job job_id w).0
unfolding cancel_job finish_job
cancelled-InStep w j i = elim (Option-cases (first (λ c. str_eq (cancel_key c) j) w.cancel_funcs)) [
  | inl absent ↦ rw absent i
  | inr (c, found) ↦
      let f = forgotten-InStep w j i in
      rw found (record { single = f.single; bounded = f.bounded; same_keys = f.same_keys })
]

step-InStep : (w : Node) (ev : Event) → InStep w → InStep (step w ev)
unfolding step
step-InStep w (dispatches j v now) i = stored-InStep w j v now i
step-InStep w (cancels j) i = cancelled-InStep w j i
step-InStep w (finishes j) i = forgotten-InStep w j i

-- From a state where this holds, and through any dispatches, cancellations and ends of jobs, a worker
-- tracks no more jobs than its capacity, each of them once, and has a cancel function for exactly the
-- jobs that it tracks. A second run of a job that it is sent twice may go on untracked.
pub run-InStep : (w : Node) (evs : List Event) → InStep w → InStep (run w evs)
unfolding run
run-InStep w [] i = i
run-InStep w (ev ∷ evs) i = run-InStep (step w ev) evs (step-InStep w ev i)

pub first-delete :
    {A : Type 0} (key : A → String) (k : String) (m : List A)
    → first (λ x. str_eq (key x) k) (delete key k m) ≡ none
unfolding delete select first
first-delete key k [] = refl
first-delete key k (x ∷ m) = ground (arith, first-delete key k m)

-- A job that is dispatched again while it runs is lost from sight when its first run ends: whatever
-- the second run does, the worker then answers that it has no such job, and cancels nothing.
pub redispatch_untracked :
    (w : Node) (job_id : String) (v v' now now' : ℕ)
    → let first_run = (dispatch_job job_id v now w).0 in
      let second_run = (dispatch_job job_id v' now' first_run).0 in
      let ended = finish_job job_id second_run in
      ((cancel_job job_id ended).1.success ≡ false) × ((cancel_job job_id ended).0 ≡ ended)
unfolding cancel_job finish_job
redispatch_untracked w j v v' now now' =
    let again = (dispatch_job j v' now' (dispatch_job j v now w).0).0 in
    let gone = first-delete cancel_key j again.cancel_funcs in
    (ground (arith, gone), ground (arith, gone))
