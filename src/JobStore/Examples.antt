-- ===== src/JobStore/Examples.antt =====
-- Runs of internal/db/jobstore.go on a small table, and its theorems at them.
use distributed_scheduler.Prelude.{
  ℕ, ◌+◌, ◌*◌, ◌/◌, ◌≤◌, ◌<◌, ◌≡◌, ◌≢◌, ◌⊎◌, refl, inl, String, true, none, some, List, [], ◌∷◌,
  arith, All, In, first,
}
use distributed_scheduler.Prelude.Int.{pos}
use distributed_scheduler.Models.{Job, pending, succeeded, cancelled, dead_letter, second}
use distributed_scheduler.Db.{
  JobRow, ok, err, query_failed, cannot_be_cancelled, is_err, statement, return, ◌>>=◌, ◌>>◌,
}
use distributed_scheduler.Samples.{server, request, waiting, held, no_job, one_waiting, one_held}
use distributed_scheduler.Retry.{calculate_backoff}
use distributed_scheduler.JobStore.Queries.{record_transition, scan_job}
use distributed_scheduler.JobStore.Submission.{insert_outcome, insert_job, created_job, create_job}
use distributed_scheduler.JobStore.Claiming.{claim_next_job}
use distributed_scheduler.JobStore.Results.{complete_job, fail_job}
use distributed_scheduler.JobStore.Sweeps.{reclaim_expired_jobs, cancel_job}
use distributed_scheduler.JobStore.Renewal.{renew_query}
use distributed_scheduler.JobStore.Machine.{Advances, IsSound, Began, IsOpen}
use distributed_scheduler.JobStore.Evolution.{HasKeys, Evolves}
use distributed_scheduler.JobStore.Calls.{
  Call, claims, reclaims, completes, AskedBy, run, run-Evolves,
}
use distributed_scheduler.JobStore.History.{find_job, run-Advances, run-IsSound}
use distributed_scheduler.JobStore.Lease.{stale_report_refused}
use distributed_scheduler.JobStore.Outcomes.{
  Sweep, complete_job_lem, fail_job_lem, reclaim_expired_jobs_lem, cancel_job_lem,
}
use distributed_scheduler.JobStore.Foremost.{
  IsWaiting, IsAhead, AfterClaim, RowByRow, claim_next_job-IsNext,
}
use distributed_scheduler.JobStore.Idempotence.{create_job_idempotent}
use distributed_scheduler.JobStore.Renewals.{IsIdle, renewal_refused}

keys_waiting : HasKeys one_waiting.db
keys_waiting = record { ids = (tt, tt); request_ids = (tt, tt) }

keys_held : HasKeys one_held.db
keys_held = record { ids = (tt, tt); request_ids = (tt, tt) }

abbrev later : List Call
later = claims "worker-a" (30 * second) ∷ reclaims ∷ completes "job-0" "worker-a" 1 ∷ []

run-Advances_example :
    (y : JobRow) × (find_job "job-0" (run server later one_waiting).db ≡ some y)
    × Advances waiting y
unfolding first
run-Advances_example = run-Advances server later one_waiting "job-0" waiting keys_waiting refl

run-IsSound_example :
    HasKeys (run server later one_held).db × All IsSound (run server later one_held).db.jobs
run-IsSound_example = run-IsSound server later one_held keys_held (ground arith, tt)

stale_report_refused_example :
    let t = run server later one_held in
    let done = complete_job server "job-0" "worker-a" 1 t in
    let lost = fail_job server "job-0" "worker-a" "boom" 1 second (60 * second) t in
    (done.1.db ≡ t.db) × (is_err done.0 ≡ true) × (lost.1.db ≡ t.db) × (is_err lost.0 ≡ true)
unfolding first
stale_report_refused_example =
    stale_report_refused server later one_held "job-0" "worker-a" "boom" 1 second (60 * second) held
      keys_held refl (omega arith)

created : (a : Job) × ((create_job server request no_job).0 ≡ ok a)
unfolding create_job insert_job insert_outcome created_job record_transition statement ◌>>=◌ ◌>>◌
    return first
created =
    (record request { id = "job-0"; created_at = 1000 * second; updated_at = 1000 * second }, refl)

create_job_idempotent_example :
    let t = run server later (create_job server request no_job).1 in
    ((create_job server request t).1.db ≡ t.db)
    × ((b : Job) → (create_job server request t).0 ≡ ok b → b.id ≡ created.0.id)
create_job_idempotent_example =
    create_job_idempotent server later no_job request request created.0
      (record { ids = tt; request_ids = tt }) created.1 refl

renewal_refused_example :
    let t = run server later one_held in
    let renewal = renew_query server "job-0" "worker-b" 2 (30 * second) t in
    All IsIdle t.db.jobs
    × (renewal.1.db ≡ t.db)
    × ((renewal.0 ≡ ok []) ⊎ (renewal.0 ≡ err query_failed))
renewal_refused_example =
    renewal_refused server later one_held "job-0" "worker-b" 2 (30 * second) keys_held (refl, tt)
      (tt, (tt, (tt, tt)))

run-Evolves_example :
    Evolves (AskedBy later) one_held.db.jobs (run server later one_held).db.jobs
    × HasKeys (run server later one_held).db
run-Evolves_example = run-Evolves server later one_held keys_held

claim_next_job-IsNext_example :
    let (result, t) = claim_next_job server "worker-a" (30 * second) one_waiting in
    (All (λ x. ¬ IsWaiting server 1 x) (waiting ∷ [])
      × (result ≡ ok none)
      × (t.db ≡ one_waiting.db))
    ⊎ ((r : JobRow) × In r (waiting ∷ [])
        × IsWaiting server 1 r
        × All (λ x. (¬ IsWaiting server 1 x) ⊎ IsAhead r x) (waiting ∷ [])
        × ((leased_row : JobRow) × AfterClaim server 1 "worker-a" (30 * second) r.id r leased_row
            × (result ≡ ok (some (scan_job leased_row))))
        × RowByRow (AfterClaim server 1 "worker-a" (30 * second) r.id) (waiting ∷ []) t.db.jobs)
claim_next_job-IsNext_example =
    claim_next_job-IsNext server "worker-a" (30 * second) one_waiting refl refl

reclaim_expired_jobs_lem_example :
    let (result, t) = reclaim_expired_jobs server one_held in
    (n : ℕ) × (result ≡ ok n) × Sweep (server.clock 50) n (held ∷ []) t.db.jobs
reclaim_expired_jobs_lem_example = reclaim_expired_jobs_lem server one_held refl

complete_job_lem_example :
    let now = server.clock 50 in
    let (result, t) = complete_job server "job-0" "worker-b" 2 one_held in
    (result ≡ ok tt)
    × ((began : ℕ) × Began now held began
        × (find_job "job-0" t.db
            ≡ some (record held {
              status = succeeded;
              started_at = some began;
              completed_at = some now;
              updated_at = now;
            })))
    × ((other : String) → other ≢ "job-0" → find_job other t.db ≡ find_job other one_held.db)
unfolding first
complete_job_lem_example =
    complete_job_lem server one_held "job-0" "worker-b" 2 held refl (refl, refl, refl) (inl refl)
      refl refl

fail_job_lem_example :
    let now = server.clock 51 in
    let backoff = calculate_backoff (λ n. n) pos (λ b. 0) 0 (2 * second) (60 * second) in
    let (result, t) =
      fail_job server "job-0" "worker-b" "boom" 2 (2 * second) (60 * second) one_held in
    (result ≡ ok tt)
    × (((1 < 2)
          × (find_job "job-0" t.db
              ≡ some (record held {
                status = pending;
                retry_count = 1;
                last_error = some "boom";
                assigned_worker = none;
                lease_id = none;
                lease_expires_at = none;
                retry_after = some (now + backoff / second * second);
                updated_at = now;
              })))
        ⊎ ((2 ≤ 1)
            × (find_job "job-0" t.db
                ≡ some (record held {
                  status = dead_letter;
                  retry_count = 1;
                  last_error = some "boom";
                  assigned_worker = none;
                  lease_id = none;
                  lease_expires_at = none;
                  retry_after = none;
                  updated_at = now;
                }))))
    × ((other : String) → other ≢ "job-0" → find_job other t.db ≡ find_job other one_held.db)
unfolding first
fail_job_lem_example =
    fail_job_lem server one_held "job-0" "worker-b" 2 held refl (refl, refl, refl) (inl refl) "boom"
      (2 * second) (60 * second) refl refl refl

cancel_job_lem_example :
    let (result, t) = cancel_job server "job-0" "acme" one_held in
    ((held.tenant_id ≡ "acme")
      × IsOpen held
      × (result ≡ ok tt)
      × (find_job "job-0" t.db
          ≡ some (record held { status = cancelled; updated_at = server.clock 50 }))
      × ((other : String) → other ≢ "job-0" → find_job other t.db ≡ find_job other one_held.db))
    ⊎ (((held.tenant_id ≢ "acme") ⊎ ¬ IsOpen held)
        × (result ≡ err cannot_be_cancelled)
        × (t.db ≡ one_held.db))
unfolding first
cancel_job_lem_example = cancel_job_lem server "job-0" "acme" one_held held keys_held refl refl refl
