-- ===== src/JobStore/Claim.antt =====
-- ClaimNextJob of internal/db/jobstore.go on a server that answers.
use distributed_scheduler.Prelude.{
  ℕ, suc, ◌≡◌, ◌⊎◌, inl, inr, String, false, none, some, Option-cases, eq_refl, arith, All, update,
  In-first, first-update,
}
use distributed_scheduler.Db.{Env, JobRow, Session, ok, answered, ◌>>=◌, ◌>>◌, statement, return}
use distributed_scheduler.JobStore.Queries.{by_id, touch, scan_job, record_transition}
use distributed_scheduler.JobStore.Claiming.{
  claim_row, next_job, eligible, claim_chosen, claim_statement, claimed_job, claim_next_job,
}
use distributed_scheduler.JobStore.Choice.{IsNext, next_job-IsNext, next_job-none}

module _ (e : Env) (worker_id : String) (lease_duration : ℕ) (s : Session) where
  abbrev pub leased : JobRow → JobRow
  leased r = touch (e.clock s.sent) (claim_row e s.sent worker_id lease_duration r)

  claim_next_job_chosen :
      (r : JobRow)
      → e.link s.sent ≡ answered
      → e.link (suc s.sent) ≡ answered
      → next_job e s.sent s.db ≡ some r
      → ((claim_next_job e worker_id lease_duration s).0 ≡ ok (some (scan_job (leased r))))
        × ((claim_next_job e worker_id lease_duration s).1.db.jobs
            ≡ update (by_id r.id) leased s.db.jobs)
  unfolding claim_next_job claim_statement claim_chosen claimed_job ◌>>=◌ ◌>>◌ statement return
      record_transition
  claim_next_job_chosen r l l' h =
      let next = next_job-IsNext e s.sent s.db r h in
      let (x, found) = In-first (by_id r.id) r s.db.jobs next.stored (eq_refl r.id) in
      ground (arith, h, l, l', first-update (by_id r.id) leased x s.db.jobs (λ y t. t) found)

  claim_next_job_idle :
      e.link s.sent ≡ answered
      → next_job e s.sent s.db ≡ none
      → ((claim_next_job e worker_id lease_duration s).0 ≡ ok none)
        × ((claim_next_job e worker_id lease_duration s).1.db ≡ s.db)
  unfolding claim_next_job claim_statement claim_chosen claimed_job ◌>>=◌ ◌>>◌ statement return
  claim_next_job_idle l h = ground (arith, h, l)

  -- On a server that answers both statements, a claim either finds no eligible job, returns none and
  -- changes nothing; or it returns an eligible job that no eligible job precedes in priority and then
  -- in age, DISPATCHED under a lease version one higher, and every row with its id is so updated, and
  -- no other.
  pub claim_next_job_updates :
      e.link s.sent ≡ answered
      → e.link (suc s.sent) ≡ answered
      → (All (λ x. eligible e s.sent x ≡ false) s.db.jobs
          × ((claim_next_job e worker_id lease_duration s).0 ≡ ok none)
          × ((claim_next_job e worker_id lease_duration s).1.db ≡ s.db))
        ⊎ ((r : JobRow) × IsNext e s.sent s.db.jobs r
            × ((claim_next_job e worker_id lease_duration s).0 ≡ ok (some (scan_job (leased r))))
            × ((claim_next_job e worker_id lease_duration s).1.db.jobs
                ≡ update (by_id r.id) leased s.db.jobs))
  claim_next_job_updates l l' = elim (Option-cases (next_job e s.sent s.db)) [
    | inl h ↦
        let (result, same) = claim_next_job_idle l h in
        inl (next_job-none e s.sent s.db h, result, same)
    | inr (r, h) ↦
        let (result, jobs) = claim_next_job_chosen r l l' h in
        inr (r, next_job-IsNext e s.sent s.db r h, result, jobs)
  ]
