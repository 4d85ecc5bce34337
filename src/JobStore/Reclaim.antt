-- ===== src/JobStore/Reclaim.antt =====
-- ReclaimExpiredJobs of internal/db/jobstore.go, the reconciliation sweep.
use distributed_scheduler.Prelude.{
  suc, ◌≡◌, refl, sym, subst, false, List, [], ◌∷◌, All, arith, update, matching, select,
  update_clears, length-map-select, map,
}
use distributed_scheduler.Models.{pending, running}
use distributed_scheduler.Db.{
  Env, JobRow, Session, ok, answered, ◌>>=◌, ◌>>◌, statement, return, attempt,
}
use distributed_scheduler.JobStore.Queries.{touch, record_transition}
use distributed_scheduler.JobStore.Sweeps.{
  expired, reclaim_row, record_reclaims, reclaim_expired_jobs,
}

record_reclaims_lem :
    (e : Env) (rows : List JobRow) (s : Session)
    → ((record_reclaims e rows s).0 ≡ ok tt) × ((record_reclaims e rows s).1.db.jobs ≡ s.db.jobs)
unfolding record_reclaims record_transition attempt ◌>>=◌ ◌>>◌ statement return
record_reclaims_lem e [] s = (refl, refl)
record_reclaims_lem e (r ∷ rows) s =
    let t = (record_transition e r.id running pending "" "lease expired — reclaimed" s).1 in
    let rest = record_reclaims_lem e rows t in (ground (arith, rest.0), ground (arith, rest.1))

-- Where the sweep's query is answered, the sweep counts the jobs in flight whose lease had run out by
-- the server's clock, makes each of them PENDING with no worker, no lease and no delay, leaves every
-- other job as it was, and leaves none behind that had run out; errors in writing the audit log change
-- none of this.
pub reclaim_expired_jobs_updates :
    (e : Env) (s : Session)
    → e.link s.sent ≡ answered
    → let now = e.clock s.sent in
      let (result, t) = reclaim_expired_jobs e s in
      (result ≡ ok (matching (expired now) s.db.jobs))
      × (t.db.jobs ≡ update (expired now) (λ r. touch now (reclaim_row now r)) s.db.jobs)
      × All (λ r. expired now r ≡ false) t.db.jobs
unfolding reclaim_expired_jobs ◌>>=◌ ◌>>◌ statement return
reclaim_expired_jobs_updates e s l =
    let now = e.clock s.sent in
    let swept = λ (r : JobRow). touch now (reclaim_row now r) in
    let rows = map swept (select (expired now) s.db.jobs) in
    let t : Session = record {
      db = record s.db { jobs = update (expired now) swept s.db.jobs };
      sent = suc s.sent;
    } in
    let rest = record_reclaims_lem e rows t in
    let count = length-map-select (expired now) swept s.db.jobs in
    let jobs : (reclaim_expired_jobs e s).1.db.jobs ≡ t.db.jobs =
      ground (arith, l, rest.0, rest.1) in
    (
      ground (arith, l, rest.0, count),
      jobs,
      subst (All (λ r. expired now r ≡ false)) (sym jobs)
          (update_clears (expired now) swept (λ x h. refl) s.db.jobs),
    )
