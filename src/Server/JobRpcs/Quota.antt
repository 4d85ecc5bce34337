-- ===== src/Server/JobRpcs/Quota.antt =====
-- The quota of SubmitJob in scheduler/scheduler.go.
use Prim.Native.String.{len}
use distributed_scheduler.Prelude.{
  ℕ, suc, ◌+◌, ◌-◌, List, ◌≤◌, ◌<◌, ◌≡◌, ◌⊎◌, inl, inr, refl, sym, subst, ◌∙◌, String, false,
  Option, none, some, arith, matching, matching-append, leb, ltb, eq_iff, str_eq, Bool-cases,
}
use distributed_scheduler.Models.{Job}
use distributed_scheduler.Config.{Config}
use distributed_scheduler.Db.{
  Db, Env, JobRow, Link, answered, Session, Result, ok, err, return, attempt, continue, ◌>>=◌,
  statement, deliver,
}
use distributed_scheduler.Db.Rules.{
  IsPreorder, Respects, return-Respects, then-Respects, statement-Respects,
}
use distributed_scheduler.JobStore.Queries.{record_transition, get_job_by_request_id}
use distributed_scheduler.JobStore.Submission.{
  new_row, insert_outcome, insert_job, created_job, create_job,
}
use distributed_scheduler.JobStore.Calls.{Call, run}
use distributed_scheduler.Server.Rpc.{status, invalid_argument, resource_exhausted}
use distributed_scheduler.Server.JobRpcs.{
  SubmitJobRequest, counts_for, get_tenant_job_count, submitted, create_within_quota, created_reply,
  handle_submit,
}

-- How many unfinished jobs a tenant has.
abbrev pub unfinished : String → Db → ℕ
unfinished tenant_id d = matching (counts_for tenant_id) d.jobs

abbrev AddsFor : String → Db → Db → Type 0
AddsFor tenant_id d d' =
    (unfinished tenant_id d' ≤ suc (unfinished tenant_id d))
    × ((other : String) → str_eq tenant_id other ≡ false → unfinished other d' ≡ unfinished other d)

AddsFor-refl : (tenant_id : String) (d : Db) → AddsFor tenant_id d d
AddsFor-refl tenant_id d = (omega arith, λ other ne. refl)

abbrev SameJobs : Db → Db → Type 0
SameJobs d d' = d'.jobs ≡ d.jobs

same_jobs : IsPreorder SameJobs
same_jobs = record { refl_at = λ d. refl; trans_at = λ d e f h k. k ∙ h }

module _ (e : Env) (job : Job) where
  created_job-SameJobs : (r : Option JobRow) → Respects SameJobs (created_job e job r)
  unfolding created_job record_transition get_job_by_request_id
  created_job-SameJobs none = statement-Respects same_jobs e _ (λ n d. refl)
  created_job-SameJobs (some r) =
      then-Respects same_jobs _ _ (statement-Respects same_jobs e _ (λ n d. ground arith))
        (return-Respects same_jobs _)

  -- An insert adds at most one row, and that to the tenant of the job.
  insert_outcome-AddsFor : (n : ℕ) (d : Db) → AddsFor job.tenant_id d (insert_outcome e job n d).1
  unfolding insert_outcome
  insert_outcome-AddsFor n d =
      let added = matching-append (counts_for job.tenant_id) d.jobs (new_row e n job) in
      (
        ground (arith, added.0),
        λ other ne.
            let spared = matching-append (counts_for other) d.jobs (new_row e n job) in
            ground (arith, spared.1, ne),
      )

  insert_job-AddsFor :
      (s : Session) (l : Link)
      → AddsFor job.tenant_id s.db (deliver l (insert_outcome e job s.sent s.db) s).1.db
  unfolding deliver
  insert_job-AddsFor s Link.answered = insert_outcome-AddsFor s.sent s.db
  insert_job-AddsFor s Link.request_lost = AddsFor-refl job.tenant_id s.db
  insert_job-AddsFor s Link.reply_lost = insert_outcome-AddsFor s.sent s.db

  after_insert :
      (s : Session) (r : Result (Option JobRow)) (t : Session)
      → AddsFor job.tenant_id s.db t.db
      → AddsFor job.tenant_id s.db (continue r (created_job e job) t).1.db
  unfolding continue
  after_insert s (ok r) t h =
      subst (λ jobs. AddsFor job.tenant_id s.db (record t.db { jobs = jobs }))
        (sym (created_job-SameJobs r t)) h
  after_insert s (err x) t h = h

  create_job-AddsFor : (s : Session) → AddsFor job.tenant_id s.db (create_job e job s).1.db
  unfolding create_job insert_job statement ◌>>=◌
  create_job-AddsFor s =
      after_insert s (insert_job e job s).0 (insert_job e job s).1
        (insert_job-AddsFor s (e.link s.sent))

module _ (e : Env) (cfg : Config) (meanwhile : List Call) (req : SubmitJobRequest)
    (s : Session) where
  -- The session after the count, and after what the others do then.
  abbrev pub counted : Session
  counted = record s { sent = suc s.sent }

  abbrev pub resumed : Session
  resumed = run e meanwhile counted

  -- No more above the quota than what the others have added since the count.
  abbrev WithinQuota : Db → Type 0
  WithinQuota d =
      (tenant_id : String)
      → unfinished tenant_id s.db ≤ cfg.default_tenant_quota
      → unfinished tenant_id d
        ≤ cfg.default_tenant_quota + (unfinished tenant_id resumed.db - unfinished tenant_id s.db)

  created-WithinQuota :
      unfinished req.tenant_id s.db < cfg.default_tenant_quota
      → WithinQuota (create_job e (submitted req) resumed).1.db
  created-WithinQuota room tenant_id within =
      let added = create_job-AddsFor e (submitted req) resumed in
      elim (Bool-cases (str_eq req.tenant_id tenant_id)) [
        | inl same ↦
            subst
              (λ t.
                unfinished t (create_job e (submitted req) resumed).1.db
                ≤ cfg.default_tenant_quota + (unfinished t resumed.db - unfinished t s.db))
              ((eq_iff req.tenant_id tenant_id).0 same) (omega (arith, added.0, room))
        | inr apart ↦ omega (arith, added.1 tenant_id apart, within)
      ]

  submit_counted :
      (l : Link) → e.link s.sent ≡ l → WithinQuota (handle_submit e cfg meanwhile req s).1.db
  unfolding handle_submit get_tenant_job_count create_within_quota statement attempt continue return
      ◌>>=◌
  submit_counted Link.request_lost l tenant_id within = ground (arith, l, within)
  submit_counted Link.reply_lost l tenant_id within = ground (arith, l, within)
  submit_counted Link.answered l tenant_id within =
      elim (Bool-cases (leb cfg.default_tenant_quota (unfinished req.tenant_id s.db))) [
        | inl full ↦ ground (arith, l, full, within)
        | inr room ↦
            let bound = created-WithinQuota (ground arith) tenant_id within in
            ground (arith, l, room, within, bound)
      ]

  -- SubmitJob, whatever becomes of its statements and whichever tenant the request is for, and
  -- whatever calls other sessions make between its count and its insert: a tenant within the default
  -- quota at the count is above it afterwards by at most the jobs that the others have added since
  -- the count. So it is within the quota where they add none, and not where they do: the count and
  -- the insert are not one transaction.
  pub handle_submit-quota :
      (tenant_id : String)
      → unfinished tenant_id s.db ≤ cfg.default_tenant_quota
      → unfinished tenant_id (handle_submit e cfg meanwhile req s).1.db
        ≤ cfg.default_tenant_quota + (unfinished tenant_id resumed.db - unfinished tenant_id s.db)
  handle_submit-quota = submit_counted _ refl

  -- SubmitJob, its count answered, refuses a payload that is too long before it asks the database;
  -- it refuses a tenant that had its quota at the count, and changes nothing itself; and below the
  -- quota it does what CreateJob does then, and replies with the id of the job, or with Internal.
  pub handle_submit_lem :
      e.link s.sent ≡ answered
      → let (result, t) = handle_submit e cfg meanwhile req s in
        let count = unfinished req.tenant_id s.db in
        let (created, u) = create_job e (submitted req) resumed in
        (cfg.max_payload_bytes < len req.payload
          × (result ≡ ok (status invalid_argument))
          × (t ≡ s))
        ⊎ (len req.payload ≤ cfg.max_payload_bytes
            × cfg.default_tenant_quota ≤ count
            × (result ≡ ok (status resource_exhausted))
            × (t ≡ resumed))
        ⊎ (len req.payload ≤ cfg.max_payload_bytes
            × count < cfg.default_tenant_quota
            × (result ≡ ok (created_reply created))
            × (t ≡ u))
  unfolding handle_submit get_tenant_job_count create_within_quota statement attempt continue return
      ◌>>=◌
  handle_submit_lem l =
      let count = unfinished req.tenant_id s.db in
      elim (Bool-cases (ltb cfg.max_payload_bytes (len req.payload))) [
        | inl long ↦ inl (ground arith, ground (arith, long), ground (arith, long))
        | inr short ↦ elim (Bool-cases (leb cfg.default_tenant_quota count)) [
          | inl full ↦ inr (
              inl (
                ground arith,
                ground arith,
                ground (arith, l, short, full),
                ground (arith, l, short, full),
              ))
          | inr room ↦ inr (
              inr (
                ground arith,
                ground arith,
                ground (arith, l, short, room),
                ground (arith, l, short, room),
              ))
        ]
      ]
