-- ===== src/Lib.antt =====
-- A model of distributed-scheduler: a scheduler that hands jobs to workers by leases, with its
-- state in PostgreSQL.
--
-- The parts. Clients submit jobs to the scheduler by RPC; each is a row of the table `jobs`
-- (internal/db/jobstore.go). The dispatcher of scheduler/scheduler.go claims a waiting job for the
-- least loaded worker, which gives the worker a lease with a version, and sends it to the worker
-- (worker/worker.go). The worker sends heartbeats and reports the result under its lease version.
-- The reaper marks workers dead whose heartbeats stay out, and the reconciler puts jobs back whose
-- lease has run out. The cron evaluator (scheduler/cron.go) submits the jobs of recurring schedules
-- (internal/db/schedulestore.go). Interceptors check a token and a rate before a handler runs
-- (scheduler/auth.go, scheduler/ratelimit.go). Of several schedulers a leader runs the loops
-- (scheduler/leader.go). The worker runs the payload of a job (worker/executor.go), and of a job
-- that is given up the scheduler keeps a report (internal/autopsy).
--
-- The files.
-- - Prelude: tables as lists of rows, with the meaning of WHERE, UPDATE and ORDER BY; lemmas on
--   them; integers; Boolean tests.
-- - Models: internal/models/models.go. Config: config/config.go.
-- - Db: the tables of internal/db/schema.sql, and a session: a series of statements, each of which
--   is answered, or lost before the server acts, or lost after it. `Env` holds what each statement
--   meets: the link, the server's clock, the UUID it draws, the rows that others hold locked, and
--   the draw of math/rand and the conversions between int64 and float64 before it. Db/Rules has the
--   proof rules for a chain of statements.
-- - Retry: CalculateBackoff of internal/retry/backoff.go; Retry/Bounds on its bounds.
-- - JobStore: JobStore of internal/db/jobstore.go and the query of RenewLease. Queries has the
--   reads and the audit log (GetJobByID, GetJobByRequestID, recordTransition, scanJob), Submission
--   has CreateJob, Claiming ClaimNextJob, Results MarkJobRunning, CompleteJob and FailJob, Sweeps
--   ReclaimExpiredJobs, CancelJob and ListJobs, Renewal the query of RenewLease. The abstract
--   specification of a job is Machine, the steps of a row as a data type, written out column by
--   column and without the queries; Evolution lifts it to the table, Guards has the conditions and
--   the assignments of the queries as its steps, and Refinement shows it of each query. Calls is a
--   series of calls by whoever it may be. The results on them stand in History, Lease, Choice,
--   Claim, Foremost, Idempotence, Reclaim, Reports, Tenants, Outcomes and Renewals.
-- - WorkerStore: WorkerStore of internal/db/workerstore.go; Registry and Selection on it.
-- - Server: scheduler/scheduler.go. WorkerRpcs has RegisterWorker, Heartbeat, ReportResult and
--   RenewLease, JobRpcs has SubmitJob, GetJob, CancelJob and ListJobs, ScheduleRpcs has
--   CreateSchedule, ListSchedules, ToggleSchedule and DeleteSchedule, AutopsyRpcs has
--   generateAutopsy, GetAutopsy and ListAutopsies, Metrics updateGaugeMetrics, Dispatch has
--   reapDeadWorkers, the reconciler and dispatchPendingJobs.
-- - System: the requests and the ticks of scheduler/scheduler.go together, in any order. Serving,
--   Loops and Asides show of each handler and loop that it moves the jobs along Machine, and Sound
--   puts them together.
-- - WorkerNode: the jobs that a Worker of worker/worker.go tracks, and its register, sendHeartbeat
--   and drain; Tracking and Draining on them.
-- - Texts: what the program uses of Go's strings and unicode, on lists of code points, with
--   Substrings and Words on what it means. Executor: worker/executor.go, each function with the
--   list of its effects on the outside. Commands has validateCommand, with Checks and Allowed on
--   it; Dial the dialer of ssrfSafeClient, with Ranges; Redirects, Effects and Reports are on
--   executePayload as a whole.
-- - Delivery: the meeting of the two programs: dispatchToWorker of scheduler/scheduler.go, and
--   executeJob, renewLease, reportResult and reportRunning of worker/worker.go, which call the
--   handlers of Server. Settled and Delivered follow a job from its claim to its end.
-- - Autopsy: internal/autopsy/report.go and scrubber.go, with Causes on classifyCause and Secrets
--   on what a report tells. AutopsyStore: internal/db/autopsystore.go and StoreAutopsy.
-- - Client: client/main.go, from the arguments to the request; Flags and Complete on it. Startup:
--   the settings and the answers on health of the two main functions, and the wait of a worker that
--   stops.
-- - Leader: LeaderElector of scheduler/leader.go; Leader/Loops has onPromote and onDemote of
--   scheduler/scheduler.go, Leader/Cluster several electors with the advisory lock of their
--   database, Standing, Exclusion and Stuck are on them. RateLimit: tokenBucket and rateLimiter of
--   scheduler/ratelimit.go. Auth: the interceptors. ScheduleStore: ScheduleStore of
--   internal/db/schedulestore.go. Cron: cronEvaluator of scheduler/cron.go.
-- - Samples and the modules named Examples: small inputs, and the theorems at them.
--
-- Numbers, bounds and fuel. Counters, and times and durations in nanoseconds, are unbounded; the
-- int64 arithmetic of the backoff is written out. The tokens of the rate limiter are exact, in
-- billionths, where the source has float64; a quotient in an ORDER BY is compared as a fraction.
-- The loop of the dispatcher runs on fuel, one for each turn, and more than the number of waiting
-- jobs is enough; the catch-up of a schedule has ten runs for its fuel, as the source has;
-- client.Do is given six requests, and CheckRedirect stops it at five. Every other loop is
-- structural.
--
-- Parameters. PostgreSQL is met only through its statements, which mean what their SQL says; a
-- call's statements follow one another, and those of other sessions come between calls. Where a
-- call relies on what it read, as the quotas of SubmitJob and CreateSchedule do, what other
-- sessions do between the read and the write is an argument, `meanwhile`. The parser of cron
-- expressions is a parameter of Cron and ScheduleRpcs, and the answers to the polls of the elector
-- are arguments, which Leader/Cluster works out from who holds the lock: a lock of a session, held
-- until the session unlocks it or ends. It counts such a lock once, where PostgreSQL counts how
-- often a session took it. The executor takes the JSON decoder, the process runner, the URL parser,
-- the resolver, the HTTP client and the case table of Unicode as the record `World`; the reports
-- take the regular expressions and the printing of times and JSON as the record `Library`. A Go
-- panic is a result.
--
-- Not modelled: what the client prints and its demo, logging, the metrics but the gauges of
-- updateGaugeMetrics, tickers, TLS, sockets and signals, and the generated code of the protocol.
pub mod Prelude
pub mod Models
pub mod Db
pub mod Retry
pub mod JobStore
pub mod WorkerStore
pub mod Config
pub mod Server
pub mod WorkerNode
pub mod Leader
pub mod RateLimit
pub mod Auth
pub mod ScheduleStore
pub mod Cron
pub mod Samples
pub mod Texts
pub mod Executor
pub mod Delivery
pub mod Client
pub mod Startup
pub mod System
pub mod Autopsy
pub mod AutopsyStore
