-- ===== src/Autopsy.antt =====
-- internal/autopsy/report.go and scrubber.go: the report on a job that is dead-lettered.
-- The regular expressions, the printing of times, durations and JSON and the case table of Unicode
-- are parameters. A text of the database is read as its code points.
pub mod Causes
pub mod Secrets
mod Examples
use distributed_scheduler.Prelude.{
  ℕ, suc, ◌-◌, String, Bool, true, false, not, ◌&&◌, ◌||◌, Option, none, some, List, [], ◌∷◌, ◌++◌,
  map, take, if◌then◌else◌, str_eq, ltb, select, first, order_by,
}
use distributed_scheduler.Models.{JobTransition}
use distributed_scheduler.Db.{Db, JobRow, Env, Result, ok, M, return, ◌>>=◌, statement, scan_row}
use distributed_scheduler.JobStore.Queries.{by_id}
use distributed_scheduler.Texts.{Text, codes, text_eq, contains, to_lower}

pub record TransitionRow : Type 0 where
  pub from_state : Text
  pub to_state : Text
  pub worker_id : Text
  pub reason : Text
  pub created_at : ℕ

pub record TimelineEvent : Type 0 where
  pub timestamp : Text
  pub event : Text
  pub worker_id : Text

pub record AttemptDetail : Type 0 where
  pub attempt : ℕ
  pub worker_id : Text
  pub error : Text
  pub failed_at : Text

pub record AutopsyReport : Type 0 where
  pub job_id : String
  pub tenant_id : String
  pub payload : Text
  pub priority : Text
  pub total_attempts : ℕ
  pub total_elapsed : Text
  pub attempts : List AttemptDetail
  pub timeline : List TimelineEvent
  pub probable_cause : Text
  pub recommendations : List Text
  pub generated_at : ℕ

-- `patterns` has ReplaceAllStringFunc of each of the secretPatterns, and `key_end` is the end of what
-- the pattern of keys finds in a match. `jsonb` is the text of a JSON value that has been stored.
pub record Library : Type 0 where
  pub patterns : List ((Text → Text) → Text → Text)
  pub key_end : Text → Option ℕ
  pub case_table : ℕ → ℕ
  pub format_time : ℕ → Text
  pub duration_text : ℕ → Text
  pub marshal : AutopsyReport → Result String
  pub jsonb : String → String

redact_after : Text → Option ℕ → Text
redact_after m none = codes "[REDACTED]"
redact_after m (some end) = take end m ++ codes "[REDACTED]"

scrub_by : (Text → Text) → List ((Text → Text) → Text → Text) → Text → Text
scrub_by redact [] result = result
scrub_by redact (replace ∷ patterns) result = scrub_by redact patterns (replace redact result)

-- ScrubSecrets
unfoldable pub scrub_secrets : Library → Text → Text
unfolding scrub_by redact_after
scrub_secrets l input = scrub_by (λ m. redact_after m (l.key_end m)) l.patterns input

-- The columns of a transition, as they are scanned.
unfoldable pub scan_transition : JobTransition → TransitionRow
scan_transition t = record {
  from_state = codes t.from_state;
  to_state = codes t.to_state;
  worker_id = codes t.worker_id;
  reason = codes t.reason;
  created_at = t.created_at;
}

timeline_text : Library → TransitionRow → Text
timeline_text l t =
    (t.from_state ++ (codes " → " ++ t.to_state))
    ++ (if text_eq t.reason [] then [] else codes ": " ++ scrub_secrets l t.reason)

unfoldable pub timeline_event : Library → TransitionRow → TimelineEvent
unfolding timeline_text
timeline_event l t = record {
  timestamp = l.format_time t.created_at;
  event = timeline_text l t;
  worker_id = t.worker_id;
}

-- t.ToState == "PENDING" && t.FromState != "" || t.ToState == "DEAD_LETTER"
unfoldable pub is_failure : TransitionRow → Bool
is_failure t =
    (text_eq t.to_state (codes "PENDING") && not (text_eq t.from_state []))
    || text_eq t.to_state (codes "DEAD_LETTER")

-- The loop over the transitions, with the number of the attempts so far.
unfoldable pub attempts_from : Library → ℕ → List TransitionRow → List AttemptDetail
attempts_from l n [] = []
attempts_from l n (t ∷ ts) =
    let rest = attempts_from l (if is_failure t then suc n else n) ts in
    if is_failure t
    then record {
      attempt = suc n;
      worker_id = t.worker_id;
      error = scrub_secrets l t.reason;
      failed_at = l.format_time t.created_at;
    }
      ∷ rest
    else rest

last_time : ℕ → List TransitionRow → ℕ
last_time t [] = t
last_time t (x ∷ xs) = last_time x.created_at xs

-- The time from the first transition to the last, where there are two.
unfoldable pub elapsed_text : Library → List TransitionRow → Text
unfolding last_time
elapsed_text l [] = []
elapsed_text l (t ∷ []) = []
elapsed_text l (t ∷ u ∷ ts) = l.duration_text (last_time u.created_at ts - t.created_at)

-- The returns of classifyCause.
pub data Cause : Type 0 where
  no_attempts consistent_timeout unavailable rejected : Cause
  same_error : Text → Cause
  same_worker : Text → Cause
  intermittent : Cause

unfoldable pub mentions : Library → List Text → Text → Bool
mentions l [] error = false
mentions l (mark ∷ marks) error =
    contains (to_lower l.case_table error) mark || mentions l marks error

abbrev pub timeout_marks : List Text
timeout_marks = codes "timeout" ∷ codes "timed out" ∷ codes "deadline exceeded" ∷ []

abbrev pub connection_marks : List Text
connection_marks = codes "connection refused" ∷ codes "connection reset" ∷ codes "no such host" ∷ []

abbrev pub rejection_marks : List Text
rejection_marks = codes "command rejected" ∷ codes "not in the allowlist" ∷ []

-- A loop that breaks at the first error that has none of the marks.
unfoldable pub all_mention : Library → List Text → List AttemptDetail → Bool
all_mention l marks [] = true
all_mention l marks (a ∷ attempts) = mentions l marks a.error && all_mention l marks attempts

unfoldable pub all_same_error : Text → List AttemptDetail → Bool
all_same_error e [] = true
all_same_error e (a ∷ attempts) = text_eq a.error e && all_same_error e attempts

unfoldable pub all_same_worker : Text → List AttemptDetail → Bool
all_same_worker w [] = true
all_same_worker w (a ∷ attempts) = text_eq a.worker_id w && all_same_worker w attempts

unfoldable pub cause_of : Library → List AttemptDetail → Cause
cause_of l [] = no_attempts
cause_of l (a ∷ attempts) =
    if all_mention l timeout_marks (a ∷ attempts)
    then consistent_timeout
    else if all_mention l connection_marks (a ∷ attempts)
    then unavailable
    else if all_mention l rejection_marks (a ∷ attempts)
    then rejected
    else if all_same_error a.error attempts
    then same_error a.error
    else if all_same_worker a.worker_id attempts && not (text_eq a.worker_id [])
    then same_worker a.worker_id
    else intermittent

unfoldable pub cause_text : Cause → Text
cause_text no_attempts = codes "unknown — no failure data available"
cause_text consistent_timeout = codes "job consistently exceeds run timeout"
cause_text unavailable =
    codes "target service unavailable — all attempts failed with connection errors"
cause_text rejected =
    codes "payload validation failure — job will never succeed with current payload"
cause_text (same_error e) = codes "persistent failure — same error on every attempt: " ++ e
cause_text (same_worker w) = codes "worker-specific issue — all attempts ran on worker " ++ w
cause_text intermittent =
    codes "intermittent failure — errors vary across attempts (possibly flaky)"

unfoldable pub advice : Cause → List Text
advice no_attempts = []
advice consistent_timeout =
    codes "Increase run_timeout_ms"
    ∷ codes "Optimize the job payload"
    ∷ codes "Check target service responsiveness"
    ∷ []
advice unavailable =
    codes "Verify the target URL/host is reachable"
    ∷ codes "Check network configuration"
    ∷ codes "Ensure the target service is running"
    ∷ []
advice rejected =
    codes "Check that the command is in the allowlist"
    ∷ codes "Verify the payload format is correct"
    ∷ []
advice (same_error e) =
    codes "Fix the underlying cause before retrying"
    ∷ codes "Check job payload for correctness"
    ∷ []
advice (same_worker w) =
    codes "Check worker health and resources"
    ∷ codes "Try resubmitting to allow different worker assignment"
    ∷ []
advice intermittent =
    codes "Review error messages for patterns"
    ∷ codes "Check for resource contention"
    ∷ codes "Consider increasing max_retries"
    ∷ []

-- classifyCause
unfoldable pub classify_cause : Library → List AttemptDetail → Text × List Text
unfolding cause_text advice
classify_cause l attempts = (cause_text (cause_of l attempts), advice (cause_of l attempts))

-- The report, from the rows read.
unfoldable pub build_report : Library → ℕ → String → JobRow → List TransitionRow → AutopsyReport
build_report l now job_id job ts = record {
  job_id = job_id;
  tenant_id = job.tenant_id;
  payload = scrub_secrets l (codes job.payload);
  priority = codes job.priority;
  total_attempts = job.retry_count;
  total_elapsed = elapsed_text l ts;
  attempts = attempts_from l 0 ts;
  timeline = map (timeline_event l) ts;
  probable_cause = (classify_cause l (attempts_from l 0 ts)).0;
  recommendations = (classify_cause l (attempts_from l 0 ts)).1;
  generated_at = now;
}

unfoldable pub read_job : Env → String → M JobRow
read_job e job_id = statement e λ n d. (scan_row (first (by_id job_id) d.jobs), d)

abbrev pub transitions_of : String → Db → List JobTransition
transitions_of job_id d = take 100 (
    order_by (λ y x. ltb y.created_at x.created_at)
      (select (λ t. str_eq t.job_id job_id) d.transitions))

unfoldable pub read_transitions : Env → String → M (List TransitionRow)
read_transitions e job_id =
    statement e λ n d. (ok (map scan_transition (transitions_of job_id d)), d)

-- GenerateAutopsy; `now` is the clock of the process when it makes the report.
unfoldable pub generate_report : Env → Library → ℕ → String → M AutopsyReport
unfolding ◌>>=◌ return read_job read_transitions
generate_report e l now job_id = do
  job ← read_job e job_id
  ts ← read_transitions e job_id
  return (build_report l now job_id job ts)
