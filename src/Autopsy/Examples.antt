-- ===== src/Autopsy/Examples.antt =====
-- Runs of the report, and its theorems at concrete inputs.
use distributed_scheduler.Prelude.{◌≤◌, ◌≡◌, refl, [], ◌∷◌}
use distributed_scheduler.Models.{second}
use distributed_scheduler.Samples.{waiting, redacting}
use distributed_scheduler.Texts.{Text, codes, text_eq, contains, to_lower}
use distributed_scheduler.Autopsy.{
  TransitionRow, AttemptDetail, consistent_timeout, same_error, cause_of, all_mention, mentions,
  scrub_secrets, build_report,
}
use distributed_scheduler.Autopsy.Causes.{Explains, rank, cause_of_lem}
use distributed_scheduler.Autopsy.Secrets.{build_report_same}

abbrev attempt_with : Text → AttemptDetail
attempt_with e = record { attempt = 1; worker_id = codes "worker-a"; error = e; failed_at = [] }

timeouts :
    cause_of redacting (attempt_with (codes "Timed out") ∷ attempt_with (codes "TIMEOUT") ∷ [])
    ≡ consistent_timeout
unfolding cause_of all_mention mentions contains to_lower
timeouts = refl

cause_of_lem_example :
    Explains redacting (cause_of redacting (attempt_with [] ∷ [])) (attempt_with [] ∷ [])
    × (rank (cause_of redacting (attempt_with [] ∷ [])) ≤ 4)
cause_of_lem_example = cause_of_lem redacting (attempt_with [] ∷ []) (same_error []) (refl, tt)

abbrev failure_of : Text → TransitionRow
failure_of reason = record {
  from_state = codes "RUNNING";
  to_state = codes "DEAD_LETTER";
  worker_id = codes "worker-a";
  reason = reason;
  created_at = second;
}

build_report_same_example :
    build_report redacting 0 "job-1"
      (record waiting { payload = "x" })
      (failure_of (codes "y") ∷ [])
    ≡ build_report redacting 0 "job-1"
        (record waiting { payload = "z" })
        (failure_of (codes "w") ∷ [])
unfolding scrub_secrets text_eq
build_report_same_example =
    build_report_same redacting 0 "job-1" (record waiting { payload = "x" })
      (record waiting { payload = "z" }) (failure_of (codes "y") ∷ []) (failure_of (codes "w") ∷ [])
      (record { tenant_id = refl; priority = refl; retry_count = refl; payload = refl })
      (
        record {
          from_state = refl;
          to_state = refl;
          worker_id = refl;
          created_at = refl;
          has_reason = refl;
          reason = refl;
        },
        tt,
      )
