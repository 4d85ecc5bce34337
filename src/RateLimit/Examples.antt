-- ===== src/RateLimit/Examples.antt =====
-- Calls of scheduler/ratelimit.go in a second, and its theorems at them.
use distributed_scheduler.Prelude.{◌*◌, ◌≡◌, List, [], ◌∷◌, arith}
use distributed_scheduler.Models.{second}
use distributed_scheduler.RateLimit.{
  new_rate_limiter, bucket_for, allow, cleanup, Event, calls, cleans,
}
use distributed_scheduler.RateLimit.Cleanup.{after, cleanup_unnoticed}

abbrev busy : List Event
busy = calls "acme" 5 ∷ calls "globex" 6 ∷ cleans 7 ∷ calls "acme" 9 ∷ []

cleanup_unnoticed_example :
    let rl = after (new_rate_limiter 50 100 (60 * second)) (calls "acme" 5 ∷ []) in
    let c = 90 * second in
    let (with_it, answer) = allow (cleanup rl c) "acme" c in
    let (without_it, same_answer) = allow rl "acme" c in
    (answer ≡ same_answer) × (bucket_for with_it "acme" c ≡ bucket_for without_it "acme" c)
cleanup_unnoticed_example =
    cleanup_unnoticed 50 100 (60 * second) (calls "acme" 5 ∷ []) "acme" (90 * second) (90 * second)
      (omega arith) (omega arith)
