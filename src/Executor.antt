-- ===== src/Executor.antt =====
-- worker/executor.go: what a worker does with the payload of a job.
-- The JSON decoder, the process runner, the URL parser, the case table of Unicode, the resolver and
-- the HTTP client are parameters. Each function gives the list of its effects on the outside, in
-- order, with its result.
pub mod Commands
pub mod Dial
pub mod Redirects
pub mod Effects
pub mod Reports
mod Examples
use distributed_scheduler.Prelude.{
  ℕ, zero, suc, map, ◌+◌, ◌*◌, ◌%◌, ◌^◌, Bool, true, false, not, ◌&&◌, ◌||◌, Option, none, some,
  List, [], ◌∷◌, ◌++◌, length, take, ltb, leb, if◌then◌else◌,
}
use distributed_scheduler.Prelude.Int.{ℤ, pos, negsuc}
use distributed_scheduler.Texts.{Text, codes, text_eq, text_in, fields, to_lower}
use distributed_scheduler.Executor.Commands.{
  Outcome, done, failed, panicked, Rejection, validate_command,
}
use distributed_scheduler.Executor.Dial.{Ip, Dialed, dial, may_redirect}

pub record JobPayload : Type 0 where
  pub kind : Text
  pub command : Text
  pub method : Text
  pub url : Text
  pub headers : List (Text × Text)
  pub body : Text
  pub duration_ms : ℤ
  pub message : Text

pub record Url : Type 0 where
  pub scheme : Text
  pub host : Text

pub record Request : Type 0 where
  pub method : Text
  pub url : Text
  pub body : Option Text
  pub headers : List (Text × Text)

pub record Response : Type 0 where
  pub status_code : ℕ
  pub body : Text

-- What one request comes to: a failure, a response, or the next request, that net/http makes of the
-- server's redirect.
pub data Answer : Type 0 where
  no_answer : Answer
  responds : Response → Answer
  redirects : Request → Answer

-- What cmd.Run leaves: `state` is none where the process did not start.
pub record ProcessResult : Type 0 where
  pub stdout : Text
  pub stderr : Text
  pub state : Option ℤ
  pub is_error : Bool

pub data ExecError : Type 0 where
  invalid_json : ExecError
  deliberate_failure : Text → ExecError
  unknown_type : Text → ExecError
  command_rejected : Rejection → ExecError
  command_failed : (exit_code : ℤ) (stderr : Text) → ExecError
  url_required : ExecError
  invalid_url : ExecError
  scheme_not_allowed : Text → ExecError
  host_required : ExecError
  request_invalid : ExecError
  header_not_allowed : Text → ExecError
  request_failed : ExecError
  http_status : (status_code : ℕ) (body : Text) → ExecError
  cancelled : ExecError

pub data Effect : Type 0 where
  ran : List Text → Effect
  requested : Request → Effect
  slept : (nanoseconds : ℕ) → Effect

pub record World : Type 0 where
  pub decode : Text → Option JobPayload
  pub run_process : List Text → ProcessResult
  pub parse_url : Text → Option Url
  pub valid_request : (method url : Text) → Bool
  pub split_host_port : Text → Option (Text × Text)
  pub lookup_ip : Text → Option (List Ip)
  pub send : (Text → Dialed) → Request → Answer
  pub case_table : ℕ → ℕ
  -- whether the job's context ends within so many nanoseconds
  pub context_ends : ℕ → Bool

abbrev pub Execution : Type 0
Execution = List Effect × Outcome ExecError

-- truncate
unfoldable pub truncate : Text → ℕ → Text
truncate s max = if leb (length s) max then s else take max s ++ codes "..."

-- result.ExitCode
exit_code : Option ℤ → ℤ
exit_code none = pos 0
exit_code (some c) = c

finish_shell : List Text → ProcessResult → Execution
unfolding truncate exit_code
finish_shell parts r = (
  ran parts ∷ [],
  if r.is_error then failed (command_failed (exit_code r.state) (truncate r.stderr 512)) else done,
)

unfoldable pub run_validated : World → Text → Outcome Rejection → Execution
unfolding finish_shell
run_validated w command done = finish_shell (fields command) (w.run_process (fields command))
run_validated w command (failed r) = ([], failed (command_rejected r))
run_validated w command panicked = ([], panicked)

-- executeShell
unfoldable pub execute_shell : World → JobPayload → Execution
unfolding run_validated
execute_shell w p = run_validated w p.command (validate_command p.command)

abbrev pub blocked_headers : List Text
blocked_headers =
    codes "host"
    ∷ codes "transfer-encoding"
    ∷ codes "te"
    ∷ codes "trailer"
    ∷ codes "connection"
    ∷ codes "upgrade"
    ∷ codes "proxy-authorization"
    ∷ []

-- The first header that must not be set, in the order in which the map is ranged over.
unfoldable pub blocked_header : (ℕ → ℕ) → List (Text × Text) → Option Text
blocked_header table [] = none
blocked_header table ((k, v) ∷ headers) =
    if text_in (to_lower table k) blocked_headers then some k else blocked_header table headers

-- What is sent after an answer: nothing, or the redirect where CheckRedirect lets it.
sent_after :
    Request
    → Answer
    → Bool
    → (Request → List Request × Option Response)
    → List Request × Option Response
sent_after r no_answer allowed go = (r ∷ [], none)
sent_after r (responds response) allowed go = (r ∷ [], some response)
sent_after r (redirects r') false go = (r ∷ [], none)
sent_after r (redirects r') true go = (r ∷ (go r').0, (go r').1)

-- client.Do: the requests that are sent, in order, and the last response. `via` counts the requests
-- that went before; with no fuel left there is no further request.
unfoldable pub follow : World → (fuel via : ℕ) → Request → List Request × Option Response
unfolding sent_after
follow w zero via r = ([], none)
follow w (suc fuel) via r =
    sent_after r (w.send (dial w.split_host_port w.lookup_ip) r) (may_redirect (via + 1))
      (follow w fuel (via + 1))

finish_http : List Request × Option Response → Execution
unfolding truncate
finish_http (rs, none) = (map requested rs, failed request_failed)
finish_http (rs, some response) = (
  map requested rs,
  if leb 400 response.status_code
      then failed (http_status response.status_code (truncate (take 4096 response.body) 256))
      else done,
)

-- if p.Method == "" { p.Method = "GET" }
unfoldable pub method_or_get : Text → Text
method_or_get method = if text_eq method [] then codes "GET" else method

body_reader : Text → Option Text
body_reader body = if text_eq body [] then none else some body

unfoldable pub http_request : JobPayload → Request
unfolding method_or_get body_reader
http_request p = record {
  method = method_or_get p.method;
  url = p.url;
  body = body_reader p.body;
  headers = p.headers;
}

send_checked : World → Request → Option Text → Execution
unfolding finish_http
send_checked w r (some k) = ([], failed (header_not_allowed k))
send_checked w r none = finish_http (follow w 6 0 r)

unfoldable pub send_parsed : World → JobPayload → Option Url → Execution
unfolding send_checked http_request
send_parsed w p none = ([], failed invalid_url)
send_parsed w p (some u) =
    if not (text_eq u.scheme (codes "http")) && not (text_eq u.scheme (codes "https"))
    then ([], failed (scheme_not_allowed u.scheme))
    else if text_eq u.host []
    then ([], failed host_required)
    else if not (w.valid_request (method_or_get p.method) p.url)
    then ([], failed request_invalid)
    else send_checked w (http_request p) (blocked_header w.case_table p.headers)

-- executeHTTP
unfoldable pub execute_http : World → JobPayload → Execution
unfolding send_parsed
execute_http w p =
    if text_eq p.url [] then ([], failed url_required) else send_parsed w p (w.parse_url p.url)

-- p.DurationMs, or 2000 where it is not positive
unfoldable pub duration_or_default : ℤ → ℕ
duration_or_default (pos n) = if leb n 0 then 2000 else n
duration_or_default (negsuc n) = 2000

-- time.Duration(n) * time.Millisecond in 64 bits; a timer that is negative fires at once
unfoldable pub timer : ℕ → ℕ
timer n = if ltb (n * 1000000 % 2 ^ 64) (2 ^ 63) then n * 1000000 % 2 ^ 64 else 0

-- executeSleep
unfoldable pub execute_sleep : World → JobPayload → Execution
unfolding duration_or_default timer
execute_sleep w p = (
  slept (timer (duration_or_default p.duration_ms)) ∷ [],
  if w.context_ends (timer (duration_or_default p.duration_ms)) then failed cancelled else done,
)

unfoldable pub execute_decoded : World → Option JobPayload → Execution
unfolding execute_shell execute_http execute_sleep
execute_decoded w none = ([], failed invalid_json)
execute_decoded w (some p) =
    if text_eq p.kind (codes "shell")
    then execute_shell w p
    else if text_eq p.kind (codes "http")
    then execute_http w p
    else if text_eq p.kind (codes "sleep")
    then execute_sleep w p
    else if text_eq p.kind (codes "fail")
    then ([], failed (deliberate_failure p.message))
    else ([], failed (unknown_type p.kind))

-- executePayload
unfoldable pub execute_payload : World → Text → Execution
unfolding execute_decoded
execute_payload w payload = execute_decoded w (w.decode payload)
