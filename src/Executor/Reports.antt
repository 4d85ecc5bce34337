-- ===== src/Executor/Reports.antt =====
-- The output that the error of an execution carries to the scheduler.
use distributed_scheduler.Prelude.{
  ℕ, ◌+◌, ◌≤◌, ◌≡◌, Option, none, some, List, [], length, take, length-append, length-take-le, leb,
  if_elim, arith, leb→le, inl, inr, not, ◌&&◌, Bool-cases,
}
use distributed_scheduler.Texts.{Text, codes, text_eq, fields}
use distributed_scheduler.Executor.Commands.{
  Outcome, done, failed, panicked, Rejection, validate_command,
}
use distributed_scheduler.Executor.{
  http_request, blocked_header, method_or_get, JobPayload, Url, Request, Response, ProcessResult,
  ExecError, command_failed, http_status, World, Execution, truncate, finish_shell, run_validated,
  execute_shell, follow, finish_http, send_checked, send_parsed, execute_http, execute_sleep,
  execute_decoded, execute_payload,
}

-- The bytes of the process or of the server in the text of an error.
abbrev pub output : Outcome ExecError → Text
output (failed (command_failed c stderr)) = stderr
output (failed (http_status c body)) = body
output _ = []

pub length-truncate : (s : Text) (max : ℕ) → length (truncate s max) ≤ max + 3
unfolding truncate
length-truncate s max = elim (Bool-cases (leb (length s) max)) [
  | inl h ↦ rw h (omega (arith, leb→le (length s) max h))
  | inr h ↦ rw h (omega (arith, length-append (take max s) (codes "..."), length-take-le max s))
]

abbrev IsShort : Execution → Type 0
IsShort x = length (output x.1) ≤ 515

finish_shell-IsShort : (parts : List Text) (r : ProcessResult) → IsShort (finish_shell parts r)
unfolding finish_shell
finish_shell-IsShort parts r =
    if_elim (λ o. length (output o) ≤ 515) r.is_error
      (λ _. omega (arith, length-truncate r.stderr 512)) (λ _. omega arith)

run_validated-IsShort :
    (w : World) (command : Text) (o : Outcome Rejection) → IsShort (run_validated w command o)
unfolding run_validated
run_validated-IsShort w command done =
    finish_shell-IsShort (fields command) (w.run_process (fields command))
run_validated-IsShort w command (failed r) = omega arith
run_validated-IsShort w command panicked = omega arith

finish_http-IsShort : (x : List Request × Option Response) → IsShort (finish_http x)
unfolding finish_http
finish_http-IsShort (rs, none) = omega arith
finish_http-IsShort (rs, some x) =
    if_elim (λ o. length (output o) ≤ 515) (leb 400 x.status_code)
      (λ _. omega (arith, length-truncate (take 4096 x.body) 256)) (λ _. omega arith)

send_checked-IsShort : (w : World) (r : Request) (o : Option Text) → IsShort (send_checked w r o)
unfolding send_checked
send_checked-IsShort w r none = finish_http-IsShort (follow w 6 0 r)
send_checked-IsShort w r (some k) = omega arith

none-IsShort : (x : ExecError) → output (failed x) ≡ [] → IsShort ([], failed x)
none-IsShort x e = rw e (omega arith)

send_parsed-IsShort : (w : World) (p : JobPayload) (o : Option Url) → IsShort (send_parsed w p o)
unfolding send_parsed
send_parsed-IsShort w p none = omega arith
send_parsed-IsShort w p (some u) =
    let sent = send_checked-IsShort w (http_request p) (blocked_header w.case_table p.headers) in
    if_elim IsShort
      (not (text_eq u.scheme (codes "http")) && not (text_eq u.scheme (codes "https")))
      (λ _. omega arith)
      λ _.
        if_elim IsShort (text_eq u.host []) (λ _. omega arith)
          λ _.
            if_elim IsShort (not (w.valid_request (method_or_get p.method) p.url))
              (λ _. omega arith) (λ _. sent)

execute_http-IsShort : (w : World) (p : JobPayload) → IsShort (execute_http w p)
unfolding execute_http
execute_http-IsShort w p =
    if_elim IsShort (text_eq p.url []) (λ _. omega arith)
      (λ _. send_parsed-IsShort w p (w.parse_url p.url))

execute_sleep-IsShort : (w : World) (p : JobPayload) → IsShort (execute_sleep w p)
unfolding execute_sleep
execute_sleep-IsShort w p = ground arith

execute_decoded-IsShort : (w : World) (o : Option JobPayload) → IsShort (execute_decoded w o)
unfolding execute_decoded execute_shell
execute_decoded-IsShort w none = omega arith
execute_decoded-IsShort w (some p) =
    if_elim IsShort (text_eq p.kind (codes "shell"))
      (λ _. run_validated-IsShort w p.command (validate_command p.command))
      λ _.
        if_elim IsShort (text_eq p.kind (codes "http")) (λ _. execute_http-IsShort w p)
          λ _.
            if_elim IsShort (text_eq p.kind (codes "sleep")) (λ _. execute_sleep-IsShort w p)
              λ _.
                if_elim IsShort (text_eq p.kind (codes "fail")) (λ _. omega arith)
                  (λ _. omega arith)

-- However much a process writes to its standard error, or a server sends, the error that
-- executePayload returns carries at most 515 bytes of it.
pub execute_payload-IsShort :
    (w : World) (payload : Text) → length (output (execute_payload w payload).1) ≤ 515
unfolding execute_payload
execute_payload-IsShort w payload = execute_decoded-IsShort w (w.decode payload)
