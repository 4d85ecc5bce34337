-- ===== src/Executor/Examples.antt =====
-- Runs of the executor, and its theorems at concrete inputs.
use distributed_scheduler.Prelude.{
  ◌≡◌, refl, ◌≢◌, ◌↔◌, true, false, Option, some, List, [], ◌∷◌, All, arith, inl,
}
use distributed_scheduler.Prelude.Int.{pos}
use distributed_scheduler.Texts.{
  Text, codes, text_eq, text_in, fields, is_space, last_index, contains, to_lower,
}
use distributed_scheduler.Texts.Words.{IsBlank}
use distributed_scheduler.Executor.Commands.{
  done, failed, panicked, blocked_pattern, path_traversal, validate_command, find_blocked,
}
use distributed_scheduler.Executor.Commands.Allowed.{
  IsAllowed, validate_command_lem, validate_command-panicked,
}
use distributed_scheduler.Executor.Dial.{Ip, connect, dial, check_ips, blocked_ip, to4}
use distributed_scheduler.Executor.Dial.Ranges.{IsExternal, dial_lem}
use distributed_scheduler.Executor.{
  JobPayload, World, http_status, responds, blocked_header, execute_payload, follow,
}
use distributed_scheduler.Executor.Effects.{Contained, execute_payload-Contained}

-- A path in any directory passes: the process that starts is the one at that path.
planted : validate_command (codes "/tmp/x/echo hi") ≡ done
unfolding validate_command text_eq fields is_space text_in last_index find_blocked contains
planted = refl

refused_argument :
    validate_command (codes "grep -c x") ≡ failed (blocked_pattern (codes "-c") (codes "-c"))
unfolding validate_command text_eq fields is_space text_in last_index find_blocked contains
refused_argument = refl

refused_traversal : validate_command (codes "cat a/../b") ≡ failed (path_traversal (codes "a/../b"))
unfolding validate_command text_eq fields is_space text_in last_index find_blocked contains
refused_traversal = refl

blank : validate_command (codes "  ") ≡ panicked
unfolding validate_command text_eq fields is_space text_in last_index find_blocked contains
blank = refl

validate_command_lem_example :
    (validate_command (codes "/tmp/x/echo hi") ≡ done) ↔ IsAllowed (codes "/tmp/x/echo hi")
validate_command_lem_example = validate_command_lem (codes "/tmp/x/echo hi")

validate_command-panicked_example :
    (validate_command (codes "  ") ≡ panicked) ↔ ((codes "  " ≢ []) × IsBlank (codes "  "))
validate_command-panicked_example = validate_command-panicked (codes "  ")

abbrev split_local : Text → Option (Text × Text)
split_local addr = some (addr, codes "80")

abbrev resolve : Text → Option (List Ip)
resolve host = some ((0 ∷ 0 ∷ 0 ∷ 0 ∷ []) ∷ (8 ∷ 8 ∷ 8 ∷ 8 ∷ []) ∷ [])

-- 0.0.0.0 is no blocked address, though a connection to it reaches the machine itself.
unspecified : dial split_local resolve (codes "host") ≡ connect (0 ∷ 0 ∷ 0 ∷ 0 ∷ []) (codes "80")
unfolding dial check_ips blocked_ip to4
unspecified = refl

dial_lem_example :
    (dial split_local resolve (codes "host") ≡ connect (0 ∷ 0 ∷ 0 ∷ 0 ∷ []) (codes "80"))
    ↔ All IsExternal ((0 ∷ 0 ∷ 0 ∷ 0 ∷ []) ∷ (8 ∷ 8 ∷ 8 ∷ 8 ∷ []) ∷ [])
dial_lem_example =
    dial_lem split_local resolve (codes "host") (codes "host") (codes "80") (0 ∷ 0 ∷ 0 ∷ 0 ∷ [])
      ((8 ∷ 8 ∷ 8 ∷ 8 ∷ []) ∷ [])
      ((omega arith, inl (omega arith)), ((omega arith, inl (omega arith)), tt)) refl refl

abbrev web_payload : JobPayload
web_payload = record {
  kind = codes "http";
  command = [];
  method = [];
  url = codes "http://host/";
  headers = (codes "Accept", codes "*") ∷ [];
  body = [];
  duration_ms = pos 0;
  message = [];
}

-- A machine on which processes succeed and servers answer 500.
abbrev machine : World
machine = record {
  decode = λ payload. some web_payload;
  run_process =
      λ parts. record { stdout = []; stderr = []; state = some (pos 0); is_error = false };
  parse_url = λ url. some (record { scheme = codes "http"; host = codes "host" });
  valid_request = λ method url. true;
  split_host_port = split_local;
  lookup_ip = resolve;
  send = λ dialer r. responds (record { status_code = 500; body = codes "oops" });
  case_table = λ c. c;
  context_ends = λ n. false;
}

answered : (execute_payload machine (codes "{}")).1 ≡ failed (http_status 500 (codes "oops"))
unfolding execute_payload follow text_eq blocked_header text_in to_lower
answered = refl

execute_payload-Contained_example : Contained machine (execute_payload machine (codes "{}"))
execute_payload-Contained_example = execute_payload-Contained machine (codes "{}")
