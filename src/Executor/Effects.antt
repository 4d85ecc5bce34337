-- ===== src/Executor/Effects.antt =====
-- What a payload can make a worker do.
use distributed_scheduler.Prelude.{
  ℕ, map, ◌^◌, ◌<◌, ◌≤◌, ◌≡◌, refl, ◌≢◌, ◌⊎◌, inl, inr, false, not, ◌&&◌, Option, none, some, List,
  [], ◌∷◌, length, All, if_elim, arith, Bool-cases,
}
use distributed_scheduler.Texts.{Text, codes, text_eq, text_in, fields, to_lower}
use distributed_scheduler.Texts.Substrings.{Among, Among-text_in, eq_of_text_eq}
use distributed_scheduler.Executor.Commands.{
  Outcome, done, failed, panicked, validate_command, Rejection,
}
use distributed_scheduler.Executor.Commands.Checks.{IsPermitted, IsClean}
use distributed_scheduler.Executor.Commands.Allowed.{validate_command_lem}
use distributed_scheduler.Executor.Redirects.{Sends, follow-Sends}
use distributed_scheduler.Executor.{
  JobPayload, Url, Request, Response, finish_http, send_checked, duration_or_default, Effect, ran,
  requested, slept, World, Execution, run_validated, execute_shell, blocked_headers, blocked_header,
  follow, method_or_get, http_request, send_parsed, execute_http, timer, execute_sleep,
  execute_decoded, execute_payload,
}

-- A process of a permitted name in any directory, with clean arguments.
pub data IsSafeProcess : List Text → Type 0 where
  process :
      (binary : Text) (args : List Text)
      → IsPermitted binary
      → All IsClean args
      → IsSafeProcess (binary ∷ args)

abbrev pub IsWebUrl : World → Text → Type 0
IsWebUrl w url =
    (u : Url) × (w.parse_url url ≡ some u)
    × ((u.scheme ≡ codes "http") ⊎ (u.scheme ≡ codes "https"))
    × (u.host ≢ [])

abbrev pub IsFreeHeader : World → Text × Text → Type 0
IsFreeHeader w h = ¬ Among (to_lower w.case_table h.0) blocked_headers

pub record IsSafeRequest (w : World) (r : Request) : Type 0 where
  pub has_method : r.method ≢ []
  pub web : IsWebUrl w r.url
  pub free_headers : All (IsFreeHeader w) r.headers

abbrev pub IsSafe : World → Effect → Type 0
IsSafe w (ran parts) = IsSafeProcess parts
IsSafe w (requested r) = IsSafeRequest w r
IsSafe w (slept n) = n < 2 ^ 63

-- A request, which is all that may follow.
abbrev pub IsRequest : Effect → Type 0
IsRequest (requested r) = Unit
IsRequest _ = ⊥

-- No effect; or a safe one, and nothing after it but at most four requests after a request.
abbrev pub AreContained : World → List Effect → Type 0
AreContained w [] = Unit
AreContained w (x ∷ xs) =
    IsSafe w x × (length xs ≤ 4) × All IsRequest xs × ((IsRequest x) ⊎ (xs ≡ []))

abbrev pub Contained : World → Execution → Type 0
Contained w x = AreContained w x.0

allowed-IsSafeProcess :
    (command : Text) → validate_command command ≡ done → IsSafeProcess (fields command)
allowed-IsSafeProcess command e =
    let a = (validate_command_lem command).0 e in
    rw a.parts (process a.binary a.args a.permitted a.clean)

run_validated-Contained :
    (w : World) (command : Text) (o : Outcome Rejection)
    → validate_command command ≡ o
    → Contained w (run_validated w command o)
unfolding run_validated
run_validated-Contained w command done e =
    (allowed-IsSafeProcess command e, omega arith, tt, inr refl)
run_validated-Contained w command (failed r) e = tt
run_validated-Contained w command panicked e = tt

execute_shell-Contained : (w : World) (p : JobPayload) → Contained w (execute_shell w p)
unfolding execute_shell
execute_shell-Contained w p = run_validated-Contained w p.command (validate_command p.command) refl

method_or_get-ne-nil : (m : Text) → method_or_get m ≢ []
unfolding method_or_get text_eq
method_or_get-ne-nil [] h = cc
method_or_get-ne-nil (c ∷ m) h = cc

host-ne-nil : (host : Text) → text_eq host [] ≡ false → host ≢ []
unfolding text_eq
host-ne-nil [] e m = cc
host-ne-nil (c ∷ host) e m = cc

blocked_header-none :
    (w : World) (hs : List (Text × Text))
    → blocked_header w.case_table hs ≡ none
    → All (IsFreeHeader w) hs
unfolding blocked_header
blocked_header-none w [] h = tt
blocked_header-none w ((k, v) ∷ hs) h =
    elim (Bool-cases (text_in (to_lower w.case_table k) blocked_headers)) [
      | inl e ↦ absurd (ground arith)
      | inr e ↦ (
        λ a. let e' = Among-text_in (to_lower w.case_table k) blocked_headers a in absurd cc,
        blocked_header-none w hs (ground arith),
      )
    ]

requests : (rs : List Request) → All IsRequest (map requested rs)
requests [] = tt
requests (r ∷ rs) = (tt, requests rs)

map-length : (rs : List Request) → length (map requested rs) ≡ length rs
map-length [] = refl
map-length (r ∷ rs) = ground (arith, map-length rs)

sent-AreContained :
    (w : World) (r : Request) (rs : List Request)
    → Sends 0 r rs
    → IsSafeRequest w r
    → AreContained w (map requested rs)
sent-AreContained w r rs (rest, e, k) h =
    rw e (h, omega (arith, k, map-length rest), requests rest, inl tt)

finish_http-Contained :
    (w : World) (x : List Request × Option Response)
    → AreContained w (map requested x.0)
    → Contained w (finish_http x)
unfolding finish_http
finish_http-Contained w (rs, none) h = h
finish_http-Contained w (rs, some response) h = h

send_checked-Contained :
    (w : World) (r : Request) (o : Option Text)
    → (o ≡ none → IsSafeRequest w r)
    → Contained w (send_checked w r o)
unfolding send_checked
send_checked-Contained w r (some k) h = tt
send_checked-Contained w r none h =
    finish_http-Contained w (follow w 6 0 r)
      (sent-AreContained w r (follow w 6 0 r).0 (follow-Sends w 5 r) (h refl))

is_web :
    (s : Text)
    → not (text_eq s (codes "http")) && not (text_eq s (codes "https")) ≡ false
    → (s ≡ codes "http") ⊎ (s ≡ codes "https")
is_web s h = elim (Bool-cases (text_eq s (codes "http"))) [
  | inl e ↦ inl (eq_of_text_eq s (codes "http") e)
  | inr e ↦ inr (eq_of_text_eq s (codes "https") (ground arith))
]

send_parsed-Contained :
    (w : World) (p : JobPayload) (o : Option Url)
    → w.parse_url p.url ≡ o
    → Contained w (send_parsed w p o)
unfolding send_parsed http_request
send_parsed-Contained w p none e = tt
send_parsed-Contained w p (some u) e =
    if_elim (Contained w)
      (not (text_eq u.scheme (codes "http")) && not (text_eq u.scheme (codes "https"))) (λ _. tt)
      λ s.
        if_elim (Contained w) (text_eq u.host []) (λ _. tt)
          λ h.
            if_elim (Contained w) (not (w.valid_request (method_or_get p.method) p.url)) (λ _. tt)
              λ _.
                send_checked-Contained w (http_request p) (blocked_header w.case_table p.headers)
                  λ b. record {
                    has_method = method_or_get-ne-nil p.method;
                    web = (u, e, is_web u.scheme s, host-ne-nil u.host h);
                    free_headers = blocked_header-none w p.headers b;
                  }

execute_http-Contained : (w : World) (p : JobPayload) → Contained w (execute_http w p)
unfolding execute_http
execute_http-Contained w p =
    if_elim (Contained w) (text_eq p.url []) (λ _. tt)
      (λ _. send_parsed-Contained w p (w.parse_url p.url) refl)

timer-lt : (n : ℕ) → timer n < 2 ^ 63
unfolding timer
timer-lt n = ground arith

execute_sleep-Contained : (w : World) (p : JobPayload) → Contained w (execute_sleep w p)
unfolding execute_sleep
execute_sleep-Contained w p =
    (timer-lt (duration_or_default p.duration_ms), omega arith, tt, inr refl)

execute_decoded-Contained : (w : World) (o : Option JobPayload) → Contained w (execute_decoded w o)
unfolding execute_decoded
execute_decoded-Contained w none = tt
execute_decoded-Contained w (some p) =
    if_elim (Contained w) (text_eq p.kind (codes "shell")) (λ _. execute_shell-Contained w p)
      λ _.
        if_elim (Contained w) (text_eq p.kind (codes "http")) (λ _. execute_http-Contained w p)
          λ _.
            if_elim (Contained w) (text_eq p.kind (codes "sleep"))
              (λ _. execute_sleep-Contained w p)
              λ _. if_elim (Contained w) (text_eq p.kind (codes "fail")) (λ _. tt) (λ _. tt)

-- Whatever the payload of a job, executePayload does nothing to the outside; or it starts one process,
-- whose binary is one of the permitted names or a path to one and whose arguments hold no blocked
-- pattern and no "../"; or it sleeps once, for less than 2^63 nanoseconds; or it sends a request that
-- has a method, whose URL parses to the scheme http or https with a host, and none of whose headers is
-- blocked in any capitals, and then at most four more requests, to which the servers redirect it.
pub execute_payload-Contained :
    (w : World) (payload : Text) → Contained w (execute_payload w payload)
unfolding execute_payload
execute_payload-Contained w payload = execute_decoded-Contained w (w.decode payload)
