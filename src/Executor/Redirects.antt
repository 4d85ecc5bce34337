-- ===== src/Executor/Redirects.antt =====
-- The redirects that the HTTP client of worker/executor.go follows.
use distributed_scheduler.Prelude.{
  ℕ, zero, suc, ◌+◌, true, Bool, ◌≤◌, ◌≡◌, refl, false, Option, List, [], ◌∷◌, length, arith,
}
use distributed_scheduler.Executor.Dial.{dial, may_redirect}
use distributed_scheduler.Executor.{
  Request, Response, World, Answer, no_answer, responds, redirects, sent_after, follow,
}

-- What is sent: the request, and then what fits below five requests in all.
abbrev pub Sends : ℕ → Request → List Request → Type 0
Sends via r rs = (rest : List Request) × (rs ≡ r ∷ rest) × (length rest + via ≤ 4)

sent_after-Sends :
    (via : ℕ) (r : Request) (a : Answer) (allowed : Bool)
    (go : Request → List Request × Option Response)
    → via ≤ 4
    → (allowed ≡ true → (r' : Request) → length (go r').0 + via ≤ 4)
    → Sends via r (sent_after r a allowed go).0
unfolding sent_after
sent_after-Sends via r no_answer b go h k = ([], refl, omega arith)
sent_after-Sends via r (responds response) b go h k = ([], refl, omega arith)
sent_after-Sends via r (redirects r') false go h k = ([], refl, omega arith)
sent_after-Sends via r (redirects r') true go h k = ((go r').0, refl, k refl r')

follow-length :
    (w : World) (fuel via : ℕ) (r : Request)
    → via + 1 ≤ 4
    → length (follow w fuel (via + 1) r).0 + via ≤ 4
unfolding follow may_redirect
follow-length w zero via r h = omega arith
follow-length w (suc fuel) via r h =
    let (rest, e, k) =
      sent_after-Sends (via + 1) r (w.send (dial w.split_host_port w.lookup_ip) r)
        (may_redirect (via + 1 + 1)) (follow w fuel (via + 1 + 1)) h
        (λ allowed r'.
          let more = follow-length w fuel (via + 1) r' (ground (arith, allowed)) in more) in
    rw e (omega (arith, k))

pub follow-Sends : (w : World) (fuel : ℕ) (r : Request) → Sends 0 r (follow w (suc fuel) 0 r).0
unfolding follow
follow-Sends w fuel r =
    sent_after-Sends 0 r (w.send (dial w.split_host_port w.lookup_ip) r) (may_redirect (0 + 1))
      (follow w fuel (0 + 1)) (omega arith) (λ allowed r'. follow-length w fuel 0 r' (omega arith))
