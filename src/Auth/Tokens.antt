-- ===== src/Auth/Tokens.antt =====
-- Who gets past the interceptors of scheduler/auth.go.
use Prim.Native.String.{len, ◌++◌ as ◌+++◌}
use text.Mathlib.TextPositions.{len-append, slice-append_right, starts_with-append}
use text.Mathlib.TextEquality.{starts_with_iff}
use text.Mathlib.Text.{starts_with}
use distributed_scheduler.Prelude.{
  In, map, true, ltb, ◌&&◌, subst, ◌<◌, ◌≡◌, ◌≢◌, ◌⊎◌, inl, inr, refl, sym, ap, ◌∙◌, String, false,
  Option, none, some, List, [], ◌∷◌, All, arith, str_eq, eq_iff, Bool-cases, if◌then◌else◌,
}
use distributed_scheduler.Server.Rpc.{
  Code, Rpc, status, unauthenticated, permission_denied, unimplemented,
}
use distributed_scheduler.Auth.{
  client_rpcs, worker_rpcs, is_in, required_token, bearer, Metadata, check_token, check_for,
  auth_interceptor,
}

-- A token is accepted with the word Bearer before it: what is compared is the token itself, unless
-- it is empty.
pub bearer-append : (token : String) → 0 < len token → bearer ("Bearer " +++ token) ≡ token
unfolding bearer
bearer-append token h =
    let size = len-append "Bearer " token in
    let begins = starts_with-append "Bearer " token in
    let rest = slice-append_right "Bearer " token in ground (arith, size, begins, rest, h)

abbrev ShowsRequired : Option String → Metadata → Type 0
ShowsRequired required md =
    (token : String) × (others : List String) × (md ≡ some (token ∷ others))
    × (required ≡ some (bearer token))

-- What an interceptor does with every handler alike.
abbrev pub IsVerdict : Type 0 → ((A : Type 0) → Rpc A → Rpc A) → Type 1
IsVerdict Q i =
    (Q × ((A : Type 0) (handler : Rpc A) → i A handler ≡ handler))
    ⊎ ((c : Code) × ¬ Q × ((A : Type 0) (handler : Rpc A) → i A handler ≡ status c))

verdict :
    (required : Option String) (md : Metadata)
    → IsVerdict (ShowsRequired required md) (λ A handler. check_for required md handler)
unfolding check_token
verdict none md = inr (unimplemented, (λ (t, ts, same, needs). cc), λ A handler. refl)
verdict (some required) none =
    inr (unauthenticated, (λ (t, ts, same, needs). cc), λ A handler. refl)
verdict (some required) (some []) =
    inr (unauthenticated, (λ (t, ts, same, needs). ground arith), λ A handler. refl)
verdict (some required) (some (token ∷ others)) =
    elim (Bool-cases (str_eq (bearer token) required)) [
      | inl same ↦ inl (
        (token, others, refl, ap some (sym ((eq_iff (bearer token) required).0 same))),
        λ A handler. rw same refl,
      )
      | inr other ↦ inr (
        permission_denied,
        (λ (t, ts, same, needs).
            let token_is : token ≡ t = ground arith in
            let needed : required ≡ bearer t = ground arith in
            ground
              (arith, other, (eq_iff (bearer token) required).1 (ap bearer token_is ∙ sym needed))),
        λ A handler. rw other refl,
      )
    ]

-- The token that an authorization value carries: what follows the word Bearer, if anything does, and
-- the whole value otherwise.
abbrev pub Carries : String → String → Type 0
Carries value token =
    ((0 < len token) × (value ≡ "Bearer " +++ token))
    ⊎ ((value ≡ token) × ((rest : String) → (len rest ≡ 0) ⊎ (value ≢ "Bearer " +++ rest)))

bearer_plain :
    (value : String)
    → ltb 7 (len value) && starts_with value "Bearer " ≡ false
    → (rest : String) → (len rest ≡ 0) ⊎ (value ≢ "Bearer " +++ rest)
bearer_plain value h rest = elim (Bool-cases (ltb 0 (len rest))) [
  | inr empty_text ↦ inl (ground arith)
  | inl some_text ↦ inr λ e.
      let size = len-append "Bearer " rest in
      let begins = starts_with-append "Bearer " rest in
      let h' = subst (λ v. ltb 7 (len v) && starts_with v "Bearer " ≡ false) e h in
      ground (arith, size, begins, h', some_text)
]

-- A value that has the word, and what follows it.
worded :
    (value : String)
    → ltb 7 (len value) && starts_with value "Bearer " ≡ true
    → (rest : String) × (0 < len rest) × (value ≡ "Bearer " +++ rest)
worded value h =
    let (rest, e) = (starts_with_iff value "Bearer ").0 (ground arith) in
    let size = ap len e in (rest, ground (arith, h, size, len-append "Bearer " rest), sym e)

bearer-Carries : (value : String) → Carries value (bearer value)
unfolding bearer
bearer-Carries value = elim (Bool-cases (ltb 7 (len value) && starts_with value "Bearer ")) [
  | inr plain ↦ rw plain (inr (refl, bearer_plain value plain))
  | inl has_word ↦
      let (rest, h, e) = worded value has_word in
      subst (λ v. Carries v (bearer v)) (sym e)
        (inl (rw (bearer-append rest h) h, ap (λ t. "Bearer " +++ t) (sym (bearer-append rest h))))
]

Carries-unique : (value token : String) → Carries value token → bearer value ≡ token
unfolding bearer
Carries-unique value token (inl (h, e)) =
    subst (λ v. bearer v ≡ token) (sym e) (bearer-append token h)
Carries-unique value token (inr (e, plain)) =
    elim (Bool-cases (ltb 7 (len value) && starts_with value "Bearer ")) [
      | inr f ↦ rw f e
      | inl t ↦
          let (rest, h, e') = worded value t in
          elim (plain rest) [ inl z ↦ ground arith | inr ne ↦ absurd (ne e') ]
    ]

is_in-In : (m : String) (xs : List String) → is_in m xs ≡ true → In m xs
unfolding is_in
is_in-In m [] h = cc
is_in-In m (x ∷ xs) h = elim (Bool-cases (str_eq m x)) [
  | inl t ↦ inl ((eq_iff m x).0 t)
  | inr f ↦ inr (is_in-In m xs (ground arith))
]

In-is_in : (m : String) (xs : List String) → In m xs → is_in m xs ≡ true
unfolding is_in
In-is_in m [] i = absurd i
In-is_in m (x ∷ xs) (inl e) = ground (arith, (eq_iff m x).1 e)
In-is_in m (x ∷ xs) (inr i) = ground (arith, In-is_in m xs i)

abbrev service : String → String
service name = "/scheduler.SchedulerService/" +++ name

-- The methods of the clients, and those of the workers.
abbrev pub ForClients : String → Type 0
ForClients method = In method (
    map service (
      "SubmitJob" ∷ "GetJob" ∷ "CancelJob" ∷ "ListJobs" ∷ "CreateSchedule" ∷ "ListSchedules"
      ∷ "ToggleSchedule" ∷ "DeleteSchedule" ∷ "GetAutopsy" ∷ "ListAutopsies" ∷ []))

abbrev pub ForWorkers : String → Type 0
ForWorkers method =
    In method (map service ("RegisterWorker" ∷ "Heartbeat" ∷ "ReportResult" ∷ "RenewLease" ∷ []))

worker_apart : (m : String) → ForWorkers m → is_in m client_rpcs ≡ false
unfolding is_in
worker_apart m (inl e) = subst (λ z. is_in z client_rpcs ≡ false) (sym e) refl
worker_apart m (inr (inl e)) = subst (λ z. is_in z client_rpcs ≡ false) (sym e) refl
worker_apart m (inr (inr (inl e))) = subst (λ z. is_in z client_rpcs ≡ false) (sym e) refl
worker_apart m (inr (inr (inr (inl e)))) = subst (λ z. is_in z client_rpcs ≡ false) (sym e) refl
worker_apart m (inr (inr (inr (inr i)))) = absurd i

-- The call's first authorization value carries the token of the method's kind.
abbrev pub IsAuthorised : String → String → String → Metadata → Type 0
IsAuthorised api_token worker_token method md =
    (value : String) × (others : List String) × (md ≡ some (value ∷ others))
    × ((ForClients method × Carries value api_token)
        ⊎ (ForWorkers method × Carries value worker_token))

module _ (api_token worker_token method : String) (md : Metadata) where
  IsAuthorised-ShowsRequired :
      IsAuthorised api_token worker_token method md
      → ShowsRequired (required_token api_token worker_token method) md
  unfolding required_token
  IsAuthorised-ShowsRequired (value, others, e, inl (client, carries)) = (
    value,
    others,
    e,
    rw (In-is_in method client_rpcs client)
        (ap some (sym (Carries-unique value api_token carries))),
  )
  IsAuthorised-ShowsRequired (value, others, e, inr (worker, carries)) = (
    value,
    others,
    e,
    rw (worker_apart method worker, In-is_in method worker_rpcs worker)
        (ap some (sym (Carries-unique value worker_token carries))),
  )

  carried : (value token : String) → some token ≡ some (bearer value) → Carries value token
  carried value token e =
      let same : token ≡ bearer value = cc in
      subst (λ t. Carries value t) (sym same) (bearer-Carries value)

  ShowsRequired-IsAuthorised :
      ShowsRequired (required_token api_token worker_token method) md
      → IsAuthorised api_token worker_token method md
  unfolding required_token
  ShowsRequired-IsAuthorised (value, others, e, needs) =
      elim (Bool-cases (is_in method client_rpcs)) [
        | inl t ↦ (
          value,
          others,
          e,
          inl (is_in-In method client_rpcs t, carried value api_token (rw t at needs)),
        )
        | inr f ↦ elim (Bool-cases (is_in method worker_rpcs)) [
          | inl t ↦ (
            value,
            others,
            e,
            inr (is_in-In method worker_rpcs t, carried value worker_token (rw (f, t) at needs)),
          )
          | inr g ↦ absurd (ground (arith, rw (f, g) at needs))
        ]
      ]

  -- The interceptor runs the handler of a call exactly when the method is one of the clients' ten or
  -- of the workers' four, and the call's first authorization value carries the clients' or the workers'
  -- token accordingly, after the word Bearer or alone; any other call is answered with a status and
  -- its handler does not run.
  pub auth_interceptor-IsVerdict :
      IsVerdict
        (IsAuthorised api_token worker_token method md)
        (λ A handler. auth_interceptor api_token worker_token method md handler)
  unfolding auth_interceptor
  auth_interceptor-IsVerdict = elim (verdict (required_token api_token worker_token method) md) [
    | inl (shows, runs) ↦ inl (ShowsRequired-IsAuthorised shows, runs)
    | inr (c, hidden, refused) ↦ inr (c, (λ a. hidden (IsAuthorised-ShowsRequired a)), refused)
  ]

apart :
    (token one other : String)
    → one ≢ other
    → bearer token ≡ one
    → str_eq (bearer token) other ≡ false
apart token one other ne same = elim (Bool-cases (str_eq (bearer token) other)) [
  | inl equal ↦ absurd (ne (sym same ∙ (eq_iff (bearer token) other).0 equal))
  | inr f ↦ f
]

-- The two tokens do not stand for one another: where they differ, a call that shows the clients' token
-- is denied every method of the workers, and one that shows the workers' token every method of the
-- clients.
pub tokens_apart :
    (api_token worker_token client worker : String)
    → api_token ≢ worker_token
    → bearer client ≡ api_token
    → bearer worker ≡ worker_token
    → (A : Type 0) (handler : Rpc A)
    → All
        (λ m.
          auth_interceptor api_token worker_token m (some (client ∷ [])) handler
          ≡ status permission_denied)
        worker_rpcs
      × All
          (λ m.
            auth_interceptor api_token worker_token m (some (worker ∷ [])) handler
            ≡ status permission_denied)
          client_rpcs
unfolding auth_interceptor required_token check_token is_in
tokens_apart a w client worker ne shows_api shows_worker A handler =
    let no_worker : denied client w ≡ status permission_denied =
      rw (apart client a w ne shows_api) refl in
    let no_client : denied worker a ≡ status permission_denied =
      rw (apart worker w a (λ e. ne (sym e)) shows_worker) refl in
    let five : (denied worker a ≡ status permission_denied)
        × ((denied worker a ≡ status permission_denied)
            × ((denied worker a ≡ status permission_denied)
                × ((denied worker a ≡ status permission_denied)
                    × ((denied worker a ≡ status permission_denied) × Unit {0})))) =
      (no_client, (no_client, (no_client, (no_client, (no_client, tt))))) in
    (
      (no_worker, (no_worker, (no_worker, (no_worker, tt)))),
      (no_client, (no_client, (no_client, (no_client, (no_client, five))))),
    )
  where
    denied : String → String → Rpc A
    denied token required =
        if str_eq (bearer token) required then handler else status permission_denied
