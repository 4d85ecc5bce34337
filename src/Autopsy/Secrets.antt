-- ===== src/Autopsy/Secrets.antt =====
-- What a report tells of the payload and of the reasons.
use distributed_scheduler.Prelude.{ℕ, suc, ◌≡◌, refl, ap, ◌∙◌, String, List, [], ◌∷◌, map, arith}
use distributed_scheduler.Db.{JobRow}
use distributed_scheduler.Texts.{codes, text_eq}
use distributed_scheduler.Autopsy.{
  Library, TransitionRow, scrub_secrets, timeline_event, is_failure, attempts_from, elapsed_text,
  last_time, build_report,
}

-- Two rows that differ in their payload at most, and not once it is scrubbed.
pub record SameJob (l : Library) (r r' : JobRow) : Type 0 where
  pub tenant_id : r.tenant_id ≡ r'.tenant_id
  pub priority : r.priority ≡ r'.priority
  pub retry_count : r.retry_count ≡ r'.retry_count
  pub payload : scrub_secrets l (codes r.payload) ≡ scrub_secrets l (codes r'.payload)

-- Two transitions that differ in their reason at most, and not once it is scrubbed.
pub record SameTransition (l : Library) (t t' : TransitionRow) : Type 0 where
  pub from_state : t.from_state ≡ t'.from_state
  pub to_state : t.to_state ≡ t'.to_state
  pub worker_id : t.worker_id ≡ t'.worker_id
  pub created_at : t.created_at ≡ t'.created_at
  pub has_reason : text_eq t.reason [] ≡ text_eq t'.reason []
  pub reason : scrub_secrets l t.reason ≡ scrub_secrets l t'.reason

abbrev pub SameHistory : Library → List TransitionRow → List TransitionRow → Type 0
SameHistory l [] [] = Unit
SameHistory l [] (u ∷ us) = ⊥
SameHistory l (t ∷ ts) [] = ⊥
SameHistory l (t ∷ ts) (u ∷ us) = SameTransition l t u × SameHistory l ts us

module _ (l : Library) where
  timeline_same :
      (ts us : List TransitionRow)
      → SameHistory l ts us
      → map (timeline_event l) ts ≡ map (timeline_event l) us
  unfolding timeline_event
  timeline_same [] [] h = refl
  timeline_same [] (u ∷ us) h = absurd h
  timeline_same (t ∷ ts) [] h = absurd h
  timeline_same (t ∷ ts) (u ∷ us) (s, h) = ground (
    arith,
    s.from_state,
    s.to_state,
    s.worker_id,
    s.created_at,
    s.has_reason,
    s.reason,
    timeline_same ts us h,
  )

  is_failure_same : (t u : TransitionRow) → SameTransition l t u → is_failure t ≡ is_failure u
  unfolding is_failure
  is_failure_same t u s = ground (arith, s.from_state, s.to_state)

  attempts_same :
      (n : ℕ) (ts us : List TransitionRow)
      → SameHistory l ts us
      → attempts_from l n ts ≡ attempts_from l n us
  unfolding attempts_from
  attempts_same n [] [] h = refl
  attempts_same n [] (u ∷ us) h = absurd h
  attempts_same n (t ∷ ts) [] h = absurd h
  attempts_same n (t ∷ ts) (u ∷ us) (s, h) = ground (
    arith,
    is_failure_same t u s,
    s.worker_id,
    s.created_at,
    s.reason,
    attempts_same n ts us h,
    attempts_same (suc n) ts us h,
  )

  last_time_same :
      (n : ℕ) (ts us : List TransitionRow) → SameHistory l ts us → last_time n ts ≡ last_time n us
  unfolding last_time
  last_time_same n [] [] h = refl
  last_time_same n [] (u ∷ us) h = absurd h
  last_time_same n (t ∷ ts) [] h = absurd h
  last_time_same n (t ∷ ts) (u ∷ us) (s, h) =
      ap (λ m. last_time m ts) s.created_at ∙ last_time_same u.created_at ts us h

  elapsed_same :
      (ts us : List TransitionRow) → SameHistory l ts us → elapsed_text l ts ≡ elapsed_text l us
  unfolding elapsed_text
  elapsed_same [] [] h = refl
  elapsed_same [] (u ∷ us) h = absurd h
  elapsed_same (t ∷ ts) [] h = absurd h
  elapsed_same (t ∷ []) (u ∷ []) h = refl
  elapsed_same (t ∷ []) (u ∷ v ∷ us) h = absurd h.1
  elapsed_same (t ∷ s ∷ ts) (u ∷ []) h = absurd h.1
  elapsed_same (t ∷ s ∷ ts) (u ∷ v ∷ us) (p, (q, h)) =
      cc (p.created_at, last_time_same 0 (s ∷ ts) (v ∷ us) (q, h))

  -- A report tells of a payload and of the reasons of transitions only what is left of them after
  -- ScrubSecrets, and whether a reason is empty: jobs and histories that differ in no more give the
  -- same report, its cause and recommendations included.
  pub build_report_same :
      (now : ℕ) (job_id : String) (r r' : JobRow) (ts us : List TransitionRow)
      → SameJob l r r'
      → SameHistory l ts us
      → build_report l now job_id r ts ≡ build_report l now job_id r' us
  unfolding build_report
  build_report_same now job_id r r' ts us j h = ground (
    arith,
    timeline_same ts us h,
    attempts_same 0 ts us h,
    elapsed_same ts us h,
    j.tenant_id,
    ap codes j.priority,
    j.retry_count,
    j.payload,
  )
