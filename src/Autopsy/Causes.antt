-- ===== src/Autopsy/Causes.antt =====
-- The probable cause against what the errors say.
use distributed_scheduler.Prelude.{
  ℕ, ◌≤◌, ◌≡◌, refl, ◌≢◌, ◌⊎◌, inl, inr, sym, true, not, ◌&&◌, List, [], ◌∷◌, All, if_elim, arith,
  Bool-cases, All-imp, ◌∙◌,
}
use distributed_scheduler.Texts.{Text, text_eq, contains, to_lower}
use distributed_scheduler.Texts.Substrings.{
  Contains, contains-Contains, Contains-contains, eq_of_text_eq, text_eq_of_eq,
}
use distributed_scheduler.Autopsy.{
  Library, AttemptDetail, Cause, no_attempts, consistent_timeout, unavailable, rejected, same_error,
  same_worker, intermittent, mentions, timeout_marks, connection_marks, rejection_marks,
  all_mention, all_same_error, all_same_worker, cause_of,
}

-- One of the marks stands in the error, in any capitals.
abbrev pub Mentions : Library → List Text → Text → Type 0
Mentions l [] error = ⊥
Mentions l (mark ∷ marks) error =
    Contains (to_lower l.case_table error) mark ⊎ Mentions l marks error

abbrev pub AllMention : Library → List Text → List AttemptDetail → Type 0
AllMention l marks attempts = All (λ a. Mentions l marks a.error) attempts

abbrev pub Explains : Library → Cause → List AttemptDetail → Type 0
Explains l no_attempts attempts = attempts ≡ []
Explains l consistent_timeout attempts = AllMention l timeout_marks attempts
Explains l unavailable attempts = AllMention l connection_marks attempts
Explains l rejected attempts = AllMention l rejection_marks attempts
Explains l (same_error e) attempts = All (λ a. a.error ≡ e) attempts
Explains l (same_worker w) attempts = All (λ a. a.worker_id ≡ w) attempts × (w ≢ [])
Explains l intermittent attempts = Unit

abbrev pub rank : Cause → ℕ
rank no_attempts = 0
rank consistent_timeout = 1
rank unavailable = 2
rank rejected = 3
rank (same_error e) = 4
rank (same_worker w) = 5
rank intermittent = 6

module _ (l : Library) where
  mentions-Mentions :
      (marks : List Text) (e : Text) → mentions l marks e ≡ true → Mentions l marks e
  unfolding mentions
  mentions-Mentions [] e h = absurd cc
  mentions-Mentions (mark ∷ marks) e h =
      elim (Bool-cases (contains (to_lower l.case_table e) mark)) [
        | inl c ↦ inl (contains-Contains (to_lower l.case_table e) mark c)
        | inr c ↦ inr (mentions-Mentions marks e (ground arith))
      ]

  Mentions-mentions :
      (marks : List Text) (e : Text) → Mentions l marks e → mentions l marks e ≡ true
  unfolding mentions
  Mentions-mentions [] e h = absurd h
  Mentions-mentions (mark ∷ marks) e (inl c) =
      rw (Contains-contains (to_lower l.case_table e) mark c) refl
  Mentions-mentions (mark ∷ marks) e (inr h) = ground (arith, Mentions-mentions marks e h)

  all_mention-AllMention :
      (marks : List Text) (attempts : List AttemptDetail)
      → all_mention l marks attempts ≡ true
      → AllMention l marks attempts
  unfolding all_mention
  all_mention-AllMention marks [] h = tt
  all_mention-AllMention marks (a ∷ attempts) h = (
    mentions-Mentions marks a.error (ground arith),
    all_mention-AllMention marks attempts (ground arith),
  )

  AllMention-all_mention :
      (marks : List Text) (attempts : List AttemptDetail)
      → AllMention l marks attempts
      → all_mention l marks attempts ≡ true
  unfolding all_mention
  AllMention-all_mention marks [] h = refl
  AllMention-all_mention marks (a ∷ attempts) (m, h) =
      rw (Mentions-mentions marks a.error m) (AllMention-all_mention marks attempts h)

all_same_error-All :
    (e : Text) (attempts : List AttemptDetail)
    → all_same_error e attempts ≡ true
    → All (λ a. a.error ≡ e) attempts
unfolding all_same_error
all_same_error-All e [] h = tt
all_same_error-All e (a ∷ attempts) h =
    (eq_of_text_eq a.error e (ground arith), all_same_error-All e attempts (ground arith))

All-all_same_error :
    (e : Text) (attempts : List AttemptDetail)
    → All (λ a. a.error ≡ e) attempts
    → all_same_error e attempts ≡ true
unfolding all_same_error
All-all_same_error e [] h = refl
All-all_same_error e (a ∷ attempts) (p, h) =
    rw (text_eq_of_eq a.error e p) (All-all_same_error e attempts h)

all_same_worker-All :
    (w : Text) (attempts : List AttemptDetail)
    → all_same_worker w attempts ≡ true
    → All (λ a. a.worker_id ≡ w) attempts
unfolding all_same_worker
all_same_worker-All w [] h = tt
all_same_worker-All w (a ∷ attempts) h =
    (eq_of_text_eq a.worker_id w (ground arith), all_same_worker-All w attempts (ground arith))

All-all_same_worker :
    (w : Text) (attempts : List AttemptDetail)
    → All (λ a. a.worker_id ≡ w) attempts
    → all_same_worker w attempts ≡ true
unfolding all_same_worker
All-all_same_worker w [] h = refl
All-all_same_worker w (a ∷ attempts) (p, h) =
    rw (text_eq_of_eq a.worker_id w p) (All-all_same_worker w attempts h)

ne-nil_of_not : (w : Text) → not (text_eq w []) ≡ true → w ≢ []
unfolding text_eq
ne-nil_of_not [] h e = cc
ne-nil_of_not (c ∷ w) h e = cc

not_of-ne-nil : (w : Text) → w ≢ [] → not (text_eq w []) ≡ true
unfolding text_eq
not_of-ne-nil [] n = absurd (n refl)
not_of-ne-nil (c ∷ w) n = refl

cause_of-Explains :
    (l : Library) (attempts : List AttemptDetail) → Explains l (cause_of l attempts) attempts
unfolding cause_of
cause_of-Explains l [] = refl
cause_of-Explains l (a ∷ attempts) =
    let whole : List AttemptDetail = a ∷ attempts in
    if_elim (λ c. Explains l c whole) (all_mention l timeout_marks whole)
      (all_mention-AllMention l timeout_marks whole)
      λ _.
        if_elim (λ c. Explains l c whole) (all_mention l connection_marks whole)
          (all_mention-AllMention l connection_marks whole)
          λ _.
            if_elim (λ c. Explains l c whole) (all_mention l rejection_marks whole)
              (all_mention-AllMention l rejection_marks whole)
              λ _.
                if_elim (λ c. Explains l c whole) (all_same_error a.error attempts)
                  (λ h. (refl, all_same_error-All a.error attempts h))
                  λ _.
                    if_elim (λ c. Explains l c whole)
                      (all_same_worker a.worker_id attempts && not (text_eq a.worker_id []))
                      (λ h. (
                        (refl, all_same_worker-All a.worker_id attempts (ground arith)),
                        ne-nil_of_not a.worker_id (ground arith),
                      ))
                      (λ _. tt)

rank-le : (c : Cause) → rank c ≤ 6
rank-le no_attempts = omega arith
rank-le consistent_timeout = omega arith
rank-le unavailable = omega arith
rank-le rejected = omega arith
rank-le (same_error e) = omega arith
rank-le (same_worker w) = omega arith
rank-le intermittent = omega arith

cause_of-rank :
    (l : Library) (c : Cause) (attempts : List AttemptDetail)
    → Explains l c attempts
    → rank (cause_of l attempts) ≤ rank c
unfolding cause_of
cause_of-rank l intermittent attempts h = rank-le (cause_of l attempts)
cause_of-rank l no_attempts [] h = omega arith
cause_of-rank l no_attempts (a ∷ attempts) h = absurd cc
cause_of-rank l consistent_timeout [] h = omega arith
cause_of-rank l consistent_timeout (a ∷ attempts) h =
    ground (arith, AllMention-all_mention l timeout_marks (a ∷ attempts) h)
cause_of-rank l unavailable [] h = omega arith
cause_of-rank l unavailable (a ∷ attempts) h =
    ground (arith, AllMention-all_mention l connection_marks (a ∷ attempts) h)
cause_of-rank l rejected [] h = omega arith
cause_of-rank l rejected (a ∷ attempts) h =
    ground (arith, AllMention-all_mention l rejection_marks (a ∷ attempts) h)
cause_of-rank l (same_error e) [] h = omega arith
cause_of-rank l (same_error e) (a ∷ attempts) (p, h) =
    let same = All-imp (λ (b : AttemptDetail). b.error ≡ e) (λ b q. q ∙ sym p) attempts h in
    ground (arith, All-all_same_error a.error attempts same)
cause_of-rank l (same_worker w) [] h = omega arith
cause_of-rank l (same_worker w) (a ∷ attempts) ((p, h), n) =
    let same = All-imp (λ (b : AttemptDetail). b.worker_id ≡ w) (λ b q. q ∙ sym p) attempts h in
    let m = not_of-ne-nil a.worker_id (λ e. n (sym p ∙ e)) in
    ground (arith, All-all_same_worker a.worker_id attempts same)

-- The cause that classifyCause gives explains the attempts, and comes first among all that do, in
-- the order: no attempts; every error mentions a timeout; every error mentions a failed connection;
-- every error mentions a rejected command; all errors are the same; all attempts have the same
-- worker, which is known; intermittent, which explains anything.
pub cause_of_lem :
    (l : Library) (attempts : List AttemptDetail) (c : Cause)
    → Explains l c attempts
    → Explains l (cause_of l attempts) attempts × (rank (cause_of l attempts) ≤ rank c)
cause_of_lem l attempts c h = (cause_of-Explains l attempts, cause_of-rank l c attempts h)
