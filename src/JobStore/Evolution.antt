-- ===== src/JobStore/Evolution.antt =====
-- The table `jobs` of internal/db/schema.sql over time: its rows move along the machine and stay in
-- their places, and new rows come in behind them.
use distributed_scheduler.Prelude.{
  Bool, true, List, [], ◌∷◌, ◌++◌, ◌≡◌, update, All, if_elim, Distinct, Lacks, Distinct-update,
  Distinct-append,
}
use distributed_scheduler.Db.{Db, JobRow}
use distributed_scheduler.Db.Rules.{IsPreorder}
use distributed_scheduler.JobStore.Machine.{IsFresh, Kind, Move, Reach, here, next, Reach-trans}

-- The primary key, and the UNIQUE of request_id.
pub record HasKeys (d : Db) : Type 0 where
  pub ids : Distinct (λ r. r.id) d.jobs
  pub request_ids : Distinct (λ r. r.request_id) d.jobs

-- The kinds of step that are let through.
module _ (K : Kind → Type 0) where
  -- A row that came in after: inserted fresh, and moved since.
  abbrev pub Born : JobRow → Type 0
  Born y = (x : JobRow) × IsFresh x × Reach K x y

  -- Each row of the first table stands in the second at the same place, moved along the machine; rows
  -- behind them were born since.
  abbrev pub Evolves : List JobRow → List JobRow → Type 0
  Evolves [] ys = All Born ys
  Evolves (x ∷ xs) [] = ⊥
  Evolves (x ∷ xs) (y ∷ ys) = Reach K x y × Evolves xs ys

  pub Evolves-refl : (xs : List JobRow) → Evolves xs xs
  Evolves-refl [] = tt
  Evolves-refl (x ∷ xs) = (here, Evolves-refl xs)

  Born-later : (ys zs : List JobRow) → All Born ys → Evolves ys zs → All Born zs
  Born-later [] zs h k = k
  Born-later (y ∷ ys) [] h k = absurd k
  Born-later (y ∷ ys) (z ∷ zs) ((x, f, r), h) k =
      ((x, f, Reach-trans x r k.0), Born-later ys zs h k.1)

  pub Evolves-trans : (xs ys zs : List JobRow) → Evolves xs ys → Evolves ys zs → Evolves xs zs
  Evolves-trans [] ys zs h k = Born-later ys zs h k
  Evolves-trans (x ∷ xs) [] zs h k = absurd h
  Evolves-trans (x ∷ xs) (y ∷ ys) [] h k = absurd k
  Evolves-trans (x ∷ xs) (y ∷ ys) (z ∷ zs) h k =
      (Reach-trans x h.0 k.0, Evolves-trans xs ys zs h.1 k.1)

  update-Evolves :
      (p : JobRow → Bool) (f : JobRow → JobRow) (xs : List JobRow)
      → All (λ x. p x ≡ true → Move K x (f x)) xs
      → Evolves xs (update p f xs)
  unfolding update
  update-Evolves p f [] h = tt
  update-Evolves p f (x ∷ xs) h =
      (if_elim (Reach K x) (p x) (λ e. next here (h.0 e)) (λ e. here), update-Evolves p f xs h.1)

  append-Evolves : (xs : List JobRow) (y : JobRow) → Born y → Evolves xs (xs ++ y ∷ [])
  append-Evolves [] y b = (b, tt)
  append-Evolves (x ∷ xs) y b = (here, append-Evolves xs y b)

  -- The keys hold after if they held before, and then the rows moved along the machine.
  abbrev pub Refines : Db → Db → Type 0
  Refines d d' = HasKeys d → Evolves d.jobs d'.jobs × HasKeys d'

  pub Refines-IsPreorder : IsPreorder Refines
  Refines-IsPreorder = record {
    refl_at = λ d h. (Evolves-refl d.jobs, h);
    trans_at = λ d e f g k h.
        let (a, h') = g h in let (b, h'') = k h' in (Evolves-trans d.jobs e.jobs f.jobs a b, h'');
  }

  -- The tables beside `jobs` do not matter.
  pub same_jobs-Refines : (d d' : Db) → d'.jobs ≡ d.jobs → Refines d d'
  same_jobs-Refines d d' e h =
      (rw e (Evolves-refl d.jobs), record { ids = rw e h.ids; request_ids = rw e h.request_ids })

  module _ (d : Db) where
    pub update-Refines :
        (p : JobRow → Bool) (f : JobRow → JobRow)
        → ((x : JobRow) → (f x).id ≡ x.id)
        → ((x : JobRow) → (f x).request_id ≡ x.request_id)
        → (HasKeys d → All (λ x. p x ≡ true → Move K x (f x)) d.jobs)
        → Refines d (record d { jobs = update p f d.jobs })
    update-Refines p f same_id same_request steps h = (
      update-Evolves p f d.jobs (steps h),
      record {
        ids = Distinct-update (λ r. r.id) p f same_id d.jobs h.ids;
        request_ids = Distinct-update (λ r. r.request_id) p f same_request d.jobs h.request_ids;
      },
    )

    pub insert-Refines :
        (y : JobRow)
        → IsFresh y
        → Lacks (λ r. r.id) y.id d.jobs
        → Lacks (λ r. r.request_id) y.request_id d.jobs
        → Refines d (record d { jobs = d.jobs ++ y ∷ [] })
    insert-Refines y f no_id no_request h = (
      append-Evolves d.jobs y (y, f, here),
      record {
        ids = Distinct-append (λ r. r.id) d.jobs y h.ids no_id;
        request_ids = Distinct-append (λ r. r.request_id) d.jobs y h.request_ids no_request;
      },
    )
