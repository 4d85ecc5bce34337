-- ===== src/Db/Rules.antt =====
-- Proof rules for a chain of statements: a relation between the tables before and after that is a
-- preorder, and that each statement respects, is respected by the whole, whatever the server does.
use distributed_scheduler.Prelude.{ℕ, ◌≡◌, refl, Bool, true, false}
use distributed_scheduler.Db.{
  Db, Env, Link, Session, Error, Result, ok, err, is_err, M, return, throw, continue, ◌>>=◌, ◌>>◌,
  guard, draw, attempt, deliver, statement,
}

pub record IsPreorder {ℓ} (R : Db → Db → Type ℓ) : Type ℓ where
  pub refl_at : (d : Db) → R d d
  pub trans_at : (d e f : Db) → R d e → R e f → R d f

abbrev pub Respects {ℓ} : (R : Db → Db → Type ℓ) → {A : Type 0} → M A → Type ℓ
Respects R m = (s : Session) → R s.db (m s).1.db

module _ {ℓ} {R : Db → Db → Type ℓ} (o : IsPreorder R) where
  pub return-Respects : {A : Type 0} (a : A) → Respects R (return a)
  unfolding return
  return-Respects a s = o.refl_at s.db

  pub throw-Respects : (A : Type 0) (x : Error) → Respects R (throw {A = A} x)
  unfolding throw
  throw-Respects A x s = o.refl_at s.db

  pub guard-Respects : (b : Bool) (x : Error) → Respects R (guard b x)
  unfolding guard
  guard-Respects true x s = o.refl_at s.db
  guard-Respects false x s = o.refl_at s.db

  pub draw-Respects : (e : Env) → Respects R (draw e)
  unfolding draw
  draw-Respects e s = o.refl_at s.db

  continue-Respects :
      {A B : Type 0} (d : Db) (r : Result A) (f : A → M B) (s : Session)
      → R d s.db
      → ((a : A) → Respects R (f a))
      → R d (continue r f s).1.db
  unfolding continue
  continue-Respects d (ok a) f s h k = o.trans_at d s.db _ h (k a s)
  continue-Respects d (err x) f s h k = h

  pub bind-Respects :
      {A B : Type 0} (m : M A) (f : A → M B)
      → Respects R m
      → ((a : A) → Respects R (f a))
      → Respects R (m >>= f)
  unfolding ◌>>=◌
  bind-Respects m f h k s = continue-Respects s.db (m s).0 f (m s).1 (h s) k

  pub then-Respects :
      {A B : Type 0} (m : M A) (k : M B) → Respects R m → Respects R k → Respects R (m >> k)
  unfolding ◌>>◌
  then-Respects m k h g = bind-Respects m (λ _. k) h (λ _. g)

  pub attempt-Respects : {A : Type 0} (m : M A) → Respects R m → Respects R (attempt m)
  unfolding attempt
  attempt-Respects m h s = h s

  deliver-Respects :
      {A : Type 0} (l : Link) (x : Result A × Db) (s : Session)
      → R s.db x.1
      → R s.db (deliver l x s).1.db
  unfolding deliver
  deliver-Respects Link.answered x s h = h
  deliver-Respects Link.request_lost x s h = o.refl_at s.db
  deliver-Respects Link.reply_lost x s h = h

  pub statement-Respects :
      {A : Type 0} (e : Env) (body : ℕ → Db → Result A × Db)
      → ((n : ℕ) (d : Db) → R d (body n d).1)
      → Respects R (statement e body)
  unfolding statement
  statement-Respects e body h s =
      deliver-Respects (e.link s.sent) (body s.sent s.db) s (h s.sent s.db)

-- A property of the tables is kept: the preorder of an invariant.
abbrev pub Keeps {ℓ} : (Db → Type ℓ) → Db → Db → Type ℓ
Keeps P d e = P d → P e

pub Keeps-IsPreorder {ℓ} : (P : Db → Type ℓ) → IsPreorder (Keeps P)
Keeps-IsPreorder P = record { refl_at = λ d h. h; trans_at = λ d e f g k h. k (g h) }

-- A call that fails and leaves the tables `d` as they are.
abbrev pub Refuses : {A : Type 0} → Db → M A → Type 0
Refuses d m = (s : Session) → s.db ≡ d → ((m s).1.db ≡ d) × (is_err (m s).0 ≡ true)

continue-Refuses :
    {A B : Type 0} (d : Db) (r : Result A) (f : A → M B) (s : Session)
    → s.db ≡ d
    → ((a : A) → Refuses d (f a))
    → ((continue r f s).1.db ≡ d) × (is_err (continue r f s).0 ≡ true)
unfolding continue
continue-Refuses d (ok a) f s h k = k a s h
continue-Refuses d (err x) f s h k = (h, refl)

-- Reads before a call that is refused.
pub bind-Refuses :
    {A B : Type 0} (d : Db) (m : M A) (f : A → M B)
    → ((s : Session) → s.db ≡ d → (m s).1.db ≡ d)
    → ((a : A) → Refuses d (f a))
    → Refuses d (m >>= f)
unfolding ◌>>=◌
bind-Refuses d m f h k s e = continue-Refuses d (m s).0 f (m s).1 (h s e) k
