-- ===== src/Db.antt =====
-- internal/db/db.go and internal/db/schema.sql: the tables, and a client's view of the server.
-- PostgreSQL itself is not in the repository. `Env` stands for it: what becomes of the n-th
-- statement that is sent, the server's clock at it, the UUID that it draws, and the rows that other
-- sessions hold locked. It also holds what the Go runtime leaves open: the draw of math/rand made
-- before that statement, and the conversion of a float64 to int64, which is the machine's where it
-- overflows. A statement reads and changes the tables as its SQL says; constraints are the
-- schema's.
pub mod Rules
use distributed_scheduler.Prelude.{ℕ, suc, String, Bool, true, false, Option, List, if◌then◌else◌}
use distributed_scheduler.Prelude.Int.{ℤ}
use distributed_scheduler.Models.{JobStatus, JobPriority, JobTransition, Worker, Schedule}

-- A row of the table `jobs`; the run timeout is in milliseconds.
pub record JobRow : Type 0 where
  pub id : String
  pub request_id : String
  pub tenant_id : String
  pub status : JobStatus
  pub priority : JobPriority
  pub payload : String
  pub max_retries : ℕ
  pub retry_count : ℕ
  pub last_error : Option String
  pub assigned_worker : Option String
  pub lease_id : Option String
  pub lease_expires_at : Option ℕ
  pub lease_version : ℕ
  pub run_timeout_ms : ℕ
  pub retry_after : Option ℕ
  pub created_at : ℕ
  pub updated_at : ℕ
  pub dispatched_at : Option ℕ
  pub started_at : Option ℕ
  pub completed_at : Option ℕ

pub record TenantQuota : Type 0 where
  pub tenant_id : String
  pub max_schedules : ℕ

pub record StoredAutopsy : Type 0 where
  pub id : String
  pub job_id : String
  pub tenant_id : String
  pub report : String
  pub created_at : ℕ

pub record Db : Type 0 where
  pub jobs : List JobRow
  pub transitions : List JobTransition
  pub workers : List Worker
  pub schedules : List Schedule
  pub quotas : List TenantQuota
  pub autopsies : List StoredAutopsy

-- What becomes of a statement. A lost reply is an error to the client after the server has acted.
pub data Link : Type 0 where
  answered request_lost reply_lost : Link

pub record Env : Type 0 where
  pub link : ℕ → Link
  pub clock : ℕ → ℕ
  pub uuid : ℕ → String
  pub locked : ℕ → String → Bool
  pub rand : ℕ → ℕ → ℕ
  pub to_float64 : ℕ → ℕ
  pub to_int64 : ℕ → ℤ

pub record Session : Type 0 where
  pub db : Db
  pub sent : ℕ

-- The errors of the driver, the constraints of the schema, and those that the stores make.
pub data Error : Type 0 where
  query_failed no_rows unique_violation foreign_key_violation : Error
  stale_lease cannot_be_cancelled not_active quota_reached not_found no_autopsy : Error

pub data Result {ℓ} (A : Type ℓ) : Type ℓ where
  ok : A → Result A
  err : Error → Result A

abbrev pub is_err {ℓ} : {A : Type ℓ} → Result A → Bool
is_err (ok a) = false
is_err (err e) = true

abbrev pub M : Type 0 → Type 0
M A = Session → Result A × Session

unfoldable pub return : {A : Type 0} → A → M A
return a s = (ok a, s)

unfoldable pub throw : {A : Type 0} → Error → M A
throw e s = (err e, s)

unfoldable pub continue : {A B : Type 0} → Result A → (A → M B) → M B
continue (ok a) f s = f a s
continue (err e) f s = (err e, s)

infixl 5 ◌>>=◌ ◌>>◌
unfoldable pub ◌>>=◌ : {A B : Type 0} → M A → (A → M B) → M B
unfolding continue
◌>>=◌ m f s = let (r, s') = m s in continue r f s'

unfoldable pub ◌>>◌ : {A B : Type 0} → M A → M B → M B
unfolding ◌>>=◌
m >> k = m >>= λ _. k

unfoldable pub guard : Bool → Error → M (Unit {0})
unfolding return throw
guard b e = if b then return tt else throw e

-- math/rand, as it is before the next statement
unfoldable pub draw : Env → M (ℕ → ℕ)
draw e s = (ok (e.rand s.sent), s)

-- The result of a call as a value: the caller looks at the error.
unfoldable pub attempt : {A : Type 0} → M A → M (Result A)
attempt m s = let (r, s') = m s in (ok r, s')

unfoldable pub deliver : {A : Type 0} → Link → Result A × Db → Session → Result A × Session
deliver Link.answered (r, d) s = (r, record { db = d; sent = suc s.sent })
deliver Link.request_lost (r, d) s = (err query_failed, record s { sent = suc s.sent })
deliver Link.reply_lost (r, d) s = (err query_failed, record { db = d; sent = suc s.sent })

-- One statement: `body` is given the statement's number, for its clock and its UUID.
unfoldable pub statement : {A : Type 0} → Env → (ℕ → Db → Result A × Db) → M A
unfolding deliver
statement e body s = deliver (e.link s.sent) (body s.sent s.db) s

-- A row that must be there: pgx's Scan of an empty result is ErrNoRows.
unfoldable pub scan_row : {A : Type 0} → Option A → Result A
scan_row Option.none = err no_rows
scan_row (Option.some a) = ok a
