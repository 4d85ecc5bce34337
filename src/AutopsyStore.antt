-- ===== src/AutopsyStore.antt =====
-- internal/db/autopsystore.go and StoreAutopsy of internal/autopsy/report.go: the table of reports.
use distributed_scheduler.Prelude.{
  ℕ, String, Bool, ◌&&◌, List, [], ◌∷◌, ◌++◌, take, if◌then◌else◌, str_eq, ltb, select, first,
  order_by,
}
use distributed_scheduler.Prelude.Int.{ℤ, pos, negsuc}
use distributed_scheduler.Db.{
  Env, StoredAutopsy, Error, Result, ok, err, unique_violation, foreign_key_violation, no_autopsy,
  M, throw, ◌>>=◌, statement, scan_row, return,
}
use distributed_scheduler.JobStore.Queries.{is_some, by_id}
use distributed_scheduler.Autopsy.{AutopsyReport, Library}

abbrev pub from_result : {A : Type 0} → Result A → M A
from_result (ok a) = return a
from_result (err x) = throw x

abbrev pub new_autopsy : Env → Library → ℕ → AutopsyReport → String → StoredAutopsy
new_autopsy e l n report json = record {
  id = e.uuid n;
  job_id = report.job_id;
  tenant_id = report.tenant_id;
  report = l.jsonb json;
  created_at = e.clock n;
}

-- INSERT INTO autopsy_reports; the id is the primary key, and the job a foreign key.
unfoldable pub insert_autopsy : Env → Library → AutopsyReport → String → M (Unit {0})
unfolding statement
insert_autopsy e l report json = statement e λ n d.
    if is_some (first (λ a. str_eq a.id (e.uuid n)) d.autopsies)
    then (err unique_violation, d)
    else if is_some (first (by_id report.job_id) d.jobs)
    then (ok tt, record d { autopsies = d.autopsies ++ new_autopsy e l n report json ∷ [] })
    else (err foreign_key_violation, d)

-- StoreAutopsy
unfoldable pub store_autopsy : Env → Library → AutopsyReport → M (Unit {0})
unfolding ◌>>=◌ return throw insert_autopsy
store_autopsy e l report = do json ← from_result (l.marshal report); insert_autopsy e l report json

abbrev pub about_job : String → String → StoredAutopsy → Bool
about_job job_id tenant_id a = str_eq a.job_id job_id && str_eq a.tenant_id tenant_id

abbrev pub no_rows_as : Result StoredAutopsy → Result StoredAutopsy
no_rows_as (err Error.no_rows) = err no_autopsy
no_rows_as r = r

-- GetAutopsyByJobID
unfoldable pub get_autopsy_by_job_id : Env → String → String → M StoredAutopsy
unfolding statement scan_row
get_autopsy_by_job_id e job_id tenant_id =
    statement e λ n d. (no_rows_as (scan_row (first (about_job job_id tenant_id) d.autopsies)), d)

-- 20 where the limit is not positive, and 100 at most
unfoldable pub clamp_limit : ℤ → ℕ
clamp_limit (negsuc n) = 20
clamp_limit (pos ℕ.zero) = 20
clamp_limit (pos n) = if ltb 100 n then 100 else n

-- ListAutopsies
unfoldable pub list_autopsies : Env → String → ℤ → M (List StoredAutopsy)
unfolding statement
list_autopsies e tenant_id limit = statement e λ n d. (
  ok (
      take (clamp_limit limit) (
        order_by (λ y x. ltb x.created_at y.created_at)
          (select (λ a. str_eq a.tenant_id tenant_id) d.autopsies))),
  d,
)
