-- ===== src/Server/AutopsyRpcs.antt =====
-- generateAutopsy and the handlers on autopsies of scheduler/scheduler.go.
pub mod Reading
use distributed_scheduler.Prelude.{
  ℕ, String, Bool, true, false, ◌||◌, List, [], ◌∷◌, map, if◌then◌else◌, str_eq,
}
use distributed_scheduler.Prelude.Int.{ℤ}
use distributed_scheduler.Db.{Env, StoredAutopsy, Result, ok, err, M, return, attempt, ◌>>=◌, ◌>>◌}
use distributed_scheduler.Texts.{Text}
use distributed_scheduler.Autopsy.{Library, generate_report}
use distributed_scheduler.AutopsyStore.{store_autopsy, get_autopsy_by_job_id, list_autopsies}
use distributed_scheduler.Server.Rpc.{Rpc, reply, status, invalid_argument, internal, not_found}

-- generateAutopsy. An error of either call is logged, and ends it.
unfoldable pub generate_autopsy : Env → Library → ℕ → String → M (Unit {0})
unfolding ◌>>=◌ ◌>>◌ attempt return
generate_autopsy e l now job_id = do
  attempt (generate_report e l now job_id >>= λ report. store_autopsy e l report)
  return tt

pub record GetAutopsyResponse : Type 0 where
  pub found : Bool
  pub report_json : String
  pub message : String

get_reply : Result StoredAutopsy → Rpc GetAutopsyResponse
get_reply (ok a) = reply (record { found = true; report_json = a.report; message = "ok" })
get_reply (err x) = status not_found

-- GetAutopsy
unfoldable pub handle_get_autopsy : Env → String → String → M (Rpc GetAutopsyResponse)
unfolding get_reply ◌>>=◌ attempt return
handle_get_autopsy e job_id tenant_id =
    if str_eq job_id "" || str_eq tenant_id ""
    then return (status invalid_argument)
    else do r ← attempt (get_autopsy_by_job_id e job_id tenant_id); return (get_reply r)

pub record AutopsySummary : Type 0 where
  pub id : String
  pub job_id : String
  pub tenant_id : String
  pub created_at : Text

pub record ListAutopsiesResponse : Type 0 where
  pub autopsies : List AutopsySummary
  pub message : String

unfoldable pub summary : Library → StoredAutopsy → AutopsySummary
summary l a = record {
  id = a.id;
  job_id = a.job_id;
  tenant_id = a.tenant_id;
  created_at = l.format_time a.created_at;
}

list_reply : Library → Result (List StoredAutopsy) → Rpc ListAutopsiesResponse
list_reply l (ok autopsies) =
    reply (record { autopsies = map (summary l) autopsies; message = "ok" })
list_reply l (err x) = status internal

-- ListAutopsies
unfoldable pub handle_list_autopsies : Env → Library → String → ℤ → M (Rpc ListAutopsiesResponse)
unfolding list_reply summary ◌>>=◌ attempt return
handle_list_autopsies e l tenant_id limit =
    if str_eq tenant_id ""
    then return (status invalid_argument)
    else do r ← attempt (list_autopsies e tenant_id limit); return (list_reply l r)
