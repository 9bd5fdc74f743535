-- ===== src/Server.antt =====
-- agent_os/server/api.py: the requests that approve and cancel a run, and the tasks that execute one.
pub mod Requests
mod Tests
use agent_os_langgraph.Prelude.{
  ℕ, ◌≡◌, Bool, true, false, ◌&&◌, ◌||◌, not, Option, none, some, List, [], ◌∷◌, is_empty,
  if◌then◌else◌,
}
use agent_os_langgraph.Text.{Str, text, str_eq, mem_str}
use agent_os_langgraph.Policy.Local.Sessions.{Grants, clear_session}
use agent_os_langgraph.Runs.{
  Run, Ledger, Decision, get_run, status_is, record_approval_and_transition,
  record_cancellation_and_transition, terminal_run_statuses,
}
use agent_os_langgraph.RunExecutor.{JsonObject, status_event}

-- The ledger, the grants of the sessions, and the runs whose task in `ACTIVE_RUN_TASKS` is not done.
pub record Api : Type 0 where
  pub ledger : Ledger
  pub grants : Grants
  pub active : List Str

-- A response: a status code with its detail, or the status of the run.
pub data Response : Type 0 where
  not_found : Response
  conflict : (detail : Str) → Response
  run_status : (status : Str) → Response

-- Who asks, as `LocalPrincipalResolver` resolves it.
pub record Asker : Type 0 where
  pub id : Str
  pub kind : Str
  pub on_behalf_of : Option Str

-- `_start_run_task`, with whether a task was started
unfoldable pub start_run_task : Str → Api → Bool × Api
start_run_task id s =
    if mem_str id s.active then (false, s) else (true, record s { active = id ∷ s.active })

-- What an approval does: the response, whether a task was started, and the state.
pub record Approved : Type 0 where
  pub response : Response
  pub started : Bool
  pub api : Api

abbrev pub refuse : Response → Api → Approved
refuse r s = record { response = r; started = false; api = s }

abbrev not_interrupted : Response
not_interrupted = conflict (text "Run is not interrupted")

-- The transition was lost to another request.
abbrev pub lost_approval : Str → Api → Approved
lost_approval id s =
    if status_is (text "running") (get_run id s.ledger)
    then refuse (run_status (text "running")) s
    else refuse not_interrupted s

-- `request.feedback or None`
abbrev given : Str → Option Str
given f = if is_empty f then none else some f

abbrev pub approval : Str → Asker → Decision
approval feedback p = record {
  decision = text "approved";
  actor_id = p.id;
  actor_kind = p.kind;
  on_behalf_of = p.on_behalf_of;
  reason = given feedback;
}

abbrev pub resumed : Str → Bool × Api → Approved
resumed id (started, s) = record {
  response = run_status (text "running");
  started = started;
  api = s;
}

abbrev pub approve_transition : Str → Api → Bool × Ledger → Approved
approve_transition id s (won, l) =
    if won then resumed id (start_run_task id (record s { ledger = l })) else lost_approval id s

abbrev pub approve_seen : Str → ℕ → Str → Asker → Option Run → Api → Approved
approve_seen id now feedback p none s = refuse not_found s
approve_seen id now feedback p (some r) s =
    if str_eq r.status (text "interrupted")
    then approve_transition id s (
        record_approval_and_transition id now (approval feedback p) (text "interrupted")
          (text "running") none false s.ledger)
    else if str_eq r.status (text "running")
    then refuse (run_status (text "running")) s
    else refuse not_interrupted s

-- `approve_run_endpoint`; another process may have written between the first read, `seen`, and the
-- transaction.
unfoldable pub approve_run : Str → ℕ → Str → Asker → Option Run → Api → Approved
unfolding start_run_task
approve_run id now feedback p seen s = approve_seen id now feedback p seen s

abbrev pub cancellation : Asker → Decision
cancellation p = record {
  decision = text "cancelled";
  actor_id = p.id;
  actor_kind = p.kind;
  on_behalf_of = p.on_behalf_of;
  reason = none;
}

abbrev pub terminal_detail : Response
terminal_detail = conflict (text "Run is already terminal")

module _ (dumps : JsonObject → Str) (loads : Str → Option (Option Str × List Str)) where
  -- The row was gone, or terminal, at the transaction.
  abbrev pub lost_cancellation : Option Run → Response
  lost_cancellation none = not_found
  lost_cancellation (some r) = terminal_detail

  -- The task of the run is asked to stop; it stays active until it is done.
  abbrev pub cancel_transition : Str → ℕ → Api → Bool × Ledger → Response × Api
  cancel_transition id now s (won, l) =
      if won
      then (
        run_status (text "cancelled"),
        record s {
          ledger = status_event dumps loads id now (text "cancelled") l;
          grants = clear_session id s.grants;
        },
      )
      else (lost_cancellation (get_run id s.ledger), s)

  abbrev pub cancel_seen : Str → ℕ → Asker → Option Run → Api → Response × Api
  cancel_seen id now p none s = (not_found, s)
  cancel_seen id now p (some r) s =
      if mem_str r.status terminal_run_statuses
      then (terminal_detail, s)
      else cancel_transition id now s
          (record_cancellation_and_transition id now (cancellation p) s.ledger)

  -- `cancel_run_endpoint`
  unfoldable pub cancel_run : Str → ℕ → Asker → Option Run → Api → Response × Api
  cancel_run id now p seen s = cancel_seen id now p seen s
