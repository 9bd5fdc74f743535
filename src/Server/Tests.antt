-- ===== src/Server/Tests.antt =====
-- A run that waits for a human, and the requests that approve and cancel it.
use agent_os_langgraph.Prelude.{
  ◌≡◌, refl, true, false, not, ◌&&◌, none, some, [], ◌∷◌, ◌⊎◌, if◌then◌else◌, length, is_some,
}
use agent_os_langgraph.Text.{Str, text, str_eq}
use agent_os_langgraph.Policy.Local.Sessions.{is_granted}
use agent_os_langgraph.Runs.{Ledger, find_run, get_run, with_status, cancelled, approval_seqs}
use agent_os_langgraph.Runs.Transitions.{IsUnique, map_run}
use agent_os_langgraph.Runs.Numbering.{AreNumbered}
use agent_os_langgraph.Runs.Approvals.{is_live}
use agent_os_langgraph.RunExecutor.Tests.{dumps, loads, ledger, grants, grants-IsDict}
use agent_os_langgraph.Server.{
  Api, run_status, not_found, Asker, terminal_detail, approve_run, cancel_run,
}
use agent_os_langgraph.Server.Requests.{approve_run_lem, cancel_run_lem}

abbrev waiting_ledger : Ledger
waiting_ledger = record ledger {
  runs =
      record {
        run_id = text "r1";
        thread_id = text "t1";
        workspace = none;
        workspace_id = none;
        status = text "interrupted";
        task = some (text "report");
        created_by = none;
        created_by_kind = none;
        created_at = 1;
        updated_at = 2;
        ended_at = none;
        error = none;
      }
      ∷ [];
}

waiting_ledger-IsUnique : IsUnique waiting_ledger.runs
waiting_ledger-IsUnique = (unfold find_run in refl, tt)

no_approvals : AreNumbered waiting_ledger.approvals
no_approvals id = unfold approval_seqs in tt

-- The task of the run is still closing.
abbrev closing_api : Api
closing_api = record { ledger = waiting_ledger; grants = grants; active = text "r1" ∷ [] }

abbrev idle_api : Api
idle_api = record closing_api { active = [] }

abbrev asker : Asker
asker = record { id = text "u"; kind = text "human"; on_behalf_of = none }

-- The run is set to running, and no task is started for it.
approve_run_lem_example :
    let a =
      approve_run
        (text "r1")
        3
        (text "approved")
        asker
        (get_run (text "r1") waiting_ledger)
        closing_api in
    (a.started ≡ false)
    × (length a.api.ledger.approvals ≡ 1)
    × ((j : Str)
        → get_run j a.api.ledger ≡ (
            if str_eq j (text "r1") && true
            then map_run (with_status (text "running") 3 none false) (get_run j waiting_ledger)
            else get_run j waiting_ledger))
unfolding find_run str_eq text agent_os_langgraph.Text.mem_str
approve_run_lem_example =
    approve_run_lem (text "r1") 3 (text "approved") asker closing_api waiting_ledger-IsUnique
      no_approvals

cancel_run_lem_example :
    let (r, s') =
      cancel_run dumps loads (text "r1") 3 asker (get_run (text "r1") waiting_ledger) idle_api in
    let live = is_live (get_run (text "r1") waiting_ledger) in
    (r ≡ (
      if live
      then run_status (text "cancelled")
      else if is_some (get_run (text "r1") waiting_ledger)
      then terminal_detail
      else not_found))
    × ((live ≡ true) ⊎ (s' ≡ idle_api))
    × (length s'.ledger.approvals ≡ (if live then 1 else 0))
    × ((j : Str)
        → get_run j s'.ledger ≡ (
            if str_eq j (text "r1") && live
            then map_run (cancelled 3) (get_run j waiting_ledger)
            else get_run j waiting_ledger))
    × ((session key : Str)
        → is_granted session key s'.grants
          ≡ (not (str_eq (text "r1") session && live) && is_granted session key grants))
cancel_run_lem_example =
    cancel_run_lem (text "r1") 3 asker idle_api waiting_ledger-IsUnique no_approvals dumps loads
      grants-IsDict
