-- ===== src/RunExecutor/Tests.antt =====
-- A run that is cancelled while its graph goes on to the end.
use agent_os_langgraph.Prelude.{
  ◌≡◌, refl, true, false, ◌&&◌, ◌||◌, not, none, some, Option, [], ◌∷◌, List, ◌⊎◌,
}
use agent_os_langgraph.Text.{Str, text, str_eq}
use agent_os_langgraph.Policy.Local.Sessions.{Grants, is_granted, IsDict}
use agent_os_langgraph.Runs.{
  Run, Ledger, Creator, new_run, find_run, get_run, event_seqs, approval_seqs,
}
use agent_os_langgraph.RunExecutor.{
  JsonObject, Happening, emitted, cancel_requested, Ending, finished, Closing, closed, execute_run,
}
use agent_os_langgraph.RunExecutor.Writes.{IsSound, execute_run-IsSound}
use agent_os_langgraph.RunExecutor.Status.{status_of, execute_run-final_status}
use agent_os_langgraph.RunExecutor.Session.{is_granted-execute_run}

abbrev pub dumps : JsonObject → Str
dumps p = text "{}"

abbrev pub loads : Str → Option (Option Str × List Str)
loads s = none

abbrev nobody : Creator
nobody = record { created_by = none; created_by_kind = none }

abbrev queued_run : Run
queued_run = new_run (text "r1") 1 (text "t1") none (some (text "report")) none nobody

abbrev pub ledger : Ledger
ledger = record { runs = queued_run ∷ []; events = []; approvals = [] }

pub ledger-IsSound : IsSound ledger
ledger-IsSound = (
  (unfold find_run in refl, tt),
  (λ id. unfold event_seqs in tt),
  λ id. unfold approval_seqs in tt,
)

abbrev pub happenings : List Happening
happenings =
    emitted 3
      (record { event = text "on_chain_start"; name = some (text "planner"); content = none })
    ∷ cancel_requested 4 (record {
      decision = text "cancelled";
      actor_id = text "u";
      actor_kind = text "human";
      on_behalf_of = none;
      reason = none;
    })
    ∷ []

abbrev pub ending : Ending
ending = finished (record { interrupt = none; tool_result = none; result_payload = text "{}" })

abbrev pub grants : Grants
grants = (text "r1", text "k" ∷ []) ∷ (text "r2", text "k" ∷ []) ∷ []

pub grants-IsDict : IsDict grants
unfolding is_granted str_eq text
grants-IsDict = ((λ k. refl), ((λ k. refl), tt))

-- The cancellation is recorded, and the run is completed all the same.
execute_run-final_status_example :
    status_of (
      get_run
        (text "r1")
        (execute_run dumps loads
          (text "r1")
          (text "t1")
          2
          happenings
          5
          ending
          closed
          (ledger, grants)).0)
    ≡ some (text "completed")
unfolding find_run str_eq text new_run agent_os_langgraph.RunExecutor.terminal_tool_failure
execute_run-final_status_example =
    execute_run-final_status dumps loads (text "r1") (text "t1") 2 happenings 5 ending closed ledger
      grants ledger-IsSound refl

execute_run-IsSound_example :
    let (l', g') =
      execute_run dumps loads
        (text "r1")
        (text "t1")
        2
        happenings
        5
        ending
        closed
        (ledger, grants) in
    IsSound l' × ((j : Str) → (str_eq j (text "r1") ≡ true) ⊎ (get_run j l' ≡ get_run j ledger))
execute_run-IsSound_example =
    execute_run-IsSound dumps loads (text "r1") (text "t1") 2 happenings 5 ending closed ledger
      grants ledger-IsSound

is_granted-execute_run_example :
    is_granted
      (text "r2")
      (text "k")
      (execute_run dumps loads
        (text "r1")
        (text "t1")
        2
        happenings
        5
        ending
        closed
        (ledger, grants)).1
    ≡ ((false || (false || not (str_eq (text "r1") (text "r2"))))
        && is_granted (text "r2") (text "k") grants)
unfolding find_run str_eq text new_run is_granted agent_os_langgraph.Text.strip
is_granted-execute_run_example =
    is_granted-execute_run dumps loads (text "r1") (text "t1") 2 happenings 5 ending closed ledger
      grants (text "r2") (text "k") grants-IsDict refl
