-- ===== src/Runs/Tests.antt =====
-- A ledger with one run that waits for a human.
use agent_os_langgraph.Prelude.{
  suc, ◌≡◌, ◌≢◌, refl, true, false, ◌&&◌, ◌⊎◌, none, some, [], ◌∷◌, ok, length, if◌then◌else◌,
}
use agent_os_langgraph.Text.{Str, text, str_eq, str_eq_self}
use agent_os_langgraph.Runs.{
  Run, Ledger, Creator, Decision, get_run, find_run, status_is, new_run, create_run, event_seqs,
  approval_seqs, append_event, list_events, with_status, cancelled, transition_status,
  record_approval_and_transition, record_cancellation_and_transition,
}
use agent_os_langgraph.Runs.Numbering.{IsNumbered, AreNumbered, append_event-IsNumbered}
use agent_os_langgraph.Runs.Transitions.{IsUnique, map_run, transition_status_lem}
use agent_os_langgraph.Runs.Approvals.{is_live, record_cancellation_and_transition_lem}

abbrev nobody : Creator
nobody = record { created_by = none; created_by_kind = none }

abbrev waiting_run : Run
waiting_run = record {
  run_id = text "r1";
  thread_id = text "t1";
  workspace = none;
  workspace_id = none;
  status = text "interrupted";
  task = some (text "report");
  created_by = none;
  created_by_kind = none;
  created_at = 1;
  updated_at = 2;
  ended_at = none;
  error = none;
}

abbrev ledger : Ledger
ledger = record { runs = waiting_run ∷ []; events = []; approvals = [] }

ledger-IsUnique : IsUnique ledger.runs
ledger-IsUnique = (unfold find_run in refl, tt)

no_events : IsNumbered ledger.events
no_events id = unfold event_seqs in tt

no_approvals : AreNumbered ledger.approvals
no_approvals id = unfold approval_seqs in tt

abbrev once : Ledger
once = (append_event (text "r1") 3 (text "status") (text "{}") ledger).1

abbrev twice : Ledger
twice = (append_event (text "r1") 4 (text "done") (text "{}") once).1

once-IsNumbered : IsNumbered once.events
once-IsNumbered =
    (append_event-IsNumbered (text "r1") 3 (text "status") (text "{}") ledger no_events).1

twice-IsNumbered : IsNumbered twice.events
twice-IsNumbered =
    (append_event-IsNumbered (text "r1") 4 (text "done") (text "{}") once once-IsNumbered).1

transition_status_lem_example :
    let (won, l') =
      transition_status (text "r1") 5 (text "interrupted") (text "running") none false ledger in
    (won ≡ status_is (text "interrupted") (get_run (text "r1") ledger))
    × ((j : Str)
        → get_run j l' ≡ (
            if str_eq j (text "r1") && status_is (text "interrupted") (get_run (text "r1") ledger)
            then map_run (with_status (text "running") 5 none false) (get_run j ledger)
            else get_run j ledger))
    × IsUnique l'.runs
    × (l'.events ≡ ledger.events)
    × (l'.approvals ≡ ledger.approvals)
transition_status_lem_example =
    transition_status_lem (text "r1") 5 (text "interrupted") (text "running") none false ledger
      ledger-IsUnique

running_differs : text "running" ≢ text "interrupted"
unfolding text
running_differs e = absurd (cc (e))

first_wins :
    (transition_status (text "r1") 5 (text "interrupted") (text "running") none false ledger).0
    ≡ true
unfolding transition_status agent_os_langgraph.Runs.update_where str_eq text
first_wins = refl

abbrev after_first : Ledger
after_first =
    (transition_status (text "r1") 5 (text "interrupted") (text "running") none false ledger).1

abbrev with_new : Ledger
with_new = record ledger {
  runs = waiting_run ∷ new_run (text "r2") 8 (text "t2") none none none nobody ∷ [];
}

creates :
    create_run (text "r2") 8 (text "t2") none none none nobody ledger ≡ ok (text "r2", with_new)
unfolding create_run find_run str_eq text
creates = refl

abbrev approve : Decision
approve = record {
  decision = text "approved";
  actor_id = text "ana";
  actor_kind = text "user";
  on_behalf_of = none;
  reason = none;
}

record_cancellation_and_transition_lem_example :
    let (won, l') = record_cancellation_and_transition (text "r1") 5 approve ledger in
    (won ≡ is_live (get_run (text "r1") ledger))
    × ((won ≡ true) ⊎ (l' ≡ ledger))
    × (length l'.approvals
        ≡ (if won then suc (length ledger.approvals) else length ledger.approvals))
    × AreNumbered l'.approvals
    × IsUnique l'.runs
    × ((j : Str)
        → get_run j l' ≡ (
            if str_eq j (text "r1") && won
            then map_run (cancelled 5) (get_run j ledger)
            else get_run j ledger))
record_cancellation_and_transition_lem_example =
    record_cancellation_and_transition_lem (text "r1") 5 approve ledger ledger-IsUnique no_approvals

cancels : (record_cancellation_and_transition (text "r1") 5 approve ledger).0 ≡ true
unfolding record_cancellation_and_transition find_run str_eq text agent_os_langgraph.Text.mem_str
    agent_os_langgraph.Runs.update_where
cancels = refl

abbrev ended : Ledger
ended = (record_cancellation_and_transition (text "r1") 5 approve ledger).1
