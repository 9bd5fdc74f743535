-- ===== src/RunExecutor.antt =====
-- agent_os/server/run_executor.py: one execution of a run, from its stream of graph events to its
-- status in the ledger. Other requests may cancel the run while the stream goes on.
pub mod Writes
pub mod Status
pub mod Session
pub mod Tests
use agent_os_langgraph.Prelude.{
  ℕ, ◌≡◌, Bool, true, false, ◌&&◌, ◌||◌, not, Option, none, some, List, [], ◌∷◌, ◌++◌, is_empty,
  select, if◌then◌else◌, Result, ok, err,
}
use agent_os_langgraph.Text.{Str, text, str_eq, mem_str, strip}
use agent_os_langgraph.Routing.{build_runtime_config}
use agent_os_langgraph.Dispatch.{ToolResult}
use agent_os_langgraph.Policy.Local.Sessions.{Grants, clear_session}
use agent_os_langgraph.Runs.{
  Run, Ledger, Decision, get_run, append_event, set_status, record_cancellation_and_transition,
  terminal_run_statuses,
}

-- A JSON object with text values.
abbrev pub JsonObject : Type 0
JsonObject = List (Str × Str)

-- A LangGraph event as far as it is read: its type, its name where that is a text, and the content
-- of its chunk where it has one.
pub record StreamEvent : Type 0 where
  pub event : Str
  pub name : Option Str
  pub content : Option Str

-- The state of the graph when its stream has ended: the pending interrupt, the tool result and the
-- payload of `_result_payload`.
pub record Snapshot : Type 0 where
  pub interrupt : Option Str
  pub tool_result : Option ToolResult
  pub result_payload : Str

-- What happens during a stream, at a time: an event of the graph, or the ledger's part of a
-- cancellation request.
pub data Happening : Type 0 where
  emitted : (ts : ℕ) → StreamEvent → Happening
  cancel_requested : (ts : ℕ) → Decision → Happening

-- How the block with the graph is left, and how the checkpointer closes after it; where the checkpointer
-- was never opened, it is `closed`.
pub data Ending : Type 0 where
  finished : Snapshot → Ending
  broken : (message : Str) → Ending
  was_stopped : Ending

pub data Closing : Type 0 where
  closed : Closing
  close_failed : (message : Str) → Closing
  close_stopped : Closing

-- `name not in {"LangGraph", "__start__"}`
abbrev pub is_node_name : Option Str → Bool
is_node_name none = false
is_node_name (some n) = not (mem_str n (text "LangGraph" ∷ text "__start__" ∷ []))

-- `_is_node_event`
unfoldable pub is_node_event : StreamEvent → Bool
is_node_event e =
    mem_str e.event (text "on_chain_start" ∷ text "on_chain_end" ∷ []) && is_node_name e.name

abbrev pub or_empty : Option Str → Str
or_empty none = []
or_empty (some s) = s

-- Whether an exception was raised
abbrev pub is_raised {ℓ} : {A : Type ℓ} → Result A → Bool
is_raised (err e) = true
is_raised (ok a) = false

-- `dumps` is `json.dumps`; `loads` gives the status and the errors of a dict in JSON.
module _ (dumps : JsonObject → Str) (loads : Str → Option (Option Str × List Str)) where
  -- `_append_stream_event`
  unfoldable pub append_stream_event : Str → ℕ → StreamEvent → Ledger → Ledger
  unfolding is_node_event
  append_stream_event id ts e l =
      if is_node_event e
      then (append_event id ts (text "node")
          (dumps ((text "name", or_empty e.name) ∷ (text "event", e.event) ∷ [])) l).1
      else if str_eq e.event (text "on_chat_model_stream") && not (is_empty (or_empty e.content))
      then (append_event id ts (text "token") (dumps ((text "content", or_empty e.content) ∷ []))
          l).1
      else l

  abbrev pub status_event : Str → ℕ → Str → Ledger → Ledger
  status_event id ts status l =
      (append_event id ts (text "status") (dumps ((text "status", status) ∷ [])) l).1

  -- A request to cancel: what `cancel_run_endpoint` writes if it is not too late.
  unfoldable pub cancel_in_ledger : Str → ℕ → Decision → Ledger → Bool × Ledger
  cancel_in_ledger id ts d l =
      let (won, l') = record_cancellation_and_transition id ts d l in
      if won then (true, status_event id ts (text "cancelled") l') else (false, l')

  unfoldable pub happen : Str → List Happening → Ledger → Ledger
  unfolding append_stream_event cancel_in_ledger
  happen id [] l = l
  happen id (emitted ts e ∷ hs) l = happen id hs (append_stream_event id ts e l)
  happen id (cancel_requested ts d ∷ hs) l = happen id hs (cancel_in_ledger id ts d l).1

  -- The status that a tool's JSON output shows.
  abbrev failure_status : Option Str → Str
  failure_status none = text "error"
  failure_status (some s) = if str_eq s (text "cancelled") then text "cancelled" else text "error"

  abbrev reported : Option (Option Str × List Str) → Str × List Str
  reported none = (text "error", [])
  reported (some (status, errors)) =
      (failure_status status, select (λ e. not (is_empty (strip e))) errors)

  -- `"; ".join(errors)`
  abbrev pub joined : List Str → Str
  joined [] = []
  joined (e ∷ []) = e
  joined (e ∷ f ∷ es) = e ++ text "; " ++ joined (f ∷ es)

  -- The errors to show: those reported, or else the output itself.
  abbrev pub errors_or_output : List Str → Str → List Str
  errors_or_output errors output =
      if is_empty errors && not (is_empty (strip output)) then output ∷ [] else errors

  abbrev pub or_default : Str → Str → Str
  or_default d s = if is_empty s then d else s

  abbrev failure_of : ToolResult → Str × List Str → Str × Str
  failure_of t (status, errors) = (
    status,
    or_default (or_default (text "tool") t.tool ++ text " did not complete successfully")
        (joined (errors_or_output errors t.output)),
  )

  -- `terminal_tool_failure`
  unfoldable pub terminal_tool_failure : Option ToolResult → Option (Str × Str)
  unfolding strip
  terminal_tool_failure none = none
  terminal_tool_failure (some t) =
      if t.success then none else some (failure_of t (reported (loads t.output)))

  abbrev pub set_terminal : Str → ℕ → Option (Str × Str) → Ledger → Ledger
  set_terminal id ts none l = set_status id ts (text "completed") none true l
  set_terminal id ts (some (status, message)) l = set_status id ts status (some message) true l

  -- What follows the stream: whether the session is preserved, and the ledger.
  abbrev pub conclude : Str → ℕ → Snapshot → Option Str → Ledger → Bool × Ledger
  conclude id ts s (some prompt) l = (
    true,
    set_status id ts (text "interrupted") none false
        (append_event id ts (text "interrupt") (dumps ((text "prompt", prompt) ∷ [])) l).1,
  )
  conclude id ts s none l = (
    false,
    set_terminal id ts (terminal_tool_failure s.tool_result)
        (append_event id ts (text "result") s.result_payload l).1,
  )

  -- `except Exception`
  unfoldable pub fail_run : Str → ℕ → Str → Ledger → Ledger
  fail_run id ts message l =
      set_status id ts (text "error") (some message) true
        (append_event id ts (text "error") (dumps ((text "message", message) ∷ [])) l).1

  -- `except asyncio.CancelledError`
  abbrev pub is_terminal : Option Run → Bool
  is_terminal none = true
  is_terminal (some r) = mem_str r.status terminal_run_statuses

  unfoldable pub stop_run : Str → ℕ → Ledger → Ledger
  stop_run id ts l =
      if is_terminal (get_run id l)
      then l
      else status_event id ts (text "cancelled") (set_status id ts (text "cancelled") none true l)

  -- How an execution ends: the ledger, whether the session is preserved, and whether the cancellation
  -- is raised again.
  pub record Ended : Type 0 where
    pub ledger : Ledger
    pub preserved : Bool
    pub reraised : Bool

  abbrev pub close_run : Str → ℕ → Closing → Bool × Ledger → Ended
  close_run id ts closed (keep, l) = record { ledger = l; preserved = keep; reraised = false }
  close_run id ts (close_failed m) (keep, l) = record {
    ledger = fail_run id ts m l;
    preserved = keep;
    reraised = false;
  }
  close_run id ts close_stopped (keep, l) = record {
    ledger = stop_run id ts l;
    preserved = keep;
    reraised = true;
  }

  -- The exception that leaves the block of the checkpointer: one of its closing replaces the graph's.
  abbrev pub left_with : Ending → Closing → Closing
  left_with (finished s) c = c
  left_with (broken m) closed = close_failed m
  left_with (broken m) (close_failed n) = close_failed n
  left_with (broken m) close_stopped = close_stopped
  left_with was_stopped closed = close_stopped
  left_with was_stopped (close_failed n) = close_failed n
  left_with was_stopped close_stopped = close_stopped

  abbrev pub before_closing : Str → ℕ → Ending → Ledger → Bool × Ledger
  before_closing id ts (finished s) l = conclude id ts s s.interrupt l
  before_closing id ts (broken m) l = (false, l)
  before_closing id ts was_stopped l = (false, l)

  abbrev pub end_run : Str → ℕ → Ending → Closing → Ledger → Ended
  end_run id ts e c l = close_run id ts (left_with e c) (before_closing id ts e l)

  abbrev run_found : Str → ℕ → List Happening → ℕ → Ending → Closing → Ledger → Option Run → Ended
  run_found id started hs ts e c l none = record {
    ledger = fail_run id ts (text "Run " ++ id ++ text " does not exist") l;
    preserved = false;
    reraised = false;
  }
  run_found id started hs ts e c l (some r) =
      end_run id ts e c (happen id hs (set_status id started (text "running") none false l))

  -- The body of `execute_run` with its handlers.
  unfoldable pub run_graph : Str → ℕ → List Happening → ℕ → Ending → Closing → Ledger → Ended
  unfolding happen terminal_tool_failure fail_run stop_run
  run_graph id started hs ts e c l = run_found id started hs ts e c l (get_run id l)

  -- `execute_run`, with the `finally` that clears the session's grants. Where `runtime_config` raises,
  -- it does so before anything else.
  unfoldable pub execute_run :
      Str → Str → ℕ → List Happening → ℕ → Ending → Closing → Ledger × Grants → Ledger × Grants
  unfolding run_graph
  execute_run id thread_id started hs ts e c (l, g) =
      let o = run_graph id started hs ts e c l in
      if is_raised (build_runtime_config thread_id)
      then (l, g)
      else (o.ledger, if o.preserved then g else clear_session id g)
