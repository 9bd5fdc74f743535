-- ===== src/Scheduler.antt =====
-- agent_os/scheduler.py: the work of one claimed schedule, and the service that ticks.
pub mod Service
pub mod Results
pub mod Agreement
mod Tests
use agent_os_langgraph.Prelude.{
  ℕ, ◌+◌, ◌≡◌, Bool, true, false, ◌&&◌, ◌||◌, not, Option, none, some, List, [], ◌∷◌, ◌++◌,
  is_empty, if◌then◌else◌, ltb, leb, Result, ok, err, Error, message,
}
use agent_os_langgraph.Text.{Str, text, str_eq}
use agent_os_langgraph.Policy.Local.Sessions.{Grants}
use agent_os_langgraph.Runs.{Run, Ledger, create_run, append_event, set_status, get_run, creator}
use agent_os_langgraph.Routing.{build_runtime_config}
use agent_os_langgraph.RunExecutor.{
  JsonObject, Happening, Ending, Closing, Ended, run_graph, execute_run,
}
use agent_os_langgraph.Schedules.{
  ScheduleKind, run, brief, app_callback, Schedule, record_schedule_result,
}

-- The tables that a dispatch writes, and the grants of the sessions.
pub record World : Type 0 where
  pub table : List Schedule
  pub ledger : Ledger
  pub grants : Grants

-- What is read of a schedule's payload.
pub record Work : Type 0 where
  pub workspace : Option Str
  pub task : Str
  pub url : Str

-- One execution of a run: its new ids, and what happens to it.
pub record Execution : Type 0 where
  pub run_id : Str
  pub thread_id : Str
  pub created : ℕ
  pub started : ℕ
  pub happenings : List Happening
  pub ended : ℕ
  pub ending : Ending
  pub closing : Closing

-- How `execute_brief` ends: with its result, with an exception, or stopped.
pub data BriefEnd : Type 0 where
  brief_result : (saved : Bool) → (ref : Option Str) → (error : Option Str) → BriefEnd
  brief_raised : (error : Str) → BriefEnd
  brief_stopped : BriefEnd

-- How an HTTP request ends: with a response, with an exception of some type, or stopped.
pub data HttpEnd : Type 0 where
  response : (status_code : ℕ) → HttpEnd
  request_failed : (type_name : Str) → HttpEnd
  request_stopped : HttpEnd

-- `ScheduleDispatchResult`, without the id and the kind of the schedule.
pub record DispatchResult : Type 0 where
  pub status : Str
  pub run_id : Option Str
  pub ref : Option Str
  pub error : Option Str

-- The world afterwards, with the result; none where the cancellation is raised again.
abbrev pub Dispatched : Type 0
Dispatched = World × Option DispatchResult

abbrev pub record_result : ℕ → Str → Str → Option Str → World → World
record_result now id status error w = record w {
  table = record_schedule_result now id status error w.table;
}

-- A result is recorded for the schedule and returned.
unfoldable pub reports : ℕ → Str → DispatchResult → World → Dispatched
reports now id r w = (record_result now id r.status r.error w, some r)

abbrev pub error_result : Str → DispatchResult
error_result e = record { status = text "error"; run_id = none; ref = none; error = some e }

-- `except asyncio.CancelledError`
unfoldable pub shut_down : ℕ → Str → World → Dispatched
shut_down now id w =
    (record_result now id (text "error") (some (text "Scheduler shutdown")) w, none)

-- `response.is_success`
abbrev pub is_success_code : ℕ → Bool
is_success_code code = leb 200 code && ltb code 300

abbrev pub error_or : Str → Option Str → Str
error_or d none = d
error_or d (some e) = if is_empty e then d else e

-- `str` of a status code is a parameter.
module _ (dumps : JsonObject → Str) (loads : Str → Option (Option Str × List Str))
    (show : ℕ → Str) where
  -- The status and the error of the run's row.
  abbrev pub run_result : Str → Option Run → DispatchResult
  run_result run_id none = record {
    status = text "error";
    run_id = some run_id;
    ref = none;
    error = none;
  }
  run_result run_id (some r) = record {
    status = r.status;
    run_id = some run_id;
    ref = none;
    error = r.error;
  }

  abbrev pub after_run : ℕ → Str → Str → Bool → World → Dispatched
  after_run now id run_id stopped w =
      if stopped
      then shut_down now id (record w {
        ledger =
            set_status run_id now (text "error") (some (text "Scheduler shutdown")) true
              (append_event run_id now (text "error")
                (dumps ((text "message", text "Scheduler shutdown") ∷ [])) w.ledger).1;
      })
      else reports now id (run_result run_id (get_run run_id w.ledger)) w

  -- The call of `execute_run`, which raises at once where the thread id is blank.
  abbrev pub execution_of : ℕ → Str → Execution → Str → World → Result (ℕ × Str) → Dispatched
  execution_of now id x run_id w (err e) = reports now id (error_result (message e)) w
  execution_of now id x run_id w (ok config) =
      let o =
        run_graph dumps loads run_id x.started x.happenings x.ended x.ending x.closing w.ledger in
      let (l', g) =
        execute_run dumps loads run_id x.thread_id x.started x.happenings x.ended x.ending x.closing
          (w.ledger, w.grants) in
      after_run now id run_id o.reraised (record { table = w.table; ledger = l'; grants = g })

  abbrev pub run_created : ℕ → Str → Execution → World → Result (Str × Ledger) → Dispatched
  run_created now id x w (err e) = reports now id (error_result (message e)) w
  run_created now id x w (ok (run_id, l)) =
      execution_of now id x run_id (record w { ledger = l }) (build_runtime_config x.thread_id)

  -- `kind == "run"`
  unfoldable pub dispatch_run : ℕ → Str → Work → Execution → World → Dispatched
  unfolding reports shut_down
  dispatch_run now id p x w = run_created now id x w (
      create_run x.run_id x.created x.thread_id p.workspace (some p.task) p.workspace
        (creator (some (text "schedule:" ++ id, text "schedule")) none none) w.ledger)

  -- `kind == "brief"`
  unfoldable pub dispatch_brief : ℕ → Str → BriefEnd → World → Dispatched
  unfolding reports shut_down
  dispatch_brief now id (brief_result true ref error) w =
      reports now id (record { status = text "completed"; run_id = none; ref = ref; error = none })
        w
  dispatch_brief now id (brief_result false ref error) w =
      reports now id (error_result (error_or (text "Brief write was not committed") error)) w
  dispatch_brief now id (brief_raised e) w = reports now id (error_result e) w
  dispatch_brief now id brief_stopped w = shut_down now id w

  abbrev pub http_result : ℕ → DispatchResult
  http_result code =
      if is_success_code code
      then record { status = text "completed"; run_id = none; ref = some (show code); error = none }
      else record {
        status = text "error";
        run_id = none;
        ref = some (show code);
        error = some (text "HTTP " ++ show code);
      }

  abbrev pub after_request : ℕ → Str → HttpEnd → World → Dispatched
  after_request now id (response code) w = reports now id (http_result code) w
  after_request now id (request_failed type_name) w =
      reports now id (error_result (text "HTTP request failed: " ++ type_name)) w
  after_request now id request_stopped w = shut_down now id w

  -- `kind == "app_callback"`; the request is sent if there is a url.
  unfoldable pub dispatch_callback : ℕ → Str → Work → (Str → HttpEnd) → World → Dispatched
  unfolding reports shut_down
  dispatch_callback now id p request w =
      if is_empty p.url
      then reports now id (error_result (text "kind=app_callback requires 'url' in payload")) w
      else after_request now id (request p.url) w

  abbrev pub dispatch_as :
      ScheduleKind → ℕ → Str → Work → Execution → BriefEnd → (Str → HttpEnd) → World → Dispatched
  dispatch_as run now id p x b request w = dispatch_run now id p x w
  dispatch_as brief now id p x b request w = dispatch_brief now id b w
  dispatch_as app_callback now id p x b request w = dispatch_callback now id p request w

  -- `dispatch_schedule`; a row has one of the three kinds. `now` is when the result is recorded.
  unfoldable pub dispatch_schedule :
      ℕ → Schedule → Work → Execution → BriefEnd → (Str → HttpEnd) → World → Dispatched
  unfolding dispatch_run dispatch_brief dispatch_callback
  dispatch_schedule now s p x b request w = dispatch_as s.kind now s.schedule_id p x b request w
