-- ===== src/Scheduler/Results.antt =====
-- agent_os/scheduler.py, `dispatch_schedule`: the result that is recorded for a schedule.
use agent_os_langgraph.Prelude.{
  ℕ, ◌≡◌, refl, ap, ◌∙◌, Bool, true, false, Option, none, some, List, if◌then◌else◌, is_empty,
  Bool-cases, inl, inr, Result, ok, err,
}
use agent_os_langgraph.Text.{Str, text, str_eq}
use agent_os_langgraph.Runs.{Ledger}
use agent_os_langgraph.RunExecutor.{JsonObject}
use agent_os_langgraph.Schedules.{
  ScheduleKind, run, brief, app_callback, Schedule, get_schedule, with_result,
  record_schedule_result,
}
use agent_os_langgraph.Schedules.Table.{KeepsId, map_schedule, get_schedule-update}
use agent_os_langgraph.Routing.{build_runtime_config}
use agent_os_langgraph.Scheduler.{
  World, Work, Execution, BriefEnd, brief_result, brief_raised, brief_stopped, HttpEnd, response,
  request_failed, request_stopped, DispatchResult, Dispatched, reports, shut_down, after_run,
  run_created, execution_of, dispatch_run, dispatch_brief, dispatch_callback, dispatch_schedule,
  dispatch_as, after_request,
}

-- The status and the error of a dispatch; a dispatch that was stopped has no result of its own.
abbrev pub status_told : Option DispatchResult → Str
status_told none = text "error"
status_told (some r) = r.status

abbrev pub error_told : Option DispatchResult → Option Str
error_told none = some (text "Scheduler shutdown")
error_told (some r) = r.error

-- The table after a dispatch is the table before with the result recorded.
abbrev IsRecorded : ℕ → Str → List Schedule → Dispatched → Type 0
IsRecorded now id t (w, o) =
    w.table ≡ record_schedule_result now id (status_told o) (error_told o) t

pub with_result_id :
    (now : ℕ) (status : Str) (error : Option Str) → KeepsId (with_result now status error)
unfolding with_result
with_result_id now status error s = refl

module _ (dumps : JsonObject → Str) (loads : Str → Option (Option Str × List Str))
    (show : ℕ → Str) where
  reports-IsRecorded :
      (now : ℕ) (id : Str) (r : DispatchResult) (w : World)
      → IsRecorded now id w.table (reports now id r w)
  unfolding reports
  reports-IsRecorded now id r w = refl

  shut_down-IsRecorded :
      (now : ℕ) (id : Str) (w : World) → IsRecorded now id w.table (shut_down now id w)
  unfolding shut_down
  shut_down-IsRecorded now id w = refl

  after_run-IsRecorded :
      (now : ℕ) (id run_id : Str) (b : Bool) (w : World)
      → IsRecorded now id w.table (after_run dumps loads show now id run_id b w)
  after_run-IsRecorded now id run_id true w = shut_down-IsRecorded now id _
  after_run-IsRecorded now id run_id false w = reports-IsRecorded now id _ w

  execution_of-IsRecorded :
      (now : ℕ) (id : Str) (x : Execution) (run_id : Str) (w : World) (r : Result (ℕ × Str))
      → IsRecorded now id w.table (execution_of dumps loads show now id x run_id w r)
  execution_of-IsRecorded now id x run_id w (err e) = reports-IsRecorded now id _ w
  execution_of-IsRecorded now id x run_id w (ok config) = after_run-IsRecorded now id run_id _ _

  run_created-IsRecorded :
      (now : ℕ) (id : Str) (x : Execution) (w : World) (r : Result (Str × Ledger))
      → IsRecorded now id w.table (run_created dumps loads show now id x w r)
  run_created-IsRecorded now id x w (err e) = reports-IsRecorded now id _ w
  run_created-IsRecorded now id x w (ok (run_id, l)) =
      execution_of-IsRecorded now id x run_id (record w { ledger = l })
        (build_runtime_config x.thread_id)

  dispatch_brief-IsRecorded :
      (now : ℕ) (id : Str) (b : BriefEnd) (w : World)
      → IsRecorded now id w.table (dispatch_brief dumps loads show now id b w)
  unfolding dispatch_brief reports shut_down
  dispatch_brief-IsRecorded now id (brief_result true ref error) w = refl
  dispatch_brief-IsRecorded now id (brief_result false ref error) w = refl
  dispatch_brief-IsRecorded now id (brief_raised e) w = refl
  dispatch_brief-IsRecorded now id brief_stopped w = refl

  after_request-IsRecorded :
      (now : ℕ) (id : Str) (h : HttpEnd) (w : World)
      → IsRecorded now id w.table (after_request dumps loads show now id h w)
  after_request-IsRecorded now id (response code) w = reports-IsRecorded now id _ w
  after_request-IsRecorded now id (request_failed t) w = reports-IsRecorded now id _ w
  after_request-IsRecorded now id request_stopped w = shut_down-IsRecorded now id w

  dispatch_callback-IsRecorded :
      (now : ℕ) (id : Str) (p : Work) (request : Str → HttpEnd) (w : World)
      → IsRecorded now id w.table (dispatch_callback dumps loads show now id p request w)
  unfolding dispatch_callback
  dispatch_callback-IsRecorded now id p request w = elim (Bool-cases (is_empty p.url)) [
    | inl empty ↦ rw empty (unfold reports in refl)
    | inr given ↦ rw given (after_request-IsRecorded now id (request p.url) w)
  ]

  dispatch_as-IsRecorded :
      (k : ScheduleKind) (now : ℕ) (id : Str) (p : Work) (x : Execution) (b : BriefEnd)
      (request : Str → HttpEnd) (w : World)
      → IsRecorded now id w.table (dispatch_as dumps loads show k now id p x b request w)
  unfolding dispatch_run
  dispatch_as-IsRecorded run now id p x b request w = run_created-IsRecorded now id x w _
  dispatch_as-IsRecorded brief now id p x b request w = dispatch_brief-IsRecorded now id b w
  dispatch_as-IsRecorded app_callback now id p x b request w =
      dispatch_callback-IsRecorded now id p request w

  -- However the work of a schedule ends, its row, and no other, is left with the status and the error of
  -- the dispatch; where the dispatch was stopped these are an error and the shutdown of the scheduler.
  pub dispatch_schedule_records :
      (now : ℕ) (s : Schedule) (p : Work) (x : Execution) (b : BriefEnd) (request : Str → HttpEnd)
      (w : World) (j : Str)
      → let (w', o) = dispatch_schedule dumps loads show now s p x b request w in
        get_schedule j w'.table ≡ (
          if str_eq j s.schedule_id
          then map_schedule
              (with_result now (status_told o) (error_told o))
              (get_schedule j w.table)
          else get_schedule j w.table)
  unfolding dispatch_schedule record_schedule_result
  dispatch_schedule_records now s p x b request w j =
      let (w', o) = dispatch_schedule dumps loads show now s p x b request w in
      ap (get_schedule j) (dispatch_as-IsRecorded s.kind now s.schedule_id p x b request w)
      ∙ get_schedule-update s.schedule_id (with_result now (status_told o) (error_told o)) w.table j
          (with_result_id now (status_told o) (error_told o))
