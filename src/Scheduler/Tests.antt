-- ===== src/Scheduler/Tests.antt =====
-- A scheduler with one due schedule of two.
use agent_os_langgraph.Prelude.{
  ℕ, ◌≡◌, refl, true, false, none, some, [], ◌∷◌, arith, ap, length, take, drop, map, ◌≤◌,
  if◌then◌else◌, is_some,
}
use agent_os_langgraph.Text.{Str, text, str_eq}
use agent_os_langgraph.Runs.{find_run, get_run}
use agent_os_langgraph.RunExecutor.{closed, is_raised}
use agent_os_langgraph.RunExecutor.Status.{status_of, final_status}
use agent_os_langgraph.RunExecutor.Tests.{
  dumps, loads, ledger, ledger-IsSound, happenings, ending, grants,
}
use agent_os_langgraph.Schedules.{with_result, get_schedule}
use agent_os_langgraph.Schedules.Table.{map_schedule, has_id, due_at}
use agent_os_langgraph.Schedules.Tests.{
  ascii_digit, each_second, missed_row, table, table-IsUnique, claims,
}
use agent_os_langgraph.Scheduler.{
  World, Work, Execution, brief_stopped, response, dispatch_schedule, dispatch_run,
}
use agent_os_langgraph.Scheduler.Results.{status_told, error_told, dispatch_schedule_records}
use agent_os_langgraph.Scheduler.Agreement.{dispatch_run_agrees}
use agent_os_langgraph.Scheduler.Service.{
  Service, Report, begin_stop, begins_stop, resume_stop, awaits_children, tick, ticks, at_service,
  then_service,
}
use agent_os_langgraph.Scheduler.Service.Bounds.{IsFit, ServiceReach-IsFit, tick_lem}
use agent_os_langgraph.Scheduler.Service.Quiet.{rest, then_, SameTimes, stopped_claims_nothing}

abbrev show : ℕ → Str
show n = text "200"

abbrev world : World
world = record { table = table; ledger = ledger; grants = grants }

abbrev work : Work
work = record { workspace = none; task = text "digest"; url = text "" }

abbrev execution : Execution
execution = record {
  run_id = text "r9";
  thread_id = text "t9";
  created = 6;
  started = 7;
  happenings = happenings;
  ended = 8;
  ending = ending;
  closing = closed;
}

dispatch_schedule_records_example :
    let (w', o) =
      dispatch_schedule dumps loads show 9 missed_row work execution brief_stopped
        (λ u. response 200)
        world in
    get_schedule (text "a") w'.table ≡ (
      if str_eq (text "a") missed_row.schedule_id
      then map_schedule
          (with_result 9 (status_told o) (error_told o))
          (get_schedule (text "a") table)
      else get_schedule (text "a") table)
dispatch_schedule_records_example =
    dispatch_schedule_records dumps loads show 9 missed_row work execution brief_stopped
      (λ u. response 200) world (text "a")

dispatch_run_agrees_example :
    let (w', o) = dispatch_run dumps loads show 9 (text "a") work execution world in
    (status_of (get_run (text "r9") w'.ledger) ≡ some (status_told o))
    × (status_told o ≡ (if is_some o then final_status dumps loads ending closed else text "error"))
unfolding find_run str_eq text agent_os_langgraph.Runs.new_run agent_os_langgraph.Text.strip
dispatch_run_agrees_example =
    dispatch_run_agrees dumps loads show 9 (text "a") work execution world ledger-IsSound refl refl

abbrev service : Service
service = record {
  is_running = true;
  has_loop = true;
  children = [];
  loose = [];
  stops = [];
  next_number = 0;
  table = table;
}

service-IsFit : IsFit service
service-IsFit = record { bounded = omega arith; fresh = refl; unique = table-IsUnique }

ServiceReach-IsFit_example : IsFit (begin_stop (tick ascii_digit each_second 250000000 service))
ServiceReach-IsFit_example =
    ServiceReach-IsFit ascii_digit each_second service-IsFit
      (then_service (then_service at_service (ticks 250000000)) begins_stop)

-- A service that is started again while its stop waits for a child: the stop ends when that child has
-- ended, and takes the new child out of the set although its work goes on.
abbrev drained : Service
drained = record service {
  children = record { number = 1; schedule = missed_row } ∷ [];
  stops = awaits_children (0 ∷ []) ∷ [];
  next_number = 2;
}

drained_resumes : resume_stop 0 drained ≡ record drained {
  children = [];
  loose = record { number = 1; schedule = missed_row } ∷ [];
  stops = [];
}
unfolding resume_stop
drained_resumes = refl

tick_lem_example :
    let n = tick ascii_digit each_second 250000000 service in
    (length n.children ≤ 10)
    × (take 0 n.children ≡ [])
    × ((id : Str)
        → has_id id (map (λ c. c.schedule) (drop 0 n.children))
          ≡ due_at 250000000 (get_schedule id table))
tick_lem_example =
    tick_lem ascii_digit each_second 250000000 service service-IsFit refl (omega arith)
      (ap is_raised claims)

abbrev report : Report
report = (251000000, text "completed", none)

stopped_claims_nothing_example :
    ((tick ascii_digit each_second 900000000 (begin_stop service)).is_running ≡ false)
    × SameTimes (tick ascii_digit each_second 900000000 (begin_stop service)).table service.table
stopped_claims_nothing_example =
    stopped_claims_nothing ascii_digit each_second service (then_ rest (ticks 900000000) refl)
