-- ===== src/Scheduler/Service/Quiet.antt =====
-- agent_os/scheduler.py, `SchedulerService`: what happens after `stop` has begun.
use agent_os_langgraph.Prelude.{
  ℕ, zero, suc, ◌≡◌, refl, ap, ◌∙◌, Bool, true, false, ◌&&◌, is_empty, if◌then◌else◌, Option, none,
  some, List, [], ◌∷◌, arith,
}
use agent_os_langgraph.Text.{Str}
use agent_os_langgraph.Recurrence.{CronNext}
use agent_os_langgraph.Schedules.{Schedule, record_schedule_result, with_result, get_schedule}
use agent_os_langgraph.Schedules.Table.{map_schedule, get_schedule-update}
use agent_os_langgraph.Scheduler.Results.{with_result_id}
use agent_os_langgraph.Scheduler.Service.{
  Service, Report, Child, Stopping, awaits_loop, awaits_children, record_report, finish_at, finish,
  finish_loose, begin_stop, stop_at, all_done, continued, resume_stop, tick, ServiceStep, starts,
  ticks, finishes, finishes_loose, begins_stop, resumes_stop,
}

-- What a claim writes to a row: when it runs next, and when it ran last.
abbrev pub run_times : Option Schedule → Option (ℕ × Option ℕ)
run_times none = none
run_times (some s) = some (s.next_run, s.last_run)

abbrev pub SameTimes : List Schedule → List Schedule → Type 0
SameTimes t u = (id : Str) → run_times (get_schedule id t) ≡ run_times (get_schedule id u)

run_times-with_result :
    (now : ℕ) (status : Str) (error : Option Str) (o : Option Schedule)
    → run_times (map_schedule (with_result now status error) o) ≡ run_times o
unfolding with_result
run_times-with_result now status error none = refl
run_times-with_result now status error (some s) = refl

record_report-SameTimes :
    (c : Child) (r : Report) (t : List Schedule) → SameTimes (record_report c r t) t
unfolding record_schedule_result
record_report-SameTimes c (now, status, error) t id =
    ap run_times (
      get_schedule-update c.schedule.schedule_id (with_result now status error) t id
        (with_result_id now status error))
    ∙ ground (arith, run_times-with_result now status error (get_schedule id t))

finish_at-SameTimes :
    (n : ℕ) (r : Report) (cs : List Child) (t : List Schedule) → SameTimes (finish_at n r cs t).1 t
unfolding finish_at
finish_at-SameTimes n r [] t id = refl
finish_at-SameTimes zero r (c ∷ cs) t id = record_report-SameTimes c r t id
finish_at-SameTimes (suc n) r (c ∷ cs) t id = finish_at-SameTimes n r cs t id

-- Still not running, with the same table.
abbrev IsStill : Service → Service → Type 0
IsStill s n = (n.is_running ≡ false) × (n.table ≡ s.table)

if-IsStill :
    (s x y : Service) (b : Bool) → IsStill s x → IsStill s y → IsStill s (if b then x else y)
if-IsStill s x y true f g = f
if-IsStill s x y false f g = g

continued-IsStill :
    (n : ℕ) (s : Service) (o : Option Stopping) → s.is_running ≡ false → IsStill s (continued n s o)
continued-IsStill n s none h = (h, refl)
continued-IsStill n s (some awaits_loop) h =
    if-IsStill s _ _ (is_empty s.children) (h, refl) (h, refl)
continued-IsStill n s (some (awaits_children k)) h =
    if-IsStill s _ _ (all_done k s.children && all_done k s.loose) (h, refl) (h, refl)

begin_stop-IsStill : (s : Service) → IsStill s (begin_stop s)
unfolding begin_stop
begin_stop-IsStill s =
    if-IsStill s _ _ s.has_loop (refl, refl)
      (if-IsStill s _ _ (is_empty s.children) (refl, refl) (refl, refl))

SameTimes-table : {t u : List Schedule} → t ≡ u → SameTimes t u
SameTimes-table e id = ap (λ (x : List Schedule). run_times (get_schedule id x)) e

module _ (digit : ℕ → Option ℕ) (cron_next : CronNext) where
  abbrev pub is_start : {s n : Service} → ServiceStep digit cron_next s n → Bool
  is_start (starts enabled) = true
  is_start _ = false

  -- The steps of a service that nobody starts again.
  pub data Rest (s : Service) : Service → Type 0 where
    rest : Rest s s
    then_ :
        {m n : Service}
        → Rest s m
        → (st : ServiceStep digit cron_next m n) → is_start st ≡ false
        → Rest s n

  quiet_step :
      {s n : Service} (st : ServiceStep digit cron_next s n)
      → is_start st ≡ false
      → s.is_running ≡ false
      → (n.is_running ≡ false) × SameTimes n.table s.table
  quiet_step (starts enabled) q h = absurd (cc)
  quiet_step {s} (ticks now) q h = unfold tick in (rw h (refl, λ id. refl))
  quiet_step {s} (finishes n r) q h =
      unfold finish in (h, finish_at-SameTimes n r s.children s.table)
  quiet_step {s} (finishes_loose n r) q h =
      unfold finish_loose in (h, finish_at-SameTimes n r s.loose s.table)
  quiet_step {s} begins_stop q h = let (k, e) = begin_stop-IsStill s in (k, SameTimes-table e)
  quiet_step {s} (resumes_stop n) q h =
      let (k, e) = continued-IsStill n s (stop_at n s.stops) h in
      unfold resume_stop in (k, SameTimes-table e)

  all_quiet :
      {s n : Service}
      → Rest s n
      → s.is_running ≡ false
      → (n.is_running ≡ false) × SameTimes n.table s.table
  all_quiet rest h = (h, λ id. refl)
  all_quiet (then_ r st q) h =
      let (k, same) = all_quiet r h in
      let (k', same') = quiet_step st q k in (k', λ id. same' id ∙ same id)

  -- Once `stop` has begun, and until the service is started again, no step claims a schedule: every row
  -- keeps the time of its next run and of its last run, whatever ticks still come and however the
  -- children end.
  pub stopped_claims_nothing :
      (s : Service) {n : Service}
      → Rest (begin_stop s) n
      → (n.is_running ≡ false) × SameTimes n.table s.table
  stopped_claims_nothing s r =
      let (h, e) = begin_stop-IsStill s in
      let (k, same) = all_quiet r h in (k, λ id. same id ∙ SameTimes-table e id)
