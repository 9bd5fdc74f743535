-- ===== src/Scheduler/Service.antt =====
-- agent_os/scheduler.py, `SchedulerService`: the service as a record, and its steps between two
-- points where the event loop may switch.
mod Children
pub mod Bounds
pub mod Quiet
use agent_os_langgraph.Prelude.{
  ℕ, zero, suc, ◌+◌, ◌-◌, ◌≡◌, refl, Bool, true, false, ◌&&◌, Option, none, some, List, [], ◌∷◌,
  ◌++◌, leb, map, any, all, not, ◌==◌, is_empty, if◌then◌else◌, Result, ok, err, length,
}
use agent_os_langgraph.Text.{Str, text, mem_str}
use agent_os_langgraph.Recurrence.{CronNext}
use agent_os_langgraph.Schedules.{Schedule, claim_due_schedules, record_schedule_result}

-- A task of `_managed_dispatch`: its number, in the order of creation, and its schedule.
pub record Child : Type 0 where
  pub number : ℕ
  pub schedule : Schedule

-- Where a call of `stop` waits: for the loop's task, or for the children that were there when it began
-- to wait for them.
pub data Stopping : Type 0 where
  awaits_loop : Stopping
  awaits_children : List ℕ → Stopping

-- `SchedulerService` with the table of schedules: `children` are the tasks of `_child_tasks`, `loose`
-- the tasks that go on outside that set, and `stops` the calls of `stop` that have not ended.
pub record Service : Type 0 where
  pub is_running : Bool
  pub has_loop : Bool
  pub children : List Child
  pub loose : List Child
  pub stops : List Stopping
  pub next_number : ℕ
  pub table : List Schedule

-- What `dispatch_schedule` records for a child: the time, the status and the error.
abbrev pub Report : Type 0
Report = ℕ × Str × Option Str

-- `enabled`: `lower` is `str.lower`, and the argument the variable `AGENT_OS_SCHEDULER_ENABLED`.
abbrev pub is_enabled : (Str → Str) → Option Str → Bool
is_enabled lower none = true
is_enabled lower (some v) = mem_str (lower v) (text "true" ∷ text "1" ∷ text "yes" ∷ text "on" ∷ [])

unfoldable pub start_service : Bool → Service → Service
start_service enabled s =
    if s.is_running
    then s
    else if enabled
    then record s { is_running = true; has_loop = true }
    else s

abbrev pub max_children : ℕ
max_children = 10

abbrev pub record_report : Child → Report → List Schedule → List Schedule
record_report c (now, status, error) t =
    record_schedule_result now c.schedule.schedule_id status error t

-- The task at a place is done: it leaves the others, and its result is recorded.
unfoldable pub finish_at : ℕ → Report → List Child → List Schedule → List Child × List Schedule
finish_at n r [] t = ([], t)
finish_at zero r (c ∷ cs) t = (cs, record_report c r t)
finish_at (suc n) r (c ∷ cs) t = let (cs', t') = finish_at n r cs t in (c ∷ cs', t')

unfoldable pub finish : ℕ → Report → Service → Service
unfolding finish_at
finish n r s =
    let (cs, t) = finish_at n r s.children s.table in record s { children = cs; table = t }

unfoldable pub finish_loose : ℕ → Report → Service → Service
unfolding finish_at
finish_loose n r s =
    let (cs, t) = finish_at n r s.loose s.table in record s { loose = cs; table = t }

abbrev pub numbers : List Child → List ℕ
numbers cs = map (λ c. c.number) cs

-- The last part of `stop`, which ends at once where there are no children.
abbrev pub await_children : Service → Service
await_children s =
    if is_empty s.children
    then s
    else record s { stops = s.stops ++ awaits_children (numbers s.children) ∷ [] }

-- `stop` up to the first point where it waits.
unfoldable pub begin_stop : Service → Service
begin_stop s =
    if s.has_loop
    then record s { is_running = false; stops = s.stops ++ awaits_loop ∷ [] }
    else await_children (record s { is_running = false })

abbrev pub stop_at : ℕ → List Stopping → Option Stopping
stop_at n [] = none
stop_at zero (x ∷ xs) = some x
stop_at (suc n) (x ∷ xs) = stop_at n xs

abbrev pub without : ℕ → List Stopping → List Stopping
without n [] = []
without zero (x ∷ xs) = xs
without (suc n) (x ∷ xs) = x ∷ without n xs

abbrev pub mem_number : ℕ → List ℕ → Bool
mem_number n xs = any (λ k. k == n) xs

-- Whether none of the tasks of a snapshot goes on.
abbrev pub all_done : List ℕ → List Child → Bool
all_done snapshot cs = all (λ c. not (mem_number c.number snapshot)) cs

-- The call of `stop` goes on: after the loop's task it waits for the children, and after those it clears
-- the set, whatever is in it by then.
abbrev pub continued : ℕ → Service → Option Stopping → Service
continued n s none = s
continued n s (some awaits_loop) =
    await_children (record s { has_loop = false; stops = without n s.stops })
continued n s (some (awaits_children snapshot)) =
    if all_done snapshot s.children && all_done snapshot s.loose
    then record s { stops = without n s.stops; children = []; loose = s.loose ++ s.children }
    else s

unfoldable pub resume_stop : ℕ → Service → Service
resume_stop n s = continued n s (stop_at n s.stops)

abbrev pub numbered : ℕ → List Schedule → List Child
numbered n [] = []
numbered n (s ∷ ss) = record { number = n; schedule = s } ∷ numbered (suc n) ss

module _ (digit : ℕ → Option ℕ) (cron_next : CronNext) where
  -- The claimed schedules become children; an exception is logged.
  abbrev pub spawn : Service → Result (List Schedule × List Schedule) → Service
  spawn s (err e) = s
  spawn s (ok (rows, t)) = record s {
    children = s.children ++ numbered s.next_number rows;
    next_number = s.next_number + length rows;
    table = t;
  }

  unfoldable pub tick : ℕ → Service → Service
  tick now s =
      if s.is_running
      then (if leb max_children (length s.children)
          then s
          else spawn s
              (claim_due_schedules digit cron_next now (max_children - length s.children) s.table))
      else s

  -- One step of the service.
  pub data ServiceStep (s : Service) : Service → Type 0 where
    starts : (enabled : Bool) → ServiceStep s (start_service enabled s)
    ticks : (now : ℕ) → ServiceStep s (tick now s)
    finishes : (n : ℕ) (r : Report) → ServiceStep s (finish n r s)
    finishes_loose : (n : ℕ) (r : Report) → ServiceStep s (finish_loose n r s)
    begins_stop : ServiceStep s (begin_stop s)
    resumes_stop : (n : ℕ) → ServiceStep s (resume_stop n s)

  pub data ServiceReach (s : Service) : Service → Type 0 where
    at_service : ServiceReach s s
    then_service : {m n : Service} → ServiceReach s m → ServiceStep m n → ServiceReach s n
