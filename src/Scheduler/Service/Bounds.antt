-- ===== src/Scheduler/Service/Bounds.antt =====
-- agent_os/scheduler.py, `SchedulerService`: the children of the service, and what a tick adds.
use agent_os_langgraph.Prelude.{
  ℕ, zero, suc, ◌-◌, ◌≤◌, ◌≡◌, refl, Bool, true, false, ◌+◌, ◌&&◌, ap, all, is_empty, ltb, take,
  drop, sym, ◌∙◌, Bool-cases, Result-cases, inl, inr, map, Option, none, some, List, [], ◌∷◌, leb,
  if◌then◌else◌, Result, ok, err, length, length-append, length-take_le, arith, select,
}
use agent_os_langgraph.Text.{Str}
use agent_os_langgraph.Recurrence.{CronNext}
use agent_os_langgraph.Schedules.{
  Schedule, claim_due_schedules, record_schedule_result, with_result, due_rows, is_due,
  get_schedule,
}
use agent_os_langgraph.Schedules.Table.{IsUnique, update-IsUnique, has_id, due_at}
use agent_os_langgraph.Schedules.Claims.{claim_parts, advance_rows-IsUnique, claim_takes_all_due}
use agent_os_langgraph.RunExecutor.{is_raised}
use agent_os_langgraph.Scheduler.Results.{with_result_id}
use agent_os_langgraph.Scheduler.Service.Children.{
  every_child, schedules-numbered, parts_of_all, parts-append, none_of_length, length-numbered,
  numbered_fresh, fresh_append,
}
use agent_os_langgraph.Scheduler.Service.{
  Service, Report, Child, Stopping, awaits_loop, awaits_children, start_service, record_report,
  finish_at, finish, finish_loose, begin_stop, await_children, stop_at, all_done, continued,
  resume_stop, numbered, spawn, tick, ServiceStep, starts, ticks, finishes, finishes_loose,
  begins_stop, resumes_stop, ServiceReach, at_service, then_service, max_children,
}

-- At most ten children, whose numbers have all been given, and no schedule id twice.
pub record IsFit (s : Service) : Type 0 where
  pub bounded : length s.children ≤ 10
  pub fresh : all (λ c. ltb c.number s.next_number) s.children ≡ true
  pub unique : IsUnique s.table

record_report-IsUnique :
    (c : Child) (r : Report) (t : List Schedule) → IsUnique t → IsUnique (record_report c r t)
unfolding record_schedule_result
record_report-IsUnique c (now, status, error) t u =
    update-IsUnique c.schedule.schedule_id (with_result now status error) t
      (with_result_id now status error) u

finish_at_lem :
    (p : Child → Bool) (n : ℕ) (r : Report) (cs : List Child) (t : List Schedule)
    → all p cs ≡ true
    → IsUnique t
    → let (cs', t') = finish_at n r cs t in
      (length cs' ≤ length cs) × (all p cs' ≡ true) × IsUnique t'
unfolding finish_at
finish_at_lem p n r [] t h u = (omega arith, refl, u)
finish_at_lem p zero r (c ∷ cs) t h u = (omega arith, ground arith, record_report-IsUnique c r t u)
finish_at_lem p (suc n) r (c ∷ cs) t h u =
    let (l, k, v) = finish_at_lem p n r cs t (ground arith) u in (omega arith, ground arith, v)

if-IsFit : {x y : Service} (b : Bool) → IsFit x → IsFit y → IsFit (if b then x else y)
if-IsFit true f g = f
if-IsFit false f g = g

start_service-IsFit : (enabled : Bool) (s : Service) → IsFit s → IsFit (start_service enabled s)
unfolding start_service
start_service-IsFit enabled s f =
    if-IsFit s.is_running f
      (if-IsFit enabled (record { bounded = f.bounded; fresh = f.fresh; unique = f.unique }) f)

await_children-IsFit : (s : Service) → IsFit s → IsFit (await_children s)
await_children-IsFit s f =
    if-IsFit (is_empty s.children) f
      (record { bounded = f.bounded; fresh = f.fresh; unique = f.unique })

continued-IsFit : (n : ℕ) (s : Service) (o : Option Stopping) → IsFit s → IsFit (continued n s o)
continued-IsFit n s none f = f
continued-IsFit n s (some awaits_loop) f =
    await_children-IsFit _ (record { bounded = f.bounded; fresh = f.fresh; unique = f.unique })
continued-IsFit n s (some (awaits_children k)) f =
    if-IsFit (all_done k s.children && all_done k s.loose)
      (record { bounded = omega arith; fresh = refl; unique = f.unique }) f

module _ (digit : ℕ → Option ℕ) (cron_next : CronNext) where
  claimed_few :
      (now : ℕ) (s : Service) (rows t : List Schedule)
      → claim_due_schedules digit cron_next now (10 - length s.children) s.table ≡ ok (rows, t)
      → length rows ≤ 10 - length s.children
  claimed_few now s rows t h =
      let (same, moves) = claim_parts digit cron_next now _ s.table rows t h in
      rw same (unfold due_rows in length-take_le (10 - length s.children) _)

  spawn-IsFit :
      (now : ℕ) (s : Service) (r : Result (List Schedule × List Schedule))
      → claim_due_schedules digit cron_next now (max_children - length s.children) s.table ≡ r
      → IsFit s
      → IsFit (spawn digit cron_next s r)
  spawn-IsFit now s (err e) h f = f
  spawn-IsFit now s (ok (rows, t)) h f =
      let (same, moves) = claim_parts digit cron_next now _ s.table rows t h in
      let few = claimed_few now s rows t h in
      let b = f.bounded in
      let sum = length-append s.children (numbered s.next_number rows) in
      let more = length-numbered s.next_number rows in
      record {
        bounded = omega arith;
        fresh =
            fresh_append s.next_number (s.next_number + length rows) s.children _ (omega arith)
              f.fresh (numbered_fresh s.next_number _ rows (omega arith));
        unique = advance_rows-IsUnique digit cron_next now _ s.table t moves f.unique;
      }

  tick-IsFit : (now : ℕ) (s : Service) → IsFit s → IsFit (tick digit cron_next now s)
  unfolding tick
  tick-IsFit now s f =
      if-IsFit s.is_running
        (if-IsFit (leb max_children (length s.children)) f (spawn-IsFit now s _ refl f)) f

  ServiceStep-IsFit : {s n : Service} → ServiceStep digit cron_next s n → IsFit s → IsFit n
  ServiceStep-IsFit {s} (starts enabled) f = start_service-IsFit enabled s f
  ServiceStep-IsFit {s} (ticks now) f = tick-IsFit now s f
  ServiceStep-IsFit {s} (finishes n r) f =
      let (l, g, u) =
        finish_at_lem (λ c. ltb c.number s.next_number) n r s.children s.table f.fresh f.unique in
      let b = f.bounded in
      unfold finish in (record { bounded = omega arith; fresh = g; unique = u })
  ServiceStep-IsFit {s} (finishes_loose n r) f =
      let (l, g, u) =
        finish_at_lem (λ c. true) n r s.loose s.table (every_child s.loose) f.unique in
      unfold finish_loose in (record { bounded = f.bounded; fresh = f.fresh; unique = u })
  ServiceStep-IsFit {s} begins_stop f =
      unfold begin_stop in
      (if-IsFit s.has_loop (record { bounded = f.bounded; fresh = f.fresh; unique = f.unique })
        (await_children-IsFit _
          (record { bounded = f.bounded; fresh = f.fresh; unique = f.unique })))
  ServiceStep-IsFit {s} (resumes_stop n) f =
      unfold resume_stop in (continued-IsFit n s (stop_at n s.stops) f)

  -- From a fit state, however starts, ticks, ends of tasks and overlapping stops interleave, the service
  -- never has more than ten children, the number of a new task is never that of a child, and the table
  -- never has a schedule id twice.
  pub ServiceReach-IsFit : {s n : Service} → IsFit s → ServiceReach digit cron_next s n → IsFit n
  ServiceReach-IsFit f at_service = f
  ServiceReach-IsFit f (then_service r st) = ServiceStep-IsFit st (ServiceReach-IsFit f r)

  -- A tick of a running service, where its claim succeeds and its free places cover the due schedules,
  -- leaves the old children in front of the new ones, the new ones are for exactly the enabled and due
  -- schedules, and there are at most ten children.
  pub tick_lem :
      (now : ℕ) (s : Service)
      → IsFit s
      → s.is_running ≡ true
      → length (select (is_due now) s.table) ≤ 10 - length s.children
      → is_raised (claim_due_schedules digit cron_next now (10 - length s.children) s.table) ≡ false
      → let n = tick digit cron_next now s in
        (length n.children ≤ 10)
        × (take (length s.children) n.children ≡ s.children)
        × ((id : Str)
            → has_id id (map (λ c. c.schedule) (drop (length s.children) n.children))
              ≡ due_at now (get_schedule id s.table))
  unfolding tick
  tick_lem now s f runs covers fine =
      elim (Result-cases
        (claim_due_schedules digit cron_next now (10 - length s.children) s.table)) [
          | inr (x, e) ↦ absurd (cc (e, fine))
          | inl ((rows, t), e) ↦
              let found =
                claim_takes_all_due digit cron_next now _ s.table rows t f.unique covers e in
              let few = claimed_few now s rows t e in
              let b = f.bounded in
              elim (Bool-cases (leb max_children (length s.children))) [
                | inl full ↦
                    let (a, d) = parts_of_all s.children in
                    let nothing : rows ≡ [] = none_of_length rows (ground (arith, full, few)) in
                    rw (runs, full) (b, a, λ id. rw d (ap (has_id id) (sym nothing) ∙ found id))
                | inr free ↦
                    let (a, d) = parts-append s.children (numbered s.next_number rows) in
                    let sum = length-append s.children (numbered s.next_number rows) in
                    let more = length-numbered s.next_number rows in
                    rw (runs, free, e)
                      (
                        omega arith,
                        a,
                        λ id. rw (d, schedules-numbered s.next_number rows) (found id),
                      )
              ]
        ]
