-- ===== src/Schedules.antt =====
-- agent_os/schedules.py: the table of schedules, and the claim of those that are due. Each function
-- is one transaction; the times, which the table holds as ISO texts of one zone, are in microseconds.
pub mod Table
pub mod Claims
pub mod Success
pub mod Fields
pub mod Create
pub mod Callbacks
pub mod Tests
use agent_os_langgraph.Prelude.{
  ℕ, ◌+◌, ◌≡◌, refl, Bool, true, false, ◌&&◌, ◌||◌, Option, none, some, List, [], ◌∷◌, leb, ltb,
  if◌then◌else◌, Result, ok, err, ◌>>=◌, select, take,
}
use agent_os_langgraph.Text.{Str, text, str_eq}
use agent_os_langgraph.Recurrence.{TriggerKind, CronNext, coalesce_next_run}

-- The kind of work that a schedule starts.
pub data ScheduleKind : Type 0 where
  run brief app_callback : ScheduleKind

-- A row of `schedules`; the payload is its JSON.
pub record Schedule : Type 0 where
  pub schedule_id : Str
  pub name : Str
  pub kind : ScheduleKind
  pub trigger_kind : TriggerKind
  pub trigger_value : Str
  pub timezone : Str
  pub payload : Str
  pub enabled : Bool
  pub next_run : ℕ
  pub last_run : Option ℕ
  pub last_status : Option Str
  pub last_error : Option Str
  pub created_at : ℕ
  pub updated_at : ℕ

-- `SELECT * FROM schedules WHERE schedule_id = ?`
unfoldable pub get_schedule : Str → List Schedule → Option Schedule
get_schedule id [] = none
get_schedule id (s ∷ ss) = if str_eq id s.schedule_id then some s else get_schedule id ss

-- `UPDATE schedules SET … WHERE schedule_id = ?`, with whether a row has that id
unfoldable pub update_schedule : Str → (Schedule → Schedule) → List Schedule → Bool × List Schedule
update_schedule id f [] = (false, [])
update_schedule id f (s ∷ ss) =
    let (found, ss') = update_schedule id f ss in
    if str_eq id s.schedule_id then (true, f s ∷ ss') else (found, s ∷ ss')

-- `DELETE FROM schedules WHERE schedule_id = ?`
unfoldable pub remove_schedule : Str → List Schedule → Bool × List Schedule
remove_schedule id [] = (false, [])
remove_schedule id (s ∷ ss) =
    let (found, ss') = remove_schedule id ss in
    if str_eq id s.schedule_id then (true, ss') else (found, s ∷ ss')

unfoldable pub with_enabled : ℕ → Bool → Schedule → Schedule
with_enabled now enabled s = record s { enabled = enabled; updated_at = now }

unfoldable pub set_schedule_enabled : ℕ → Str → Bool → List Schedule → Bool × List Schedule
unfolding with_enabled
set_schedule_enabled now id enabled t = update_schedule id (with_enabled now enabled) t

unfoldable pub with_result : ℕ → Str → Option Str → Schedule → Schedule
with_result now status error s = record s {
  last_status = some status;
  last_error = error;
  updated_at = now;
}

unfoldable pub record_schedule_result : ℕ → Str → Str → Option Str → List Schedule → List Schedule
unfolding with_result
record_schedule_result now id status error t =
    (update_schedule id (with_result now status error) t).1

-- `WHERE enabled = 1 AND next_run_at <= ?`
abbrev pub is_due : ℕ → Schedule → Bool
is_due now s = s.enabled && leb s.next_run now

-- `ORDER BY next_run_at ASC`
unfoldable pub insert_by_next : Schedule → List Schedule → List Schedule
insert_by_next s [] = s ∷ []
insert_by_next s (r ∷ rs) =
    if leb s.next_run r.next_run then s ∷ r ∷ rs else r ∷ insert_by_next s rs

unfoldable pub sort_by_next : List Schedule → List Schedule
unfolding insert_by_next
sort_by_next [] = []
sort_by_next (s ∷ ss) = insert_by_next s (sort_by_next ss)

-- The rows that a claim selects.
unfoldable pub due_rows : ℕ → ℕ → List Schedule → List Schedule
unfolding sort_by_next
due_rows now limit t = take limit (sort_by_next (select (is_due now) t))

-- `SET next_run_at = ?, last_run_at = ?, updated_at = ?`
unfoldable pub advanced : ℕ → ℕ → Schedule → Schedule
advanced now next s = record s { next_run = next; last_run = some now; updated_at = now }

module _ (digit : ℕ → Option ℕ) (cron_next : CronNext) where
  -- The loop over the selected rows.
  unfoldable pub advance_rows : ℕ → List Schedule → List Schedule → Result (List Schedule)
  unfolding advanced
  advance_rows now [] t = ok t
  advance_rows now (r ∷ rs) t = do
    next ←
        coalesce_next_run digit cron_next r.trigger_kind r.trigger_value r.timezone r.next_run now
    advance_rows now rs (update_schedule r.schedule_id (advanced now next) t).1

  -- The claimed rows, as they were, and the table after the commit. An exception leaves the
  -- transaction uncommitted, and the table as it was.
  unfoldable pub claim_due_schedules :
      ℕ → ℕ → List Schedule → Result (List Schedule × List Schedule)
  unfolding due_rows advance_rows
  claim_due_schedules now limit t = do
    t' ← advance_rows now (due_rows now limit t) t
    ok (due_rows now limit t, t')
