-- ===== src/Schedules/Success.antt =====
-- agent_os/schedules.py: when `claim_due_schedules` raises nothing.
use agent_os_langgraph.Prelude.{ℕ, ◌≡◌, refl, All, Option, List, [], ◌∷◌, ok}
use agent_os_langgraph.Recurrence.{CronNext, coalesce_next_run}
use agent_os_langgraph.Schedules.{
  Schedule, update_schedule, due_rows, advanced, advance_rows, claim_due_schedules,
}

module _ (digit : ℕ → Option ℕ) (cron_next : CronNext) where
  -- A trigger whose next time can be computed.
  abbrev pub Recurs : ℕ → Schedule → Type 0
  Recurs now s =
      (n : ℕ) × (coalesce_next_run digit cron_next s.trigger_kind s.trigger_value s.timezone
          s.next_run now
        ≡ ok n)

  advance_rows_total :
      (now : ℕ) (rs t : List Schedule)
      → All (Recurs now) rs
      → (t' : List Schedule) × (advance_rows digit cron_next now rs t ≡ ok t')
  unfolding advance_rows
  advance_rows_total now [] t h = (t, refl)
  advance_rows_total now (r ∷ rs) t ((n, e), h) =
      let (t', rest) =
        advance_rows_total now rs (update_schedule r.schedule_id (advanced now n) t).1 h in
      (t', rw e rest)

  -- A claim succeeds if the next time of each row that it selects can be computed.
  pub claim_due_schedules_total :
      (now limit : ℕ) (t : List Schedule)
      → All (Recurs now) (due_rows now limit t)
      → (t' : List Schedule) × (claim_due_schedules digit cron_next now limit t
          ≡ ok (due_rows now limit t, t'))
  unfolding claim_due_schedules
  claim_due_schedules_total now limit t h =
      let (t', e) = advance_rows_total now (due_rows now limit t) t h in (t', rw e refl)
