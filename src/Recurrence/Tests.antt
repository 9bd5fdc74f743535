-- ===== src/Recurrence/Tests.antt =====
-- Intervals and next times, in microseconds.
use agent_os_langgraph.Prelude.{
  ℕ, ◌+◌, ◌-◌, ◌*◌, ◌≤◌, ◌<◌, ◌≡◌, refl, ◌&&◌, ◌⊎◌, Option, none, some, [], ◌∷◌, ok, err, key_error,
  leb, if◌then◌else◌, arith,
}
use agent_os_langgraph.Text.{Str, text, strip}
use agent_os_langgraph.Recurrence.{
  long_s, parse_interval, TriggerKind, interval, cron, CronNext, IsCron, coalesce_next_run,
}
use agent_os_langgraph.Recurrence.Coalesce.{coalesce_interval}
use agent_os_langgraph.Recurrence.Intervals.{IsIntervalError, parse_interval_errors}

abbrev ascii_digit : ℕ → Option ℕ
ascii_digit c = if leb b'0' c && leb c b'9' then some (c - b'0') else none

-- An expression that fires every second.
abbrev each_second : CronNext
each_second e z after = ok (after + 1000000)

each_second-IsCron : IsCron each_second
each_second-IsCron e z after n h = ground arith

two_minutes : parse_interval ascii_digit (text " 2m ") ≡ ok 120000000
unfolding parse_interval agent_os_langgraph.Recurrence.leading_number strip text
    agent_os_langgraph.Recurrence.interval_unit agent_os_langgraph.Recurrence.unit_of
    agent_os_langgraph.Recurrence.unit_seconds agent_os_langgraph.Recurrence.lower_unit
    agent_os_langgraph.Recurrence.interval_seconds agent_os_langgraph.Recurrence.timedelta_seconds
two_minutes = refl

abbrev next_time : ℕ
next_time = 360000000

missed :
    coalesce_next_run ascii_digit each_second interval (text " 2m ") (text "UTC") 0 250000000
    ≡ ok next_time
unfolding coalesce_next_run parse_interval agent_os_langgraph.Recurrence.leading_number strip text
    agent_os_langgraph.Recurrence.interval_unit agent_os_langgraph.Recurrence.unit_of
    agent_os_langgraph.Recurrence.unit_seconds agent_os_langgraph.Recurrence.lower_unit
    agent_os_langgraph.Recurrence.interval_seconds agent_os_langgraph.Recurrence.timedelta_seconds
missed = refl

coalesce_interval_example :
    (250000000 < next_time)
    × ((k : ℕ) × (next_time ≡ 0 + 120000000 * k))
    × ((next_time ≡ 0) ⊎ (next_time ≤ 250000000 + 120000000))
coalesce_interval_example =
    coalesce_interval ascii_digit each_second (text " 2m ") (text "UTC") 0 250000000 120000000
      next_time two_minutes missed

abbrev one_long_second : Str
one_long_second = b'1' ∷ long_s ∷ []

long_second_fails : parse_interval ascii_digit one_long_second ≡ err (key_error (long_s ∷ []))
unfolding parse_interval agent_os_langgraph.Recurrence.leading_number strip
    agent_os_langgraph.Recurrence.interval_unit agent_os_langgraph.Recurrence.unit_of
    agent_os_langgraph.Recurrence.unit_seconds agent_os_langgraph.Recurrence.lower_unit
long_second_fails = refl

parse_interval_errors_example : IsIntervalError (key_error (long_s ∷ []))
parse_interval_errors_example =
    parse_interval_errors ascii_digit one_long_second (key_error (long_s ∷ [])) long_second_fails
