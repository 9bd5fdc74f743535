-- ===== src/Recurrence.antt =====
-- agent_os/schedule_recurrence.py: intervals, and when a schedule runs next. A point in time is a
-- number of microseconds, as the parts of a `datetime` in UTC make one.
pub mod Coalesce
pub mod Intervals
mod Tests
use agent_os_langgraph.Prelude.{
  ◌≤◌, ℕ, suc, ◌+◌, ◌-◌, ◌*◌, ◌/◌, ◌≡◌, refl, Bool, true, false, Option, none, some, List, [], ◌∷◌,
  ◌++◌, ltb, ◌==◌, if◌then◌else◌, Result, ok, err, value_error, key_error, other, ◌>>=◌, ◌>>◌,
}
use agent_os_langgraph.Text.{Str, text, str_eq, is_space, strip, lstrip_by}

-- `re.IGNORECASE` lets the long s of U+017F stand for s too.
abbrev pub long_s : ℕ
long_s = 0x17f

-- `[smhd]` under `re.IGNORECASE`
unfoldable pub unit_of : ℕ → Option ℕ
unit_of c =
    if c == b's'
    then some c
    else if c == b'm'
    then some c
    else if c == b'h'
    then some c
    else if c == b'd'
    then some c
    else if c == b'S'
    then some c
    else if c == b'M'
    then some c
    else if c == b'H'
    then some c
    else if c == b'D'
    then some c
    else if c == long_s
    then some c
    else none

-- `unit.lower()` of such a character; the long s is a lower-case letter.
unfoldable pub lower_unit : ℕ → ℕ
lower_unit c = if ltb c 97 then c + 32 else c

-- `_UNIT_SECONDS[unit]`
unfoldable pub unit_seconds : ℕ → Result ℕ
unit_seconds u =
    if u == b's'
    then ok 1
    else if u == b'm'
    then ok 60
    else if u == b'h'
    then ok 3600
    else if u == b'd'
    then ok 86400
    else err (key_error (u ∷ []))

-- `dt.timedelta(seconds=n)` holds at most 999999999 days.
unfoldable pub timedelta_seconds : ℕ → Result ℕ
timedelta_seconds n =
    if ltb 999999999 (n / 86400) then err (other (text "OverflowError")) else ok (n * 1000000)

abbrev invalid_interval : Result ℕ
invalid_interval = err (value_error (text "Invalid interval"))

-- The end of the pattern: nothing, or one unit.
unfoldable pub interval_unit : Str → Result ℕ
interval_unit [] = ok b's'
interval_unit (c ∷ []) = elim (unit_of c) [ some u ↦ ok (lower_unit u) | none ↦ invalid_interval ]
interval_unit (c ∷ d ∷ s) = invalid_interval

-- A positive number of seconds.
unfoldable pub interval_seconds : ℕ → Result ℕ
interval_seconds total =
    if total == 0
    then err (value_error (text "Interval must be positive"))
    else timedelta_seconds total

-- `\d` and `int` of a digit are a table of Unicode; the messages leave out the value that they show.
module _ (digit : ℕ → Option ℕ) where
  -- The digits in front, as a number, and the rest; `none` where there is no digit.
  unfoldable pub leading_number : Option ℕ → Str → Option ℕ × Str
  leading_number acc [] = (acc, [])
  leading_number acc (c ∷ s) = elim (digit c) [
    | none ↦ (acc, c ∷ s)
    | some d ↦ leading_number (some (elim acc [ none ↦ d | some n ↦ n * 10 + d ])) s
  ]

  abbrev interval_of : Option ℕ × Str → Result ℕ
  interval_of (none, rest) = invalid_interval
  interval_of (some n, rest) = do
    unit ← interval_unit (lstrip_by is_space rest)
    factor ← unit_seconds unit
    interval_seconds (n * factor)

  -- In microseconds.
  unfoldable pub parse_interval : Str → Result ℕ
  parse_interval value = interval_of (leading_number none (strip value))

pub data TriggerKind : Type 0 where
  cron interval : TriggerKind

-- What `croniter` and `zoneinfo` compute: the next occurrence of an expression in a zone.
abbrev pub CronNext : Type 0
CronNext = Str → Str → ℕ → Result ℕ

-- `croniter.get_next` returns a time after the given one.
abbrev pub IsCron : CronNext → Type 0
IsCron cron_next = (e z : Str) (after n : ℕ) → cron_next e z after ≡ ok n → suc after ≤ n

module _ (digit : ℕ → Option ℕ) (cron_next : CronNext) where
  unfoldable pub next_run_at : TriggerKind → Str → Str → ℕ → Result ℕ
  next_run_at cron value timezone after = cron_next value timezone after
  next_run_at interval value timezone after = do
    delta ← parse_interval digit value
    ok (after + delta)

  abbrev coalesce_missed : TriggerKind → Str → Str → ℕ → ℕ → Result ℕ
  coalesce_missed cron value timezone persisted now = next_run_at cron value timezone now
  coalesce_missed interval value timezone persisted now = do
    delta ← parse_interval digit value
    let skips = (now - persisted) / delta + 1
    ok (persisted + delta * skips)

  unfoldable pub coalesce_next_run : TriggerKind → Str → Str → ℕ → ℕ → Result ℕ
  unfolding next_run_at
  coalesce_next_run kind value timezone persisted now =
      if ltb now persisted then ok persisted else coalesce_missed kind value timezone persisted now
