-- ===== src/Schedules/Tests.antt =====
-- A table with a schedule that has missed three of its occurrences.
use agent_os_langgraph.Prelude.{
  ℕ, ◌+◌, ◌-◌, ◌≤◌, ◌≡◌, refl, true, false, not, ◌&&◌, ◌⊎◌, Option, none, some, List, [], ◌∷◌, ok,
  leb, if◌then◌else◌, arith, length, All, Result,
}
use agent_os_langgraph.Text.{Str, text, str_eq}
use agent_os_langgraph.Recurrence.{TriggerKind, CronNext, IsCron, coalesce_next_run}
use agent_os_langgraph.Schedules.{
  Schedule, run, app_callback, get_schedule, is_due, due_rows, claim_due_schedules,
  set_schedule_enabled,
}
use agent_os_langgraph.Schedules.Fields.{Payload, string, Outside, validate_callback}
use agent_os_langgraph.Schedules.Callbacks.{IsSendable, validate_callback-IsSendable}
use agent_os_langgraph.Schedules.Create.{create_schedule, create_schedule_lem}
use agent_os_langgraph.Schedules.Table.{IsUnique, has_id, due_at}
use agent_os_langgraph.Schedules.Claims.{runs_after, claim_due_schedules_lem, no_double_claim}
use agent_os_langgraph.Schedules.Success.{Recurs}

abbrev pub ascii_digit : ℕ → Option ℕ
ascii_digit c = if leb b'0' c && leb c b'9' then some (c - b'0') else none

abbrev pub each_second : CronNext
each_second e z after = ok (after + 1000000)

each_second-IsCron : IsCron each_second
each_second-IsCron e z after n h = ground arith

abbrev pub missed_row : Schedule
missed_row = record {
  schedule_id = text "a";
  name = text "digest";
  kind = run;
  trigger_kind = TriggerKind.interval;
  trigger_value = text "1m";
  timezone = text "UTC";
  payload = text "{}";
  enabled = true;
  next_run = 60000000;
  last_run = none;
  last_status = none;
  last_error = none;
  created_at = 0;
  updated_at = 0;
}

abbrev pub future_row : Schedule
future_row = record missed_row { schedule_id = text "b"; next_run = 900000000 }

abbrev pub table : List Schedule
table = missed_row ∷ future_row ∷ []

pub table-IsUnique : IsUnique table
unfolding get_schedule text str_eq
table-IsUnique = (refl, (refl, tt))

abbrev moved_row : Schedule
moved_row = record missed_row {
  next_run = 300000000;
  last_run = some 250000000;
  updated_at = 250000000;
}

abbrev pub claimed_table : List Schedule
claimed_table = moved_row ∷ future_row ∷ []

pub claims :
    claim_due_schedules ascii_digit each_second 250000000 10 table
    ≡ ok (missed_row ∷ [], claimed_table)
unfolding claim_due_schedules agent_os_langgraph.Recurrence.coalesce_next_run
    agent_os_langgraph.Recurrence.parse_interval agent_os_langgraph.Recurrence.leading_number
    agent_os_langgraph.Text.strip text agent_os_langgraph.Recurrence.interval_unit
    agent_os_langgraph.Recurrence.unit_of agent_os_langgraph.Recurrence.unit_seconds
    agent_os_langgraph.Recurrence.lower_unit agent_os_langgraph.Recurrence.interval_seconds
    agent_os_langgraph.Recurrence.timedelta_seconds agent_os_langgraph.Schedules.update_schedule
    str_eq
claims = refl

claims_none :
    claim_due_schedules ascii_digit each_second 250000000 10 claimed_table ≡ ok ([], claimed_table)
unfolding claim_due_schedules
claims_none = refl

claim_due_schedules_lem_example :
    (length (missed_row ∷ []) ≤ 10)
    × IsUnique claimed_table
    × ((id : Str)
        → (has_id id (missed_row ∷ []) && not (due_at 250000000 (get_schedule id table))) ≡ false)
    × ((id : Str)
        → ((has_id id (missed_row ∷ []) && runs_after 250000000 (get_schedule id claimed_table))
            ≡ true)
          ⊎ ((has_id id (missed_row ∷ []) ≡ false)
              × (get_schedule id claimed_table ≡ get_schedule id table)))
claim_due_schedules_lem_example =
    claim_due_schedules_lem ascii_digit each_second each_second-IsCron 250000000 10 table
      (missed_row ∷ []) claimed_table table-IsUnique claims

no_double_claim_example : (has_id (text "a") (missed_row ∷ []) && has_id (text "a") []) ≡ false
no_double_claim_example =
    no_double_claim ascii_digit each_second each_second-IsCron 250000000 10 250000000 10 table
      (missed_row ∷ []) claimed_table [] claimed_table table-IsUnique claims (omega arith)
      claims_none (text "a")

selects_missed : due_rows 250000000 10 table ≡ missed_row ∷ []
unfolding due_rows
selects_missed = refl

missed_recurs :
    coalesce_next_run ascii_digit each_second TriggerKind.interval
      (text "1m")
      (text "UTC")
      60000000
      250000000
    ≡ ok 300000000
unfolding coalesce_next_run agent_os_langgraph.Recurrence.parse_interval
    agent_os_langgraph.Recurrence.leading_number agent_os_langgraph.Text.strip text
    agent_os_langgraph.Recurrence.interval_unit agent_os_langgraph.Recurrence.unit_of
    agent_os_langgraph.Recurrence.unit_seconds agent_os_langgraph.Recurrence.lower_unit
    agent_os_langgraph.Recurrence.interval_seconds agent_os_langgraph.Recurrence.timedelta_seconds
missed_recurs = refl

recurs : All (Recurs ascii_digit each_second 250000000) (due_rows 250000000 10 table)
recurs = rw selects_missed ((300000000, missed_recurs), tt)

abbrev switched_off : List Schedule
switched_off = (set_schedule_enabled 5 (text "a") false table).1

claims_no_disabled :
    claim_due_schedules ascii_digit each_second 250000000 10 switched_off ≡ ok ([], switched_off)
unfolding claim_due_schedules set_schedule_enabled agent_os_langgraph.Schedules.update_schedule
    str_eq text
claims_no_disabled = refl

-- The packages outside, for ASCII letters and one URL.
abbrev plain : Outside
plain = record {
  digit = ascii_digit;
  lower = λ s. s;
  upper = λ s. s;
  urlsplit = λ s. ok (record { scheme = text "https"; hostname = some (text "example.org") });
  zone = λ s. ok tt;
  croniter = λ s. ok tt;
}

abbrev callback : Payload
callback = (text "url", string (text " https://example.org/hook ")) ∷ []

abbrev stored_callback : Payload
stored_callback =
    (text "url", string (text "https://example.org/hook"))
    ∷ (text "method", string (text "POST"))
    ∷ []

accepts_callback : validate_callback plain callback ≡ ok stored_callback
unfolding validate_callback agent_os_langgraph.Schedules.Fields.field str_eq text
    agent_os_langgraph.Schedules.Fields.validate_app_callback_url agent_os_langgraph.Text.mem_str
    agent_os_langgraph.Text.strip
accepts_callback = refl

validate_callback-IsSendable_example : IsSendable plain stored_callback
validate_callback-IsSendable_example =
    validate_callback-IsSendable plain callback stored_callback accepts_callback

abbrev dumps : Payload → Result Str
dumps p = ok (text "{}")

abbrev created_row : Schedule
created_row = record missed_row {
  schedule_id = text "c";
  kind = app_callback;
  next_run = 1060000000;
  created_at = 1000000000;
  updated_at = 1000000000;
}

creates :
    create_schedule plain each_second dumps
      (text "c")
      1000000000
      (text "digest")
      (text "app_callback")
      (text "interval")
      (text "1m")
      (text "UTC")
      callback
      true
      table
    ≡ ok (text "c", missed_row ∷ future_row ∷ created_row ∷ [])
unfolding create_schedule validate_callback get_schedule str_eq text
    agent_os_langgraph.Schedules.Create.new_schedule
    agent_os_langgraph.Schedules.Fields.validate_schedule_fields
    agent_os_langgraph.Schedules.Fields.only_keys agent_os_langgraph.Schedules.Fields.field
    agent_os_langgraph.Schedules.Fields.validate_app_callback_url
    agent_os_langgraph.Schedules.Fields.set_field
    agent_os_langgraph.Schedules.Fields.validate_payload
    agent_os_langgraph.Schedules.Fields.validate_trigger
    agent_os_langgraph.Recurrence.parse_interval agent_os_langgraph.Recurrence.leading_number
    agent_os_langgraph.Recurrence.interval_unit agent_os_langgraph.Recurrence.unit_of
    agent_os_langgraph.Recurrence.unit_seconds agent_os_langgraph.Recurrence.lower_unit
    agent_os_langgraph.Recurrence.interval_seconds agent_os_langgraph.Recurrence.timedelta_seconds
    agent_os_langgraph.Recurrence.next_run_at agent_os_langgraph.Text.strip
    agent_os_langgraph.Text.mem_str agent_os_langgraph.Text.is_space
    agent_os_langgraph.Text.lstrip_by agent_os_langgraph.Text.rstrip
creates = refl
