-- ===== src/Schedules/Create.antt =====
-- agent_os/schedules.py: `create_schedule`.
use agent_os_langgraph.Prelude.{
  ℕ, ◌<◌, ◌≡◌, refl, ap, Bool, Option, none, some, List, [], ◌∷◌, ◌++◌, arith, is_some,
  if◌then◌else◌, Option-cases, Result-cases, inl, inr, Result, ok, err, other, ◌>>=◌,
}
use agent_os_langgraph.Text.{Str, text, str_eq, str_eq_iff}
use agent_os_langgraph.Recurrence.{
  TriggerKind, cron, interval, CronNext, IsCron, next_run_at, parse_interval,
}
use agent_os_langgraph.Recurrence.Coalesce.{parse_interval_pos}
use agent_os_langgraph.Schedules.{Schedule, ScheduleKind, get_schedule}
use agent_os_langgraph.Schedules.Table.{IsUnique}
use agent_os_langgraph.Schedules.Fields.{Payload, Outside, validate_schedule_fields}

-- The insertion; the primary key refuses an id that is there.
abbrev insert_schedule : Schedule → List Schedule → Result (Str × List Schedule)
insert_schedule s t =
    if is_some (get_schedule s.schedule_id t)
    then err (other (text "UNIQUE constraint failed: schedules.schedule_id"))
    else ok (s.schedule_id, t ++ s ∷ [])

module _ (out : Outside) (cron_next : CronNext) (dumps : Payload → Result Str) where
  unfoldable pub new_schedule :
      Str → ℕ → Str → ScheduleKind → TriggerKind → Str → Str → Str → Bool → ℕ → Schedule
  new_schedule id now name kind trigger_kind value timezone payload enabled next = record {
    schedule_id = id;
    name = name;
    kind = kind;
    trigger_kind = trigger_kind;
    trigger_value = value;
    timezone = timezone;
    payload = payload;
    enabled = enabled;
    next_run = next;
    last_run = none;
    last_status = none;
    last_error = none;
    created_at = now;
    updated_at = now;
  }

  -- `uuid4` gives the id.
  unfoldable pub create_schedule :
      Str
      → ℕ
      → Str
      → Str
      → Str
      → Str
      → Str
      → Payload
      → Bool
      → List Schedule
      → Result (Str × List Schedule)
  unfolding new_schedule
  create_schedule id now name kind trigger_kind value timezone payload enabled t = do
    (k, tk, p) ← validate_schedule_fields out kind trigger_kind value timezone payload
    next ← next_run_at out.digit cron_next tk value timezone now
    json ← dumps p
    insert_schedule (new_schedule id now name k tk value timezone json enabled next) t

get_schedule-append :
    (j : Str) (t : List Schedule) (s : Schedule)
    → get_schedule j (t ++ s ∷ []) ≡ (
        if is_some (get_schedule j t)
        then get_schedule j t
        else if str_eq j s.schedule_id
        then some s
        else none)
unfolding get_schedule
get_schedule-append j [] s = refl
get_schedule-append j (r ∷ t) s = ground (arith, get_schedule-append j t s)

append-IsUnique :
    (t : List Schedule) (s : Schedule)
    → IsUnique t
    → get_schedule s.schedule_id t ≡ none
    → IsUnique (t ++ s ∷ [])
unfolding get_schedule
append-IsUnique [] s u h = (refl, tt)
append-IsUnique (r ∷ t) s u h = ground (
  arith,
  append-IsUnique t s u.1,
  get_schedule-append r.schedule_id t s,
  u.0,
  str_eq_iff r.schedule_id s.schedule_id,
  str_eq_iff s.schedule_id r.schedule_id,
)

next_run_at-after :
    (digit : ℕ → Option ℕ) (cron_next : CronNext) (tk : TriggerKind) (value timezone : Str)
    (now n : ℕ)
    → IsCron cron_next
    → next_run_at digit cron_next tk value timezone now ≡ ok n
    → now < n
unfolding next_run_at
next_run_at-after digit cron_next cron value timezone now n law h = law value timezone now n h
next_run_at-after digit cron_next interval value timezone now n law h =
    elim (Result-cases (parse_interval digit value)) [
      | inl (d, e) ↦ let pos = parse_interval_pos digit value d e in ground arith
      | inr (x, e) ↦ absurd (ground arith)
    ]

-- An inserted row is found under its id, which no row had, and the other rows stay.
insert_schedule-row :
    (s : Schedule) (t : List Schedule) {new_id : Str} {t' : List Schedule}
    → IsUnique t
    → insert_schedule s t ≡ ok (new_id, t')
    → (new_id ≡ s.schedule_id)
      × (get_schedule s.schedule_id t ≡ none)
      × IsUnique t'
      × ((j : Str)
          → get_schedule j t' ≡ (if str_eq j s.schedule_id then some s else get_schedule j t))
insert_schedule-row s t {new_id} {t'} u h = elim (Option-cases (get_schedule s.schedule_id t)) [
  | inr (r, taken) ↦ absurd (ground arith)
  | inl free ↦
      let same : t' ≡ t ++ s ∷ [] = ground arith in
      (
        ground arith,
        free,
        rw same (append-IsUnique t s u free),
        λ j.
            rw (same, get_schedule-append j t s)
              (ground (
                arith,
                str_eq_iff j s.schedule_id,
                ap (λ (i : Str). get_schedule i t),
                free,
                Option-cases (get_schedule j t),
              )),
      )
]

module _ (out : Outside) (cron_next : CronNext) (dumps : Payload → Result Str) where
  -- What a creation that succeeds has computed.
  create_schedule-parts :
      (id : Str) (now : ℕ) (name kind trigger_kind value timezone : Str) (payload : Payload)
      (enabled : Bool) (t : List Schedule) {new_id : Str} {t' : List Schedule}
      → create_schedule out cron_next dumps id now name kind trigger_kind value timezone payload
          enabled t
        ≡ ok (new_id, t')
      → (k : ScheduleKind) × (tk : TriggerKind) × (n : ℕ) × (json : Str) × (next_run_at out.digit
            cron_next tk value timezone now
          ≡ ok n)
        × (insert_schedule
              (new_schedule out cron_next dumps id now name k tk value timezone json enabled n)
              t
            ≡ ok (new_id, t'))
  unfolding create_schedule
  create_schedule-parts id now name kind trigger_kind value timezone payload enabled t h =
      elim (Result-cases (validate_schedule_fields out kind trigger_kind value timezone payload)) [
        | inr (x, e) ↦ absurd (ground arith)
        | inl ((k, tk, p), e) ↦
            elim (Result-cases (next_run_at out.digit cron_next tk value timezone now)) [
              | inr (x, e') ↦ absurd (ground arith)
              | inl (n, e') ↦ elim (Result-cases (dumps p)) [
                | inr (x, e'') ↦ absurd (ground arith)
                | inl (json, e'') ↦ (k, tk, n, json, e', ground arith)
              ]
            ]
      ]

  -- A created schedule stands under the given id, which no schedule had, as its caller enabled it;
  -- it runs next after now; every other lookup stays, and no id stands twice.
  pub create_schedule_lem :
      (id : Str) (now : ℕ) (name kind trigger_kind value timezone : Str) (payload : Payload)
      (enabled : Bool) (t : List Schedule) (new_id : Str) (t' : List Schedule)
      → IsCron cron_next
      → IsUnique t
      → create_schedule out cron_next dumps id now name kind trigger_kind value timezone payload
          enabled t
        ≡ ok (new_id, t')
      → (new_id ≡ id)
        × (get_schedule id t ≡ none)
        × IsUnique t'
        × ((s : Schedule) × (now < s.next_run)
            × (s.enabled ≡ enabled)
            × ((j : Str) → get_schedule j t' ≡ (if str_eq j id then some s else get_schedule j t)))
  unfolding new_schedule
  create_schedule_lem id now name kind trigger_kind value timezone payload enabled t new_id t' law u
        h =
      let (k, tk, n, json, next, inserted) =
        create_schedule-parts id now name kind trigger_kind value timezone payload enabled t h in
      let s = new_schedule out cron_next dumps id now name k tk value timezone json enabled n in
      let (same, free, u', found) = insert_schedule-row s t u inserted in
      (
        same,
        free,
        u',
        (s, next_run_at-after out.digit cron_next tk value timezone now n law next, refl, found),
      )
