-- ===== src/Recurrence/Coalesce.antt =====
-- agent_os/schedule_recurrence.py: the time that `coalesce_next_run` returns.
use agent_os_langgraph.Prelude.{
  ℕ, ◌+◌, ◌-◌, ◌*◌, ◌/◌, ◌≤◌, ◌<◌, ◌≡◌, Option, none, some, arith, ltb, Bool-cases, Result-cases,
  ◌⊎◌, inl, inr, ok,
}
use native.Mathlib.Nat.{div-add-mod, mod-lt}
use agent_os_langgraph.Text.{Str, lstrip_by, is_space}
use agent_os_langgraph.Recurrence.{
  TriggerKind, cron, interval, CronNext, IsCron, parse_interval, interval_of, interval_unit,
  interval_seconds, unit_seconds, timedelta_seconds, coalesce_next_run,
}

interval_seconds_pos : (n d : ℕ) → interval_seconds n ≡ ok d → 0 < d
unfolding interval_seconds timedelta_seconds
interval_seconds_pos n d h = ground arith

interval_of_pos :
    (digit : ℕ → Option ℕ) (o : Option ℕ × Str) (d : ℕ) → interval_of digit o ≡ ok d → 0 < d
interval_of_pos digit (none, rest) d h = absurd (cc)
interval_of_pos digit (some n, rest) d h =
    elim (Result-cases (interval_unit (lstrip_by is_space rest))) [
      | inr (e, eq) ↦ absurd (ground arith)
      | inl (unit, eq) ↦ elim (Result-cases (unit_seconds unit)) [
        | inr (e, eq') ↦ absurd (ground arith)
        | inl (factor, eq') ↦ interval_seconds_pos (n * factor) d (ground arith)
      ]
    ]

-- The first multiple after a time.
cover : (p now d : ℕ) → 0 < d → p ≤ now → now < p + d * ((now - p) / d + 1)
cover p now d h k = grind (arith, div-add-mod (now - p) d, mod-lt (now - p) h)

within_one : (p now d : ℕ) → p ≤ now → p + d * ((now - p) / d + 1) ≤ now + d
within_one p now d le = grind (arith, div-add-mod (now - p) d)

module _ (digit : ℕ → Option ℕ) where
  -- An interval that parses is positive.
  pub parse_interval_pos : (value : Str) (d : ℕ) → parse_interval digit value ≡ ok d → 0 < d
  unfolding parse_interval
  parse_interval_pos value d h = interval_of_pos digit _ d h

  module _ (cron_next : CronNext) where
    -- The next time of an interval schedule is after now, is a whole number of intervals from the
    -- stored time, and is the stored time or at most one interval after now.
    pub coalesce_interval :
        (value timezone : Str) (persisted now delta n : ℕ)
        → parse_interval digit value ≡ ok delta
        → coalesce_next_run digit cron_next interval value timezone persisted now ≡ ok n
        → (now < n)
          × ((k : ℕ) × (n ≡ persisted + delta * k))
          × ((n ≡ persisted) ⊎ (n ≤ now + delta))
    unfolding coalesce_next_run
    coalesce_interval value timezone persisted now delta n p h =
        let pos = parse_interval_pos value delta p in
        elim (Bool-cases (ltb now persisted)) [
          | inl future ↦
              let same : n ≡ persisted = ground arith in
              (ground arith, (0, rw same (omega arith)), inl same)
          | inr missed ↦
              let le : persisted ≤ now = ground arith in
              let same : n ≡ persisted + delta * ((now - persisted) / delta + 1) = ground arith in
              (
                rw same (cover persisted now delta pos le),
                ((now - persisted) / delta + 1, same),
                inr (rw same (within_one persisted now delta le)),
              )
        ]

    -- Whatever the trigger, a coalesced time is after now, if croniter returns times after the given
    -- one.
    pub coalesce-after :
        (kind : TriggerKind) (value timezone : Str) (persisted now n : ℕ)
        → IsCron cron_next
        → coalesce_next_run digit cron_next kind value timezone persisted now ≡ ok n
        → now < n
    unfolding coalesce_next_run
    coalesce-after cron value timezone persisted now n law h =
        elim (Bool-cases (ltb now persisted)) [
          | inl future ↦ ground arith
          | inr missed ↦ law value timezone now n (ground arith)
        ]
    coalesce-after interval value timezone persisted now n law h =
        elim (Result-cases (parse_interval digit value)) [
          | inl (delta, p) ↦ (coalesce_interval value timezone persisted now delta n p h).0
          | inr (e, p) ↦ ground arith
        ]
