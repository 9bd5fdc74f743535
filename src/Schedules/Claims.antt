-- ===== src/Schedules/Claims.antt =====
-- agent_os/schedules.py: the rows that `claim_due_schedules` takes, and the table that it leaves.
use agent_os_langgraph.Prelude.{
  ℕ, ◌≤◌, ◌<◌, ◌≡◌, refl, ap, sym, subst, not, ◌⊎◌, ◌∙◌, Bool, true, false, ◌&&◌, Option, none,
  some, List, [], ◌∷◌, arith, ltb, Bool-cases, Result-cases, inl, inr, ok, select, length,
  length-take_le,
}
use agent_os_langgraph.Text.{Str, str_eq, str_eq_self}
use agent_os_langgraph.Recurrence.{CronNext, IsCron, coalesce_next_run}
use agent_os_langgraph.Recurrence.Coalesce.{coalesce-after}
use agent_os_langgraph.Schedules.{
  Schedule, get_schedule, update_schedule, set_schedule_enabled, with_enabled, is_due, due_rows,
  sort_by_next, advanced, advance_rows, claim_due_schedules,
}
use agent_os_langgraph.Schedules.Table.{
  IsUnique, map_schedule, KeepsId, has_id, get_schedule-update, update-IsUnique, due_at,
  due_rows-due, due_rows-all,
}

-- The row of an id, if it is there, runs next after a time.
abbrev pub runs_after : ℕ → Option Schedule → Bool
runs_after now none = true
runs_after now (some s) = ltb now s.next_run

advanced-id : (now next : ℕ) → KeepsId (advanced now next)
unfolding advanced
advanced-id now next s = refl

advanced-runs_after :
    (now next : ℕ) (o : Option Schedule)
    → now < next
    → runs_after now (map_schedule (advanced now next) o) ≡ true
unfolding advanced
advanced-runs_after now next none h = refl
advanced-runs_after now next (some s) h = ground arith

runs_after-due_at :
    (now later : ℕ) (o : Option Schedule)
    → runs_after now o ≡ true
    → later ≤ now
    → due_at later o ≡ false
runs_after-due_at now later none h l = refl
runs_after-due_at now later (some s) h l = ground arith

module _ (digit : ℕ → Option ℕ) (cron_next : CronNext) where
  -- The parts of one turn of the loop.
  advance_rows-cons :
      (now : ℕ) (r : Schedule) (rs t t' : List Schedule)
      → advance_rows digit cron_next now (r ∷ rs) t ≡ ok t'
      → (n : ℕ) × (coalesce_next_run digit cron_next r.trigger_kind r.trigger_value r.timezone
            r.next_run now
          ≡ ok n)
        × (advance_rows digit cron_next now rs (update_schedule r.schedule_id (advanced now n) t).1
            ≡ ok t')
  unfolding advance_rows
  advance_rows-cons now r rs t t' h =
      elim (Result-cases (
        coalesce_next_run digit cron_next r.trigger_kind r.trigger_value r.timezone r.next_run
          now)) [ inl (n, e) ↦ (n, e, ground arith) | inr (x, e) ↦ absurd (ground arith) ]

  pub advance_rows-IsUnique :
      (now : ℕ) (rs t t' : List Schedule)
      → advance_rows digit cron_next now rs t ≡ ok t'
      → IsUnique t
      → IsUnique t'
  unfolding advance_rows
  advance_rows-IsUnique now [] t t' h u = subst IsUnique (ground arith) u
  advance_rows-IsUnique now (r ∷ rs) t t' h u =
      let (n, e, rest) = advance_rows-cons now r rs t t' h in
      advance_rows-IsUnique now rs _ t' rest
        (update-IsUnique r.schedule_id (advanced now n) t (advanced-id now n) u)

  -- The rows that are not selected stay.
  advance_rows-other :
      (now : ℕ) (rs t t' : List Schedule) (id : Str)
      → advance_rows digit cron_next now rs t ≡ ok t'
      → has_id id rs ≡ false
      → get_schedule id t' ≡ get_schedule id t
  unfolding advance_rows
  advance_rows-other now [] t t' id h k = ap (get_schedule id) (ground arith)
  advance_rows-other now (r ∷ rs) t t' id h k =
      let (n, e, rest) = advance_rows-cons now r rs t t' h in
      advance_rows-other now rs _ t' id rest (ground arith)
      ∙ get_schedule-update r.schedule_id (advanced now n) t id (advanced-id now n)
      ∙ ground arith

  pub claim_parts :
      (now limit : ℕ) (t rows t' : List Schedule)
      → claim_due_schedules digit cron_next now limit t ≡ ok (rows, t')
      → (rows ≡ due_rows now limit t)
        × (advance_rows digit cron_next now (due_rows now limit t) t ≡ ok t')
  unfolding claim_due_schedules
  claim_parts now limit t rows t' h =
      elim (Result-cases (advance_rows digit cron_next now (due_rows now limit t) t)) [
        | inl (n, e) ↦ (ground arith, ground arith)
        | inr (x, e) ↦ absurd (ground arith)
      ]

  claimed_due :
      (now limit : ℕ) (t rows t' : List Schedule)
      → IsUnique t
      → claim_due_schedules digit cron_next now limit t ≡ ok (rows, t')
      → (id : Str) → (has_id id rows && not (due_at now (get_schedule id t))) ≡ false
  claimed_due now limit t rows t' u h id = elim (Bool-cases (due_at now (get_schedule id t))) [
    | inl due ↦ ground (arith, due)
    | inr idle ↦
        let not_claimed : has_id id rows ≡ false =
          ap (has_id id) (claim_parts now limit t rows t' h).0
          ∙ due_rows-due id now limit t u idle in
        rw not_claimed refl
  ]

  -- Where the limit covers the due rows, a claim takes exactly the schedules that are enabled and
  -- due.
  pub claim_takes_all_due :
      (now limit : ℕ) (t rows t' : List Schedule)
      → IsUnique t
      → length (select (is_due now) t) ≤ limit
      → claim_due_schedules digit cron_next now limit t ≡ ok (rows, t')
      → (id : Str) → has_id id rows ≡ due_at now (get_schedule id t)
  claim_takes_all_due now limit t rows t' u l h id =
      ap (has_id id) (claim_parts now limit t rows t' h).0 ∙ due_rows-all id now limit t u l

  disabled-due_at :
      (at now : ℕ) (o : Option Schedule)
      → due_at now (map_schedule (with_enabled at false) o) ≡ false
  unfolding with_enabled
  disabled-due_at at now none = refl
  disabled-due_at at now (some s) = refl

  with_enabled-id : (at : ℕ) (b : Bool) → KeepsId (with_enabled at b)
  unfolding with_enabled
  with_enabled-id at b s = refl

  -- A schedule that was switched off is not claimed, however long it has been due.
  pub disabled_not_claimed :
      (at now limit : ℕ) (id : Str) (t rows t' : List Schedule)
      → IsUnique t
      → claim_due_schedules digit cron_next now limit (set_schedule_enabled at id false t).1
        ≡ ok (rows, t')
      → has_id id rows ≡ false
  unfolding set_schedule_enabled
  disabled_not_claimed at now limit id t rows t' u h =
      let k = with_enabled-id at false in
      let off : due_at now (get_schedule id (update_schedule id (with_enabled at false) t).1)
          ≡ false =
        rw (get_schedule-update id (with_enabled at false) t id k, str_eq_self id)
          (disabled-due_at at now (get_schedule id t)) in
      ap (has_id id) (claim_parts now limit _ rows t' h).0
      ∙ due_rows-due id now limit _ (update-IsUnique id (with_enabled at false) t k u) off

  module _ (law : IsCron cron_next) where
    -- The rows that are selected run next after now.
    advance_rows-after :
        (now : ℕ) (rs t t' : List Schedule) (id : Str)
        → advance_rows digit cron_next now rs t ≡ ok t'
        → has_id id rs ≡ true
        → runs_after now (get_schedule id t') ≡ true
    advance_rows-after now [] t t' id h k = absurd (cc)
    advance_rows-after now (r ∷ rs) t t' id h k =
        let (n, e, rest) = advance_rows-cons now r rs t t' h in
        let later : now < n =
          coalesce-after digit cron_next r.trigger_kind r.trigger_value r.timezone r.next_run now n
            law e in
        elim (Bool-cases (has_id id rs)) [
          | inl again ↦ advance_rows-after now rs _ t' id rest again
          | inr last ↦
              let mine : str_eq id r.schedule_id ≡ true = ground arith in
              rw
                (
                  advance_rows-other now rs _ t' id rest last,
                  get_schedule-update r.schedule_id (advanced now n) t id (advanced-id now n),
                  mine,
                )
                (advanced-runs_after now n (get_schedule id t) later)
        ]

    claimed_after :
        (now limit : ℕ) (t rows t' : List Schedule)
        → claim_due_schedules digit cron_next now limit t ≡ ok (rows, t')
        → (id : Str) → (has_id id rows ≡ false) ⊎ (runs_after now (get_schedule id t') ≡ true)
    claimed_after now limit t rows t' h id =
        let (same, moves) = claim_parts now limit t rows t' h in
        elim (Bool-cases (has_id id rows)) [
          | inr not_claimed ↦ inl not_claimed
          | inl claimed ↦
              inr (advance_rows-after now _ t t' id moves (sym (ap (has_id id) same) ∙ claimed))
        ]

    -- A claim takes at most `limit` rows, all of them enabled and due; in the table that it leaves,
    -- with still no id twice, each claimed schedule runs next after now, and the others are as they
    -- were.
    pub claim_due_schedules_lem :
        (now limit : ℕ) (t rows t' : List Schedule)
        → IsUnique t
        → claim_due_schedules digit cron_next now limit t ≡ ok (rows, t')
        → (length rows ≤ limit)
          × IsUnique t'
          × ((id : Str) → (has_id id rows && not (due_at now (get_schedule id t))) ≡ false)
          × ((id : Str)
              → ((has_id id rows && runs_after now (get_schedule id t')) ≡ true)
                ⊎ ((has_id id rows ≡ false) × (get_schedule id t' ≡ get_schedule id t)))
    unfolding due_rows
    claim_due_schedules_lem now limit t rows t' u h =
        let (same, moves) = claim_parts now limit t rows t' h in
        (
          rw same (length-take_le limit (sort_by_next (select (is_due now) t))),
          advance_rows-IsUnique now _ t t' moves u,
          claimed_due now limit t rows t' u h,
          λ id. elim (Bool-cases (has_id id rows)) [
            | inl claimed ↦ inl (
                ground (
                  arith,
                  claimed,
                  advance_rows-after now _ t t' id moves (sym (ap (has_id id) same) ∙ claimed),
                ))
            | inr other ↦
                inr (
                  other,
                  advance_rows-other now _ t t' id moves (sym (ap (has_id id) same) ∙ other),
                )
          ],
        )

    -- Two claims, one after the other and the second not at a later time, take no schedule twice,
    -- whatever their limits: this is the guard against two servers that dispatch one occurrence.
    pub no_double_claim :
        (now limit later limit' : ℕ) (t rows t' rows' t'' : List Schedule)
        → IsUnique t
        → claim_due_schedules digit cron_next now limit t ≡ ok (rows, t')
        → later ≤ now
        → claim_due_schedules digit cron_next later limit' t' ≡ ok (rows', t'')
        → (id : Str) → (has_id id rows && has_id id rows') ≡ false
    no_double_claim now limit later limit' t rows t' rows' t'' u h l k id =
        let (same, moves) = claim_parts now limit t rows t' h in
        elim (claimed_after now limit t rows t' h id) [
          | inl first_not ↦ rw first_not refl
          | inr after ↦
              let idle = runs_after-due_at now later (get_schedule id t') after l in
              ground (
                arith,
                claimed_due later limit' t' rows' t'' (advance_rows-IsUnique now _ t t' moves u) k
                    id,
                idle,
              )
        ]
