-- ===== src/Recurrence/Intervals.antt =====
-- agent_os/schedule_recurrence.py: how `parse_interval` fails.
use agent_os_langgraph.Prelude.{
  sym, ap, ◌∙◌, subst, true, ℕ, ◌*◌, ◌≡◌, ◌≢◌, ◌⊎◌, refl, Option, none, some, [], ◌∷◌, ◌==◌, arith,
  Option-cases, Result-cases, inl, inr, ok, err, Error, any, value_error, key_error, index_error,
  other,
}
use agent_os_langgraph.Text.{Str, text, lstrip_by, is_space}
use agent_os_langgraph.Recurrence.{
  long_s, unit_of, lower_unit, unit_seconds, parse_interval, interval_of, interval_unit,
  interval_seconds, timedelta_seconds,
}

-- The characters that the pattern takes for a unit.
unit_of-cases :
    (c u : ℕ)
    → unit_of c ≡ some u
    → any (λ k. u == k) (b's' ∷ b'm' ∷ b'h' ∷ b'd' ∷ b'S' ∷ b'M' ∷ b'H' ∷ b'D' ∷ []) ≡ true
      ⊎ (u ≡ long_s)
unfolding unit_of
unit_of-cases c u h = ground arith

-- Such a character, but for the long s, has a number of seconds.
unit_seconds-lower_unit :
    (u : ℕ)
    → any (λ k. u == k) (b's' ∷ b'm' ∷ b'h' ∷ b'd' ∷ b'S' ∷ b'M' ∷ b'H' ∷ b'D' ∷ []) ≡ true
    → (e : Error) → unit_seconds (lower_unit u) ≢ err e
unfolding unit_seconds lower_unit
unit_seconds-lower_unit u h e k = ground arith

-- The errors that the parsing raises: a ValueError, an OverflowError, or the KeyError of the long s.
abbrev pub IsIntervalError : Error → Type 0
IsIntervalError (value_error m) = Unit
IsIntervalError (other m) = m ≡ text "OverflowError"
IsIntervalError (key_error m) = m ≡ long_s ∷ []
IsIntervalError (index_error m) = ⊥

interval_seconds-error : (n : ℕ) (e : Error) → interval_seconds n ≡ err e → IsIntervalError e
unfolding interval_seconds timedelta_seconds
interval_seconds-error n (value_error m) h = ground arith
interval_seconds-error n (other m) h = ground arith
interval_seconds-error n (key_error m) h = ground arith
interval_seconds-error n (index_error m) h = ground arith

interval_unit-error : (s : Str) (e : Error) → interval_unit s ≡ err e → IsIntervalError e
unfolding interval_unit
interval_unit-error s (value_error m) h = tt
interval_unit-error [] (other m) h = ground arith
interval_unit-error (c ∷ []) (other m) h = ground arith
interval_unit-error (c ∷ d ∷ s) (other m) h = ground arith
interval_unit-error [] (key_error m) h = ground arith
interval_unit-error (c ∷ []) (key_error m) h = ground arith
interval_unit-error (c ∷ d ∷ s) (key_error m) h = ground arith
interval_unit-error [] (index_error m) h = ground arith
interval_unit-error (c ∷ []) (index_error m) h = ground arith
interval_unit-error (c ∷ d ∷ s) (index_error m) h = ground arith

-- The lower case of a unit, or the long s, which is its own.
interval_unit-unit_seconds :
    (s : Str) (u : ℕ) (e : Error)
    → interval_unit s ≡ ok u
    → unit_seconds u ≡ err e
    → e ≡ key_error (long_s ∷ [])
unfolding interval_unit unit_seconds lower_unit
interval_unit-unit_seconds [] u e h k = ground arith
interval_unit-unit_seconds (c ∷ d ∷ s) u e h k = absurd (ground arith)
interval_unit-unit_seconds (c ∷ []) u e h k = elim (Option-cases (unit_of c)) [
  | inl o ↦ absurd (ground arith)
  | inr (v, o) ↦
      let lower : u ≡ lower_unit v = ground arith in
      elim (unit_of-cases c v o) [
        | inl plain ↦ absurd (unit_seconds-lower_unit v plain e (rw (sym lower) k))
        | inr long ↦
            let same : u ≡ long_s = lower ∙ ap lower_unit long in
            sym (ground (arith, ap unit_seconds same))
      ]
]

interval_of-error :
    (digit : ℕ → Option ℕ) (o : Option ℕ × Str) (e : Error)
    → interval_of digit o ≡ err e
    → IsIntervalError e
interval_of-error digit (none, rest) e h =
    let same : value_error (text "Invalid interval") ≡ e = ground arith in
    subst IsIntervalError same tt
interval_of-error digit (some n, rest) e h =
    elim (Result-cases (interval_unit (lstrip_by is_space rest))) [
      | inr (e', eq) ↦ let same : e ≡ e' = ground arith in rw same (interval_unit-error _ e' eq)
      | inl (unit, eq) ↦ elim (Result-cases (unit_seconds unit)) [
        | inr (e', eq') ↦
            let same : e ≡ key_error (long_s ∷ []) =
              sym (ground (arith, interval_unit-unit_seconds _ unit e' eq eq')) in
            rw same refl
        | inl (factor, eq') ↦ interval_seconds-error (n * factor) e (ground arith)
      ]
    ]

-- The parsing of an interval raises no other exception than a ValueError, an OverflowError, or a
-- KeyError for the unit of U+017F.
pub parse_interval_errors :
    (digit : ℕ → Option ℕ) (value : Str) (e : Error)
    → parse_interval digit value ≡ err e
    → IsIntervalError e
unfolding parse_interval
parse_interval_errors digit value e h = interval_of-error digit _ e h
