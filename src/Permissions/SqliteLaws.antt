-- ===== src/Permissions/SqliteLaws.antt =====
-- agent_os/permission_store.py: the laws of the rule store, for `SqlitePermissionStore`.
use agent_os_langgraph.Prelude.{
  ℕ, ◌≡◌, ◌≢◌, refl, ap, Option, none, some, [], ◌∷◌, ◌++◌, arith, Option-cases, inl, inr, ok, ◌>>◌,
  is_some, if◌then◌else◌,
}
use agent_os_langgraph.Text.{Str, str_eq, str_eq_iff, str_eq_self}
use agent_os_langgraph.Permissions.{PermissionRule, Effect, IsRuleStore, validate_key, effect_of}
use agent_os_langgraph.Permissions.Sqlite.{
  Rows, select_row, update_rows, upsert_rows, values_row, on_conflict, add_approval, add_denial,
  get, upsert, increment_approve, increment_deny, store,
}

abbrev row_effect : Option PermissionRule → Option Effect
row_effect none = none
row_effect (some r) = some r.effect

select_row-append :
    (k : Str) (t : Rows) (r : PermissionRule)
    → select_row k (t ++ r ∷ []) ≡ (
        if is_some (select_row k t)
        then select_row k t
        else if str_eq k r.permission_key
        then some r
        else none)
unfolding select_row
select_row-append k [] r = refl
select_row-append k (x ∷ t) r = ground (arith, select_row-append k t r)

-- An update of the rows of one key, seen through another.
select_row-update_ne :
    (f : PermissionRule → PermissionRule) (k j : Str) (t : Rows)
    → ((r : PermissionRule) → (f r).permission_key ≡ r.permission_key)
    → k ≢ j
    → select_row j (update_rows k f t) ≡ select_row j t
unfolding select_row update_rows
select_row-update_ne f k j [] h d = refl
select_row-update_ne f k j (x ∷ t) h d = ground (
  arith,
  select_row-update_ne f k j t h d,
  h x,
  str_eq_iff k x.permission_key,
  str_eq_iff j x.permission_key,
)

row_effect-update :
    (f : PermissionRule → PermissionRule) (k j : Str) (t : Rows)
    → ((r : PermissionRule) → (f r).permission_key ≡ r.permission_key)
    → ((r : PermissionRule) → (f r).effect ≡ r.effect)
    → row_effect (select_row j (update_rows k f t)) ≡ row_effect (select_row j t)
unfolding select_row update_rows
row_effect-update f k j [] h e = refl
row_effect-update f k j (x ∷ t) h e = ground (arith, row_effect-update f k j t h e, h x, e x)

-- An update to a fixed effect shows in the rows of its key.
row_effect-teach :
    (f : PermissionRule → PermissionRule) (effect : Effect) (k : Str) (t : Rows)
    → ((r : PermissionRule) → (f r).permission_key ≡ r.permission_key)
    → ((r : PermissionRule) → (f r).effect ≡ effect)
    → is_some (select_row k t) ≡ is_some (some effect)
    → row_effect (select_row k (update_rows k f t)) ≡ some effect
unfolding select_row update_rows
row_effect-teach f effect k [] h e s = absurd (cc)
row_effect-teach f effect k (x ∷ t) h e s =
    ground (arith, row_effect-teach f effect k t h e, h x, e x)

conflict_key :
    (x : PermissionRule)
    → (r : PermissionRule) → (on_conflict x r).permission_key ≡ r.permission_key
unfolding on_conflict
conflict_key x r = refl

conflict_effect :
    (now : ℕ) (x : PermissionRule)
    → (r : PermissionRule) → (on_conflict (values_row now x) r).effect ≡ x.effect
unfolding on_conflict values_row
conflict_effect now x r = refl

values_key : (now : ℕ) (r : PermissionRule) → (values_row now r).permission_key ≡ r.permission_key
unfolding values_row
values_key now r = refl

-- The two branches of the insertion.
upsert_rows_absent :
    (now : ℕ) (r : PermissionRule) (t : Rows)
    → select_row r.permission_key t ≡ none
    → upsert_rows now r t ≡ t ++ values_row now r ∷ []
unfolding upsert_rows
upsert_rows_absent now r t h = ground arith

upsert_rows_present :
    (now : ℕ) (r x : PermissionRule) (t : Rows)
    → select_row r.permission_key t ≡ some x
    → upsert_rows now r t ≡ update_rows r.permission_key (on_conflict (values_row now r)) t
unfolding upsert_rows
upsert_rows_present now r x t h = ground arith

upsert_rows_self :
    (now : ℕ) (r : PermissionRule) (t : Rows)
    → row_effect (select_row r.permission_key (upsert_rows now r t)) ≡ some r.effect
upsert_rows_self now r t = elim (Option-cases (select_row r.permission_key t)) [
  | inl free ↦
      rw
        (
          upsert_rows_absent now r t free,
          select_row-append r.permission_key t (values_row now r),
          free,
          values_key,
          str_eq_self r.permission_key,
        )
        (unfold values_row in refl)
  | inr (x, found) ↦ rw (upsert_rows_present now r x t found) (
      row_effect-teach (on_conflict (values_row now r)) r.effect r.permission_key t (conflict_key _)
        (conflict_effect now r) (rw found refl))
]

upsert_rows_ne :
    (now : ℕ) (r : PermissionRule) (t : Rows) (k : Str)
    → r.permission_key ≢ k
    → select_row k (upsert_rows now r t) ≡ select_row k t
upsert_rows_ne now r t k d = elim (Option-cases (select_row r.permission_key t)) [
  | inl free ↦
      rw (upsert_rows_absent now r t free, select_row-append k t (values_row now r))
        (ground (
          arith,
          values_key now r,
          str_eq_iff k r.permission_key,
          ap (str_eq k) (values_key now r),
          Option-cases (select_row k t),
        ))
  | inr (x, found) ↦ rw (upsert_rows_present now r x t found) (
      select_row-update_ne (on_conflict (values_row now r)) r.permission_key k t (conflict_key _) d)
]

get-upsert_self :
    (now : ℕ) (r : PermissionRule) (t t' : Rows)
    → upsert now r t ≡ ok t'
    → effect_of (get r.permission_key t') ≡ some r.effect
unfolding upsert get validate_key
get-upsert_self now r t t' h = ground (arith, upsert_rows_self now r t)

get-upsert_ne :
    (now : ℕ) (r : PermissionRule) (t t' : Rows) (k : Str)
    → upsert now r t ≡ ok t'
    → r.permission_key ≢ k
    → get k t' ≡ get k t
unfolding upsert get validate_key
get-upsert_ne now r t t' k e h = ground (arith, upsert_rows_ne now r t k h)

get-update :
    (f : PermissionRule → PermissionRule) (k j : Str) (t t' : Rows)
    → ((r : PermissionRule) → (f r).permission_key ≡ r.permission_key)
    → ((r : PermissionRule) → (f r).effect ≡ r.effect)
    → (do validate_key k; ok (update_rows k f t)) ≡ ok t'
    → effect_of (get j t') ≡ effect_of (get j t)
unfolding get validate_key
get-update f k j t t' h e u = ground (arith, row_effect-update f k j t h e)

-- Whatever rows the table holds, an upsert sets the effect of its key and changes the lookup of no
-- other key, and an increment changes no effect: the SQLite store offers what the policy engine
-- relies on.
pub sqlite_store-IsRuleStore : IsRuleStore store
unfolding increment_approve increment_deny add_approval add_denial
sqlite_store-IsRuleStore = record {
  upsert_effect = get-upsert_self;
  upsert_other = get-upsert_ne;
  approve_effect =
      λ now k j t t' e. get-update (add_approval now) k j t t' (λ r. refl) (λ r. refl) e;
  deny_effect = λ now k j t t' e. get-update (add_denial now) k j t t' (λ r. refl) (λ r. refl) e;
}
