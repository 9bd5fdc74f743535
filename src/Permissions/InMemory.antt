-- ===== src/Permissions/InMemory.antt =====
-- `class InMemoryPermissionStore`: a Python dict from keys to rules, in insertion order.
use agent_os_langgraph.Prelude.{
  ℕ, ◌+◌, ◌≡◌, ◌≢◌, refl, Bool, Option, none, some, List, [], ◌∷◌, arith, if◌then◌else◌, Result, ok,
  ◌>>◌, is_some,
}
use agent_os_langgraph.Text.{Str, str_eq, str_eq_iff}
use agent_os_langgraph.Permissions.{
  PermissionRule, RuleStore, IsRuleStore, validate_key, created_or, coalesce, sort_rules, effect_of,
  Effect,
}

abbrev pub Rules : Type 0
Rules = List (Str × PermissionRule)

-- `self._rules.get(key)`
unfoldable pub find : Str → Rules → Option PermissionRule
find k [] = none
find k ((j, r) ∷ d) = if str_eq k j then some r else find k d

-- The row that a new rule becomes.
unfoldable pub new_rule : ℕ → PermissionRule → PermissionRule
new_rule now rule = record rule { created_at = created_or rule.created_at now; updated_at = now }

-- What an upsert changes in an existing rule; the counts and the creation time stay.
unfoldable pub taught_again : ℕ → PermissionRule → PermissionRule → PermissionRule
taught_again now rule existing = record existing {
  effect = rule.effect;
  tier_at_creation = rule.tier_at_creation;
  updated_at = now;
  workspace_id = coalesce rule.workspace_id existing.workspace_id;
  taught_by = coalesce rule.taught_by existing.taught_by;
}

unfoldable pub upsert_rules : ℕ → PermissionRule → Rules → Rules
upsert_rules now rule [] = (rule.permission_key, new_rule now rule) ∷ []
upsert_rules now rule ((j, r) ∷ d) =
    if str_eq rule.permission_key j
    then (j, taught_again now rule r) ∷ d
    else (j, r) ∷ upsert_rules now rule d

-- `rule = self._rules.get(key)`, then `f` on that object.
unfoldable pub modify : Str → (PermissionRule → PermissionRule) → Rules → Rules
modify k f [] = []
modify k f ((j, r) ∷ d) = if str_eq k j then (j, f r) ∷ d else (j, r) ∷ modify k f d

-- `self._rules.pop(key, None)`
unfoldable pub pop : Str → Rules → Rules
pop k [] = []
pop k ((j, r) ∷ d) = if str_eq k j then d else (j, r) ∷ pop k d

unfoldable pub approved_once : ℕ → PermissionRule → PermissionRule
approved_once now r = record r { approve_count = r.approve_count + 1; updated_at = now }

unfoldable pub denied_once : ℕ → PermissionRule → PermissionRule
denied_once now r = record r { deny_count = r.deny_count + 1; updated_at = now }

unfoldable pub get : Str → Rules → Result (Option PermissionRule)
get k d = do validate_key k; ok (find k d)

unfoldable pub upsert : ℕ → PermissionRule → Rules → Result Rules
upsert now rule d = do validate_key rule.permission_key; ok (upsert_rules now rule d)

unfoldable pub values : Rules → List PermissionRule
values [] = []
values ((j, r) ∷ d) = r ∷ values d

unfoldable pub list : Rules → List PermissionRule
unfolding values
list d = sort_rules (values d)

unfoldable pub delete : Str → Rules → Result (Bool × Rules)
delete k d = do validate_key k; ok (is_some (find k d), pop k d)

unfoldable pub increment_approve : ℕ → Str → Rules → Result Rules
increment_approve now k d = do validate_key k; ok (modify k (approved_once now) d)

unfoldable pub increment_deny : ℕ → Str → Rules → Result Rules
increment_deny now k d = do validate_key k; ok (modify k (denied_once now) d)

abbrev pub store : RuleStore
store = record {
  Table = Rules;
  get = get;
  upsert = upsert;
  list = list;
  delete = delete;
  increment_approve = increment_approve;
  increment_deny = increment_deny;
}

abbrev found_effect : Option PermissionRule → Option Effect
found_effect none = none
found_effect (some r) = some r.effect

find-upsert_self :
    (now : ℕ) (r : PermissionRule) (d : Rules)
    → found_effect (find r.permission_key (upsert_rules now r d)) ≡ some r.effect
unfolding find upsert_rules new_rule taught_again
find-upsert_self now r [] = ground (arith, str_eq_iff r.permission_key r.permission_key)
find-upsert_self now r ((j, x) ∷ d) = ground (arith, find-upsert_self now r d)

find-upsert_ne :
    (now : ℕ) (r : PermissionRule) (k : Str) (d : Rules)
    → r.permission_key ≢ k
    → find k (upsert_rules now r d) ≡ find k d
unfolding find upsert_rules
find-upsert_ne now r k [] h = ground (arith, str_eq_iff k r.permission_key)
find-upsert_ne now r k ((j, x) ∷ d) h =
    ground (arith, find-upsert_ne now r k d, str_eq_iff k j, str_eq_iff r.permission_key j)

find-modify :
    (f : PermissionRule → PermissionRule) (k j : Str) (d : Rules)
    → ((r : PermissionRule) → (f r).effect ≡ r.effect)
    → found_effect (find j (modify k f d)) ≡ found_effect (find j d)
unfolding find modify
find-modify f k j [] h = refl
find-modify f k j ((i, x) ∷ d) h = ground (arith, find-modify f k j d h, h x)

-- A failed validation stops every operation before it touches the rules.
get-upsert_self :
    (now : ℕ) (r : PermissionRule) (d d' : Rules)
    → upsert now r d ≡ ok d'
    → effect_of (get r.permission_key d') ≡ some r.effect
unfolding upsert get validate_key
get-upsert_self now r d d' h = ground (arith, find-upsert_self now r d)

get-modify :
    (f : PermissionRule → PermissionRule) (k j : Str) (d d' : Rules)
    → ((r : PermissionRule) → (f r).effect ≡ r.effect)
    → (do validate_key k; ok (modify k f d)) ≡ ok d'
    → effect_of (get j d') ≡ effect_of (get j d)
unfolding get validate_key
get-modify f k j d d' h e = ground (arith, find-modify f k j d h)

get-upsert_ne :
    (now : ℕ) (r : PermissionRule) (d d' : Rules) (k : Str)
    → upsert now r d ≡ ok d'
    → r.permission_key ≢ k
    → get k d' ≡ get k d
unfolding upsert get validate_key
get-upsert_ne now r d d' k e h = ground (arith, find-upsert_ne now r k d h)

pub store_laws : IsRuleStore store
unfolding increment_approve increment_deny approved_once denied_once
store_laws = record {
  upsert_effect = get-upsert_self;
  upsert_other = get-upsert_ne;
  approve_effect = λ now k j t t' e. get-modify (approved_once now) k j t t' (λ r. refl) e;
  deny_effect = λ now k j t t' e. get-modify (denied_once now) k j t t' (λ r. refl) e;
}
