-- ===== src/Permissions.antt =====
-- The learned permission rules of agent_os/permission_store.py: the rule, the format of its key,
-- and the protocol that a rule store offers to the policy engine. The two stores are below.
pub mod InMemory
pub mod Sqlite
pub mod SqliteLaws
pub mod Agreement
mod Tests
use agent_os_langgraph.Prelude.{
  ℕ, ◌≡◌, ◌≢◌, refl, Bool, true, false, ◌&&◌, ◌||◌, not, Option, none, some, List, [], ◌∷◌, ◌++◌,
  arith, leb, ◌==◌, all, if◌then◌else◌, Result, ok, err, value_error,
}
use agent_os_langgraph.Text.{str_le, Str, text, is_space}
use agent_os_langgraph.Text.Split.{colon, not_colon, split_colon}

pub data Effect : Type 0 where
  always_approve always_deny : Effect

pub data Tier : Type 0 where
  trivial low medium high : Tier

pub record PermissionRule : Type 0 where
  pub permission_key : Str
  pub effect : Effect
  pub tier_at_creation : Tier
  pub approve_count : ℕ
  pub deny_count : ℕ
  pub created_at : ℕ
  pub updated_at : ℕ
  pub workspace_id : Option Str
  pub taught_by : Option Str

-- `[a-z0-9_]` of a pattern under `re.IGNORECASE`: the last four letters fold to i, s or k.
unfoldable pub is_key_char : ℕ → Bool
is_key_char c =
    leb b'a' c && leb c b'z'
    || leb b'A' c && leb c b'Z'
    || leb b'0' c && leb c b'9'
    || c == b'_'
    || c == 0x130
    || c == 0x131
    || c == 0x17f
    || c == 0x212a

-- `[a-z0-9_]+`
unfoldable pub is_key_word : Str → Bool
is_key_word [] = false
is_key_word (c ∷ s) = is_key_char c && all is_key_char s

abbrev pub is_ref_char : ℕ → Bool
is_ref_char c = not (is_space c) && not_colon c

-- `[^\s:]+`
unfoldable pub is_ref : Str → Bool
is_ref [] = false
is_ref (c ∷ s) = is_ref_char c && all is_ref_char s

key_fields : List Str → Bool
key_fields (a ∷ b ∷ r ∷ []) = is_key_word a && is_key_word b && is_ref r
key_fields (a ∷ b ∷ c ∷ d ∷ r ∷ []) =
    is_key_word a && is_key_word b && is_key_word c && is_key_word d && is_ref r
key_fields _ = false

-- `PERMISSION_KEY_REGEX.fullmatch`: no class of the pattern holds a colon, so a match is a
-- condition on each of the three or five fields between the colons.
unfoldable pub matches_key_regex : Str → Bool
unfolding key_fields split_colon
matches_key_regex s = key_fields (split_colon s)

unfoldable pub validate_key : Str → Result (Unit {0})
validate_key key =
    if matches_key_regex key
    then ok tt
    else err (value_error (text "Invalid permission_key format: " ++ key))

-- `created_at` of a new row.
abbrev pub created_or : ℕ → ℕ → ℕ
created_or created now = if created == 0 then now else created

-- A new value, or the old one where there is none: SQL's `COALESCE(new, old)`.
abbrev pub coalesce {ℓ} : {A : Type ℓ} → Option A → Option A → Option A
coalesce none old = old
coalesce (some a) old = some a

abbrev pub effect_of : Result (Option PermissionRule) → Option Effect
effect_of (ok (some r)) = some r.effect
effect_of _ = none

unfoldable pub insert_rule : PermissionRule → List PermissionRule → List PermissionRule
insert_rule r [] = r ∷ []
insert_rule r (q ∷ qs) =
    let rest = insert_rule r qs in
    if str_le r.permission_key q.permission_key then r ∷ q ∷ qs else q ∷ rest

-- In the order of the keys: `sorted(…, key=…)`, and SQL's `ORDER BY permission_key ASC`
unfoldable pub sort_rules : List PermissionRule → List PermissionRule
unfolding insert_rule
sort_rules [] = []
sort_rules (r ∷ rs) = insert_rule r (sort_rules rs)

-- `class PermissionRuleStore(Protocol)`, with the time as an argument; `err` is an exception.
pub record RuleStore : Type 1 where
  pub Table : Type 0
  pub get : Str → Table → Result (Option PermissionRule)
  pub upsert : ℕ → PermissionRule → Table → Result Table
  pub list : Table → List PermissionRule
  pub delete : Str → Table → Result (Bool × Table)
  pub increment_approve : ℕ → Str → Table → Result Table
  pub increment_deny : ℕ → Str → Table → Result Table

-- What the policy engine relies on.
pub record IsRuleStore (S : RuleStore) : Type 0 where
  pub upsert_effect :
      (now : ℕ) (r : PermissionRule) (t t' : S.Table)
      → S.upsert now r t ≡ ok t'
      → effect_of (S.get r.permission_key t') ≡ some r.effect
  pub upsert_other :
      (now : ℕ) (r : PermissionRule) (t t' : S.Table) (k : Str)
      → S.upsert now r t ≡ ok t'
      → r.permission_key ≢ k
      → S.get k t' ≡ S.get k t
  pub approve_effect :
      (now : ℕ) (k j : Str) (t t' : S.Table)
      → S.increment_approve now k t ≡ ok t'
      → effect_of (S.get j t') ≡ effect_of (S.get j t)
  pub deny_effect :
      (now : ℕ) (k j : Str) (t t' : S.Table)
      → S.increment_deny now k t ≡ ok t'
      → effect_of (S.get j t') ≡ effect_of (S.get j t)
