-- ===== src/Permissions/Sqlite.antt =====
-- `class SqlitePermissionStore`: each statement as a function on the rows of `permission_rules`.
-- The database engine itself (files, locks, its own errors) is not modelled.
use agent_os_langgraph.Prelude.{
  suc, ◌+◌, ℕ, Bool, Option, none, some, List, [], ◌∷◌, ◌++◌, if◌then◌else◌, Result, ok, ◌>>◌, ltb,
}
use agent_os_langgraph.Text.{Str, str_eq}
use agent_os_langgraph.Permissions.{
  PermissionRule, RuleStore, validate_key, created_or, coalesce, sort_rules,
}

abbrev pub Rows : Type 0
Rows = List PermissionRule

-- `SELECT … WHERE permission_key = ?`, then `fetchone()`
unfoldable pub select_row : Str → Rows → Option PermissionRule
select_row k [] = none
select_row k (r ∷ t) = if str_eq k r.permission_key then some r else select_row k t

-- `UPDATE … WHERE permission_key = ?`, on every row that matches
unfoldable pub update_rows : Str → (PermissionRule → PermissionRule) → Rows → Rows
update_rows k f [] = []
update_rows k f (r ∷ t) = (if str_eq k r.permission_key then f r else r) ∷ update_rows k f t

-- `DELETE … WHERE permission_key = ?`, with the number of rows that it removed
unfoldable pub delete_rows : Str → Rows → ℕ × Rows
delete_rows k [] = (0, [])
delete_rows k (r ∷ t) =
    let (n, t') = delete_rows k t in if str_eq k r.permission_key then (suc n, t') else (n, r ∷ t')

-- The `VALUES` of the insert: the row that the conflict clause calls `excluded`.
unfoldable pub values_row : ℕ → PermissionRule → PermissionRule
values_row now rule = record rule { created_at = created_or rule.created_at now; updated_at = now }

-- `DO UPDATE SET …`
unfoldable pub on_conflict : PermissionRule → PermissionRule → PermissionRule
on_conflict excluded row = record row {
  effect = excluded.effect;
  tier_at_creation = excluded.tier_at_creation;
  updated_at = excluded.updated_at;
  workspace_id = coalesce excluded.workspace_id row.workspace_id;
  taught_by = coalesce excluded.taught_by row.taught_by;
}

-- `INSERT … ON CONFLICT(permission_key)`
unfoldable pub upsert_rows : ℕ → PermissionRule → Rows → Rows
upsert_rows now rule t = elim (select_row rule.permission_key t) [
  | none ↦ t ++ values_row now rule ∷ []
  | some _ ↦ update_rows rule.permission_key (on_conflict (values_row now rule)) t
]

-- `SET approve_count = approve_count + 1, updated_at = ?`
unfoldable pub add_approval : ℕ → PermissionRule → PermissionRule
add_approval now r = record r { approve_count = r.approve_count + 1; updated_at = now }

-- `SET deny_count = deny_count + 1, updated_at = ?`
unfoldable pub add_denial : ℕ → PermissionRule → PermissionRule
add_denial now r = record r { deny_count = r.deny_count + 1; updated_at = now }

unfoldable pub get : Str → Rows → Result (Option PermissionRule)
get k t = do validate_key k; ok (select_row k t)

unfoldable pub upsert : ℕ → PermissionRule → Rows → Result Rows
upsert now rule t = do validate_key rule.permission_key; ok (upsert_rows now rule t)

-- `cursor.rowcount > 0`
abbrev removed_any : ℕ × Rows → Bool × Rows
removed_any (n, t) = (ltb 0 n, t)

unfoldable pub list : Rows → List PermissionRule
list t = sort_rules t

unfoldable pub delete : Str → Rows → Result (Bool × Rows)
delete k t = do validate_key k; ok (removed_any (delete_rows k t))

unfoldable pub increment_approve : ℕ → Str → Rows → Result Rows
increment_approve now k t = do validate_key k; ok (update_rows k (add_approval now) t)

unfoldable pub increment_deny : ℕ → Str → Rows → Result Rows
increment_deny now k t = do validate_key k; ok (update_rows k (add_denial now) t)

abbrev pub store : RuleStore
store = record {
  Table = Rows;
  get = get;
  upsert = upsert;
  list = list;
  delete = delete;
  increment_approve = increment_approve;
  increment_deny = increment_deny;
}
