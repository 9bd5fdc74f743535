-- ===== src/Permissions/Tests.antt =====
-- Scripts of calls on the two rule stores.
use agent_os_langgraph.Prelude.{ℕ, ◌≡◌, refl, none, some, List, [], ◌∷◌, Result, ok}
use agent_os_langgraph.Text.{text, str_eq}
use agent_os_langgraph.Permissions.{
  PermissionRule, Effect, always_approve, always_deny, low, validate_key, matches_key_regex,
  is_key_word, is_key_char, is_ref,
}
use agent_os_langgraph.Permissions.InMemory.{Rules, find}
use agent_os_langgraph.Permissions.InMemory
use agent_os_langgraph.Permissions.Agreement.{
  Call, get, upsert, delete, approve, Reply, IsKeyed, rows, run_memory, run_sqlite, stores_agree,
  call_memory,
}

abbrev taught : Effect → PermissionRule
taught effect = record {
  permission_key = text "fs:write:notes";
  effect = effect;
  tier_at_creation = low;
  approve_count = 0;
  deny_count = 0;
  created_at = 5;
  updated_at = 5;
  workspace_id = none;
  taught_by = some (text "ana");
}

abbrev one_rule : Rules
one_rule = (text "fs:write:notes", taught always_approve) ∷ []

abbrev script : List (ℕ × Call)
script =
    (7, approve (text "fs:write:notes"))
    ∷ (8, upsert (taught always_deny))
    ∷ (9, get (text "fs:write:notes"))
    ∷ (10, delete (text "a b"))
    ∷ []

one_rule-IsKeyed : IsKeyed one_rule
unfolding find
one_rule-IsKeyed = (refl, refl, tt)

stores_agree_example : run_sqlite script (rows one_rule) ≡ run_memory script one_rule
stores_agree_example = stores_agree script one_rule one_rule-IsKeyed

abbrev replies : List (Result Reply)
replies =
    ok Reply.done
    ∷ ok Reply.done
    ∷ ok (Reply.rule (some (record (taught always_deny) { approve_count = 1; updated_at = 8 })))
    ∷ []

-- The count and the creation time outlive a new effect.
script_replies :
    run_memory
      ((7, approve (text "fs:write:notes"))
        ∷ (8, upsert (taught always_deny))
        ∷ (9, get (text "fs:write:notes"))
        ∷ [])
      one_rule
    ≡ replies
unfolding run_memory call_memory InMemory.get InMemory.upsert InMemory.increment_approve
    validate_key text str_eq matches_key_regex is_key_word is_key_char is_ref
    agent_os_langgraph.Text.is_space find InMemory.upsert_rules InMemory.modify
    InMemory.taught_again InMemory.approved_once
script_replies = refl
