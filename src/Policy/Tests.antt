-- ===== src/Policy/Tests.antt =====
-- The policy on concrete proposals, with the in-memory store.
use agent_os_langgraph.Prelude.{◌≡◌, ◌≢◌, refl, none, some, [], ◌∷◌, ◌↔◌, All, ok}
use agent_os_langgraph.Text.{Str, text, str_eq, mem_str, is_space}
use agent_os_langgraph.Permissions.{
  Effect, always_approve, always_deny, high, low, validate_key, PermissionRule,
}
use agent_os_langgraph.Permissions.InMemory
use agent_os_langgraph.Permissions.InMemory.{Rules, find, upsert_rules, store, store_laws}
use agent_os_langgraph.Schemas.{str, get_arg, ActionProposal, write, payment, allow, deny}
use agent_os_langgraph.Policy.{derive_tier}
use agent_os_langgraph.Policy.Key.{
  derive_permission_key, is_connector, is_connector_char, permission_connector, permission_ref,
}
use agent_os_langgraph.Policy.Key.Scope.{derive_permission_key_injective}
use agent_os_langgraph.Policy.Local.{LocalPolicy, smart, PolicyState, evaluate, fetch_rule}
use agent_os_langgraph.Policy.Local.Sessions.{Grants, is_granted, IsDict}
use agent_os_langgraph.Policy.Local.Floor.{Allowed, evaluate-allow, evaluate-high, stored_effect}
use agent_os_langgraph.Policy.Composite.{
  Plugin, Evaluate, Agrees, composite_evaluate, composite_evaluate-high, composite_evaluate_iff,
  composite_evaluate-base,
}

abbrev pub note : Str → ActionProposal
note reason = record {
  tool = text "memory.write";
  arguments = (text "ref", str (text "notes/a.md")) ∷ (text "mode", str (text "append")) ∷ [];
  reason = reason;
  side_effect = write;
  connector = some (text "vault");
}

abbrev transfer : ActionProposal
transfer = record {
  tool = text "bank.send";
  arguments = [];
  reason = [];
  side_effect = payment;
  connector = none;
}

abbrev pub note_key : Str
note_key = text "memory_write:write:vault:append:notes/a.md"

pub note_has_key : derive_permission_key (note []) ≡ some note_key
unfolding derive_permission_key permission_ref get_arg text str_eq is_space permission_connector
    is_connector is_connector_char mem_str agent_os_langgraph.Policy.Key.permission_key
note_has_key = refl

pub again_has_key : derive_permission_key (note (text "again")) ≡ some note_key
unfolding derive_permission_key permission_ref get_arg text str_eq is_space permission_connector
    is_connector is_connector_char mem_str agent_os_langgraph.Policy.Key.permission_key
again_has_key = refl

derive_permission_key_injective_example :
    ((note []).tool ≡ (note (text "again")).tool)
    × ((note []).side_effect ≡ (note (text "again")).side_effect)
    × ((note []).connector ≡ (note (text "again")).connector)
    × (get_arg (text "mode") (note []).arguments
        ≡ get_arg (text "mode") (note (text "again")).arguments)
    × (get_arg (text "ref") (note []).arguments
        ≡ get_arg (text "ref") (note (text "again")).arguments)
derive_permission_key_injective_example =
    derive_permission_key_injective (note []) (note (text "again")) note_key note_has_key
      again_has_key

abbrev two_sessions : Grants
two_sessions = (text "s1", note_key ∷ []) ∷ (text "s2", note_key ∷ []) ∷ []

two_sessions-IsDict : IsDict two_sessions
two_sessions-IsDict =
    ((λ k. unfold is_granted str_eq text in refl), ((λ k. unfold is_granted in refl), tt))

abbrev pub smart_policy : LocalPolicy
smart_policy = record { mode = smart; session_key = some (text "s1") }

abbrev pub denied_notes : Rules
denied_notes =
    (
      note_key,
      record {
        permission_key = note_key;
        effect = always_deny;
        tier_at_creation = low;
        approve_count = 0;
        deny_count = 2;
        created_at = 1;
        updated_at = 4;
        workspace_id = none;
        taught_by = some (text "ana");
      },
    )
    ∷ []

abbrev pub denied : PolicyState store
denied = record { grants = two_sessions; rules = some denied_notes }

abbrev pub granted : PolicyState store
granted = record { grants = two_sessions; rules = none }

note_allowed : (evaluate store smart_policy 9 (note []) granted).0.decision ≡ allow
unfolding evaluate derive_tier derive_permission_key str_eq text permission_connector is_connector
    is_connector_char get_arg permission_ref is_space mem_str fetch_rule is_granted
    agent_os_langgraph.Policy.Key.permission_key
note_allowed = refl

evaluate-allow_example :
    (derive_tier (note []) ≢ high) × Allowed store smart_policy (note []) granted
evaluate-allow_example = evaluate-allow store smart_policy 9 (note []) granted refl note_allowed

transfer_high : derive_tier transfer ≡ high
unfolding derive_tier
transfer_high = refl

transfer_denied :
    ((evaluate store smart_policy 9 transfer granted).0.decision ≡ deny)
    × ((evaluate store smart_policy 9 transfer granted).1 ≡ granted)
transfer_denied = evaluate-high store smart_policy 9 transfer granted refl transfer_high

denied_effect : stored_effect store note_key denied.rules ≡ some always_deny
unfolding InMemory.get validate_key agent_os_langgraph.Permissions.matches_key_regex text
    agent_os_langgraph.Permissions.is_key_word agent_os_langgraph.Permissions.is_key_char
    agent_os_langgraph.Permissions.is_ref is_space find str_eq
denied_effect = refl

-- A plugin that lets pass what it sees.
abbrev passing : Plugin
passing p = ok (record { decision = allow; policy_id = text "any"; reason = [] })

abbrev base : Evaluate store
base = evaluate store smart_policy

composite_evaluate_iff_example :
    ((composite_evaluate store base (passing ∷ []) 9 (note []) granted).0.decision ≢ deny) ↔ (
      (derive_tier (note []) ≢ high)
      × ((base 9 (note []) granted).0.decision ≢ deny)
      × All (Agrees (note [])) (passing ∷ []))
composite_evaluate_iff_example =
    composite_evaluate_iff store base (passing ∷ []) 9 (note []) granted

composed_allows :
    (composite_evaluate store base (passing ∷ []) 9 (note []) granted).0.decision ≡ allow
unfolding composite_evaluate evaluate derive_tier derive_permission_key str_eq text
    permission_connector is_connector is_connector_char get_arg permission_ref is_space mem_str
    fetch_rule is_granted agent_os_langgraph.Policy.Key.permission_key
    agent_os_langgraph.Policy.Composite.run_plugins
composed_allows = refl

composed_note : (composite_evaluate store base (passing ∷ []) 9 (note []) granted).0.decision ≢ deny
composed_note e = absurd (cc (e, composed_allows))
