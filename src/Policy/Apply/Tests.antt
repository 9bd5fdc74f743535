-- ===== src/Policy/Apply/Tests.antt =====
-- `apply_policy` on concrete answers, with the in-memory store.
use agent_os_langgraph.Prelude.{ℕ, ◌+◌, ◌≡◌, refl, false, ◌⊎◌, none, some, [], ok}
use agent_os_langgraph.Text.{Str, text, str_eq, mem_str, is_space, strip}
use agent_os_langgraph.Permissions.{Effect, always_approve, always_deny, validate_key}
use agent_os_langgraph.Permissions.InMemory
use agent_os_langgraph.Permissions.InMemory.{Rules, store, store_laws, upsert_rules}
use agent_os_langgraph.Schemas.{
  Value, str, ActionProposal, Verdict, allow, deny, require_approval, completed, ExecutionResult,
}
use agent_os_langgraph.Policy.Key.{derive_permission_key}
use agent_os_langgraph.Policy.Feedback
use agent_os_langgraph.Policy.Feedback.{normalize_policy_feedback}
use agent_os_langgraph.Policy.Local.{
  LocalPolicy, smart, PolicyState, evaluate, fetch_rule, is_deny_rule,
}
use agent_os_langgraph.Policy.Local.Sessions.{is_granted}
use agent_os_langgraph.Policy.Tests.{note, note_key, smart_policy, note_has_key, again_has_key}
use agent_os_langgraph.Policy.Apply.{Asked, Execute, apply_policy, remembered_rule}
use agent_os_langgraph.Policy.Apply.Consent.{Consent, DidNotRun, apply_policy-runs_agreed}
use agent_os_langgraph.Policy.Apply.Remembered.{local, remembered_answer_decides}

-- A world that counts the actions that ran.
abbrev count_one : Execute ℕ
count_one p n =
    (ok (record { status = completed; outputs = []; errors = []; artifacts = [] }), n + 1)

abbrev answered : Str → Asked
answered a = record {
  lower = λ s. s;
  now = 9;
  answer = str a;
  workspace_id = none;
  taught_by = text "ana";
}

abbrev fresh : PolicyState store
fresh = record { grants = []; rules = some [] }

fresh_asks : (evaluate store smart_policy 9 (note []) fresh).0.decision ≡ require_approval
unfolding evaluate agent_os_langgraph.Policy.derive_tier derive_permission_key str_eq text
    agent_os_langgraph.Policy.Key.permission_connector agent_os_langgraph.Policy.Key.is_connector
    agent_os_langgraph.Policy.Key.is_connector_char agent_os_langgraph.Schemas.get_arg
    agent_os_langgraph.Policy.Key.permission_ref is_space mem_str fetch_rule InMemory.get
    validate_key agent_os_langgraph.Permissions.matches_key_regex
    agent_os_langgraph.Policy.Key.permission_key agent_os_langgraph.Permissions.is_key_word
    InMemory.find agent_os_langgraph.Permissions.is_key_char agent_os_langgraph.Permissions.is_ref
    is_granted agent_os_langgraph.Policy.Local.builtin agent_os_langgraph.Policy.Local.builtin_write
    agent_os_langgraph.Policy.Local.by_default agent_os_langgraph.Policy.Local.by_rule
    agent_os_langgraph.Policy.Local.is_brief agent_os_langgraph.Policy.Local.is_log
    agent_os_langgraph.Policy.Local.is_under agent_os_langgraph.Policy.Local.taxonomy
    agent_os_langgraph.Policy.side_effect_tier agent_os_langgraph.Text.Split.split_colon
    agent_os_langgraph.Text.lstrip_by agent_os_langgraph.Text.starts_with
    agent_os_langgraph.Policy.Local.by_taxonomy agent_os_langgraph.Policy.Local.decided
fresh_asks = refl

apply_policy-runs_agreed_example :
    let (r, s', w') =
      apply_policy store
        (local store smart_policy)
        (answered (text "yes"))
        count_one
        (note [])
        fresh
        0 in
    ((count_one (note []) 0 ≡ (r, w'))
      × Consent
          (evaluate store smart_policy 9 (note []) fresh).0.decision
          (normalize_policy_feedback (λ s. s) (str (text "yes"))))
    ⊎ (DidNotRun r × (w' ≡ 0))
apply_policy-runs_agreed_example =
    apply_policy-runs_agreed store count_one (note []) 0 (local store smart_policy)
      (answered (text "yes")) fresh

reads_always_deny :
    normalize_policy_feedback (λ s. s) (str (text "always-deny")) ≡ ok Feedback.always_deny
unfolding normalize_policy_feedback strip text Feedback.choose_feedback mem_str str_eq
    Feedback.join_words
reads_always_deny = refl

abbrev taught_rules : Rules
taught_rules =
    upsert_rules 9 (remembered_rule always_deny (answered (text "always-deny")) note_key (note []))
      []

saves :
    InMemory.upsert 9
      (remembered_rule always_deny (answered (text "always-deny")) note_key (note []))
      []
    ≡ ok taught_rules
unfolding InMemory.upsert validate_key agent_os_langgraph.Permissions.matches_key_regex text
    agent_os_langgraph.Permissions.is_key_word agent_os_langgraph.Permissions.is_key_char
    agent_os_langgraph.Permissions.is_ref is_space
saves = refl

remembered_answer_decides_example :
    (evaluate store smart_policy 12
      (note (text "again"))
      (apply_policy store
        (local store smart_policy)
        (answered (text "always-deny"))
        count_one
        (note [])
        fresh
        0).1).0.decision
    ≡ deny
remembered_answer_decides_example =
    remembered_answer_decides store store_laws smart_policy (answered (text "always-deny"))
      count_one (note []) fresh 0 note_key always_deny [] taught_rules fresh_asks reads_always_deny
      note_has_key refl saves smart_policy 12 (note (text "again")) refl again_has_key

reads_session : normalize_policy_feedback (λ s. s) (str (text "session")) ≡ ok Feedback.session
unfolding normalize_policy_feedback strip text Feedback.choose_feedback mem_str str_eq
    Feedback.join_words
reads_session = refl

no_rule : is_deny_rule (fetch_rule store note_key fresh.rules) ≡ false
unfolding fetch_rule InMemory.get validate_key agent_os_langgraph.Permissions.matches_key_regex text
    agent_os_langgraph.Permissions.is_key_word agent_os_langgraph.Permissions.is_key_char
    agent_os_langgraph.Permissions.is_ref is_space InMemory.find
no_rule = refl
