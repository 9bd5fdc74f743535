-- ===== src/Policy/Apply.antt =====
-- agent_os/policy.py: `apply_policy`, on a proposal that the engine allows, denies or asks about.
pub mod Consent
pub mod Remembered
mod Tests
use agent_os_langgraph.Prelude.{
  ℕ, ◌≡◌, refl, Bool, true, false, Option, none, some, List, [], ◌∷◌, ◌++◌, if◌then◌else◌, Result,
  ok, err, Error, value_error, message,
}
use agent_os_langgraph.Text.{Str, text}
use agent_os_langgraph.Permissions.{Effect, always_approve, always_deny, PermissionRule, RuleStore}
use agent_os_langgraph.Schemas.{
  Value, ActionProposal, Verdict, allow, deny, require_approval, PolicyDecision, Status, completed,
  failed, cancelled, ExecutionResult,
}
use agent_os_langgraph.Policy.{derive_tier, is_high}
use agent_os_langgraph.Policy.Key.{derive_permission_key}
use agent_os_langgraph.Policy.Feedback
use agent_os_langgraph.Policy.Feedback.{Feedback, normalize_policy_feedback}
use agent_os_langgraph.Policy.Local.{PolicyState}
use agent_os_langgraph.Policy.Local.Sessions.{approve_session}
use agent_os_langgraph.Policy.Composite.{Evaluate, or_text}

-- The engine, with the session that it serves.
pub record Engine (S : RuleStore) : Type 0 where
  pub evaluate : Evaluate S
  pub session_key : Option Str

-- What comes from outside: `str.lower`, the time, the value with which `interrupt` returns, and
-- what the workspace and the principal add to a new rule.
pub record Asked : Type 0 where
  pub lower : Str → Str
  pub now : ℕ
  pub answer : Value
  pub workspace_id : Option Str
  pub taught_by : Str

-- An action acts on a world of its own, and returns a result or raises.
abbrev pub Execute : Type 0 → Type 0
Execute W = ActionProposal → W → Result ExecutionResult × W

unfoldable pub stopped : Status → Str → ExecutionResult
stopped status error = record { status = status; outputs = []; errors = error ∷ []; artifacts = [] }

abbrev pub remembered_rule : Effect → Asked → Str → ActionProposal → PermissionRule
remembered_rule effect asked key p = record {
  permission_key = key;
  effect = effect;
  tier_at_creation = derive_tier p;
  approve_count = 0;
  deny_count = 0;
  created_at = 0;
  updated_at = 0;
  workspace_id = asked.workspace_id;
  taught_by = some asked.taught_by;
}

abbrev pub Outcome : RuleStore → Type 0 → Type 0
Outcome S W = Result ExecutionResult × PolicyState S × W

module _ (S : RuleStore) {W : Type 0} where
  abbrev pub run : Execute W → ActionProposal → PolicyState S → W → Outcome S W
  run execute p s w = let (r, w') = execute p w in (r, s, w')

  abbrev pub stop : Status → Str → PolicyState S → W → Outcome S W
  stop status error s w = (ok (stopped status error), s, w)

  -- 'session', with a permission key
  unfoldable pub grant_session :
      Option Str → Execute W → ActionProposal → Str → PolicyState S → W → Outcome S W
  grant_session none execute p key s w =
      stop cancelled
        (text
          "Session approval is unavailable outside a request/session context. Choose 'approved' for one-time approval.")
        s w
  grant_session (some session) execute p key s w =
      run execute p (record s { grants = approve_session session key s.grants }) w

  abbrev after_upsert :
      Effect → Execute W → ActionProposal → PolicyState S → W → Result S.Table → Outcome S W
  after_upsert effect execute p s w (err e) =
      stop cancelled
        (text "Could not save the remembered permission. Choose 'approved' for one-time approval.")
        s w
  after_upsert always_approve execute p s w (ok t) = run execute p (record s { rules = some t }) w
  after_upsert always_deny execute p s w (ok t) =
      stop cancelled (text "User rejected") (record s { rules = some t }) w

  -- 'always_approve' and 'always_deny', with a permission key
  unfoldable pub remember :
      Effect
      → Asked
      → Execute W
      → ActionProposal
      → Str
      → Option S.Table
      → PolicyState S
      → W
      → Outcome S W
  remember effect asked execute p key none s w =
      stop cancelled
        (text
          "Persistent approvals are unavailable because no permission store is configured. Choose 'approved' for one-time approval.")
        s w
  remember effect asked execute p key (some t) s w =
      after_upsert effect execute p s w (S.upsert asked.now (remembered_rule effect asked key p) t)

  unfoldable pub no_key : PolicyState S → W → Outcome S W
  no_key = stop cancelled (
      text
        "This action has no safely scoped remembered-permission key. Choose 'approved' for one-time approval.")

  unfoldable pub high_risk : PolicyState S → W → Outcome S W
  high_risk =
      stop cancelled (text "High-risk action rejected; remembered approvals are not allowed")

  abbrev session_answer :
      Option Str → Execute W → ActionProposal → Option Str → PolicyState S → W → Outcome S W
  session_answer session execute p none s w = no_key s w
  session_answer session execute p (some key) s w = grant_session session execute p key s w

  abbrev always_answer :
      Effect → Asked → Execute W → ActionProposal → Option Str → PolicyState S → W → Outcome S W
  always_answer effect asked execute p none s w = no_key s w
  always_answer effect asked execute p (some key) s w =
      remember effect asked execute p key s.rules s w

  -- After the answer; only a `ValueError` of the normalisation is caught.
  unfoldable pub on_feedback :
      Engine S
      → Asked
      → Execute W
      → ActionProposal
      → PolicyState S
      → W
      → Result Feedback
      → Outcome S W
  unfolding no_key high_risk
  on_feedback engine asked execute p s w (err (value_error m)) =
      stop cancelled (text "Rejected: " ++ m) s w
  on_feedback engine asked execute p s w (err e) = (err e, s, w)
  on_feedback engine asked execute p s w (ok Feedback.approved) = run execute p s w
  on_feedback engine asked execute p s w (ok (Feedback.rejected reason)) =
      stop cancelled (text "rejected: " ++ reason) s w
  on_feedback engine asked execute p s w (ok Feedback.session) =
      if is_high (derive_tier p)
      then high_risk s w
      else session_answer engine.session_key execute p (derive_permission_key p) s w
  on_feedback engine asked execute p s w (ok Feedback.always_approve) =
      if is_high (derive_tier p)
      then run execute p s w
      else always_answer always_approve asked execute p (derive_permission_key p) s w
  on_feedback engine asked execute p s w (ok Feedback.always_deny) =
      if is_high (derive_tier p)
      then high_risk s w
      else always_answer always_deny asked execute p (derive_permission_key p) s w

  abbrev on_decision :
      Engine S
      → Asked
      → Execute W
      → ActionProposal
      → PolicyDecision
      → Verdict
      → PolicyState S
      → W
      → Outcome S W
  on_decision engine asked execute p d allow s w = run execute p s w
  on_decision engine asked execute p d require_approval s w =
      on_feedback engine asked execute p s w (normalize_policy_feedback asked.lower asked.answer)
  on_decision engine asked execute p d deny s w =
      stop failed (or_text d.reason (text "Action denied by policy")) s w

  unfoldable pub apply_policy :
      Engine S → Asked → Execute W → ActionProposal → PolicyState S → W → Outcome S W
  unfolding on_feedback
  apply_policy engine asked execute p s w =
      let (d, s') = engine.evaluate asked.now p s in
      on_decision engine asked execute p d d.decision s' w
