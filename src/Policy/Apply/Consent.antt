-- ===== src/Policy/Apply/Consent.antt =====
-- agent_os/policy.py: the consent behind each action that `apply_policy` runs.
use agent_os_langgraph.Prelude.{
  ◌≡◌, ◌≢◌, refl, Bool, true, false, ◌⊎◌, inl, inr, Option, none, some, Bool-cases, Result, ok, err,
  value_error, key_error, index_error, other,
}
use agent_os_langgraph.Text.{Str}
use agent_os_langgraph.Permissions.{RuleStore, always_approve, always_deny}
use agent_os_langgraph.Schemas.{
  ActionProposal, Verdict, allow, deny, require_approval, PolicyDecision, completed,
  ExecutionResult,
}
use agent_os_langgraph.Policy.{derive_tier, is_high}
use agent_os_langgraph.Policy.Key.{derive_permission_key}
use agent_os_langgraph.Policy.Feedback.{Feedback, approved, session, normalize_policy_feedback}
use agent_os_langgraph.Policy.Local.{PolicyState}
use agent_os_langgraph.Policy.Apply.{
  Engine, Asked, Execute, Outcome, stopped, apply_policy, on_feedback, on_decision, grant_session,
  remember, no_key, high_risk, after_upsert, always_answer, session_answer, remembered_rule,
}

-- A result of an action that has not run.
abbrev pub DidNotRun : Result ExecutionResult → Type 0
DidNotRun (ok r) = r.status ≢ completed
DidNotRun (err e) = Unit

-- The answers that let an action run.
abbrev pub consents : Feedback → Bool
consents approved = true
consents session = true
consents Feedback.always_approve = true
consents _ = false

-- Why an action may run, by the engine's verdict and the normalised answer.
pub data Consent (v : Verdict) (f : Result Feedback) : Type 0 where
  engine : v ≡ allow → Consent v f
  human : (c : Feedback) → v ≡ require_approval → f ≡ ok c → consents c ≡ true → Consent v f

with_reason : {A B C : Type 0} → C → A ⊎ B → (A × C) ⊎ B
with_reason c (inl a) = inl (a, c)
with_reason c (inr b) = inr b

module _ (S : RuleStore) {W : Type 0} (execute : Execute W) (p : ActionProposal) (w : W) where
  -- The action has run on the given world, or it has not run and the world is as it was.
  abbrev Ran : Outcome S W → Type 0
  Ran (r, s, w') = execute p w ≡ (r, w')

  abbrev Idle : Outcome S W → Type 0
  Idle (r, s, w') = DidNotRun r × (w' ≡ w)

  grant_session-runs :
      (name : Option Str) (key : Str) (s : PolicyState S)
      → Ran (grant_session S name execute p key s w) ⊎ Idle (grant_session S name execute p key s w)
  unfolding grant_session stopped
  grant_session-runs none key s = inr ((λ e. cc), refl)
  grant_session-runs (some name) key s = inl refl

  after_upsert-runs :
      (s : PolicyState S) (t : Result S.Table)
      → Ran (after_upsert S always_approve execute p s w t)
        ⊎ Idle (after_upsert S always_approve execute p s w t)
  unfolding stopped
  after_upsert-runs s (ok t) = inl refl
  after_upsert-runs s (err e) = inr ((λ e. cc), refl)

  after_upsert-Idle :
      (s : PolicyState S) (t : Result S.Table) → Idle (after_upsert S always_deny execute p s w t)
  unfolding stopped
  after_upsert-Idle s (ok t) = ((λ e. cc), refl)
  after_upsert-Idle s (err e) = ((λ e. cc), refl)

  session_answer-runs :
      (name key : Option Str) (s : PolicyState S)
      → Ran (session_answer S name execute p key s w)
        ⊎ Idle (session_answer S name execute p key s w)
  unfolding no_key stopped
  session_answer-runs name none s = inr ((λ e. cc), refl)
  session_answer-runs name (some key) s = grant_session-runs name key s

  remember-runs :
      (asked : Asked) (key : Str) (o : Option S.Table) (s : PolicyState S)
      → Ran (remember S always_approve asked execute p key o s w)
        ⊎ Idle (remember S always_approve asked execute p key o s w)
  unfolding remember stopped
  remember-runs asked key none s = inr ((λ e. cc), refl)
  remember-runs asked key (some t) s =
      after_upsert-runs s (S.upsert asked.now (remembered_rule always_approve asked key p) t)

  remember-Idle :
      (asked : Asked) (key : Str) (o : Option S.Table) (s : PolicyState S)
      → Idle (remember S always_deny asked execute p key o s w)
  unfolding remember stopped
  remember-Idle asked key none s = ((λ e. cc), refl)
  remember-Idle asked key (some t) s =
      after_upsert-Idle s (S.upsert asked.now (remembered_rule always_deny asked key p) t)

  always_answer-runs :
      (asked : Asked) (key : Option Str) (s : PolicyState S)
      → Ran (always_answer S always_approve asked execute p key s w)
        ⊎ Idle (always_answer S always_approve asked execute p key s w)
  unfolding no_key stopped
  always_answer-runs asked none s = inr ((λ e. cc), refl)
  always_answer-runs asked (some key) s = remember-runs asked key s.rules s

  always_answer-Idle :
      (asked : Asked) (key : Option Str) (s : PolicyState S)
      → Idle (always_answer S always_deny asked execute p key s w)
  unfolding no_key stopped
  always_answer-Idle asked none s = ((λ e. cc), refl)
  always_answer-Idle asked (some key) s = remember-Idle asked key s.rules s

  module _ (engine : Engine S) (asked : Asked) where
    -- What an outcome owes to the answer.
    abbrev Answered : Result Feedback → Outcome S W → Type 0
    Answered f o = (Ran o × Consent require_approval f) ⊎ Idle o

    on_feedback-Answered :
        (f : Result Feedback) (s : PolicyState S)
        → Answered f (on_feedback S engine asked execute p s w f)
    unfolding on_feedback high_risk stopped
    on_feedback-Answered (err (value_error m)) s = inr ((λ e. cc), refl)
    on_feedback-Answered (err (key_error m)) s = inr (tt, refl)
    on_feedback-Answered (err (index_error m)) s = inr (tt, refl)
    on_feedback-Answered (err (other m)) s = inr (tt, refl)
    on_feedback-Answered (ok Feedback.approved) s =
        inl (refl, human Feedback.approved refl refl refl)
    on_feedback-Answered (ok (Feedback.rejected m)) s = inr ((λ e. cc), refl)
    on_feedback-Answered (ok Feedback.session) s = elim (Bool-cases (is_high (derive_tier p))) [
      | inl top ↦ rw top (inr ((λ e. cc), refl))
      | inr low ↦ rw low (
          with_reason (human Feedback.session refl refl refl)
            (session_answer-runs engine.session_key (derive_permission_key p) s))
    ]
    on_feedback-Answered (ok Feedback.always_approve) s =
        elim (Bool-cases (is_high (derive_tier p))) [
          | inl top ↦ rw top (inl (refl, human Feedback.always_approve refl refl refl))
          | inr low ↦ rw low (
              with_reason (human Feedback.always_approve refl refl refl)
                (always_answer-runs asked (derive_permission_key p) s))
        ]
    on_feedback-Answered (ok Feedback.always_deny) s = elim (Bool-cases (is_high (derive_tier p))) [
      | inl top ↦ rw top (inr ((λ e. cc), refl))
      | inr low ↦ rw low (inr (always_answer-Idle asked (derive_permission_key p) s))
    ]

    on_decision-runs :
        (d : PolicyDecision) (v : Verdict) (s : PolicyState S)
        → let o = on_decision S engine asked execute p d v s w in
          (Ran o × Consent v (normalize_policy_feedback asked.lower asked.answer)) ⊎ Idle o
    unfolding stopped
    on_decision-runs d allow s = inl (refl, Consent.engine refl)
    on_decision-runs d deny s = inr ((λ e. cc), refl)
    on_decision-runs d require_approval s =
        on_feedback-Answered (normalize_policy_feedback asked.lower asked.answer) s

    -- Either the action has run once, and the engine allowed it or the human answered 'approved',
    -- 'session' or 'always_approve' where the engine asked; or the world is as it was and the result
    -- is not a completed one.
    pub apply_policy-runs_agreed :
        (s : PolicyState S)
        → let (r, s', w') = apply_policy S engine asked execute p s w in
          ((execute p w ≡ (r, w'))
            × Consent
                (engine.evaluate asked.now p s).0.decision
                (normalize_policy_feedback asked.lower asked.answer))
          ⊎ (DidNotRun r × (w' ≡ w))
    unfolding apply_policy
    apply_policy-runs_agreed s =
        let (d, s') = engine.evaluate asked.now p s in on_decision-runs d d.decision s'
