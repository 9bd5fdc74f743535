-- ===== src/Policy/Apply/Remembered.antt =====
-- agent_os/policy.py: the evaluation that follows a remembering answer to `apply_policy`.
use agent_os_langgraph.Prelude.{
  ℕ, ◌≡◌, refl, true, false, Option, none, some, ◌&&◌, ◌||◌, arith, ok,
}
use agent_os_langgraph.Text.{Str, str_eq, str_eq_self}
use agent_os_langgraph.Permissions.{
  RuleStore, IsRuleStore, Effect, always_approve, always_deny, PermissionRule,
}
use agent_os_langgraph.Schemas.{ActionProposal, Verdict, allow, deny, require_approval}
use agent_os_langgraph.Policy.Key.{derive_permission_key}
use agent_os_langgraph.Policy.Feedback.{Feedback, normalize_policy_feedback}
use agent_os_langgraph.Policy.Local.{
  LocalPolicy, is_off, PolicyState, evaluate, by_rule, fetch_rule, is_deny_rule, is_approve_rule,
}
use agent_os_langgraph.Policy.Local.Sessions.{is_granted, approve_session, is_granted-approve}
use agent_os_langgraph.Policy.Local.Floor.{evaluate-always_deny, stored_effect, key_not_high}
use agent_os_langgraph.Policy.Local.Unchanged.{evaluate-asks}
use agent_os_langgraph.Policy.Apply.{
  Engine, Asked, Execute, apply_policy, on_feedback, on_decision, grant_session, remember,
  remembered_rule,
}

-- The answer that teaches an effect, and the verdict that the effect gives.
abbrev pub answer_of : Effect → Feedback
answer_of always_approve = Feedback.always_approve
answer_of always_deny = Feedback.always_deny

abbrev pub verdict_of : Effect → Verdict
verdict_of always_approve = allow
verdict_of always_deny = deny

module _ (S : RuleStore) where
  -- The engine of one `LocalPolicy`.
  abbrev pub local : LocalPolicy → Engine S
  local self = record { evaluate = evaluate S self; session_key = self.session_key }

  fetch_rule-approve :
      (key : Str) (o : Option S.Table)
      → stored_effect S key o ≡ some always_approve
      → is_approve_rule (fetch_rule S key o) ≡ true
  unfolding fetch_rule
  fetch_rule-approve key none h = absurd (cc)
  fetch_rule-approve key (some t) h = ground arith

  approve_not_deny : (o : Option PermissionRule) → is_approve_rule o ≡ true → is_deny_rule o ≡ false
  approve_not_deny none h = absurd (cc)
  approve_not_deny (some r) h = ground arith

  -- A stored always-approve rule allows every proposal of its key.
  evaluate-always_approve :
      (self : LocalPolicy) (now : ℕ) (q : ActionProposal) (s : PolicyState S) (key : Str)
      → derive_permission_key q ≡ some key
      → stored_effect S key s.rules ≡ some always_approve
      → (evaluate S self now q s).0.decision ≡ allow
  unfolding evaluate by_rule
  evaluate-always_approve self now q s key k e = ground (
    arith,
    key_not_high S q key k,
    fetch_rule-approve key s.rules e,
    approve_not_deny (fetch_rule S key s.rules),
  )

  -- A session's grant allows every proposal of its key, unless a rule denies it.
  evaluate-granted :
      (self : LocalPolicy) (now : ℕ) (q : ActionProposal) (s : PolicyState S) (key name : Str)
      → derive_permission_key q ≡ some key
      → self.session_key ≡ some name
      → is_granted name key s.grants ≡ true
      → is_deny_rule (fetch_rule S key s.rules) ≡ false
      → (evaluate S self now q s).0.decision ≡ allow
  unfolding evaluate by_rule
  evaluate-granted self now q s key name k e g d = ground (arith, key_not_high S q key k)

  evaluate-taught :
      (self : LocalPolicy) (effect : Effect) (now : ℕ) (q : ActionProposal) (s : PolicyState S)
      (key : Str)
      → is_off self.mode ≡ false
      → derive_permission_key q ≡ some key
      → stored_effect S key s.rules ≡ some effect
      → (evaluate S self now q s).0.decision ≡ verdict_of effect
  evaluate-taught self always_approve now q s key on k e =
      evaluate-always_approve self now q s key k e
  evaluate-taught self always_deny now q s key on k e =
      evaluate-always_deny S self now q s key on k e

  module _ {W : Type 0} (laws : IsRuleStore S) where
    after_upsert-effect :
        (effect : Effect) (asked : Asked) (execute : Execute W) (p : ActionProposal) (key : Str)
        (s : PolicyState S) (w : W) (t t' : S.Table)
        → S.upsert asked.now (remembered_rule effect asked key p) t ≡ ok t'
        → stored_effect S key (remember S effect asked execute p key (some t) s w).1.rules
          ≡ some effect
    unfolding remember
    after_upsert-effect always_approve asked execute p key s w t t' e =
        rw e (laws.upsert_effect asked.now (remembered_rule always_approve asked key p) t t' e)
    after_upsert-effect always_deny asked execute p key s w t t' e =
        rw e (laws.upsert_effect asked.now (remembered_rule always_deny asked key p) t t' e)

    on_feedback-remembers :
        (self : LocalPolicy) (effect : Effect) (asked : Asked) (execute : Execute W)
        (p : ActionProposal) (key : Str) (s : PolicyState S) (w : W) (t : S.Table)
        → derive_permission_key p ≡ some key
        → s.rules ≡ some t
        → on_feedback S (local self) asked execute p s w (ok (answer_of effect))
          ≡ remember S effect asked execute p key (some t) s w
    unfolding on_feedback
    on_feedback-remembers self always_approve asked execute p key s w t k r =
        rw (key_not_high S p key k) (rw (k, r) refl)
    on_feedback-remembers self always_deny asked execute p key s w t k r =
        rw (key_not_high S p key k) (rw (k, r) refl)

    apply_policy-answer :
        (self : LocalPolicy) (asked : Asked) (execute : Execute W) (p : ActionProposal)
        (s : PolicyState S) (w : W) (c : Feedback)
        → (evaluate S self asked.now p s).0.decision ≡ require_approval
        → normalize_policy_feedback asked.lower asked.answer ≡ ok c
        → apply_policy S (local self) asked execute p s w
          ≡ on_feedback S (local self) asked execute p s w (ok c)
    unfolding apply_policy
    apply_policy-answer self asked execute p s w c v f =
        rw (v, on_decision) (rw (evaluate-asks S self asked.now p s v, f) refl)

    module _ (self : LocalPolicy) (asked : Asked) (execute : Execute W) (p : ActionProposal)
        (s : PolicyState S) (w : W) (key : Str) where
      -- Where the local policy asked, an 'always_approve' or 'always_deny' answer that the store saved
      -- under the key of the proposal decides the next evaluation of any proposal of the same key,
      -- for each session whose policy is on, at any time.
      pub remembered_answer_decides :
          (effect : Effect) (t t' : S.Table)
          → (evaluate S self asked.now p s).0.decision ≡ require_approval
          → normalize_policy_feedback asked.lower asked.answer ≡ ok (answer_of effect)
          → derive_permission_key p ≡ some key
          → s.rules ≡ some t
          → S.upsert asked.now (remembered_rule effect asked key p) t ≡ ok t'
          → (next : LocalPolicy) (now : ℕ) (q : ActionProposal) → is_off next.mode ≡ false
          → derive_permission_key q ≡ some key
          → (evaluate S next now q (apply_policy S (local self) asked execute p s w).1).0.decision
            ≡ verdict_of effect
      remembered_answer_decides effect t t' v f k r e next now q on kq =
          evaluate-taught next effect now q _ key on kq (
            rw (apply_policy-answer self asked execute p s w (answer_of effect) v f) (
              rw (on_feedback-remembers self effect asked execute p key s w t k r)
                (after_upsert-effect effect asked execute p key s w t t' e)))

      grant_lem :
          (name : Str)
          → (evaluate S self asked.now p s).0.decision ≡ require_approval
          → normalize_policy_feedback asked.lower asked.answer ≡ ok Feedback.session
          → derive_permission_key p ≡ some key
          → self.session_key ≡ some name
          → (apply_policy S (local self) asked execute p s w).1
            ≡ record s { grants = approve_session name key s.grants }
      unfolding on_feedback grant_session
      grant_lem name v f k n =
          rw (apply_policy-answer self asked execute p s w Feedback.session v f)
            (rw (key_not_high S p key k) (rw (k, n) refl))

      -- Where the local policy of a session asked about a proposal with a key, a 'session' answer
      -- grants that key to that session, and no other key to any session; the rules stay as they were.
      pub session_answer_grants :
          (name : Str)
          → (evaluate S self asked.now p s).0.decision ≡ require_approval
          → normalize_policy_feedback asked.lower asked.answer ≡ ok Feedback.session
          → derive_permission_key p ≡ some key
          → self.session_key ≡ some name
          → let s' = (apply_policy S (local self) asked execute p s w).1 in
            ((n j : Str)
              → is_granted n j s'.grants
                ≡ (str_eq name n && str_eq key j || is_granted n j s.grants))
            × (s'.rules ≡ s.rules)
      session_answer_grants name v f k n =
          rw (grant_lem name v f k n) ((λ m j. is_granted-approve name key s.grants m j), refl)

      -- Where the local policy of a session asked about a proposal with a key and no stored rule denies
      -- the key, a 'session' answer allows the next proposal of that key in that session.
      pub session_answer_allows :
          (name : Str)
          → (evaluate S self asked.now p s).0.decision ≡ require_approval
          → normalize_policy_feedback asked.lower asked.answer ≡ ok Feedback.session
          → derive_permission_key p ≡ some key
          → self.session_key ≡ some name
          → (next : LocalPolicy) (now : ℕ) (q : ActionProposal) → next.session_key ≡ some name
          → derive_permission_key q ≡ some key
          → is_deny_rule (fetch_rule S key s.rules) ≡ false
          → (evaluate S next now q (apply_policy S (local self) asked execute p s w).1).0.decision
            ≡ allow
      session_answer_allows name v f k n next now q nn kq d = rw (grant_lem name v f k n) (
          evaluate-granted next now q (record s { grants = approve_session name key s.grants }) key
            name kq nn
            (ground (
              arith,
              is_granted-approve name key s.grants name key,
              str_eq_self name,
              str_eq_self key,
            ))
            d)
