-- ===== src/Policy/Local/Unchanged.antt =====
-- agent_os/policy.py: the state that `LocalPolicy.evaluate` leaves.
use agent_os_langgraph.Prelude.{ℕ, ◌≡◌, refl, inl, inr, Option, none, some, arith, Result-cases}
use agent_os_langgraph.Text.{Str}
use agent_os_langgraph.Permissions.{PermissionRule, RuleStore, IsRuleStore}
use agent_os_langgraph.Schemas.{require_approval, ActionProposal}
use agent_os_langgraph.Policy.Key.{derive_permission_key}
use agent_os_langgraph.Policy.Local.{
  LocalPolicy, PolicyState, fetch_rule, evaluate, by_rule, count_deny, count_approve, with_key,
}
use agent_os_langgraph.Policy.Local.Floor.{stored_effect}

module _ (S : RuleStore) where
  module _ (laws : IsRuleStore S) where
    count_deny-effect :
        (now : ℕ) (key j : Str) (o : Option S.Table)
        → stored_effect S j (count_deny S now key o) ≡ stored_effect S j o
    unfolding count_deny
    count_deny-effect now key j none = refl
    count_deny-effect now key j (some t) = elim (Result-cases (S.increment_deny now key t)) [
      | inl (t', e) ↦ rw e (laws.deny_effect now key j t t' e)
      | inr (x, e) ↦ rw e
    ]

    count_approve-effect :
        (now : ℕ) (key j : Str) (o : Option S.Table)
        → stored_effect S j (count_approve S now key o) ≡ stored_effect S j o
    unfolding count_approve
    count_approve-effect now key j none = refl
    count_approve-effect now key j (some t) = elim (Result-cases (S.increment_approve now key t)) [
      | inl (t', e) ↦ rw e (laws.approve_effect now key j t t' e)
      | inr (x, e) ↦ rw e
    ]

    by_rule-keeps :
        (self : LocalPolicy) (now : ℕ) (p : ActionProposal) (key : Str) (r : Option PermissionRule)
        (s : PolicyState S) (j : Str)
        → ((by_rule S self now p key r s).1.grants ≡ s.grants)
          × (stored_effect S j (by_rule S self now p key r s).1.rules ≡ stored_effect S j s.rules)
    unfolding by_rule
    by_rule-keeps self now p key r s j =
        ground (arith, count_deny-effect now key j s.rules, count_approve-effect now key j s.rules)

    with_key-keeps :
        (self : LocalPolicy) (now : ℕ) (p : ActionProposal) (o : Option Str) (s : PolicyState S)
        (j : Str)
        → ((with_key S self now p o s).1.grants ≡ s.grants)
          × (stored_effect S j (with_key S self now p o s).1.rules ≡ stored_effect S j s.rules)
    with_key-keeps self now p none s j = (refl, refl)
    with_key-keeps self now p (some key) s j =
        by_rule-keeps self now p key (fetch_rule S key s.rules) s j

    -- An evaluation changes no session grant and no stored effect, whatever it decides.
    pub evaluate-keeps :
        (self : LocalPolicy) (now : ℕ) (p : ActionProposal) (s : PolicyState S) (j : Str)
        → ((evaluate S self now p s).1.grants ≡ s.grants)
          × (stored_effect S j (evaluate S self now p s).1.rules ≡ stored_effect S j s.rules)
    unfolding evaluate
    evaluate-keeps self now p s j =
        ground (arith, with_key-keeps self now p (derive_permission_key p) s j)

  by_rule-asks :
      (self : LocalPolicy) (now : ℕ) (p : ActionProposal) (key : Str) (r : Option PermissionRule)
      (s : PolicyState S)
      → (by_rule S self now p key r s).0.decision ≡ require_approval
      → (by_rule S self now p key r s).1 ≡ s
  unfolding by_rule
  by_rule-asks self now p key r s h = ground arith

  with_key-asks :
      (self : LocalPolicy) (now : ℕ) (p : ActionProposal) (o : Option Str) (s : PolicyState S)
      → (with_key S self now p o s).0.decision ≡ require_approval
      → (with_key S self now p o s).1 ≡ s
  with_key-asks self now p none s h = refl
  with_key-asks self now p (some key) s h =
      by_rule-asks self now p key (fetch_rule S key s.rules) s h

  -- An evaluation that asks for approval changes nothing.
  pub evaluate-asks :
      (self : LocalPolicy) (now : ℕ) (p : ActionProposal) (s : PolicyState S)
      → (evaluate S self now p s).0.decision ≡ require_approval
      → (evaluate S self now p s).1 ≡ s
  unfolding evaluate
  evaluate-asks self now p s h =
      ground (arith, with_key-asks self now p (derive_permission_key p) s)
