-- ===== src/Policy/Local/Floor.antt =====
-- agent_os/policy.py: the reasons for which `LocalPolicy.evaluate` allows, and those for which it
-- denies.
use agent_os_langgraph.Prelude.{
  ◌&&◌, ℕ, ◌≡◌, ◌≢◌, refl, Bool, true, false, inl, inr, Option, none, some, [], ◌∷◌, arith,
  Bool-cases,
}
use agent_os_langgraph.Text.{Str, text, mem_str, str_eq, str_eq_iff}
use agent_os_langgraph.Permissions.{Effect, always_deny, RuleStore, high, effect_of}
use agent_os_langgraph.Schemas.{Value, to_str, get_arg, ActionProposal, allow, deny, is_write}
use agent_os_langgraph.Policy.{derive_tier, is_high}
use agent_os_langgraph.Policy.Key.{derive_permission_key}
use agent_os_langgraph.Policy.Key.Scope.{derive_permission_key_inv}
use agent_os_langgraph.Policy.Local.Sessions.{Grants, is_granted}
use agent_os_langgraph.Policy.Local.{
  LocalPolicy, is_off, PolicyState, fetch_rule, evaluate, by_rule, builtin, builtin_on,
  builtin_write, by_default, taxonomy, is_log, is_brief, mode_text, is_deny_rule, is_approve_rule,
  session_allows, with_key,
}

-- A write whose ref stands in the log folder, and appends.
pub record AppendsLog (p : ActionProposal) (ref : Value) : Type 0 where
  pub writes : is_write p.side_effect ≡ true
  pub ref_is : get_arg (text "ref") p.arguments ≡ some ref
  pub log : is_log (to_str ref) ≡ true
  pub mode : mode_text (get_arg (text "mode") p.arguments) ≡ text "append"

-- A write whose ref stands in the brief folder, and appends or creates.
pub record WritesBrief (p : ActionProposal) (ref : Value) : Type 0 where
  pub writes : is_write p.side_effect ≡ true
  pub ref_is : get_arg (text "ref") p.arguments ≡ some ref
  pub brief : is_brief (to_str ref) ≡ true
  pub mode :
      mem_str (mode_text (get_arg (text "mode") p.arguments)) (text "append" ∷ text "create" ∷ [])
      ≡ true

-- Why the built-in steps allow a proposal.
pub data Builtin (p : ActionProposal) : Type 0 where
  harmless : taxonomy p.side_effect ≡ allow → Builtin p
  log : (ref : Value) → AppendsLog p ref → Builtin p
  brief : (ref : Value) → WritesBrief p ref → Builtin p

by_default-allow : (p : ActionProposal) → (by_default p).decision ≡ allow → Builtin p
unfolding by_default
by_default-allow p h = harmless (ground arith)

builtin_on-allow :
    (p : ActionProposal) (b : Bool) (ref : Option Value)
    → is_write p.side_effect ≡ b
    → get_arg (text "ref") p.arguments ≡ ref
    → (builtin_on b ref p).decision ≡ allow
    → Builtin p
unfolding builtin_write
builtin_on-allow p true none w r h = by_default-allow p h
builtin_on-allow p false ref w r h = by_default-allow p h
builtin_on-allow p true (some ref) w r h =
    elim (Bool-cases (is_log (to_str ref) && str_eq mode (text "append"))) [
      | inl yes_log ↦ log ref (record {
        writes = w;
        ref_is = r;
        log = ground arith;
        mode = ground (arith, str_eq_iff mode (text "append"));
      })
      | inr no_log ↦
          elim (Bool-cases
            (is_brief (to_str ref) && mem_str mode (text "append" ∷ text "create" ∷ []))) [
              | inl yes_brief ↦
                  brief ref
                    (record { writes = w; ref_is = r; brief = ground arith; mode = ground arith })
              | inr no_brief ↦ by_default-allow p (ground arith)
            ]
    ]
  where
    mode : Str
    mode = mode_text (get_arg (text "mode") p.arguments)

builtin-allow : (p : ActionProposal) → (builtin p).decision ≡ allow → Builtin p
unfolding builtin
builtin-allow p h =
    builtin_on-allow p (is_write p.side_effect) (get_arg (text "ref") p.arguments) refl refl h

session_allows_inv :
    (o : Option Str) (key : Str) (g : Grants)
    → session_allows o key g ≡ true
    → (name : Str) × (o ≡ some name) × (is_granted name key g ≡ true)
session_allows_inv none key g h = absurd (cc)
session_allows_inv (some name) key g h = (name, refl, h)

module _ (S : RuleStore) where
  -- Why an evaluation allows a proposal while the policy is on.
  pub data Allowed (self : LocalPolicy) (p : ActionProposal) (s : PolicyState S) : Type 0 where
    session :
        (key name : Str)
        → derive_permission_key p ≡ some key
        → self.session_key ≡ some name
        → is_granted name key s.grants ≡ true
        → is_deny_rule (fetch_rule S key s.rules) ≡ false
        → Allowed self p s
    learned :
        (key : Str)
        → derive_permission_key p ≡ some key
        → is_approve_rule (fetch_rule S key s.rules) ≡ true
        → Allowed self p s
    built_in : Builtin p → Allowed self p s

  by_rule-allow :
      (self : LocalPolicy) (now : ℕ) (p : ActionProposal) (s : PolicyState S) (key : Str)
      → derive_permission_key p ≡ some key
      → (by_rule S self now p key (fetch_rule S key s.rules) s).0.decision ≡ allow
      → Allowed self p s
  unfolding by_rule
  by_rule-allow self now p s key k h = elim (Bool-cases (is_deny_rule (fetch_rule S key s.rules))) [
    | inl denied ↦ absurd (ground arith)
    | inr open_ ↦ elim (Bool-cases (session_allows self.session_key key s.grants)) [
      | inl granted ↦
          let (name, e, g) = session_allows_inv self.session_key key s.grants granted in
          session key name k e g open_
      | inr closed ↦ elim (Bool-cases (is_approve_rule (fetch_rule S key s.rules))) [
        | inl taught ↦ learned key k taught
        | inr untaught ↦ built_in (builtin-allow p (ground arith))
      ]
    ]
  ]

  with_key-allow :
      (self : LocalPolicy) (now : ℕ) (p : ActionProposal) (s : PolicyState S) (o : Option Str)
      → derive_permission_key p ≡ o
      → (with_key S self now p o s).0.decision ≡ allow
      → Allowed self p s
  with_key-allow self now p s none k h = built_in (builtin-allow p h)
  with_key-allow self now p s (some key) k h = by_rule-allow self now p s key k h

  -- Off the `off` mode an evaluation that allows rests on a session grant that no rule denies, on an
  -- always-approve rule, or on a built-in reason; and never is the proposal of the high tier.
  pub evaluate-allow :
      (self : LocalPolicy) (now : ℕ) (p : ActionProposal) (s : PolicyState S)
      → is_off self.mode ≡ false
      → (evaluate S self now p s).0.decision ≡ allow
      → (derive_tier p ≢ high) × Allowed self p s
  unfolding evaluate
  evaluate-allow self now p s on h = elim (Bool-cases (is_high (derive_tier p))) [
    | inl top ↦ absurd (ground arith)
    | inr rest ↦ (
      λ e. ground arith,
      with_key-allow self now p s (derive_permission_key p) refl (ground arith),
    )
  ]

  -- While the policy is on, a payment or a privileged action is denied whatever was granted or
  -- taught, and nothing changes.
  pub evaluate-high :
      (self : LocalPolicy) (now : ℕ) (p : ActionProposal) (s : PolicyState S)
      → is_off self.mode ≡ false
      → derive_tier p ≡ high
      → ((evaluate S self now p s).0.decision ≡ deny) × ((evaluate S self now p s).1 ≡ s)
  unfolding evaluate
  evaluate-high self now p s on h = ground arith

  -- The effect of the rule that is stored under a key.
  abbrev pub stored_effect : Str → Option S.Table → Option Effect
  stored_effect key none = none
  stored_effect key (some t) = effect_of (S.get key t)

  fetch_rule-effect :
      (key : Str) (o : Option S.Table)
      → stored_effect key o ≡ some always_deny
      → is_deny_rule (fetch_rule S key o) ≡ true
  unfolding fetch_rule
  fetch_rule-effect key none h = absurd (cc)
  fetch_rule-effect key (some t) h = ground arith

  pub key_not_high :
      (p : ActionProposal) (key : Str)
      → derive_permission_key p ≡ some key
      → is_high (derive_tier p) ≡ false
  unfolding derive_tier
  key_not_high p key k =
      let (c, m, r, scoped) = derive_permission_key_inv p key k in ground (arith, scoped.writes)

  -- While the policy is on, a stored always-deny rule for the proposal's key wins over the session's
  -- grants and over the built-in folders.
  pub evaluate-always_deny :
      (self : LocalPolicy) (now : ℕ) (p : ActionProposal) (s : PolicyState S) (key : Str)
      → is_off self.mode ≡ false
      → derive_permission_key p ≡ some key
      → stored_effect key s.rules ≡ some always_deny
      → (evaluate S self now p s).0.decision ≡ deny
  unfolding evaluate by_rule
  evaluate-always_deny self now p s key on k e =
      ground (arith, key_not_high p key k, fetch_rule-effect key s.rules e)
