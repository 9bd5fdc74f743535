-- ===== src/Policy/Composite.antt =====
-- agent_os/policy.py, `class CompositePolicyEngine`: the base engine first, then the plugins.
use agent_os_langgraph.Prelude.{
  ℕ, ◌≡◌, ◌≢◌, refl, Bool, true, false, inl, inr, List, [], ◌∷◌, ◌++◌, arith, Bool-cases,
  Result-cases, Result, ok, err, message, if◌then◌else◌, is_empty, All, ◌↔◌,
}
use agent_os_langgraph.Text.{Str, text}
use agent_os_langgraph.Permissions.{RuleStore, high}
use agent_os_langgraph.Schemas.{
  SideEffect, payment, privileged, ActionProposal, Verdict, allow, deny, require_approval,
  PolicyDecision,
}
use agent_os_langgraph.Policy.{derive_tier}
use agent_os_langgraph.Policy.Local.{PolicyState, by_taxonomy, decided}

-- An engine that may read and change the remembered permissions.
abbrev pub Evaluate : RuleStore → Type 0
Evaluate S = ℕ → ActionProposal → PolicyState S → PolicyDecision × PolicyState S

-- A policy plugin is code of a third party; it may raise.
abbrev pub Plugin : Type 0
Plugin = ActionProposal → Result PolicyDecision

abbrev pub is_deny : Verdict → Bool
is_deny deny = true
is_deny _ = false

abbrev pub or_text : Str → Str → Str
or_text a b = if is_empty a then b else a

-- The decision that a plugin's denial becomes.
unfoldable pub plugin_denied : PolicyDecision → PolicyDecision
plugin_denied d = record {
  decision = deny;
  policy_id = or_text d.policy_id (text "policy-plugin-denied");
  reason = or_text d.reason (text "Denied by policy plugin");
}

unfoldable pub plugin_failed : Str → PolicyDecision
plugin_failed m = record {
  decision = deny;
  policy_id = text "policy-plugin-error";
  reason = text "Policy plugin evaluation failed: " ++ m;
}

-- The loop over the plugins: the first that raises or denies ends it.
unfoldable pub run_plugins : List Plugin → ActionProposal → PolicyDecision → PolicyDecision
unfolding plugin_denied plugin_failed
run_plugins [] p base = base
run_plugins (plugin ∷ plugins) p base = elim (plugin p) [
  | err e ↦ plugin_failed (message e)
  | ok d ↦ if is_deny d.decision then plugin_denied d else run_plugins plugins p base
]

abbrev pub is_payment_or_privileged : SideEffect → Bool
is_payment_or_privileged payment = true
is_payment_or_privileged privileged = true
is_payment_or_privileged _ = false

module _ (S : RuleStore) where
  unfoldable pub composite_evaluate : Evaluate S → List Plugin → Evaluate S
  unfolding by_taxonomy decided
  composite_evaluate base plugins now p s =
      if is_payment_or_privileged p.side_effect
      then (by_taxonomy deny p, s)
      else let (d, s') = base now p s in
        (if is_deny d.decision then d else run_plugins plugins p d, s')

-- A plugin that returns, and does not deny.
abbrev pub Agrees : ActionProposal → Plugin → Type 0
Agrees p plugin = (d : PolicyDecision) × (plugin p ≡ ok d) × (is_deny d.decision ≡ false)

run_plugins_pass :
    (plugins : List Plugin) (p : ActionProposal) (base : PolicyDecision)
    → All (Agrees p) plugins
    → run_plugins plugins p base ≡ base
unfolding run_plugins
run_plugins_pass [] p base h = refl
run_plugins_pass (plugin ∷ plugins) p base ((d, e, n), h) =
    ground (arith, run_plugins_pass plugins p base h)

run_plugins_agree :
    (plugins : List Plugin) (p : ActionProposal) (base : PolicyDecision)
    → is_deny (run_plugins plugins p base).decision ≡ false
    → All (Agrees p) plugins
unfolding run_plugins
run_plugins_agree [] p base h = tt
run_plugins_agree (plugin ∷ plugins) p base h = elim (Result-cases (plugin p)) [
  | inl (d, e) ↦ ((d, e, ground arith), run_plugins_agree plugins p base (ground arith))
  | inr (x, e) ↦ absurd (ground arith)
]

is_deny-false : (v : Verdict) → v ≢ deny → is_deny v ≡ false
is_deny-false deny h = absurd (h refl)
is_deny-false allow h = refl
is_deny-false require_approval h = refl

high-is_payment_or_privileged :
    (p : ActionProposal) → (derive_tier p ≡ high) ↔ (is_payment_or_privileged p.side_effect ≡ true)
unfolding derive_tier
high-is_payment_or_privileged p = (λ h. ground arith, λ h. ground arith)

low_tier :
    (p : ActionProposal) → derive_tier p ≢ high → is_payment_or_privileged p.side_effect ≡ false
low_tier p h = elim (Bool-cases (is_payment_or_privileged p.side_effect)) [
  | inl top ↦ absurd (h ((high-is_payment_or_privileged p).1 top))
  | inr low ↦ low
]

module _ (S : RuleStore) (base : Evaluate S) (plugins : List Plugin) where
  -- A payment or a privileged action is denied whatever the base engine and the plugins say, also
  -- where the base is in its `off` mode, and nothing remembered changes.
  pub composite_evaluate-high :
      (now : ℕ) (p : ActionProposal) (s : PolicyState S)
      → derive_tier p ≡ high
      → ((composite_evaluate S base plugins now p s).0.decision ≡ deny)
        × ((composite_evaluate S base plugins now p s).1 ≡ s)
  unfolding composite_evaluate
  composite_evaluate-high now p s h = ground (arith, (high-is_payment_or_privileged p).0 h)

  composite_passes :
      (now : ℕ) (p : ActionProposal) (s : PolicyState S)
      → is_deny (composite_evaluate S base plugins now p s).0.decision ≡ false
      → (is_payment_or_privileged p.side_effect ≡ false)
        × (is_deny (base now p s).0.decision ≡ false)
        × All (Agrees p) plugins
  unfolding composite_evaluate
  composite_passes now p s h =
      let low : is_payment_or_privileged p.side_effect ≡ false = ground arith in
      let passes : is_deny (base now p s).0.decision ≡ false = ground arith in
      (low, passes, run_plugins_agree plugins p (base now p s).0 (ground arith))

  composite_is_base :
      (now : ℕ) (p : ActionProposal) (s : PolicyState S)
      → is_payment_or_privileged p.side_effect ≡ false
      → is_deny (base now p s).0.decision ≡ false
      → All (Agrees p) plugins
      → composite_evaluate S base plugins now p s ≡ base now p s
  unfolding composite_evaluate
  composite_is_base now p s low passes agree =
      ground (arith, run_plugins_pass plugins p (base now p s).0 agree)

  -- The composition does not deny exactly when the proposal is not of the high tier, the base engine
  -- does not deny, and each plugin returns a decision other than a denial.
  pub composite_evaluate_iff :
      (now : ℕ) (p : ActionProposal) (s : PolicyState S)
      → ((composite_evaluate S base plugins now p s).0.decision ≢ deny)
        ↔ ((derive_tier p ≢ high) × ((base now p s).0.decision ≢ deny) × All (Agrees p) plugins)
  composite_evaluate_iff now p s = (
    λ h.
        let (low, passes, agree) = composite_passes now p s (is_deny-false _ h) in
        (
          λ top. ground (arith, (high-is_payment_or_privileged p).0 top),
          λ denied. ground arith,
          agree,
        ),
    λ h.
        let low : is_payment_or_privileged p.side_effect ≡ false = low_tier p h.0 in
        rw (composite_is_base now p s low (is_deny-false _ h.1) h.2) h.1,
  )

  -- Where the composition does not deny, its decision, its policy and its reason are those of the
  -- base engine, and so is what it leaves remembered.
  pub composite_evaluate-base :
      (now : ℕ) (p : ActionProposal) (s : PolicyState S)
      → (composite_evaluate S base plugins now p s).0.decision ≢ deny
      → composite_evaluate S base plugins now p s ≡ base now p s
  composite_evaluate-base now p s h =
      let (low, passes, agree) = composite_passes now p s (is_deny-false _ h) in
      composite_is_base now p s low passes agree
