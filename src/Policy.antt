-- ===== src/Policy.antt =====
-- agent_os/policy.py: the risk tier of a proposal, and the parts of the policy engine below.
pub mod Key
pub mod Feedback
pub mod Local
pub mod Composite
pub mod Apply
mod Tests
use agent_os_langgraph.Prelude.{Bool, true, false}
use agent_os_langgraph.Permissions.{Tier, trivial, low, medium, high}
use agent_os_langgraph.Schemas.{
  ActionProposal, SideEffect, none_, read, write, network, payment, communication, privileged,
}

-- `_SIDE_EFFECT_TIER`
unfoldable pub side_effect_tier : SideEffect → Tier
side_effect_tier read = trivial
side_effect_tier none_ = trivial
side_effect_tier write = low
side_effect_tier network = medium
side_effect_tier communication = medium
side_effect_tier payment = high
side_effect_tier privileged = high

unfoldable pub derive_tier : ActionProposal → Tier
unfolding side_effect_tier
derive_tier p = side_effect_tier p.side_effect

abbrev pub is_high : Tier → Bool
is_high high = true
is_high _ = false
