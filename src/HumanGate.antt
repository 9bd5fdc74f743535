-- ===== src/HumanGate.antt =====
-- agent_os/nodes/human_gate.py: the plan review.
use agent_os_langgraph.Prelude.{
  ℕ, zero, suc, ◌≡◌, refl, true, false, some, [], ◌∷◌, ◌++◌, arith, if◌then◌else◌, Result, ok, err,
  value_error, is_empty, ◌⊎◌,
}
use agent_os_langgraph.Text.{Str, text, str_eq, str_eq_self, mem_str, starts_with, strip}
use agent_os_langgraph.Schemas.{Value, str, other}
use agent_os_langgraph.Routing.{SimonState, is_artifact, is_approved, is_rejected}

-- `s[n:]`
unfoldable pub drop_chars : ℕ → Str → Str
drop_chars zero s = s
drop_chars (suc n) [] = []
drop_chars (suc n) (c ∷ s) = drop_chars n s

-- f"rejected: {reason or 'no reason provided'}"
unfoldable pub rejection : Str → Str
rejection reason =
    text "rejected: " ++ (if is_empty reason then text "no reason provided" else reason)

unfoldable pub normalize_human_feedback : (Str → Str) → Value → Result Str
normalize_human_feedback lower (other shown) = err (value_error (text "Feedback must be a string"))
normalize_human_feedback lower (str value) =
    let v = lower (strip value) in
    if is_empty v
    then err (value_error (text "Feedback cannot be empty"))
    else if mem_str v (text "approved" ∷ text "y" ∷ text "yes" ∷ [])
    then ok (text "approved")
    else if starts_with (text "rejected:") v
    then ok (rejection (strip (drop_chars 9 (strip value))))
    else if mem_str v (text "rejected" ∷ text "n" ∷ text "no" ∷ [])
    then ok (text "rejected: no reason provided")
    else err (value_error (text "Unsupported feedback value: " ++ value))

-- The node up to and after its `interrupt`; the value is what a resume supplies.
unfoldable pub human_gate_node : (Str → Str) → Value → SimonState → Result SimonState
human_gate_node lower answer s =
    if is_artifact s.plan
    then elim (normalize_human_feedback lower answer) [
      | ok f ↦ ok (record s { human_feedback = some f })
      | err e ↦ err e
    ]
    else err (
        value_error
          (text "human_gate_node requires a PlanArtifact or ArchitectBrief in state['plan']"))

starts_with-rejection : (reason : Str) → starts_with (text "rejected:") (rejection reason) ≡ true
unfolding rejection starts_with text
starts_with-rejection reason = refl

str_eq-rejection : (reason : Str) → str_eq (rejection reason) (text "approved") ≡ false
unfolding rejection str_eq text
str_eq-rejection reason = refl

starts_with-approved : starts_with (text "rejected:") (text "approved") ≡ false
unfolding starts_with text
starts_with-approved = refl

rejection-nil : rejection [] ≡ text "rejected: no reason provided"
unfolding rejection text
rejection-nil = refl

-- The gate lets nothing undecided through: a feedback that it accepts is an approval or a rejection
-- for the routing, and never both.
pub normalize_human_feedback_decides :
    (lower : Str → Str) (answer : Value) (f : Str)
    → normalize_human_feedback lower answer ≡ ok f
    → ((is_approved (some f) ≡ true) × (is_rejected (some f) ≡ false))
      ⊎ ((is_approved (some f) ≡ false) × (is_rejected (some f) ≡ true))
unfolding normalize_human_feedback
normalize_human_feedback_decides lower (other shown) f h = absurd (cc)
normalize_human_feedback_decides lower (str value) f h = ground (
  arith,
  str_eq_self (text "approved"),
  starts_with-approved,
  starts_with-rejection [],
  str_eq-rejection [],
  rejection-nil,
  starts_with-rejection (strip (drop_chars 9 (strip value))),
  str_eq-rejection (strip (drop_chars 9 (strip value))),
)
