-- ===== src/Graph/Approval.antt =====
-- agent_os/graph.py: an invariant of all paths, on the approval that stands when the executor is
-- to run.
use agent_os_langgraph.Prelude.{
  ◌≡◌, ◌≢◌, refl, sym, subst, ◌∙◌, Bool, true, false, Option, none, some, ◌⊎◌, inl, inr, arith, ok,
  Result-cases,
}
use agent_os_langgraph.Text.{Str}
use agent_os_langgraph.Schemas.{Value, Status}
use agent_os_langgraph.Routing.{
  PlanField, report, SimonState, is_artifact, is_approved, Node, route_from_state, supervisor_node,
}
use agent_os_langgraph.HumanGate.{human_gate_node, normalize_human_feedback}
use agent_os_langgraph.Graph.{
  Machine, start, planner_node, architect_node, executor_node, escalate, finish_tool, Step, plan,
  route, brief, review, execute, hand_over, use_tool, Reach, here, next, review_of, last_review,
}

supervisor-executor :
    (s : SimonState) → supervisor_node s ≡ Node.executor → is_approved s.human_feedback ≡ true
unfolding supervisor_node route_from_state
supervisor-executor s h = ground arith

supervisor-not_approved :
    (s : SimonState)
    → (supervisor_node s ≡ Node.architect) ⊎ (supervisor_node s ≡ Node.tool_dispatcher)
    → is_approved s.human_feedback ≡ false
unfolding supervisor_node route_from_state
supervisor-not_approved s h = ground arith

supervisor-no_gate : (s : SimonState) → supervisor_node s ≢ Node.human_gate
unfolding supervisor_node route_from_state
supervisor-no_gate s h = ground arith

-- The review that a path ends with showed this plan, and its answer reads as this feedback.
abbrev pub Confirms : (Str → Str) → Option (PlanField × Value) → PlanField → Option Str → Type 0
Confirms lower none p f = ⊥
Confirms lower (some (shown, answer)) p none = ⊥
Confirms lower (some (shown, answer)) p (some f) =
    (shown ≡ p) × (is_artifact p ≡ true) × (normalize_human_feedback lower answer ≡ ok f)

-- The nodes that the graph does not reach once a plan is approved.
abbrev pub is_before_approval : Node → Bool
is_before_approval Node.planner = true
is_before_approval Node.architect = true
is_before_approval Node.human_gate = true
is_before_approval Node.tool_dispatcher = true
is_before_approval _ = false

planner_feedback :
    (s : SimonState) → is_approved (planner_node s).human_feedback ≡ is_approved s.human_feedback
unfolding planner_node
planner_feedback s = ground arith

module _ (lower : Str → Str) where
  -- An approval is that of the plan at hand; it is there at the executor, and not before the review.
  record Inv (m : Machine) (last : Option (PlanField × Value)) : Type 0 where
    confirmed :
        is_approved m.state.human_feedback ≡ true
        → Confirms lower last m.state.plan m.state.human_feedback
    approved : m.at ≡ Node.executor → is_approved m.state.human_feedback ≡ true
    waiting : is_before_approval m.at ≡ true → is_approved m.state.human_feedback ≡ false

  start-Inv : (task : Str) → Inv (start task) none
  unfolding start
  start-Inv task = ground arith

  route-waiting :
      (s : SimonState)
      → is_before_approval (supervisor_node s) ≡ true
      → is_approved s.human_feedback ≡ false
  unfolding supervisor_node route_from_state
  route-waiting s h = ground arith

  Inv-eq : {m n : Machine} {last : Option (PlanField × Value)} → n ≡ m → Inv m last → Inv n last
  Inv-eq {last = last} e i = subst (λ k. Inv k last) (sym e) i

  review-Inv :
      (answer : Value) (s t : SimonState)
      → human_gate_node lower answer s ≡ ok t
      → Inv (record { at = Node.supervisor; state = t }) (some (s.plan, answer))
  unfolding human_gate_node
  review-Inv answer s t h = elim (Result-cases (normalize_human_feedback lower answer)) [
    | inl (f, e) ↦ ground arith
    | inr (x, e) ↦ absurd (ground arith)
  ]

  unapproved-Inv :
      (m : Machine) {last : Option (PlanField × Value)}
      → is_approved m.state.human_feedback ≡ false
      → m.at ≢ Node.executor
      → Inv m last
  unapproved-Inv m h e = record {
    confirmed = λ k. absurd (cc);
    approved = λ k. absurd (e k);
    waiting = λ k. h;
  }

  execute-Inv :
      (status : Status) (m : Machine) (t : SimonState) {last : Option (PlanField × Value)}
      → executor_node status m.state ≡ ok t
      → Inv m last
      → Inv (record { at = Node.supervisor; state = t }) last
  unfolding executor_node
  execute-Inv status m t {last} r i =
      let same : t ≡ record m.state { executor_output = report status } = ground arith in
      subst (λ (s : SimonState). Inv (record { at = Node.supervisor; state = s }) last) (sym same)
        (record {
          confirmed = i.confirmed;
          approved = λ k. absurd (cc);
          waiting = λ k. absurd (cc);
        })

  Step-Inv :
      {m n : Machine} {last : Option (PlanField × Value)} (st : Step lower m n)
      → Inv m last
      → Inv n (review_of lower st last)
  unfolding architect_node escalate finish_tool
  Step-Inv {m} (plan a e) i =
      Inv-eq e (unapproved-Inv _ (planner_feedback m.state ∙ i.waiting (rw a refl)) (λ k. cc))
  Step-Inv {m} (route a e) i = Inv-eq e (record {
    confirmed = i.confirmed;
    approved = supervisor-executor m.state;
    waiting = route-waiting m.state;
  })
  Step-Inv {m} (brief json a e) i = Inv-eq e (unapproved-Inv _ (i.waiting (rw a refl)) (λ k. cc))
  Step-Inv {m} (review answer t a r e) i = Inv-eq e (review-Inv answer m.state t r)
  Step-Inv {m} (execute status t a r e) i = Inv-eq e (execute-Inv status m t r i)
  Step-Inv {m} (hand_over a e) i = Inv-eq e (unapproved-Inv _ (i.waiting (rw a refl)) (λ k. cc))
  Step-Inv {m} (use_tool a e) i = Inv-eq e (unapproved-Inv _ (i.waiting (rw a refl)) (λ k. cc))

  Reach-Inv : {m n : Machine} → Inv m none → (r : Reach lower m n) → Inv n (last_review lower r)
  unfolding last_review
  Reach-Inv i here = i
  Reach-Inv i (next r st) = Step-Inv st (Reach-Inv i r)

  -- Whatever the models, the tools and the humans do from the start of a task: when the executor is
  -- to run, its plan is the artifact that the last review showed, and the answer of that review was
  -- an approval.
  pub executor_runs_reviewed_plan :
      (task : Str) {m : Machine} (r : Reach lower (start task) m)
      → m.at ≡ Node.executor
      → (is_approved m.state.human_feedback ≡ true)
        × Confirms lower (last_review lower r) m.state.plan m.state.human_feedback
  executor_runs_reviewed_plan task r a =
      let i = Reach-Inv (start-Inv task) r in (i.approved a, i.confirmed (i.approved a))
