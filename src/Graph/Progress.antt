-- ===== src/Graph/Progress.antt =====
-- agent_os/graph.py and routing.py: the length of a run up to its first stop, and where the
-- supervisor goes after a review and after an execution.
use agent_os_langgraph.Prelude.{
  ℕ, suc, ◌+◌, ◌≤◌, ◌<◌, ◌≡◌, ◌≢◌, Bool, true, false, none, ◌⊎◌, inl, inr, arith, ok, Result-cases,
  if◌then◌else◌,
}
use agent_os_langgraph.Text.{Str}
use agent_os_langgraph.Schemas.{Value, Status}
use agent_os_langgraph.Routing.{
  report, no_result, SimonState, is_approved, is_rejected, is_artifact, is_escalated, is_success,
  Node, supervisor_node, route_from_state, default_recursion_limit,
}
use agent_os_langgraph.HumanGate.{
  human_gate_node, normalize_human_feedback, normalize_human_feedback_decides,
}
use agent_os_langgraph.Graph.{
  Machine, start, planner_node, architect_node, executor_node, escalate, finish_tool, Step, plan,
  route, brief, review, execute, hand_over, use_tool,
}

-- The nodes still to run before the graph ends or waits for a human, while nothing was reviewed.
abbrev remaining_at : Node → SimonState → ℕ
remaining_at Node.planner s = 5
remaining_at Node.supervisor s = if is_escalated s.router_escalated then 2 else 4
remaining_at Node.tool_dispatcher s = 3
remaining_at Node.architect s = 1
remaining_at _ s = 0

abbrev remaining : Machine → ℕ
remaining m = remaining_at m.at m.state

abbrev is_unplanned : Node → Bool
is_unplanned Node.planner = true
is_unplanned Node.supervisor = true
is_unplanned _ = false

-- No review, no report, and no artifact where the supervisor would end on one.
record IsFresh (m : Machine) : Type 0 where
  no_feedback : m.state.human_feedback ≡ none
  unreported : m.state.executor_output ≡ no_result
  not_executing : m.at ≢ Node.executor
  unplanned : m.at ≢ Node.human_gate → m.at ≢ Node.end → is_artifact m.state.plan ≡ false

module _ (lower : Str → Str) where
  abbrev pub is_review : {m n : Machine} → Step lower m n → Bool
  is_review (review answer t a e f) = true
  is_review _ = false

  -- The nodes that run one after another without a human, with their number.
  pub data Leg (m : Machine) : ℕ → Machine → Type 0 where
    here : Leg m 0 m
    next :
        {k : ℕ} {n o : Machine}
        → Leg m k n
        → (st : Step lower n o) → is_review st ≡ false
        → Leg m (suc k) o

  moves_closer :
      {m n : Machine} (st : Step lower m n)
      → is_review st ≡ false
      → IsFresh m
      → IsFresh n × (remaining n < remaining m)
  unfolding planner_node architect_node executor_node escalate finish_tool supervisor_node
      route_from_state
  moves_closer {m} (plan a e) r f = ground arith
  moves_closer {m} (route a e) r f = ground arith
  moves_closer {m} (brief json a e) r f = ground arith
  moves_closer {m} (review answer t a g e) r f = absurd (cc)
  moves_closer {m} (execute status t a g e) r f = absurd (f.not_executing a)
  moves_closer {m} (hand_over a e) r f = ground arith
  moves_closer {m} (use_tool a e) r f = ground arith

  Leg-remaining :
      {m n : Machine} {k : ℕ} → IsFresh m → Leg m k n → IsFresh n × (k + remaining n ≤ remaining m)
  Leg-remaining f here = (f, omega arith)
  Leg-remaining f (next l st r) =
      let (g, h) = Leg-remaining f l in let (g', h') = moves_closer st r g in (g', omega arith)

  start-IsFresh : (task : Str) → IsFresh (start task)
  unfolding start
  start-IsFresh task = ground arith

  -- From the start of a task at most five nodes run before the graph ends or the human gate waits,
  -- whatever the dispatcher and the architect do; with the gate these stay below the recursion limit.
  pub first_stop_bounded :
      (task : Str) {k : ℕ} {m : Machine} → Leg (start task) k m → k + 1 < default_recursion_limit
  unfolding start
  first_stop_bounded task l = omega (arith, (Leg-remaining (start-IsFresh task) l).1)

  gate_decides :
      (answer : Value) (s t : SimonState)
      → human_gate_node lower answer s ≡ ok t
      → is_success s.executor_output ≡ false
      → ((is_approved t.human_feedback ≡ true) × (is_rejected t.human_feedback ≡ false)
          ⊎ (is_approved t.human_feedback ≡ false) × (is_rejected t.human_feedback ≡ true))
        × (is_success t.executor_output ≡ false)
  unfolding human_gate_node
  gate_decides answer s t h n = elim (Result-cases (normalize_human_feedback lower answer)) [
    | inl (f, e) ↦ ground (arith, normalize_human_feedback_decides lower answer f e)
    | inr (x, e) ↦ absurd (ground arith)
  ]

  -- An accepted review of a run that has not succeeded goes on to the executor exactly if it
  -- approves, and back to the architect exactly if it rejects.
  pub review_routes :
      (answer : Value) (s t : SimonState)
      → human_gate_node lower answer s ≡ ok t
      → is_success s.executor_output ≡ false
      → (is_approved t.human_feedback ≡ true) × (supervisor_node t ≡ Node.executor)
        ⊎ (is_rejected t.human_feedback ≡ true) × (supervisor_node t ≡ Node.architect)
  unfolding supervisor_node route_from_state
  review_routes answer s t h n = ground (arith, gate_decides answer s t h n)

-- After an execution of an approved plan the run ends if the report is a completed one, and runs the executor
-- again if it is any other.
pub execution_routes :
    (status : Status) (s t : SimonState)
    → is_approved s.human_feedback ≡ true
    → executor_node status s ≡ ok t
    → supervisor_node t ≡ (if is_success (report status) then Node.end else Node.executor)
unfolding supervisor_node route_from_state executor_node
execution_routes status s t a h = ground arith
