-- ===== src/Graph.antt =====
-- agent_os/graph.py: the nodes as functions on the state, and the compiled graph as a step relation
-- in which the models, the tools and the human choose.
pub mod Approval
pub mod Progress
mod Tests
use agent_os_langgraph.Prelude.{
  ℕ, ◌≡◌, refl, Bool, true, false, Option, none, some, List, [], ◌∷◌, if◌then◌else◌, Result, ok,
  err, value_error, Error,
}
use agent_os_langgraph.Text.{Str, text}
use agent_os_langgraph.Schemas.{Value, Status}
use agent_os_langgraph.Routing.{
  PlanField, no_plan, artifact, plan_text, ResultField, no_result, result_text, report, SimonState,
  is_artifact, Route, Node, supervisor_node,
}
use agent_os_langgraph.HumanGate.{human_gate_node}

-- `planner_node`: a task becomes the plan unless an artifact is there.
unfoldable pub planner_node : SimonState → SimonState
planner_node s = if is_artifact s.plan then s else record s { plan = plan_text s.task }

-- `architect_node` writes the brief that its agent returns.
unfoldable pub architect_node : Str → SimonState → SimonState
architect_node brief s = record s { plan = artifact brief }

-- `executor_node` refuses to run without a plan; its agent reports a status.
unfoldable pub executor_node : Status → SimonState → Result SimonState
executor_node status s =
    if is_artifact s.plan
    then ok (record s { executor_output = report status })
    else err (value_error (text "Executor requires a PlanArtifact or ArchitectBrief plan."))

-- `_escalate` and the end of `_invoke_skill`
unfoldable pub escalate : SimonState → SimonState
escalate s = record s { router_escalated = some true }

unfoldable pub finish_tool : SimonState → SimonState
finish_tool s = record s { router_escalated = some false }

-- `initial_state`, as far as routing reads it
unfoldable pub initial_state : Str → SimonState
initial_state task = record {
  task = task;
  plan = no_plan;
  executor_output = no_result;
  human_feedback = none;
  router_escalated = none;
}

-- Where the graph stands: the next node, and the state.
pub record Machine : Type 0 where
  pub at : Node
  pub state : SimonState

unfoldable pub start : Str → Machine
unfolding initial_state
start task = record { at = Node.planner; state = initial_state task }

-- One executed node. The constructors take equations, so that any step can be matched.
module _ (lower : Str → Str) where
  pub data Step (m : Machine) (n : Machine) : Type 0 where
    plan :
        m.at ≡ Node.planner
        → n ≡ record { at = Node.supervisor; state = planner_node m.state }
        → Step m n
    route :
        m.at ≡ Node.supervisor
        → n ≡ record { at = supervisor_node m.state; state = m.state }
        → Step m n
    brief :
        (json : Str)
        → m.at ≡ Node.architect
        → n ≡ record { at = Node.human_gate; state = architect_node json m.state }
        → Step m n
    review :
        (answer : Value) (t : SimonState)
        → m.at ≡ Node.human_gate
        → human_gate_node lower answer m.state ≡ ok t
        → n ≡ record { at = Node.supervisor; state = t }
        → Step m n
    execute :
        (status : Status) (t : SimonState)
        → m.at ≡ Node.executor
        → executor_node status m.state ≡ ok t
        → n ≡ record { at = Node.supervisor; state = t }
        → Step m n
    hand_over :
        m.at ≡ Node.tool_dispatcher
        → n ≡ record { at = Node.supervisor; state = escalate m.state }
        → Step m n
    use_tool :
        m.at ≡ Node.tool_dispatcher
        → n ≡ record { at = Node.end; state = finish_tool m.state }
        → Step m n

  pub data Reach (m : Machine) : Machine → Type 0 where
    here : Reach m m
    next : {n o : Machine} → Reach m n → Step n o → Reach m o

  -- The plan that the last review showed, and the answer that it got.
  abbrev pub review_of :
      {m n : Machine} → Step m n → Option (PlanField × Value) → Option (PlanField × Value)
  review_of {m} (review answer t a e f) last = some (m.state.plan, answer)
  review_of _ last = last

  unfoldable pub last_review : {m n : Machine} → Reach m n → Option (PlanField × Value)
  last_review here = none
  last_review (next r st) = review_of st (last_review r)
