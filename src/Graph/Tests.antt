-- ===== src/Graph/Tests.antt =====
-- A run of the graph: the tools hand over, the architect plans, and the human approves.
use agent_os_langgraph.Prelude.{◌+◌, ◌<◌, ◌≡◌, refl, true, none, some, ok}
use agent_os_langgraph.Text.{Str, text}
use agent_os_langgraph.Schemas.{Value, str, failed}
use agent_os_langgraph.Routing.{
  artifact, no_result, report, SimonState, is_approved, is_rejected, is_success, Node,
  supervisor_node, default_recursion_limit,
}
use agent_os_langgraph.HumanGate.{normalize_human_feedback, human_gate_node}
use agent_os_langgraph.Graph.{
  Machine, start, planner_node, architect_node, executor_node, escalate, plan, route, brief, review,
  hand_over, Reach, here, next, last_review,
}
use agent_os_langgraph.Graph.Approval.{Confirms, executor_runs_reviewed_plan}
use agent_os_langgraph.Graph.Progress.{Leg, first_stop_bounded}

abbrev same : Str → Str
same s = s

abbrev yes_ : Value
yes_ = str (text " yes ")

says_yes : normalize_human_feedback same yes_ ≡ ok (text "approved")
unfolding normalize_human_feedback agent_os_langgraph.Text.strip text
    agent_os_langgraph.Text.mem_str agent_os_langgraph.Text.str_eq
says_yes = refl

-- The state that the human gate reviews, and the one that it leaves.
abbrev planned : SimonState
planned = record {
  task = text "report";
  plan = artifact (text "{}");
  executor_output = no_result;
  human_feedback = none;
  router_escalated = some true;
}

abbrev approved : SimonState
approved = record planned { human_feedback = some (text "approved") }

gate_accepts : human_gate_node same yes_ planned ≡ ok approved
unfolding human_gate_node
gate_accepts = rw says_yes refl

abbrev executed : SimonState
executed = record approved { executor_output = report failed }

executes : executor_node failed approved ≡ ok executed
unfolding executor_node
executes = refl

approval_reads : is_approved approved.human_feedback ≡ true
unfolding text agent_os_langgraph.Text.str_eq
approval_reads = refl

abbrev first : Machine
first = record { at = Node.supervisor; state = planner_node (start (text "report")).state }

abbrev second : Machine
second = record { at = supervisor_node first.state; state = first.state }

to_tools : supervisor_node first.state ≡ Node.tool_dispatcher
unfolding supervisor_node agent_os_langgraph.Routing.route_from_state planner_node start
to_tools = refl

starts : (start (text "report")).at ≡ Node.planner
unfolding start
starts = refl

abbrev third : Machine
third = record { at = Node.supervisor; state = escalate second.state }

abbrev fourth : Machine
fourth = record { at = supervisor_node third.state; state = third.state }

to_architect : supervisor_node third.state ≡ Node.architect
unfolding supervisor_node agent_os_langgraph.Routing.route_from_state escalate planner_node start
to_architect = refl

abbrev fifth : Machine
fifth = record { at = Node.human_gate; state = architect_node (text "{}") fourth.state }

fifth_state : fifth.state ≡ planned
unfolding architect_node text escalate planner_node start
fifth_state = refl

abbrev sixth : Machine
sixth = record { at = Node.supervisor; state = approved }

abbrev last : Machine
last = record { at = supervisor_node approved; state = approved }

leg : Leg same (start (text "report")) 5 fifth
leg =
    Leg.next
      (Leg.next
        (Leg.next (Leg.next (Leg.next Leg.here (plan starts refl) refl) (route refl refl) refl)
          (hand_over to_tools refl) refl)
        (route refl refl) refl)
      (brief (text "{}") to_architect refl) refl

first_stop_bounded_example : 5 + 1 < default_recursion_limit
first_stop_bounded_example = first_stop_bounded same (text "report") leg

abbrev path : Reach same (start (text "report")) last
path =
    next
      (next
        (next
          (next
            (next (next (next here (plan starts refl)) (route refl refl)) (hand_over to_tools refl))
            (route refl refl))
          (brief (text "{}") to_architect refl))
        (review yes_ approved refl (rw fifth_state gate_accepts) refl))
      (route refl refl)

at_executor : last.at ≡ Node.executor
unfolding supervisor_node agent_os_langgraph.Routing.route_from_state agent_os_langgraph.Text.str_eq
    text
at_executor = refl

executor_runs_reviewed_plan_example :
    (is_approved last.state.human_feedback ≡ true)
    × Confirms same (last_review same path) last.state.plan last.state.human_feedback
executor_runs_reviewed_plan_example =
    executor_runs_reviewed_plan same (text "report") path at_executor
