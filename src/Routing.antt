-- ===== src/Routing.antt =====
-- agent_os/routing.py, nodes/supervisor.py and the part of state.py that routing reads.
use agent_os_langgraph.Prelude.{
  ℕ, Bool, true, false, Option, none, some, ◌++◌, if◌then◌else◌, Result, ok, err, value_error,
  is_empty,
}
use agent_os_langgraph.Text.{Str, text, str_eq, starts_with, strip}
use agent_os_langgraph.Schemas.{Status, completed}

-- `PlanField`: nothing, a text, or a `PlanArtifact` (an `ArchitectBrief` is one) with its JSON.
pub data PlanField : Type 0 where
  no_plan : PlanField
  plan_text artifact : Str → PlanField

-- `ResultField`: nothing, a text, or an `ExecutionResult` with its status (an `ExecutorReport` is
-- one). `success` of such a result is `status == "completed"`.
pub data ResultField : Type 0 where
  no_result : ResultField
  result_text : Str → ResultField
  report : Status → ResultField

-- The fields of `SimonState` on which the control flow depends.
pub record SimonState : Type 0 where
  pub task : Str
  pub plan : PlanField
  pub executor_output : ResultField
  pub human_feedback : Option Str
  pub router_escalated : Option Bool

pub data Route : Type 0 where
  architect executor tool end : Route

pub data Node : Type 0 where
  planner supervisor architect human_gate executor tool_dispatcher end : Node

-- `ROUTE_TO_NODE`
unfoldable pub route_to_node : Route → Node
route_to_node Route.architect = Node.architect
route_to_node Route.executor = Node.executor
route_to_node Route.tool = Node.tool_dispatcher
route_to_node Route.end = Node.end

pub data RouterMode : Type 0 where
  cascade direct_escalation : RouterMode

-- `get_router_mode`: `lower` is `str.lower`, and the argument the variable `ROUTER_MODE`.
unfoldable pub get_router_mode : (Str → Str) → Option Str → Result RouterMode
get_router_mode lower none = ok cascade
get_router_mode lower (some v) =
    let value = lower (strip v) in
    if str_eq value (text "cascade")
    then ok cascade
    else if str_eq value (text "direct-escalation")
    then ok direct_escalation
    else err (
        value_error (
          text "Invalid ROUTER_MODE value '"
          ++ (value ++ text "'. Expected 'cascade' or 'direct-escalation'.")))

abbrev pub default_recursion_limit : ℕ
default_recursion_limit = 7

-- The recursion limit and the thread of a run.
unfoldable pub build_runtime_config : Str → Result (ℕ × Str)
build_runtime_config thread_id =
    let normalized = strip thread_id in
    if is_empty normalized
    then err (value_error (text "thread_id must not be empty"))
    else ok (default_recursion_limit, normalized)

abbrev pub is_success : ResultField → Bool
is_success (report completed) = true
is_success _ = false

abbrev pub is_result_text : ResultField → Bool
is_result_text (result_text s) = true
is_result_text _ = false

abbrev pub is_artifact : PlanField → Bool
is_artifact (artifact brief) = true
is_artifact _ = false

-- `human_feedback == "approved"`
abbrev pub is_approved : Option Str → Bool
is_approved none = false
is_approved (some f) = str_eq f (text "approved")

-- `human_feedback and human_feedback.startswith("rejected:")`
abbrev pub is_rejected : Option Str → Bool
is_rejected none = false
is_rejected (some f) = starts_with (text "rejected:") f

abbrev pub is_escalated : Option Bool → Bool
is_escalated (some true) = true
is_escalated _ = false

unfoldable pub route_from_state : SimonState → Route
route_from_state s =
    if is_success s.executor_output
    then Route.end
    else if is_approved s.human_feedback
    then Route.executor
    else if is_rejected s.human_feedback
    then Route.architect
    else if is_result_text s.executor_output
    then Route.end
    else if is_artifact s.plan
    then Route.end
    else if is_escalated s.router_escalated
    then Route.architect
    else Route.tool

-- `supervisor_node`: where its command goes.
unfoldable pub supervisor_node : SimonState → Node
unfolding route_to_node
supervisor_node s = route_to_node (route_from_state s)
