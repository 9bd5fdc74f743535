-- ===== src/Schemas.antt =====
-- The proposal, decision and result types of agent_os/schemas.py that the policy code reads.
use agent_os_langgraph.Prelude.{Bool, true, false, Option, none, some, List, [], ◌∷◌, if◌then◌else◌}
use agent_os_langgraph.Text.{Str, text, str_eq}

-- An argument of a tool: a text, or any other object with what `str()` shows of it.
pub data Value : Type 0 where
  str other : Str → Value

-- `str(value)`
abbrev pub to_str : Value → Str
to_str (str s) = s
to_str (other s) = s

-- A dict with text keys, in insertion order.
abbrev pub Arguments : Type 0
Arguments = List (Str × Value)

-- `arguments.get(k)`
unfoldable pub get_arg : Str → Arguments → Option Value
get_arg k [] = none
get_arg k ((j, v) ∷ a) = if str_eq k j then some v else get_arg k a

pub data SideEffect : Type 0 where
  none_ read write network payment communication privileged : SideEffect

pub record ActionProposal : Type 0 where
  pub tool : Str
  pub arguments : Arguments
  pub reason : Str
  pub side_effect : SideEffect
  pub connector : Option Str

pub data Verdict : Type 0 where
  allow deny require_approval : Verdict

-- `approver_roles` and `transformed_arguments` keep their defaults in all the modelled code.
pub record PolicyDecision : Type 0 where
  pub decision : Verdict
  pub policy_id : Str
  pub reason : Str

pub data Status : Type 0 where
  completed failed cancelled waiting : Status

-- `usage` and `self_check` keep their defaults in all the modelled code.
pub record ExecutionResult : Type 0 where
  pub status : Status
  pub outputs : Arguments
  pub errors : List Str
  pub artifacts : List Str

-- The spelling of a side effect, as it stands in a reason.
unfoldable pub side_effect_name : SideEffect → Str
side_effect_name none_ = text "none"
side_effect_name read = text "read"
side_effect_name write = text "write"
side_effect_name network = text "network"
side_effect_name payment = text "payment"
side_effect_name communication = text "communication"
side_effect_name privileged = text "privileged"

abbrev pub is_write : SideEffect → Bool
is_write write = true
is_write _ = false

-- `MEMORY_WRITE_MODES`
abbrev pub memory_write_modes : List Str
memory_write_modes = text "append" ∷ text "create" ∷ text "overwrite" ∷ []
