-- ===== src/Dispatch.antt =====
-- agent_os/default_registry.py, nodes/smart_router.py and nodes/tool_dispatcher.py: from a task to a
-- decision of the router, and from that to a command for the graph.
pub mod Commands
pub mod Safety
mod Tests
use agent_os_langgraph.Prelude.{
  ℕ, ◌≡◌, refl, Bool, true, false, not, Option, none, some, List, [], ◌∷◌, ◌++◌, map, select,
  is_empty, if◌then◌else◌, Result, ok, err, value_error, Error, message, ◌>>=◌, ◌>>◌,
}
use agent_os_langgraph.Text.{Str, text, str_eq, mem_str, strip}
use agent_os_langgraph.Text.Words.{split_words, after_word, split_mark}
use agent_os_langgraph.Schemas.{memory_write_modes}
use agent_os_langgraph.Routing.{Node, RouterMode, cascade, direct_escalation}
use agent_os_langgraph.Skills.{Handler, tool, function, Skill, get_skill, deterministic_match}

-- A value among the arguments of a skill: a text, a list of texts, or another object in JSON.
pub data Argument : Type 0 where
  one_text : Str → Argument
  texts : List Str → Argument
  json : Str → Argument

abbrev pub Named : Type 0
Named = List (Str × Argument)

-- `class RouterDecision`; a confidence is a float, which stays abstract.
pub record RouterDecision (Confidence : Type 0) : Type 0 where
  pub tool : Option Str
  pub confidence : Confidence
  pub arguments : Named

-- `class ToolExecutionResult`
pub record ToolResult : Type 0 where
  pub tool : Str
  pub output : Str
  pub success : Bool

-- How an invoked skill ends: with its serialized output and what counts as success, with an output
-- whose serialization raises, with an exception's text, or with the interrupt of the graph.
pub data Invocation : Type 0 where
  skill_returned : (output : Str) → (success : Bool) → Invocation
  not_serialized : Error → Invocation
  skill_raised : (error : Str) → Invocation
  bubbled : Invocation

-- A `Command` of the dispatcher, or the interrupt that it lets through.
pub record Command : Type 0 where
  pub goto : Node
  pub router_escalated : Bool
  pub tool_result : Option ToolResult

pub data DispatchOutcome : Type 0 where
  command : Command → DispatchOutcome
  interrupted : DispatchOutcome

-- The parameters that are not variadic.
abbrev named_parameters : List (Str × Bool) → List Str
named_parameters [] = []
named_parameters ((name, variadic) ∷ ps) =
    let rest = named_parameters ps in if variadic then rest else name ∷ rest

abbrev only : List Str → Option Str
only (x ∷ []) = some x
only _ = none

-- `_single_text_argument_name`
unfoldable pub single_text_argument_name : Skill → Option Str
single_text_argument_name s = elim s.handler [
  | tool properties ↦ only properties
  | function parameters ↦ only (named_parameters parameters)
]

abbrev pub value_err {ℓ} : {A : Type ℓ} → Str → Result A
value_err m = err (value_error m)

-- The path and the content of a write command.
abbrev pub path_and_content : Str → Str → Result Named
path_and_content path content =
    if is_empty path
    then value_err (text "Missing path for write command")
    else if is_empty content
    then value_err (text "Missing content for write command")
    else ok ((text "path", one_text path) ∷ (text "content", one_text content) ∷ [])

abbrev pub write_arguments : Option (Str × Str) → Result Named
write_arguments none = value_err (text "Malformed write command: missing '::' separator")
write_arguments (some (path, content)) = path_and_content (strip path) (strip content)

unfoldable pub parse_write : Str → Result Named
unfolding split_mark strip
parse_write arguments_text = write_arguments (split_mark arguments_text)

-- The mode and the ref of a memory write.
unfoldable pub mode_and_ref : List Str → Result (Str × Str)
mode_and_ref (ref ∷ []) = ok (text "create", ref)
mode_and_ref (mode ∷ ref ∷ []) =
    if mem_str mode memory_write_modes
    then ok (mode, ref)
    else value_err (text "Malformed memory write command.")
mode_and_ref _ = value_err (text "Malformed memory write command.")

abbrev with_ref : Str → Str × Str → Result Named
with_ref content (mode, ref) =
    if is_empty ref
    then value_err (text "Missing ref for memory write command")
    else ok (
        (text "ref", one_text ref)
        ∷ (text "content", one_text content)
        ∷ (text "mode", one_text mode)
        ∷ [])

abbrev pub memory_arguments : List Str → Str → Result Named
memory_arguments parts content =
    if is_empty content
    then value_err (text "Missing content for memory write command")
    else mode_and_ref parts >>= with_ref content

abbrev pub memory_write_arguments : Option (Str × Str) → Result Named
memory_write_arguments none =
    value_err (text "Malformed memory write command: missing '::' separator")
memory_write_arguments (some (destination, content)) =
    memory_arguments (split_words (strip destination)) (strip content)

unfoldable pub parse_memory_write : Str → Result Named
unfolding split_mark strip split_words mode_and_ref
parse_memory_write arguments_text = memory_write_arguments (split_mark arguments_text)

-- `shlex_split` is `shlex.split`, with the text of its exception.
abbrev pub bash_arguments : Result (List Str) → Result Named
bash_arguments (err e) = value_err (text "Malformed bash command: " ++ message e)
bash_arguments (ok []) = value_err (text "Empty bash command")
bash_arguments (ok (a ∷ as_)) = ok ((text "cmd_args", texts (a ∷ as_)) ∷ [])

abbrev single_argument : Str → Option Str → Option Named
single_argument arguments_text none = none
single_argument arguments_text (some name) = some ((name, one_text arguments_text) ∷ [])

abbrev pub present {ℓ} : {A : Type ℓ} → Result A → Result (Option A)
present r = r >>= (λ a. ok (some a))

-- The arguments for a skill; `none` where the text does not determine them.
unfoldable pub tier1_arguments : (Str → Result (List Str)) → Skill → Str → Result (Option Named)
unfolding parse_write parse_memory_write single_text_argument_name
tier1_arguments shlex_split s arguments_text =
    if str_eq s.name (text "read_file")
    then ok (some ((text "path", one_text arguments_text) ∷ []))
    else if str_eq s.name (text "write_file")
    then present (parse_write arguments_text)
    else if str_eq s.name (text "bash")
    then present (bash_arguments (shlex_split arguments_text))
    else if str_eq s.name (text "memory_write")
    then present (parse_memory_write arguments_text)
    else ok (single_argument arguments_text (single_text_argument_name s))

-- `_escalate`
unfoldable pub escalate_with : Option ToolResult → DispatchOutcome
escalate_with result =
    command (record { goto = Node.supervisor; router_escalated = true; tool_result = result })

abbrev pub failed : Str → Str → DispatchOutcome
failed name error = escalate_with (some (record { tool = name; output = error; success = false }))

unfoldable pub skill_ending : Skill → Invocation → Result DispatchOutcome
unfolding escalate_with
skill_ending s (skill_returned output success) = ok (
    command (record {
      goto = Node.end;
      router_escalated = false;
      tool_result = some (record { tool = s.name; output = output; success = success });
    }))
skill_ending s (not_serialized error) = err error
skill_ending s (skill_raised error) = ok (failed s.name error)
skill_ending s bubbled = ok interrupted

-- `_invoke_skill`
unfoldable pub invoke_skill : (Skill → Named → Invocation) → Skill → Named → Result DispatchOutcome
unfolding skill_ending
invoke_skill invoke s arguments = skill_ending s (invoke s arguments)

abbrev pub name_or_router : Option Skill → Str
name_or_router none = text "router"
name_or_router (some s) = s.name

-- `lower` is `str.lower`; `one` and `zero` are the confidences 1.0 and 0.0, and `is_low` the
-- comparison with `ROUTER_CONFIDENCE_THRESHOLD`.
module _ {Confidence : Type 0} (lower : Str → Str) (shlex_split : Str → Result (List Str))
    (one zero : Confidence) (is_low : Confidence → Bool) where
  abbrev pub certain : Str → Option Named → Option (RouterDecision Confidence)
  certain name none = none
  certain name (some arguments) =
      some (record { tool = some name; confidence = one; arguments = arguments })

  -- The first word is gone; what is left are the arguments.
  abbrev pub tier1_rest : Skill → Option Str → Result (Option (RouterDecision Confidence))
  tier1_rest s none = value_err (text "Missing arguments for command '" ++ (s.name ++ text "'"))
  tier1_rest s (some rest) =
      tier1_arguments shlex_split s (strip rest) >>= (λ a. ok (certain s.name a))

  abbrev pub tier1_for : Str → Option Skill → Result (Option (RouterDecision Confidence))
  tier1_for task none = ok none
  tier1_for task (some s) = tier1_rest s (after_word (strip task))

  unfoldable pub parse_tier1_request :
      Str → List Skill → Result (Option (RouterDecision Confidence))
  unfolding tier1_arguments after_word strip deterministic_match
  parse_tier1_request task r = tier1_for task (deterministic_match lower task r)

  abbrev no_tool : RouterDecision Confidence
  no_tool = record { tool = none; confidence = zero; arguments = [] }

  abbrev pub in_catalog : List Str → RouterDecision Confidence → RouterDecision Confidence
  in_catalog names d = elim d.tool [
    | none ↦ d
    | some name ↦ if mem_str name names then d else no_tool
  ]

  -- `classify_tool_request`: `llm` is the structured model with its prompt.
  unfoldable pub classify_tool_request :
      (Str → Result (RouterDecision Confidence))
      → Str
      → List Skill
      → Result (RouterDecision Confidence)
  classify_tool_request llm task r =
      let names = map (λ s. s.name) r in
      if is_empty names then ok no_tool else llm task >>= (λ d. ok (in_catalog names d))

  abbrev pub invoke_found :
      (Skill → Named → Invocation) → Named → Option Skill → Result DispatchOutcome
  invoke_found invoke arguments none = ok (escalate_with none)
  invoke_found invoke arguments (some s) = invoke_skill invoke s arguments

  -- What the node does with a decision.
  unfoldable pub act :
      (Skill → Named → Invocation) → List Skill → RouterDecision Confidence → Result DispatchOutcome
  unfolding escalate_with invoke_skill get_skill
  act invoke r d = elim d.tool [
    | none ↦ ok (escalate_with none)
    | some name ↦
        if is_low d.confidence
        then ok (escalate_with none)
        else invoke_found invoke d.arguments (get_skill lower name r)
  ]

  abbrev pub act_or_fail :
      (Skill → Named → Invocation)
      → List Skill
      → Result (RouterDecision Confidence)
      → Result DispatchOutcome
  act_or_fail invoke r (err e) = ok (failed (text "router") (message e))
  act_or_fail invoke r (ok d) = act invoke r d

  abbrev pub ask_router :
      (Skill → Named → Invocation)
      → (Str → Result (RouterDecision Confidence))
      → Str
      → List Skill
      → RouterMode
      → Result DispatchOutcome
  ask_router invoke llm task r direct_escalation = ok (escalate_with none)
  ask_router invoke llm task r cascade = act_or_fail invoke r (classify_tool_request llm task r)

  -- `dispatch`: the exceptions that leave it are that of an invalid `ROUTER_MODE` and those of
  -- `_serialize_tool_output`.
  abbrev pub dispatch_parsed :
      (Skill → Named → Invocation)
      → (Str → Result (RouterDecision Confidence))
      → Result RouterMode
      → Str
      → List Skill
      → Result (Option (RouterDecision Confidence))
      → Result DispatchOutcome
  dispatch_parsed invoke llm mode task r (err e) =
      ok (failed (name_or_router (deterministic_match lower task r)) (message e))
  dispatch_parsed invoke llm mode task r (ok (some d)) = act invoke r d
  dispatch_parsed invoke llm mode task r (ok none) = mode >>= (λ m. ask_router invoke llm task r m)

  unfoldable pub dispatch :
      (Skill → Named → Invocation)
      → (Str → Result (RouterDecision Confidence))
      → Result RouterMode
      → Str
      → List Skill
      → Result DispatchOutcome
  unfolding parse_tier1_request classify_tool_request act escalate_with
  dispatch invoke llm mode task r =
      dispatch_parsed invoke llm mode task r (parse_tier1_request task r)
