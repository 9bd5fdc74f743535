-- ===== src/Validation/Tests.antt =====
-- Three rules against a context with one failing command.
use agent_os_langgraph.Prelude.{◌≡◌, Bool, true, false, none, some, [], ◌∷◌, List, Result, ok}
use agent_os_langgraph.Text.{Str, text}
use agent_os_langgraph.Validation.{
  ValidationRule, ValidationResult, deterministic, llm, ExitCode, exit, exit_status, commands,
  Context, a_text, a_sequence, run_validation, summarize, Judge,
}
use agent_os_langgraph.Validation.Verdicts.{verdicts, run_validation_lem}

abbrev repr : Str → Str
repr s = s

abbrev show : ExitCode → Str
show c = text "1"

-- No pattern is found.
abbrev search : Str → Str → Result Bool
search p s = ok false

abbrev rule : ValidationRule
rule = record {
  id = text "tests";
  description = text "the tests pass";
  kind = deterministic;
  check = some (text "verify_cmd");
  param = some (text "pytest");
}

abbrev rules : List ValidationRule
rules =
    rule
    ∷ record rule {
      id = text "file";
      check = some (text "file_exists");
      param = some (text "a.py");
    }
    ∷ record rule { id = text "sense"; kind = llm }
    ∷ []

abbrev context : Context
context = record {
  shown = record {
    verify_output = none;
    diff = none;
    artifacts = some (a_sequence (some (text "a.py") ∷ []));
  };
  verify_commands = some (commands ((text "pytest", exit_status (exit 1)) ∷ []));
  verify_cmds = none;
}

run_validation_lem_example :
    verdicts repr show search (run_validation repr show search none rules context)
    ≡ (text "tests", false) ∷ (text "file", true) ∷ (text "sense", false) ∷ []
unfolding agent_os_langgraph.Text.str_eq text agent_os_langgraph.Validation.find_outcome
    agent_os_langgraph.Text.mem_str
run_validation_lem_example = run_validation_lem repr show search none rules context

abbrev results : List ValidationResult
results = run_validation repr show search none rules context
