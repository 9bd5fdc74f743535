-- ===== src/Validation.antt =====
-- agent_os/validation.py: the checks of validation rules against supplied evidence, and their summary.
pub mod Verdicts
mod Tests
use agent_os_langgraph.Prelude.{
  ℕ, zero, suc, ◌≡◌, Bool, true, false, ◌&&◌, ◌||◌, not, Option, none, some, List, [], ◌∷◌, ◌++◌,
  is_empty, if◌then◌else◌, Result, ok, err, Error, message, length,
}
use agent_os_langgraph.Text.{Str, text, str_eq, mem_str, starts_with}

pub data RuleKind : Type 0 where
  deterministic llm : RuleKind

-- `class ValidationRule`
pub record ValidationRule : Type 0 where
  pub id : Str
  pub description : Str
  pub kind : RuleKind
  pub check : Option Str
  pub param : Option Str

-- `class ValidationResult`
pub record ValidationResult : Type 0 where
  pub rule_id : Str
  pub passed : Bool
  pub method : RuleKind
  pub evidence : Str

-- A value of the context: a text, a sequence with its texts and other items, or anything else.
pub data Supplied : Type 0 where
  a_text : Str → Supplied
  a_sequence : List (Option Str) → Supplied
  something : Supplied

-- An `int`: a number, or the negative of a successor.
pub data ExitCode : Type 0 where
  exit below_zero : ℕ → ExitCode

-- An entry of an outcome that should be an exit status.
pub data StatusField : Type 0 where
  missing : StatusField
  code : ExitCode → StatusField
  no_integer : StatusField

-- The supplied outcome of a command.
pub data CommandOutcome : Type 0 where
  flag : Bool → CommandOutcome
  exit_status : ExitCode → CommandOutcome
  report : (exit_code returncode : StatusField) → (output stdout : Option Supplied) → CommandOutcome
  other : CommandOutcome

pub data Commands : Type 0 where
  commands : List (Str × CommandOutcome) → Commands
  no_mapping : Commands

-- What a semantic judge may see.
pub record Evidence : Type 0 where
  pub verify_output : Option Supplied
  pub diff : Option Supplied
  pub artifacts : Option Supplied

-- The context of a validation, as far as it is read.
pub record Context : Type 0 where
  pub shown : Evidence
  pub verify_commands : Option Commands
  pub verify_cmds : Option Commands

-- `_text`
abbrev pub text_of : Option Supplied → Str
text_of (some (a_text s)) = s
text_of _ = []

abbrev pub the_texts : List (Option Str) → List Str
the_texts [] = []
the_texts (none ∷ xs) = the_texts xs
the_texts (some s ∷ xs) = s ∷ the_texts xs

-- `_artifacts`
abbrev pub artifacts_of : Option Supplied → List Str
artifacts_of (some (a_text s)) = s ∷ []
artifacts_of (some (a_sequence xs)) = the_texts xs
artifacts_of _ = []

-- `"\n".join(part for part in parts if part)`
unfoldable pub join_lines : List Str → Str
join_lines [] = []
join_lines (p ∷ ps) =
    let rest = join_lines ps in
    if is_empty p then rest else if is_empty rest then p else p ++ 10 ∷ rest

-- `_actual_output`
unfoldable pub actual_output : Evidence → Str
unfolding join_lines
actual_output e = join_lines (text_of e.verify_output ∷ text_of e.diff ∷ artifacts_of e.artifacts)

-- `part in whole` on texts
unfoldable pub is_within : Str → Str → Bool
is_within part [] = is_empty part
is_within part (c ∷ s) = starts_with part (c ∷ s) || is_within part s

abbrev pub is_zero : ExitCode → Bool
is_zero (exit zero) = true
is_zero _ = false

abbrev pub name_or_empty : Option Str → Str
name_or_empty none = []
name_or_empty (some k) = k

-- `mapping[key]`
unfoldable pub find_outcome : Str → List (Str × CommandOutcome) → Option CommandOutcome
find_outcome k [] = none
find_outcome k ((j, o) ∷ os) = if str_eq k j then some o else find_outcome k os

abbrev pub the_commands : Context → Commands
the_commands c = first c.verify_commands c.verify_cmds
  where
    first : Option Commands → Option Commands → Commands
    first (some m) o = m
    first none (some m) = m
    first none none = commands []

-- `outcome.get("exit_code", outcome.get("returncode"))`
abbrev pub status_in : StatusField → StatusField → StatusField
status_in missing s = s
status_in s _ = s

-- `repr` of a text and `str` of an exit code are parameters; `search` is `re.search`, which raises on an
-- invalid pattern.
module _ (repr : Str → Str) (show : ExitCode → Str) (search : Str → Str → Result Bool) where
  abbrev with_output : Str → Option Supplied → Option Supplied → Str
  with_output evidence output stdout =
      let shown = if is_empty (text_of output) then text_of stdout else text_of output in
      if is_empty shown then evidence else evidence ++ text "; output=" ++ shown

  abbrev pub judge_status : Str → StatusField → Option Supplied → Option Supplied → Bool × Str
  judge_status p (code c) output stdout =
      (is_zero c, with_output (p ++ text ": exit_code=" ++ show c) output stdout)
  judge_status p s output stdout =
      (false, p ++ text ": supplied result has no integer exit status.")

  abbrev pub judge_outcome : Str → Option CommandOutcome → Bool × Str
  judge_outcome p none = (false, text "No supplied verification result for: " ++ p)
  judge_outcome p (some (flag b)) =
      (b, p ++ (text ": supplied boolean result=" ++ (if b then text "True." else text "False.")))
  judge_outcome p (some (exit_status c)) =
      (is_zero c, p ++ (text ": exit_code=" ++ (show c ++ text ".")))
  judge_outcome p (some (report e r output stdout)) = judge_status p (status_in e r) output stdout
  judge_outcome p (some other) = (false, p ++ text ": supplied result has no exit status.")

  abbrev pub outcome_in : Str → Commands → Option CommandOutcome
  outcome_in p no_mapping = none
  outcome_in p (commands os) = find_outcome p os

  -- `_verify_command`
  abbrev pub verify_command : Str → Context → Bool × Str
  verify_command p c = judge_outcome p (outcome_in p (the_commands c))

  -- `_file_exists`
  abbrev pub file_exists : Str → Context → Bool × Str
  file_exists p c =
      if mem_str p (artifacts_of c.shown.artifacts)
      then (true, text "Found " ++ (p ++ text " in supplied artifacts."))
      else if is_within p (text_of c.shown.diff)
      then (true, text "Found " ++ (p ++ text " in supplied diff."))
      else (false, p ++ text " is absent from supplied artifacts and diff.")

  abbrev regex_result : Str → Result Bool → Bool × Str
  regex_result p (err e) =
      (false, text "Invalid regex " ++ (repr p ++ (text ": " ++ (message e ++ text "."))))
  regex_result p (ok b) = (
    b,
    text "Regex "
        ++ (repr p
            ++ (if b
                then text " matched supplied output."
                else text " did not match supplied output.")),
  )

  -- `_regex`
  abbrev pub regex : Str → Context → Bool × Str
  regex p c = regex_result p (search p (actual_output c.shown))

  -- `_contains`
  abbrev pub contains : Str → Context → Bool × Str
  contains p c =
      let b = is_within p (actual_output c.shown) in
      (
        b,
        text "Text "
            ++ (repr p
                ++ (if b
                    then text " was found in supplied output."
                    else text " was absent from supplied output.")),
      )

  -- A checker wants a param that is not empty.
  abbrev pub with_param : Str → Option Str → (Str → Bool × Str) → Bool × Str
  with_param m none f = (false, m)
  with_param m (some p) f = if is_empty p then (false, m) else f p

  -- `_DETERMINISTIC_CHECKERS`
  unfoldable pub run_checker : ValidationRule → Context → Bool × Str
  unfolding actual_output is_within find_outcome
  run_checker r c =
      let name = name_or_empty r.check in
      if str_eq name (text "verify_cmd")
      then with_param (text "verify_cmd requires the command key in param.") r.param
          (λ p. verify_command p c)
      else if str_eq name (text "file_exists")
      then with_param (text "file_exists requires the expected path in param.") r.param
          (λ p. file_exists p c)
      else if str_eq name (text "regex")
      then with_param (text "regex requires the pattern in param.") r.param (λ p. regex p c)
      else if str_eq name (text "contains")
      then with_param (text "contains requires the expected text in param.") r.param
          (λ p. contains p c)
      else (false, text "Unknown deterministic checker: " ++ repr name)

  -- What a judge returns: a verdict, with its evidence or without.
  pub data Judged : Type 0 where
    verdict : Bool → Judged
    verdict_with : Bool → Str → Judged
    judge_raised : (class_name : Str) → Judged

  abbrev pub Judge : Type 0
  Judge = ValidationRule → Evidence → Judged

  abbrev pub judged : Judged → Bool × Str
  judged (judge_raised class_name) = (false, text "LLM judge failed: " ++ (class_name ++ text "."))
  judged (verdict b) = (b, text "LLM judge evaluated the supplied independent evidence.")
  judged (verdict_with b s) = (b, s)

  -- `_run_llm_judge`
  unfoldable pub run_llm_judge : Option Judge → ValidationRule → Context → Bool × Str
  run_llm_judge none r c = (false, text "No LLM judge was injected for this semantic rule.")
  run_llm_judge (some j) r c = judged (j r c.shown)

  abbrev pub result_of : ValidationRule → Bool × Str → ValidationResult
  result_of r (b, e) = record { rule_id = r.id; passed = b; method = r.kind; evidence = e }

  abbrev pub run_rule : Option Judge → RuleKind → ValidationRule → Context → Bool × Str
  run_rule j llm r c = run_llm_judge j r c
  run_rule j deterministic r c = run_checker r c

  -- `run_validation`
  unfoldable pub run_validation :
      Option Judge → List ValidationRule → Context → List ValidationResult
  unfolding run_checker run_llm_judge
  run_validation j [] c = []
  run_validation j (r ∷ rs) c = result_of r (run_rule j r.kind r c) ∷ run_validation j rs c

-- `summarize`
pub record Summary : Type 0 where
  pub total : ℕ
  pub met : ℕ
  pub results : List ValidationResult

abbrev pub count_passed : List ValidationResult → ℕ
count_passed [] = 0
count_passed (r ∷ rs) = let n = count_passed rs in if r.passed then suc n else n

unfoldable pub summarize : List ValidationResult → Summary
summarize rs = record { total = length rs; met = count_passed rs; results = rs }
