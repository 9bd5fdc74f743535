-- ===== src/Validation/Verdicts.antt =====
-- agent_os/validation.py: which rules pass, and how many.
use agent_os_langgraph.Prelude.{
  ℕ, suc, ◌≤◌, ◌≡◌, refl, ap, ap₂, ◌∙◌, Bool, true, false, ◌&&◌, ◌||◌, not, Option, none, some,
  List, [], ◌∷◌, all, is_empty, Result, ok, err, arith, Bool-cases, Result-cases, inl, inr, length,
  ◌==◌,
}
use agent_os_langgraph.Text.{Str, text, str_eq, str_eq_iff, mem_str}
use agent_os_langgraph.Validation.{
  RuleKind, deterministic, llm, ValidationRule, ValidationResult, ExitCode, StatusField, missing,
  code, no_integer, CommandOutcome, flag, exit_status, report, other, Context, text_of,
  artifacts_of, actual_output, is_within, is_zero, the_commands, name_or_empty, judge_outcome,
  outcome_in, verify_command, file_exists, regex, contains, with_param, run_checker, Judged,
  verdict, verdict_with, judge_raised, Judge, judged, run_llm_judge, run_rule, run_validation,
  summarize,
}

-- A supplied outcome is a success.
abbrev pub is_zero_status : StatusField → Bool
is_zero_status (code c) = is_zero c
is_zero_status _ = false

abbrev pub has_succeeded : Option CommandOutcome → Bool
has_succeeded none = false
has_succeeded (some (flag b)) = b
has_succeeded (some (exit_status c)) = is_zero c
has_succeeded (some (report missing r output stdout)) = is_zero_status r
has_succeeded (some (report s r output stdout)) = is_zero_status s
has_succeeded (some other) = false

abbrev pub is_true : Result Bool → Bool
is_true (err e) = false
is_true (ok b) = b

-- A test on a param that is there and not empty.
abbrev pub on_param : Option Str → (Str → Bool) → Bool
on_param none f = false
on_param (some p) f = not (is_empty p) && f p

differs : (n a b : Str) → str_eq n a ≡ true → str_eq a b ≡ false → str_eq n b ≡ false
differs n a b h k = ap (λ (m : Str). str_eq m b) ((str_eq_iff n a).0 h) ∙ k

names_differ :
    (str_eq (text "verify_cmd") (text "file_exists") ≡ false)
    × (str_eq (text "verify_cmd") (text "regex") ≡ false)
    × (str_eq (text "verify_cmd") (text "contains") ≡ false)
    × (str_eq (text "file_exists") (text "regex") ≡ false)
    × (str_eq (text "file_exists") (text "contains") ≡ false)
    × (str_eq (text "regex") (text "contains") ≡ false)
unfolding str_eq text
names_differ = (refl, refl, refl, refl, refl, refl)

module _ (repr : Str → Str) (show : ExitCode → Str) (search : Str → Str → Result Bool) where
  abbrev pub is_agreed : Judged repr show search → Bool
  is_agreed (judge_raised class_name) = false
  is_agreed (verdict b) = b
  is_agreed (verdict_with b s) = b

  -- When a rule is met: a semantic one if there is a judge and it agrees, and a deterministic one by
  -- its check, on a param that is not empty: the command has a successful outcome, the path is an
  -- artifact or occurs in the diff, or the pattern or the text is found in the output.
  abbrev pub is_met : Option (Judge repr show search) → RuleKind → ValidationRule → Context → Bool
  is_met none llm r c = false
  is_met (some judge) llm r c = is_agreed (judge r c.shown)
  is_met j deterministic r c =
      let name = name_or_empty r.check in
      str_eq name (text "verify_cmd")
        && on_param r.param (λ p. has_succeeded (outcome_in repr show search p (the_commands c)))
      || str_eq name (text "file_exists")
        && on_param r.param
            (λ p. mem_str p (artifacts_of c.shown.artifacts) || is_within p (text_of c.shown.diff))
      || str_eq name (text "regex")
        && on_param r.param (λ p. is_true (search p (actual_output c.shown)))
      || str_eq name (text "contains")
        && on_param r.param (λ p. is_within p (actual_output c.shown))

  judge_outcome_lem :
      (p : Str) (o : Option CommandOutcome)
      → (judge_outcome repr show search p o).0 ≡ has_succeeded o
  judge_outcome_lem p none = refl
  judge_outcome_lem p (some (flag b)) = refl
  judge_outcome_lem p (some (exit_status c)) = refl
  judge_outcome_lem p (some (report missing missing o s)) = refl
  judge_outcome_lem p (some (report missing (code c) o s)) = refl
  judge_outcome_lem p (some (report missing no_integer o s)) = refl
  judge_outcome_lem p (some (report (code c) r o s)) = refl
  judge_outcome_lem p (some (report no_integer r o s)) = refl
  judge_outcome_lem p (some other) = refl

  file_exists_lem :
      (p : Str) (c : Context)
      → (file_exists repr show search p c).0
        ≡ (mem_str p (artifacts_of c.shown.artifacts) || is_within p (text_of c.shown.diff))
  file_exists_lem p c = ground arith

  regex_lem :
      (p : Str) (c : Context)
      → (regex repr show search p c).0 ≡ is_true (search p (actual_output c.shown))
  regex_lem p c = elim (Result-cases (search p (actual_output c.shown))) [
    | inl (b, e) ↦ rw e refl
    | inr (x, e) ↦ rw e refl
  ]

  with_param_lem :
      (m : Str) (o : Option Str) (f : Str → Bool × Str) (g : Str → Bool)
      → ((p : Str) → (f p).0 ≡ g p)
      → (with_param repr show search m o f).0 ≡ on_param o g
  with_param_lem m none f g h = refl
  with_param_lem m (some p) f g h = ground (arith, h p)

  by_checker :
      (r : ValidationRule) (c : Context)
      → (run_checker repr show search r c).0 ≡ (
          str_eq (name_or_empty r.check) (text "verify_cmd")
            && on_param r.param
                (λ p. has_succeeded (outcome_in repr show search p (the_commands c)))
          || str_eq (name_or_empty r.check) (text "file_exists")
            && on_param r.param (λ p.
              mem_str p (artifacts_of c.shown.artifacts) || is_within p (text_of c.shown.diff))
          || str_eq (name_or_empty r.check) (text "regex")
            && on_param r.param (λ p. is_true (search p (actual_output c.shown)))
          || str_eq (name_or_empty r.check) (text "contains")
            && on_param r.param (λ p. is_within p (actual_output c.shown)))
  unfolding run_checker
  by_checker r c =
      let n = name_or_empty r.check in
      let (vf, vr, vc, fr, fc, rc) = names_differ in
      let v =
        with_param_lem (text "verify_cmd requires the command key in param.") r.param
          (λ p. verify_command repr show search p c)
          (λ p. has_succeeded (outcome_in repr show search p (the_commands c)))
          (λ p. judge_outcome_lem p (outcome_in repr show search p (the_commands c))) in
      let f =
        with_param_lem (text "file_exists requires the expected path in param.") r.param
          (λ p. file_exists repr show search p c)
          (λ p. mem_str p (artifacts_of c.shown.artifacts) || is_within p (text_of c.shown.diff))
          (λ p. file_exists_lem p c) in
      let x =
        with_param_lem (text "regex requires the pattern in param.") r.param
          (λ p. regex repr show search p c) (λ p. is_true (search p (actual_output c.shown)))
          (λ p. regex_lem p c) in
      let t =
        with_param_lem (text "contains requires the expected text in param.") r.param
          (λ p. contains repr show search p c) (λ p. is_within p (actual_output c.shown))
          (λ p. refl) in
      elim (Bool-cases (str_eq n (text "verify_cmd"))) [
        | inl e ↦
            rw (e, differs n _ _ e vf, differs n _ _ e vr, differs n _ _ e vc) (v ∙ ground arith)
        | inr a ↦ rw a (elim (Bool-cases (str_eq n (text "file_exists"))) [
          | inl e ↦ rw (e, differs n _ _ e fr, differs n _ _ e fc) (f ∙ ground arith)
          | inr b ↦ rw b (elim (Bool-cases (str_eq n (text "regex"))) [
            | inl e ↦ rw (e, differs n _ _ e rc) (x ∙ ground arith)
            | inr d ↦ rw d (elim (Bool-cases (str_eq n (text "contains"))) [
              | inl e ↦ rw e t
              | inr none_ ↦ rw none_ refl
            ])
          ])
        ])
      ]

  judged_lem : (o : Judged repr show search) → (judged repr show search o).0 ≡ is_agreed o
  judged_lem (judge_raised class_name) = refl
  judged_lem (verdict b) = refl
  judged_lem (verdict_with b s) = refl

  run_rule_lem :
      (j : Option (Judge repr show search)) (k : RuleKind) (r : ValidationRule) (c : Context)
      → (run_rule repr show search j k r c).0 ≡ is_met j k r c
  unfolding run_llm_judge
  run_rule_lem none llm r c = refl
  run_rule_lem (some judge) llm r c = judged_lem (judge r c.shown)
  run_rule_lem none deterministic r c = by_checker r c
  run_rule_lem (some judge) deterministic r c = by_checker r c

  abbrev pub met_rules :
      Option (Judge repr show search) → List ValidationRule → Context → List (Str × Bool)
  met_rules j [] c = []
  met_rules j (r ∷ rs) c = (r.id, is_met j r.kind r c) ∷ met_rules j rs c

  abbrev pub verdicts : List ValidationResult → List (Str × Bool)
  verdicts [] = []
  verdicts (r ∷ rs) = (r.rule_id, r.passed) ∷ verdicts rs

  -- A validation gives one result for each rule, in their order and under their ids, and a result passes
  -- exactly if its rule is met. So an unknown check, an absent param, a missing outcome, an invalid
  -- pattern, and an absent or failing judge do not pass.
  pub run_validation_lem :
      (j : Option (Judge repr show search)) (rs : List ValidationRule) (c : Context)
      → verdicts (run_validation repr show search j rs c) ≡ met_rules j rs c
  unfolding run_validation
  run_validation_lem j [] c = refl
  run_validation_lem j (r ∷ rs) c =
      ap₂ (λ (b : Bool) (vs : List (Str × Bool)). (r.id, b) ∷ vs) (run_rule_lem j r.kind r c)
        (run_validation_lem j rs c)

suc_eq : (a b : ℕ) → (suc a == suc b) ≡ (a == b)
suc_eq a b = ground arith

less_eq : (a b : ℕ) → a ≤ b → (a == suc b) ≡ false
less_eq a b h = ground arith

-- A summary counts all results and those that passed: not more than all, and all exactly if each has
-- passed.
pub summarize_lem :
    (rs : List ValidationResult)
    → let s = summarize rs in
      (s.total ≡ length rs) × (s.met ≤ s.total) × ((s.met == s.total) ≡ all (λ r. r.passed) rs)
unfolding summarize
summarize_lem [] = (refl, omega arith, refl)
summarize_lem (r ∷ rs) =
    let (t, l, e) = summarize_lem rs in
    elim (Bool-cases r.passed) [
      | inl met ↦ rw met (refl, omega arith, suc_eq _ _ ∙ e)
      | inr unmet ↦ rw unmet (refl, omega arith, less_eq _ _ l)
    ]
