-- ===== src/Dispatch/Safety.antt =====
-- agent_os/nodes/tool_dispatcher.py: what a dispatch may do, as a node of the graph and to the skills.
use agent_os_langgraph.Prelude.{
  ◌≡◌, refl, subst, Bool, true, false, Option, none, some, List, Result, ok, err, Result-cases,
  Option-cases, Bool-cases, ◌⊎◌, inl, inr,
}
use agent_os_langgraph.Text.{Str}
use agent_os_langgraph.Routing.{Node, RouterMode, cascade, direct_escalation, SimonState}
use agent_os_langgraph.Graph.{Step, hand_over, use_tool, escalate, finish_tool}
use agent_os_langgraph.Skills.{Skill, get_skill}
use agent_os_langgraph.Dispatch.{
  Named, RouterDecision, ToolResult, Invocation, skill_returned, not_serialized, skill_raised,
  bubbled, Command, DispatchOutcome, command, interrupted, skill_ending, invoke_skill, act,
  dispatch, escalate_with, parse_tier1_request, classify_tool_request, ask_router, dispatch_parsed,
}

module _ {Confidence : Type 0} (lower : Str → Str) (shlex_split : Str → Result (List Str))
    (one zero : Confidence) (is_low : Confidence → Bool) (invoke : Skill → Named → Invocation)
    (llm : Str → Result (RouterDecision Confidence)) (mode : Result RouterMode) (task : Str)
    (r : List Skill) where
  -- The decision on the task: what the direct parse gives, or where that has no answer and the mode is
  -- the cascade, what the router's classification gives.
  abbrev pub Decides : RouterDecision Confidence → Type 0
  Decides d =
      (parse_tier1_request lower shlex_split one zero is_low task r ≡ ok (some d))
      ⊎ (parse_tier1_request lower shlex_split one zero is_low task r ≡ ok none)
        × (mode ≡ ok cascade)
        × (classify_tool_request lower shlex_split one zero is_low llm task r ≡ ok d)

  -- The decision on the task is not low and names this registered skill.
  abbrev pub Selects : RouterDecision Confidence → Skill → Type 0
  Selects d s =
      Decides d
      × (is_low d.confidence ≡ false)
      × ((name : Str) × (d.tool ≡ some name) × (get_skill lower name r ≡ some s))

  -- Why nothing is reported as done: no decision, no tool in it, a low one, a tool that is not
  -- registered, or the selected skill, invoked with the arguments of the decision, raised.
  abbrev pub Escalates : Type 0
  Escalates =
      ((d : RouterDecision Confidence) → Decides d → ⊥)
      ⊎ (d : RouterDecision Confidence) × Decides d
        × ((d.tool ≡ none)
            ⊎ ((is_low d.confidence ≡ true)
                ⊎ (((name : Str) × (d.tool ≡ some name) × (get_skill lower name r ≡ none))
                    ⊎ (s : Skill) × (error : Str) × Selects d s
                      × (invoke s d.arguments ≡ skill_raised error))))

  -- The outcome is the escalation to the supervisor for one of these reasons, or the end with what the
  -- selected skill returned on the arguments of the decision, or its interrupt; an exception is that of
  -- the mode, or comes from the serialization of what the selected skill returned.
  abbrev pub Justified : Result DispatchOutcome → Type 0
  Justified (ok (command c)) =
      (c.goto ≡ Node.supervisor) × (c.router_escalated ≡ true) × Escalates
      ⊎ (d : RouterDecision Confidence) × (s : Skill) × (output : Str) × (success : Bool) × Selects
          d s
        × (invoke s d.arguments ≡ skill_returned output success)
        × (c ≡ record {
          goto = Node.end;
          router_escalated = false;
          tool_result = some (record { tool = s.name; output = output; success = success });
        })
  Justified (ok interrupted) =
      (d : RouterDecision Confidence) × (s : Skill) × Selects d s × (invoke s d.arguments ≡ bubbled)
  Justified (err e) =
      (mode ≡ err e)
      ⊎ (d : RouterDecision Confidence) × (s : Skill) × Selects d s
        × (invoke s d.arguments ≡ not_serialized e)

  escalated : (t : Option ToolResult) → Escalates → Justified (ok (escalate_with t))
  unfolding escalate_with
  escalated t why = inl (refl, refl, why)

  invoke_skill-Justified :
      (d : RouterDecision Confidence) (s : Skill)
      → Selects d s
      → Justified (invoke_skill invoke s d.arguments)
  unfolding invoke_skill skill_ending
  invoke_skill-Justified d s h = go (invoke s d.arguments) refl
    where
      go : (i : Invocation) → invoke s d.arguments ≡ i → Justified (skill_ending s i)
      go (skill_returned output success) e = inr (d, s, output, success, h, e, refl)
      go (not_serialized x) e = inr (d, s, h, e)
      go (skill_raised error) e = escalated _ (inr (d, h.0, inr (inr (inr (s, error, h, e)))))
      go bubbled e = (d, s, h, e)

  act-Justified :
      (d : RouterDecision Confidence)
      → Decides d
      → Justified (act lower shlex_split one zero is_low invoke r d)
  unfolding act
  act-Justified d h = elim (Option-cases d.tool) [
    | inl e ↦ rw e (escalated none (inr (d, h, inl e)))
    | inr (name, e) ↦ rw e (elim (Bool-cases (is_low d.confidence)) [
      | inl low ↦ rw low (escalated none (inr (d, h, inr (inl low))))
      | inr high ↦ rw high (elim (Option-cases (get_skill lower name r)) [
        | inl missing ↦ rw missing (escalated none (inr (d, h, inr (inr (inl (name, e, missing))))))
        | inr (s, found) ↦ rw found (invoke_skill-Justified d s (h, high, (name, e, found)))
      ])
    ])
  ]

  ask_router-Justified :
      (m : RouterMode)
      → mode ≡ ok m
      → parse_tier1_request lower shlex_split one zero is_low task r ≡ ok none
      → Justified (ask_router lower shlex_split one zero is_low invoke llm task r m)
  ask_router-Justified direct_escalation k n =
      escalated none (inl (λ d h. elim h [ inl p ↦ absurd (cc) | inr (p, q, c) ↦ absurd (cc) ]))
  ask_router-Justified cascade k n =
      elim (Result-cases (classify_tool_request lower shlex_split one zero is_low llm task r)) [
        | inl (d, e) ↦ rw e (act-Justified d (inr (n, k, e)))
        | inr (x, e) ↦ rw e (
            escalated _ (inl (λ d h. elim h [ inl p ↦ absurd (cc) | inr (p, q, c) ↦ absurd (cc) ])))
      ]

  -- Every ending of a dispatch is justified. It goes back to the supervisor with the escalation flag set,
  -- and then there is no decision on the task, or it names no tool or none that is registered, or is
  -- low, or the skill that it names raised; or the outcome is what the registered skill that the
  -- decision names returned on the arguments of the decision, or its interrupt, and the decision is not
  -- low. An exception is that of the router's mode, or of the serialization of what that skill returned.
  pub dispatch-Justified :
      Justified (dispatch lower shlex_split one zero is_low invoke llm mode task r)
  unfolding dispatch
  dispatch-Justified =
      go (parse_tier1_request lower shlex_split one zero is_low task r) mode refl refl
    where
      go :
          (p : Result (Option (RouterDecision Confidence))) (m : Result RouterMode)
          → parse_tier1_request lower shlex_split one zero is_low task r ≡ p
          → mode ≡ m
          → Justified (dispatch_parsed lower shlex_split one zero is_low invoke llm m task r p)
      go (err e) m h k =
          escalated _ (inl (λ d i. elim i [ inl p ↦ absurd (cc) | inr (p, q, c) ↦ absurd (cc) ]))
      go (ok (some d)) m h k = act-Justified d (inl h)
      go (ok none) (ok m) h k = ask_router-Justified m k h
      go (ok none) (err e) h k = inl k

  -- Every command of the dispatcher is a step of the graph from its node.
  pub dispatch-Step :
      (c : Command) (s : SimonState)
      → dispatch lower shlex_split one zero is_low invoke llm mode task r ≡ ok (command c)
      → Step lower
          (record { at = Node.tool_dispatcher; state = s })
          (record { at = c.goto; state = record s { router_escalated = some c.router_escalated } })
  unfolding escalate finish_tool
  dispatch-Step c s h =
      elim (subst (λ (x : Result DispatchOutcome). Justified x) h dispatch-Justified) [
        | inl (to, flag, why) ↦ rw (to, flag) (hand_over refl refl)
        | inr (d, k, output, success, m, ran, e) ↦ rw e (use_tool refl refl)
      ]
