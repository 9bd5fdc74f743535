-- ===== src/Dispatch/Tests.antt =====
-- A dispatch with one native skill, whose confidences are numbers of percent.
use agent_os_langgraph.Prelude.{
  ℕ, ◌≡◌, refl, Bool, true, false, none, some, [], ◌∷◌, List, ok, Result, ltb,
}
use agent_os_langgraph.Text.{Str, text, strip, is_space}
use agent_os_langgraph.Text.Words.{split_words}
use agent_os_langgraph.Routing.{Node, cascade}
use agent_os_langgraph.Graph.{Step, initial_state}
use agent_os_langgraph.Skills.{Skill}
use agent_os_langgraph.Skills.Native.{read_skill}
use agent_os_langgraph.Dispatch.{
  Named, one_text, RouterDecision, Invocation, skill_returned, Command, command, dispatch,
  parse_write,
}
use agent_os_langgraph.Dispatch.Commands.{parse_write-marked}
use agent_os_langgraph.Dispatch.Safety.{Justified, dispatch-Justified, dispatch-Step}

abbrev same : Str → Str
same s = s

-- One argument for each word.
abbrev words : Str → Result (List Str)
words s = ok (split_words s)

abbrev is_low : ℕ → Bool
is_low c = ltb c 80

-- A skill that returns its name.
abbrev invoke : Skill → Named → Invocation
invoke s arguments = skill_returned s.name true

-- A model that has no suggestion.
abbrev llm : Str → Result (RouterDecision ℕ)
llm task = ok (record { tool = none; confidence = 0; arguments = [] })

abbrev skills : List Skill
skills = read_skill ∷ []

abbrev task : Str
task = text "read notes.txt"

abbrev done : Command
done = record {
  goto = Node.end;
  router_escalated = false;
  tool_result =
      some (record { tool = text "read_file"; output = text "read_file"; success = true });
}

dispatch_runs :
    dispatch same words 100 0 is_low invoke llm (ok cascade) task skills ≡ ok (command done)
unfolding dispatch text agent_os_langgraph.Text.str_eq agent_os_langgraph.Text.mem_str
dispatch_runs = refl

dispatch-Justified_example :
    Justified same words 100 0 is_low invoke llm
      (ok cascade)
      task
      skills
      (dispatch same words 100 0 is_low invoke llm (ok cascade) task skills)
dispatch-Justified_example =
    dispatch-Justified same words 100 0 is_low invoke llm (ok cascade) task skills

dispatch-Step_example :
    Step same
      (record { at = Node.tool_dispatcher; state = initial_state task })
      (record {
        at = Node.end;
        state = record (initial_state task) { router_escalated = some false };
      })
dispatch-Step_example =
    dispatch-Step same words 100 0 is_low invoke llm (ok cascade) task skills done
      (initial_state task) dispatch_runs

parse_write-marked_example :
    parse_write (text "notes.md :: first line")
    ≡ ok (
        (text "path", one_text (text "notes.md"))
        ∷ (text "content", one_text (text "first line"))
        ∷ [])
unfolding text is_space agent_os_langgraph.Text.rstrip agent_os_langgraph.Text.Words.split_mark
parse_write-marked_example =
    parse_write-marked (text "notes.md") (text "first line") (refl, refl) (refl, refl) refl
