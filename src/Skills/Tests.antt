-- ===== src/Skills/Tests.antt =====
-- The default registry with one tool of an MCP server that takes a word of a native skill.
use agent_os_langgraph.Prelude.{◌≡◌, refl, inl, some, [], ◌∷◌, List, ok, ◌>>=◌, ◌++◌}
use agent_os_langgraph.Text.{Str, text, strip}
use agent_os_langgraph.Skills.{
  Skill, tool, answers, register, register_each, register_many, deterministic_match,
  build_default_registry,
}
use agent_os_langgraph.Skills.Names.{IsRegistry}
use agent_os_langgraph.Skills.Batch.{register_many-register_each, all_or_nothing}
use agent_os_langgraph.Skills.Native.{Keeps, read_skill, native_not_shadowed}

-- `str.lower` on a text without capitals.
abbrev same : Str → Str
same s = s

same-Keeps : Keeps same
same-Keeps = (refl, (refl, (refl, (refl, (refl, (refl, (refl, (refl, tt))))))))

abbrev offered : List (Str × List Str)
offered = (text "read", text "url" ∷ []) ∷ (text "search", text "query" ∷ []) ∷ []

abbrev search_skill : Skill
search_skill = record {
  name = text "search";
  aliases = text "find" ∷ [];
  handler = tool (text "query" ∷ []);
}

abbrev one_skill : List Skill
one_skill = read_skill ∷ []

one_skill-IsRegistry : IsRegistry one_skill
one_skill-IsRegistry = (refl, tt)

native_not_shadowed_example :
    build_default_registry same offered
      >>= (λ r. ok (deterministic_match same (text "read notes.txt") r))
    ≡ ok (some read_skill)
unfolding answers agent_os_langgraph.Text.str_eq text agent_os_langgraph.Text.mem_str
    agent_os_langgraph.Text.Words.split_words strip
native_not_shadowed_example =
    native_not_shadowed same same-Keeps offered read_skill (text "read notes.txt") (text "read")
      (inl refl) refl refl

-- The second skill is refused, and the first one is not left behind.
register_many-register_each_example :
    register_many (search_skill ∷ read_skill ∷ []) one_skill
    ≡ all_or_nothing one_skill (register_each (search_skill ∷ read_skill ∷ []) one_skill)
register_many-register_each_example =
    register_many-register_each (search_skill ∷ read_skill ∷ []) one_skill one_skill-IsRegistry

register_many_undone : (register_many (search_skill ∷ read_skill ∷ []) one_skill).1 ≡ one_skill
unfolding register_many agent_os_langgraph.Text.str_eq text agent_os_langgraph.Text.mem_str
register_many_undone = refl

register_runs : register search_skill one_skill ≡ ok (one_skill ++ search_skill ∷ [])
unfolding register agent_os_langgraph.Text.str_eq text agent_os_langgraph.Text.mem_str
register_runs = refl
