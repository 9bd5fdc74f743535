-- ===== src/Skills.antt =====
-- agent_os/skills.py: a skill with its names, and the registry as the list of the dict's values.
pub mod Names
pub mod Batch
pub mod Native
mod Tests
use agent_os_langgraph.Prelude.{
  ◌≡◌, refl, Bool, true, false, ◌&&◌, ◌||◌, not, Option, none, some, List, [], ◌∷◌, ◌++◌, map, any,
  is_empty, if◌then◌else◌, Result, ok, err, value_error, ◌>>=◌, ◌>>◌,
}
use agent_os_langgraph.Text.{Str, text, str_eq, mem_str, strip}
use agent_os_langgraph.Text.Words.{split_words, first_of}

-- What the parser reads of a handler: the properties of a LangChain tool's input schema, or the
-- parameters of a function, each with whether it is variadic.
pub data Handler : Type 0 where
  tool : List Str → Handler
  function : List (Str × Bool) → Handler

-- `class RegisteredSkill`
pub record Skill : Type 0 where
  pub name : Str
  pub aliases : List Str
  pub handler : Handler

abbrev pub invalid_skill {ℓ} : {A : Type ℓ} → Result A
invalid_skill = err (value_error (text "Invalid skill"))

abbrev pub are_distinct : List Str → Bool
are_distinct [] = true
are_distinct (x ∷ xs) = not (mem_str x xs) && are_distinct xs

-- The checks of `__post_init__` on the normalised names; the messages leave out the names.
unfoldable pub checked_skill : Skill → Result Skill
checked_skill s =
    if is_empty s.name
    then invalid_skill
    else if any is_empty s.aliases
    then invalid_skill
    else if mem_str s.name s.aliases
    then invalid_skill
    else if not (are_distinct s.aliases)
    then invalid_skill
    else ok s

-- The first skill with one of the two conditions of a search.
abbrev pub search_by : (Skill → Bool) → List Skill → Option Skill
search_by p [] = none
search_by p (s ∷ r) = if p s then some s else search_by p r

-- A word that names a skill.
unfoldable pub answers : Str → Skill → Bool
answers w s = str_eq w s.name || mem_str w s.aliases

-- `name in self._skills`
abbrev pub has_name : Str → List Skill → Bool
has_name n r = any (λ e. str_eq n e.name) r

-- The checks against one registered skill.
unfoldable pub collides : Skill → Skill → Bool
collides s e =
    mem_str s.name e.aliases || any (λ a. str_eq a e.name || mem_str a e.aliases) s.aliases

-- `SkillRegistry.register`: a new name stands last in the dict.
unfoldable pub register : Skill → List Skill → Result (List Skill)
unfolding collides
register s r =
    if has_name s.name r
    then err (value_error (text "Skill canonical name already registered"))
    else if any (collides s) r
    then err (value_error (text "Skill name or alias already used"))
    else ok (r ++ s ∷ [])

-- `self._skills[skill.name] = skill`
unfoldable pub put_skill : Skill → List Skill → List Skill
put_skill s [] = s ∷ []
put_skill s (e ∷ r) = if str_eq s.name e.name then s ∷ r else e ∷ put_skill s r

-- A loop of registrations, with the registry that it leaves where one of them raises.
unfoldable pub register_each : List Skill → List Skill → Result (Unit {0}) × List Skill
unfolding register
register_each [] r = (ok tt, r)
register_each (s ∷ ss) r = elim (register s r) [ err e ↦ (err e, r) | ok r' ↦ register_each ss r' ]

abbrev put_each : List Skill → List Skill → List Skill
put_each [] r = r
put_each (s ∷ ss) r = put_each ss (put_skill s r)

-- The batch after its trial on the shadow registry
abbrev pub after_trial :
    List Skill → List Skill → Result (Unit {0}) × List Skill → Result (Unit {0}) × List Skill
after_trial ss r (err e, shadow) = (err e, r)
after_trial ss r (ok done, shadow) = (ok tt, put_each ss r)

-- The batch after the copy of the registry
abbrev pub after_copy :
    List Skill → List Skill → Result (Unit {0}) × List Skill → Result (Unit {0}) × List Skill
after_copy ss r (err e, shadow) = (err e, r)
after_copy ss r (ok done, shadow) = after_trial ss r (register_each ss shadow)

-- `SkillRegistry.register_many`: the batch is tried on a shadow registry, then written. With the
-- registry that it leaves.
unfoldable pub register_many : List Skill → List Skill → Result (Unit {0}) × List Skill
unfolding register_each put_skill
register_many ss r = after_copy ss r (register_each r [])

-- `lower` is `str.lower`.
module _ (lower : Str → Str) where
  -- `RegisteredSkill(name, aliases, handler)`
  unfoldable pub new_skill : Str → List Str → Handler → Result Skill
  unfolding checked_skill
  new_skill name aliases handler = checked_skill (record {
    name = lower (strip name);
    aliases = map (λ a. lower (strip a)) aliases;
    handler = handler;
  })

  -- `SkillRegistry.get`
  unfoldable pub get_skill : Str → List Skill → Option Skill
  get_skill name r = search_by (λ s. str_eq (lower (strip name)) s.name) r

  abbrev match_word : Option Str → List Skill → Option Skill
  match_word none r = none
  match_word (some w) r = search_by (answers w) r

  -- `SkillRegistry.deterministic_match`, with `RegisteredSkill.matches`
  unfoldable pub deterministic_match : Str → List Skill → Option Skill
  unfolding split_words answers
  deterministic_match command r = match_word (first_of (split_words (lower (strip command)))) r

  -- `RegisteredSkill(name=tool.name, aliases=[], handler=tool)`, registered or skipped.
  abbrev pub added : List Skill → Result (List Skill) → List Skill
  added r (err e) = r
  added r (ok r') = r'

  unfoldable pub add_tools : List (Str × List Str) → List Skill → List Skill
  unfolding register new_skill
  add_tools [] r = r
  add_tools ((name, properties) ∷ ts) r =
      add_tools ts (added r (new_skill name [] (tool properties) >>= λ s. register s r))

  -- `build_default_registry`
  unfoldable pub build_default_registry : List (Str × List Str) → Result (List Skill)
  unfolding register new_skill add_tools
  build_default_registry mcp_tools = do
    read ← new_skill (text "read_file") (text "read" ∷ []) (tool (text "path" ∷ []))
    r1 ← register read []
    write ←
        new_skill (text "write_file") (text "write" ∷ text "edit" ∷ [])
          (tool (text "path" ∷ text "content" ∷ []))
    r2 ← register write r1
    shell ← new_skill (text "bash") [] (tool (text "cmd_args" ∷ text "timeout_seconds" ∷ []))
    r3 ← register shell r2
    memory ←
        new_skill (text "memory_write") (text "memory-write" ∷ [])
          (function ((text "ref", false) ∷ (text "content", false) ∷ (text "mode", false) ∷ []))
    r4 ← register memory r3
    ok (add_tools mcp_tools r4)
