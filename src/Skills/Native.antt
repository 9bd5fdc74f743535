-- ===== src/Skills/Native.antt =====
-- agent_os/default_registry.py, `build_default_registry`: the native skills and the tools of MCP
-- servers.
use agent_os_langgraph.Prelude.{
  ◌≡◌, refl, ◌∙◌, sym, ap, ap₂, true, false, Option, some, List, [], ◌∷◌, ◌++◌, All, Result, ok,
  err, inl, inr, Result-cases, ◌>>=◌,
}
use agent_os_langgraph.Text.{Str, text, str_eq, mem_str, strip, is_space, lstrip_by, rstrip}
use agent_os_langgraph.Text.Words.{split_words, first_of}
use agent_os_langgraph.Skills.{
  Handler, tool, function, Skill, answers, register, search_by, new_skill, deterministic_match,
  checked_skill, add_tools, added, build_default_registry,
}
use agent_os_langgraph.Skills.Batch.{append_nil, append_assoc}
use agent_os_langgraph.Skills.Names.{
  IsRegistry, IsIn, register-IsRegistry, search_by_unique, search_by_later,
}

-- The words of the native skills.
abbrev pub native_words : List Str
native_words =
    text "read_file"
    ∷ text "read"
    ∷ text "write_file"
    ∷ text "write"
    ∷ text "edit"
    ∷ text "bash"
    ∷ text "memory_write"
    ∷ text "memory-write"
    ∷ []

abbrev pub read_skill : Skill
read_skill = record {
  name = text "read_file";
  aliases = text "read" ∷ [];
  handler = tool (text "path" ∷ []);
}

abbrev pub write_skill : Skill
write_skill = record {
  name = text "write_file";
  aliases = text "write" ∷ text "edit" ∷ [];
  handler = tool (text "path" ∷ text "content" ∷ []);
}

abbrev pub bash_skill : Skill
bash_skill = record {
  name = text "bash";
  aliases = [];
  handler = tool (text "cmd_args" ∷ text "timeout_seconds" ∷ []);
}

abbrev pub memory_skill : Skill
memory_skill = record {
  name = text "memory_write";
  aliases = text "memory-write" ∷ [];
  handler = function ((text "ref", false) ∷ (text "content", false) ∷ (text "mode", false) ∷ []);
}

abbrev pub native_skills : List Skill
native_skills = read_skill ∷ write_skill ∷ bash_skill ∷ memory_skill ∷ []

bound :
    (o : Result Skill) (r r' : List Skill)
    → o >>= (λ s. register s r) ≡ ok r'
    → (s : Skill) × (register s r ≡ ok r')
bound (ok s) r r' h = (s, h)
bound (err x) r r' h = absurd (cc)

natives : IsRegistry native_skills
unfolding text str_eq agent_os_langgraph.Skills.collides mem_str
natives = (refl, (refl, (refl, (refl, tt))))

module _ (lower : Str → Str) where
  -- `str.lower` on the words of the native skills.
  abbrev pub Keeps : Type 0
  Keeps = All (λ w. lower w ≡ w) native_words

  add_tools_lem :
      (tools : List (Str × List Str)) (r : List Skill)
      → IsRegistry r
      → IsRegistry (add_tools lower tools r)
        × ((later : List Skill) × (add_tools lower tools r ≡ r ++ later))
  unfolding add_tools
  add_tools_lem [] r i = (i, ([], sym (append_nil r)))
  add_tools_lem ((name, ps) ∷ ts) r i =
      elim (Result-cases (new_skill lower name [] (tool ps) >>= λ s. register s r)) [
        | inl (r', e) ↦
            let (s, q) = bound (new_skill lower name [] (tool ps)) r r' e in
            let (j, a) = register-IsRegistry s r r' i q in
            let (k, (later, b)) = add_tools_lem ts r' j in
            rw e
              (k, (s ∷ later, b ∙ ap (λ (x : List Skill). x ++ later) a ∙ append_assoc r later s))
        | inr (x, e) ↦ rw e (add_tools_lem ts r i)
      ]

  module _ (k : Keeps) where
    new_read :
        new_skill lower (text "read_file") (text "read" ∷ []) (read_skill.handler) ≡ ok read_skill
    unfolding new_skill checked_skill text strip lstrip_by rstrip is_space str_eq mem_str
    new_read =
        ap₂
          (λ (n a : Str).
            checked_skill (record { name = n; aliases = a ∷ []; handler = read_skill.handler }))
          k.0 k.1.0

    new_write :
        new_skill lower (text "write_file") (text "write" ∷ text "edit" ∷ []) (write_skill.handler)
        ≡ ok write_skill
    unfolding new_skill checked_skill text strip lstrip_by rstrip is_space str_eq mem_str
    new_write =
        ap₂
          (λ (n : Str) (as_ : List Str).
            checked_skill (record { name = n; aliases = as_; handler = write_skill.handler }))
          k.1.1.0 (ap₂ (λ (a b : Str). a ∷ b ∷ []) k.1.1.1.0 k.1.1.1.1.0)

    new_bash : new_skill lower (text "bash") [] (bash_skill.handler) ≡ ok bash_skill
    unfolding new_skill checked_skill text strip lstrip_by rstrip is_space str_eq mem_str
    new_bash =
        ap
          (λ (n : Str).
            checked_skill (record { name = n; aliases = []; handler = bash_skill.handler }))
          k.1.1.1.1.1.0

    new_memory :
        new_skill lower (text "memory_write") (text "memory-write" ∷ []) (memory_skill.handler)
        ≡ ok memory_skill
    unfolding new_skill checked_skill text strip lstrip_by rstrip is_space str_eq mem_str
    new_memory =
        ap₂
          (λ (n a : Str).
            checked_skill (record { name = n; aliases = a ∷ []; handler = memory_skill.handler }))
          k.1.1.1.1.1.1.0 k.1.1.1.1.1.1.1.0

    native :
        (tools : List (Str × List Str))
        → build_default_registry lower tools ≡ ok (add_tools lower tools native_skills)
    unfolding build_default_registry register text str_eq mem_str
    native tools = rw (new_read, new_write, new_bash, new_memory) refl

    -- Where `lower` keeps the native words, the default registry is built whatever the MCP servers
    -- offer, and no two of its skills share a word.
    pub build_default_registry-IsRegistry :
        (tools : List (Str × List Str))
        → (r : List Skill) × (build_default_registry lower tools ≡ ok r) × IsRegistry r
    build_default_registry-IsRegistry tools = (
      add_tools lower tools native_skills,
      native tools,
      (add_tools_lem tools native_skills natives).0,
    )

    -- Where `lower` keeps the native words, a command whose first word is one of a native skill's finds
    -- that skill, whatever tools the MCP servers offer.
    pub native_not_shadowed :
        (tools : List (Str × List Str)) (s : Skill) (command w : Str)
        → IsIn s native_skills
        → answers w s ≡ true
        → first_of (split_words (lower (strip command))) ≡ some w
        → build_default_registry lower tools >>= (λ r. ok (deterministic_match lower command r))
          ≡ ok (some s)
    unfolding deterministic_match
    native_not_shadowed tools s command w m h f =
        let (later, e) = (add_tools_lem tools native_skills natives).1 in
        rw (native tools, e, f)
          (ap (λ (o : Option Skill). ok o)
            (search_by_later (answers w) native_skills later s
              (search_by_unique w s native_skills natives m h)))
