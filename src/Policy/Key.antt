-- ===== src/Policy/Key.antt =====
-- agent_os/policy.py: `derive_permission_key` and its helpers.
pub mod Scope
use agent_os_langgraph.Prelude.{
  any, is_empty, ℕ, Bool, false, ◌&&◌, ◌||◌, not, Option, none, some, [], ◌∷◌, ◌++◌, leb, ◌==◌, all,
  if◌then◌else◌,
}
use agent_os_langgraph.Text.{is_space, Str, text, str_eq, mem_str}
use agent_os_langgraph.Text.Split.{colon}
use agent_os_langgraph.Schemas.{
  Value, str, other, get_arg, ActionProposal, is_write, memory_write_modes,
}

-- `[a-z0-9_]`, with no flag
unfoldable pub is_connector_char : ℕ → Bool
is_connector_char c = leb b'a' c && leb c b'z' || leb b'0' c && leb c b'9' || c == b'_'

-- `_SAFE_CONNECTOR_NAME.fullmatch`
unfoldable pub is_connector : Str → Bool
is_connector [] = false
is_connector (c ∷ s) = is_connector_char c && all is_connector_char s

unfoldable pub permission_connector : Option Str → Option Str
permission_connector none = none
permission_connector (some s) = if is_connector s then some s else none

unfoldable pub permission_ref : Option Value → Option Str
permission_ref none = none
permission_ref (some (other s)) = none
permission_ref (some (str s)) =
    if is_empty s || any (λ c. c == colon) s || any is_space s then none else some s

abbrev pub key_prefix : Str
key_prefix = text "memory_write:write:"

-- f"memory_write:write:{connector}:{mode}:{ref}"
unfoldable pub permission_key : Str → Str → Str → Str
permission_key connector mode ref = key_prefix ++ (connector ++ colon ∷ (mode ++ colon ∷ ref))

abbrev key_of_parts : Option Str → Option Value → Option Str → Option Str
key_of_parts (some connector) (some (str mode)) (some ref) =
    if mem_str mode memory_write_modes then some (permission_key connector mode ref) else none
key_of_parts _ _ _ = none

unfoldable pub derive_permission_key : ActionProposal → Option Str
derive_permission_key p =
    if not (str_eq p.tool (text "memory.write")) || not (is_write p.side_effect)
    then none
    else key_of_parts (permission_connector p.connector) (get_arg (text "mode") p.arguments)
        (permission_ref (get_arg (text "ref") p.arguments))
