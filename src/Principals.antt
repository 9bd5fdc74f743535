-- ===== src/Principals.antt =====
-- agent_os/principal.py: who starts or approves work, and how LocalPrincipalResolver finds out.
pub mod Resolved
mod Tests
use agent_os_langgraph.Prelude.{
  Bool, true, false, ◌&&◌, ◌||◌, not, Option, none, some, List, [], ◌∷◌, ◌++◌, is_empty, is_some,
  if◌then◌else◌, Result, ok, err, value_error, length, drop,
}
use agent_os_langgraph.Text.{Str, text, mem_str, starts_with, strip}

-- `class Principal`
pub record Principal : Type 0 where
  pub id : Str
  pub kind : Str
  pub display : Str
  pub on_behalf_of : Option Str

abbrev blank_field : Str → Str
blank_field name = text "Principal." ++ name ++ text " must be a non-empty string"

-- `Principal(…)`, with the checks of `__post_init__`
unfoldable pub new_principal : Str → Str → Str → Option Str → Result Principal
new_principal id kind display behalf =
    if is_empty (strip id)
    then err (value_error (blank_field (text "id")))
    else if is_empty (strip kind)
    then err (value_error (blank_field (text "kind")))
    else if is_empty (strip display)
    then err (value_error (blank_field (text "display")))
    else ok record { id = id; kind = kind; display = display; on_behalf_of = behalf }

-- The value of an attribute or a key, as `bool(v)` and `str(v)` show it.
pub record Attribute : Type 0 where
  pub truthy : Bool
  pub shown : Str

-- `client.host`: a text, or a value of another type with its truth.
pub data Host : Type 0 where
  address : Str → Host
  no_text : Bool → Host

-- `request.state`, with the attributes that are set.
pub record RequestState : Type 0 where
  pub authenticated_with_token : Option Attribute
  pub is_loopback : Option Attribute

-- An object that is no principal, mapping or text. Of each attribute: whether the object has it, and
-- for the last two whether it is None.
pub record Requester : Type 0 where
  pub schedule_id : Option Attribute
  pub state : Option (Option RequestState)
  pub client : Option (Option Host)

-- `request_or_context`
pub data RequestOrContext : Type 0 where
  nothing : RequestOrContext
  principal : Principal → RequestOrContext
  mapping : (schedule_id : Option Attribute) → RequestOrContext
  a_text : Str → RequestOrContext
  request : Requester → RequestOrContext

-- `s.removeprefix(p)`
abbrev removeprefix : Str → Str → Str
removeprefix p s = if starts_with p s then drop (length p) s else s

-- The principal of a schedule, for the text of its id
unfoldable pub schedule_principal : Str → Result Principal
schedule_principal s =
    let id = strip s in
    new_principal (text "schedule:" ++ id) (text "schedule") (text "Schedule (" ++ id ++ text ")")
      none

-- An object whose `schedule_id` is set and true stands for that schedule.
abbrev pub resolve_scheduled : Option Attribute → Result Principal → Result Principal
resolve_scheduled none rest = rest
resolve_scheduled (some v) rest = if v.truthy then schedule_principal v.shown else rest

abbrev pub local_principal : Str → Result Principal
local_principal user =
    new_principal (text "local:" ++ user) (text "human") (text "Local User (" ++ user ++ text ")")
      none

abbrev pub token_principal : Result Principal
token_principal =
    new_principal (text "token:execution") (text "service") (text "Execution Token") none

abbrev pub truth_of : Option Attribute → Bool
truth_of none = false
truth_of (some v) = v.truthy

-- `getattr(o, name, None)`
abbrev pub value_of : {A : Type 0} → Option (Option A) → Option A
value_of none = none
value_of (some v) = v

abbrev first_nonempty : Str → Str → Str
first_nonempty a b = if is_empty a then b else a

abbrev user_or_empty : Option Str → Str
user_or_empty none = []
user_or_empty (some s) = s

-- `bool(getattr(state, "authenticated_with_token", False))`, and False without a state
unfoldable pub is_token : Requester → Bool
is_token q = elim (value_of q.state) [ none ↦ false | some s ↦ truth_of s.authenticated_with_token ]

-- `getattr(state, "is_loopback", None)`, and None without a state
abbrev pub state_loopback : Option RequestState → Option Attribute
state_loopback none = none
state_loopback (some s) = s.is_loopback

-- `lower` is `str.lower`, `loopback_ip` is the `is_loopback` of `ip_address`, none where that raises
-- ValueError, `getuser` is what `getpass.getuser` returns, none where it raises, and `getenv` is
-- `os.getenv`.
module _ (lower : Str → Str) (loopback_ip : Str → Option Bool) (getuser : Option Str)
    (getenv : Str → Option Str) where
  -- `_get_local_os_user`
  unfoldable pub get_local_os_user : Str
  get_local_os_user = first_nonempty (strip (user_or_empty getuser)) (
      first_nonempty (strip (user_or_empty (getenv (text "USER"))))
        (first_nonempty (strip (user_or_empty (getenv (text "USERNAME")))) (text "operator")))

  abbrev loopback_or_false : Option Bool → Bool
  loopback_or_false none = false
  loopback_or_false (some b) = b

  -- `_is_loopback_client`
  unfoldable pub is_loopback_client : Host → Bool
  is_loopback_client (no_text truthy) = false
  is_loopback_client (address host) =
      let normalized = lower (strip host) in
      if mem_str normalized (text "localhost" ∷ text "testclient" ∷ [])
      then true
      else loopback_or_false (loopback_ip normalized)

  -- `_is_loopback_client(client_host) if client_host else False`
  abbrev pub client_loopback : Option Host → Bool
  client_loopback none = false
  client_loopback (some (no_text truthy)) =
      if truthy then is_loopback_client (no_text truthy) else false
  client_loopback (some (address [])) = false
  client_loopback (some (address (c ∷ host))) = is_loopback_client (address (c ∷ host))

  -- What the server has found out, or else the address of the client
  unfoldable pub is_local : Requester → Bool
  is_local q = elim (state_loopback (value_of q.state)) [
    | none ↦ client_loopback (value_of q.client)
    | some v ↦ v.truthy
  ]

  -- The context of an HTTP request
  unfoldable pub resolve_request : Requester → Result Principal
  unfolding get_local_os_user is_token is_local
  resolve_request q =
      if not (is_token q) && is_local q then local_principal get_local_os_user else token_principal

  -- The request or another object
  unfoldable pub resolve_object : Requester → Result Principal
  resolve_object q =
      if is_some q.state || is_some q.client
      then resolve_request q
      else local_principal get_local_os_user

  -- `LocalPrincipalResolver.resolve`
  unfoldable pub resolve : RequestOrContext → Result Principal
  resolve nothing = local_principal get_local_os_user
  resolve (principal p) = ok p
  resolve (mapping none) = local_principal get_local_os_user
  resolve (mapping (some v)) = schedule_principal v.shown
  resolve (a_text s) =
      if starts_with (text "schedule:") s
      then schedule_principal (removeprefix (text "schedule:") s)
      else local_principal get_local_os_user
  resolve (request q) = resolve_scheduled q.schedule_id (resolve_object q)
