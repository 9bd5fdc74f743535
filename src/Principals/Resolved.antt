-- ===== src/Principals/Resolved.antt =====
-- agent_os/principal.py: whom LocalPrincipalResolver takes for a human at this machine.
use agent_os_langgraph.Prelude.{
  ◌≡◌, refl, Bool, true, false, ◌&&◌, ◌||◌, not, Option, none, some, ◌++◌, is_empty, is_some,
  Result, ok, Bool-cases, inl, inr,
}
use agent_os_langgraph.Text.{Str, text, str_eq, starts_with, is_space, lstrip_by, rstrip, strip}
use agent_os_langgraph.Text.Trim.{strip_solid}
use agent_os_langgraph.Principals.{
  Principal, new_principal, Attribute, Requester, RequestOrContext, nothing, principal, mapping,
  a_text, request, schedule_principal, resolve_scheduled, local_principal, token_principal,
  truth_of, is_token, is_local, get_local_os_user, resolve_request, resolve_object, resolve,
}

-- What `__post_init__` promises.
abbrev pub IsNamed : Principal → Type 0
IsNamed p =
    (is_empty (strip p.id) ≡ false)
    × (is_empty (strip p.kind) ≡ false)
    × (is_empty (strip p.display) ≡ false)

abbrev pub is_human : Principal → Bool
is_human p = str_eq p.kind (text "human")

-- A call that gives a well-formed principal, which is human or not.
abbrev pub Gives : Result Principal → Bool → Type 0
Gives r human = (p : Principal) × (r ≡ ok p) × IsNamed p × (is_human p ≡ human)

new_principal-ok :
    (p : Principal) → IsNamed p → new_principal p.id p.kind p.display p.on_behalf_of ≡ ok p
unfolding new_principal
new_principal-ok p (i, k, d) = rw i (rw k (rw d refl))

new_principal-Gives :
    (p : Principal)
    → IsNamed p
    → Gives (new_principal p.id p.kind p.display p.on_behalf_of) (is_human p)
new_principal-Gives p n = (p, new_principal-ok p n, n, refl)

schedule_principal-Gives : (s : Str) → Gives (schedule_principal s) false
unfolding schedule_principal text str_eq strip lstrip_by rstrip is_space
schedule_principal-Gives s =
    new_principal-Gives
      record {
        id = text "schedule:" ++ strip s;
        kind = text "schedule";
        display = text "Schedule (" ++ strip s ++ text ")";
        on_behalf_of = none;
      }
      (
        strip_solid (text "schedule:" ++ strip s) refl,
        refl,
        strip_solid (text "Schedule (" ++ strip s ++ text ")") refl,
      )

resolve_scheduled-Gives :
    (o : Option Attribute) (r : Result Principal) (human : Bool)
    → Gives r human
    → Gives (resolve_scheduled o r) (not (truth_of o) && human)
resolve_scheduled-Gives none r human g = g
resolve_scheduled-Gives (some v) r human g = elim (Bool-cases v.truthy) [
  | inl h ↦ rw h (schedule_principal-Gives v.shown)
  | inr h ↦ rw h g
]

local_principal-Gives : (user : Str) → Gives (local_principal user) true
unfolding text str_eq strip lstrip_by rstrip is_space
local_principal-Gives user =
    new_principal-Gives
      record {
        id = text "local:" ++ user;
        kind = text "human";
        display = text "Local User (" ++ user ++ text ")";
        on_behalf_of = none;
      }
      (
        strip_solid (text "local:" ++ user) refl,
        refl,
        strip_solid (text "Local User (" ++ user ++ text ")") refl,
      )

token_principal-Gives : Gives token_principal false
unfolding text str_eq strip lstrip_by rstrip is_space
token_principal-Gives =
    new_principal-Gives
      record {
        id = text "token:execution";
        kind = text "service";
        display = text "Execution Token";
        on_behalf_of = none;
      }
      (refl, refl, refl)

-- A principal that is passed has been constructed before.
abbrev pub IsConstructed : RequestOrContext → Type 0
IsConstructed (principal p) = IsNamed p
IsConstructed _ = Unit

abbrev pub is_http : Requester → Bool
is_http q = is_some q.state || is_some q.client

module _ (lower : Str → Str) (loopback_ip : Str → Option Bool) (getuser : Option Str)
    (getenv : Str → Option Str) where
  -- Which contexts stand for a human: a human that is passed, the command line, and a request that no
  -- schedule made, without a token and from this machine.
  abbrev pub is_operator : RequestOrContext → Bool
  is_operator nothing = true
  is_operator (principal p) = is_human p
  is_operator (mapping schedule_id) = not (is_some schedule_id)
  is_operator (a_text s) = not (starts_with (text "schedule:") s)
  is_operator (request q) =
      not (truth_of q.schedule_id)
      && (not (is_http q) || (not (is_token q) && is_local lower loopback_ip getuser getenv q))

  resolve_request-Gives :
      (q : Requester)
      → Gives
          (resolve_request lower loopback_ip getuser getenv q)
          (not (is_token q) && is_local lower loopback_ip getuser getenv q)
  unfolding resolve_request
  resolve_request-Gives q =
      elim (Bool-cases (not (is_token q) && is_local lower loopback_ip getuser getenv q)) [
        | inl h ↦ rw h (local_principal-Gives (get_local_os_user lower loopback_ip getuser getenv))
        | inr h ↦ rw h token_principal-Gives
      ]

  resolve_object-Gives :
      (q : Requester)
      → Gives
          (resolve_object lower loopback_ip getuser getenv q)
          (not (is_http q) || (not (is_token q) && is_local lower loopback_ip getuser getenv q))
  unfolding resolve_object
  resolve_object-Gives q = elim (Bool-cases (is_http q)) [
    | inl h ↦ rw h (resolve_request-Gives q)
    | inr h ↦ rw h (local_principal-Gives (get_local_os_user lower loopback_ip getuser getenv))
  ]

  -- The resolver always gives a principal, with an id, a kind and a display name that are not blank,
  -- provided that a principal that is passed has them; and the principal is a human exactly for a
  -- human that is passed, for a context without a schedule that is no request, and for a request
  -- without a schedule and without a token that comes from this machine.
  pub resolve_lem :
      (c : RequestOrContext)
      → IsConstructed c
      → Gives (resolve lower loopback_ip getuser getenv c) (is_operator c)
  unfolding resolve
  resolve_lem nothing n = local_principal-Gives (get_local_os_user lower loopback_ip getuser getenv)
  resolve_lem (principal p) n = (p, refl, n, refl)
  resolve_lem (mapping none) n =
      local_principal-Gives (get_local_os_user lower loopback_ip getuser getenv)
  resolve_lem (mapping (some v)) n = schedule_principal-Gives v.shown
  resolve_lem (a_text s) n = elim (Bool-cases (starts_with (text "schedule:") s)) [
    | inl h ↦ rw h (schedule_principal-Gives _)
    | inr h ↦ rw h (local_principal-Gives (get_local_os_user lower loopback_ip getuser getenv))
  ]
  resolve_lem (request q) n = resolve_scheduled-Gives q.schedule_id _ _ (resolve_object-Gives q)
