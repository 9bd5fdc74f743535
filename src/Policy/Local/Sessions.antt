-- ===== src/Policy/Local/Sessions.antt =====
-- agent_os/policy.py, `LocalPolicy._session_approved`: a dict from session keys to sets of
-- permission keys.
use agent_os_langgraph.Prelude.{
  ◌≡◌, refl, ap, Bool, true, false, ◌||◌, ◌&&◌, not, List, [], inl, inr, Bool-cases, ◌∙◌, ◌∷◌,
  arith, if◌then◌else◌,
}
use agent_os_langgraph.Text.{Str, str_eq, str_eq_iff, mem_str}

abbrev pub Grants : Type 0
Grants = List (Str × List Str)

-- `set.add`
abbrev add : Str → List Str → List Str
add k ks = if mem_str k ks then ks else k ∷ ks

-- `key in self._session_approved.get(session, set())`
unfoldable pub is_granted : Str → Str → Grants → Bool
is_granted session key [] = false
is_granted session key ((j, ks) ∷ g) =
    if str_eq session j then mem_str key ks else is_granted session key g

unfoldable pub approve_session : Str → Str → Grants → Grants
approve_session session key [] = (session, add key []) ∷ []
approve_session session key ((j, ks) ∷ g) =
    if str_eq session j then (j, add key ks) ∷ g else (j, ks) ∷ approve_session session key g

-- `dict.pop(session, None)`
unfoldable pub clear_session : Str → Grants → Grants
clear_session session [] = []
clear_session session ((j, ks) ∷ g) =
    if str_eq session j then g else (j, ks) ∷ clear_session session g

mem_str-same : (k j : Str) (ks : List Str) → str_eq k j ≡ true → mem_str k ks ≡ mem_str j ks
mem_str-same k j ks h = ap (λ (x : Str). mem_str x ks) ((str_eq_iff k j).0 h)

mem_str-nil : (k : Str) → mem_str k [] ≡ false
unfolding mem_str
mem_str-nil k = refl

mem_str-add : (k j : Str) (ks : List Str) → mem_str j (add k ks) ≡ (str_eq k j || mem_str j ks)
unfolding mem_str
mem_str-add k j ks = ground (arith, str_eq_iff k j, str_eq_iff j k, mem_str-same k j ks)

-- A grant adds the one pair of a session and a key, and changes nothing else.
pub is_granted-approve :
    (session key : Str) (g : Grants) (other_session other_key : Str)
    → is_granted other_session other_key (approve_session session key g) ≡ (
        str_eq session other_session && str_eq key other_key
        || is_granted other_session other_key g)
unfolding is_granted approve_session
is_granted-approve session key [] t k =
    ground (arith, str_eq_iff session t, str_eq_iff t session, mem_str-add key k [], mem_str-nil k)
is_granted-approve session key ((j, ks) ∷ g) t k = ground (
  arith,
  str_eq_iff session t,
  str_eq_iff session j,
  str_eq_iff t j,
  mem_str-add key k ks,
  is_granted-approve session key g t k,
)

-- No session stands twice.
abbrev pub IsDict : Grants → Type 0
IsDict [] = Unit
IsDict ((j, ks) ∷ g) = ((k : Str) → is_granted j k g ≡ false) × IsDict g

pub approve-IsDict :
    (session key : Str) (g : Grants) → IsDict g → IsDict (approve_session session key g)
unfolding approve_session
approve-IsDict session key [] h = ((λ k. unfold is_granted in refl), tt)
approve-IsDict session key ((j, ks) ∷ g) h = elim (Bool-cases (str_eq session j)) [
  | inl same ↦ rw same h
  | inr differs ↦ rw differs (
    (λ k. is_granted-approve session key g j k ∙ ground (arith, h.0 k, differs)),
    approve-IsDict session key g h.1,
  )
]

-- Where no session stands twice in the dict, a cleared session has no grant left, and no other
-- session loses one.
pub is_granted-clear :
    (session : Str) (g : Grants) (other_session key : Str)
    → IsDict g
    → is_granted other_session key (clear_session session g)
      ≡ (not (str_eq session other_session) && is_granted other_session key g)
unfolding is_granted clear_session
is_granted-clear session [] t k h = ground arith
is_granted-clear session ((j, ks) ∷ g) t k h = ground (
  arith,
  str_eq_iff session t,
  str_eq_iff session j,
  str_eq_iff t j,
  h.0 k,
  is_granted-clear session g t k h.1,
)
