-- ===== src/Policy/Local.antt =====
-- agent_os/policy.py, `class LocalPolicy`: the session grants that all its instances share, and
-- `evaluate`.
pub mod Sessions
pub mod Floor
pub mod Unchanged
use agent_os_langgraph.Prelude.{
  ℕ, ◌≡◌, refl, Bool, true, false, ◌&&◌, ◌||◌, Option, none, some, List, [], ◌∷◌, ◌++◌, ◌==◌,
  if◌then◌else◌, Result, ok, err,
}
use agent_os_langgraph.Text.{Str, text, str_eq, mem_str, starts_with, lstrip_by}
use agent_os_langgraph.Permissions.{Effect, always_approve, always_deny, PermissionRule, RuleStore}
use agent_os_langgraph.Schemas.{
  Value, to_str, Arguments, get_arg, SideEffect, read, write, none_, ActionProposal, Verdict, allow,
  deny, require_approval, PolicyDecision, side_effect_name, is_write,
}
use agent_os_langgraph.Policy.{derive_tier, is_high}
use agent_os_langgraph.Policy.Key.{derive_permission_key}
use Sessions.{Grants, is_granted}

pub data Mode : Type 0 where
  manual smart off : Mode

abbrev pub is_off : Mode → Bool
is_off off = true
is_off _ = false

-- What an instance does not share: its mode and the session that it serves.
pub record LocalPolicy : Type 0 where
  pub mode : Mode
  pub session_key : Option Str

-- `mode not in ("manual", "smart", "off")` falls back to manual.
unfoldable pub parse_mode : Str → Mode
parse_mode s =
    if str_eq s (text "off") then off else if str_eq s (text "smart") then smart else manual

unfoldable pub with_session : Option Str → LocalPolicy → LocalPolicy
with_session k self = record self { session_key = k }

unfoldable pub decided : Verdict → Str → Str → PolicyDecision
decided v id reason = record { decision = v; policy_id = id; reason = reason }

unfoldable pub by_taxonomy : Verdict → ActionProposal → PolicyDecision
unfolding decided
by_taxonomy v p =
    decided v (text "default") (text "Default taxonomy for " ++ side_effect_name p.side_effect)

-- `ref.lstrip("/")`
abbrev normalized_ref : Str → Str
normalized_ref ref = lstrip_by (λ c. c == b'/') ref

-- A ref below one of two folders.
unfoldable pub is_under : Str → Str → Str → Bool
is_under a b ref = starts_with a (normalized_ref ref) || starts_with b (normalized_ref ref)

unfoldable pub is_log : Str → Bool
is_log = is_under (text "AI/Logs/") (text "agentos/logs/")

unfoldable pub is_brief : Str → Bool
is_brief = is_under (text "AI/Briefs/") (text "agentos/briefs/")

-- `str(arguments.get("mode", ""))`
abbrev mode_text : Option Value → Str
mode_text none = []
mode_text (some v) = to_str v

unfoldable pub taxonomy : SideEffect → Verdict
taxonomy read = allow
taxonomy none_ = allow
taxonomy _ = require_approval

-- Step 5
unfoldable pub by_default : ActionProposal → PolicyDecision
unfolding by_taxonomy taxonomy
by_default p = by_taxonomy (taxonomy p.side_effect) p

-- Step 4, for a write with a ref
unfoldable pub builtin_write : Str → Str → ActionProposal → PolicyDecision
unfolding decided
builtin_write ref mode p =
    if is_log ref && str_eq mode (text "append")
    then decided allow (text "builtin-logs") (text "Logs can be appended automatically")
    else if is_brief ref && mem_str mode (text "append" ∷ text "create" ∷ [])
    then decided allow (text "builtin-briefs") (text "Briefs can be appended/created automatically")
    else by_default p

abbrev builtin_on : Bool → Option Value → ActionProposal → PolicyDecision
builtin_on true (some ref) p =
    builtin_write (to_str ref) (mode_text (get_arg (text "mode") p.arguments)) p
builtin_on _ _ p = by_default p

-- Steps 4 and 5
unfoldable pub builtin : ActionProposal → PolicyDecision
unfolding builtin_write by_default
builtin p = builtin_on (is_write p.side_effect) (get_arg (text "ref") p.arguments) p

abbrev pub is_deny_rule : Option PermissionRule → Bool
is_deny_rule none = false
is_deny_rule (some r) = elim r.effect [ always_deny ↦ true | always_approve ↦ false ]

abbrev pub is_approve_rule : Option PermissionRule → Bool
is_approve_rule none = false
is_approve_rule (some r) = elim r.effect [ always_deny ↦ false | always_approve ↦ true ]

abbrev pub session_allows : Option Str → Str → Grants → Bool
session_allows none key s = false
session_allows (some session) key s = is_granted session key s

module _ (S : RuleStore) where
  -- What an evaluation reads and changes: the grants and the rules, if a store is configured.
  pub record PolicyState : Type 0 where
    pub grants : Grants
    pub rules : Option S.Table

  -- `self.store.get(key)`; an exception is logged and the rule is none.
  unfoldable pub fetch_rule : Str → Option S.Table → Option PermissionRule
  fetch_rule key none = none
  fetch_rule key (some t) = elim (S.get key t) [ ok found ↦ found | err _ ↦ none ]

  -- An increment that raises is logged, and the table stays.
  abbrev keep_on_error : S.Table → Result S.Table → Option S.Table
  keep_on_error t (ok t') = some t'
  keep_on_error t (err _) = some t

  unfoldable pub count_deny : ℕ → Str → Option S.Table → Option S.Table
  count_deny now key none = none
  count_deny now key (some t) = keep_on_error t (S.increment_deny now key t)

  unfoldable pub count_approve : ℕ → Str → Option S.Table → Option S.Table
  count_approve now key none = none
  count_approve now key (some t) = keep_on_error t (S.increment_approve now key t)

  -- Steps 1 to 3, and what follows them
  unfoldable pub by_rule :
      LocalPolicy
      → ℕ
      → ActionProposal
      → Str
      → Option PermissionRule
      → PolicyState
      → PolicyDecision × PolicyState
  unfolding decided
  by_rule self now p key rule s =
      if is_deny_rule rule
      then (
        decided deny (text "learned") (text "always_deny"),
        record s { rules = count_deny now key s.rules },
      )
      else if session_allows self.session_key key s.grants
      then (decided allow (text "session") (text "Session approval for " ++ key), s)
      else if is_approve_rule rule
      then (
        decided allow (text "learned") (text "always_approve"),
        record s { rules = count_approve now key s.rules },
      )
      else (builtin p, s)

  abbrev with_key :
      LocalPolicy → ℕ → ActionProposal → Option Str → PolicyState → PolicyDecision × PolicyState
  with_key self now p none s = (builtin p, s)
  with_key self now p (some key) s = by_rule self now p key (fetch_rule key s.rules) s

  unfoldable pub evaluate :
      LocalPolicy → ℕ → ActionProposal → PolicyState → PolicyDecision × PolicyState
  unfolding by_rule by_taxonomy decided
  evaluate self now p s =
      if is_off self.mode
      then (decided allow (text "mode-off") (text "Policy enforcement disabled (mode=off)"), s)
      else if is_high (derive_tier p)
      then (by_taxonomy deny p, s)
      else with_key self now p (derive_permission_key p) s
