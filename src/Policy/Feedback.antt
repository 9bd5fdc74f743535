-- ===== src/Policy/Feedback.antt =====
-- agent_os/policy.py: `normalize_policy_feedback`, the five answers to a policy interrupt.
use agent_os_langgraph.Prelude.{
  Bool, false, ◌||◌, Option, none, some, [], ◌∷◌, ◌==◌, is_empty, if◌then◌else◌, Result, ok, err,
  value_error, index_error,
}
use agent_os_langgraph.Text.{Str, text, str_eq, mem_str, starts_with, is_space, strip}
use agent_os_langgraph.Text.Split.{after_colon}
use agent_os_langgraph.Schemas.{Value, str, other}

-- The normalised texts; `rejected r` is "rejected: r".
pub data Feedback : Type 0 where
  approved session always_approve always_deny : Feedback
  rejected : Str → Feedback

-- `re.sub(r"[\s-]+", "_", s)`; the flag says whether the character before was in the run.
unfoldable pub join_words : Bool → Str → Str
unfolding is_space
join_words in_run [] = []
join_words in_run (c ∷ s) =
    let gap = is_space c || c == b'-' in
    let rest = join_words gap s in if gap then (if in_run then rest else b'_' ∷ rest) else c ∷ rest

unfoldable pub or_no_reason : Str → Str
or_no_reason reason = if is_empty reason then text "no reason provided" else reason

-- `raw.split(":", 1)[1].strip()`
abbrev reject_with : Option Str → Result Feedback
reject_with none = err (index_error (text "list index out of range"))
reject_with (some s) = ok (rejected (or_no_reason (strip s)))

unfoldable pub unsupported_feedback : Str
unsupported_feedback =
    text
      "Unsupported policy feedback. Use 'approved', 'rejected: <reason>', 'session', 'always_approve', or 'always_deny'."

-- The ladder of tests, on the normalised text.
unfoldable pub choose_feedback : Str → Str → Result Feedback
choose_feedback raw normalized =
    if mem_str normalized (text "approved" ∷ text "approve" ∷ text "y" ∷ text "yes" ∷ [])
    then ok approved
    else if mem_str normalized
        (text "session" ∷ text "approve_session" ∷ text "session_approve" ∷ [])
    then ok session
    else if str_eq normalized (text "always_approve")
    then ok always_approve
    else if str_eq normalized (text "always_deny")
    then ok always_deny
    else if starts_with (text "rejected:") normalized
    then reject_with (after_colon raw)
    else if mem_str normalized (text "rejected" ∷ text "reject" ∷ text "n" ∷ text "no" ∷ [])
    then ok (rejected (text "no reason provided"))
    else err (value_error unsupported_feedback)

-- `lower` is `str.lower`, which is Unicode's table.
unfoldable pub normalize_policy_feedback : (Str → Str) → Value → Result Feedback
normalize_policy_feedback lower (other v) = err (value_error (text "Feedback must be a string"))
normalize_policy_feedback lower (str v) =
    let raw = strip v in
    if is_empty raw
    then err (value_error (text "Feedback cannot be empty"))
    else choose_feedback raw (join_words false (lower raw))
