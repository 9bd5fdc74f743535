-- ===== src/Schedules/Fields.antt =====
-- `_validate_schedule_fields`, `validate_app_callback_url` and `validate_cron`. `urlsplit`, the zone
-- table, croniter and the two case mappings of Unicode are arguments; the messages leave out the
-- values that they show.
use agent_os_langgraph.Prelude.{
  ℕ, ◌+◌, Bool, true, false, ◌&&◌, ◌||◌, not, Option, none, some, List, [], ◌∷◌, ◌==◌, all, any,
  is_empty, if◌then◌else◌, Result, ok, err, value_error, key_error, ◌>>=◌, ◌>>◌,
}
use agent_os_langgraph.Text.{Str, text, str_eq, mem_str, is_space, strip}
use agent_os_langgraph.Schemas.{Value, str}
use agent_os_langgraph.Schedules.{ScheduleKind, run, brief, app_callback}
use agent_os_langgraph.Recurrence.{TriggerKind, cron, interval, parse_interval}

-- A value of a payload: `None`, a text, a dict of any objects, or another object with its truth.
pub data Field : Type 0 where
  missing : Field
  string : Str → Field
  mapping : List (Value × Value) → Field
  object : Bool → Str → Field

abbrev pub Payload : Type 0
Payload = List (Str × Field)

-- `payload.get(k)`, with `None` for a missing key
unfoldable pub field : Str → Payload → Field
field k [] = missing
field k ((j, v) ∷ p) = if str_eq k j then v else field k p

-- `k in payload`
unfoldable pub has_field : Str → Payload → Bool
has_field k [] = false
has_field k ((j, v) ∷ p) = str_eq k j || has_field k p

-- `payload[k] = v`
unfoldable pub set_field : Str → Field → Payload → Payload
set_field k v [] = (k, v) ∷ []
set_field k v ((j, w) ∷ p) = if str_eq k j then (j, v) ∷ p else (j, w) ∷ set_field k v p

-- `bool(v)`
abbrev pub truth : Field → Bool
truth missing = false
truth (string s) = not (is_empty s)
truth (mapping m) = not (is_empty m)
truth (object b shown) = b

-- No key but these.
unfoldable pub only_keys : List Str → Payload → Bool
only_keys ks [] = true
only_keys ks ((k, v) ∷ p) = mem_str k ks && only_keys ks p

-- What `urlsplit` finds, where neither it nor the port raises.
pub record Url : Type 0 where
  pub scheme : Str
  pub hostname : Option Str

-- The code of other packages that the validation calls.
pub record Outside : Type 0 where
  pub digit : ℕ → Option ℕ
  pub lower : Str → Str
  pub upper : Str → Str
  pub urlsplit : Str → Result Url
  pub zone : Str → Result (Unit {0})
  pub croniter : Str → Result (Unit {0})

abbrev pub invalid {ℓ} : {A : Type ℓ} → Result A
invalid = err (value_error (text "Invalid schedule"))

abbrev pub require : Bool → Result (Unit {0})
require b = if b then ok tt else invalid

-- `except (KeyError, ValueError) as exc: raise ValueError(…)`
abbrev pub as_value_error : Result (Unit {0}) → Result (Unit {0})
as_value_error (ok done) = ok done
as_value_error (err (value_error m)) = invalid
as_value_error (err (key_error m)) = invalid
as_value_error (err e) = err e

-- `len(s.split())`; the flag says whether the character before was in a word.
unfoldable pub count_words : Bool → Str → ℕ
unfolding is_space
count_words in_word [] = 0
count_words in_word (c ∷ s) =
    let rest = count_words (not (is_space c)) s in if in_word || is_space c then rest else rest + 1

abbrev pub has_host : Option Str → Bool
has_host none = false
has_host (some h) = not (is_empty h)

abbrev pub http_schemes : List Str
http_schemes = text "http" ∷ text "https" ∷ []

-- `ALLOWED_HTTP_METHODS`
abbrev pub allowed_http_methods : List Str
allowed_http_methods = text "GET" ∷ text "POST" ∷ text "PUT" ∷ text "PATCH" ∷ text "DELETE" ∷ []

-- The keys of a payload of each kind.
abbrev pub payload_keys : ScheduleKind → List Str
payload_keys run = text "task" ∷ text "workspace" ∷ []
payload_keys brief = []
payload_keys app_callback = text "url" ∷ text "method" ∷ text "headers" ∷ text "body" ∷ []

abbrev pub is_text : Value → Bool
is_text (str s) = true
is_text _ = false

-- `None`, or a dict of texts to texts
abbrev pub are_headers : Field → Bool
are_headers missing = true
are_headers (mapping m) = all (λ e. is_text e.0 && is_text e.1) m
are_headers _ = false

-- `None`, or a dict
abbrev pub is_body : Field → Bool
is_body missing = true
is_body (mapping m) = true
is_body _ = false

module _ (out : Outside) where
  -- `except ValueError as exc: raise ValueError(message) from exc`, and the tests of the parts
  abbrev pub checked_url : Str → Result Url → Result Str
  checked_url value (ok u) =
      if mem_str (out.lower u.scheme) http_schemes
        && has_host u.hostname
        && not (any is_space value)
      then ok value
      else invalid
  checked_url value (err (value_error m)) = invalid
  checked_url value (err e) = err e

  unfoldable pub validate_app_callback_url : Field → Result Str
  validate_app_callback_url (string value) = checked_url (strip value) (out.urlsplit (strip value))
  validate_app_callback_url _ = invalid

  unfoldable pub validate_cron : Str → Str → Result (Unit {0})
  unfolding count_words
  validate_cron expression timezone = do
    as_value_error (out.zone timezone)
    require (count_words false (strip expression) == 5)
    as_value_error (out.croniter expression)

  unfoldable pub validate_trigger : TriggerKind → Str → Str → Result (Unit {0})
  unfolding validate_cron
  validate_trigger cron value timezone = validate_cron value timezone
  validate_trigger interval value timezone = do
    delta ← parse_interval out.digit value
    require (str_eq timezone (text "UTC"))

  -- `payload.get("method") or "POST"`, in upper case
  abbrev pub method_of : Field → Result Str
  method_of missing = ok (text "POST")
  method_of (string m) =
      if is_empty m
      then ok (text "POST")
      else if mem_str (out.upper m) allowed_http_methods
      then ok (out.upper m)
      else invalid
  method_of (mapping m) = if is_empty m then ok (text "POST") else invalid
  method_of (object b shown) = if b then invalid else ok (text "POST")

  -- The checks of a callback, which write the stripped URL and the method back.
  unfoldable pub validate_callback : Payload → Result Payload
  unfolding set_field
  validate_callback p = do
    require (truth (field (text "url") p))
    url ← validate_app_callback_url (field (text "url") p)
    let p1 = set_field (text "url") (string url) p
    method ← method_of (field (text "method") p1)
    let p2 = set_field (text "method") (string method) p1
    require (are_headers (field (text "headers") p2))
    require (is_body (field (text "body") p2))
    ok p2

  unfoldable pub validate_payload : ScheduleKind → Payload → Result Payload
  unfolding validate_callback
  validate_payload run p = do
    require (only_keys (payload_keys run) p)
    require (has_field (text "task") p)
    ok p
  validate_payload brief p = do require (only_keys (payload_keys brief) p); ok p
  validate_payload app_callback p = do
    require (only_keys (payload_keys app_callback) p)
    validate_callback p

  -- `ALLOWED_KINDS` and `ALLOWED_TRIGGER_KINDS`
  abbrev pub kind_of : Str → Result ScheduleKind
  kind_of s =
      if str_eq s (text "run")
      then ok run
      else if str_eq s (text "brief")
      then ok brief
      else if str_eq s (text "app_callback")
      then ok app_callback
      else invalid

  abbrev pub trigger_kind_of : Str → Result TriggerKind
  trigger_kind_of s =
      if str_eq s (text "cron")
      then ok cron
      else if str_eq s (text "interval")
      then ok interval
      else invalid

  -- The kinds and the payload as they are stored.
  unfoldable pub validate_schedule_fields :
      Str → Str → Str → Str → Payload → Result (ScheduleKind × TriggerKind × Payload)
  unfolding validate_trigger validate_payload
  validate_schedule_fields kind trigger_kind trigger_value timezone payload = do
    k ← kind_of kind
    t ← trigger_kind_of trigger_kind
    validate_trigger t trigger_value timezone
    p ← validate_payload k payload
    ok (k, t, p)
