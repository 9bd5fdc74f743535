-- ===== src/Webhooks.antt =====
-- agent_os/webhooks.py: which address a webhook may connect to, the attempts of one delivery, and the
-- queue of events.
pub mod Queue
pub mod Safety
pub mod Attempts
mod Tests
use agent_os_langgraph.Prelude.{
  ℕ, zero, suc, ◌+◌, ◌≡◌, Bool, true, false, ◌&&◌, ◌||◌, not, Option, none, some, List, [], ◌∷◌,
  ◌++◌, is_empty, if◌then◌else◌, ltb, leb, ◌==◌, Result, ok, err, Error, message, ◌>>=◌, is_some,
  take,
}
use agent_os_langgraph.Text.{Str, text, str_eq, mem_str, strip}

-- What `urlparse` gives; reading an invalid port raises.
pub record UrlParts : Type 0 where
  pub scheme : Str
  pub username : Option Str
  pub password : Option Str
  pub hostname : Option Str
  pub port : Result (Option ℕ)
  pub path : Str
  pub query : Str

-- The properties of an `ipaddress` object.
pub record IpAddress : Type 0 where
  pub is_loopback : Bool
  pub is_private : Bool
  pub is_link_local : Bool
  pub is_multicast : Bool
  pub is_unspecified : Bool
  pub is_reserved : Bool
  pub is_global : Bool

unfoldable pub is_safe_ip : IpAddress → Bool
is_safe_ip ip = not (
    ip.is_loopback
    || ip.is_private
    || ip.is_link_local
    || ip.is_multicast
    || ip.is_unspecified
    || ip.is_reserved
    || not ip.is_global)

-- The configuration of a sink, as far as a connection depends on it.
pub record SinkRules : Type 0 where
  pub allowed_internal_hosts : List Str
  pub allow_insecure_http : Bool

abbrev pub at_least_one : ℕ → ℕ
at_least_one zero = 1
at_least_one (suc n) = suc n

-- Where a connection goes.
pub record Target : Type 0 where
  pub scheme : Str
  pub hostname : Str
  pub port : ℕ
  pub pinned_ip : Str
  pub path : Str

-- A value, or the reason why it is refused.
pub data Checked (Value : Type 0) : Type 0 where
  refused : (reason : Str) → Checked Value
  accepted : Value → Checked Value

abbrev pub text_or_empty : Option Str → Str
text_or_empty none = []
text_or_empty (some s) = s

-- `parsed.port or (443 if scheme == "https" else 80)`
abbrev pub default_port : Str → Option ℕ → ℕ
default_port scheme none = if str_eq scheme (text "https") then 443 else 80
default_port scheme (some zero) = if str_eq scheme (text "https") then 443 else 80
default_port scheme (some (suc p)) = suc p

abbrev pub request_path : UrlParts → Str
request_path u =
    (if is_empty u.path then text "/" else u.path)
    ++ (if is_empty u.query then [] else text "?" ++ u.query)

abbrev pub is_permitted : Bool → Option IpAddress → Option Bool
is_permitted allowed none = none
is_permitted allowed (some ip) = some (allowed || is_safe_ip ip)

-- An address in front of the others.
abbrev pub with_address : Str → Option Bool → Checked (List Str) → Checked (List Str)
with_address a none rest = refused (text "Invalid IP address '" ++ a)
with_address a (some false) rest = refused (text "Blocked unsafe/internal IP destination '" ++ a)
with_address a (some true) (refused m) = refused m
with_address a (some true) (accepted ips) = accepted (a ∷ ips)

abbrev pub pinned : UrlParts → ℕ → Checked (List Str) → Checked Target
pinned u port (refused m) = refused m
pinned u port (accepted []) = refused (text "No IP addresses found")
pinned u port (accepted (ip ∷ ips)) = accepted (record {
  scheme = u.scheme;
  hostname = text_or_empty u.hostname;
  port = port;
  pinned_ip = ip;
  path = request_path u;
})

-- One attempt: how the names resolve, and what the connection answers; `none` is an exception of it.
pub record Attempt : Type 0 where
  pub getaddrinfo : Str → ℕ → Result (List Str)
  pub answer : Target → Option ℕ

abbrev is_success_status : Option ℕ → Bool
is_success_status none = false
is_success_status (some status) = leb 200 status && ltb status 300

-- Whether the event was delivered, and the connection that was made.
abbrev pub reply_of : Attempt → Checked Target → Bool × Option Target
reply_of a (refused m) = (false, none)
reply_of a (accepted t) = (is_success_status (a.answer t), some t)

abbrev pub with_connection : Option Target → List Target → List Target
with_connection none ts = ts
with_connection (some t) ts = t ∷ ts

-- The connections of a delivery, and how it ended.
pub record Delivery : Type 0 where
  pub connections : List Target
  pub outcome : Result Bool

abbrev pub add_connection : Option Target → Delivery → Delivery
add_connection t d = record { connections = with_connection t d.connections; outcome = d.outcome }

abbrev pub after_attempt : Result (Bool × Option Target) → Delivery → Delivery
after_attempt (err e) later = record { connections = []; outcome = err e }
after_attempt (ok (true, t)) later = record {
  connections = with_connection t [];
  outcome = ok true;
}
after_attempt (ok (false, t)) later = add_connection t later

-- `lower` is `str.lower`, `urlparse` and `ip_address` are the functions of these names; an address
-- that `ip_address` refuses gives `none`.
module _ (lower : Str → Str) (urlparse : Str → Result UrlParts)
    (ip_address : Str → Option IpAddress) where
  -- `{h.strip().lower() for h in allowed_internal_hosts if h.strip()}`
  unfoldable pub allowed_hosts : List Str → List Str
  unfolding strip
  allowed_hosts [] = []
  allowed_hosts (h ∷ hs) =
      let rest = allowed_hosts hs in if is_empty (strip h) then rest else lower (strip h) ∷ rest

  abbrev pub is_allowed : SinkRules → Str → Bool
  is_allowed r host = mem_str (lower host) (allowed_hosts r.allowed_internal_hosts)

  abbrev pub checked_parts : SinkRules → UrlParts → Checked UrlParts
  checked_parts r u =
      if not (mem_str u.scheme (text "http" ∷ text "https" ∷ []))
      then refused (text "Unsupported scheme")
      else if not (is_empty (text_or_empty u.username) && is_empty (text_or_empty u.password))
      then refused (text "URLs with embedded credentials (userinfo) are not allowed.")
      else if is_empty (text_or_empty u.hostname)
      then refused (text "URL is missing a valid hostname.")
      else if str_eq u.scheme (text "http")
          && not r.allow_insecure_http
          && not (is_allowed r (text_or_empty u.hostname))
      then refused (text "Insecure HTTP webhook URLs are disallowed by default.")
      else accepted u

  -- `validate_webhook_url_syntax`; the reasons leave out the values that they quote.
  abbrev pub parsed_url : SinkRules → Result UrlParts → Checked UrlParts
  parsed_url r (err e) = refused (text "Invalid URL structure: " ++ message e)
  parsed_url r (ok u) = checked_parts r u

  unfoldable pub validate_webhook_url_syntax : SinkRules → Str → Checked UrlParts
  unfolding allowed_hosts
  validate_webhook_url_syntax r url = parsed_url r (urlparse url)

  -- The loop over the resolved addresses: all of them, or the first reason.
  unfoldable pub valid_ips : Bool → List Str → Checked (List Str)
  unfolding is_safe_ip
  valid_ips allowed [] = accepted []
  valid_ips allowed (a ∷ as_) =
      with_address a (is_permitted allowed (ip_address a)) (valid_ips allowed as_)

  abbrev pub resolved : SinkRules → UrlParts → ℕ → Result (List Str) → Checked Target
  resolved r u port (err e) = refused (text "DNS resolution failed: " ++ message e)
  resolved r u port (ok addresses) =
      pinned u port (valid_ips (is_allowed r (text_or_empty u.hostname)) addresses)

  abbrev pub target_of :
      (Str → ℕ → Result (List Str)) → SinkRules → Checked UrlParts → Result (Checked Target)
  target_of getaddrinfo r (refused m) = ok (refused m)
  target_of getaddrinfo r (accepted u) = do
    given ← u.port
    ok (
        let port = default_port u.scheme given in
        resolved r u port (getaddrinfo (text_or_empty u.hostname) port))

  -- `_resolve_and_validate_target`: `getaddrinfo` is what name resolution answers this time.
  unfoldable pub resolve_and_validate_target :
      (Str → ℕ → Result (List Str)) → SinkRules → Str → Result (Checked Target)
  unfolding validate_webhook_url_syntax valid_ips
  resolve_and_validate_target getaddrinfo r url =
      target_of getaddrinfo r (validate_webhook_url_syntax r url)

  -- `_send_single_request`; a redirect is no success, and no other request follows it.
  unfoldable pub send_single_request : Attempt → SinkRules → Str → Result (Bool × Option Target)
  unfolding resolve_and_validate_target
  send_single_request a r url =
      resolve_and_validate_target a.getaddrinfo r url >>= (λ t. ok (reply_of a t))

  -- `_send_with_retry`, with the attempts that are left
  unfoldable pub send_with_retry : SinkRules → Str → List Attempt → Delivery
  unfolding send_single_request
  send_with_retry r url [] = record { connections = []; outcome = ok false }
  send_with_retry r url (a ∷ as_) =
      after_attempt (send_single_request a r url) (send_with_retry r url as_)

  -- `range(self.max_retries)`, which is `max(1, max_retries)`
  unfoldable pub deliver : SinkRules → Str → ℕ → List Attempt → Delivery
  unfolding send_with_retry
  deliver r url max_retries attempts =
      send_with_retry r url (take (at_least_one max_retries) attempts)

  abbrev pub every_address_safe : Str → Result (List Str) → Checked Bool
  every_address_safe host (err e) = refused (text "Could not resolve hostname")
  every_address_safe host (ok []) = refused (text "No IP addresses resolved")
  every_address_safe host (ok (a ∷ as_)) = safe_if (valid_ips false (a ∷ as_))
    where
      safe_if : Checked (List Str) → Checked Bool
      safe_if (refused m) = refused m
      safe_if (accepted ips) = accepted true

  abbrev pub url_of :
      (Str → ℕ → Result (List Str)) → SinkRules → Checked UrlParts → Result (Checked Bool)
  url_of getaddrinfo r (refused m) = ok (refused m)
  url_of getaddrinfo r (accepted u) =
      if is_allowed r (text_or_empty u.hostname)
      then ok (accepted true)
      else (u.port >>= (λ given. ok (
          every_address_safe (text_or_empty u.hostname)
            (getaddrinfo (text_or_empty u.hostname) (default_port u.scheme given)))))

  -- `is_safe_webhook_url`
  unfoldable pub is_safe_webhook_url :
      (Str → ℕ → Result (List Str)) → SinkRules → Str → Result (Checked Bool)
  unfolding validate_webhook_url_syntax valid_ips
  is_safe_webhook_url getaddrinfo r url = url_of getaddrinfo r (validate_webhook_url_syntax r url)
