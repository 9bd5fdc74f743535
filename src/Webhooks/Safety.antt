-- ===== src/Webhooks/Safety.antt =====
-- agent_os/webhooks.py: the addresses to which a sink connects.
use agent_os_langgraph.Prelude.{
  ℕ, ◌≡◌, refl, ap, ◌∙◌, sym, subst, Bool, true, false, ◌||◌, Option, none, some, List, [], ◌∷◌,
  is_empty, Result, ok, err, arith, Result-cases, inl, inr, All, ◌>>=◌,
}
use agent_os_langgraph.Text.{Str, text, str_eq, mem_str}
use agent_os_langgraph.Webhooks.{
  UrlParts, IpAddress, is_safe_ip, SinkRules, Target, Checked, refused, accepted, default_port,
  is_permitted, with_address, is_allowed, checked_parts, parsed_url, validate_webhook_url_syntax,
  valid_ips, pinned, resolved, target_of, resolve_and_validate_target, Attempt, reply_of,
  send_single_request, text_or_empty,
}

with_address_accepted :
    (a : Str) (o : Option Bool) (c : Checked (List Str)) (ips : List Str)
    → with_address a o c ≡ accepted ips
    → (o ≡ some true) × ((tail : List Str) × ((c ≡ accepted tail) × (ips ≡ a ∷ tail)))
with_address_accepted a none c ips h = absurd (cc)
with_address_accepted a (some false) c ips h = absurd (cc)
with_address_accepted a (some true) (refused m) ips h = absurd (cc)
with_address_accepted a (some true) (accepted tail) ips h = (refl, (tail, (refl, cc)))

accepted_value : {Value : Type 0} {v w : Value} → accepted v ≡ accepted w → v ≡ w
accepted_value h = cc

answered_target :
    (a : Attempt) (t' t : Target) (b : Bool)
    → ok (reply_of a (accepted t')) ≡ ok (b, some t)
    → t' ≡ t
answered_target a t' t b h = cc

permitted_true :
    (b : Bool) (o : Option IpAddress)
    → is_permitted b o ≡ some true
    → (elim o [ none ↦ false | some ip ↦ b || is_safe_ip ip ]) ≡ true
permitted_true b none h = absurd (cc)
permitted_true b (some ip) h = ground arith

module _ (lower : Str → Str) (urlparse : Str → Result UrlParts)
    (ip_address : Str → Option IpAddress) (r : SinkRules) where
  -- An address to which a host may be connected: it is one, and safe unless the host is allowed.
  abbrev pub may_connect : Str → Str → Bool
  may_connect host a = elim (ip_address a) [
    | none ↦ false
    | some ip ↦ is_allowed lower urlparse ip_address r host || is_safe_ip ip
  ]

  -- The scheme is https, or http was allowed for all hosts or for this one.
  abbrev pub scheme_ok : Target → Bool
  scheme_ok t =
      str_eq t.scheme (text "https")
      || r.allow_insecure_http
      || is_allowed lower urlparse ip_address r t.hostname

  valid_ips_accepted :
      (host : Str) (as_ ips : List Str)
      → valid_ips lower urlparse ip_address (is_allowed lower urlparse ip_address r host) as_
        ≡ accepted ips
      → (ips ≡ as_) × All (λ a. may_connect host a ≡ true) as_
  unfolding valid_ips
  valid_ips_accepted host [] ips h = (cc, tt)
  valid_ips_accepted host (a ∷ as_) ips h =
      let (yes_, (tail, (rest, whole))) = with_address_accepted a _ _ ips h in
      let (same, all_ok) = valid_ips_accepted host as_ tail rest in
      (
        whole ∙ ap (λ (x : List Str). a ∷ x) same,
        (permitted_true (is_allowed lower urlparse ip_address r host) (ip_address a) yes_, all_ok),
      )

  checked_parts_accepted :
      (u v : UrlParts)
      → checked_parts lower urlparse ip_address r u ≡ accepted v
      → (v ≡ u)
        × ((str_eq u.scheme (text "https")
              || r.allow_insecure_http
              || is_allowed lower urlparse ip_address r (text_or_empty u.hostname))
            ≡ true)
        × (is_empty (text_or_empty u.hostname) ≡ false)
  unfolding mem_str
  checked_parts_accepted u v h = (ground arith, ground arith, ground arith)

  -- What is known of a target: its host and scheme are permitted, the pinned address is the first of
  -- those that the host was resolved to, and it may be connected to, like all the others.
  abbrev pub Permitted : (Str → ℕ → Result (List Str)) → Target → Type 0
  Permitted getaddrinfo t =
      (rest : List Str) × (getaddrinfo t.hostname t.port ≡ ok (t.pinned_ip ∷ rest))
      × All (λ a. may_connect t.hostname a ≡ true) (t.pinned_ip ∷ rest)
      × (scheme_ok t ≡ true)
      × (is_empty t.hostname ≡ false)

  resolved_accepted :
      (getaddrinfo : Str → ℕ → Result (List Str)) (u : UrlParts) (port : ℕ) (t : Target)
      → ((str_eq u.scheme (text "https")
            || r.allow_insecure_http
            || is_allowed lower urlparse ip_address r (text_or_empty u.hostname))
          ≡ true)
      → is_empty (text_or_empty u.hostname) ≡ false
      → resolved lower urlparse ip_address r u port (getaddrinfo (text_or_empty u.hostname) port)
        ≡ accepted t
      → Permitted getaddrinfo t
  resolved_accepted getaddrinfo u port t s host h =
      go (getaddrinfo (text_or_empty u.hostname) port) refl h
    where
      pin :
          (as_ : List Str)
          → getaddrinfo (text_or_empty u.hostname) port ≡ ok as_
          → (c : Checked (List Str))
          → valid_ips lower urlparse ip_address
              (is_allowed lower urlparse ip_address r (text_or_empty u.hostname))
              as_
            ≡ c
          → pinned u port c ≡ accepted t
          → Permitted getaddrinfo t
      pin as_ e (refused m) v k = absurd (cc)
      pin as_ e (accepted []) v k = absurd (cc)
      pin as_ e (accepted (ip ∷ ips)) v k =
          let (same, all_ok) = valid_ips_accepted (text_or_empty u.hostname) as_ (ip ∷ ips) v in
          subst (λ (x : Target). Permitted getaddrinfo x) (accepted_value k)
            (
              ips,
              e ∙ ap (λ (x : List Str). ok x) (sym same),
              subst (λ (x : List Str). All (λ a. may_connect (text_or_empty u.hostname) a ≡ true) x)
                  (sym same) all_ok,
              s,
              host,
            )

      go :
          (o : Result (List Str))
          → getaddrinfo (text_or_empty u.hostname) port ≡ o
          → resolved lower urlparse ip_address r u port o ≡ accepted t
          → Permitted getaddrinfo t
      go (err x) e k = absurd (cc)
      go (ok as_) e k = pin as_ e _ refl k

  parsed_accepted :
      (o : Result UrlParts) (u : UrlParts)
      → parsed_url lower urlparse ip_address r o ≡ accepted u
      → ((str_eq u.scheme (text "https")
            || r.allow_insecure_http
            || is_allowed lower urlparse ip_address r (text_or_empty u.hostname))
          ≡ true)
        × (is_empty (text_or_empty u.hostname) ≡ false)
  parsed_accepted (err e) u h = absurd (cc)
  parsed_accepted (ok v) u h =
      let (same, s, host) = checked_parts_accepted v u h in rw same (s, host)

  -- Every connection of an attempt goes to the first of the addresses to which its host resolves in
  -- that attempt; each of these addresses is safe, or the host is an allowed internal one; and the
  -- scheme is https unless http was allowed.
  pub send_single_request-Permitted :
      (a : Attempt) (url : Str) (delivered : Bool) (t : Target)
      → send_single_request lower urlparse ip_address a r url ≡ ok (delivered, some t)
      → Permitted a.getaddrinfo t
  unfolding send_single_request resolve_and_validate_target validate_webhook_url_syntax
  send_single_request-Permitted a url delivered t h =
      syntax (parsed_url lower urlparse ip_address r (urlparse url)) refl h
    where
      port_of :
          (u : UrlParts)
          → ((str_eq u.scheme (text "https")
                || r.allow_insecure_http
                || is_allowed lower urlparse ip_address r (text_or_empty u.hostname))
              ≡ true)
            × (is_empty (text_or_empty u.hostname) ≡ false)
          → (p : ℕ) (c : Checked Target)
          → resolved lower urlparse ip_address r u p (a.getaddrinfo (text_or_empty u.hostname) p)
            ≡ c
          → ok (reply_of a c) ≡ ok (delivered, some t)
          → Permitted a.getaddrinfo t
      port_of u (s, host) p (refused m) e k = absurd (cc)
      port_of u (s, host) p (accepted t') e k =
          subst (λ (x : Target). Permitted a.getaddrinfo x) (answered_target a t' t delivered k)
            (resolved_accepted a.getaddrinfo u p t' s host e)

      syntax :
          (c : Checked UrlParts)
          → parsed_url lower urlparse ip_address r (urlparse url) ≡ c
          → target_of lower urlparse ip_address a.getaddrinfo r c >>= (λ x. ok (reply_of a x))
            ≡ ok (delivered, some t)
          → Permitted a.getaddrinfo t
      syntax (refused m) e k = absurd (cc)
      syntax (accepted u) e k = elim (Result-cases u.port) [
        | inl (p, given) ↦
            port_of u (parsed_accepted (urlparse url) u e) (default_port u.scheme p) _ refl
              (rw given at k)
        | inr (x, bad) ↦ absurd (let k' = rw bad at k in cc)
      ]
