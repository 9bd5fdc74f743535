-- ===== src/Schedules/Callbacks.antt =====
-- agent_os/schedules.py: the payloads of callbacks that the validation accepts.
use agent_os_langgraph.Prelude.{
  ◌≡◌, refl, subst, true, false, [], ◌∷◌, arith, any, if◌then◌else◌, Result-cases, inl, inr, Result,
  ok, err, value_error, other, key_error, index_error,
}
use agent_os_langgraph.Text.{Str, text, str_eq, str_eq_iff, mem_str, is_space, strip}
use agent_os_langgraph.Schedules.Fields.{
  Field, missing, string, mapping, object, Payload, field, set_field, Outside, Url,
  allowed_http_methods, http_schemes, has_host, are_headers, is_body, validate_app_callback_url,
  checked_url, validate_callback, method_of,
}

pub field-set_field :
    (k j : Str) (v : Field) (p : Payload)
    → field k (set_field j v p) ≡ (if str_eq k j then v else field k p)
unfolding field set_field
field-set_field k j v [] = refl
field-set_field k j v ((i, w) ∷ p) =
    ground (arith, field-set_field k j v p, str_eq_iff j i, str_eq_iff k i, str_eq_iff k j)

key_differs :
    (str_eq (text "url") (text "method") ≡ false)
    × (str_eq (text "method") (text "method") ≡ true)
    × (str_eq (text "url") (text "url") ≡ true)
unfolding str_eq text
key_differs = (refl, refl, refl)

post-allowed : mem_str (text "POST") allowed_http_methods ≡ true
unfolding mem_str text str_eq
post-allowed = refl

module _ (out : Outside) where
  method_of-allowed :
      (f : Field) (m : Str) → method_of out f ≡ ok m → mem_str m allowed_http_methods ≡ true
  method_of-allowed missing m h = ground (arith, post-allowed)
  method_of-allowed (string s) m h = ground (arith, post-allowed)
  method_of-allowed (mapping s) m h = ground (arith, post-allowed)
  method_of-allowed (object b shown) m h = ground (arith, post-allowed)

  -- A URL without a space, of a web scheme and with a host.
  abbrev pub IsWebUrl : Str → Type 0
  IsWebUrl u =
      (any is_space u ≡ false)
      × ((parts : Url) × (out.urlsplit u ≡ ok parts)
          × (mem_str (out.lower parts.scheme) http_schemes ≡ true)
          × (has_host parts.hostname ≡ true))

  checked_url-IsWebUrl :
      (value : Str) (r : Result Url) (u : Str)
      → out.urlsplit value ≡ r
      → checked_url out value r ≡ ok u
      → IsWebUrl u
  checked_url-IsWebUrl value (ok url) u e h =
      let same : value ≡ u = ground arith in
      subst IsWebUrl same (ground arith, (url, e, ground arith, ground arith))
  checked_url-IsWebUrl value (err (value_error m)) u e h = absurd (cc)
  checked_url-IsWebUrl value (err (key_error m)) u e h = absurd (cc)
  checked_url-IsWebUrl value (err (index_error m)) u e h = absurd (cc)
  checked_url-IsWebUrl value (err (other m)) u e h = absurd (cc)

  url-IsWebUrl : (f : Field) (u : Str) → validate_app_callback_url out f ≡ ok u → IsWebUrl u
  unfolding validate_app_callback_url
  url-IsWebUrl missing u h = absurd (cc)
  url-IsWebUrl (string s) u h = checked_url-IsWebUrl (strip s) (out.urlsplit (strip s)) u refl h
  url-IsWebUrl (mapping s) u h = absurd (cc)
  url-IsWebUrl (object b shown) u h = absurd (cc)

  -- A callback that the scheduler can send: a web URL, and one of the five methods.
  pub record IsSendable (p : Payload) : Type 0 where
    pub url : Str
    pub method : Str
    pub url_is : field (text "url") p ≡ string url
    pub web : IsWebUrl url
    pub method_is : field (text "method") p ≡ string method
    pub method_allowed : mem_str method allowed_http_methods ≡ true
    pub headers_are : are_headers (field (text "headers") p) ≡ true
    pub body_is : is_body (field (text "body") p) ≡ true

  -- Whatever the payload and the other packages answer, an accepted callback is stored with a URL
  -- that has no space, a web scheme and a host, with a method out of the five, and with headers and
  -- a body of the right shape.
  pub validate_callback-IsSendable :
      (p p' : Payload) → validate_callback out p ≡ ok p' → IsSendable p'
  unfolding validate_callback
  validate_callback-IsSendable p p' h =
      elim (Result-cases (validate_app_callback_url out (field (text "url") p))) [
        | inr (x, e) ↦ absurd (ground arith)
        | inl (u, e) ↦
            let p1 = set_field (text "url") (string u) p in
            elim (Result-cases (method_of out (field (text "method") p1))) [
              | inr (x, e') ↦ absurd (ground arith)
              | inl (m, e') ↦
                  let p2 = set_field (text "method") (string m) p1 in
                  let same : p' ≡ p2 = ground arith in
                  rw same (record {
                    url = u;
                    method = m;
                    url_is = ground (
                      arith,
                      field-set_field (text "url") (text "method") (string m) p1,
                      field-set_field (text "url") (text "url") (string u) p,
                      key_differs,
                    );
                    web = url-IsWebUrl _ u e;
                    method_is = ground (
                      arith,
                      field-set_field (text "method") (text "method") (string m) p1,
                      key_differs,
                    );
                    method_allowed = method_of-allowed _ m e';
                    headers_are = ground arith;
                    body_is = ground arith;
                  })
            ]
      ]
