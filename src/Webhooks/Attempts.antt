-- ===== src/Webhooks/Attempts.antt =====
-- agent_os/webhooks.py, `_send_with_retry`: the attempts of one delivery.
use agent_os_langgraph.Prelude.{
  ℕ, suc, ◌≤◌, ◌≡◌, refl, subst, Bool, true, false, Option, none, some, List, [], ◌∷◌, Result, ok,
  err, arith, All, take, length, length-take_le,
}
use agent_os_langgraph.Text.{Str}
use agent_os_langgraph.Webhooks.{
  UrlParts, IpAddress, SinkRules, Target, Attempt, Delivery, send_single_request, send_with_retry,
  after_attempt, with_connection, deliver, at_least_one,
}
use agent_os_langgraph.Webhooks.Safety.{may_connect, scheme_ok, send_single_request-Permitted}

some_value : {u v : Target} → some u ≡ some v → u ≡ v
some_value h = cc

module _ (lower : Str → Str) (urlparse : Str → Result UrlParts)
    (ip_address : Str → Option IpAddress) (r : SinkRules) (url : Str) where
  -- The pinned address and the scheme of a connection are permitted.
  abbrev pub IsCheckedTarget : Target → Type 0
  IsCheckedTarget t =
      (may_connect lower urlparse ip_address r t.hostname t.pinned_ip ≡ true)
      × (scheme_ok lower urlparse ip_address r t ≡ true)

  -- So many connections at most, all of them to checked targets.
  abbrev Bounded : ℕ → Delivery → Type 0
  Bounded n d = (length d.connections ≤ n) × All IsCheckedTarget d.connections

  with_connection_lem :
      (t : Option Target) (ts : List Target) (n : ℕ)
      → ((u : Target) → t ≡ some u → IsCheckedTarget u)
      → length ts ≤ n
      → All IsCheckedTarget ts
      → (length (with_connection t ts) ≤ suc n) × All IsCheckedTarget (with_connection t ts)
  with_connection_lem none ts n c l h = (omega arith, h)
  with_connection_lem (some u) ts n c l h = (omega arith, (c u refl, h))

  connection_checked :
      (a : Attempt) (b : Bool) (t : Option Target)
      → send_single_request lower urlparse ip_address a r url ≡ ok (b, t)
      → (u : Target) → t ≡ some u
      → IsCheckedTarget u
  connection_checked a b (some u') h u e =
      let (rest, resolved, (first, others), scheme, host) =
        send_single_request-Permitted lower urlparse ip_address r a url b u' h in
      subst (λ (x : Target). IsCheckedTarget x) (some_value e) (first, scheme)
  connection_checked a b none h u e = absurd (cc)

  after_attempt_lem :
      (a : Attempt) (later : Delivery) (n : ℕ) (x : Result (Bool × Option Target))
      → send_single_request lower urlparse ip_address a r url ≡ x
      → Bounded n later
      → Bounded (suc n) (after_attempt x later)
  after_attempt_lem a later n (err e) h b = (omega arith, tt)
  after_attempt_lem a later n (ok (true, t)) h b =
      with_connection_lem t [] n (connection_checked a true t h) (omega arith) tt
  after_attempt_lem a later n (ok (false, t)) h (l, c) =
      with_connection_lem t later.connections n (connection_checked a false t h) l c

  send_with_retry_lem :
      (as_ : List Attempt)
      → Bounded (length as_) (send_with_retry lower urlparse ip_address r url as_)
  unfolding send_with_retry
  send_with_retry_lem [] = (omega arith, tt)
  send_with_retry_lem (a ∷ as_) =
      after_attempt_lem a _ (length as_) _ refl (send_with_retry_lem as_)

  -- However names resolve and connections end from one attempt to the next, a delivery makes at most
  -- `max_retries` connections, at least one being allowed, each to a pinned address that is safe or of an
  -- allowed host, and by https unless http was allowed.
  pub deliver_lem :
      (max_retries : ℕ) (attempts : List Attempt)
      → let d = deliver lower urlparse ip_address r url max_retries attempts in
        (length d.connections ≤ at_least_one max_retries) × All IsCheckedTarget d.connections
  unfolding deliver
  deliver_lem max_retries attempts =
      let (l, c) = send_with_retry_lem (take (at_least_one max_retries) attempts) in
      (omega (arith, l, length-take_le (at_least_one max_retries) attempts), c)
