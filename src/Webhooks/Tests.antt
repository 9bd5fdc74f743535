-- ===== src/Webhooks/Tests.antt =====
-- A host that resolves to a public address first and to a loopback address later.
use agent_os_langgraph.Prelude.{
  ◌≤◌, ◌≡◌, refl, Bool, true, false, none, some, Option, [], ◌∷◌, Result, ok, All, length,
}
use agent_os_langgraph.Text.{Str, text, str_eq}
use agent_os_langgraph.Webhooks.{
  UrlParts, IpAddress, SinkRules, Target, Attempt, deliver, at_least_one, send_single_request,
}
use agent_os_langgraph.Webhooks.Safety.{Permitted, send_single_request-Permitted}
use agent_os_langgraph.Webhooks.Attempts.{IsCheckedTarget, deliver_lem}
use agent_os_langgraph.Webhooks.Queue.{Sink, event, close_sink, put_sentinel}

abbrev same : Str → Str
same s = s

abbrev parts : UrlParts
parts = record {
  scheme = text "https";
  username = none;
  password = none;
  hostname = some (text "hooks.example");
  port = ok none;
  path = text "/in";
  query = [];
}

abbrev urlparse : Str → Result UrlParts
urlparse url = ok parts

abbrev address : Bool → IpAddress
address internal = record {
  is_loopback = internal;
  is_private = internal;
  is_link_local = false;
  is_multicast = false;
  is_unspecified = false;
  is_reserved = false;
  is_global = true;
}

abbrev ip_address : Str → Option IpAddress
ip_address s = some (address (str_eq s (text "127.0.0.1")))

abbrev rules : SinkRules
rules = record { allowed_internal_hosts = []; allow_insecure_http = false }

abbrev url : Str
url = text "https://hooks.example/in"

abbrev public_attempt : Attempt
public_attempt = record {
  getaddrinfo = λ host port. ok (text "9.9.9.9" ∷ []);
  answer = λ t. some 503;
}

abbrev rebound_attempt : Attempt
rebound_attempt = record {
  getaddrinfo = λ host port. ok (text "127.0.0.1" ∷ []);
  answer = λ t. some 200;
}

abbrev target : Target
target = record {
  scheme = text "https";
  hostname = text "hooks.example";
  port = 443;
  pinned_ip = text "9.9.9.9";
  path = text "/in";
}

sends :
    send_single_request same urlparse ip_address public_attempt rules url ≡ ok (false, some target)
unfolding send_single_request agent_os_langgraph.Text.mem_str str_eq text
sends = refl

send_single_request-Permitted_example :
    Permitted same urlparse ip_address rules public_attempt.getaddrinfo target
send_single_request-Permitted_example =
    send_single_request-Permitted same urlparse ip_address rules public_attempt url false target
      sends

deliver_lem_example :
    let d = deliver same urlparse ip_address rules url 2 (public_attempt ∷ rebound_attempt ∷ []) in
    (length d.connections ≤ at_least_one 2)
    × All (IsCheckedTarget same urlparse ip_address rules url) d.connections
deliver_lem_example =
    deliver_lem same urlparse ip_address rules url 2 (public_attempt ∷ rebound_attempt ∷ [])

abbrev sink : Sink
sink = record { queued = []; started = 0; alive = 0; delivering = 0; to_put = 0; is_closed = false }

-- A worker delivers, and the one place of the queue is taken: the close puts no sentinel.
abbrev full_sink : Sink
full_sink = record {
  queued = event (text "run.completed") ∷ [];
  started = 1;
  alive = 1;
  delivering = 1;
  to_put = 0;
  is_closed = false;
}

no_sentinel : (put_sentinel 1 (close_sink full_sink)).queued ≡ full_sink.queued
unfolding put_sentinel close_sink
no_sentinel = refl
