-- ===== src/Principals/Tests.antt =====
-- A request from this machine, one with a token, and a schedule.
use agent_os_langgraph.Prelude.{◌≡◌, refl, Bool, true, false, Option, none, some, ok}
use agent_os_langgraph.Text.{Str, text, str_eq}
use agent_os_langgraph.Principals.{
  Attribute, Requester, RequestOrContext, request, a_text, address, RequestState, resolve,
  Principal,
}
use agent_os_langgraph.Principals.Resolved.{Gives, resolve_lem}

abbrev lower : Str → Str
lower s = s

abbrev loopback_ip : Str → Option Bool
loopback_ip s = some (str_eq s (text "127.0.0.1"))

abbrev getuser : Option Str
getuser = some (text " ada ")

abbrev getenv : Str → Option Str
getenv name = none

abbrev from_here : Requester
from_here = record {
  schedule_id = none;
  state = none;
  client = some (some (address (text "127.0.0.1")));
}

abbrev with_token : Requester
with_token = record from_here {
  state = some (
      some record {
        authenticated_with_token = some record { truthy = true; shown = text "True" };
        is_loopback = none;
      });
}

local_request :
    resolve lower loopback_ip getuser getenv (request from_here)
    ≡ ok record {
      id = text "local:ada";
      kind = text "human";
      display = text "Local User (ada)";
      on_behalf_of = none;
    }
unfolding resolve agent_os_langgraph.Principals.resolve_object
    agent_os_langgraph.Principals.resolve_request text
    agent_os_langgraph.Principals.is_loopback_client agent_os_langgraph.Text.mem_str str_eq
    agent_os_langgraph.Text.strip agent_os_langgraph.Principals.new_principal
local_request = refl

token_request :
    resolve lower loopback_ip getuser getenv (request with_token)
    ≡ ok record {
      id = text "token:execution";
      kind = text "service";
      display = text "Execution Token";
      on_behalf_of = none;
    }
unfolding resolve agent_os_langgraph.Principals.resolve_object
    agent_os_langgraph.Principals.resolve_request agent_os_langgraph.Principals.new_principal
    agent_os_langgraph.Text.strip text
token_request = refl

schedule_text :
    resolve lower loopback_ip getuser getenv (a_text (text "schedule: daily "))
    ≡ ok record {
      id = text "schedule:daily";
      kind = text "schedule";
      display = text "Schedule (daily)";
      on_behalf_of = none;
    }
unfolding resolve agent_os_langgraph.Text.starts_with text
    agent_os_langgraph.Principals.schedule_principal agent_os_langgraph.Principals.new_principal
    agent_os_langgraph.Text.strip
schedule_text = refl

resolve_lem_example : Gives (resolve lower loopback_ip getuser getenv (request with_token)) false
unfolding resolve agent_os_langgraph.Principals.is_token
resolve_lem_example = resolve_lem lower loopback_ip getuser getenv (request with_token) tt
