-- ===== src/Agent/Client/Examples.antt =====
-- A server that is busy once, two pages of a list, and what the theorems on client.py say of them.
use paperless_assistant.Base.{
  ℕ, zero, suc, ◌≡◌, refl, inl, false, String, none, some, [], ◌∷◌, ◌==◌, nat_eq, string_eq,
  pair_eq, if◌then◌else◌,
}
use paperless_assistant.Agent.Client.{
  HttpSettings, Response, Served, answered, Client, is_transient, note_version, request_loop,
  request,
}
use paperless_assistant.Agent.Client.Requests.{RequestSpec, request-RequestSpec}
use paperless_assistant.Agent.Client.Pages.{Page, complete, get_all}
use paperless_assistant.Agent.Client.Listing.{Serves, last, more, all_results, get_all-all}

abbrev http : HttpSettings
http = record {
  retries = 6;
  backoff_initial = 1;
  backoff_cap = 30;
  task_poll_timeout = 180;
  task_poll_interval = 3;
}

abbrev new_client : Client
new_client = record {
  api_version = none;
  server_version = none;
  fallback_logged = false;
  calls = 0;
  slept = [];
  events = [];
}

abbrev answer : {B : Type 0} → ℕ → B → Response B
answer status body = record {
  status_code = status;
  retry_after = none;
  x_api_version = some 9;
  x_version = some "2.14";
  body = body;
}

abbrev busy_once : ℕ → Served String
busy_once zero = answered (answer 503 "")
busy_once (suc n) = answered (answer 200 "ok")

busy_once_slept : (request http busy_once new_client).1.slept ≡ 1 ∷ []
unfolding request request_loop is_transient note_version
busy_once_slept = refl

request-RequestSpec_example :
    RequestSpec 30 busy_once 6 1 new_client (request http busy_once new_client)
request-RequestSpec_example = request-RequestSpec http busy_once new_client

abbrev first_page : Page ℕ
first_page = record { results = 1 ∷ 2 ∷ []; next = some "p2" }

abbrev last_page : Page ℕ
last_page = record { results = 3 ∷ []; next = none }

abbrev pages_server : ℕ → String → Served (Page ℕ)
pages_server n url =
    if url == "p2" then answered (answer 200 last_page) else answered (answer 200 first_page)

first_served : Serves http pages_server "p1" first_page
unfolding request request_loop is_transient
first_served c = (answer 200 first_page, _, refl, refl)

last_served : Serves http pages_server "p2" last_page
unfolding request request_loop is_transient
last_served c = (answer 200 last_page, _, refl, refl)

get_all-all_example :
    (get_all http pages_server 2 "p1" new_client).0
    ≡ complete (all_results http pages_server (first_page ∷ last_page ∷ []))
get_all-all_example = get_all-all http pages_server "p1" (first_page ∷ last_page ∷ []) new_client (
    more first_page "p2" (last_page ∷ []) (first_page ∷ last_page ∷ []) first_served refl refl
      (last last_page (last_page ∷ []) last_served (inl refl) refl) refl)
