-- ===== src/ControlPlane/App/Threads.antt =====
-- src/paperless_control_plane/app.py: `_inference` in the threads of the server. The checks of a
-- request and its metering take the lock of the billing store one after the other, so that other
-- requests come in between: an event is the checks of one request, or the rest of one that has passed
-- them. The server has no bound on its threads.
use paperless_assistant.Base.{
  ℕ, zero, suc, ◌≤◌, String, Option, none, some, List, [], ◌∷◌, ◌==◌, string_eq, if◌then◌else◌,
}
use paperless_assistant.ControlPlane.Inference.{Proxy, Request, Vendor, run}
use paperless_assistant.ControlPlane.App.{Draws, refusal_of}

-- one request: what it draws, its tenant and its body
abbrev pub Asked : Type 0
Asked = Draws × String × Request

-- the vendor's side, and the requests that have passed the checks and are not answered
pub record Serving : Type 0 where
  pub vendor : Vendor
  pub flight : List Asked

pub data ServingEvent : Type 0 where
  arrives : Asked → ServingEvent
  answers : ℕ → ServingEvent

-- `check_entitled` and `check_spend_cap` for a request; a refused one is answered at once
unfoldable pub arrive : Asked → Serving → Serving
arrive (draws, who, request) s = elim (refusal_of who s.vendor.billing) [
  | some refused ↦ s
  | none ↦ record s { flight = (draws, who, request) ∷ s.flight }
]

-- the nth of the requests, and the others
unfoldable pub take_out : ℕ → List Asked → Option (Asked × List Asked)
take_out n [] = none
take_out zero (asked ∷ flight) = some (asked, flight)
take_out (suc n) (asked ∷ flight) = elim (take_out n flight) [
  | none ↦ none
  | some (found, rest) ↦ some (found, asked ∷ rest)
]

-- the call of the backend for a request that has passed the checks, and its metering
unfoldable pub answer : Proxy → ℕ → Serving → Serving
answer proxy n s = elim (take_out n s.flight) [
  | none ↦ s
  | some ((draws, who, request), rest) ↦ record {
    vendor = (run proxy draws.now who request s.vendor).1;
    flight = rest;
  }
]

unfoldable pub serving_step : Proxy → ServingEvent → Serving → Serving
serving_step proxy (arrives asked) s = arrive asked s
serving_step proxy (answers n) s = answer proxy n s

-- the events of all threads, in the order in which they happen
abbrev pub serve_events : Proxy → List ServingEvent → Serving → Serving
serve_events proxy [] s = s
serve_events proxy (event ∷ events) s = serve_events proxy events (serving_step proxy event s)

-- how many requests of a tenant have passed the checks and are not answered
abbrev pub in_flight : String → List Asked → ℕ
in_flight tenant [] = 0
in_flight tenant ((draws, who, request) ∷ flight) =
    let rest = in_flight tenant flight in if who == tenant then suc rest else rest

-- At no time more than `n` requests of a tenant are in flight.
abbrev pub AtMost : Proxy → String → ℕ → List ServingEvent → Serving → Type 0
AtMost proxy tenant n [] s = in_flight tenant s.flight ≤ n
AtMost proxy tenant n (event ∷ events) s =
    (in_flight tenant s.flight ≤ n) × AtMost proxy tenant n events (serving_step proxy event s)
