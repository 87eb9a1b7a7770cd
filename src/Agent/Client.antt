-- ===== src/Agent/Client.antt =====
-- src/paperless_assistant/client.py: the REST client. The server answers the n-th call of the session;
-- what a body holds is left open. Times and delays are whole seconds.
pub mod Pages
pub mod Requests
pub mod Versions
pub mod Listing
mod Examples
use paperless_assistant.Base.{
  ℕ, zero, suc, ◌+◌, ◌*◌, refl, inl, inr, Bool, true, false, ◌||◌, String, Option, none, some, List,
  [], ◌∷◌, ◌++◌, arith, leb, nat_beq, nat_eq, string_eq, pair_eq, if◌then◌else◌,
}
use Prim.Native.Nat.{min}

-- the settings of config.py that the client reads
pub record HttpSettings : Type 0 where
  pub retries : ℕ
  pub backoff_initial : ℕ
  pub backoff_cap : ℕ
  pub task_poll_timeout : ℕ
  pub task_poll_interval : ℕ

-- The headers that are read: `Retry-After`, present and perhaps no number; `X-Api-Version` read by
-- `int`, `none` where it is missing or no number; `X-Version`.
pub record Response (B : Type 0) : Type 0 where
  pub status_code : ℕ
  pub retry_after : Option (Option ℕ)
  pub x_api_version : Option ℕ
  pub x_version : Option String
  pub body : B

-- an answer, or an exception of the session
pub data Served (B : Type 0) : Type 0 where
  answered : Response B → Served B
  unreachable : Served B

-- `_log_version`
pub record VersionEvent : Type 0 where
  pub api_version : ℕ
  pub server_version : Option String
  pub detected : Bool

pub record Client : Type 0 where
  pub api_version : Option ℕ
  pub server_version : Option String
  pub fallback_logged : Bool
  pub calls : ℕ
  pub slept : List ℕ
  pub events : List VersionEvent

-- The answer; an HTTPError with the status of a response; "exhausted retries"; another exception.
pub data Requested (B : Type 0) : Type 0 where
  got : Response B → Requested B
  http_error : ℕ → Requested B
  exhausted : Requested B
  crashed : Requested B

abbrev pub default_api_version : ℕ
default_api_version = 9

-- the property `api_version`
unfoldable pub api_version : Client → ℕ
api_version c = elim c.api_version [ none ↦ default_api_version | some version ↦ version ]

-- `V3_MIN_API_VERSION`
unfoldable pub is_v3 : Client → Bool
unfolding api_version
is_v3 c = leb 10 (api_version c)

-- `status_code in (429, 500, 502, 503, 504)`
unfoldable pub is_transient : ℕ → Bool
is_transient status =
    nat_beq status 429
    || nat_beq status 500
    || nat_beq status 502
    || nat_beq status 503
    || nat_beq status 504

unfoldable pub log_version : Bool → Client → Client
unfolding api_version
log_version detected c = record c {
  events =
      c.events
      ++ record {
        api_version = api_version c;
        server_version = c.server_version;
        detected = detected;
      }
        ∷ [];
}

module _ {B : Type 0} where
  unfoldable pub note_version : Response B → Client → Client
  unfolding log_version
  note_version r c = elim c.api_version [
    | some version ↦ c
    | none ↦ elim r.x_api_version [
      | some detected ↦
          log_version true (record c { api_version = some detected; server_version = r.x_version })
      | none ↦
          if c.fallback_logged then c else log_version false (record c { fallback_logged = true })
    ]
  ]

  -- `float(r.headers.get("Retry-After", delay))`; `none` where `float` fails
  abbrev pub wait_of : Response B → ℕ → Option ℕ
  wait_of r delay = elim r.retry_after [ none ↦ some delay | some given ↦ given ]

  module _ (cap : ℕ) (server : ℕ → Served B) where
    -- the loop of `request`
    unfoldable pub request_loop : ℕ → ℕ → Client → Requested B × Client
    unfolding is_transient note_version
    request_loop zero delay c = (exhausted, c)
    request_loop (suc rounds) delay c =
        let c' = record c { calls = c.calls + 1 } in
        elim (server c.calls) [
          | unreachable ↦ (crashed, c')
          | answered r ↦ elim (is_transient r.status_code) [
            | true ↦ elim (wait_of r delay) [
              | none ↦ (crashed, c')
              | some wait ↦
                  request_loop rounds (min (delay * 2) cap)
                    (record c' { slept = c.slept ++ wait ∷ [] })
            ]
            | false ↦
                if leb 400 r.status_code
                then (http_error r.status_code, c')
                else (got r, note_version r c')
          ]
        ]

  unfoldable pub request : HttpSettings → (ℕ → Served B) → Client → Requested B × Client
  unfolding request_loop
  request http server c = request_loop http.backoff_cap server http.retries http.backoff_initial c

  -- `get_document`: the document, `some none` where it does not exist, `none` for an exception
  unfoldable pub get_document : HttpSettings → (ℕ → Served B) → Client → Option (Option B) × Client
  unfolding request
  get_document http server c =
      let (answer, c') = request http server c in
      elim answer [
        | got r ↦ (some (some r.body), c')
        | http_error status ↦ (if nat_beq status 404 then some none else none, c')
        | exhausted ↦ (none, c')
        | crashed ↦ (none, c')
      ]
