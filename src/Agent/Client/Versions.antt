-- ===== src/Agent/Client/Versions.antt =====
-- The detection of the server's version by `_note_version` of client.py, over many requests.
use paperless_assistant.Base.{
  ℕ, ◌+◌, ◌≡◌, refl, ◌∙◌, inl, inr, Bool, true, false, some, List, [], ◌∷◌, ◌++◌, arith, Bool-cases,
  length, length-append, leb, is_some, nat_eq, string_eq, pair_eq,
}
use paperless_assistant.Agent.Client.{
  HttpSettings, Response, Served, VersionEvent, Client, Requested, log_version, note_version,
  request,
}
use paperless_assistant.Agent.Client.Requests.{
  RequestSpec, answers, breaks, gives_up, judged, behind, request-RequestSpec,
}

abbrev pub one_if : Bool → ℕ
one_if true = 1
one_if false = 0

-- One event was logged for the detected version, and one for the fallback.
abbrev pub IsLogged : Client → Type 0
IsLogged c = length c.events ≡ one_if (is_some c.api_version) + one_if c.fallback_logged

-- What a call may do to the version of a client: nothing to one that is detected, and what is logged
-- stays in balance.
pub record Keeps (c c' : Client) : Type 0 where
  pub logged : IsLogged c → IsLogged c'
  pub stable :
      (version : ℕ)
      → c.api_version ≡ some version
      → (c'.api_version ≡ some version) × (c'.events ≡ c.events)

Keeps-trans : (a b c : Client) → Keeps a b → Keeps b c → Keeps a c
Keeps-trans a b c first later = record {
  logged = λ h. later.logged (first.logged h);
  stable = λ version known.
      let (known', events) = first.stable version known in
      let (known'', events') = later.stable version known' in (known'', events' ∙ events);
}

length-append_one :
    (es : List VersionEvent) (e : VersionEvent) → length (es ++ e ∷ []) ≡ length es + 1
length-append_one es e = length-append es (e ∷ [])

module _ {B : Type 0} where
  note_version-IsLogged : (r : Response B) (c : Client) → IsLogged c → IsLogged (note_version r c)
  unfolding note_version log_version
  note_version-IsLogged r c h = grind (arith, length-append_one)

  note_version-Keeps : (r : Response B) (c : Client) → Keeps c (note_version r c)
  unfolding note_version
  note_version-Keeps r c = record {
    logged = note_version-IsLogged r c;
    stable = λ version known. simp (known, note_version) (refl, refl);
  }

  -- a client with more calls and waits
  behind-Keeps :
      (cap : ℕ) (server : ℕ → Served B) (c : Client) (k : ℕ) (waits : List ℕ)
      → Keeps c (behind cap server c k waits)
  behind-Keeps cap server c k waits = record {
    logged = λ h. h;
    stable = λ version known. (known, refl);
  }

  judged-Keeps :
      (cap : ℕ) (server : ℕ → Served B) (r : Response B) (c : Client)
      → Keeps c (judged cap server r c).1
  judged-Keeps cap server r c = elim (Bool-cases (leb 400 r.status_code)) [
    | inl refused ↦ rw refused (record { logged = λ h. h; stable = λ version known. (known, refl) })
    | inr fine ↦ rw fine (note_version-Keeps r c)
  ]

  module _ (http : HttpSettings) where
    request-Keeps : (server : ℕ → Served B) (c : Client) → Keeps c (request http server c).1
    request-Keeps server c = by_spec (request http server c) (request-RequestSpec http server c)
      where
        by_spec :
            (x : Requested B × Client)
            → RequestSpec http.backoff_cap server http.retries http.backoff_initial c x
            → Keeps c x.1
        by_spec x (answers k r waits delay' lt before is_last final found) =
            let c' = behind http.backoff_cap server c (k + 1) waits in
            rw found (
              Keeps-trans c c' _ (behind-Keeps http.backoff_cap server c (k + 1) waits)
                (judged-Keeps http.backoff_cap server r c'))
        by_spec x (breaks k waits delay' lt before down found) =
            rw found (behind-Keeps http.backoff_cap server c (k + 1) waits)
        by_spec x (gives_up waits delay' before found) =
            rw found (behind-Keeps http.backoff_cap server c http.retries waits)

    -- requests one behind the other, each with the server as it answers then
    abbrev pub request_all : List (ℕ → Served B) → Client → Client
    request_all [] c = c
    request_all (server ∷ servers) c = request_all servers (request http server c).1

    -- Over any sequence of requests: a version that is detected is never detected or logged again,
    -- and one event at most is logged for the version and one for the fallback.
    pub request_all-Keeps :
        (servers : List (ℕ → Served B)) (c : Client) → Keeps c (request_all servers c)
    request_all-Keeps [] c = record { logged = λ h. h; stable = λ version known. (known, refl) }
    request_all-Keeps (server ∷ servers) c =
        Keeps-trans c (request http server c).1 (request_all servers (request http server c).1)
          (request-Keeps server c) (request_all-Keeps servers (request http server c).1)
