-- ===== src/Agent/Webhook/Receiver.antt =====
-- The handler that `make_handler` of webhook.py builds. The query of the request is parsed by the
-- standard library, so that a request has it as a dictionary.
use paperless_assistant.Base.{
  ℕ, Bool, true, false, not, ◌||◌, String, Option, none, some, List, [], ◌∷◌, nat_beq, ◌==◌, nat_eq,
  string_eq, pair_eq, if◌then◌else◌,
}
use paperless_assistant.Base.Dict.{Dict, lookup, get_or}
use paperless_assistant.Base.Json.{Json}
use paperless_assistant.Base.Text.{after_prefix, strip, rstrip}
use paperless_assistant.Agent.Webhook.{NudgeQueue, enqueue, drain}
use paperless_assistant.Agent.Webhook.DocId.{parse_doc_id}

-- A request by its path and query, its headers and what the body parses to: `none` is malformed,
-- an empty body is the empty object.
pub record NudgeRequest : Type 0 where
  pub url_path : String
  pub query : Dict String (List String)
  pub headers : Dict String String
  pub payload : Option Json

abbrev first : Option (List String) → Option String
first none = none
first (some []) = none
first (some (v ∷ vs)) = some v

abbrev or_first : Option String → Option String → Option String
or_first none other = other
or_first (some v) other = some v

-- the secret that a request provides: in its Authorization header, in a header of its own, or in
-- its query
unfoldable pub provided_secret : NudgeRequest → Option String
unfolding after_prefix strip
provided_secret r =
    let auth = get_or "Authorization" "" r.headers in
    elim (after_prefix "bearer " auth) [
      | some rest ↦ some (strip rest)
      | none ↦ elim (after_prefix "token " auth) [
        | some rest ↦ some (strip rest)
        | none ↦
            or_first (lookup "X-PA-Webhook-Secret" r.headers)
              (or_first (first (lookup "token" r.query)) (first (lookup "secret" r.query)))
      ]
    ]

unfoldable pub authenticated : String → NudgeRequest → Bool
unfolding provided_secret
authenticated secret r = elim (provided_secret r) [
  | none ↦ false
  | some provided ↦ if provided == "" || secret == "" then false else provided == secret
]

abbrev pub no_slash : String → String
no_slash path = rstrip (λ c. nat_beq c b'/') path

-- what `do_POST` replies
pub data NudgeReply : Type 0 where
  not_found unauthenticated malformed no_doc_id : NudgeReply
  accepted : ℕ → Bool → NudgeReply

-- the status of a reply
abbrev pub status_of : NudgeReply → ℕ
status_of not_found = 404
status_of unauthenticated = 401
status_of malformed = 400
status_of no_doc_id = 400
status_of (accepted doc_id debounced) = 202

module _ {S : Type 0} (process : ℕ → S → S) (debounce_seconds : ℕ) where
  -- the part of `do_POST` behind the parsing; `none` where `drain` is out of fuel
  unfoldable pub accept : ℕ → ℕ → NudgeQueue → S → Option (NudgeReply × NudgeQueue × S)
  unfolding enqueue drain
  accept now doc_id q s =
      let (newly, q1) = enqueue debounce_seconds now doc_id q in
      if not newly then some (accepted doc_id true, q1, s) else elim (drain process q1 s) [
        | none ↦ none
        | some (n, q2, s2) ↦ some (accepted doc_id false, q2, s2)
      ]

  unfoldable pub do_post :
      String → String → ℕ → NudgeRequest → NudgeQueue → S → Option (NudgeReply × NudgeQueue × S)
  unfolding authenticated rstrip parse_doc_id accept
  do_post secret path now r q s =
      if not (no_slash r.url_path == no_slash path)
      then some (not_found, q, s)
      else if not (authenticated secret r)
      then some (unauthenticated, q, s)
      else elim r.payload [
        | none ↦ some (malformed, q, s)
        | some payload ↦ elim (parse_doc_id payload) [
          | none ↦ some (no_doc_id, q, s)
          | some doc_id ↦ accept now doc_id q s
        ]
      ]
