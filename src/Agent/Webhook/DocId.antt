-- ===== src/Agent/Webhook/DocId.antt =====
-- `parse_doc_id` of webhook.py.
use paperless_assistant.Base.{
  ℕ, String, Option, none, some, List, [], ◌∷◌, ltb, ◌==◌, nat_eq, string_eq, pair_eq,
  if◌then◌else◌,
}
use paperless_assistant.Base.Json.{Json}
use paperless_assistant.Base.Json.{null, num, text, obj, Fields, end, field}
use paperless_assistant.Base.Text.{strip}
use paperless_assistant.Agent.Webhook.DocUrl.{doc_id_in, whole_number}

-- `payload.get(key)`
unfoldable pub get_field : String → Fields → Json
get_field key end = null
get_field key (field k v fields) = if k == key then v else get_field key fields

-- the id in the field `doc_url`
unfoldable pub url_id : Json → Option ℕ
unfolding doc_id_in whole_number strip
url_id (text url) = elim (doc_id_in url) [ some n ↦ some n | none ↦ whole_number (strip url) ]
url_id _ = none

-- the id in one of the fallback fields
unfoldable pub plain_id : Json → Option ℕ
unfolding whole_number strip
plain_id (num n) = if ltb 0 n then some n else none
plain_id (text s) = whole_number (strip s)
plain_id _ = none

-- the loop over the fallback fields
unfoldable pub first_id : List String → Fields → Option ℕ
unfolding get_field plain_id
first_id [] fields = none
first_id (key ∷ keys) fields = elim (plain_id (get_field key fields)) [
  | some n ↦ some n
  | none ↦ first_id keys fields
]

unfoldable pub parse_doc_id : Json → Option ℕ
unfolding url_id first_id get_field
parse_doc_id (obj fields) = elim (url_id (get_field "doc_url" fields)) [
  | some n ↦ some n
  | none ↦ first_id ("doc_id" ∷ "document_id" ∷ "id" ∷ []) fields
]
parse_doc_id _ = none
