-- ===== src/Agent/DocumentExamples.antt =====
-- Documents, their fields and the writes of src/paperless_assistant on examples.
use paperless_assistant.Base.{
  ℕ, ◌≡◌, ◌||◌, refl, All, All-append, true, false, not, String, Option, none, some, List, [], ◌∷◌,
  ◌++◌, arith, filter, nat_beq, ◌==◌, nat_eq, string_eq, pair_eq, if◌then◌else◌, contains,
}
use paperless_assistant.Base.Dict.{insert, lookup}
use paperless_assistant.Base.Text.{clip, strip, lstrip, rstrip, same_letters}
use paperless_assistant.Agent.Fields.{
  word, value_eq, triaged, reocr_done, Resolver, coerce_score, stage_option_id,
  stage_option_for_role, role_for_value,
}
use paperless_assistant.Agent.Fields.Roles.{ResolverValid, role_for_value-stage_option_for_role}
use paperless_assistant.Agent.Stages.{
  CustomField, Document, already_triaged, value_at, at_least, reocr_matches,
}
use paperless_assistant.Agent.Safety.{is_foreign, merge_triage_fields, mark_old_superseded}
use paperless_assistant.Agent.Safety.Merge.{merge_triage_fields-meaning, coerce_score-integer}
use paperless_assistant.Agent.Safety.Superseded.{mark_old_superseded-meaning}
use paperless_assistant.Agent.Taxonomy.{NameMap, new_names, find_name, resolved, resolve_or_create}
use paperless_assistant.Agent.Taxonomy.Reuse.{resolve_or_create-again}
use paperless_assistant.Agent.Metadata.{Metadata, MetadataClient, not_extracted}
use paperless_assistant.Agent.Sweep.{
  auth, raised, Process, allowed, started, advanced, collected, DrainState, drain_events,
}
use paperless_assistant.Agent.Sweep.Drain.{InHand, drain_events_stop}
use paperless_assistant.Agent.Ocr.{OcrClient, OcrState}

-- a resolver whose stage is a select field
abbrev resolver : Resolver
resolver = record {
  stage_names = record {
    triaged_label = "triaged";
    reocr_done_label = "reocr_done";
    metadata_done_label = "metadata_done";
  };
  score = record { id = 1; data_type = "float"; options = [] };
  stage = record {
    id = 2;
    data_type = "select";
    options =
        ("triaged", word "o1") ∷ ("reocr_done", word "o2") ∷ ("metadata_done", word "o3") ∷ [];
  };
  notes = record { id = 3; data_type = "string"; options = [] };
}

resolver-ResolverValid : ResolverValid resolver
resolver-ResolverValid = record {
  labels_differ = (refl, (refl, (refl, tt)));
  ids_differ = (refl, (refl, (refl, tt)));
}

triaged_option : stage_option_for_role triaged resolver ≡ some (word "o1")
unfolding stage_option_for_role stage_option_id lookup
triaged_option = refl

reocr_option : stage_option_for_role reocr_done resolver ≡ some (word "o2")
unfolding stage_option_for_role stage_option_id lookup
reocr_option = refl

abbrev str : ℕ → String
str n = "0.5"

abbrev float : String → Option ℕ
float s = if s == "0.5" then some 5000 else none

abbrev doc : Document
doc = record { id = 12; tags = 9 ∷ []; custom_fields = record { field = 8; value = word "x" } ∷ [] }

role_for_value-stage_option_for_role_example : role_for_value (word "o2") resolver ≡ some reocr_done
role_for_value-stage_option_for_role_example =
    role_for_value-stage_option_for_role resolver reocr_done (word "o2") resolver-ResolverValid
      reocr_option

merge_triage_fields-meaning_example :
    (merged : List CustomField) × (merge_triage_fields str resolver doc.custom_fields 7000 "wr=0.20"
      ≡ some merged)
    × (filter (is_foreign resolver) merged ≡ filter (is_foreign resolver) doc.custom_fields)
    × (already_triaged resolver (record doc { custom_fields = merged }) ≡ true)
    × (value_at resolver.notes.id merged ≡ word (clip 255 "wr=0.20"))
    × (reocr_matches float resolver 5500 (record doc { custom_fields = merged })
        ≡ some (at_least float 5500 (coerce_score str 7000 resolver.score.data_type)))
merge_triage_fields-meaning_example =
    merge_triage_fields-meaning str float resolver doc 7000 5500 "wr=0.20" (word "o1")
      resolver-ResolverValid (refl, (refl, (refl, tt))) triaged_option

coerce_score-integer_example : at_least float 5500 (coerce_score str 300 "integer") ≡ true
coerce_score-integer_example = coerce_score-integer str float 300 5500 (omega arith) (omega arith)

mark_old_superseded-meaning_example :
    (tags : List ℕ) × (fields : List CustomField) × (mark_old_superseded resolver doc 5
      ≡ some (tags, fields))
    × ((t : ℕ) → contains t tags ≡ (if 5 == t then true else contains t doc.tags))
    × (already_triaged resolver (record doc { tags = tags; custom_fields = fields }) ≡ true)
    × (reocr_matches float resolver 5500 (record doc { tags = tags; custom_fields = fields })
        ≡ some false)
    × (filter (λ (x : CustomField). not (nat_beq x.field resolver.stage.id)) fields
        ≡ filter (λ (x : CustomField). not (nat_beq x.field resolver.stage.id)) doc.custom_fields)
mark_old_superseded-meaning_example =
    mark_old_superseded-meaning float resolver doc 5 5500 (word "o1") (word "o2")
      resolver-ResolverValid triaged_option reocr_option

-- a client that goes through up to the mark on the old document
abbrev ocr_client : OcrClient
ocr_client = record {
  vision = true;
  download_original = λ doc_id. some "pdf";
  transcribe = λ original. some (record { words = "Invoice"; cost = 700 });
  post_document = λ doc_id words. some "task";
  find_new_doc = λ task. some (some 31);
  patched = λ doc_id. nat_beq doc_id 31;
}

abbrev ocr_state : OcrState
ocr_state = record { snapshots = []; spend = record { max_spend = 1000; total = 0 }; effects = [] }

-- a provider that rejects the key for every document
abbrev rejects : Process (List ℕ)
rejects = record {
  capped = λ doc_id w. none;
  work = λ doc_id w. (raised (some auth), w ++ doc_id ∷ []);
  book = λ doc_id outcome w. w;
}

-- one document has been rejected, one is in hand, and another is taken up behind the first future
abbrev rejected_state : DrainState (List ℕ)
rejected_state = record {
  abort = false;
  fatal = none;
  running = (7, allowed) ∷ [];
  futures = (4, raised (some auth)) ∷ [];
  rows = [];
  world = 4 ∷ [];
}

-- a document that is none but 4 or 7
abbrev Known : ℕ → Type 0
Known doc_id = ((doc_id == 4) || (doc_id == 7)) ≡ true

rejected : lookup 4 rejected_state.futures ≡ some (raised (some auth))
unfolding lookup
rejected = refl

in_hand : (other : ℕ) → InHand 3 rejects other rejected_state → Known other
unfolding lookup
in_hand other here = ground arith

drain_events_stop_example :
    All Known
      (drain_events 3 rejects
        (collected 4 ∷ started 9 ∷ advanced 7 ∷ advanced 9 ∷ advanced 7 ∷ collected 7 ∷ [])
        rejected_state).world
drain_events_stop_example =
    drain_events_stop 3 rejects (All Known) 4 auth
      (started 9 ∷ advanced 7 ∷ advanced 9 ∷ advanced 7 ∷ collected 7 ∷ []) rejected_state rejected
      (λ other here w known. All-append Known w (other ∷ []) known (in_hand other here, tt))
      (λ other here outcome w known. known) (refl, tt)

-- a server that gives every new name the id 50
abbrev metadata_client : MetadataClient
metadata_client = record {
  create_tag = λ name. some 50;
  create_correspondent = λ name. some 50;
  create_doc_type = λ name. none;
  patched = λ doc_id. true;
  extract = λ d. not_extracted 0;
}

abbrev invoices : NameMap
invoices = new_names (("Invoice", 20) ∷ []) []

resolve_or_create-again_example :
    let m' =
      (resolve_or_create
        (λ name. some 50)
        "Letter"
        (resolve_or_create (λ name. some 50) " invoice" invoices).1).1 in
    resolve_or_create (λ name. some 50) "INVOICE " m' ≡ (resolved 20 false, m')
unfolding resolve_or_create find_name new_names strip lstrip rstrip same_letters insert
resolve_or_create-again_example =
    resolve_or_create-again (λ name. some 50) " invoice" "Letter" "INVOICE " invoices 20 false refl
      refl refl

abbrev invoice : Metadata
invoice = record {
  title = "Bill";
  correspondent = "ACME";
  document_type = "Invoice";
  tags = "tax" ∷ [];
}
