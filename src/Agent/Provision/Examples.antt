-- ===== src/Agent/Provision/Examples.antt =====
-- A server for src/paperless_assistant/provision.py and a run on it.
use paperless_assistant.Base.{
  ◌≡◌, refl, ap, ◌≢◌, String, some, List, [], ◌∷◌, ◌++◌, map, arith, nat_eq, string_eq, pair_eq,
  beq_refl, contains, contains-append,
}
use paperless_assistant.Base.Dict.{Dict, lookup, insert, lookup-insert_self, lookup-insert_ne}
use paperless_assistant.Agent.Fields.{CustomFieldInfo, Value, word, dict_of}
use paperless_assistant.Agent.Provision.{
  Paperless, NewField, ProvisionReport, Provisioner, existing_fields, ensure_fields, fields_loop,
  required_fields, ensure_tags, ensure_tag, noted, judge, is_compatible, payload, wrong_type,
  provision,
}
use paperless_assistant.Agent.Provision.Laws.{ServerLaws, shown}
use paperless_assistant.Agent.Provision.Again.{Provisioned, provision-Provisioned}

abbrev info : NewField → CustomFieldInfo
info p = record {
  id = 0;
  name = p.name;
  data_type = p.data_type;
  select_options = map (λ (l : String). (l, word l)) p.labels;
}

-- the fields and the names of the tags; names of tags are compared as they are
abbrev server : Paperless (List CustomFieldInfo × List String)
server = record {
  custom_fields = λ w. w.0;
  post_field = λ p w. some (w.0 ++ info p ∷ [], w.1);
  finds_tag = λ tag w. contains tag w.1;
  post_tag = λ tag color w. some (w.0, w.1 ++ tag ∷ []);
}

existing_fields-append :
    (fs : List CustomFieldInfo) (f : CustomFieldInfo) (d : Dict String CustomFieldInfo)
    → existing_fields (fs ++ f ∷ []) d ≡ insert f.name f (existing_fields fs d)
unfolding existing_fields
existing_fields-append [] f d = refl
existing_fields-append (g ∷ fs) f d = existing_fields-append fs f (insert g.name g d)

labels_back :
    (ls : List String)
    → map (λ (o : String × Value). o.0) (map (λ (l : String). (l, word l)) ls) ≡ ls
labels_back [] = refl
labels_back (l ∷ ls) = ap (λ (xs : List String). l ∷ xs) (labels_back ls)

came : {A : Type 0} {a b : A} → some a ≡ some b → b ≡ a
came h = ground (arith, h)

shown-posted :
    (p : NewField) (w : List CustomFieldInfo × List String)
    → shown server p.name (w.0 ++ info p ∷ [], w.1) ≡ some (info p)
shown-posted p w =
    rw (existing_fields-append w.0 (info p) [])
      (lookup-insert_self p.name (info p) (existing_fields w.0 []))

shown-others :
    (p : NewField) (w : List CustomFieldInfo × List String) (name : String)
    → p.name ≢ name
    → shown server name (w.0 ++ info p ∷ [], w.1) ≡ shown server name w
shown-others p w name ne =
    rw (existing_fields-append w.0 (info p) [])
      (lookup-insert_ne p.name name (info p) (existing_fields w.0 []) ne)

server-laws : ServerLaws server
server-laws = record {
  field_shown = λ p w w' h. rw (came h) (info p, shown-posted p w, (refl, labels_back p.labels));
  field_only = λ p w w' name h ne. rw (came h) (shown-others p w name ne);
  field_no_tag = λ p w w' tag h. rw (came h) refl;
  tag_shown = λ tag color w w' h.
      rw (came h) (ground (arith, contains-append tag w.1 (tag ∷ []), beq_refl tag));
  tag_only = λ tag color other w w' h k.
      rw (came h) (ground (arith, contains-append other w.1 (tag ∷ []), k));
  tag_no_field = λ tag color w w' h. rw (came h) refl;
}

-- a server on which the notes are there with a wrong type, and one of the tags
abbrev before : List CustomFieldInfo × List String
before = (
  record { id = 7; name = "ai_notes"; data_type = "url"; select_options = [] } ∷ [],
  "superseded" ∷ [],
)

abbrev setup : Provisioner
setup = record {
  superseded_tag = "superseded";
  new_taxonomy_tag = "ai-new-taxonomy";
  superseded_tag_color = "#a0a0a0";
  new_taxonomy_tag_color = "#f59e0b";
  field_names = record {
    score_name = "ocr_quality";
    stage_name = "ai_stage";
    notes_name = "ai_notes";
  };
  stage_names = record {
    triaged_label = "triaged";
    reocr_done_label = "reocr_done";
    metadata_done_label = "metadata_done";
  };
}

abbrev first_run : ProvisionReport × (List CustomFieldInfo × List String)
first_run = (
  record {
    created_fields = "ocr_quality" ∷ "ai_stage" ∷ [];
    existing_fields = [];
    created_tags = "ai-new-taxonomy" ∷ [];
    existing_tags = "superseded" ∷ [];
    incompatible = wrong_type "ai_notes" "url" "string" ∷ [];
  },
  (
    before.0
        ++ info (record { name = "ocr_quality"; data_type = "float"; labels = [] })
          ∷ info (record {
            name = "ai_stage";
            data_type = "select";
            labels = "triaged" ∷ "reocr_done" ∷ "metadata_done" ∷ [];
          })
          ∷ [],
    "superseded" ∷ "ai-new-taxonomy" ∷ [],
  ),
)

first_runs : provision server setup before ≡ some first_run
unfolding provision ensure_fields fields_loop required_fields dict_of insert lookup existing_fields
    ensure_tags ensure_tag noted judge is_compatible payload
first_runs = refl

provision-Provisioned_example : Provisioned server setup before first_run.0 first_run.1
provision-Provisioned_example =
    provision-Provisioned server server-laws setup before first_run.0 first_run.1 first_runs
