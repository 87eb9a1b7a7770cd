-- ===== src/Agent/Progress/Examples.antt =====
-- A run of two documents with a bound of one, and what the refinement of progress.py says of it.
use paperless_assistant.Base.{ℕ, false, none, some, List, [], ◌∷◌, nat_eq, string_eq, pair_eq}
use paperless_assistant.Agent.Progress.{RecentDoc, reset}
use paperless_assistant.Agent.Progress.History.{
  Write, begins, enters, records, ends, write_all, Tracks,
}
use paperless_assistant.Agent.Progress.Refines.{note_all, write_all-Refines}

abbrev doc : ℕ → RecentDoc
doc id = record {
  ts = 3;
  stage = "triage";
  status = "wrote";
  doc_id = id;
  doc_title = none;
  summary = none;
  cost = 10;
  paperless_url = none;
}

abbrev writes : List Write
writes =
    begins "r1" (some false) none 1
    ∷ enters "triage" 2 2
    ∷ records (doc 1)
    ∷ records (doc 2)
    ∷ ends none (some 20) 4
    ∷ []

write_all-Refines_example : Tracks (write_all writes (reset 1)) (note_all writes [])
write_all-Refines_example = write_all-Refines 1 writes
