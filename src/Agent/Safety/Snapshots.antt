-- ===== src/Agent/Safety/Snapshots.antt =====
-- The snapshots of safety.py: the first state of a document is kept.
use paperless_assistant.Base.{
  ℕ, ◌≡◌, ◌∙◌, inl, inr, Option, none, some, List, [], ◌∷◌, arith, Option-cases, nat_beq,
  nat_beq_iff, nat_eq, string_eq, pair_eq, if◌then◌else◌,
}
use paperless_assistant.Base.Dict.{lookup, set_default, lookup-insert}
use paperless_assistant.Agent.Stages.{Document}
use paperless_assistant.Agent.Safety.{Snapshots, snapshot, load_snapshot}

unfoldable pub snapshot_all : List Document → Snapshots → Snapshots
unfolding snapshot
snapshot_all [] s = s
snapshot_all (doc ∷ docs) s = snapshot_all docs (snapshot doc s)

-- the first of the documents with an id
abbrev pub first_with : ℕ → List Document → Option Document
first_with doc_id [] = none
first_with doc_id (doc ∷ docs) =
    let rest = first_with doc_id docs in if nat_beq doc.id doc_id then some doc else rest

lookup-snapshot :
    (doc : Document) (doc_id : ℕ) (s : Snapshots)
    → lookup doc_id (snapshot doc s) ≡ elim (lookup doc_id s) [
      | some kept ↦ some kept
      | none ↦ if nat_beq doc.id doc_id then some doc else none
    ]
unfolding snapshot set_default
lookup-snapshot doc doc_id s = elim (Option-cases (lookup doc.id s)) [
  | inl new ↦
      rw (new, snapshot, set_default)
        (lookup-insert doc.id doc_id doc s ∙ ground (arith, new, nat_beq_iff doc.id doc_id))
  | inr (old, known) ↦
      rw (known, snapshot, set_default) (ground (arith, known, nat_beq_iff doc.id doc_id))
]

-- The snapshot of a document is the one that was there before, else the first of its states that
-- was saved, however often and in which order documents are saved.
pub load_snapshot-snapshot_all :
    (docs : List Document) (doc_id : ℕ) (s : Snapshots)
    → load_snapshot doc_id (snapshot_all docs s)
      ≡ elim (load_snapshot doc_id s) [ some kept ↦ some kept | none ↦ first_with doc_id docs ]
unfolding load_snapshot snapshot_all
load_snapshot-snapshot_all [] doc_id s = ground arith
load_snapshot-snapshot_all (doc ∷ docs) doc_id s =
    ground
      (arith, load_snapshot-snapshot_all docs doc_id (snapshot doc s), lookup-snapshot doc doc_id s)
