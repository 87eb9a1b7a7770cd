-- ===== src/Agent/Stages/Queues.antt =====
-- The queues of stages.py are the documents that the stage takes, cut at the limit.
use paperless_assistant.Base.{
  ℕ, zero, suc, ◌-◌, ◌<◌, ◌≡◌, refl, sym, ap, ◌∙◌, inl, inr, Bool, true, false, not, ◌&&◌, String,
  Option, none, some, List, [], ◌∷◌, ◌++◌, arith, Bool-cases, length, take, filter, length-append,
  leb, nat_beq, nat_eq, string_eq, pair_eq, if◌then◌else◌,
}
use paperless_assistant.Agent.Fields.{Value, triaged, Resolver, stage_option_for_role}
use paperless_assistant.Agent.Stages.{
  Document, fetch_loop, reocr_matches, metadata_eligible, fetch_reocr_queue, fetch_metadata_queue,
  fetch_triage_queue,
}
use mathlib.Core.Path.{subst}
use mathlib.Core.List.{append-nil, append_assoc}

-- `docs`, cut at the limit, where 0 is no limit
abbrev pub limited : ℕ → List Document → List Document
limited limit docs = if nat_beq limit 0 then docs else take limit docs

take_nil : (n : ℕ) → take {A = Document} n [] ≡ []
take_nil zero = refl
take_nil (suc n) = refl

-- whether a stage takes a document, where its predicate does not fail
abbrev pub is_in : Option Bool → Bool
is_in none = false
is_in (some taken) = taken

module _ (takes : Document → Option Bool) (p : Document → Bool)
    (total : (d : Document) → takes d ≡ some (p d)) where
  fetch_loop-unlimited :
      (docs all : List Document) → fetch_loop takes 0 docs all ≡ some (docs ++ filter p all)
  unfolding fetch_loop
  fetch_loop-unlimited docs [] = ap some (sym (append-nil docs))
  fetch_loop-unlimited docs (d ∷ rest) = elim (Bool-cases (p d)) [
    | inl taken ↦
        rw (total d, taken, fetch_loop)
          (fetch_loop-unlimited (docs ++ d ∷ []) rest
            ∙ ap some (append_assoc docs (d ∷ []) (filter p rest)))
    | inr skipped ↦ rw (total d, skipped, fetch_loop) (fetch_loop-unlimited docs rest)
  ]

  fetch_loop-limited :
      (limit : ℕ) (docs all : List Document)
      → length docs < limit
      → fetch_loop takes limit docs all ≡ some (docs ++ take (limit - length docs) (filter p all))
  unfolding fetch_loop
  fetch_loop-limited limit docs [] h =
      ap some (sym (append-nil docs) ∙ ap (λ xs. docs ++ xs) (sym (take_nil (limit - length docs))))
  fetch_loop-limited limit docs (d ∷ rest) h = elim (Bool-cases (p d)) [
    | inl taken ↦ elim (Bool-cases (not (nat_beq limit 0) && leb limit (length (docs ++ d ∷ [])))) [
      | inl full ↦
          rw (total d, taken, full, fetch_loop)
            (ap (λ n. some (docs ++ take n (d ∷ filter p rest))) {x = 1}
              (ground (arith, full, length-append docs (d ∷ []), h)))
      | inr room ↦
          rw (total d, taken, room, fetch_loop)
            (fetch_loop-limited limit (docs ++ d ∷ []) rest
                (ground (arith, room, length-append docs (d ∷ []), h))
              ∙ ap some (append_assoc docs (d ∷ []) _)
              ∙ ap (λ n. some (docs ++ take n (d ∷ filter p rest)))
                  {x = suc (limit - length (docs ++ d ∷ []))}
                  (ground (arith, room, length-append docs (d ∷ []), h)))
    ]
    | inr skipped ↦ rw (total d, skipped, fetch_loop) (fetch_loop-limited limit docs rest h)
  ]

  pub fetch_loop-limited-filter :
      (limit : ℕ) (all : List Document)
      → fetch_loop takes limit [] all ≡ some (limited limit (filter p all))
  fetch_loop-limited-filter limit all = elim (Bool-cases (nat_beq limit 0)) [
    | inl unlimited ↦ rw unlimited (
        subst (λ n. fetch_loop takes n [] all ≡ some (filter p all)) {x = 0} (ground arith)
          (fetch_loop-unlimited [] all))
    | inr limits ↦ rw limits (
        fetch_loop-limited limit [] all (ground arith)
        ∙ ap (λ n. some (take n (filter p all))) (omega arith))
  ]

filter_all : (xs : List Document) → filter (λ d. true) xs ≡ xs
filter_all [] = refl
filter_all (x ∷ xs) = ap (λ ys. x ∷ ys) (filter_all xs)

-- The queue of each stage is the list of the documents that the stage takes, in their order, cut at
-- the limit, where 0 is no limit; the queue for re-OCR wants an option for "triaged".
fetch_queues :
    (float : String → Option ℕ) (r : Resolver) (triaged_id : Value) (eligible_labels : List Value)
    (threshold limit : ℕ) (all : List Document)
    → stage_option_for_role triaged r ≡ some triaged_id
    → (fetch_triage_queue limit all ≡ some (limited limit all))
      × (fetch_metadata_queue float r eligible_labels threshold limit all
          ≡ some (limited limit (filter (metadata_eligible float r eligible_labels threshold) all)))
      × (fetch_reocr_queue float r threshold limit all
          ≡ some (limited limit (filter (λ d. is_in (reocr_matches float r threshold d)) all)))
unfolding fetch_triage_queue fetch_metadata_queue fetch_reocr_queue
fetch_queues float r triaged_id eligible_labels threshold limit all option = (
  fetch_loop-limited-filter (λ d. some true) (λ d. true) (λ d. refl) limit all
      ∙ ap (λ ds. some (limited limit ds)) (filter_all all),
  fetch_loop-limited-filter (λ d. some (metadata_eligible float r eligible_labels threshold d)) _
      (λ d. refl) limit all,
  fetch_loop-limited-filter (reocr_matches float r threshold) _
      (λ d. unfold reocr_matches in rw option refl) limit all,
)
