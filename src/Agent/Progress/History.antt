-- ===== src/Agent/Progress/History.antt =====
-- The tracker of progress.py against the history of a run, which forgets nothing.
use paperless_assistant.Base.{
  ℕ, zero, suc, ◌+◌, ◌≤◌, ◌≡◌, refl, sym, ap, ◌∙◌, inl, inr, Bool, true, false, String, Option,
  none, some, List, [], ◌∷◌, ◌++◌, arith, Bool-cases, length, take, length-append, ltb, ltb→lt,
  nat_beq, ◌==◌, nat_eq, string_eq, pair_eq, if◌then◌else◌,
}
use paperless_assistant.Base.Dict.{Dict, get_or}
use mathlib.Core.List.{reverse}
use paperless_assistant.Base.Reverse.{
  reverse-cons, reverse-append_one, length-reverse, take_of_length-le, take-append_length,
}
use paperless_assistant.Base.Money.{Usd}
use paperless_assistant.Agent.Progress.{
  StageProgress, RecentDoc, ProgressError, ProgressTracker, begin_run, begin_stage, fresh_stage,
  append_bounded, record_doc, set_error, end_run,
}

-- a call of a writer
pub data Write : Type 0 where
  begins : String → Option Bool → Option String → ℕ → Write
  enters : String → ℕ → ℕ → Write
  records : RecentDoc → Write
  fails : ProgressError → ℕ → Write
  ends : Option (Dict String ℕ) → Option Usd → ℕ → Write

unfoldable pub write : Write → ProgressTracker → ProgressTracker
write (begins run_id dry_run source now) p = begin_run run_id dry_run source now p
write (enters stage total now) p = begin_stage stage total now p
write (records d) p = record_doc d p
write (fails e now) p = set_error e now p
write (ends counts spend_total now) p = end_run counts spend_total now p

abbrev pub write_all : List Write → ProgressTracker → ProgressTracker
write_all [] p = p
write_all (w ∷ ws) p = write_all ws (write w p)

-- The history of the current run, newest call first: it begins anew with a run.
abbrev pub note : List Write → Write → List Write
note h (begins run_id dry_run source now) = begins run_id dry_run source now ∷ []
note h w = w ∷ h

-- every document of the run, newest first
abbrev pub docs_of : List Write → List RecentDoc
docs_of [] = []
docs_of (begins run_id dry_run source now ∷ h) = docs_of h
docs_of (enters stage total now ∷ h) = docs_of h
docs_of (records d ∷ h) = d ∷ docs_of h
docs_of (fails e now ∷ h) = docs_of h
docs_of (ends counts spend_total now ∷ h) = docs_of h

-- the documents of a stage since it was entered last
abbrev pub stage_docs : String → List Write → List RecentDoc
stage_docs stage [] = []
stage_docs stage (begins run_id dry_run source now ∷ h) = stage_docs stage h
stage_docs stage (enters s total now ∷ h) = if s == stage then [] else stage_docs stage h
stage_docs stage (records d ∷ h) =
    let rest = stage_docs stage h in if d.stage == stage then d ∷ rest else rest
stage_docs stage (fails e now ∷ h) = stage_docs stage h
stage_docs stage (ends counts spend_total now ∷ h) = stage_docs stage h

-- the total that the stage was entered with last
abbrev pub stage_total : String → List Write → ℕ
stage_total stage [] = 0
stage_total stage (begins run_id dry_run source now ∷ h) = stage_total stage h
stage_total stage (enters s total now ∷ h) = if s == stage then total else stage_total stage h
stage_total stage (records d ∷ h) = stage_total stage h
stage_total stage (fails e now ∷ h) = stage_total stage h
stage_total stage (ends counts spend_total now ∷ h) = stage_total stage h

-- the spend of the run, which its end may set
abbrev pub spend_of : List Write → Usd
spend_of [] = 0
spend_of (begins run_id dry_run source now ∷ h) = spend_of h
spend_of (enters s total now ∷ h) = spend_of h
spend_of (records d ∷ h) = spend_of h + d.cost
spend_of (fails e now ∷ h) = spend_of h
spend_of (ends counts none now ∷ h) = spend_of h
spend_of (ends counts (some given) now ∷ h) = given

-- the last error of the run
abbrev pub error_of : List Write → Option ProgressError
error_of [] = none
error_of (begins run_id dry_run source now ∷ h) = error_of h
error_of (enters s total now ∷ h) = error_of h
error_of (records d ∷ h) = error_of h
error_of (fails e now ∷ h) = some e
error_of (ends counts spend_total now ∷ h) = error_of h

-- the run is active unless its end is noted
abbrev pub is_active : List Write → Bool
is_active [] = false
is_active (begins run_id dry_run source now ∷ h) = true
is_active (enters s total now ∷ h) = is_active h
is_active (records d ∷ h) = is_active h
is_active (fails e now ∷ h) = is_active h
is_active (ends counts spend_total now ∷ h) = false

abbrev pub sum_costs : List RecentDoc → Usd
sum_costs [] = 0
sum_costs (d ∷ ds) = sum_costs ds + d.cost

-- how many documents have the status
abbrev pub with_status : String → List RecentDoc → ℕ
with_status status [] = 0
with_status status (d ∷ ds) =
    let rest = with_status status ds in if d.status == status then rest + 1 else rest

-- What the tracker holds of a stage is what the history says of it.
pub record StageTracks (h : List Write) (stage : String) (st : StageProgress) : Type 0 where
  pub total : st.total ≡ stage_total stage h
  pub processed : st.processed ≡ length (stage_docs stage h)
  pub spend : st.spend ≡ sum_costs (stage_docs stage h)
  pub counted :
      (status : String) → get_or status 0 st.counts ≡ with_status status (stage_docs stage h)

pub record Tracks (p : ProgressTracker) (h : List Write) : Type 0 where
  pub active : p.active ≡ is_active h
  pub spend : p.spend_total ≡ spend_of h
  pub error : p.error ≡ error_of h
  pub bounded : length p.recent ≤ p.recent_max
  pub recent : reverse p.recent ≡ take p.recent_max (docs_of h)
  pub stages : (stage : String) → StageTracks h stage (get_or stage (fresh_stage 0) p.stages)

-- the beginning of a reversed list without its first entry
take-reverse : {A : Type 0} (xs : List A) (y : A) → take (length xs) (reverse (y ∷ xs)) ≡ reverse xs
take-reverse xs y =
    ap (take (length xs)) (reverse-cons y xs)
    ∙ ap (λ (n : ℕ). take n (reverse xs ++ y ∷ [])) (sym (length-reverse xs))
    ∙ take-append_length (reverse xs) (y ∷ [])

-- A bounded deque, read from its end, holds the new entry and then what it held, within the bound.
pub reverse-append_bounded :
    {A : Type 0} (bound : ℕ) (xs : List A) (x : A)
    → length xs ≤ bound
    → reverse (append_bounded bound xs x) ≡ take bound (x ∷ reverse xs)
unfolding append_bounded
reverse-append_bounded zero [] x h = refl
reverse-append_bounded (suc bound) [] x h =
    let some_room : nat_beq (suc bound) 0 ≡ false = ground arith in
    rw (some_room, append_bounded) (sym (take_of_length-le (suc bound) (x ∷ []) (omega arith)))
reverse-append_bounded bound (y ∷ xs) x h = elim (Bool-cases (ltb (length (y ∷ xs)) bound)) [
  | inl room ↦ rw room (
      reverse-append_one (y ∷ xs) x
      ∙ sym (
          take_of_length-le bound (x ∷ reverse (y ∷ xs))
            (omega (arith, ltb→lt (length (y ∷ xs)) bound room, length-reverse (y ∷ xs)))))
  | inr full ↦
      let at_bound : suc (length xs) ≡ bound = ground arith in
      rw full (
        reverse-append_one xs x
        ∙ ap (λ (l : List _). x ∷ l) (sym (take-reverse xs y))
        ∙ ap (λ (n : ℕ). take n (x ∷ reverse (y ∷ xs))) at_bound)
]

pub length-append_bounded :
    {A : Type 0} (bound : ℕ) (xs : List A) (x : A)
    → length xs ≤ bound
    → length (append_bounded bound xs x) ≤ bound
unfolding append_bounded
length-append_bounded bound [] x h = ground arith
length-append_bounded bound (y ∷ xs) x h =
    ground (arith, length-append xs (x ∷ []), length-append (y ∷ xs) (x ∷ []))
