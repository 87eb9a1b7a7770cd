-- ===== src/ControlPlane/Store/Results/Newest.antt =====
-- A newest entry at the end of the result cache of store.py through its sorting, its eviction and its
-- time limit.
use paperless_assistant.Base.{
  ℕ, zero, suc, ◌+◌, ◌-◌, ◌≤◌, ◌<◌, ◌≡◌, refl, ap, ◌∙◌, inl, inr, Bool, false, String, some, List,
  [], ◌∷◌, ◌++◌, arith, Bool-cases, All, length, take, filter, length-append, ltb, ltb→lt, ◌==◌,
  nat_eq, string_eq, pair_eq, contains, contains-take,
}
use paperless_assistant.Base.Dict.{Dict, lookup, insert, erase}
use paperless_assistant.ControlPlane.Store.{ResultEntry}
use paperless_assistant.ControlPlane.Store.Results.{
  pop_all, ids, is_stale, insert_by_ack, sort_by_ack, drop_stale, evict_oldest,
}
use paperless_assistant.ControlPlane.Store.Results.Ids.{
  contains-ids-erase, lookup-pop_all, contains-ids-sort_by_ack, length-sort_by_ack, ids-take,
}

-- No result of the cache is acknowledged later than `now`.
abbrev pub NotAfter : ℕ → Dict String ResultEntry → Type 0
NotAfter now d = All (λ (x : String × ResultEntry). (x.1).acked_at ≤ now) d

insert_by_ack-append :
    (x last : String × ResultEntry) (d : Dict String ResultEntry)
    → (x.1).acked_at ≤ (last.1).acked_at
    → insert_by_ack x (d ++ last ∷ []) ≡ insert_by_ack x d ++ last ∷ []
unfolding insert_by_ack
insert_by_ack-append x last [] h = ground arith
insert_by_ack-append x last (y ∷ d) h = ground (arith, insert_by_ack-append x last d h)

-- An entry at the end that no other is later than is sorted to the end.
sort_by_ack-append :
    (last : String × ResultEntry) (d : Dict String ResultEntry)
    → NotAfter (last.1).acked_at d
    → sort_by_ack (d ++ last ∷ []) ≡ sort_by_ack d ++ last ∷ []
unfolding sort_by_ack insert_by_ack
sort_by_ack-append last [] h = refl
sort_by_ack-append last (x ∷ d) h =
    ap (insert_by_ack x) (sort_by_ack-append last d h.1)
    ∙ insert_by_ack-append x last (sort_by_ack d) h.0

take-append :
    (n : ℕ) (xs : Dict String ResultEntry) (y : String × ResultEntry)
    → n ≤ length xs
    → take n (xs ++ y ∷ []) ≡ take n xs
take-append zero xs y h = refl
take-append (suc n) [] y h = elim h [ ]
take-append (suc n) (x ∷ xs) y h = ap (λ ys. x ∷ ys) (take-append n xs y (omega arith))

-- The eviction keeps a newest entry at the end, if the cache may hold one entry at all.
pub lookup-evict_oldest :
    (max : ℕ) (id : String) (entry : ResultEntry) (d : Dict String ResultEntry)
    → 0 < max
    → contains id (ids d) ≡ false
    → NotAfter entry.acked_at d
    → lookup id (evict_oldest max (d ++ (id, entry) ∷ [])) ≡ lookup id (d ++ (id, entry) ∷ [])
unfolding evict_oldest
lookup-evict_oldest max id entry d pos absent newest =
    let all = d ++ (id, entry) ∷ [] in
    let over = length all - max in
    let popped = ids (take over (sort_by_ack all)) in
    let gone : contains id popped ≡ false =
      ap (λ l. contains id (ids (take over l))) (sort_by_ack-append (id, entry) d newest)
      ∙ ap (λ l. contains id (ids l))
          (take-append over (sort_by_ack d) (id, entry)
            (omega (arith, length-append d ((id, entry) ∷ []), length-sort_by_ack d)))
      ∙ ap (contains id) (ids-take over (sort_by_ack d))
      ∙ contains-take over id (ids (sort_by_ack d)) (contains-ids-sort_by_ack id d ∙ absent) in
    elim (Bool-cases (ltb 0 over)) [
      | inl too_many ↦ rw too_many (lookup-pop_all popped id all gone)
      | inr fits ↦ rw fits refl
    ]

pub evict_oldest-fits :
    (max : ℕ) (d : Dict String ResultEntry) → length d ≤ max → evict_oldest max d ≡ d
unfolding evict_oldest
evict_oldest-fits max d h = ground arith

erase-append :
    (k : String) (x : String × ResultEntry) (d : Dict String ResultEntry)
    → (x.0 == k) ≡ false
    → erase k (d ++ x ∷ []) ≡ erase k d ++ x ∷ []
unfolding erase
erase-append k x [] h = ground arith
erase-append k x ((j, v) ∷ d) h = ground (arith, erase-append k x d h)

pop_all-append :
    (ks : List String) (x : String × ResultEntry) (d : Dict String ResultEntry)
    → contains x.0 ks ≡ false
    → pop_all ks (d ++ x ∷ []) ≡ pop_all ks d ++ x ∷ []
unfolding pop_all
pop_all-append [] x d h = refl
pop_all-append (k ∷ ks) x d h =
    ap (pop_all ks)
      (erase-append k x d (ground (arith, string_eq.test_iff k x.0, string_eq.test_iff x.0 k)))
    ∙ pop_all-append ks x (erase k d) (ground arith)

pub contains-ids-filter :
    (p : String × ResultEntry → Bool) (id : String) (d : Dict String ResultEntry)
    → contains id (ids d) ≡ false
    → contains id (ids (filter p d)) ≡ false
contains-ids-filter p id [] h = refl
contains-ids-filter p id (x ∷ d) h = ground (arith, contains-ids-filter p id d)

filter-append_out :
    (p : String × ResultEntry → Bool) (x : String × ResultEntry) (d : Dict String ResultEntry)
    → p x ≡ false
    → filter p (d ++ x ∷ []) ≡ filter p d
filter-append_out p x [] h = rw h
filter-append_out p x (y ∷ d) h = ground (arith, filter-append_out p x d h)

-- An entry is kept by the time limit: there is none, or the entry is young enough.
abbrev pub IsYoung : ℕ → ℕ → ℕ → Type 0
IsYoung ttl now at = 0 < ttl → now ≤ at + ttl

pub drop_stale-append :
    (ttl now : ℕ) (id : String) (entry : ResultEntry) (d : Dict String ResultEntry)
    → contains id (ids d) ≡ false
    → IsYoung ttl now entry.acked_at
    → drop_stale ttl now (d ++ (id, entry) ∷ []) ≡ drop_stale ttl now d ++ (id, entry) ∷ []
unfolding drop_stale is_stale
drop_stale-append ttl now id entry d absent young = elim (Bool-cases (ltb 0 ttl)) [
  | inl limited ↦
      let stays : is_stale ttl now (id, entry) ≡ false =
        ground (arith, young (ltb→lt 0 ttl limited)) in
      rw limited (
        ap (λ l. pop_all (ids l) (d ++ (id, entry) ∷ []))
          (filter-append_out (is_stale ttl now) (id, entry) d stays)
        ∙ pop_all-append (ids (filter (is_stale ttl now) d)) (id, entry) d
            (contains-ids-filter (is_stale ttl now) id d absent))
  | inr forever ↦ rw forever refl
]

NotAfter-erase :
    (now : ℕ) (k : String) (d : Dict String ResultEntry) → NotAfter now d → NotAfter now (erase k d)
unfolding erase
NotAfter-erase now k [] h = tt
NotAfter-erase now k ((j, v) ∷ d) h = ground (arith, NotAfter-erase now k d h.1)

NotAfter-pop_all :
    (now : ℕ) (ks : List String) (d : Dict String ResultEntry)
    → NotAfter now d
    → NotAfter now (pop_all ks d)
unfolding pop_all
NotAfter-pop_all now [] d h = h
NotAfter-pop_all now (k ∷ ks) d h = NotAfter-pop_all now ks (erase k d) (NotAfter-erase now k d h)

pub NotAfter-drop_stale :
    (now ttl now' : ℕ) (d : Dict String ResultEntry)
    → NotAfter now d
    → NotAfter now (drop_stale ttl now' d)
unfolding drop_stale
NotAfter-drop_stale now ttl now' d h = elim (Bool-cases (ltb 0 ttl)) [
  | inl limited ↦ rw limited (NotAfter-pop_all now (ids (filter (is_stale ttl now') d)) d h)
  | inr forever ↦ rw forever h
]

absent-pop_all :
    (ks : List String) (id : String) (d : Dict String ResultEntry)
    → contains id (ids d) ≡ false
    → contains id (ids (pop_all ks d)) ≡ false
unfolding pop_all
absent-pop_all [] id d h = h
absent-pop_all (k ∷ ks) id d h =
    absent-pop_all ks id (erase k d) (ground (arith, contains-ids-erase k id d))

pub absent-drop_stale :
    (ttl now : ℕ) (id : String) (d : Dict String ResultEntry)
    → contains id (ids d) ≡ false
    → contains id (ids (drop_stale ttl now d)) ≡ false
unfolding drop_stale
absent-drop_stale ttl now id d h = elim (Bool-cases (ltb 0 ttl)) [
  | inl limited ↦ rw limited (absent-pop_all (ids (filter (is_stale ttl now) d)) id d h)
  | inr forever ↦ rw forever h
]

pub insert-absent :
    (id : String) (v : ResultEntry) (d : Dict String ResultEntry)
    → contains id (ids d) ≡ false
    → insert id v d ≡ d ++ (id, v) ∷ []
unfolding insert
insert-absent id v [] h = refl
insert-absent id v ((j, w) ∷ d) h = ground (arith, insert-absent id v d)

pub lookup-append_last :
    (id : String) (v : ResultEntry) (d : Dict String ResultEntry)
    → contains id (ids d) ≡ false
    → lookup id (d ++ (id, v) ∷ []) ≡ some v
unfolding lookup
lookup-append_last id v [] h = ground (arith, string_eq.test_iff id id)
lookup-append_last id v ((j, w) ∷ d) h = ground (arith, lookup-append_last id v d)
