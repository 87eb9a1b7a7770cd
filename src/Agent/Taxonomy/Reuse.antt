-- ===== src/Agent/Taxonomy/Reuse.antt =====
-- A name of taxonomy.py that has been resolved is reused from then on.
use paperless_assistant.Base.{
  ℕ, ◌≡◌, refl, sym, ◌∙◌, inl, inr, Bool, true, false, String, Option, some, List, [], ◌∷◌, ◌++◌,
  arith, Bool-cases, Option-cases, ◌==◌, nat_eq, string_eq, pair_eq, if◌then◌else◌,
}
use paperless_assistant.Base.Text.{same_letters, strip}
use paperless_assistant.Base.Letters.{same_letters_cong, same_letters_self}
use paperless_assistant.Agent.Taxonomy.{NameMap, find_name, Resolved, resolved, resolve_or_create}

find_name-cong :
    (key key' : String) (pairs : List (String × ℕ))
    → same_letters key key' ≡ true
    → find_name key pairs ≡ find_name key' pairs
unfolding find_name
find_name-cong key key' [] h = refl
find_name-cong key key' ((k, id) ∷ pairs) h =
    ground (arith, find_name-cong key key' pairs h, same_letters_cong k key key' h)

find_name-append :
    (key name : String) (id : ℕ) (pairs : List (String × ℕ))
    → find_name key (pairs ++ (name, id) ∷ [])
      ≡ (if same_letters name key then some id else find_name key pairs)
unfolding find_name
find_name-append key name id [] = refl
find_name-append key name id ((k, i) ∷ pairs) = ground (arith, find_name-append key name id pairs)

module _ (create : String → Option ℕ) (name : String) (m : NameMap) where
  abbrev result : Resolved × NameMap
  result = resolve_or_create create name m

  -- what a resolution that gives an id leaves under the name
  found_after :
      (id : ℕ) (new : Bool)
      → result.0 ≡ resolved id new
      → find_name (strip name) result.1.lower_names ≡ some id
  unfolding resolve_or_create
  found_after id new h = elim (Bool-cases (name == "")) [
    | inl empty ↦ absurd (ground (arith, h, empty))
    | inr filled ↦ elim (Option-cases (find_name (strip name) m.lower_names)) [
      | inr (known, there) ↦
          simp (filled, there, resolve_or_create) (ground (arith, h, filled, there))
      | inl missing ↦ elim (Option-cases (create (strip name))) [
        | inl broken ↦ absurd (ground (arith, h, filled, missing, broken))
        | inr (made, posted) ↦
            simp (filled, missing, posted, resolve_or_create)
              (ground (
                arith,
                h,
                filled,
                missing,
                posted,
                find_name-append (strip name) (strip name) made m.lower_names,
                same_letters_self (strip name),
              ))
      ]
    ]
  ]

  kept_after :
      (key : String) (id : ℕ)
      → find_name key m.lower_names ≡ some id
      → find_name key result.1.lower_names ≡ some id
  unfolding resolve_or_create
  kept_after key id h = elim (Bool-cases (name == "")) [
    | inl empty ↦ simp (empty, resolve_or_create) h
    | inr filled ↦ elim (Option-cases (find_name (strip name) m.lower_names)) [
      | inr (known, there) ↦ simp (filled, there, resolve_or_create) h
      | inl missing ↦ elim (Option-cases (create (strip name))) [
        | inl broken ↦ simp (filled, missing, broken, resolve_or_create) h
        | inr (made, posted) ↦
            simp (filled, missing, posted, resolve_or_create)
              (ground (
                arith,
                h,
                missing,
                find_name-append key (strip name) made m.lower_names,
                find_name-cong (strip name) key m.lower_names,
              ))
      ]
    ]
  ]

resolve-found :
    (create : String → Option ℕ) (name : String) (m : NameMap) (id : ℕ)
    → (name == "") ≡ false
    → find_name (strip name) m.lower_names ≡ some id
    → resolve_or_create create name m ≡ (resolved id false, m)
unfolding resolve_or_create
resolve-found create name m id filled there = simp (filled, there, resolve_or_create) refl

-- A name that was resolved to an id is resolved to the same id for good, in whatever letters it is
-- written and with whatever space around it: nothing is created and the map stays as it is, even if
-- another name was resolved in between.
pub resolve_or_create-again :
    (create : String → Option ℕ) (name other name' : String) (m : NameMap) (id : ℕ) (new : Bool)
    → (resolve_or_create create name m).0 ≡ resolved id new
    → (name' == "") ≡ false
    → same_letters (strip name) (strip name') ≡ true
    → let m' = (resolve_or_create create other (resolve_or_create create name m).1).1 in
      resolve_or_create create name' m' ≡ (resolved id false, m')
resolve_or_create-again create name other name' m id new h filled same =
    let m1 = (resolve_or_create create name m).1 in
    let m2 = (resolve_or_create create other m1).1 in
    resolve-found create name' m2 id filled (
      sym (find_name-cong (strip name) (strip name') m2.lower_names same)
      ∙ kept_after create other m1 (strip name) id (found_after create name m id new h))
