-- ===== src/Agent/Taxonomy.antt =====
-- src/paperless_assistant/taxonomy.py: names of tags, correspondents and document types, found
-- without regard to case and created where they are missing. A map has the names of one endpoint;
-- the dictionary under the lower-case names is kept under the names themselves and searched by the
-- test that compares lower-case texts. The lock is not modelled.
pub mod Reuse
use paperless_assistant.Base.{
  ℕ, zero, suc, refl, inl, inr, Bool, true, false, String, Option, none, some, List, [], ◌∷◌, ◌++◌,
  arith, ◌==◌, nat_eq, string_eq, pair_eq, if◌then◌else◌,
}
use paperless_assistant.Base.Dict.{Dict, insert}
use paperless_assistant.Base.Text.{same_letters, strip}

pub record NameMap : Type 0 where
  pub names : Dict String ℕ
  pub lower_names : List (String × ℕ)

-- `ci_map.get(key)`: of equal keys the last counts
unfoldable pub find_name : String → List (String × ℕ) → Option ℕ
unfolding same_letters
find_name key [] = none
find_name key ((k, id) ∷ pairs) = elim (find_name key pairs) [
  | some later ↦ some later
  | none ↦ if same_letters k key then some id else none
]

-- the constructor, for one endpoint
unfoldable pub new_names : List (String × ℕ) → Dict String ℕ → NameMap
new_names [] names = record { names = names; lower_names = names }
new_names ((name, id) ∷ pairs) names = new_names pairs (insert name id names)

-- how the resolution of a name ends: no name, an id and whether it is new, or an exception
pub data Resolved : Type 0 where
  no_name : Resolved
  resolved : ℕ → Bool → Resolved
  not_created : Resolved

-- `_resolve_or_create`; `create` is the POST of a name, `none` where it raises
unfoldable pub resolve_or_create : (String → Option ℕ) → String → NameMap → Resolved × NameMap
unfolding find_name strip
resolve_or_create create name m =
    let key = strip name in
    if name == "" then (no_name, m) else elim (find_name key m.lower_names) [
      | some id ↦ (resolved id false, m)
      | none ↦ elim (create key) [
        | none ↦ (not_created, m)
        | some id ↦ (
          resolved id true,
          record { names = insert key id m.names; lower_names = m.lower_names ++ (key, id) ∷ [] },
        )
      ]
    ]
