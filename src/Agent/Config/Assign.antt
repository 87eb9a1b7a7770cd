-- ===== src/Agent/Config/Assign.antt =====
-- What a row of assignments of config.py leaves under each attribute.
use paperless_assistant.Base.{
  ◌≡◌, refl, sym, ap, ◌∙◌, ◌⊎◌, inl, inr, Bool, true, false, String, Option, none, some, List, [],
  ◌∷◌, map, arith, ◌==◌, nat_eq, string_eq, pair_eq, if◌then◌else◌, contains,
}
use paperless_assistant.Base.Dict.{lookup, insert, lookup-insert}
use paperless_assistant.Agent.Config.{
  Setting, Settings, Given, skip, gives, breaks, refuses, loaded, config_error, raised, assign_all,
}

-- the first of two layers that has a value
abbrev pub first_of : Option Setting → Option Setting → Option Setting
first_of none b = b
first_of (some v) b = some v

abbrev pub value_of : Given → Option Setting
value_of (gives v) = some v
value_of _ = none

module _ {R : Type 0} (read : R → Given) where
  -- what a table of rules has for an attribute: the last value that one of its rows gives
  abbrev pub given_to : List (String × R) → String → Option Setting
  given_to [] a = none
  given_to ((attr, r) ∷ rules) a =
      first_of (given_to rules a) (if attr == a then value_of (read r) else none)

  Given-cases :
      (g : Given) → (g ≡ skip) ⊎ (((v : Setting) × (g ≡ gives v)) ⊎ ((g ≡ breaks) ⊎ (g ≡ refuses)))
  Given-cases skip = inl refl
  Given-cases (gives v) = inr (inl (v, refl))
  Given-cases breaks = inr (inr (inl refl))
  Given-cases refuses = inr (inr (inr refl))

  assign_all-given :
      (attr : String) (r : R) (rules : List (String × R)) (s : Settings) (v : Setting)
      → read r ≡ gives v
      → assign_all read ((attr, r) ∷ rules) s ≡ assign_all read rules (insert attr v s)
  unfolding assign_all
  assign_all-given attr r rules s v h = rw (h, assign_all) refl

  assign_all-skipped :
      (attr : String) (r : R) (rules : List (String × R)) (s : Settings)
      → read r ≡ skip
      → assign_all read ((attr, r) ∷ rules) s ≡ assign_all read rules s
  unfolding assign_all
  assign_all-skipped attr r rules s h = rw (h, assign_all) refl

  assign_all-broken :
      (attr : String) (r : R) (rules : List (String × R)) (s : Settings)
      → read r ≡ breaks
      → assign_all read ((attr, r) ∷ rules) s ≡ raised
  unfolding assign_all
  assign_all-broken attr r rules s h = rw (h, assign_all) refl

  assign_all-refused :
      (attr : String) (r : R) (rules : List (String × R)) (s : Settings)
      → read r ≡ refuses
      → assign_all read ((attr, r) ∷ rules) s ≡ config_error
  unfolding assign_all
  assign_all-refused attr r rules s h = rw (h, assign_all) refl

  assign_all-nil : (s s' : Settings) → assign_all read [] s ≡ loaded s' → s' ≡ s
  unfolding assign_all
  assign_all-nil s s' h = ground (arith, h)

first_given :
    (rest d : Option Setting) (v : Setting) (same : Bool)
    → first_of rest (if same then some v else d)
      ≡ first_of (first_of rest (if same then some v else none)) d
first_given none d v true = refl
first_given none d v false = refl
first_given (some w) d v same = refl

first_skipped :
    (rest d : Option Setting) (same : Bool)
    → first_of rest d ≡ first_of (first_of rest (if same then none else none)) d
first_skipped none d true = refl
first_skipped none d false = refl
first_skipped (some w) d same = refl

-- a table that runs to its end gives each attribute its last value, and leaves the others
pub assign_all-lookup :
    {R : Type 0} (read : R → Given) (rules : List (String × R)) (s s' : Settings) (a : String)
    → assign_all read rules s ≡ loaded s'
    → lookup a s' ≡ first_of (given_to read rules a) (lookup a s)
assign_all-lookup read [] s s' a h = ap (lookup a) (assign_all-nil read s s' h)
assign_all-lookup read ((attr, r) ∷ rules) s s' a h =
    let rest = given_to read rules a in
    let behind = λ (g : Given).
      first_of (first_of rest (if attr == a then value_of g else none)) (lookup a s) in
    elim (Given-cases read (read r)) [
      | inl skips ↦
          assign_all-lookup read rules s s' a
            (sym (assign_all-skipped read attr r rules s skips) ∙ h)
          ∙ first_skipped rest (lookup a s) (attr == a)
          ∙ ap behind (sym skips)
      | inr (inl (v, has)) ↦
          assign_all-lookup read rules (insert attr v s) s' a
            (sym (assign_all-given read attr r rules s v has) ∙ h)
          ∙ ap (first_of rest) (lookup-insert attr a v s)
          ∙ first_given rest (lookup a s) v (attr == a)
          ∙ ap behind (sym has)
      | inr (inr (inl stops)) ↦
          absurd (ground (arith, sym (assign_all-broken read attr r rules s stops) ∙ h))
      | inr (inr (inr stops)) ↦
          absurd (ground (arith, sym (assign_all-refused read attr r rules s stops) ∙ h))
    ]

-- what no row is about is not given
pub given_to-absent :
    {R : Type 0} (read : R → Given) (rules : List (String × R)) (a : String)
    → contains a (map (λ (r : String × R). r.0) rules) ≡ false
    → given_to read rules a ≡ none
given_to-absent read [] a h = refl
given_to-absent read ((attr, r) ∷ rules) a h =
    ground (arith, h, given_to-absent read rules a (ground (arith, h)))
