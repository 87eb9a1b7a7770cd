-- ===== src/Agent/Config/Secrets.antt =====
-- The file of config.py never brings a secret.
use paperless_assistant.Base.{
  ◌≡◌, refl, sym, ap, ◌∙◌, inl, inr, Bool, true, false, ◌||◌, String, Option, none, some, List, [],
  ◌∷◌, ◌++◌, map, arith, Bool-cases, any, All, ◌==◌, nat_eq, string_eq, pair_eq, if◌then◌else◌,
  contains,
}
use paperless_assistant.Base.Dict.{lookup}
use paperless_assistant.Agent.Config.{
  Setting, Settings, loaded, Yaml, scalar, sequence, mapping, Items, no_items, item, Entries,
  no_entries, entry, rejects_secrets, rejects_items, rejects_entries, secret_yaml_keys, yaml_truthy,
}
use paperless_assistant.Agent.Config.Tables.{YamlSource, yaml_rules, secret_attributes}
use paperless_assistant.Agent.Config.Assign.{first_of, given_to-absent}
use paperless_assistant.Agent.Config.Layers.{
  load_file-cases, load_settings-Layered, file_given, chosen_file, override_given, env_given,
  default_given, load_settings-precedence,
}
use paperless_assistant.Agent.Config.Load.{
  Casts, ConfigFile, absent, broken, content, section_of, read_yaml, load_file, relocated,
  load_settings,
}
use paperless_assistant.Base.Text.{lower_case}

-- all keys of a file, at any depth
abbrev mutual
  pub keys_of : Yaml → List String
  keys_of (scalar v) = []
  keys_of (sequence ys) = item_keys ys
  keys_of (mapping es) = entry_keys es

  pub item_keys : Items → List String
  item_keys no_items = []
  item_keys (item y ys) = keys_of y ++ item_keys ys

  pub entry_keys : Entries → List String
  entry_keys no_entries = []
  entry_keys (entry k y es) = k ∷ (keys_of y ++ entry_keys es)

abbrev pub file_keys : ConfigFile → List String
file_keys (content y) = keys_of y
file_keys _ = []

abbrev pub is_secret : String → Bool
is_secret k = contains (lower_case k) secret_yaml_keys

any-append : (p : String → Bool) (xs ys : List String) → any p (xs ++ ys) ≡ any p xs || any p ys
any-append p [] ys = refl
any-append p (x ∷ xs) ys = ground (arith, any-append p xs ys)

both : {a b c d : Bool} → a ≡ c → b ≡ d → (a || b) ≡ (c || d)
both h k = ground (arith, h, k)

or_under : (a : Bool) {b c : Bool} → b ≡ c → (a || b) ≡ (if a then true else c)
or_under a h = ground (arith, h)

mutual
  unfolding rejects_secrets

  rejects_secrets-any : (y : Yaml) → rejects_secrets y ≡ any is_secret (keys_of y)
  rejects_secrets-any (scalar v) = refl
  rejects_secrets-any (sequence ys) = rejects_items-any ys
  rejects_secrets-any (mapping es) = rejects_entries-any es

  rejects_items-any : (ys : Items) → rejects_items ys ≡ any is_secret (item_keys ys)
  rejects_items-any no_items = refl
  rejects_items-any (item y ys) =
      both (rejects_secrets-any y) (rejects_items-any ys)
      ∙ sym (any-append is_secret (keys_of y) (item_keys ys))

  rejects_entries-any : (es : Entries) → rejects_entries es ≡ any is_secret (entry_keys es)
  rejects_entries-any no_entries = refl
  rejects_entries-any (entry k y es) = or_under (is_secret k) (
      both (rejects_secrets-any y) (rejects_entries-any es)
      ∙ sym (any-append is_secret (keys_of y) (entry_keys es)))

no_keys : (y : Yaml) → yaml_truthy y ≡ false → any is_secret (keys_of y) ≡ false
unfolding yaml_truthy
no_keys (scalar v) h = refl
no_keys (sequence no_items) h = refl
no_keys (sequence (item y ys)) h = absurd (ground (arith, h))
no_keys (mapping no_entries) h = refl
no_keys (mapping (entry k y es)) h = absurd (ground (arith, h))

-- an attribute that no row of the table for the file is about
abbrev Unread : String → Type 0
Unread a = contains a (map (λ (r : String × YamlSource). r.0) yaml_rules) ≡ false

rows_spare_secrets : All Unread secret_attributes
rows_spare_secrets = (refl, (refl, (refl, (refl, (refl, (refl, (refl, tt)))))))

All-contains :
    (P : String → Type 0) (xs : List String) (a : String) → All P xs → contains a xs ≡ true → P a
All-contains P [] a h there = absurd (ground (arith, there))
All-contains P (x ∷ xs) a (here, h) there = elim (Bool-cases (x == a)) [
  | inl same ↦ rw (sym ((string_eq.test_iff x a).0 same)) here
  | inr other ↦ All-contains P xs a h (ground (arith, there, other))
]

file_silent :
    (casts : Casts) (f : ConfigFile) (a : String)
    → contains a secret_attributes ≡ true
    → file_given casts f a ≡ none
file_silent casts absent a h = refl
file_silent casts broken a h = refl
file_silent casts (content y) a h =
    given_to-absent (read_yaml casts (section_of casts (some y))) yaml_rules a
      (All-contains Unread secret_attributes a rows_spare_secrets h)

file_clean :
    (casts : Casts) (f : ConfigFile) (s s' : Settings)
    → load_file casts f s ≡ loaded s'
    → any is_secret (file_keys f) ≡ false
file_clean casts absent s s' h = refl
file_clean casts broken s s' h = refl
file_clean casts (content y) s s' h = elim ((load_file-cases casts y s s' h).0) [
  | inl empty ↦ no_keys y empty
  | inr clean ↦ sym (rejects_secrets-any y) ∙ clean
]

module _ (casts : Casts) (has_attribute : String → Bool) (defaults : Settings)
    (read_file : String → ConfigFile) (env : String → Option String) (config_file : Option String)
    (overrides : List (String × Setting)) (require_token : Bool) where
  -- Whenever load_settings gives settings, no key at any depth of the file that it read is the name
  -- of a secret, and each token, key and secret among the settings is that of the overrides, else of
  -- the environment, else of the defaults, whatever the file says.
  pub load_settings-secrets :
      (s' : Settings) (a : String)
      → load_settings casts has_attribute defaults read_file env config_file overrides require_token
        ≡ loaded s'
      → contains a secret_attributes ≡ true
      → (any is_secret (file_keys (chosen_file defaults read_file env config_file)) ≡ false)
        × (lookup a s'
            ≡ first_of
                (override_given casts has_attribute overrides a)
                (first_of (env_given casts env a) (default_given env defaults a)))
  load_settings-secrets s' a h secret =
      let l =
        load_settings-Layered casts has_attribute defaults read_file env config_file overrides
          require_token s' h in
      let f = chosen_file defaults read_file env config_file in
      (
        file_clean casts f (relocated env defaults) l.read l.file_loads,
        (load_settings-precedence casts has_attribute defaults read_file env config_file overrides
              require_token s' a h).0
            ∙ ap
                (λ v.
                  first_of (override_given casts has_attribute overrides a)
                    (first_of (env_given casts env a) (first_of v (default_given env defaults a))))
                (file_silent casts f a secret),
      )
