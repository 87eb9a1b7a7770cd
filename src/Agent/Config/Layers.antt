-- ===== src/Agent/Config/Layers.antt =====
-- The precedence of the layers of config.py.
use paperless_assistant.Base.{
  ◌≡◌, refl, ap, ◌∙◌, ◌⊎◌, inl, inr, Bool, true, false, not, ◌||◌, String, Option, none, some, List,
  map, arith, Bool-cases, nat_eq, string_eq, pair_eq,
}
use paperless_assistant.Base.Dict.{lookup}
use paperless_assistant.Agent.Config.{
  Setting, Settings, Loaded, loaded, config_error, raised, Yaml, scalar, sequence, mapping,
  no_entries, entry, Entries, rejects_secrets, yaml_truthy, is_truthy,
}
use paperless_assistant.Agent.Config.Tables.{yaml_rules, env_rules}
use paperless_assistant.Agent.Config.Assign.{first_of, given_to, assign_all-lookup}
use paperless_assistant.Agent.Config.Load.{
  Casts, ConfigFile, absent, broken, content, section_of, read_yaml, apply_yaml, load_file,
  read_env, apply_env, read_override, override_rule, apply_overrides, relocated, config_path,
  or_nothing, check_token, ◌>>>◌, load_settings,
}

pub bind-loaded :
    (m : Loaded) (f : Settings → Loaded) (s : Settings)
    → (m >>> f) ≡ loaded s
    → (s1 : Settings) × ((m ≡ loaded s1) × (f s1 ≡ loaded s))
bind-loaded (loaded s1) f s h = (s1, (refl, h))
bind-loaded config_error f s h = absurd (ground (arith, h))
bind-loaded raised f s h = absurd (ground (arith, h))

same_settings : (s s' : Settings) → loaded s ≡ loaded s' → s' ≡ s
same_settings s s' h = ground (arith, h)

module _ (casts : Casts) where
  empty_section : (y : Yaml) → yaml_truthy y ≡ false → section_of casts (some y) ≡ no_entries
  unfolding section_of yaml_truthy
  empty_section (scalar v) h = refl
  empty_section (sequence ys) h = refl
  empty_section (mapping no_entries) h = refl
  empty_section (mapping (entry k y es)) h = absurd (ground (arith, h))

  -- what the file has for an attribute
  abbrev pub file_given : ConfigFile → String → Option Setting
  file_given (content y) a = given_to (read_yaml casts (section_of casts (some y))) yaml_rules a
  file_given _ a = none

  apply_yaml-lookup :
      (raw : Entries) (s s' : Settings) (a : String)
      → apply_yaml casts raw s ≡ loaded s'
      → lookup a s' ≡ first_of (given_to (read_yaml casts raw) yaml_rules a) (lookup a s)
  unfolding apply_yaml
  apply_yaml-lookup raw s s' a h = assign_all-lookup (read_yaml casts raw) yaml_rules s s' a h

  -- a file that is read is empty, or a mapping without a secret key
  pub load_file-cases :
      (y : Yaml) (s s' : Settings)
      → load_file casts (content y) s ≡ loaded s'
      → ((yaml_truthy y ≡ false) ⊎ (rejects_secrets y ≡ false))
        × (apply_yaml casts (section_of casts (some y)) s ≡ loaded s')
  unfolding load_file
  load_file-cases y s s' h = elim (Bool-cases (yaml_truthy y)) [
    | inl filled ↦ elim (Bool-cases (rejects_secrets y)) [
      | inl secret ↦ absurd (ground (arith, h, filled, secret))
      | inr clean ↦ (inr clean, ground (arith, h, filled, clean))
    ]
    | inr empty ↦ (inl empty, rw (empty_section y empty) (ground (arith, h, empty)))
  ]

  load_file-lookup :
      (f : ConfigFile) (s s' : Settings) (a : String)
      → load_file casts f s ≡ loaded s'
      → lookup a s' ≡ first_of (file_given f a) (lookup a s)
  unfolding load_file
  load_file-lookup absent s s' a h = ap (lookup a) (same_settings s s' h)
  load_file-lookup broken s s' a h = absurd (ground (arith, h))
  load_file-lookup (content y) s s' a h =
      apply_yaml-lookup (section_of casts (some y)) s s' a (load_file-cases y s s' h).1

  check_token-loaded :
      (require_token : Bool) (s s' : Settings)
      → check_token require_token s ≡ loaded s'
      → (s' ≡ s)
        × (not require_token || is_truthy (or_nothing (lookup "paperless_token" s')) ≡ true)
  unfolding check_token
  check_token-loaded require_token s s' h =
      elim (Bool-cases (not require_token || is_truthy (or_nothing (lookup "paperless_token" s)))) [
        | inl fine ↦
            let same = same_settings s s' (ground (arith, h, fine)) in
            (
              same,
              ap (λ t. not require_token || is_truthy (or_nothing (lookup "paperless_token" t)))
                    same
                  ∙ fine,
            )
        | inr empty ↦ absurd (ground (arith, h, empty))
      ]

-- the file that is read, and what the overrides, the environment and the defaults have
abbrev pub chosen_file :
    Settings → (String → ConfigFile) → (String → Option String) → Option String → ConfigFile
chosen_file defaults read_file env config_file =
    read_file (config_path config_file (relocated env defaults))

abbrev pub override_given :
    Casts → (String → Bool) → List (String × Setting) → String → Option Setting
override_given casts has_attribute overrides a =
    given_to (read_override casts has_attribute) (map override_rule overrides) a

abbrev pub env_given : Casts → (String → Option String) → String → Option Setting
env_given casts env a = given_to (read_env casts env) env_rules a

abbrev pub default_given : (String → Option String) → Settings → String → Option Setting
default_given env defaults a = lookup a (relocated env defaults)

module _ (casts : Casts) (has_attribute : String → Bool) (defaults : Settings)
    (read_file : String → ConfigFile) (env : String → Option String) (config_file : Option String)
    (overrides : List (String × Setting)) (require_token : Bool) where
  -- the settings between the layers
  pub record Layered (s' : Settings) : Type 0 where
    pub read : Settings
    pub file_loads :
        load_file casts (chosen_file defaults read_file env config_file) (relocated env defaults)
        ≡ loaded read
    pub above :
        (a : String)
        → lookup a s'
          ≡ first_of
              (override_given casts has_attribute overrides a)
              (first_of (env_given casts env a) (lookup a read))
    pub token : not require_token || is_truthy (or_nothing (lookup "paperless_token" s')) ≡ true

  pub load_settings-Layered :
      (s' : Settings)
      → load_settings casts has_attribute defaults read_file env config_file overrides require_token
        ≡ loaded s'
      → Layered s'
  unfolding load_settings apply_env apply_overrides
  load_settings-Layered s' h =
      let (s3, (over, checked)) = bind-loaded _ (check_token require_token) s' h in
      let (s2, (with_env, overridden)) =
        bind-loaded _ (apply_overrides casts has_attribute overrides) s3 over in
      let (s1, (file, applied)) = bind-loaded _ (apply_env casts env) s2 with_env in
      let (same, token) = check_token-loaded casts require_token s3 s' checked in
      record {
        read = s1;
        file_loads = file;
        above = λ a.
            ap (lookup a) same
            ∙ assign_all-lookup (read_override casts has_attribute) (map override_rule overrides) s2
                s3 a overridden
            ∙ ap (first_of (override_given casts has_attribute overrides a))
                (assign_all-lookup (read_env casts env) env_rules s1 s2 a applied);
        token = token;
      }

  -- Whenever load_settings gives settings, each attribute has the value of the highest layer that
  -- has one for it: of the overrides, else of the environment, else of the file, else of the
  -- defaults, in each layer the last one given. Where a token is required, there is one.
  pub load_settings-precedence :
      (s' : Settings) (a : String)
      → load_settings casts has_attribute defaults read_file env config_file overrides require_token
        ≡ loaded s'
      → (lookup a s'
          ≡ first_of (override_given casts has_attribute overrides a) (
              first_of (env_given casts env a) (
                first_of
                  (file_given casts (chosen_file defaults read_file env config_file) a)
                  (default_given env defaults a))))
        × (not require_token || is_truthy (or_nothing (lookup "paperless_token" s')) ≡ true)
  load_settings-precedence s' a h =
      let l = load_settings-Layered s' h in
      (
        l.above a
            ∙ ap
                (λ v.
                  first_of (override_given casts has_attribute overrides a)
                    (first_of (env_given casts env a) v))
                (load_file-lookup casts (chosen_file defaults read_file env config_file)
                  (relocated env defaults) l.read a l.file_loads),
        l.token,
      )
