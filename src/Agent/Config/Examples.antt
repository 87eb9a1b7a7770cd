-- ===== src/Agent/Config/Examples.antt =====
-- A file, an environment and overrides for src/paperless_assistant/config.py.
use paperless_assistant.Base.{
  ◌≡◌, refl, Bool, true, false, not, ◌||◌, String, Option, none, some, List, [], ◌∷◌, any, ◌==◌,
  nat_eq, string_eq, pair_eq, if◌then◌else◌, contains,
}
use paperless_assistant.Base.Dict.{lookup, insert}
use paperless_assistant.Base.Text.{lower_case, concat, strip}
use paperless_assistant.Agent.Config.{
  Setting, nothing, flag, number, text, Settings, Yaml, scalar, mapping, no_entries, entry, loaded,
  is_truthy, get_entry, rejects_secrets, yaml_truthy, assign_all, truthy_text,
}
use paperless_assistant.Agent.Config.Assign.{first_of}
use paperless_assistant.Agent.Config.Layers.{
  chosen_file, file_given, override_given, env_given, default_given, load_settings-precedence,
}
use paperless_assistant.Agent.Config.Load.{
  Casts, ConfigFile, absent, content, or_nothing, load_settings, load_file, config_path, relocated,
  apply_yaml, read_yaml, section_of, cast_as, apply_env, read_env, from_text, apply_overrides,
  check_token, override_attr, read_override,
}
use paperless_assistant.Agent.Config.Secrets.{file_keys, is_secret, load_settings-secrets}

-- numbers of the file as they are, and one text of the environment
abbrev casts : Casts
casts = record {
  int_of = λ y. elim y [
    | scalar (text s) ↦ if s == "8" then some (number 8) else none
    | scalar v ↦ some v
    | _ ↦ none
  ];
  float_of = λ y. elim y [ scalar v ↦ some v | _ ↦ none ];
  str_of = λ y. elim y [ scalar (text s) ↦ s | _ ↦ "" ];
}

abbrev defaults : Settings
defaults =
    ("workers", number 3)
    ∷ ("mode", text "conservative")
    ∷ ("data_dir", text "/data")
    ∷ ("paperless_token", text "")
    ∷ []

abbrev file : Yaml
file =
    mapping
      (entry "workers" (scalar (number 5)) (entry "mode" (scalar (text "review-first")) no_entries))

abbrev read_file : String → ConfigFile
read_file path = if path == "/data/config.yml" then content file else absent

abbrev env : String → Option String
env name =
    if name == "PA_WORKERS"
    then some "8"
    else if name == "PAPERLESS_TOKEN"
    then some "abc"
    else none

abbrev overrides : List (String × Setting)
overrides = ("limit", nothing) ∷ ("dry_run", flag true) ∷ []

abbrev has_attribute : String → Bool
has_attribute key = contains key ("dry_run" ∷ "limit" ∷ [])

abbrev settings : Settings
settings =
    ("workers", number 8)
    ∷ ("mode", text "review-first")
    ∷ ("data_dir", text "/data")
    ∷ ("paperless_token", text "abc")
    ∷ ("dry_run", flag true)
    ∷ []

loads :
    load_settings casts has_attribute defaults read_file env none overrides true ≡ loaded settings
unfolding load_settings load_file config_path concat lookup insert relocated yaml_truthy
    rejects_secrets lower_case apply_yaml assign_all read_yaml get_entry section_of cast_as
    apply_env read_env from_text truthy_text strip apply_overrides check_token override_attr
    read_override is_truthy
loads = refl

load_settings-precedence_example :
    (lookup "workers" settings
      ≡ first_of (override_given casts has_attribute overrides "workers") (
          first_of (env_given casts env "workers") (
            first_of
              (file_given casts (chosen_file defaults read_file env none) "workers")
              (default_given env defaults "workers"))))
    × (not true || is_truthy (or_nothing (lookup "paperless_token" settings)) ≡ true)
load_settings-precedence_example =
    load_settings-precedence casts has_attribute defaults read_file env none overrides true settings
      "workers" loads

load_settings-secrets_example :
    (any is_secret (file_keys (chosen_file defaults read_file env none)) ≡ false)
    × (lookup "paperless_token" settings
        ≡ first_of (override_given casts has_attribute overrides "paperless_token") (
            first_of
              (env_given casts env "paperless_token")
              (default_given env defaults "paperless_token")))
load_settings-secrets_example =
    load_settings-secrets casts has_attribute defaults read_file env none overrides true settings
      "paperless_token" loads refl
