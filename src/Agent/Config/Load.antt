-- ===== src/Agent/Config/Load.antt =====
-- The layers of config.py on each other: defaults, the file, the environment, the overrides.
use paperless_assistant.Base.{
  Bool, true, false, not, ◌||◌, ◌&&◌, String, Option, none, some, List, [], ◌∷◌, map, ◌==◌, nat_eq,
  string_eq, pair_eq, if◌then◌else◌, contains,
}
use paperless_assistant.Base.Dict.{lookup, insert}
use paperless_assistant.Base.Text.{concat, rstrip_slash}
use paperless_assistant.Agent.Config.{
  Setting, nothing, flag, text, texts, Settings, Yaml, scalar, sequence, mapping, Items, no_items,
  item, Entries, no_entries, is_truthy, yaml_truthy, get_entry, truthy_text, rejects_secrets, Given,
  skip, gives, breaks, refuses, Loaded, loaded, config_error, raised, assign_all,
}
use paperless_assistant.Agent.Config.Tables.{
  Cast, to_text, to_flag, to_int, to_float, to_url, to_roles, YamlSource, top, within, never,
  yaml_rules, EnvKind, filled, any_text, url, switch, switch_if_set, whole, decimal, env_rules,
}

-- Python's `int`, `float` and `str`, where `none` is an exception
pub record Casts : Type 0 where
  pub int_of : Yaml → Option Setting
  pub float_of : Yaml → Option Setting
  pub str_of : Yaml → String

-- the file under a path: not there, no YAML, or its content
pub data ConfigFile : Type 0 where
  absent broken : ConfigFile
  content : Yaml → ConfigFile

abbrev pub given : Option Setting → Given
given none = breaks
given (some v) = gives v

abbrev pub is_mapping : Yaml → Bool
is_mapping (mapping es) = true
is_mapping _ = false

abbrev pub or_nothing : Option Setting → Setting
or_nothing none = nothing
or_nothing (some v) = v

-- where `_apply_overrides` writes a key, with the key and its value beside it
abbrev pub task_keys : List String
task_keys = "ocr_provider" ∷ "ocr_model" ∷ "metadata_provider" ∷ "metadata_model" ∷ []

unfoldable pub override_attr : String → String
override_attr key =
    if key == "per_run_cap"
    then "spend.per_run"
    else if key == "per_period_cap"
    then "spend.per_period"
    else if key == "ocr_provider"
    then "ocr_task.provider"
    else if key == "ocr_model"
    then "ocr_task.model"
    else if key == "metadata_provider"
    then "metadata_task.provider"
    else if key == "metadata_model"
    then "metadata_task.model"
    else key

abbrev pub override_rule : String × Setting → String × (String × Setting)
override_rule (key, v) = (override_attr key, (key, v))

-- the early look at `PA_DATA_DIR`
unfoldable pub relocated : (String → Option String) → Settings → Settings
relocated env s = elim (env "PA_DATA_DIR") [
  | none ↦ s
  | some dir ↦ if dir == "" then s else insert "data_dir" (text dir) s
]

abbrev pub text_of : Option Setting → String
text_of (some (text s)) = s
text_of _ = ""

unfoldable pub config_path : Option String → Settings → String
config_path (some file) s =
    if file == "" then concat (text_of (lookup "data_dir" s)) "/config.yml" else file
config_path none s = concat (text_of (lookup "data_dir" s)) "/config.yml"

-- the test at the end: an empty token is a `ConfigError` where one is required
unfoldable pub check_token : Bool → Settings → Loaded
check_token require_token s =
    if require_token && not (is_truthy (or_nothing (lookup "paperless_token" s)))
    then config_error
    else loaded s

infixl 10 ◌>>>◌
abbrev pub ◌>>>◌ : Loaded → (Settings → Loaded) → Loaded
loaded s >>> f = f s
config_error >>> f = config_error
raised >>> f = raised

module _ (casts : Casts) where
  -- `["" if r is None else str(r) for r in roles]`
  unfoldable pub roles_of : Items → List String
  roles_of no_items = []
  roles_of (item (scalar nothing) ys) = "" ∷ roles_of ys
  roles_of (item y ys) = casts.str_of y ∷ roles_of ys

  unfoldable pub cast_as : Cast → Yaml → Given
  cast_as to_text y = gives (text (casts.str_of y))
  cast_as to_flag y = gives (flag (yaml_truthy y))
  cast_as to_int y = given (casts.int_of y)
  cast_as to_float y = given (casts.float_of y)
  cast_as to_url y = gives (text (rstrip_slash (casts.str_of y)))
  cast_as to_roles (sequence ys) = gives (texts (roles_of ys))
  cast_as to_roles y = skip

  abbrev pub cast_entry : Cast → Option Yaml → Given
  cast_entry cast none = skip
  cast_entry cast (some y) = cast_as cast y

  -- the entries of a section; `raw.get(section) or {}` that is no mapping has none
  unfoldable pub section_of : Option Yaml → Entries
  section_of (some (mapping es)) = es
  section_of _ = no_entries

  unfoldable pub read_yaml : Entries → YamlSource → Given
  read_yaml raw (top cast key) = cast_entry cast (get_entry key raw)
  read_yaml raw (within section cast key) =
      cast_entry cast (get_entry key (section_of (get_entry section raw)))
  read_yaml raw (never key) = elim (get_entry key raw) [
    | none ↦ skip
    | some y ↦ if yaml_truthy y then refuses else skip
  ]

  unfoldable pub apply_yaml : Entries → Settings → Loaded
  apply_yaml raw s = assign_all (read_yaml raw) yaml_rules s

  -- `_load_yaml_file` and `_apply_yaml`
  unfoldable pub load_file : ConfigFile → Settings → Loaded
  load_file absent s = loaded s
  load_file broken s = config_error
  load_file (content y) s =
      let applied = apply_yaml (section_of (some y)) s in
      if not (yaml_truthy y)
      then apply_yaml no_entries s
      else if not (is_mapping y) || rejects_secrets y
      then config_error
      else applied

  -- what `_env_bool`, `_env_num` and the tests of `_apply_env` make of a text
  unfoldable pub from_text : EnvKind → String → Given
  from_text filled v = if v == "" then skip else gives (text v)
  from_text any_text v = gives (text v)
  from_text url v = if v == "" then skip else gives (text (rstrip_slash v))
  from_text switch v = if v == "" then skip else gives (flag (truthy_text v))
  from_text switch_if_set v = gives (flag (truthy_text v))
  from_text whole v = if v == "" then skip else given (casts.int_of (scalar (text v)))
  from_text decimal v = if v == "" then skip else given (casts.float_of (scalar (text v)))

  unfoldable pub read_env : (String → Option String) → EnvKind × String → Given
  read_env env (kind, name) = elim (env name) [ none ↦ skip | some v ↦ from_text kind v ]

  unfoldable pub apply_env : (String → Option String) → Settings → Loaded
  apply_env env s = assign_all (read_env env) env_rules s

  -- the value of an override; `has_attribute` is what `hasattr` says of the settings
  unfoldable pub read_override : (String → Bool) → String × Setting → Given
  read_override has_attribute (key, nothing) = skip
  read_override has_attribute (key, v) =
      if key == "per_run_cap" || key == "per_period_cap"
      then given (casts.float_of (scalar v))
      else if contains key task_keys
      then gives v
      else if key == "delete_originals" && is_truthy v
      then refuses
      else if has_attribute key
      then gives v
      else skip

  unfoldable pub apply_overrides : (String → Bool) → List (String × Setting) → Settings → Loaded
  apply_overrides has_attribute overrides s =
      assign_all (read_override has_attribute) (map override_rule overrides) s

  -- `load_settings`; `defaults` are those of `Settings()`, and `read_file` reads a path
  unfoldable pub load_settings :
      (String → Bool)
      → Settings
      → (String → ConfigFile)
      → (String → Option String)
      → Option String
      → List (String × Setting)
      → Bool
      → Loaded
  load_settings has_attribute defaults read_file env config_file overrides require_token =
      let s = relocated env defaults in
      load_file (read_file (config_path config_file s)) s
      >>> apply_env env
      >>> apply_overrides has_attribute overrides
      >>> check_token require_token
