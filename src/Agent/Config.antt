-- ===== src/Agent/Config.antt =====
-- src/paperless_assistant/config.py: the layers of the settings. The settings are a dictionary from
-- the attributes, with the name of their group in front, to values; a number is a number of units of
-- 10⁻⁴. Python's `int`, `float` and `str` are parameters, the environment and the files functions.

pub mod Tables
pub mod Layers
pub mod Secrets
mod Examples
pub mod Assign
pub mod Load
use paperless_assistant.Base.{
  ℕ, zero, suc, refl, inl, inr, Bool, true, false, not, ◌||◌, String, Option, none, some, List, [],
  ◌∷◌, arith, nat_beq, ◌==◌, nat_eq, string_eq, pair_eq, if◌then◌else◌, contains,
}
use paperless_assistant.Base.Dict.{Dict, insert}
use paperless_assistant.Base.Text.{strip, lower_case}

pub data Setting : Type 0 where
  nothing : Setting
  flag : Bool → Setting
  number : ℕ → Setting
  text : String → Setting
  texts : List String → Setting

abbrev pub Settings : Type 0
Settings = Dict String Setting

-- what `yaml.safe_load` gives; the keys as `str` shows them
mutual
  pub data Yaml : Type 0 where
    scalar : Setting → Yaml
    sequence : Items → Yaml
    mapping : Entries → Yaml

  pub data Items : Type 0 where
    no_items : Items
    item : Yaml → Items → Items

  pub data Entries : Type 0 where
    no_entries : Entries
    entry : String → Yaml → Entries → Entries

-- `bool(value)`
unfoldable pub is_truthy : Setting → Bool
is_truthy nothing = false
is_truthy (flag b) = b
is_truthy (number n) = not (nat_beq n 0)
is_truthy (text s) = not (s == "")
is_truthy (texts []) = false
is_truthy (texts (s ∷ ss)) = true

unfoldable pub yaml_truthy : Yaml → Bool
yaml_truthy (scalar v) = is_truthy v
yaml_truthy (sequence no_items) = false
yaml_truthy (sequence (item y ys)) = true
yaml_truthy (mapping no_entries) = false
yaml_truthy (mapping (entry k y es)) = true

-- `raw.get(key)`, where `None` counts as missing
unfoldable pub get_entry : String → Entries → Option Yaml
get_entry key no_entries = none
get_entry key (entry k (scalar nothing) es) =
    let rest = get_entry key es in if k == key then none else rest
get_entry key (entry k y es) = let rest = get_entry key es in if k == key then some y else rest

-- `_truthy`
unfoldable pub truthy_text : String → Bool
truthy_text v = contains (lower_case (strip v)) ("1" ∷ "true" ∷ "yes" ∷ "on" ∷ [])

-- `SECRET_YAML_KEYS`
abbrev pub secret_yaml_keys : List String
secret_yaml_keys =
    "paperless_token" ∷ "token" ∷ "anthropic_api_key" ∷ "openai_api_key" ∷ "agent_token"
    ∷ "pa_agent_token" ∷ "api_key" ∷ "secret" ∷ "enrollment_token" ∷ "agent_credential" ∷ []

-- `_reject_secrets`: whether it raises
unfoldable mutual
  pub rejects_secrets : Yaml → Bool
  rejects_secrets (scalar v) = false
  rejects_secrets (sequence ys) = rejects_items ys
  rejects_secrets (mapping es) = rejects_entries es

  pub rejects_items : Items → Bool
  rejects_items no_items = false
  rejects_items (item y ys) = rejects_secrets y || rejects_items ys

  pub rejects_entries : Entries → Bool
  rejects_entries no_entries = false
  rejects_entries (entry k y es) =
      contains (lower_case k) secret_yaml_keys || (rejects_secrets y || rejects_entries es)

-- what a source has for an attribute: nothing, a value, an exception of a cast, or a `ConfigError`
pub data Given : Type 0 where
  skip : Given
  gives : Setting → Given
  breaks : Given
  refuses : Given

-- the settings, a `ConfigError`, or another exception
pub data Loaded : Type 0 where
  loaded : Settings → Loaded
  config_error : Loaded
  raised : Loaded

-- A row of `setattr` calls: each attribute with the place in the source that may give it.
unfoldable pub assign_all : {R : Type 0} → (R → Given) → List (String × R) → Settings → Loaded
assign_all read [] s = loaded s
assign_all read ((attr, r) ∷ rules) s = elim (read r) [
  | skip ↦ assign_all read rules s
  | gives v ↦ assign_all read rules (insert attr v s)
  | breaks ↦ raised
  | refuses ↦ config_error
]
