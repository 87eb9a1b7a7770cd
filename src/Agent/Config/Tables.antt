-- ===== src/Agent/Config/Tables.antt =====
-- Which attribute of the settings comes from where, row by row in the order of config.py.
use Prim.Native.String.{String}
use mathlib.Core.List.{List, [], ◌∷◌}

-- how `_apply_yaml` reads a value; `to_url` cuts the slashes at the end
pub data Cast : Type 0 where
  to_text to_flag to_int to_float to_url to_roles : Cast

-- a key of the file, a key of one of its sections, or a key that may not be true
pub data YamlSource : Type 0 where
  top : Cast → String → YamlSource
  within : String → Cast → String → YamlSource
  never : String → YamlSource

abbrev pub yaml_rules : List (String × YamlSource)
yaml_rules =
    ("paperless_public_url", top to_text "paperless_public_url")
    ∷ ("mode", top to_text "mode")
    ∷ ("triage_enabled", top to_flag "triage_enabled")
    ∷ ("metadata_enabled", top to_flag "metadata_enabled")
    ∷ ("reocr_enabled", top to_flag "reocr_enabled")
    ∷ ("triage_threshold", top to_float "triage_threshold")
    ∷ ("garbage_threshold", top to_float "garbage_threshold")
    ∷ ("workers", top to_int "workers")
    ∷ ("taxonomy_policy", top to_text "taxonomy_policy")
    ∷ ("superseded_tag", top to_text "superseded_tag")
    ∷ ("new_taxonomy_tag", top to_text "new_taxonomy_tag")
    ∷ ("schedule_interval_seconds", top to_int "schedule_interval_seconds")
    ∷ ("force", top to_flag "force")
    ∷ ("limit", top to_int "limit")
    ∷ ("data_dir", top to_text "data_dir")
    ∷ ("snapshot_retention_days", top to_int "snapshot_retention_days")
    ∷ ("activity_enabled", top to_flag "activity_enabled")
    ∷ ("activity_retention_days", top to_int "activity_retention_days")
    ∷ ("max_ocr_tokens", top to_int "max_ocr_tokens")
    ∷ ("superseded_tag_color", top to_text "superseded_tag_color")
    ∷ ("new_taxonomy_tag_color", top to_text "new_taxonomy_tag_color")
    ∷ ("dry_run", top to_flag "dry_run")
    ∷ ("spend.per_run", within "spend" to_float "per_run")
    ∷ ("spend.per_period", within "spend" to_float "per_period")
    ∷ ("spend.period", within "spend" to_text "period")
    ∷ ("metadata_task.provider", within "metadata" to_text "provider")
    ∷ ("metadata_task.model", within "metadata" to_text "model")
    ∷ ("metadata_prompts.extra_instructions", within "metadata" to_text "extra_instructions")
    ∷ ("metadata_prompts.prompt_override", within "metadata" to_text "prompt_override")
    ∷ ("ocr_task.provider", within "ocr" to_text "provider")
    ∷ ("ocr_task.model", within "ocr" to_text "model")
    ∷ ("ocr_prompts.extra_instructions", within "ocr" to_text "extra_instructions")
    ∷ ("ocr_prompts.prompt_override", within "ocr" to_text "prompt_override")
    ∷ ("webhook.enabled", within "webhook" to_flag "enabled")
    ∷ ("webhook.host", within "webhook" to_text "host")
    ∷ ("webhook.port", within "webhook" to_int "port")
    ∷ ("webhook.path", within "webhook" to_text "path")
    ∷ ("webhook.debounce_seconds", within "webhook" to_float "debounce_seconds")
    ∷ ("ui.enabled", within "ui" to_flag "enabled")
    ∷ ("ui.host", within "ui" to_text "host")
    ∷ ("ui.port", within "ui" to_int "port")
    ∷ ("hosted.control_plane_url", within "hosted" to_url "control_plane_url")
    ∷ ("hosted.heartbeat_interval_seconds", within "hosted" to_int "heartbeat_interval_seconds")
    ∷ ("hosted.inference_enabled", within "hosted" to_flag "inference_enabled")
    ∷ ("hosted.inference_ocr_model", within "hosted" to_text "inference_ocr_model")
    ∷ ("hosted.inference_metadata_model", within "hosted" to_text "inference_metadata_model")
    ∷ ("field_names.score", within "field_names" to_text "score")
    ∷ ("field_names.stage", within "field_names" to_text "stage")
    ∷ ("field_names.notes", within "field_names" to_text "notes")
    ∷ ("stage_names.triaged", within "stage_names" to_text "triaged")
    ∷ ("stage_names.reocr_done", within "stage_names" to_text "reocr_done")
    ∷ ("stage_names.metadata_done", within "stage_names" to_text "metadata_done")
    ∷ ("http.request_timeout", within "http" to_float "request_timeout")
    ∷ ("http.download_timeout", within "http" to_float "download_timeout")
    ∷ ("http.post_document_timeout", within "http" to_float "post_document_timeout")
    ∷ ("http.task_poll_timeout", within "http" to_float "task_poll_timeout")
    ∷ ("http.task_poll_interval", within "http" to_float "task_poll_interval")
    ∷ ("http.page_size", within "http" to_int "page_size")
    ∷ ("http.retries", within "http" to_int "retries")
    ∷ ("http.backoff_initial", within "http" to_float "backoff_initial")
    ∷ ("http.backoff_cap", within "http" to_float "backoff_cap")
    ∷ ("metadata_window.content_head", within "metadata_window" to_int "content_head")
    ∷ ("metadata_window.content_tail", within "metadata_window" to_int "content_tail")
    ∷ ("metadata_window.max_tokens", within "metadata_window" to_int "max_tokens")
    ∷ ("metadata_eligible_roles", top to_roles "metadata_eligible_roles")
    ∷ ("garbage_heuristic.min_length", within "garbage_heuristic" to_int "min_length")
    ∷ (
      "garbage_heuristic.word_ratio_weight",
      within "garbage_heuristic" to_float "word_ratio_weight",
    )
    ∷ ("garbage_heuristic.plausible_weight", within "garbage_heuristic" to_float "plausible_weight")
    ∷ ("garbage_heuristic.fragment_weight", within "garbage_heuristic" to_float "fragment_weight")
    ∷ (
      "garbage_heuristic.fragment_threshold",
      within "garbage_heuristic" to_float "fragment_threshold",
    )
    ∷ ("garbage_heuristic.plausible_min_len", within "garbage_heuristic" to_int "plausible_min_len")
    ∷ ("delete_originals", never "delete_originals")
    ∷ []

-- how `_apply_env` reads a variable: `switch` and `filled` want a text that is not empty, with
-- `switch_if_set` and `any_text` it may be empty
pub data EnvKind : Type 0 where
  filled any_text url switch switch_if_set whole decimal : EnvKind

abbrev pub env_rules : List (String × (EnvKind × String))
env_rules =
    ("base_url", (url, "PAPERLESS_URL"))
    ∷ ("paperless_public_url", (url, "PAPERLESS_PUBLIC_URL"))
    ∷ ("paperless_token", (filled, "PAPERLESS_TOKEN"))
    ∷ ("anthropic_api_key", (filled, "ANTHROPIC_API_KEY"))
    ∷ ("openai_api_key", (filled, "OPENAI_API_KEY"))
    ∷ ("openai_base_url", (filled, "OPENAI_BASE_URL"))
    ∷ ("ollama_endpoint", (filled, "PA_OLLAMA_ENDPOINT"))
    ∷ ("agent_token", (filled, "PA_AGENT_TOKEN"))
    ∷ ("webhook.secret", (filled, "PA_WEBHOOK_SECRET"))
    ∷ ("ui.token", (filled, "PA_UI_TOKEN"))
    ∷ ("hosted.enrollment_token", (filled, "PA_ENROLLMENT_TOKEN"))
    ∷ ("triage_enabled", (switch, "PA_TRIAGE_ENABLED"))
    ∷ ("metadata_enabled", (switch, "PA_METADATA_ENABLED"))
    ∷ ("reocr_enabled", (switch, "PA_REOCR_ENABLED"))
    ∷ ("triage_threshold", (decimal, "PA_TRIAGE_THRESHOLD"))
    ∷ ("workers", (whole, "PA_WORKERS"))
    ∷ ("schedule_interval_seconds", (whole, "PA_SCHEDULE_INTERVAL"))
    ∷ ("limit", (whole, "PA_LIMIT"))
    ∷ ("mode", (filled, "PA_MODE"))
    ∷ ("data_dir", (filled, "PA_DATA_DIR"))
    ∷ ("dry_run", (switch_if_set, "PA_DRY_RUN"))
    ∷ ("activity_enabled", (switch, "PA_ACTIVITY_ENABLED"))
    ∷ ("activity_retention_days", (whole, "PA_ACTIVITY_RETENTION_DAYS"))
    ∷ ("spend.per_run", (decimal, "PA_SPEND_PER_RUN"))
    ∷ ("spend.per_period", (decimal, "PA_SPEND_PER_PERIOD"))
    ∷ ("webhook.enabled", (switch, "PA_WEBHOOK_ENABLED"))
    ∷ ("webhook.host", (filled, "PA_WEBHOOK_HOST"))
    ∷ ("webhook.port", (whole, "PA_WEBHOOK_PORT"))
    ∷ ("webhook.path", (filled, "PA_WEBHOOK_PATH"))
    ∷ ("webhook.debounce_seconds", (decimal, "PA_WEBHOOK_DEBOUNCE"))
    ∷ ("ui.enabled", (switch, "PA_UI_ENABLED"))
    ∷ ("ui.host", (filled, "PA_UI_HOST"))
    ∷ ("ui.port", (whole, "PA_UI_PORT"))
    ∷ ("hosted.control_plane_url", (url, "PA_CONTROL_PLANE_URL"))
    ∷ ("hosted.heartbeat_interval_seconds", (whole, "PA_HEARTBEAT_INTERVAL"))
    ∷ ("hosted.inference_enabled", (switch, "PA_HOSTED_INFERENCE"))
    ∷ ("hosted.inference_ocr_model", (filled, "PA_HOSTED_OCR_MODEL"))
    ∷ ("hosted.inference_metadata_model", (filled, "PA_HOSTED_METADATA_MODEL"))
    ∷ ("ocr_task.provider", (filled, "PA_OCR_PROVIDER"))
    ∷ ("metadata_task.provider", (filled, "PA_METADATA_PROVIDER"))
    ∷ ("ocr_task.model", (filled, "PA_OCR_MODEL"))
    ∷ ("metadata_task.model", (filled, "PA_METADATA_MODEL"))
    ∷ ("field_names.score", (filled, "PA_FIELD_SCORE"))
    ∷ ("field_names.stage", (filled, "PA_FIELD_STAGE"))
    ∷ ("field_names.notes", (filled, "PA_FIELD_NOTES"))
    ∷ ("stage_names.triaged", (filled, "PA_STAGE_TRIAGED"))
    ∷ ("stage_names.reocr_done", (filled, "PA_STAGE_REOCR_DONE"))
    ∷ ("stage_names.metadata_done", (filled, "PA_STAGE_METADATA_DONE"))
    ∷ ("http.request_timeout", (decimal, "PA_HTTP_REQUEST_TIMEOUT"))
    ∷ ("http.download_timeout", (decimal, "PA_HTTP_DOWNLOAD_TIMEOUT"))
    ∷ ("http.post_document_timeout", (decimal, "PA_HTTP_POST_TIMEOUT"))
    ∷ ("http.task_poll_timeout", (decimal, "PA_HTTP_TASK_POLL_TIMEOUT"))
    ∷ ("http.task_poll_interval", (decimal, "PA_HTTP_TASK_POLL_INTERVAL"))
    ∷ ("http.page_size", (whole, "PA_HTTP_PAGE_SIZE"))
    ∷ ("http.retries", (whole, "PA_HTTP_RETRIES"))
    ∷ ("http.backoff_initial", (decimal, "PA_HTTP_BACKOFF_INITIAL"))
    ∷ ("http.backoff_cap", (decimal, "PA_HTTP_BACKOFF_CAP"))
    ∷ ("metadata_window.content_head", (whole, "PA_METADATA_CONTENT_HEAD"))
    ∷ ("metadata_window.content_tail", (whole, "PA_METADATA_CONTENT_TAIL"))
    ∷ ("metadata_window.max_tokens", (whole, "PA_METADATA_MAX_TOKENS"))
    ∷ ("metadata_prompts.extra_instructions", (any_text, "PA_METADATA_EXTRA_INSTRUCTIONS"))
    ∷ ("metadata_prompts.prompt_override", (any_text, "PA_METADATA_PROMPT_OVERRIDE"))
    ∷ ("ocr_prompts.extra_instructions", (any_text, "PA_OCR_EXTRA_INSTRUCTIONS"))
    ∷ ("ocr_prompts.prompt_override", (any_text, "PA_OCR_PROMPT_OVERRIDE"))
    ∷ []

-- what only the environment may give
abbrev pub secret_attributes : List String
secret_attributes =
    "paperless_token" ∷ "anthropic_api_key" ∷ "openai_api_key" ∷ "agent_token" ∷ "webhook.secret"
    ∷ "ui.token" ∷ "hosted.enrollment_token" ∷ []
