-- ===== src/Config/Errors.antt =====
-- The errors of a configuration (internal/config/config.go, internal/urlshape/http.go).
use statlite.Prelude.{ℕ, String}

pub data Reason : Type 0 where
  configures_both_urls : Reason
  required : Reason
  unsupported_value : String → Reason
  only_for_spring : Reason
  only_for_caddy : Reason
  only_for_quarkus_and_micronaut : Reason
  auth_not_supported : Reason
  only_basic : Reason
  contains_colon : Reason
  legacy_credentials : Reason
  not_an_exact_host : Reason
  port_out_of_range : Reason
  invalid_dns_label : Reason
  duplicate_caddy_selection : String → Reason
  -- urlshape's kinds, and validateTargetURL's own.
  not_absolute : Reason
  url_syntax : Reason
  url_scheme : Reason
  url_host : Reason
  url_port : Reason
  url_fragment : Reason
  embedded_credentials : Reason
  query_string : Reason

pub data ConfigError : Type 0 where
  config_required : ConfigError
  listen_required : ConfigError
  sqlite_path_required : ConfigError
  retention_days_negative : ConfigError
  interval_required : ConfigError
  interval_invalid : ConfigError
  interval_not_positive : ConfigError
  timeout_invalid : ConfigError
  timeout_not_positive : ConfigError
  no_targets : ConfigError
  name_required : ℕ → ConfigError
  duplicate_name : ℕ → String → ℕ → ConfigError
  -- TargetValidationError: the target, its field and the reason.
  target_error : String → String → Reason → ConfigError
