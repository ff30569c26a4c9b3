-- ===== src/Config.antt =====
-- internal/config/config.go: the configuration's records. A string is a text, and the fields that YAML
-- decoding notes as set are flags.
pub mod Errors
pub mod Urls
pub mod Caddy
pub mod Targets
pub mod Validate
use statlite.Prelude.{ℕ, zero, suc, String, Bool, true, false, Option, List}

-- Go's signed int; `negsuc n` is -(n + 1).
pub data ℤ : Type 0 where
  pos : ℕ → ℤ
  negsuc : ℕ → ℤ

abbrev pub is_negative : ℤ → Bool
is_negative (pos n) = false
is_negative (negsuc n) = true

abbrev pub is_positive : ℤ → Bool
is_positive (pos zero) = false
is_positive (pos (suc n)) = true
is_positive (negsuc n) = false

pub record ServerConfig : Type 0 where
  pub listen : String

pub record StorageConfig : Type 0 where
  pub sqlite_path : String
  pub retention_days : ℤ

pub record PollingConfig : Type 0 where
  pub interval : String
  pub timeout : String

pub record AuthConfig : Type 0 where
  pub type : String
  pub username : String
  pub password : String

pub record TargetConfig : Type 0 where
  pub type : String
  pub name : String
  pub actuator_base_url : String
  pub url : String
  pub host : String
  pub health_url : String
  pub metrics_source : String
  pub collect_host_metrics : Bool
  pub auth : Option AuthConfig
  pub host_set : Bool
  pub actuator_url_set : Bool
  pub metrics_source_set : Bool
  pub collect_host_set : Bool
  pub health_url_set : Bool
  pub legacy_actuator_userinfo : Bool
  pub legacy_statlite_target : Bool

-- A warning is the index of its target and the kind of its migration.
pub data Warning : Type 0 where
  actuator_base_url_deprecated : ℕ → Warning
  statlite_type_deprecated : ℕ → Warning

pub record Config : Type 0 where
  pub server : ServerConfig
  pub storage : StorageConfig
  pub polling : PollingConfig
  pub targets : List TargetConfig
  pub deprecation_warnings : List Warning

-- *url.URL, as far as it is read: its fields, and what User != nil, Hostname(), Port() and
-- EscapedPath() say of it.
pub record Url : Type 0 where
  pub scheme : String
  pub has_user : Bool
  pub host : String
  pub hostname : String
  pub port : String
  pub path : String
  pub escaped_path : String
  pub raw_query : String
  pub force_query : Bool
  -- All else that String() prints.
  pub rest : String

-- What the configuration leaves to net/url, strings.ToLower and time.ParseDuration.
pub record Parsers : Type 0 where
  pub parse_url : String → Option Url
  pub url_string : Url → String
  pub to_lower : String → String
  pub parse_duration : String → Option ℤ
