-- ===== src/Config/Validate.antt =====
-- internal/config/config.go and deprecated.go: Validate, with the migration of retired formats before it.
pub mod Sound
use statlite.Result.{Result, ok, err, ◌>>=◌, ◌>>◌, refuse, or_err}
use statlite.Config.{
  ℤ, is_negative, is_positive, Config, TargetConfig, Url, Warning, actuator_base_url_deprecated,
  statlite_type_deprecated, Parsers,
}
use statlite.Config.Errors.{
  Reason, ConfigError, config_required, listen_required, sqlite_path_required,
  retention_days_negative, interval_required, interval_invalid, interval_not_positive,
  timeout_invalid, timeout_not_positive, configures_both_urls, url_fragment,
}
use statlite.Config.Urls.{contains_code}
use statlite.Config.Caddy.{target_error_of}
use statlite.Config.Targets.{is_type, default_to, validate_targets}
use statlite.Prelude.{
  ℕ, ◌+◌, ◌*◌, ◌/◌, String, Bool, true, false, not, ◌&&◌, ◌||◌, Option, none, some, List, [], ◌∷◌,
  map, if◌then◌else◌, is_empty, trim_space, is_blank,
}

-- The first loop of Validate: what no migration can repair.
abbrev pub is_spring : TargetConfig → Bool
is_spring t = is_empty t.type || is_type t "spring"

unfoldable pub check_retired : List TargetConfig → Result ConfigError (Unit {0})
check_retired [] = ok tt
check_retired (t ∷ ts) = do
  refuse (is_type t "statlite" && contains_code b'#' t.url) (target_error_of t "url" url_fragment)
  refuse (is_spring t && not (is_empty t.url) && not (is_empty t.actuator_base_url))
      (target_error_of t "url" configures_both_urls)
  check_retired ts

abbrev pub has_user_of : Option Url → Bool
has_user_of none = false
has_user_of (some u) = u.has_user

module _ (lib : Parsers) where
  -- urlHasUserinfo
  abbrev pub url_has_userinfo : String → Bool
  url_has_userinfo raw = has_user_of (lib.parse_url raw)

  abbrev pub metrics_path : String → Option Url → String
  metrics_path raw none = raw
  metrics_path raw (some u) =
      lib.url_string (record u { path = "/statlite/metrics"; escaped_path = "/statlite/metrics" })

  unfoldable pub statlite_metrics_url : String → String
  statlite_metrics_url raw = metrics_path raw (lib.parse_url (trim_space raw))

  abbrev pub uses_base_url : TargetConfig → Bool
  uses_base_url t = is_spring t && not (is_empty t.actuator_base_url) && is_empty t.url

  -- A Spring target with the retired actuator_base_url.
  unfoldable pub upgrade_spring : TargetConfig → TargetConfig
  upgrade_spring t =
      if uses_base_url t
      then record t {
        legacy_actuator_userinfo = url_has_userinfo t.actuator_base_url;
        url = t.actuator_base_url;
        actuator_base_url = "";
      }
      else t

  -- A target of the retired type statlite.
  unfoldable pub upgrade_statlite : TargetConfig → TargetConfig
  unfolding statlite_metrics_url
  upgrade_statlite t =
      if is_type t "statlite"
      then record t {
        type = "statlite-metrics";
        legacy_statlite_target = true;
        url = statlite_metrics_url t.url;
      }
      else t

  unfoldable pub upgrade_target : TargetConfig → TargetConfig
  unfolding upgrade_spring upgrade_statlite
  upgrade_target t = upgrade_statlite (upgrade_spring t)

  abbrev pub warn_if : Bool → Warning → List Warning → List Warning
  warn_if b w ws = if b then w ∷ ws else ws

  unfoldable pub warnings_from : ℕ → List TargetConfig → List Warning
  warnings_from i [] = []
  warnings_from i (t ∷ ts) =
      warn_if (uses_base_url t) (actuator_base_url_deprecated i)
        (warn_if (is_type t "statlite") (statlite_type_deprecated i) (warnings_from (i + 1) ts))

  -- upgradeDeprecatedTargets
  unfoldable pub upgrade_deprecated_targets : Config → Config
  unfolding upgrade_target warnings_from
  upgrade_deprecated_targets c = record c {
    targets = map upgrade_target c.targets;
    deprecation_warnings = warnings_from 0 c.targets;
  }

  abbrev pub positive_duration :
      ConfigError → ConfigError → Option ℤ → Result ConfigError (Unit {0})
  positive_duration invalid not_positive none = err invalid
  positive_duration invalid not_positive (some d) = refuse (not (is_positive d)) not_positive

  -- (*Config).validate
  unfoldable pub validate_config : Config → Result ConfigError Config
  validate_config c = do
    refuse (is_blank c.server.listen) listen_required
    refuse (is_empty c.storage.sqlite_path) sqlite_path_required
    refuse (is_negative c.storage.retention_days) retention_days_negative
    refuse (is_empty c.polling.interval) interval_required
    positive_duration interval_invalid interval_not_positive (lib.parse_duration c.polling.interval)
    let timeout = default_to c.polling.timeout "10s"
    positive_duration timeout_invalid timeout_not_positive (lib.parse_duration timeout)
    targets ← validate_targets lib c.targets
    ok (record c { polling = record c.polling { timeout = timeout }; targets = targets })

  unfoldable pub validate : Option Config → Result ConfigError Config
  unfolding validate_config upgrade_deprecated_targets
  validate none = err config_required
  validate (some c) = do check_retired c.targets; validate_config (upgrade_deprecated_targets c)
