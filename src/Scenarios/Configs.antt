-- ===== src/Scenarios/Configs.antt =====
-- The configuration's theorems on one with a Spring and a Caddy target (internal/config).
use statlite.Result.{Result, ok, err}
use statlite.Config.{pos, Config, TargetConfig, Url, Parsers}
use statlite.Config.Errors.{ConfigError}
use statlite.Config.Urls.{parse_http, validate_target_url}
use statlite.Config.Caddy.{validate_caddy_target, caddy_selection_key, split_dots, is_dns_label}
use statlite.Config.Targets.{
  validate_spring_target, check_selection, find_selection, validate_type, check_auth, check_extras,
  validate_target, validate_targets_from, validate_targets,
}
use statlite.Config.Validate.{
  check_retired, upgrade_spring, upgrade_statlite, upgrade_target, warnings_from,
  upgrade_deprecated_targets, validate_config, validate,
}
use statlite.Config.Validate.Sound.{IsValidConfig, validate-IsValidConfig}
use statlite.Prelude.{
  is_blank, trim_space, String, ◌≡◌, refl, true, false, none, some, [], ◌∷◌, map, if◌then◌else◌,
  str_eq, is_empty, trim_space, is_blank, lookup,
}

abbrev no_url : Url
no_url = record {
  scheme = "https";
  has_user = false;
  host = "";
  hostname = "";
  port = "";
  path = "";
  escaped_path = "";
  raw_query = "";
  force_query = false;
  rest = "";
}

abbrev some_url : String → Url
some_url raw =
    if str_eq raw "https://shop.example"
    then record no_url { host = "shop.example"; hostname = "shop.example" }
    else record no_url {
      scheme = "http";
      host = "localhost";
      hostname = "localhost";
      path = "/metrics";
    }

abbrev some_parsers : Parsers
some_parsers = record {
  parse_url = λ raw. if is_empty raw then none else some (some_url raw);
  url_string = λ u. u.host;
  to_lower = λ s. s;
  parse_duration = λ s. if is_empty s then none else some (pos 10);
}

abbrev some_target : TargetConfig
some_target = record {
  type = "";
  name = " app ";
  actuator_base_url = "http://localhost/metrics";
  url = "";
  host = "";
  health_url = "";
  metrics_source = "";
  collect_host_metrics = false;
  auth = some (record { type = "basic"; username = "u"; password = "p" });
  host_set = false;
  actuator_url_set = true;
  metrics_source_set = false;
  collect_host_set = false;
  health_url_set = false;
  legacy_actuator_userinfo = false;
  legacy_statlite_target = false;
}

abbrev caddy_target : TargetConfig
caddy_target = record some_target {
  type = "caddy";
  name = "edge";
  actuator_base_url = "";
  url = "http://localhost/metrics";
  host = "shop.example";
  auth = none;
  host_set = true;
  actuator_url_set = false;
}

abbrev some_config : Config
some_config = record {
  server = record { listen = ":9090" };
  storage = record { sqlite_path = "statlite.db"; retention_days = pos 90 };
  polling = record { interval = "60s"; timeout = "" };
  targets = some_target ∷ caddy_target ∷ [];
  deprecation_warnings = [];
}

abbrev accepted : Result ConfigError Config → Config
accepted (ok c) = c
accepted (err e) = some_config

abbrev valid_config : Config
valid_config = accepted (validate some_parsers (some some_config))

some_config-valid : validate some_parsers (some some_config) ≡ ok valid_config
unfolding validate check_retired upgrade_deprecated_targets upgrade_target upgrade_spring
    upgrade_statlite warnings_from validate_config validate_targets validate_targets_from
    validate_target validate_type validate_spring_target validate_caddy_target check_selection
    find_selection caddy_selection_key check_extras check_auth validate_target_url parse_http
    split_dots is_dns_label lookup is_blank
some_config-valid = refl

validate-IsValidConfig_example :
    IsValidConfig some_parsers valid_config
    × (map (λ (t : TargetConfig). t.name) valid_config.targets ≡ ("app" ∷ "edge" ∷ []))
unfolding trim_space
validate-IsValidConfig_example =
    validate-IsValidConfig some_parsers some_config valid_config some_config-valid
