-- ===== src/Config/Targets.antt =====
-- internal/config/config.go: the validation of a target, by its type, and of all targets. A validated
-- target comes back with its defaults.
pub mod Sound
pub mod Accepted
pub mod Switched
pub mod Together
use statlite.Result.{Result, ok, err, ◌>>=◌, ◌>>◌, refuse, or_err}
use statlite.Config.{TargetConfig, AuthConfig, Parsers}
use statlite.Config.Errors.{
  Reason, ConfigError, name_required, duplicate_name, target_error, required, unsupported_value,
  only_for_spring, only_for_caddy, only_for_quarkus_and_micronaut, auth_not_supported, only_basic,
  contains_colon, legacy_credentials, duplicate_caddy_selection, no_targets,
}
use statlite.Config.Urls.{contains_code, validate_target_url}
use statlite.Config.Caddy.{target_error_of, in_field, validate_caddy_target, caddy_selection_key}
use statlite.Prelude.{
  ℕ, ◌+◌, String, Bool, true, false, not, ◌&&◌, ◌||◌, Option, none, some, List, [], ◌∷◌,
  if◌then◌else◌, is_some, take, str_eq, is_empty, trim_space, lookup,
}

abbrev pub is_spring_source : String → Bool
is_spring_source s = str_eq s "auto" || str_eq s "prometheus" || str_eq s "actuator"

abbrev pub default_to : String → String → String
default_to s other = if is_empty s then other else s

-- !target.metricsSourceSet etc.: what only Spring targets configure.
abbrev pub refuse_spring_only : TargetConfig → Bool → String → Result ConfigError (Unit {0})
refuse_spring_only t set field = refuse set (target_error_of t field only_for_spring)

-- The targets before the current one: their names with their index, and the selections of those
-- of type caddy with their name.
pub record Seen : Type 0 where
  pub names : List (String × ℕ)
  pub selections : List ((String × String) × String)

unfoldable pub find_selection : String × String → List ((String × String) × String) → Option String
find_selection key [] = none
find_selection key ((k, name) ∷ rest) =
    let found = find_selection key rest in
    if str_eq k.0 key.0 && str_eq k.1 key.1 then some name else found

abbrev pub with_seen :
    Seen → Result ConfigError TargetConfig → Result ConfigError (Seen × TargetConfig)
with_seen seen (ok t) = ok (seen, t)
with_seen seen (err e) = err e

abbrev pub is_type : TargetConfig → String → Bool
is_type t type = str_eq t.type type

module _ (lib : Parsers) where
  unfoldable pub validate_spring_target : TargetConfig → Result ConfigError TargetConfig
  validate_spring_target t = do
    refuse (is_empty t.url) (target_error_of t "url" required)
    in_field t "url" (
        validate_target_url lib t.url (not t.legacy_actuator_userinfo)
          (not t.legacy_actuator_userinfo))
    let source = default_to t.metrics_source "auto"
    refuse (not (is_spring_source source))
        (target_error_of t "metrics_source" (unsupported_value source))
    refuse (t.legacy_actuator_userinfo && is_some t.auth)
        (target_error_of t "auth" legacy_credentials)
    refuse (t.legacy_actuator_userinfo && str_eq source "prometheus")
        (target_error_of t "metrics_source" legacy_credentials)
    ok (record t { metrics_source = if t.legacy_actuator_userinfo then "actuator" else source })

  -- A health URL, where one is configured.
  unfoldable pub validate_health_url : TargetConfig → Result ConfigError (Unit {0})
  validate_health_url t =
      if is_empty t.health_url
      then ok tt
      else in_field t "health_url" (validate_target_url lib t.health_url true false)

  -- The checks of validateQuarkusTarget and of validateMicronautTarget are the same ones.
  unfoldable pub validate_scraped_target : TargetConfig → Result ConfigError TargetConfig
  unfolding validate_health_url
  validate_scraped_target t = do
    refuse (is_empty t.url) (target_error_of t "url" required)
    refuse_spring_only t (not (is_empty t.actuator_base_url) || t.actuator_url_set)
        "actuator_base_url"
    refuse_spring_only t t.metrics_source_set "metrics_source"
    refuse_spring_only t t.collect_host_set "collect_host_metrics"
    in_field t "url" (validate_target_url lib t.url true false)
    validate_health_url t
    refuse_spring_only t (not (is_empty t.metrics_source)) "metrics_source"
    ok t

  unfoldable pub validate_statlite_metrics_target : TargetConfig → Result ConfigError TargetConfig
  validate_statlite_metrics_target t = do
    refuse (is_empty t.url) (target_error_of t "url" required)
    in_field t "url" (validate_target_url lib t.url (not t.legacy_statlite_target) false)
    refuse_spring_only t (not (is_empty t.metrics_source)) "metrics_source"
    refuse_spring_only t (not (is_empty t.actuator_base_url) || t.actuator_url_set)
        "actuator_base_url"
    refuse_spring_only t t.metrics_source_set "metrics_source"
    ok t

  -- A caddy target selects no endpoint and host of another one.
  unfoldable pub check_selection : Seen → TargetConfig → Result ConfigError (Seen × TargetConfig)
  check_selection seen t =
      let key = caddy_selection_key lib t in
      elim (find_selection key seen.selections) [
        | some previous ↦ err (target_error_of t "host" (duplicate_caddy_selection previous))
        | none ↦ ok (record seen { selections = (key, t.name) ∷ seen.selections }, t)
      ]

  -- The switch on the type.
  unfoldable pub validate_type : Seen → TargetConfig → Result ConfigError (Seen × TargetConfig)
  unfolding check_selection
  validate_type seen t =
      if is_type t "caddy"
      then validate_caddy_target lib t >>= check_selection seen
      else if is_type t "spring"
      then with_seen seen (validate_spring_target t)
      else if is_type t "quarkus"
      then with_seen seen (validate_scraped_target t)
      else if is_type t "micronaut"
      then with_seen seen (validate_scraped_target t)
      else if is_type t "statlite-metrics"
      then with_seen seen (validate_statlite_metrics_target t)
      else err (target_error_of t "type" (unsupported_value t.type))

-- Types whose endpoints take credentials.
abbrev pub takes_auth : TargetConfig → Bool
takes_auth t =
    is_type t "spring" || is_type t "quarkus" || is_type t "micronaut" || is_type t "caddy"

unfoldable pub check_auth : TargetConfig → Option AuthConfig → Result ConfigError (Unit {0})
check_auth t none = ok tt
check_auth t (some auth) = do
  refuse (not (takes_auth t)) (target_error_of t "auth" auth_not_supported)
  refuse (not (str_eq auth.type "basic")) (target_error_of t "auth.type" only_basic)
  refuse (is_empty auth.username) (target_error_of t "auth.username" required)
  refuse (contains_code b':' auth.username) (target_error_of t "auth.username" contains_colon)
  refuse (is_empty auth.password) (target_error_of t "auth.password" required)
  ok tt

-- The checks behind the switch.
unfoldable pub check_extras : TargetConfig → Result ConfigError (Unit {0})
unfolding check_auth
check_extras t = do
  check_auth t t.auth
  refuse ((t.collect_host_metrics || t.collect_host_set) && not (is_type t "spring"))
      (target_error_of t "collect_host_metrics" only_for_spring)
  refuse
      ((not (is_empty t.health_url) || t.health_url_set)
        && not (is_type t "quarkus")
        && not (is_type t "micronaut"))
      (target_error_of t "health_url" only_for_quarkus_and_micronaut)
  ok tt

abbrev pub refuse_duplicate : ℕ → String → Option ℕ → Result ConfigError (Unit {0})
refuse_duplicate i name none = ok tt
refuse_duplicate i name (some previous) = err (duplicate_name i name previous)

abbrev pub is_none_of : List TargetConfig → Bool
is_none_of [] = true
is_none_of (_ ∷ _) = false

-- The target with its trimmed name and its default type.
abbrev pub named : TargetConfig → TargetConfig
named t = record t { name = trim_space t.name; type = default_to t.type "spring" }

module _ (lib : Parsers) where
  -- A round of the loop: the target behind its checks.
  unfoldable pub validate_target :
      ℕ → Seen → TargetConfig → Result ConfigError (Seen × TargetConfig)
  validate_target i seen t = do
    let n = named t
    refuse (is_empty n.name) (name_required i)
    refuse_duplicate i n.name (lookup n.name seen.names)
    refuse (not (is_type n "caddy") && (not (is_empty n.host) || n.host_set))
        (target_error_of n "host" only_for_caddy)
    (seen', t') ← validate_type lib (record seen { names = (n.name, i) ∷ seen.names }) n
    check_extras t'
    ok (seen', t')

  unfoldable pub validate_targets_from :
      ℕ → Seen → List TargetConfig → Result ConfigError (List TargetConfig)
  validate_targets_from i seen [] = ok []
  validate_targets_from i seen (t ∷ ts) = do
    (seen', t') ← validate_target i seen t
    ts' ← validate_targets_from (i + 1) seen' ts
    ok (t' ∷ ts')

  unfoldable pub validate_targets : List TargetConfig → Result ConfigError (List TargetConfig)
  unfolding validate_targets_from
  validate_targets ts = do
    refuse (is_none_of ts) no_targets
    validate_targets_from 0 (record { names = []; selections = [] }) ts
