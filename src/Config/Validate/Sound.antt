-- ===== src/Config/Validate/Sound.antt =====
-- What a validated configuration is (internal/config/config.go).
use mathlib.Core.Path.{subst}
use statlite.Result.{ok, refuse, >>=-eq-ok, refuse-eq-ok, ok_injective}
use statlite.Config.{ℤ, is_negative, is_positive, Config, TargetConfig, Parsers}
use statlite.Config.Errors.{
  ConfigError, listen_required, sqlite_path_required, retention_days_negative, interval_required,
  interval_invalid, interval_not_positive, timeout_invalid, timeout_not_positive,
}
use statlite.Config.Targets.{is_type, default_to, validate_targets}
use statlite.Config.Targets.Together.{AreAccepted, validate_targets-AreAccepted}
use statlite.Config.Validate.{
  check_retired, upgrade_spring, upgrade_statlite, upgrade_target, upgrade_deprecated_targets,
  positive_duration, uses_base_url, validate_config, validate,
}
use statlite.Prelude.{
  String, ◌≡◌, refl, ◌∙◌, inl, inr, true, false, not, Option, none, some, List, [], ◌∷◌, map, arith,
  Bool-cases, is_empty, trim_space, is_blank,
}

module _ (lib : Parsers) where
  pub IsPositiveDuration : String → Type 0
  IsPositiveDuration text = (d : ℤ) × (lib.parse_duration text ≡ some d) × (is_positive d ≡ true)

  pub record IsValidConfig (c : Config) : Type 0 where
    pub has_listen : is_blank c.server.listen ≡ false
    pub has_path : is_empty c.storage.sqlite_path ≡ false
    pub has_retention : is_negative c.storage.retention_days ≡ false
    pub has_interval : IsPositiveDuration c.polling.interval
    pub has_timeout : IsPositiveDuration c.polling.timeout
    pub targets_accepted : AreAccepted lib c.targets

  positive_duration-IsPositive :
      (invalid not_positive : ConfigError) (o : Option ℤ) {v : Unit {0}}
      → positive_duration lib invalid not_positive o ≡ ok v
      → (d : ℤ) × (o ≡ some d) × (is_positive d ≡ true)
  positive_duration-IsPositive invalid not_positive none h = cc h
  positive_duration-IsPositive invalid not_positive (some d) h =
      let is = refuse-eq-ok (not (is_positive d)) not_positive h in (d, refl, ground arith)

  validate_config-IsValid :
      (c c' : Config)
      → validate_config lib c ≡ ok c'
      → IsValidConfig c'
        × (map (λ (t : TargetConfig). t.name) c'.targets
            ≡ map (λ (t : TargetConfig). trim_space t.name) c.targets)
  unfolding validate_config IsPositiveDuration
  validate_config-IsValid c c' h =
      let (_, listen, h1) = >>=-eq-ok (refuse (is_blank c.server.listen) listen_required) _ h in
      let (_, path, h2) =
        >>=-eq-ok (refuse (is_empty c.storage.sqlite_path) sqlite_path_required) _ h1 in
      let (_, days, h3) =
        >>=-eq-ok (refuse (is_negative c.storage.retention_days) retention_days_negative) _ h2 in
      let (_, _, h4) = >>=-eq-ok (refuse (is_empty c.polling.interval) interval_required) _ h3 in
      let (_, interval, h5) =
        >>=-eq-ok
          (positive_duration lib interval_invalid interval_not_positive
            (lib.parse_duration c.polling.interval))
          _ h4 in
      let timeout = default_to c.polling.timeout "10s" in
      let (_, limit, h6) =
        >>=-eq-ok
          (positive_duration lib timeout_invalid timeout_not_positive (lib.parse_duration timeout))
          _ h5 in
      let (targets, e, h7) = >>=-eq-ok (validate_targets lib c.targets) _ h6 in
      let (accepted, names) = validate_targets-AreAccepted lib c.targets targets e in
      subst
        (λ (v : Config).
          IsValidConfig v
          × (map (λ (t : TargetConfig). t.name) v.targets
              ≡ map (λ (t : TargetConfig). trim_space t.name) c.targets))
        (ok_injective h7)
        (
          record {
            has_listen = refuse-eq-ok (is_blank c.server.listen) listen_required listen;
            has_path = refuse-eq-ok (is_empty c.storage.sqlite_path) sqlite_path_required path;
            has_retention =
                refuse-eq-ok (is_negative c.storage.retention_days) retention_days_negative days;
            has_interval =
                positive_duration-IsPositive interval_invalid interval_not_positive
                  (lib.parse_duration c.polling.interval) interval;
            has_timeout =
                positive_duration-IsPositive timeout_invalid timeout_not_positive
                  (lib.parse_duration timeout) limit;
            targets_accepted = accepted;
          },
          names,
        )

  name-upgraded : (t : TargetConfig) → trim_space (upgrade_target lib t).name ≡ trim_space t.name
  unfolding upgrade_target upgrade_spring upgrade_statlite
  name-upgraded t = elim (Bool-cases (uses_base_url lib t)) [
    | inl e ↦ elim (Bool-cases (is_type (upgrade_spring lib t) "statlite")) [
      | inl f ↦ rw (f, e) refl
      | inr f ↦ rw (f, e) refl
    ]
    | inr e ↦ elim (Bool-cases (is_type t "statlite")) [
      | inl f ↦ rw (e, f) refl
      | inr f ↦ rw (e, f) refl
    ]
  ]

  names-upgraded :
      (ts : List TargetConfig)
      → map (λ (t : TargetConfig). trim_space t.name) (map (upgrade_target lib) ts)
        ≡ map (λ (t : TargetConfig). trim_space t.name) ts
  names-upgraded [] = refl
  names-upgraded (t ∷ ts) = cc (name-upgraded t, names-upgraded ts)

  -- A configuration that Validate accepts has a listen address that is not blank, a path for its
  -- database, a retention that is not negative, and positive durations for interval and timeout. It
  -- has a target. Each target has a name, a supported type, an absolute http or https URL with a
  -- host, no fragment, and credentials at most where a retired format brought them, a metrics source
  -- of the three exactly if it is of type spring, credentials that are complete and of type basic
  -- where it has some, and a host at most if it is of type caddy. No two targets share a name, and no two
  -- of type caddy the same endpoint and host. The targets' names are the given ones, trimmed.
  pub validate-IsValidConfig :
      (c c' : Config)
      → validate lib (some c) ≡ ok c'
      → IsValidConfig c'
        × (map (λ (t : TargetConfig). t.name) c'.targets
            ≡ map (λ (t : TargetConfig). trim_space t.name) c.targets)
  unfolding validate upgrade_deprecated_targets
  validate-IsValidConfig c c' h =
      let (_, _, h1) = >>=-eq-ok (check_retired c.targets) _ h in
      let (is, names) = validate_config-IsValid (upgrade_deprecated_targets lib c) c' h1 in
      (is, names ∙ names-upgraded c.targets)
