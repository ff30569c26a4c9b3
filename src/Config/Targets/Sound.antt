-- ===== src/Config/Targets/Sound.antt =====
-- What a validated target is (internal/config/config.go).
use mathlib.Core.Path.{subst}
use statlite.Result.{Result, ok, err, refuse, >>=-eq-ok, refuse-eq-ok, ok_injective}
use statlite.Config.{TargetConfig, Parsers}
use statlite.Config.Errors.{
  Reason, required, unsupported_value, legacy_credentials, only_for_spring, not_an_exact_host,
  port_out_of_range, invalid_dns_label,
}
use statlite.Config.Urls.Sound.{IsTargetUrl, validate_target_url-IsTargetUrl}
use statlite.Config.Urls.{contains_code, validate_target_url, in_port_range, read_decimal}
use statlite.Config.Caddy.{
  in_field, validate_caddy_target, target_error_of, is_exact_host, host_url, https_url,
  is_dns_label, split_dots,
}
use statlite.Config.Targets.{
  is_spring_source, default_to, refuse_spring_only, validate_spring_target, validate_health_url,
  validate_scraped_target, validate_statlite_metrics_target,
}
use statlite.Prelude.{
  String, ◌≡◌, refl, Bool, true, false, not, ◌&&◌, ◌||◌, [], arith, if◌then◌else◌, is_some, allb,
  str_eq, is_empty,
}

in_field-eq-ok :
    (t : TargetConfig) (field : String) (r : Result Reason (Unit {0})) {u : Unit {0}}
    → in_field t field r ≡ ok u
    → (v : Unit {0}) × (r ≡ ok v)
in_field-eq-ok t field (ok v) h = (v, refl)
in_field-eq-ok t field (err e) h = cc

not-not : (b : Bool) → not (not b) ≡ b
not-not true = refl
not-not false = refl

is_spring_source-legacy :
    (legacy : Bool) (source : String)
    → not (is_spring_source source) ≡ false
    → is_spring_source (if legacy then "actuator" else source) ≡ true
is_spring_source-legacy true source h = refl
is_spring_source-legacy false source h = ground arith

module _ (lib : Parsers) where
  -- What the validation of one type shows of its target: it changes the metrics source at most.
  pub record IsCheckedAs (source_is_valid : String → Bool) (user_allowed : TargetConfig → Bool)
      (t t' : TargetConfig) : Type 0 where
    pub same_name : t'.name ≡ t.name
    pub same_type : t'.type ≡ t.type
    pub same_host : t'.host ≡ t.host
    pub has_url : IsTargetUrl lib t'.url (user_allowed t')
    pub has_source : source_is_valid t'.metrics_source ≡ true

  pub validate_spring_target_sound :
      (t t' : TargetConfig)
      → validate_spring_target lib t ≡ ok t'
      → IsCheckedAs is_spring_source (λ u. u.legacy_actuator_userinfo) t t'
  unfolding validate_spring_target
  validate_spring_target_sound t t' h =
      let source = default_to t.metrics_source "auto" in
      let legacy = t.legacy_actuator_userinfo in
      let (_, _, h1) = >>=-eq-ok (refuse (is_empty t.url) (target_error_of t "url" required)) _ h in
      let checked = validate_target_url lib t.url (not legacy) (not legacy) in
      let (_, field, h2) = >>=-eq-ok (in_field t "url" checked) _ h1 in
      let unknown = not (is_spring_source source) in
      let failure = target_error_of t "metrics_source" (unsupported_value source) in
      let (_, known, h3) = >>=-eq-ok (refuse unknown failure) _ h2 in
      let (_, _, h4) =
        >>=-eq-ok (refuse (legacy && is_some t.auth) (target_error_of t "auth" legacy_credentials))
          _ h3 in
      let (_, _, h5) =
        >>=-eq-ok
          (refuse (legacy && str_eq source "prometheus")
            (target_error_of t "metrics_source" legacy_credentials))
          _ h4 in
      let (_, url) = in_field-eq-ok t "url" checked field in
      let known' = refuse-eq-ok unknown failure known in
      subst (IsCheckedAs is_spring_source (λ u. u.legacy_actuator_userinfo) t) (ok_injective h5)
        (record {
          same_name = refl;
          same_type = refl;
          same_host = refl;
          has_url =
              subst (IsTargetUrl lib t.url) (not-not legacy)
                (validate_target_url-IsTargetUrl lib t.url (not legacy) (not legacy) url);
          has_source = is_spring_source-legacy legacy source known';
        })

  pub validate_scraped_target_sound :
      (t t' : TargetConfig)
      → validate_scraped_target lib t ≡ ok t'
      → IsCheckedAs is_empty (λ _. false) t t'
  unfolding validate_scraped_target
  validate_scraped_target_sound t t' h =
      let only = refuse_spring_only t in
      let (_, _, h1) = >>=-eq-ok (refuse (is_empty t.url) (target_error_of t "url" required)) _ h in
      let (_, _, h2) =
        >>=-eq-ok
          (only (not (is_empty t.actuator_base_url) || t.actuator_url_set) "actuator_base_url") _
          h1 in
      let (_, _, h3) = >>=-eq-ok (only t.metrics_source_set "metrics_source") _ h2 in
      let (_, _, h4) = >>=-eq-ok (only t.collect_host_set "collect_host_metrics") _ h3 in
      let checked = validate_target_url lib t.url true false in
      let (_, field, h5) = >>=-eq-ok (in_field t "url" checked) _ h4 in
      let (_, _, h6) = >>=-eq-ok (validate_health_url lib t) _ h5 in
      let sourced = not (is_empty t.metrics_source) in
      let failure = target_error_of t "metrics_source" only_for_spring in
      let (_, unset, h7) = >>=-eq-ok (refuse sourced failure) _ h6 in
      let (_, url) = in_field-eq-ok t "url" checked field in
      let unset' = refuse-eq-ok sourced failure unset in
      subst (IsCheckedAs is_empty (λ _. false) t) (ok_injective h7) (record {
        same_name = refl;
        same_type = refl;
        same_host = refl;
        has_url = validate_target_url-IsTargetUrl lib t.url true false url;
        has_source = ground arith;
      })

  pub validate_statlite_metrics_target_sound :
      (t t' : TargetConfig)
      → validate_statlite_metrics_target lib t ≡ ok t'
      → IsCheckedAs is_empty (λ u. u.legacy_statlite_target) t t'
  unfolding validate_statlite_metrics_target
  validate_statlite_metrics_target_sound t t' h =
      let only = refuse_spring_only t in
      let legacy = t.legacy_statlite_target in
      let (_, _, h1) = >>=-eq-ok (refuse (is_empty t.url) (target_error_of t "url" required)) _ h in
      let checked = validate_target_url lib t.url (not legacy) false in
      let (_, field, h2) = >>=-eq-ok (in_field t "url" checked) _ h1 in
      let sourced = not (is_empty t.metrics_source) in
      let failure = target_error_of t "metrics_source" only_for_spring in
      let (_, unset, h3) = >>=-eq-ok (refuse sourced failure) _ h2 in
      let (_, _, h4) =
        >>=-eq-ok
          (only (not (is_empty t.actuator_base_url) || t.actuator_url_set) "actuator_base_url") _
          h3 in
      let (_, _, h5) = >>=-eq-ok (only t.metrics_source_set "metrics_source") _ h4 in
      let (_, url) = in_field-eq-ok t "url" checked field in
      let unset' = refuse-eq-ok sourced failure unset in
      subst (IsCheckedAs is_empty (λ u. u.legacy_statlite_target) t) (ok_injective h5) (record {
        same_name = refl;
        same_type = refl;
        same_host = refl;
        has_url =
            subst (IsTargetUrl lib t.url) (not-not legacy)
              (validate_target_url-IsTargetUrl lib t.url (not legacy) false url);
        has_source = ground arith;
      })

  pub validate_caddy_target_sound :
      (t t' : TargetConfig)
      → validate_caddy_target lib t ≡ ok t'
      → IsCheckedAs is_empty (λ _. false) t t'
  unfolding validate_caddy_target
  validate_caddy_target_sound t t' h =
      let (_, _, h1) = >>=-eq-ok (refuse (is_empty t.url) (target_error_of t "url" required)) _ h in
      let checked = validate_target_url lib t.url true false in
      let (_, field, h2) = >>=-eq-ok (in_field t "url" checked) _ h1 in
      let (_, _, h3) =
        >>=-eq-ok
          (refuse (not (is_empty t.actuator_base_url) || t.actuator_url_set)
            (target_error_of t "actuator_base_url" only_for_spring))
          _ h2 in
      let sourced = not (is_empty t.metrics_source) || t.metrics_source_set in
      let failure = target_error_of t "metrics_source" only_for_spring in
      let (_, unset, h4) = >>=-eq-ok (refuse sourced failure) _ h3 in
      let parsed = lib.parse_url (https_url t.host) in
      let (_, _, h5) =
        >>=-eq-ok
          (refuse (not (is_exact_host t.host parsed)) (target_error_of t "host" not_an_exact_host))
          _ h4 in
      let bad_port =
        contains_code b':' t.host && not (in_port_range (read_decimal 0 (host_url parsed).1)) in
      let (_, _, h6) =
        >>=-eq-ok (refuse bad_port (target_error_of t "host" port_out_of_range)) _ h5 in
      let bad_label = not (allb is_dns_label (split_dots [] (host_url parsed).0)) in
      let (_, _, h7) =
        >>=-eq-ok (refuse bad_label (target_error_of t "host" invalid_dns_label)) _ h6 in
      let (_, url) = in_field-eq-ok t "url" checked field in
      let unset' = refuse-eq-ok sourced failure unset in
      subst (IsCheckedAs is_empty (λ _. false) t) (ok_injective h7) (record {
        same_name = refl;
        same_type = refl;
        same_host = refl;
        has_url = validate_target_url-IsTargetUrl lib t.url true false url;
        has_source = ground arith;
      })
