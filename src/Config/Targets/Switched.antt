-- ===== src/Config/Targets/Switched.antt =====
-- What the switch on a target's type shows (internal/config/config.go).
use statlite.Config.Targets.Accepted.{is_known_type, is_source_of, allows_user}
use mathlib.Core.Path.{subst}
use statlite.Result.{Result, ok, err, ◌>>=◌, >>=-eq-ok, ok_injective}
use statlite.Config.{TargetConfig, Parsers}
use statlite.Config.Errors.{ConfigError}
use statlite.Config.Caddy.{validate_caddy_target, caddy_selection_key}
use statlite.Config.Targets.{
  is_spring_source, validate_spring_target, validate_scraped_target,
  validate_statlite_metrics_target, Seen, find_selection, with_seen, is_type, check_selection,
  validate_type,
}
use statlite.Config.Urls.Sound.{IsTargetUrl}
use statlite.Config.Targets.Sound.{
  IsCheckedAs, validate_spring_target_sound, validate_scraped_target_sound,
  validate_statlite_metrics_target_sound, validate_caddy_target_sound,
}
use statlite.Prelude.{
  String, ◌≡◌, refl, sym, ap, ◌∙◌, inl, inr, Bool, true, false, ◌&&◌, none, ◌∷◌, arith, eq_iff,
  if◌then◌else◌, Bool-cases, Option-cases, is_some, is_empty,
}

with_seen-eq-ok :
    (seen seen' : Seen) (r : Result ConfigError TargetConfig) (t : TargetConfig)
    → with_seen seen r ≡ ok (seen', t)
    → (r ≡ ok t) × (seen ≡ seen')
with_seen-eq-ok seen seen' (ok u) t h = (cc, cc)
with_seen-eq-ok seen seen' (err e) t h = (cc, cc)

module _ (lib : Parsers) where
  -- What the switch on the type shows.
  pub record IsSwitched (seen seen' : Seen) (t t' : TargetConfig) : Type 0 where
    pub same_name : t'.name ≡ t.name
    pub same_type : t'.type ≡ t.type
    pub same_host : t'.host ≡ t.host
    pub has_type : is_known_type t' ≡ true
    pub has_url : IsTargetUrl lib t'.url (allows_user t')
    pub has_source : is_source_of t' t'.metrics_source ≡ true
    pub same_names : seen'.names ≡ seen.names
    pub new_selections : seen'.selections ≡ (
        if is_type t' "caddy"
        then (caddy_selection_key lib t', t'.name) ∷ seen.selections
        else seen.selections)
    pub fresh_selection :
        (is_type t' "caddy"
          && is_some (find_selection (caddy_selection_key lib t') seen.selections))
        ≡ false

  check_selection-eq-ok :
      (seen seen' : Seen) (t t' : TargetConfig)
      → check_selection lib seen t ≡ ok (seen', t')
      → (find_selection (caddy_selection_key lib t) seen.selections ≡ none)
        × (record seen { selections = (caddy_selection_key lib t, t.name) ∷ seen.selections }
            ≡ seen')
        × (t ≡ t')
  unfolding check_selection
  check_selection-eq-ok seen seen' t t' h =
      elim (Option-cases (find_selection (caddy_selection_key lib t) seen.selections)) [
        | inl e ↦
            let h' = ok_injective (rw (check_selection, e) at h) in
            (e, ap (λ (x : Seen × TargetConfig). x.0) h', ap (λ (x : Seen × TargetConfig). x.1) h')
        | inr (name, e) ↦ cc (rw (check_selection, e) at h)
      ]

  -- A target of another type than caddy leaves what was seen as it was.
  with_seen-IsSwitched :
      (valid : String → Bool) (user : TargetConfig → Bool) (seen seen' : Seen) (t t' : TargetConfig)
      (r : Result ConfigError TargetConfig)
      → with_seen seen r ≡ ok (seen', t')
      → (r ≡ ok t' → IsCheckedAs lib valid user t t')
      → (t'.type ≡ t.type
          → (is_known_type t' ≡ true)
            × (user t' ≡ allows_user t')
            × (valid t'.metrics_source ≡ is_source_of t' t'.metrics_source)
            × (is_type t' "caddy" ≡ false))
      → IsSwitched seen seen' t t'
  with_seen-IsSwitched valid user seen seen' t t' r h checks kind =
      let (e, same) = with_seen-eq-ok seen seen' r t' h in
      let checked = checks e in
      let (known, users, sources, other) = kind checked.same_type in
      subst (λ s. IsSwitched seen s t t') same
        (record {
          same_name = checked.same_name;
          same_type = checked.same_type;
          same_host = checked.same_host;
          has_type = known;
          has_url = subst (IsTargetUrl lib t'.url) users checked.has_url;
          has_source = sym sources ∙ checked.has_source;
          same_names = refl;
          new_selections = rw other refl;
          fresh_selection = rw other refl;
        })

  check_selection-IsSwitched :
      (seen seen' : Seen) (t t' : TargetConfig)
      → t.type ≡ "caddy"
      → (validate_caddy_target lib t >>= check_selection lib seen) ≡ ok (seen', t')
      → IsSwitched seen seen' t t'
  check_selection-IsSwitched seen seen' t t' type h =
      let (u, e, selected) = >>=-eq-ok (validate_caddy_target lib t) (check_selection lib seen) h in
      let checked = validate_caddy_target_sound lib t u e in
      let (free, same_seen, same) = check_selection-eq-ok seen seen' u t' selected in
      let type' = checked.same_type ∙ type in
      subst (λ v. IsSwitched seen seen' t v) same
        (subst (λ s. IsSwitched seen s t u) same_seen
          (record {
            same_name = checked.same_name;
            same_type = checked.same_type;
            same_host = checked.same_host;
            has_type = rw type' refl;
            has_url = subst (IsTargetUrl lib u.url) (rw type' refl) checked.has_url;
            has_source = rw type' checked.has_source;
            same_names = refl;
            new_selections = rw type' refl;
            fresh_selection = rw (type', free) refl;
          }))

  pub validate_type-IsSwitched :
      (seen seen' : Seen) (t t' : TargetConfig)
      → validate_type lib seen t ≡ ok (seen', t')
      → IsSwitched seen seen' t t'
  unfolding validate_type
  validate_type-IsSwitched seen seen' t t' h = elim (Bool-cases (is_type t "caddy")) [
    | inl e ↦ check_selection-IsSwitched seen seen' t t' ((eq_iff t.type "caddy").0 e) (rw e at h)
    | inr e1 ↦ elim (Bool-cases (is_type t "spring")) [
      | inl e ↦
          with_seen-IsSwitched is_spring_source (λ u. u.legacy_actuator_userinfo) seen seen' t t'
            (validate_spring_target lib t) (rw (e1, e) at h) (validate_spring_target_sound lib t t')
            (λ same.
              let type = same ∙ (eq_iff t.type "spring").0 e in
              (rw type refl, rw type (ground arith), rw type refl, rw type refl))
      | inr e2 ↦ elim (Bool-cases (is_type t "quarkus")) [
        | inl e ↦
            with_seen-IsSwitched is_empty (λ _. false) seen seen' t t'
              (validate_scraped_target lib t) (rw (e1, e2, e) at h)
              (validate_scraped_target_sound lib t t')
              (λ same.
                let type = same ∙ (eq_iff t.type "quarkus").0 e in
                (rw type refl, rw type refl, rw type refl, rw type refl))
        | inr e3 ↦ elim (Bool-cases (is_type t "micronaut")) [
          | inl e ↦
              with_seen-IsSwitched is_empty (λ _. false) seen seen' t t'
                (validate_scraped_target lib t) (rw (e1, e2, e3, e) at h)
                (validate_scraped_target_sound lib t t')
                (λ same.
                  let type = same ∙ (eq_iff t.type "micronaut").0 e in
                  (rw type refl, rw type refl, rw type refl, rw type refl))
          | inr e4 ↦ elim (Bool-cases (is_type t "statlite-metrics")) [
            | inl e ↦
                with_seen-IsSwitched is_empty (λ u. u.legacy_statlite_target) seen seen' t t'
                  (validate_statlite_metrics_target lib t) (rw (e1, e2, e3, e4, e) at h)
                  (validate_statlite_metrics_target_sound lib t t')
                  (λ same.
                    let type = same ∙ (eq_iff t.type "statlite-metrics").0 e in
                    (rw type refl, rw type refl, rw type refl, rw type refl))
            | inr e5 ↦ cc (rw (e1, e2, e3, e4, e5) at h)
          ]
        ]
      ]
    ]
  ]
