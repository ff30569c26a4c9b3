-- ===== src/Config/Targets/Accepted.antt =====
-- What validated targets are together (internal/config/config.go).
use statlite.Result.{ok, refuse, >>=-eq-ok, refuse-eq-ok}
use statlite.Config.{TargetConfig, AuthConfig, Parsers}
use statlite.Config.Errors.{required, only_basic, contains_colon, auth_not_supported}
use statlite.Config.Urls.{contains_code}
use statlite.Config.Caddy.{caddy_selection_key, target_error_of}
use statlite.Config.Targets.{
  is_spring_source, Seen, find_selection, is_type, takes_auth, check_auth,
}
use statlite.Config.Urls.Sound.{IsTargetUrl}
use statlite.Prelude.{
  String, ◌≡◌, refl, Bool, true, false, not, ◌&&◌, ◌||◌, Option, none, some, arith, if◌then◌else◌,
  is_some, str_eq, is_empty, lookup,
}

abbrev pub is_known_type : TargetConfig → Bool
is_known_type t = takes_auth t || is_type t "statlite-metrics"

-- A source of a Spring target, and none of another target.
abbrev pub is_source_of : TargetConfig → String → Bool
is_source_of t source = if is_type t "spring" then is_spring_source source else is_empty source

-- Credentials of a retired format.
abbrev pub allows_user : TargetConfig → Bool
allows_user t =
    (is_type t "spring" && t.legacy_actuator_userinfo)
    || (is_type t "statlite-metrics" && t.legacy_statlite_target)

abbrev pub is_complete_auth : TargetConfig → Option AuthConfig → Bool
is_complete_auth t none = true
is_complete_auth t (some auth) =
    takes_auth t
    && str_eq auth.type "basic"
    && not (is_empty auth.username)
    && not (contains_code b':' auth.username)
    && not (is_empty auth.password)

abbrev pub same_key : String × String → String × String → Bool
same_key k l = str_eq k.0 l.0 && str_eq k.1 l.1

pub check_auth-is_complete_auth :
    (t : TargetConfig) (o : Option AuthConfig) {v : Unit {0}}
    → check_auth t o ≡ ok v
    → is_complete_auth t o ≡ true
unfolding check_auth
check_auth-is_complete_auth t none h = refl
check_auth-is_complete_auth t (some auth) h =
    let (_, takes, h1) =
      >>=-eq-ok (refuse (not (takes_auth t)) (target_error_of t "auth" auth_not_supported)) _ h in
    let (_, basic, h2) =
      >>=-eq-ok (refuse (not (str_eq auth.type "basic")) (target_error_of t "auth.type" only_basic))
        _ h1 in
    let (_, user, h3) =
      >>=-eq-ok (refuse (is_empty auth.username) (target_error_of t "auth.username" required)) _
        h2 in
    let (_, colon, h4) =
      >>=-eq-ok
        (refuse (contains_code b':' auth.username)
          (target_error_of t "auth.username" contains_colon))
        _ h3 in
    let (_, password, _) =
      >>=-eq-ok (refuse (is_empty auth.password) (target_error_of t "auth.password" required)) _
        h4 in
    let takes' = refuse-eq-ok (not (takes_auth t)) _ takes in
    let basic' = refuse-eq-ok (not (str_eq auth.type "basic")) _ basic in
    let user' = refuse-eq-ok (is_empty auth.username) _ user in
    let colon' = refuse-eq-ok (contains_code b':' auth.username) _ colon in
    let password' = refuse-eq-ok (is_empty auth.password) _ password in ground arith

module _ (lib : Parsers) where
  -- What a target that passed its checks is.
  pub record IsAccepted (t : TargetConfig) : Type 0 where
    pub has_name : is_empty t.name ≡ false
    pub has_type : is_known_type t ≡ true
    pub has_url : IsTargetUrl lib t.url (allows_user t)
    pub has_source : is_source_of t t.metrics_source ≡ true
    pub has_auth : is_complete_auth t t.auth ≡ true
    pub host_of_caddy : (is_type t "caddy" || is_empty t.host) ≡ true

  -- Two targets that no configuration may hold together.
  abbrev pub clash : TargetConfig → TargetConfig → Bool
  clash t u =
      str_eq t.name u.name
      || (is_type t "caddy"
          && is_type u "caddy"
          && same_key (caddy_selection_key lib t) (caddy_selection_key lib u))

  -- A target that the earlier ones leave room for.
  abbrev pub is_fresh : Seen → TargetConfig → Bool
  is_fresh seen t =
      not (is_some (lookup t.name seen.names))
      && not (
          is_type t "caddy" && is_some (find_selection (caddy_selection_key lib t) seen.selections))
