-- ===== src/Config/Urls/Sound.antt =====
-- What a validated URL is (internal/config/config.go, internal/urlshape/http.go).
use mathlib.Core.Path.{subst}
use statlite.Result.{ok, refuse, or_err, >>=-eq-ok, refuse-eq-ok, or_err-eq-ok, ok_injective}
use statlite.Config.{Url, Parsers}
use statlite.Config.Errors.{
  url_syntax, url_scheme, url_host, url_port, url_fragment, not_absolute, embedded_credentials,
}
use statlite.Config.Urls.{contains_code, is_http, parse_http, validate_target_url, is_port}
use statlite.Prelude.{
  String, ◌≡◌, ap, ◌∙◌, Bool, true, false, not, ◌&&◌, ◌||◌, some, arith, str_eq, is_empty,
  trim_space,
}

module _ (lib : Parsers) where
  -- An absolute HTTP URL with a host, no fragment, and no credentials unless they are allowed.
  pub record IsTargetUrl (raw : String) (allows_user : Bool) : Type 0 where
    pub url : Url
    pub parsed : lib.parse_url raw ≡ some url
    pub is_trimmed : str_eq (trim_space raw) raw ≡ true
    pub has_scheme : is_http url.scheme ≡ true
    pub has_host : is_empty url.hostname ≡ false
    pub no_fragment : contains_code b'#' raw ≡ false
    pub no_credentials : (not allows_user && url.has_user) ≡ false

  pub validate_target_url-IsTargetUrl :
      (raw : String) (rejects_user rejects_query : Bool) {v : Unit {0}}
      → validate_target_url lib raw rejects_user rejects_query ≡ ok v
      → IsTargetUrl raw (not rejects_user)
  unfolding validate_target_url parse_http
  validate_target_url-IsTargetUrl raw rejects_user rejects_query h =
      let untrimmed = not (str_eq (trim_space raw) raw) || is_empty raw in
      let (_, trimmed, h1) = >>=-eq-ok (refuse untrimmed not_absolute) _ h in
      let (u, parsed, h2) = >>=-eq-ok (parse_http lib raw) _ h1 in
      let (_, user, _) =
        >>=-eq-ok (refuse (rejects_user && u.has_user) embedded_credentials) _ h2 in
      let (w, found, p1) = >>=-eq-ok (or_err (lib.parse_url raw) url_syntax) _ parsed in
      let (_, scheme, p2) = >>=-eq-ok (refuse (not (is_http w.scheme)) url_scheme) _ p1 in
      let (_, host, p3) =
        >>=-eq-ok (refuse (is_empty w.host || is_empty w.hostname) url_host) _ p2 in
      let (_, port, p4) =
        >>=-eq-ok (refuse (not (is_empty w.port) && not (is_port w.port)) url_port) _ p3 in
      let (_, fragment, p5) = >>=-eq-ok (refuse (contains_code b'#' raw) url_fragment) _ p4 in
      let same = ok_injective p5 in
      let trimmed' = refuse-eq-ok untrimmed not_absolute trimmed in
      let user' = refuse-eq-ok (rejects_user && u.has_user) embedded_credentials user in
      let scheme' = refuse-eq-ok (not (is_http w.scheme)) url_scheme scheme in
      let host' = refuse-eq-ok (is_empty w.host || is_empty w.hostname) url_host host in
      record {
        url = u;
        parsed = or_err-eq-ok (lib.parse_url raw) url_syntax found ∙ ap (λ (x : Url). some x) same;
        is_trimmed = ground arith;
        has_scheme = subst (λ (x : Url). is_http x.scheme ≡ true) same (ground arith);
        has_host = subst (λ (x : Url). is_empty x.hostname ≡ false) same (ground arith);
        no_fragment = refuse-eq-ok (contains_code b'#' raw) url_fragment fragment;
        no_credentials = ground arith;
      }
