-- ===== src/Config/Urls.antt =====
-- internal/urlshape/http.go, and validateTargetURL of internal/config/config.go.
pub mod Sound
use Prim.Native.Char.{code}
use statlite.Result.{Result, ok, ◌>>=◌, ◌>>◌, refuse, or_err}
use statlite.Config.{Url, Parsers}
use statlite.Config.Errors.{
  Reason, not_absolute, url_syntax, url_scheme, url_host, url_port, url_fragment,
  embedded_credentials, query_string,
}
use statlite.Prelude.{
  ℕ, ◌+◌, ◌-◌, ◌*◌, String, Bool, false, not, ◌&&◌, ◌||◌, Option, none, some, leb, ◌==◌,
  if◌then◌else◌, str_eq, is_empty, trim_space,
}

abbrev pub contains_code : ℕ → String → Bool
contains_code c String.[] = false
contains_code c (String.◌∷◌ d s) = (code d == c) || contains_code c s

-- The number of a text of decimal digits, behind the number in front of them.
unfoldable pub read_decimal : ℕ → String → Option ℕ
read_decimal n String.[] = some n
read_decimal n (String.◌∷◌ c s) =
    let rest = read_decimal (n * 10 + (code c - b'0')) s in
    if leb b'0' (code c) && leb (code c) b'9' then rest else none

abbrev pub in_port_range : Option ℕ → Bool
in_port_range none = false
in_port_range (some n) = leb 1 n && leb n 65_535

-- strconv.Atoi of a port that url.Parse lets through, which is one of digits, and its range.
unfoldable pub is_port : String → Bool
unfolding read_decimal
is_port s = not (is_empty s) && in_port_range (read_decimal 0 s)

abbrev pub is_http : String → Bool
is_http scheme = str_eq scheme "http" || str_eq scheme "https"

module _ (lib : Parsers) where
  unfoldable pub parse_http : String → Result Reason Url
  parse_http raw = do
    u ← or_err (lib.parse_url raw) url_syntax
    refuse (not (is_http u.scheme)) url_scheme
    refuse (is_empty u.host || is_empty u.hostname) url_host
    refuse (not (is_empty u.port) && not (is_port u.port)) url_port
    refuse (contains_code b'#' raw) url_fragment
    ok u

  unfoldable pub validate_target_url : String → Bool → Bool → Result Reason (Unit {0})
  validate_target_url raw reject_userinfo reject_query = do
    refuse (not (str_eq (trim_space raw) raw) || is_empty raw) not_absolute
    u ← parse_http raw
    refuse (reject_userinfo && u.has_user) embedded_credentials
    refuse (reject_query && (not (is_empty u.raw_query) || u.force_query)) query_string
    ok tt
