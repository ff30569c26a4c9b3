-- ===== src/Config/Caddy.antt =====
-- internal/config/config.go: validateCaddyTarget and caddySelectionKey.
use Prim.Native.Char.{code}
use statlite.Result.{Result, ok, err, ◌>>◌, refuse}
use statlite.Config.{TargetConfig, Url, Parsers}
use statlite.Config.Errors.{
  Reason, ConfigError, target_error, required, only_for_spring, not_an_exact_host,
  port_out_of_range, invalid_dns_label,
}
use statlite.Config.Urls.{contains_code, read_decimal, in_port_range, validate_target_url}
use statlite.Prelude.{
  ℕ, ◌+◌, String, Bool, true, false, not, ◌&&◌, ◌||◌, Option, none, some, List, [], ◌∷◌, ◌++◌, ltb,
  leb, ◌==◌, if◌then◌else◌, length, head?, last?, allb, str_eq, is_empty,
}

abbrev pub target_error_of : TargetConfig → String → Reason → ConfigError
target_error_of t field reason = target_error t.name field reason

-- An error of a URL, told of a target's field.
abbrev pub in_field : {A : Type 0} → TargetConfig → String → Result Reason A → Result ConfigError A
in_field t field (ok a) = ok a
in_field t field (err e) = err (target_error_of t field e)

-- len(s), of the text's UTF-8 bytes.
abbrev pub byte_length : String → ℕ
byte_length String.[] = 0
byte_length (String.◌∷◌ c s) =
    (if ltb (code c) 0x80
      then 1
      else if ltb (code c) 0x800
      then 2
      else if ltb (code c) 0x10000
      then 3
      else 4)
    + byte_length s

-- strings.ContainsAny(host, " /\\?#@*\t\r\n")
abbrev pub is_excluded : ℕ → Bool
is_excluded c =
    (c == b' ')
    || (c == b'/')
    || (c == b'\\')
    || (c == b'?')
    || (c == b'#')
    || (c == b'@')
    || (c == b'*')
    || (c == b'\t')
    || (c == b'\r')
    || (c == b'\n')

abbrev pub contains_excluded : String → Bool
contains_excluded String.[] = false
contains_excluded (String.◌∷◌ c s) = is_excluded (code c) || contains_excluded s

-- strings.Split(hostname, "."), each part as its characters' codes.
unfoldable pub split_dots : List ℕ → String → List (List ℕ)
split_dots part String.[] = part ∷ []
split_dots part (String.◌∷◌ c s) =
    let next = split_dots [] s in
    let more = split_dots (part ++ code c ∷ []) s in if code c == b'.' then part ∷ next else more

abbrev pub is_dns_char : ℕ → Bool
is_dns_char c =
    (leb b'a' c && leb c b'z')
    || (leb b'A' c && leb c b'Z')
    || (leb b'0' c && leb c b'9')
    || (c == b'-')

abbrev pub is_dash : Option ℕ → Bool
is_dash none = true
is_dash (some c) = c == b'-'

unfoldable pub is_dns_label : List ℕ → Bool
is_dns_label label =
    leb (length label) 63
    && not (is_dash (head? label))
    && not (is_dash (last? label))
    && allb is_dns_char label

abbrev pub is_exact_host : String → Option Url → Bool
is_exact_host host none = false
is_exact_host host (some u) =
    not (is_empty host)
    && leb (byte_length host) 253
    && not (contains_excluded host)
    && str_eq u.host host
    && not (is_empty u.hostname)

abbrev pub host_url : Option Url → String × String
host_url none = ("", "")
host_url (some u) = (u.hostname, u.port)

-- "https://" + host
abbrev pub https_url : String → String
https_url host = String.◌∷◌ "h" (
    String.◌∷◌ "t" (
      String.◌∷◌ "t"
        (String.◌∷◌ "p" (String.◌∷◌ "s" (String.◌∷◌ ":" (String.◌∷◌ "/" (String.◌∷◌ "/" host)))))))

-- strings.TrimSuffix
abbrev pub trim_suffix : String → String → String
trim_suffix String.[] suffix = String.[]
trim_suffix (String.◌∷◌ c s) suffix =
    if str_eq (String.◌∷◌ c s) suffix then String.[] else String.◌∷◌ c (trim_suffix s suffix)

abbrev pub without_default_port : String → String → String → String
without_default_port scheme port host =
    if str_eq scheme "http" && str_eq port "80"
    then trim_suffix host ":80"
    else if str_eq scheme "https" && str_eq port "443"
    then trim_suffix host ":443"
    else host

module _ (lib : Parsers) where
  unfoldable pub validate_caddy_target : TargetConfig → Result ConfigError TargetConfig
  unfolding split_dots is_dns_label
  validate_caddy_target t = do
    refuse (is_empty t.url) (target_error_of t "url" required)
    in_field t "url" (validate_target_url lib t.url true false)
    refuse (not (is_empty t.actuator_base_url) || t.actuator_url_set)
        (target_error_of t "actuator_base_url" only_for_spring)
    refuse (not (is_empty t.metrics_source) || t.metrics_source_set)
        (target_error_of t "metrics_source" only_for_spring)
    let parsed = lib.parse_url (https_url t.host)
    refuse (not (is_exact_host t.host parsed)) (target_error_of t "host" not_an_exact_host)
    let (hostname, port) = host_url parsed
    refuse (contains_code b':' t.host && not (in_port_range (read_decimal 0 port)))
        (target_error_of t "host" port_out_of_range)
    refuse (not (allb is_dns_label (split_dots [] hostname)))
        (target_error_of t "host" invalid_dns_label)
    ok t

  abbrev pub normalized : Url → Url
  normalized u =
      let scheme = lib.to_lower u.scheme in
      record u {
        scheme = scheme;
        host = without_default_port scheme u.port (lib.to_lower u.host);
        path = if is_empty u.path then "/" else u.path;
      }

  -- The key's two parts. A host that was validated has no zero byte, which joins them in the code.
  unfoldable pub caddy_selection_key : TargetConfig → String × String
  caddy_selection_key t = elim (lib.parse_url t.url) [
    | none ↦ ("", t.host)
    | some u ↦ (lib.url_string (normalized u), t.host)
  ]
