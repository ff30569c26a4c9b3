-- ===== src/Prometheus.antt =====
-- internal/prometheus/prometheus.go: samples, limits and errors. Texts are bytes, as in Go.
pub mod Labels
pub mod Samples
pub mod Exposition
use statlite.Result.{Result, err, ok, refuse}
use statlite.Bytes.{Bytes}
use statlite.Prelude.{ℕ, zero, Bool, true, false, not, ◌&&◌, ◌||◌, List, [], ◌∷◌, leb, ◌==◌}

-- Limits; sizes and counts are not negative, so `validate` has only zero to refuse.
pub record Limits : Type 0 where
  pub max_compressed_bytes : ℕ
  pub max_decompressed_bytes : ℕ
  pub max_redirects : ℕ
  pub max_samples : ℕ
  pub max_labels_per_sample : ℕ
  pub max_label_bytes : ℕ

abbrev pub default_limits : Limits
default_limits = record {
  max_compressed_bytes = 1_048_576;
  max_decompressed_bytes = 4_194_304;
  max_redirects = 3;
  max_samples = 100_000;
  max_labels_per_sample = 32;
  max_label_bytes = 1024;
}

unfoldable pub validate_limits : Limits → Bool
validate_limits l = not (
    (l.max_compressed_bytes == 0)
    || (l.max_decompressed_bytes == 0)
    || (l.max_samples == 0)
    || (l.max_label_bytes == 0))

pub data FailureClass : Type 0 where
  invalid_url transport authentication not_found http content_type unsafe malformed : FailureClass

pub data Format : Type 0 where
  text_format openmetrics_format : Format

abbrev pub is_openmetrics : Format → Bool
is_openmetrics text_format = false
is_openmetrics openmetrics_format = true

pub record Label : Type 0 where
  pub name : Bytes
  pub value : Bytes

pub record Sample (F : Type 0) : Type 0 where
  pub name : Bytes
  pub labels : List Label
  pub value : F

-- The errors of a line. `label_size_exceeded` and `too_many_labels` wrap errLimitExceeded.
pub data LineError : Type 0 where
  missing_sample_value : LineError
  invalid_metric_name : Bytes → LineError
  unterminated_label_set : LineError
  invalid_label : LineError
  invalid_label_name : Bytes → LineError
  duplicate_label_name : Bytes → LineError
  label_value_not_quoted : LineError
  unterminated_label_escape : LineError
  invalid_label_escape : LineError
  invalid_escaped_label_value : LineError
  unterminated_label_value : LineError
  label_size_exceeded : LineError
  too_many_labels : LineError
  labels_not_separated : LineError
  exemplars_not_supported : LineError
  invalid_exemplar : LineError
  exemplar_labels : LineError → LineError
  exemplar_value_expected : LineError
  invalid_exemplar_value : LineError
  invalid_exemplar_timestamp : LineError
  value_and_timestamp_expected : LineError
  invalid_sample_value : Bytes → LineError
  invalid_sample_timestamp : LineError
  -- A loop without fuel; no line has this error.
  out_of_fuel : LineError

-- errors.Is(err, errLimitExceeded)
unfoldable pub is_limit_exceeded : LineError → Bool
is_limit_exceeded label_size_exceeded = true
is_limit_exceeded too_many_labels = true
is_limit_exceeded (exemplar_labels e) = is_limit_exceeded e
is_limit_exceeded _ = false

abbrev pub is_name_start : Bool → ℕ → Bool
is_name_start colon c =
    (leb b'a' c && leb c b'z')
    || (leb b'A' c && leb c b'Z')
    || (c == b'_')
    || (colon && (c == b':'))

abbrev pub is_name_byte : Bool → ℕ → Bool
is_name_byte colon c = is_name_start colon c || (leb b'0' c && leb c b'9')

unfoldable pub all_name_bytes : Bool → Bytes → Bool
all_name_bytes colon [] = true
all_name_bytes colon (c ∷ s) = is_name_byte colon c && all_name_bytes colon s

-- A byte above ASCII is part of no letter that a name may have.
unfoldable pub valid_name : Bytes → Bool → Bool
unfolding all_name_bytes
valid_name [] colon = false
valid_name (c ∷ s) colon = is_name_start colon c && all_name_bytes colon s

abbrev pub valid_metric_name : Bytes → Bool
valid_metric_name s = valid_name s true

abbrev pub valid_label_name : Bytes → Bool
valid_label_name s = valid_name s false
