-- ===== src/Prometheus/Samples.antt =====
-- internal/prometheus/prometheus.go: parseSample, validateExemplar and validateTimestamp. A line is a
-- metric's name, its labels, and a value with an optional timestamp and exemplar.
pub mod RoundTrip
use statlite.Result.{Result, ok, err, ◌>>=◌, ◌>>◌, refuse, or_err}
use statlite.Float.{Float64}
use statlite.Bytes.{Bytes, ascii, trim_space, split_at, split_on, fields}
use statlite.Prometheus.{
  Limits, Format, text_format, openmetrics_format, is_openmetrics, Label, Sample, LineError,
  valid_metric_name, missing_sample_value, invalid_metric_name, exemplars_not_supported,
  invalid_exemplar, exemplar_labels, exemplar_value_expected, invalid_exemplar_value,
  invalid_exemplar_timestamp, value_and_timestamp_expected, invalid_sample_value,
  invalid_sample_timestamp,
}
use statlite.Prometheus.Labels.{find_label_end, parse_labels}
use statlite.Prelude.{
  ◌^◌, ℕ, zero, suc, ◌+◌, ◌-◌, ◌*◌, ◌/◌, ◌%◌, ◌≤◌, ◌<◌, String, ◌≡◌, refl, sym, ap, ◌∙◌, ◌≢◌, ◌↔◌,
  ◌⊎◌, inl, inr, Bool, true, false, not, ◌&&◌, ◌||◌, Option, none, some, List, [], ◌∷◌, ◌++◌, map,
  arith, eq_iff, eq_refl, ltb, leb, ◌==◌, if◌then◌else◌, ltb→lt, lt→ltb, leb→le, ==_iff, tests,
  Bool-cases, Option-cases, is_some, get_or_else, option_eq, length, take, head?, last?, filterb,
  anyb, find?, foldl, All, allb, All-append, All-filterb, All-filterb_of, All-of, All-every,
  All-map, anyb-append, filterb-append, anyb-filterb-not, length-filterb-not, length-append,
  length-take, length-filterb, foldl-append, str_eq, upper_eq, lookup, insert, lookup-insert,
  some_injective,
}

-- strconv.ParseFloat(s, 64), whose errors are `none`.
pub record FloatText (F : Type 0) : Type 0 where
  pub parse_float : Bytes → Option F

-- The decimal digits of a number, with the number in front of them.
unfoldable pub read_digits : ℕ → Bytes → Option ℕ
read_digits n [] = some n
read_digits n (c ∷ s) =
    let rest = read_digits (n * 10 + (c - b'0')) s in
    if leb b'0' c && leb c b'9' then rest else none

abbrev pub is_at_most : Option ℕ → ℕ → Bool
is_at_most none limit = false
is_at_most (some n) limit = leb n limit

abbrev pub is_number_within : Bytes → ℕ → Bool
is_number_within [] limit = false
is_number_within (c ∷ s) limit = is_at_most (read_digits 0 (c ∷ s)) limit

-- Whether strconv.ParseInt(s, 10, 64) succeeds.
unfoldable pub parses_int64 : Bytes → Bool
unfolding read_digits
parses_int64 [] = false
parses_int64 (c ∷ s) =
    if c == b'-'
    then is_number_within s (2 ^ 63)
    else if c == b'+'
    then is_number_within s (2 ^ 63 - 1)
    else is_number_within (c ∷ s) (2 ^ 63 - 1)

abbrev pub in_exemplar : {A : Type 0} → Result LineError A → Result LineError A
in_exemplar (ok a) = ok a
in_exemplar (err e) = err (exemplar_labels e)

-- The labels at the front of a text, and the text after them.
unfoldable pub sample_labels : Limits → Bytes → Result LineError (List Label × Bytes)
sample_labels limits [] = ok ([], [])
sample_labels limits (c ∷ s) =
    if c == b'{'
    then (do
      (body, after) ← find_label_end false false s
      labels ← parse_labels body limits
      ok (labels, trim_space after))
    else ok ([], c ∷ s)

module _ (F : Type 0) ⦃fl : Float64 F⦄ ⦃ft : FloatText F⦄ where
  abbrev pub is_finite : Option F → Bool
  is_finite none = false
  is_finite (some x) = not (fl.is_inf x) && not (fl.is_nan x)

  unfoldable pub validate_timestamp : Bytes → Format → Bool
  unfolding parses_int64
  validate_timestamp value text_format = parses_int64 value
  validate_timestamp value openmetrics_format = is_finite (ft.parse_float value)

  -- A value and an optional timestamp; the errors are the caller's.
  unfoldable pub value_and_timestamp :
      LineError → (Bytes → LineError) → LineError → Format → List Bytes → Result LineError F
  value_and_timestamp count_error value_error time_error format (value ∷ []) =
      or_err (ft.parse_float value) (value_error value)
  value_and_timestamp count_error value_error time_error format (value ∷ time ∷ []) = do
    number ← or_err (ft.parse_float value) (value_error value)
    refuse (not (validate_timestamp time format)) time_error
    ok number
  value_and_timestamp count_error value_error time_error format _ = err count_error

  unfoldable pub validate_exemplar : Bytes → Format → Limits → Result LineError (Unit {0})
  validate_exemplar [] format limits = err invalid_exemplar
  validate_exemplar (c ∷ s) format limits = do
    refuse (not (c == b'{')) invalid_exemplar
    (body, after) ← in_exemplar (find_label_end false false s)
    labels ← in_exemplar (parse_labels body limits)
    number ←
        value_and_timestamp exemplar_value_expected (λ _. invalid_exemplar_value)
          invalid_exemplar_timestamp format (fields (trim_space after))
    ok tt

  abbrev pub exemplar_of : Format → Limits → Bytes → Option (Bytes × Bytes) → Result LineError Bytes
  exemplar_of format limits rest none = ok rest
  exemplar_of format limits rest (some (before, after)) = do
    refuse (not (is_openmetrics format)) exemplars_not_supported
    validate_exemplar (trim_space after) format limits
    ok (trim_space before)

  unfoldable pub parse_sample : Bytes → Format → Limits → Result LineError (Sample F)
  parse_sample line format limits = do
    (name, after) ←
        or_err (split_at (λ c. c == b'{' || c == b' ' || c == b'\t') line) missing_sample_value
    refuse (not (valid_metric_name name)) (invalid_metric_name name)
    (labels, rest) ← sample_labels limits (trim_space after)
    rest' ← exemplar_of format limits rest (split_on (ascii " # ") 3 rest)
    value ←
        value_and_timestamp value_and_timestamp_expected invalid_sample_value
          invalid_sample_timestamp format (fields rest')
    ok (record { name = name; labels = labels; value = value })
