-- ===== src/Prometheus/Samples/RoundTrip.antt =====
-- A sample line in the exposition format is read back (internal/prometheus/prometheus.go).
use mathlib.Core.List.{append_assoc, append-nil}
use statlite.Result.{ok}
use statlite.Float.{Float64}
use statlite.Bytes.{
  Bytes, ascii, has_prefix, is_nil, split_at, split_on, fields, split_fields, emit_field,
}
use statlite.Bytes.Trim.{
  ends_solid-cons, is_solid, starts_solid, ends_solid, trim_space-solid, trim_space-space,
  space_width-solid, ends_solid-append,
}
use statlite.Prometheus.{Limits, Format, Label, valid_name, all_name_bytes}
use statlite.Prometheus.Labels.Sound.{IsLabel}
use statlite.Prometheus.Labels.Rendering.{valid_name-all_name_bytes}
use statlite.Prometheus.Labels.RoundTrip.{
  ends_solid-render_labels_onto, render_labels_onto, AreFresh, parse_labels-render_labels,
  find_label_end-render_labels,
}
use statlite.Prometheus.Samples.{FloatText, sample_labels, value_and_timestamp, parse_sample}
use statlite.Prelude.{
  ℕ, ◌≤◌, ◌≡◌, refl, sym, ap, ◌∙◌, true, false, ◌||◌, none, some, List, [], ◌∷◌, ◌++◌, arith, ◌==◌,
  length, All,
}

-- A text of visible ASCII characters, such as a number's.
abbrev pub AllSolid : Bytes → Type 0
AllSolid s = (is_nil s ≡ false) × All (λ c. is_solid c ≡ true) s

-- name{labels} value
abbrev pub render_sample : Bytes → List Label → Bytes → Bytes
render_sample name labels value = name ++ b'{' ∷ render_labels_onto labels (b'}' ∷ 0x20 ∷ value)

starts_solid-AllSolid : (s : Bytes) → AllSolid s → starts_solid s ≡ true
starts_solid-AllSolid [] h = cc h.0
starts_solid-AllSolid (c ∷ s) h = h.1.0

pub ends_solid-AllSolid : (s : Bytes) → AllSolid s → ends_solid s ≡ true
ends_solid-AllSolid [] h = cc h.0
ends_solid-AllSolid (c ∷ []) h = h.1.0
ends_solid-AllSolid (c ∷ d ∷ s) h = ends_solid-AllSolid (d ∷ s) (refl, h.1.1)

split_on-AllSolid : (s : Bytes) → All (λ c. is_solid c ≡ true) s → split_on (ascii " # ") 3 s ≡ none
unfolding split_on has_prefix
split_on-AllSolid [] h = refl
split_on-AllSolid (c ∷ s) h = ground (arith, split_on-AllSolid s h.1)

emit_field-append : (s : Bytes) (c : ℕ) → emit_field (s ++ c ∷ []) [] ≡ (s ++ c ∷ []) ∷ []
emit_field-append [] c = refl
emit_field-append (d ∷ s) c = refl

split_fields-AllSolid :
    (field s : Bytes)
    → All (λ c. is_solid c ≡ true) s
    → split_fields 0 field s ≡ emit_field (field ++ s) []
unfolding split_fields
split_fields-AllSolid field [] h = ap (λ f. emit_field f []) (sym (append-nil field))
split_fields-AllSolid field (c ∷ s) h = rw (space_width-solid c s h.0) (
    split_fields-AllSolid (field ++ c ∷ []) s h.1
    ∙ ap (λ f. emit_field f []) (append_assoc field (c ∷ []) s))

fields-AllSolid : (s : Bytes) → AllSolid s → fields s ≡ s ∷ []
unfolding fields
fields-AllSolid [] h = cc h.0
fields-AllSolid (c ∷ s) h = split_fields-AllSolid [] (c ∷ s) h.1

split_at-metric_name :
    (name rest : Bytes)
    → all_name_bytes true name ≡ true
    → split_at (λ c. c == b'{' || c == b' ' || c == b'\t') (name ++ b'{' ∷ rest)
      ≡ some (name, b'{' ∷ rest)
unfolding split_at all_name_bytes
split_at-metric_name [] rest h = refl
split_at-metric_name (c ∷ s) rest h = ground (arith, split_at-metric_name s rest)

module _ {F : Type 0} ⦃fl : Float64 F⦄ ⦃ft : FloatText F⦄ where
  -- A line of a valid metric name, a label set within the limits whose names are distinct, and a
  -- value in visible ASCII characters that reads as a number, parses in either format to that
  -- name, those labels and that number.
  pub parse_sample-render_sample :
      (name : Bytes) (labels : List Label) (value : Bytes) (number : F) (format : Format)
      (limits : Limits)
      → valid_name name true ≡ true
      → All (IsLabel limits) labels
      → AreFresh [] labels
      → length labels ≤ limits.max_labels_per_sample
      → AllSolid value
      → ft.parse_float value ≡ some number
      → parse_sample F (render_sample name labels value) format limits
        ≡ ok (record { name = name; labels = labels; value = number })
  unfolding parse_sample sample_labels value_and_timestamp
  parse_sample-render_sample name labels value number format limits n is fresh count v x =
      let rest = render_labels_onto labels (b'}' ∷ 0x20 ∷ value) in
      let trimmed = trim_space-solid (b'{' ∷ rest) refl (
        ends_solid-cons b'{' rest (
          ends_solid-render_labels_onto labels (b'}' ∷ 0x20 ∷ value)
            (ends_solid-append (b'}' ∷ 0x20 ∷ []) value (ends_solid-AllSolid value v)))) in
      rw (split_at-metric_name name rest (valid_name-all_name_bytes name true n)) (
        rw (n, trimmed)
          (rw (find_label_end-render_labels limits labels (0x20 ∷ value) is) (
            rw (parse_labels-render_labels limits labels is fresh count) (
              rw
                (trim_space-space value (starts_solid-AllSolid value v)
                  (ends_solid-AllSolid value v))
                (rw (split_on-AllSolid value v.1) (rw (fields-AllSolid value v, x) refl))))))
