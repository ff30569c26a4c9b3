-- ===== src/Prometheus/Exposition/RoundTrip.antt =====
-- A rendered exposition is read back, sample by sample (internal/prometheus/prometheus.go).
use statlite.Result.{Result, ok, ok_injective, >>=-eq-ok, ◌>>=◌}
use statlite.Float.{Float64}
use statlite.Bytes.{Bytes, ascii, bytes_eq, has_prefix, trim_space}
use statlite.Bytes.Trim.{
  is_nil-starts_solid, starts_solid, ends_solid, trim_space-solid, ends_solid-append,
  starts_solid-append, ends_solid-cons,
}
use statlite.Prometheus.{
  Limits, validate_limits, Format, text_format, openmetrics_format, is_openmetrics, Label, Sample,
  valid_name,
}
use statlite.Prometheus.Labels.Sound.{IsLabel}
use statlite.Prometheus.Labels.Rendering.{valid_name-all_name_bytes, starts_solid-valid_name}
use statlite.Prometheus.Labels.RoundTrip.{
  render_labels_onto, AreFresh, ends_solid-render_labels_onto,
}
use statlite.Prometheus.Samples.{FloatText}
use statlite.Prometheus.Samples.RoundTrip.{
  AllSolid, render_sample, parse_sample-render_sample, ends_solid-AllSolid,
}
use statlite.Prometheus.Exposition.{
  Scan, scan_lines, buffer_size, Parsed, accept_sample, parse_line, parse_lines, ended, parse,
  is_unterminated,
}
use statlite.Prometheus.Exposition.Lines.{
  IsLine, scan_lines-IsLine, drop_cr-solid, all_name_bytes-IsLine, AllSolid-IsLine,
  render_labels_onto-IsLine,
}
use statlite.Prelude.{
  ℕ, suc, ◌+◌, ◌≤◌, ◌<◌, ◌≡◌, refl, ap, ◌∙◌, true, false, none, some, List, [], ◌∷◌, ◌++◌, map,
  arith, ltb, if◌then◌else◌, is_some, length, All, All-append,
}

-- A sample with its value's text.
pub record Entry (F : Type 0) : Type 0 where
  pub name : Bytes
  pub labels : List Label
  pub value : Bytes
  pub number : F

abbrev pub closing : Format → Bytes
closing text_format = []
closing openmetrics_format = ascii "# EOF" ++ b'\n' ∷ []

module _ {F : Type 0} where
  abbrev pub sample_of : Entry F → Sample F
  sample_of e = record { name = e.name; labels = e.labels; value = e.number }

  abbrev pub line_of : Entry F → Bytes
  line_of e = render_sample e.name e.labels e.value

  -- A line for each sample, and the format's end.
  abbrev pub render_exposition : Format → List (Entry F) → Bytes
  render_exposition format [] = closing format
  render_exposition format (e ∷ es) = line_of e ++ b'\n' ∷ render_exposition format es

  -- The samples are handled in order, until one is refused.
  abbrev pub handle_all :
      {S E : Type 0} → (S → Sample F → Result E S) → S → List (Entry F) → Result E S
  handle_all handler state [] = ok state
  handle_all handler state (e ∷ es) = handler state (sample_of e) >>= λ s. handle_all handler s es

  -- What a line of the format states, within the limits.
  pub record IsEntry ⦃ft : FloatText F⦄ (limits : Limits) (e : Entry F) : Type 0 where
    pub name_valid : valid_name e.name true ≡ true
    pub labels_valid : All (IsLabel limits) e.labels
    pub labels_distinct : AreFresh [] e.labels
    pub label_count : length e.labels ≤ limits.max_labels_per_sample
    pub value_visible : AllSolid e.value
    pub value_reads : ft.parse_float e.value ≡ some e.number
    pub line_fits : length (line_of e) < buffer_size limits

  line_of-IsLine :
      ⦃ft : FloatText F⦄ (limits : Limits) (e : Entry F) → IsEntry limits e → IsLine (line_of e)
  line_of-IsLine limits e is =
      All-append _ e.name (b'{' ∷ render_labels_onto e.labels (b'}' ∷ 0x20 ∷ e.value))
        (all_name_bytes-IsLine true e.name (valid_name-all_name_bytes e.name true is.name_valid))
        (
          refl,
          render_labels_onto-IsLine limits e.labels (b'}' ∷ 0x20 ∷ e.value) is.labels_valid
              (refl, (refl, AllSolid-IsLine e.value is.value_visible.1)),
        )

  ends_solid-line_of :
      ⦃ft : FloatText F⦄ (limits : Limits) (e : Entry F)
      → IsEntry limits e
      → ends_solid (line_of e) ≡ true
  ends_solid-line_of limits e is =
      let rest = b'}' ∷ 0x20 ∷ e.value in
      ends_solid-append e.name (b'{' ∷ render_labels_onto e.labels rest) (
        ends_solid-cons b'{' (render_labels_onto e.labels rest) (
          ends_solid-render_labels_onto e.labels rest (
            ends_solid-append (b'}' ∷ 0x20 ∷ []) e.value
              (ends_solid-AllSolid e.value is.value_visible))))

  -- A line of the exposition comes out of the scanner as it was rendered.
  scan_lines-line_of :
      ⦃ft : FloatText F⦄ (limits : Limits) (e : Entry F) (rest : Bytes)
      → IsEntry limits e
      → let size = buffer_size limits in
        scan_lines size size none [] (line_of e ++ b'\n' ∷ rest)
        ≡ record (scan_lines size size none [] rest) {
          lines = line_of e ∷ (scan_lines size size none [] rest).lines;
        }
  scan_lines-line_of limits e rest is =
      let size = buffer_size limits in
      scan_lines-IsLine size size none [] (line_of e) rest (line_of-IsLine limits e is) is.line_fits
      ∙ ap
          (λ l. record (scan_lines size size none [] rest) {
            lines = l ∷ (scan_lines size size none [] rest).lines;
          })
          (drop_cr-solid (line_of e) (ends_solid-line_of limits e is))

  scan_lines-render_exposition :
      ⦃ft : FloatText F⦄ (limits : Limits) (format : Format) (es : List (Entry F))
      → All (IsEntry limits) es
      → let size = buffer_size limits in
        let tail = scan_lines size size none [] (closing format) in
        scan_lines size size none [] (render_exposition format es)
        ≡ record { lines = map line_of es ++ tail.lines; error = tail.error }
  scan_lines-render_exposition limits format [] is = refl
  scan_lines-render_exposition limits format (e ∷ es) is =
      let size = buffer_size limits in
      scan_lines-line_of limits e (render_exposition format es) is.0
      ∙ ap (λ (scan : Scan). record scan { lines = line_of e ∷ scan.lines })
          (scan_lines-render_exposition limits format es is.1)

  starts_solid-line_of :
      ⦃ft : FloatText F⦄ (limits : Limits) (e : Entry F)
      → IsEntry limits e
      → starts_solid (line_of e) ≡ true
  starts_solid-line_of limits e is =
      starts_solid-append e.name _ (starts_solid-valid_name e.name true is.name_valid)

abbrev closing_lines : Format → List Bytes
closing_lines text_format = []
closing_lines openmetrics_format = ascii "# EOF" ∷ []

scan_lines-closing :
    (limits : Limits) (format : Format)
    → let size = buffer_size limits in
      scan_lines size size none [] (closing format)
      ≡ record { lines = closing_lines format; error = none }
unfolding scan_lines
scan_lines-closing limits text_format = refl
scan_lines-closing limits openmetrics_format =
    let size = buffer_size limits in
    scan_lines-IsLine size size none [] (ascii "# EOF") []
      (refl, (refl, (refl, (refl, (refl, tt))))) (ground arith)

is_unterminated-append :
    (s : Bytes) (c : ℕ) (t : Bytes) → is_unterminated (s ++ c ∷ t) ≡ is_unterminated (c ∷ t)
is_unterminated-append [] c t = refl
is_unterminated-append (d ∷ []) c t = refl
is_unterminated-append (d ∷ e ∷ s) c t = is_unterminated-append (e ∷ s) c t

is_unterminated-newline :
    (t : Bytes) → is_unterminated t ≡ false → is_unterminated (b'\n' ∷ t) ≡ false
is_unterminated-newline [] h = refl
is_unterminated-newline (c ∷ t) h = h

is_unterminated-render_exposition :
    {F : Type 0} (es : List (Entry F)) → is_unterminated (render_exposition text_format es) ≡ false
is_unterminated-render_exposition [] = refl
is_unterminated-render_exposition (e ∷ es) =
    let more = render_exposition text_format es in
    is_unterminated-append (line_of e) b'\n' more
    ∙ is_unterminated-newline more (is_unterminated-render_exposition es)

-- A line that starts with a name is no comment.
has_prefix-valid_name :
    (name rest : Bytes)
    → valid_name name true ≡ true
    → has_prefix (name ++ rest) (ascii "#") ≡ false
unfolding has_prefix valid_name
has_prefix-valid_name [] rest h = cc
has_prefix-valid_name (c ∷ s) rest h = ground arith

bytes_eq-valid_name :
    (name rest : Bytes)
    → valid_name name true ≡ true
    → bytes_eq (name ++ rest) (ascii "# EOF") ≡ false
unfolding bytes_eq valid_name
bytes_eq-valid_name [] rest h = cc
bytes_eq-valid_name (c ∷ s) rest h = ground arith

module _ {F S E : Type 0} ⦃fl : Float64 F⦄ ⦃ft : FloatText F⦄
    (handler : S → Sample F → Result E S) where
  abbrev running : ℕ → S → Parsed S E
  running n state = record { samples = n; saw_eof = false; state = state; error = none }

  parse_line-line_of :
      (format : Format) (limits : Limits) (n : ℕ) (state : S) (e : Entry F)
      → IsEntry limits e
      → parse_line handler format limits (running n state) (line_of e)
        ≡ accept_sample handler limits (running n state) (ok (sample_of e))
  unfolding parse_line
  parse_line-line_of format limits n state e is =
      let starts = starts_solid-line_of limits e is in
      let trimmed = trim_space-solid (line_of e) starts (ends_solid-line_of limits e is) in
      let rest = b'{' ∷ render_labels_onto e.labels (b'}' ∷ 0x20 ∷ e.value) in
      rw trimmed (
        rw
          (
            is_nil-starts_solid (line_of e) starts,
            bytes_eq-valid_name e.name rest is.name_valid,
            has_prefix-valid_name e.name rest is.name_valid,
          )
          (ap (accept_sample handler limits (running n state)) (
            parse_sample-render_sample e.name e.labels e.value e.number format limits is.name_valid
              is.labels_valid is.labels_distinct is.label_count is.value_visible is.value_reads)))

  accept_sample-ok :
      (limits : Limits) (n : ℕ) (state next : S) (sample : Sample F)
      → n + 1 ≤ limits.max_samples
      → handler state sample ≡ ok next
      → accept_sample handler limits (running n state) (ok sample) ≡ running (n + 1) next
  accept_sample-ok limits n state next sample fits h =
      let within : ltb limits.max_samples (n + 1) ≡ false = ground arith in rw (within, h) refl

  parse_lines-line_of :
      (format : Format) (limits : Limits) (n : ℕ) (state final : S) (es : List (Entry F))
      (tail : List Bytes)
      → All (IsEntry limits) es
      → n + length es ≤ limits.max_samples
      → handle_all handler state es ≡ ok final
      → parse_lines handler format limits (running n state) (map line_of es ++ tail)
        ≡ parse_lines handler format limits (running (n + length es) final) tail
  unfolding parse_lines
  parse_lines-line_of format limits n state final [] tail is fits h =
      let count : n + 0 ≡ n = omega arith in rw (count, ok_injective h) refl
  parse_lines-line_of format limits n state final (e ∷ es) tail is fits h =
      let (next, first, later) =
        >>=-eq-ok (handler state (sample_of e)) (λ s. handle_all handler s es) h in
      let count : n + 1 + length es ≡ n + suc (length es) = omega arith in
      let step =
        parse_line-line_of format limits n state e is.0
        ∙ accept_sample-ok limits n state next (sample_of e) (omega arith) first in
      ap
        (λ (p : Parsed S E).
          if is_some p.error
          then p
          else parse_lines handler format limits p (map line_of es ++ tail))
        step
      ∙ parse_lines-line_of format limits (n + 1) next final es tail is.1 (omega arith) later
      ∙ ap (λ m. parse_lines handler format limits (running m final) tail) count

  ended-closing :
      (format : Format) (es : List (Entry F)) (n : ℕ) (state : S)
      → ended format
          (render_exposition format es)
          (record (running n state) { saw_eof = is_openmetrics format })
          none
        ≡ record (running n state) { saw_eof = is_openmetrics format }
  ended-closing text_format es n state = rw (is_unterminated-render_exposition es) refl
  ended-closing openmetrics_format es n state = refl

  parse_lines-closing :
      (format : Format) (limits : Limits) (n : ℕ) (state : S)
      → parse_lines handler format limits (running n state) (closing_lines format)
        ≡ record (running n state) { saw_eof = is_openmetrics format }
  unfolding parse_lines parse_line trim_space bytes_eq
  parse_lines-closing text_format limits n state = refl
  parse_lines-closing openmetrics_format limits n state = refl

  -- An exposition of samples that the limits allow, one line each, closed as its format demands,
  -- is parsed without error, if the handler takes the samples one after the other: it is called
  -- with exactly these samples in their order, and they are counted.
  pub parse-render_exposition :
      (format : Format) (limits : Limits) (state final : S) (es : List (Entry F))
      → validate_limits limits ≡ true
      → All (IsEntry limits) es
      → length es ≤ limits.max_samples
      → handle_all handler state es ≡ ok final
      → parse handler state
          (record { bytes = render_exposition format es; error = none })
          format
          limits
        ≡ record {
          samples = length es;
          saw_eof = is_openmetrics format;
          state = final;
          error = none;
        }
  unfolding parse
  parse-render_exposition format limits state final es valid is fits h =
      let scanned =
        scan_lines-render_exposition limits format es is
        ∙ ap (λ (scan : Scan). record { lines = map line_of es ++ scan.lines; error = scan.error })
            (scan_lines-closing limits format) in
      let count : 0 + length es ≡ length es = omega arith in
      let done : parse_lines handler format limits (running 0 state)
            (map line_of es ++ closing_lines format)
          ≡ record (running (length es) final) { saw_eof = is_openmetrics format } =
        parse_lines-line_of format limits 0 state final es (closing_lines format) is (omega arith) h
        ∙ ap (λ m. parse_lines handler format limits (running m final) (closing_lines format)) count
        ∙ parse_lines-closing format limits (length es) final in
      rw valid (rw scanned (rw done (ended-closing format es (length es) final)))
