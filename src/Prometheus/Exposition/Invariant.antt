-- ===== src/Prometheus/Exposition/Invariant.antt =====
-- What a handler keeps, an exposition keeps (internal/prometheus/prometheus.go).
use mathlib.Core.Path.{subst}
use statlite.Result.{Result, ok, err}
use statlite.Float.{Float64}
use statlite.Bytes.{Bytes, ascii, bytes_eq, has_prefix, trim_space, is_nil}
use statlite.Prometheus.{Limits, validate_limits, Format, Sample, LineError}
use statlite.Prometheus.Samples.{FloatText, parse_sample}
use statlite.Prometheus.Exposition.{
  Body, ScanError, scan_lines, buffer_size, Parsed, accept_sample, handled, parse_line, parse_lines,
  ended, parse,
}
use statlite.Prelude.{
  ◌+◌, ◌≡◌, refl, sym, inl, inr, false, Option, none, some, List, [], ◌∷◌, arith, ltb, Bool-cases,
  is_some,
}

-- The state of a result is kept, too.
abbrev pub IsKeptBy : {S E : Type 0} → (S → Type 0) → Result E S → Type 0
IsKeptBy P (ok s) = P s
IsKeptBy P (err e) = Unit

module _ {F S E : Type 0} ⦃fl : Float64 F⦄ ⦃ft : FloatText F⦄ (handler : S → Sample F → Result E S)
    (P : S → Type 0)
    (keeps : (s : S) (sample : Sample F) → P s → IsKeptBy P (handler s sample)) where
  handled-keeps :
      (p : Parsed S E) (r : Result E S) → P p.state → IsKeptBy P r → P (handled p r).state
  handled-keeps p (ok s) h k = k
  handled-keeps p (err e) h k = h

  accept_sample-keeps :
      (limits : Limits) (p : Parsed S E) (r : Result LineError (Sample F))
      → P p.state
      → P (accept_sample handler limits p r).state
  accept_sample-keeps limits p (err e) h = h
  accept_sample-keeps limits p (ok sample) h =
      elim (Bool-cases (ltb limits.max_samples (p.samples + 1))) [
        | inl e ↦ rw e h
        | inr e ↦ rw e (
            handled-keeps (record p { samples = p.samples + 1 }) (handler p.state sample) h
              (keeps p.state sample h))
      ]

  parse_line-keeps :
      (format : Format) (limits : Limits) (p : Parsed S E) (text : Bytes)
      → P p.state
      → P (parse_line handler format limits p text).state
  unfolding parse_line
  parse_line-keeps format limits p text h =
      let line = trim_space text in
      elim (Bool-cases (is_nil line)) [
        | inl e ↦ rw e h
        | inr e ↦ elim (Bool-cases p.saw_eof) [
          | inl f ↦ simp (e, f) h
          | inr f ↦ elim (Bool-cases (bytes_eq line (ascii "# EOF"))) [
            | inl g ↦ simp (e, f, g) h
            | inr g ↦ elim (Bool-cases (has_prefix line (ascii "#"))) [
              | inl k ↦ simp (e, f, g, k) h
              | inr k ↦
                  simp (e, f, g, k)
                    (accept_sample-keeps limits p (parse_sample F line format limits) h)
            ]
          ]
        ]
      ]

  parse_lines-keeps :
      (format : Format) (limits : Limits) (p : Parsed S E) (lines : List Bytes)
      → P p.state
      → P (parse_lines handler format limits p lines).state
  unfolding parse_lines
  parse_lines-keeps format limits p [] h = h
  parse_lines-keeps format limits p (line ∷ lines) h =
      let next = parse_line handler format limits p line in
      let k = parse_line-keeps format limits p line h in
      elim (Bool-cases (is_some next.error)) [
        | inl e ↦ simp e k
        | inr e ↦ simp e (parse_lines-keeps format limits next lines k)
      ]

  ended-state :
      (format : Format) (bytes : Bytes) (p : Parsed S E) (e : Option ScanError)
      → (ended format bytes p e).state ≡ p.state
  ended-state format bytes p none = ground arith
  ended-state format bytes p (some e) = refl

  -- An invariant of the handler holds of the state that a parse leaves, also after an error.
  pub parse-keeps :
      (state : S) (body : Body) (format : Format) (limits : Limits)
      → P state
      → P (parse handler state body format limits).state
  unfolding parse
  parse-keeps state body format limits h =
      let size = buffer_size limits in
      let scan = scan_lines size size body.error [] body.bytes in
      let initial : Parsed S E = record {
        samples = 0;
        saw_eof = false;
        state = state;
        error = none;
      } in
      let all = parse_lines handler format limits initial scan.lines in
      let k = parse_lines-keeps format limits initial scan.lines h in
      elim (Bool-cases (validate_limits limits)) [
        | inr e ↦ simp e h
        | inl e ↦ elim (Bool-cases (is_some all.error)) [
          | inl f ↦ simp (e, f) k
          | inr f ↦ simp (e, f) (subst P (sym (ended-state format body.bytes all scan.error)) k)
        ]
      ]
