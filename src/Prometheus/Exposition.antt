-- ===== src/Prometheus/Exposition.antt =====
-- internal/prometheus/prometheus.go: Parse, over a body's bytes and the error that its reader ends
-- with. The handler takes a state and returns it changed; bufio.Scanner's lines are a list.
pub mod Invariant
pub mod Lines
pub mod RoundTrip
use statlite.Result.{Result, ok, err}
use statlite.Float.{Float64}
use statlite.Bytes.{Bytes, ascii, bytes_eq, has_prefix, trim_space, is_nil}
use statlite.Prometheus.{
  Limits, validate_limits, FailureClass, malformed, unsafe, Format, text_format, openmetrics_format,
  is_openmetrics, Sample, LineError, is_limit_exceeded,
}
use statlite.Prometheus.Samples.{FloatText, parse_sample}
use statlite.Prelude.{
  ℕ, ◌+◌, ◌-◌, Bool, true, false, not, ◌&&◌, Option, none, some, List, [], ◌∷◌, ◌++◌, ltb, leb,
  ◌==◌, if◌then◌else◌, is_some, length, take, last?,
}

-- Why a reader stops before the end. `too_large` wraps errLimitExceeded. An error comes with the
-- last bytes; io.EOF comes after them.
pub data ReadError : Type 0 where
  too_large interrupted : ReadError

pub record Body : Type 0 where
  pub bytes : Bytes
  pub error : Option ReadError

-- A counting reader passes one byte more than its limit on, with an error.
unfoldable pub counting_reader : ℕ → Body → Body
counting_reader limit body =
    if ltb limit (length body.bytes)
    then record { bytes = take (limit + 1) body.bytes; error = some too_large }
    else body

pub data ScanError : Type 0 where
  too_long : ScanError
  read : ReadError → ScanError

pub record Scan : Type 0 where
  pub lines : List Bytes
  pub error : Option ScanError

abbrev pub drop_cr : Bytes → Bytes
drop_cr [] = []
drop_cr (c ∷ []) = if c == b'\r' then [] else c ∷ []
drop_cr (c ∷ d ∷ s) = c ∷ drop_cr (d ∷ s)

abbrev pub scan_error : Option ReadError → Option ScanError
scan_error none = none
scan_error (some e) = some (read e)

abbrev pub add_line : Bytes → Scan → Scan
add_line line scan = record scan { lines = drop_cr line ∷ scan.lines }

abbrev pub last_line : Bytes → Option ReadError → Scan
last_line [] e = record { lines = []; error = scan_error e }
last_line (c ∷ s) e = record { lines = drop_cr (c ∷ s) ∷ []; error = scan_error e }

-- bufio.ScanLines over a buffer with `room` bytes left for the open line. A full buffer is an error,
-- unless its reader has ended too.
unfoldable pub scan_lines : ℕ → ℕ → Option ReadError → Bytes → Bytes → Scan
scan_lines size room e line [] = last_line line e
scan_lines size room e line (c ∷ s) =
    let next = scan_lines size size e [] s in
    let more = scan_lines size (room - 1) e (line ++ c ∷ []) s in
    if c == b'\n'
    then add_line line next
    else if leb room 1 && not (is_nil s && is_some e)
    then record { lines = []; error = some too_long }
    else more

-- The buffer has 64 KiB at first and grows to the limit on the body.
abbrev pub buffer_size : Limits → ℕ
buffer_size limits =
    if ltb 65_536 (limits.max_decompressed_bytes + 1)
    then limits.max_decompressed_bytes + 1
    else 65_536

pub data ParseError (E : Type 0) : Type 0 where
  invalid_limits : ParseError E
  data_after_eof : ParseError E
  invalid_sample : FailureClass → LineError → ParseError E
  sample_limit_exceeded : ParseError E
  handler_failed : E → ParseError E
  reading_failed : FailureClass → ParseError E
  not_terminated : ParseError E
  missing_eof : ParseError E

-- What Parse returns, with the state that its handler is left in.
pub record Parsed (S E : Type 0) : Type 0 where
  pub samples : ℕ
  pub saw_eof : Bool
  pub state : S
  pub error : Option (ParseError E)

abbrev pub sample_class : LineError → FailureClass
sample_class e = if is_limit_exceeded e then unsafe else malformed

abbrev pub read_class : ScanError → FailureClass
read_class too_long = malformed
read_class (read too_large) = unsafe
read_class (read interrupted) = malformed

-- tracked.readAny && tracked.last != '\n'
abbrev pub is_unterminated : Bytes → Bool
is_unterminated s = elim (last? s) [ none ↦ false | some c ↦ not (c == b'\n') ]

module _ {S E : Type 0} where
  abbrev pub fail : Parsed S E → ParseError E → Parsed S E
  fail p e = record p { error = some e }

  abbrev pub handled : Parsed S E → Result E S → Parsed S E
  handled p (ok state) = record p { state = state }
  handled p (err e) = fail p (handler_failed e)

  abbrev pub ended : Format → Bytes → Parsed S E → Option ScanError → Parsed S E
  ended format bytes p (some e) = fail p (reading_failed (read_class e))
  ended format bytes p none =
      if not (is_openmetrics format) && is_unterminated bytes
      then fail p not_terminated
      else if is_openmetrics format && not p.saw_eof
      then fail p missing_eof
      else p

module _ {F S E : Type 0} ⦃fl : Float64 F⦄ ⦃ft : FloatText F⦄ where
  abbrev pub accept_sample :
      (S → Sample F → Result E S) → Limits → Parsed S E → Result LineError (Sample F) → Parsed S E
  accept_sample handler limits p (err e) = fail p (invalid_sample (sample_class e) e)
  accept_sample handler limits p (ok sample) =
      let counted = record p { samples = p.samples + 1 } in
      if ltb limits.max_samples counted.samples
      then fail counted sample_limit_exceeded
      else handled counted (handler counted.state sample)

  -- A round of the loop.
  unfoldable pub parse_line :
      (S → Sample F → Result E S) → Format → Limits → Parsed S E → Bytes → Parsed S E
  parse_line handler format limits p text =
      let line = trim_space text in
      if is_nil line
      then p
      else if p.saw_eof
      then fail p data_after_eof
      else if bytes_eq line (ascii "# EOF")
      then record p { saw_eof = true }
      else if has_prefix line (ascii "#")
      then p
      else accept_sample handler limits p (parse_sample F line format limits)

  unfoldable pub parse_lines :
      (S → Sample F → Result E S) → Format → Limits → Parsed S E → List Bytes → Parsed S E
  parse_lines handler format limits p [] = p
  parse_lines handler format limits p (line ∷ lines) =
      let next = parse_line handler format limits p line in
      let rest = parse_lines handler format limits next lines in
      if is_some next.error then next else rest

  -- The handler is never nil here: one that returns its state unchanged is no handler.
  unfoldable pub parse : (S → Sample F → Result E S) → S → Body → Format → Limits → Parsed S E
  unfolding parse_lines scan_lines
  parse handler state body format limits =
      let initial : Parsed S E = record {
        samples = 0;
        saw_eof = false;
        state = state;
        error = none;
      } in
      let scan = scan_lines (buffer_size limits) (buffer_size limits) body.error [] body.bytes in
      let read_all = parse_lines handler format limits initial scan.lines in
      if not (validate_limits limits)
      then fail initial invalid_limits
      else if is_some read_all.error
      then read_all
      else ended format body.bytes read_all scan.error
