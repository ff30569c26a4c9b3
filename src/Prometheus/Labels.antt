-- ===== src/Prometheus/Labels.antt =====
-- internal/prometheus/prometheus.go: quotedValue, findLabelEnd and parseLabels. An index into a text
-- is the text on its two sides.
pub mod Sound
pub mod Rendering
pub mod RoundTrip
use statlite.Result.{Result, ok, err, ◌>>=◌, ◌>>◌, refuse, or_err}
use statlite.Bytes.{Bytes, bytes_eq, trim_space, is_nil, split_at, valid_utf8}
use statlite.Prometheus.{
  Limits, Label, LineError, valid_label_name, unterminated_label_set, invalid_label,
  invalid_label_name, duplicate_label_name, label_value_not_quoted, unterminated_label_escape,
  invalid_label_escape, invalid_escaped_label_value, unterminated_label_value, label_size_exceeded,
  too_many_labels, labels_not_separated, out_of_fuel,
}
use statlite.Prelude.{
  ℕ, zero, suc, ◌+◌, Bool, true, false, not, ◌&&◌, ◌||◌, Option, none, some, List, [], ◌∷◌, ◌++◌,
  ltb, ◌==◌, if◌then◌else◌, length, anyb,
}

-- One more byte in front of the text that was read.
abbrev pub cons_text : ℕ → Result LineError (Bytes × Bytes) → Result LineError (Bytes × Bytes)
cons_text c (ok (text, rest)) = ok (c ∷ text, rest)
cons_text c (err e) = err e

abbrev pub unterminated : Bool → LineError
unterminated true = unterminated_label_escape
unterminated false = unterminated_label_value

-- The loop of quotedValue: the value up to the closing quote, and the text after it. The flag is
-- set behind a backslash.
unfoldable pub read_quoted : Bool → Bytes → Result LineError (Bytes × Bytes)
read_quoted escaped [] = err (unterminated escaped)
read_quoted true (c ∷ s) =
    let rest = read_quoted false s in
    if c == b'\\' || c == b'"'
    then cons_text c rest
    else if c == b'n'
    then cons_text b'\n' rest
    else err invalid_label_escape
read_quoted false (c ∷ s) =
    let escape = read_quoted true s in
    let rest = read_quoted false s in
    if c == b'\\' then escape else if c == b'"' then ok ([], s) else cons_text c rest

-- On a text without its opening quote.
unfoldable pub quoted_value : Bytes → Result LineError (Bytes × Bytes)
unfolding read_quoted
quoted_value s = do
  (value, rest) ← read_quoted false s
  refuse (not (valid_utf8 value)) invalid_escaped_label_value
  ok (value, rest)

-- The text of a label set up to its closing brace, and the text after it; on a text without its
-- opening brace.
unfoldable pub find_label_end : Bool → Bool → Bytes → Result LineError (Bytes × Bytes)
find_label_end escaped quoted [] = err unterminated_label_set
find_label_end escaped quoted (c ∷ s) =
    let escape = not escaped && (c == b'\\') && quoted in
    let rest =
      find_label_end escape (if not escaped && (c == b'"') then not quoted else quoted) s in
    if not escaped && (c == b'}') && not quoted then ok ([], s) else cons_text c rest

abbrev pub unquote : Bytes → Result LineError (Bytes × Bytes)
unquote [] = err label_value_not_quoted
unquote (c ∷ s) = if c == b'"' then quoted_value s else err label_value_not_quoted

abbrev pub after_equals : Option (Bytes × Bytes) → Result LineError (Bytes × Bytes)
after_equals none = err invalid_label
after_equals (some (name, [])) = err invalid_label
after_equals (some (name, _ ∷ s)) = if is_nil name then err invalid_label else ok (name, s)

-- One round of parseLabels: a label, and the text after its value.
unfoldable pub parse_label : Limits → List Bytes → Bytes → Result LineError (Label × Bytes)
parse_label limits seen s = do
  (raw_name, value_text) ← after_equals (split_at (λ c. c == b'=') s)
  let name = trim_space raw_name
  refuse (not (valid_label_name name)) (invalid_label_name name)
  refuse (anyb (bytes_eq name) seen) (duplicate_label_name name)
  (value, rest) ← unquote (trim_space value_text)
  refuse (ltb limits.max_label_bytes (length name + length value)) label_size_exceeded
  ok (record { name = name; value = value }, rest)

-- The text after a label: the end, or a comma and what follows it.
pub data Separator : Type 0 where
  end : Separator
  comma : Bytes → Separator

abbrev pub separator : Bytes → Result LineError Separator
separator [] = ok end
separator (c ∷ s) = if c == b',' then ok (comma s) else err labels_not_separated

abbrev pub after_label :
    List Label → (Bytes → Result LineError (List Label)) → Separator → Result LineError (List Label)
after_label labels next end = ok labels
after_label labels next (comma s) = next s

-- The loop, on fuel, over the labels and the names seen so far.
unfoldable pub parse_labels_from :
    ℕ → Limits → List Label → List Bytes → Bytes → Result LineError (List Label)
parse_labels_from zero limits labels seen s = err out_of_fuel
parse_labels_from (suc fuel) limits labels seen s =
    let more = do
      (label, rest) ← parse_label limits seen (trim_space s)
      let labels' = labels ++ label ∷ []
      refuse (ltb limits.max_labels_per_sample (length labels')) too_many_labels
      next ← separator (trim_space rest)
      after_label labels' (parse_labels_from fuel limits labels' (label.name ∷ seen)) next
    in if is_nil (trim_space s) then ok labels else more

-- A round takes at least a label's quotes and its comma off the text.
unfoldable pub parse_labels : Bytes → Limits → Result LineError (List Label)
unfolding parse_labels_from
parse_labels s limits = parse_labels_from (length s + 1) limits [] [] s
