-- ===== src/Prometheus/Labels/Rendering.antt =====
-- A label set in the exposition format, and what delimits its names and values
-- (internal/prometheus/prometheus.go).
use statlite.Result.{Result, ok}
use statlite.Bytes.{Bytes, is_nil, split_at}
use statlite.Bytes.Trim.{starts_solid, ends_solid}
use statlite.Prometheus.{Label, LineError, valid_name, all_name_bytes, is_name_byte}
use statlite.Prometheus.Labels.{cons_text, read_quoted, find_label_end}
use statlite.Prelude.{
  ℕ, ◌≡◌, refl, Bool, true, false, ◌||◌, some, List, [], ◌∷◌, ◌++◌, arith, ◌==◌, if◌then◌else◌,
}

-- The format's escapes in a label's value.
abbrev pub escape : Bytes → Bytes
escape [] = []
escape (c ∷ s) =
    let rest = escape s in
    if c == b'\\' || c == b'"'
    then b'\\' ∷ c ∷ rest
    else if c == b'\n'
    then b'\\' ∷ b'n' ∷ rest
    else c ∷ rest

-- name="value" in front of a text.
abbrev pub render_label : Label → Bytes → Bytes
render_label l rest = l.name ++ b'=' ∷ b'"' ∷ (escape l.value ++ b'"' ∷ rest)

abbrev pub render_labels : List Label → Bytes
render_labels [] = []
render_labels (l ∷ []) = render_label l []
render_labels (l ∷ k ∷ ls) = render_label l (b',' ∷ render_labels (k ∷ ls))

pub read_quoted-escape :
    (value rest : Bytes) → read_quoted false (escape value ++ b'"' ∷ rest) ≡ ok (value, rest)
unfolding read_quoted
read_quoted-escape [] rest = refl
read_quoted-escape (c ∷ s) rest = ground (arith, read_quoted-escape s rest)

abbrev pub prepend : Bytes → Result LineError (Bytes × Bytes) → Result LineError (Bytes × Bytes)
prepend [] r = r
prepend (c ∷ s) r = cons_text c (prepend s r)

pub find_label_end-escape :
    (value rest : Bytes)
    → find_label_end false true (escape value ++ b'"' ∷ rest)
      ≡ prepend (escape value) (cons_text b'"' (find_label_end false false rest))
unfolding find_label_end
find_label_end-escape [] rest = refl
find_label_end-escape (c ∷ s) rest = ground (arith, find_label_end-escape s rest)

pub find_label_end-name :
    (name rest : Bytes)
    → all_name_bytes false name ≡ true
    → find_label_end false false (name ++ rest) ≡ prepend name (find_label_end false false rest)
unfolding find_label_end all_name_bytes
find_label_end-name [] rest h = refl
find_label_end-name (c ∷ s) rest h = ground (arith, find_label_end-name s rest)

pub split_at-name :
    (name rest : Bytes)
    → all_name_bytes false name ≡ true
    → split_at (λ c. c == b'=') (name ++ b'=' ∷ rest) ≡ some (name, b'=' ∷ rest)
unfolding split_at all_name_bytes
split_at-name [] rest h = refl
split_at-name (c ∷ s) rest h = ground (arith, split_at-name s rest)

pub valid_name-all_name_bytes :
    (name : Bytes) (colon : Bool) → valid_name name colon ≡ true → all_name_bytes colon name ≡ true
unfolding valid_name all_name_bytes
valid_name-all_name_bytes [] colon h = refl
valid_name-all_name_bytes (c ∷ s) colon h = ground arith

pub starts_solid-valid_name :
    (name : Bytes) (colon : Bool) → valid_name name colon ≡ true → starts_solid name ≡ true
unfolding valid_name
starts_solid-valid_name [] colon h = cc
starts_solid-valid_name (c ∷ s) colon h = ground arith

ends_solid-all_name_bytes :
    (c : ℕ) (s : Bytes)
    → is_name_byte false c ≡ true
    → all_name_bytes false s ≡ true
    → ends_solid (c ∷ s) ≡ true
unfolding all_name_bytes
ends_solid-all_name_bytes c [] h k = ground arith
ends_solid-all_name_bytes c (d ∷ s) h k =
    ends_solid-all_name_bytes d s (ground arith) (ground arith)

pub ends_solid-valid_name : (name : Bytes) → valid_name name false ≡ true → ends_solid name ≡ true
unfolding valid_name
ends_solid-valid_name [] h = cc
ends_solid-valid_name (c ∷ s) h = ends_solid-all_name_bytes c s (ground arith) (ground arith)

pub is_nil-valid_name :
    (name : Bytes) (colon : Bool) → valid_name name colon ≡ true → is_nil name ≡ false
unfolding valid_name
is_nil-valid_name [] colon h = cc
is_nil-valid_name (c ∷ s) colon h = refl

-- A label is read off the front of a text that ends in a quote.
