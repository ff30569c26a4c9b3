-- ===== src/Prometheus/Labels/RoundTrip.antt =====
-- A label set in the exposition format is read back (internal/prometheus/prometheus.go).
use statlite.Prometheus.Labels.Rendering.{
  escape, render_label, render_labels, read_quoted-escape, prepend, find_label_end-escape,
  find_label_end-name, split_at-name, valid_name-all_name_bytes, starts_solid-valid_name,
  ends_solid-valid_name, is_nil-valid_name,
}
use statlite.Result.{ok, ◌>>=◌}
use statlite.Bytes.{Bytes, bytes_eq, trim_space}
use statlite.Bytes.Trim.{
  is_nil-starts_solid, ends_solid-cons, ends_solid, trim_space-solid, ends_solid-append,
  starts_solid-append,
}
use statlite.Prometheus.{Limits, Label}
use statlite.Prometheus.Labels.{
  cons_text, quoted_value, find_label_end, parse_label, separator, after_label, parse_labels_from,
  parse_labels,
}
use statlite.Prometheus.Labels.Sound.{IsLabel}
use mathlib.Core.List.{append_assoc, append-nil}
use statlite.Prelude.{
  ℕ, zero, suc, ◌+◌, ◌≤◌, ◌<◌, ◌≡◌, refl, sym, ap, ◌∙◌, true, false, List, [], ◌∷◌, ◌++◌, arith,
  ltb, length, anyb, All, length-append,
}

parse_label-render_label :
    (limits : Limits) (seen : List Bytes) (l : Label) (rest : Bytes)
    → IsLabel limits l
    → anyb (bytes_eq l.name) seen ≡ false
    → ends_solid (b'"' ∷ rest) ≡ true
    → parse_label limits seen (render_label l rest) ≡ ok (l, rest)
unfolding parse_label quoted_value
parse_label-render_label limits seen l rest is fresh e =
    let quoted = b'"' ∷ (escape l.value ++ b'"' ∷ rest) in
    let bytes = valid_name-all_name_bytes l.name false is.name_valid in
    let name =
      trim_space-solid l.name (starts_solid-valid_name l.name false is.name_valid)
        (ends_solid-valid_name l.name is.name_valid) in
    let value =
      trim_space-solid quoted refl (ends_solid-append (b'"' ∷ escape l.value) (b'"' ∷ rest) e) in
    let fits : ltb limits.max_label_bytes (length l.name + length l.value) ≡ false =
      let h = is.size_within in ground arith in
    rw (split_at-name l.name quoted bytes, is_nil-valid_name l.name false is.name_valid)
      (rw (name, is.name_valid, fresh)
        (rw value (rw (read_quoted-escape l.value rest, is.value_valid, fits) refl)))

ends_solid-render_label :
    (l : Label) (rest : Bytes)
    → ends_solid (b'"' ∷ rest) ≡ true
    → ends_solid (render_label l rest) ≡ true
ends_solid-render_label l rest h =
    ends_solid-append l.name (b'=' ∷ b'"' ∷ (escape l.value ++ b'"' ∷ rest))
      (ends_solid-append (b'=' ∷ b'"' ∷ escape l.value) (b'"' ∷ rest) h)

ends_solid-render_labels :
    (l : Label) (ls : List Label) → ends_solid (render_labels (l ∷ ls)) ≡ true
ends_solid-render_labels l [] = ends_solid-render_label l [] refl
ends_solid-render_labels l (k ∷ ls) =
    ends_solid-render_label l (b',' ∷ render_labels (k ∷ ls))
      (ends_solid-cons b',' (render_labels (k ∷ ls)) (ends_solid-render_labels k ls))

-- No name stands among those before it.
abbrev pub AreFresh : List Bytes → List Label → Type 0
AreFresh seen [] = Unit
AreFresh seen (l ∷ ls) = (anyb (bytes_eq l.name) seen ≡ false) × AreFresh (l.name ∷ seen) ls

-- A round of the loop over a rendered label.
parse_labels_from-render_label :
    (fuel : ℕ) (limits : Limits) (labels : List Label) (seen : List Bytes) (l : Label)
    (rest : Bytes)
    → IsLabel limits l
    → anyb (bytes_eq l.name) seen ≡ false
    → ends_solid (b'"' ∷ rest) ≡ true
    → length labels + 1 ≤ limits.max_labels_per_sample
    → parse_labels_from (suc fuel) limits labels seen (render_label l rest) ≡ (
        separator (trim_space rest)
        >>= after_label
            (labels ++ l ∷ [])
            (parse_labels_from fuel limits (labels ++ l ∷ []) (l.name ∷ seen)))
unfolding parse_labels_from
parse_labels_from-render_label fuel limits labels seen l rest is fresh e count =
    let starts =
      starts_solid-append l.name (b'=' ∷ b'"' ∷ (escape l.value ++ b'"' ∷ rest))
        (starts_solid-valid_name l.name false is.name_valid) in
    let trimmed =
      trim_space-solid (render_label l rest) starts (ends_solid-render_label l rest e) in
    let fits : ltb limits.max_labels_per_sample (length (labels ++ l ∷ [])) ≡ false =
      ground (arith, length-append labels (l ∷ [])) in
    rw (trimmed, is_nil-starts_solid (render_label l rest) starts)
      (rw (parse_label-render_label limits seen l rest is fresh e) (rw fits refl))

length-render_label : (l : Label) (rest : Bytes) → length rest < length (render_label l rest)
length-render_label l rest = omega (
  arith,
  length-append l.name (b'=' ∷ b'"' ∷ (escape l.value ++ b'"' ∷ rest)),
  length-append (escape l.value) (b'"' ∷ rest),
)

parse_labels_from-render_labels :
    (fuel : ℕ) (limits : Limits) (labels : List Label) (seen : List Bytes) (ls : List Label)
    → All (IsLabel limits) ls
    → AreFresh seen ls
    → length labels + length ls ≤ limits.max_labels_per_sample
    → length (render_labels ls) < fuel
    → parse_labels_from fuel limits labels seen (render_labels ls) ≡ ok (labels ++ ls)
unfolding parse_labels_from trim_space
parse_labels_from-render_labels zero limits labels seen ls is fresh count f = absurd (omega arith)
parse_labels_from-render_labels (suc fuel) limits labels seen [] is fresh count f =
    ap ok (sym (append-nil labels))
parse_labels_from-render_labels (suc fuel) limits labels seen (l ∷ []) is fresh count f =
    parse_labels_from-render_label fuel limits labels seen l [] is.0 fresh.0 refl (omega arith)
parse_labels_from-render_labels (suc fuel) limits labels seen (l ∷ k ∷ ls) is fresh count f =
    let more = render_labels (k ∷ ls) in
    let ends = ends_solid-cons b',' more (ends_solid-render_labels k ls) in
    parse_labels_from-render_label fuel limits labels seen l (b',' ∷ more) is.0 fresh.0
      (ends_solid-cons b'"' (b',' ∷ more) ends) (omega arith)
    ∙ rw (trim_space-solid (b',' ∷ more) refl ends) (
        parse_labels_from-render_labels fuel limits (labels ++ l ∷ []) (l.name ∷ seen) (k ∷ ls) is.1
          fresh.1 (omega (arith, length-append labels (l ∷ [])))
          (omega (arith, length-render_label l (b',' ∷ more)))
        ∙ ap ok (append_assoc labels (l ∷ []) (k ∷ ls)))

pub parse_labels-render_labels :
    (limits : Limits) (ls : List Label)
    → All (IsLabel limits) ls
    → AreFresh [] ls
    → length ls ≤ limits.max_labels_per_sample
    → parse_labels (render_labels ls) limits ≡ ok ls
unfolding parse_labels
parse_labels-render_labels limits ls is fresh count =
    parse_labels_from-render_labels (length (render_labels ls) + 1) limits [] [] ls is fresh
      (omega arith) (omega arith)

find_label_end-render_label :
    (limits : Limits) (l : Label) (rest : Bytes)
    → IsLabel limits l
    → find_label_end false false (render_label l rest)
      ≡ prepend l.name (
          cons_text b'=' (
            cons_text b'"'
              (prepend (escape l.value) (cons_text b'"' (find_label_end false false rest)))))
unfolding find_label_end
find_label_end-render_label limits l rest is =
    find_label_end-name l.name (b'=' ∷ b'"' ∷ (escape l.value ++ b'"' ∷ rest))
      (valid_name-all_name_bytes l.name false is.name_valid)
    ∙ ap (λ r. prepend l.name (cons_text b'=' (cons_text b'"' r)))
        (find_label_end-escape l.value rest)

prepend-ok : (s t rest : Bytes) → prepend s (ok (t, rest)) ≡ ok (s ++ t, rest)
prepend-ok [] t rest = refl
prepend-ok (c ∷ s) t rest = ap (cons_text c) (prepend-ok s t rest)

-- The end of a rendered label set, behind a label.
find_label_end-step :
    (limits : Limits) (l : Label) (more rest after : Bytes)
    → IsLabel limits l
    → find_label_end false false rest ≡ ok (more, after)
    → find_label_end false false (render_label l rest) ≡ ok (render_label l more, after)
find_label_end-step limits l more rest after is h =
    find_label_end-render_label limits l rest is
    ∙ rw h (
        ap (λ r. prepend l.name (cons_text b'=' (cons_text b'"' r)))
          (prepend-ok (escape l.value) (b'"' ∷ more) after)
        ∙ prepend-ok l.name (b'=' ∷ b'"' ∷ (escape l.value ++ b'"' ∷ more)) after)

-- A label set followed by a text.
abbrev pub render_labels_onto : List Label → Bytes → Bytes
render_labels_onto [] rest = rest
render_labels_onto (l ∷ []) rest = render_label l rest
render_labels_onto (l ∷ k ∷ ls) rest = render_label l (b',' ∷ render_labels_onto (k ∷ ls) rest)

pub find_label_end-render_labels :
    (limits : Limits) (ls : List Label) (after : Bytes)
    → All (IsLabel limits) ls
    → find_label_end false false (render_labels_onto ls (b'}' ∷ after))
      ≡ ok (render_labels ls, after)
unfolding find_label_end
find_label_end-render_labels limits [] after is = refl
find_label_end-render_labels limits (l ∷ []) after is =
    find_label_end-step limits l [] (b'}' ∷ after) after is.0 refl
find_label_end-render_labels limits (l ∷ k ∷ ls) after is =
    find_label_end-step limits l (b',' ∷ render_labels (k ∷ ls))
      (b',' ∷ render_labels_onto (k ∷ ls) (b'}' ∷ after)) after is.0
      (ap (cons_text b',') (find_label_end-render_labels limits (k ∷ ls) after is.1))

pub ends_solid-render_labels_onto :
    (ls : List Label) (rest : Bytes)
    → ends_solid rest ≡ true
    → ends_solid (render_labels_onto ls rest) ≡ true
ends_solid-render_labels_onto [] rest h = h
ends_solid-render_labels_onto (l ∷ []) rest h =
    ends_solid-render_label l rest (ends_solid-cons b'"' rest h)
ends_solid-render_labels_onto (l ∷ k ∷ ls) rest h =
    let more = render_labels_onto (k ∷ ls) rest in
    let ends = ends_solid-cons b',' more (ends_solid-render_labels_onto (k ∷ ls) rest h) in
    ends_solid-render_label l (b',' ∷ more) (ends_solid-cons b'"' (b',' ∷ more) ends)
