-- ===== src/Prometheus/Labels/Sound.antt =====
-- What parsed labels promise (internal/prometheus/prometheus.go).
use mathlib.Core.Path.{subst}
use statlite.Result.{Result, ok, err, ◌>>=◌, ◌>>◌, refuse}
use statlite.Bytes.{is_nil, Bytes, bytes_eq, trim_space, split_at, valid_utf8}
use statlite.Bytes.Sizes.{length-trim_space-le, Splits, split_at-Splits}
use statlite.Prometheus.{Limits, Label, LineError, valid_label_name, out_of_fuel}
use statlite.Prometheus.Labels.{
  read_quoted, quoted_value, after_equals, unquote, parse_label, Separator, end, comma, separator,
  after_label, parse_labels_from, parse_labels,
}
use statlite.Prelude.{
  ℕ, zero, suc, ◌+◌, ◌≤◌, ◌<◌, ◌≡◌, refl, sym, inl, inr, Bool, true, false, not, Option, none, some,
  List, [], ◌∷◌, ◌++◌, arith, ltb, ◌==◌, Bool-cases, length, anyb, foldl, All, All-append,
  foldl-append,
}

abbrev pub is_out_of_fuel : LineError → Bool
is_out_of_fuel out_of_fuel = true
is_out_of_fuel _ = false

-- A result meets its postcondition, and no loop ran out of fuel.
abbrev pub Ensures : {A : Type 0} → (A → Type 0) → Result LineError A → Type 0
Ensures P (ok a) = P a
Ensures P (err e) = is_out_of_fuel e ≡ false

pub >>=-Ensures :
    {A B : Type 0} (P : A → Type 0) (Q : B → Type 0) (m : Result LineError A)
    (next : A → Result LineError B)
    → Ensures P m
    → ((a : A) → P a → Ensures Q (next a))
    → Ensures Q (m >>= next)
>>=-Ensures P Q (ok a) next h k = k a h
>>=-Ensures P Q (err e) next h k = h

pub >>-Ensures :
    {B : Type 0} (Q : B → Type 0) (bad : Bool) (e : LineError) (next : Result LineError B)
    → is_out_of_fuel e ≡ false
    → (bad ≡ false → Ensures Q next)
    → Ensures Q (refuse bad e >> next)
>>-Ensures Q true e next h k = h
>>-Ensures Q false e next h k = k refl

abbrev IsShorter : Bytes → Bytes × Bytes → Type 0
IsShorter s (text, rest) = length rest < length s

read_quoted-Ensures : (escaped : Bool) (s : Bytes) → Ensures (IsShorter s) (read_quoted escaped s)
unfolding read_quoted
read_quoted-Ensures true [] = refl
read_quoted-Ensures false [] = refl
read_quoted-Ensures true (c ∷ s) = ground (arith, read_quoted-Ensures false s)
read_quoted-Ensures false (c ∷ s) =
    ground (arith, read_quoted-Ensures false s, read_quoted-Ensures true s)

quoted_value-Ensures :
    (s : Bytes)
    → Ensures
        (λ (r : Bytes × Bytes). (valid_utf8 r.0 ≡ true) × (length r.1 < length s))
        (quoted_value s)
unfolding quoted_value
quoted_value-Ensures s =
    >>=-Ensures (IsShorter s) _ (read_quoted false s) _ (read_quoted-Ensures false s)
      (λ r h. >>-Ensures _ (not (valid_utf8 r.0)) _ _ refl (λ e. (ground arith, h)))

after_equals-Ensures :
    (s : Bytes) (o : Option (Bytes × Bytes)) → Splits s o → Ensures (IsShorter s) (after_equals o)
after_equals-Ensures s none h = refl
after_equals-Ensures s (some (name, [])) h = refl
after_equals-Ensures s (some (name, c ∷ t)) h = ground arith

unquote-Ensures :
    (s : Bytes)
    → Ensures (λ (r : Bytes × Bytes). (valid_utf8 r.0 ≡ true) × (length r.1 ≤ length s)) (unquote s)
unquote-Ensures [] = refl
unquote-Ensures (c ∷ s) = ground (arith, quoted_value-Ensures s)

-- A label that the limits and the names before it allow.
pub record IsLabel (limits : Limits) (l : Label) : Type 0 where
  pub name_valid : valid_label_name l.name ≡ true
  pub value_valid : valid_utf8 l.value ≡ true
  pub size_within : length l.name + length l.value ≤ limits.max_label_bytes

parse_label-Ensures :
    (limits : Limits) (seen : List Bytes) (s : Bytes)
    → Ensures
        (λ (r : Label × Bytes).
          IsLabel limits r.0 × (anyb (bytes_eq r.0.name) seen ≡ false) × (length r.1 < length s))
        (parse_label limits seen s)
unfolding parse_label
parse_label-Ensures limits seen s =
    >>=-Ensures (IsShorter s) _ (after_equals (split_at (λ c. c == 0x3d) s)) _
      (after_equals-Ensures s (split_at (λ c. c == 0x3d) s) (split_at-Splits (λ c. c == 0x3d) s))
      (λ t h. >>-Ensures _ (not (valid_label_name (trim_space t.0))) _ _ refl (λ valid.
        >>-Ensures _ (anyb (bytes_eq (trim_space t.0)) seen) _ _ refl (λ fresh.
          >>=-Ensures _ _ (unquote (trim_space t.1)) _ (unquote-Ensures (trim_space t.1)) (λ v k.
            >>-Ensures _ (ltb limits.max_label_bytes (length (trim_space t.0) + length v.0)) _ _
              refl
              (λ fits. (
                record { name_valid = ground arith; value_valid = k.0; size_within = ground arith },
                fresh,
                omega (arith, length-trim_space-le t.1),
              ))))))

abbrev LeavesLess : Bytes → Separator → Type 0
LeavesLess s end = Unit
LeavesLess s (comma u) = length u < length s

separator-Ensures : (s : Bytes) → Ensures (LeavesLess s) (separator s)
separator-Ensures [] = tt
separator-Ensures (c ∷ s) = ground arith

after_label-Ensures :
    (P : List Label → Type 0) (s : Bytes) (labels : List Label)
    (next : Bytes → Result LineError (List Label)) (t : Separator)
    → P labels
    → ((u : Bytes) → length u < length s → Ensures P (next u))
    → LeavesLess s t
    → Ensures P (after_label labels next t)
after_label-Ensures P s labels next end h k l = h
after_label-Ensures P s labels next (comma u) h k l = k u l

-- The names of labels, the last one first.
abbrev pub names_of : List Label → List Bytes
names_of labels = foldl (λ names (l : Label). l.name ∷ names) [] labels

abbrev pub AreDistinct : List Bytes → Type 0
AreDistinct [] = Unit
AreDistinct (name ∷ names) = (anyb (bytes_eq name) names ≡ false) × AreDistinct names

pub record IsLabelSet (limits : Limits) (labels : List Label) : Type 0 where
  pub all_labels : All (IsLabel limits) labels
  pub names_distinct : AreDistinct (names_of labels)
  pub count_within : length labels ≤ limits.max_labels_per_sample

-- The set with one more label.
IsLabelSet-append :
    (limits : Limits) (labels : List Label) (l : Label)
    → IsLabelSet limits labels
    → IsLabel limits l
    → anyb (bytes_eq l.name) (names_of labels) ≡ false
    → length (labels ++ l ∷ []) ≤ limits.max_labels_per_sample
    → IsLabelSet limits (labels ++ l ∷ [])
IsLabelSet-append limits labels l set one fresh count = record {
  all_labels = All-append (IsLabel limits) labels (l ∷ []) set.all_labels (one, tt);
  names_distinct =
      subst AreDistinct
        (sym (foldl-append (λ names (k : Label). k.name ∷ names) [] labels (l ∷ [])))
        (fresh, set.names_distinct);
  count_within = count;
}

parse_labels_from-Ensures :
    (fuel : ℕ) (limits : Limits) (labels : List Label) (s : Bytes)
    → length s < fuel
    → IsLabelSet limits labels
    → Ensures (IsLabelSet limits) (parse_labels_from fuel limits labels (names_of labels) s)
unfolding parse_labels_from
parse_labels_from-Ensures zero limits labels s f set = absurd (omega arith)
parse_labels_from-Ensures (suc fuel) limits labels s f set =
    elim (Bool-cases (is_nil (trim_space s))) [
      | inl e ↦ rw e set
      | inr e ↦ rw e (
          >>=-Ensures _ _ (parse_label limits (names_of labels) (trim_space s)) _
            (parse_label-Ensures limits (names_of labels) (trim_space s))
            (λ r h.
              >>-Ensures _ (ltb limits.max_labels_per_sample (length (labels ++ r.0 ∷ []))) _ _ refl
                (λ count.
                  let set' = IsLabelSet-append limits labels r.0 set h.0 h.1 (ground arith) in
                  let names =
                    foldl-append (λ names (k : Label). k.name ∷ names) [] labels (r.0 ∷ []) in
                  >>=-Ensures _ _ (separator (trim_space r.1)) _
                    (separator-Ensures (trim_space r.1))
                    (λ t.
                      after_label-Ensures _ (trim_space r.1) (labels ++ r.0 ∷ []) _ t set' (λ u k.
                        subst
                          (λ seen.
                            Ensures (IsLabelSet limits)
                              (parse_labels_from fuel limits (labels ++ r.0 ∷ []) seen u))
                          names
                          (parse_labels_from-Ensures fuel limits (labels ++ r.0 ∷ []) u
                            (omega (arith, length-trim_space-le s, length-trim_space-le r.1))
                            set'))))))
    ]

-- Parsing a label set ends: either with an error, or with labels whose names are valid and
-- distinct, whose values are valid UTF-8, each within the size limit and together within the limit
-- on their number.
pub parse_labels-IsLabelSet :
    (s : Bytes) (limits : Limits) → Ensures (IsLabelSet limits) (parse_labels s limits)
unfolding parse_labels
parse_labels-IsLabelSet s limits =
    parse_labels_from-Ensures (length s + 1) limits [] s (omega arith)
      (record { all_labels = tt; names_distinct = tt; count_within = omega arith })
