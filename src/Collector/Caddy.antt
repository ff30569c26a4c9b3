-- ===== src/Collector/Caddy.antt =====
-- internal/collector/caddy.go: the HTTP population of one exact host, and the collector's memory of the
-- last one. A Go map is an association list; strconv.Quote is an argument.
pub mod Collect
pub mod Continuity
pub mod Population
pub mod Remembered
use statlite.Result.{Result, ok, err, ◌>>=◌, ◌>>◌, refuse}
use statlite.Float.{Float64}
use statlite.Time.{Time}
use statlite.Collector.Model.{
  CollectionResult, counter, error, add_sample, add_event, finite_nonnegative,
}
use statlite.Bytes.{Bytes, ascii, bytes_eq, is_nil}
use statlite.Prometheus.{Limits, Format, Label, Sample}
use statlite.Prometheus.Samples.{FloatText, read_digits}
use statlite.Prometheus.Exposition.{Body, Parsed, parse}
use statlite.Prelude.{
  ℕ, ◌+◌, ◌<◌, Bool, true, false, not, ◌&&◌, ◌||◌, Option, none, some, List, [], ◌∷◌, ◌++◌, ltb,
  leb, ◌==◌, if◌then◌else◌, is_some, get_or_else, length,
}

abbrev pub caddy_max_tuples : ℕ
caddy_max_tuples = 256

abbrev pub caddy_max_count : ℕ
caddy_max_count = 9_007_199_254_740_991

pub record CaddyTuple (F : Type 0) : Type 0 where
  pub count : F
  pub sum : F
  pub has_count : Bool
  pub has_sum : Bool
  pub code : ℕ

pub record CaddyPopulation (F : Type 0) : Type 0 where
  pub host : Bytes
  pub server : Bytes
  pub tuples : List (Bytes × CaddyTuple F)

pub data CaddyError : Type 0 where
  missing_label : Bytes → CaddyError
  invalid_status_code : CaddyError
  ambiguous_server : CaddyError
  invalid_value : CaddyError
  too_many_tuples : CaddyError
  duplicate_count : CaddyError
  duplicate_duration : CaddyError
  unmatched_tuple : CaddyError
  count_overflow : CaddyError
  duration_overflow : CaddyError

-- labels[name], of which the last one counts.
unfoldable pub label_value : Bytes → List Label → Option Bytes
label_value name [] = none
label_value name (l ∷ ls) =
    let rest = label_value name ls in
    if is_some rest then rest else if bytes_eq l.name name then some l.value else none

abbrev pub is_other : Option Bytes → Bytes → Bool
is_other none value = false
is_other (some v) value = not (bytes_eq v value)

abbrev pub required_labels : List Bytes
required_labels =
    ascii "host" ∷ ascii "handler" ∷ ascii "server" ∷ ascii "method" ∷ ascii "code" ∷ []

-- labels[name] == ""
abbrev pub is_missing : List Label → Bytes → Bool
is_missing labels name = is_nil (get_or_else (label_value name labels) [])

unfoldable pub first_missing : List Label → List Bytes → Option Bytes
first_missing labels [] = none
first_missing labels (name ∷ names) =
    let rest = first_missing labels names in if is_missing labels name then some name else rest

abbrev pub refuse_missing : Option Bytes → Result CaddyError (Unit {0})
refuse_missing none = ok tt
refuse_missing (some name) = err (missing_label name)

abbrev pub in_status_range : Option ℕ → Result CaddyError ℕ
in_status_range none = err invalid_status_code
in_status_range (some code) =
    if ltb code 100 || ltb 599 code then err invalid_status_code else ok code

-- Three characters from 100 to 599; one with a sign is below 100 as strconv.Atoi reads it.
unfoldable pub status_code : Bytes → Result CaddyError ℕ
unfolding read_digits
status_code text =
    if not (length text == 3) then err invalid_status_code else in_status_range (read_digits 0 text)

-- strings.Compare(a, b) < 0
unfoldable pub bytes_lt : Bytes → Bytes → Bool
bytes_lt [] [] = false
bytes_lt [] (_ ∷ _) = true
bytes_lt (_ ∷ _) [] = false
bytes_lt (a ∷ s) (b ∷ t) = ltb a b || ((a == b) && bytes_lt s t)

unfoldable pub insert_label : Label → List Label → List Label
unfolding bytes_lt
insert_label l [] = l ∷ []
insert_label l (k ∷ ks) = if bytes_lt k.name l.name then k ∷ insert_label l ks else l ∷ k ∷ ks

unfoldable pub sort_labels : List Label → List Label
unfolding insert_label
sort_labels [] = []
sort_labels (l ∷ ls) = insert_label l (sort_labels ls)

unfoldable pub quote_labels : (Bytes → Bytes) → List Label → Bytes
quote_labels quote [] = []
quote_labels quote (l ∷ ls) = quote l.name ++ (quote l.value ++ quote_labels quote ls)

module _ {A : Type 0} where
  unfoldable pub find_tuple : Bytes → List (Bytes × A) → Option A
  find_tuple key [] = none
  find_tuple key ((k, t) ∷ ts) =
      let rest = find_tuple key ts in if bytes_eq k key then some t else rest

  unfoldable pub set_tuple : Bytes → A → List (Bytes × A) → List (Bytes × A)
  set_tuple key t [] = (key, t) ∷ []
  set_tuple key t ((k, u) ∷ ts) =
      let rest = set_tuple key t ts in if bytes_eq k key then (key, t) ∷ ts else (k, u) ∷ rest

  unfoldable pub insert_tuple : Bytes → A → List (Bytes × A) → List (Bytes × A)
  unfolding bytes_lt
  insert_tuple key t [] = (key, t) ∷ []
  insert_tuple key t ((k, u) ∷ ts) =
      let rest = insert_tuple key t ts in
      if bytes_lt k key then (k, u) ∷ rest else (key, t) ∷ (k, u) ∷ ts

  -- slices.Sort(keys), with each key's tuple.
  unfoldable pub sort_tuples : List (Bytes × A) → List (Bytes × A)
  unfolding insert_tuple
  sort_tuples [] = []
  sort_tuples ((k, t) ∷ ts) = insert_tuple k t (sort_tuples ts)

pub record CaddyTotals (F : Type 0) : Type 0 where
  pub requests : F
  pub not_found : F
  pub client_errors : F
  pub server_errors : F
  pub duration : F

abbrev pub is_ambiguous : Bytes → Bytes → Bool
is_ambiguous server other = not (is_nil server) && not (bytes_eq server other)

module _ {F : Type 0} ⦃fl : Float64 F⦄ where
  abbrev pub no_tuple : CaddyTuple F
  no_tuple = record {
    count = fl.zero_f;
    sum = fl.zero_f;
    has_count = false;
    has_sum = false;
    code = 0;
  }

  abbrev pub is_count_value : F → Bool
  is_count_value value =
      fl.feq (fl.trunc value) value && not (fl.flt (fl.of_nat caddy_max_count) value)

  -- The tuple with a sample's value.
  unfoldable pub fill_tuple : Bool → ℕ → F → CaddyTuple F → Result CaddyError (CaddyTuple F)
  fill_tuple true code value t = do
    refuse t.has_count duplicate_count
    ok (record t { code = code; count = value; has_count = true })
  fill_tuple false code value t = do
    refuse t.has_sum duplicate_duration
    ok (record t { code = code; sum = value; has_sum = true })

  -- A sample of the population: the checks after the labels are known to be its own.
  unfoldable pub accept_tuple :
      (Bytes → Bytes) → Bool → CaddyPopulation F → Sample F → Result CaddyError (CaddyPopulation F)
  unfolding fill_tuple
  accept_tuple quote is_count p sample = do
    refuse_missing (first_missing sample.labels required_labels)
    code ← status_code (get_or_else (label_value (ascii "code") sample.labels) [])
    let server = get_or_else (label_value (ascii "server") sample.labels) []
    refuse (is_ambiguous p.server server) ambiguous_server
    refuse
        (not (finite_nonnegative sample.value) || (is_count && not (is_count_value sample.value)))
        invalid_value
    let identity = quote_labels quote (sort_labels sample.labels)
    let known = find_tuple identity p.tuples
    refuse (not (is_some known) && leb caddy_max_tuples (length p.tuples)) too_many_tuples
    tuple ← fill_tuple is_count code sample.value (get_or_else known no_tuple)
    ok (record p { server = server; tuples = set_tuple identity tuple p.tuples })

  unfoldable pub accept :
      (Bytes → Bytes) → CaddyPopulation F → Sample F → Result CaddyError (CaddyPopulation F)
  accept quote p sample =
      let is_count = bytes_eq sample.name (ascii "caddy_http_request_duration_seconds_count") in
      if not is_count
        && not (bytes_eq sample.name (ascii "caddy_http_request_duration_seconds_sum"))
      then ok p
      else if is_other (label_value (ascii "host") sample.labels) p.host
      then ok p
      else if is_other (label_value (ascii "handler") sample.labels) (ascii "subroute")
      then ok p
      else accept_tuple quote is_count p sample

  abbrev pub add_if : Bool → F → F → F
  add_if b total value = if b then fl.add total value else total

  -- A round of the loop over the sorted tuples.
  unfoldable pub add_tuple : CaddyTotals F → CaddyTuple F → Result CaddyError (CaddyTotals F)
  add_tuple totals t = do
    refuse (not t.has_count || not t.has_sum) unmatched_tuple
    refuse (fl.flt (fl.sub (fl.of_nat caddy_max_count) totals.requests) t.count) count_overflow
    let totals' : CaddyTotals F = record {
      requests = fl.add totals.requests t.count;
      not_found = add_if (t.code == 404) totals.not_found t.count;
      client_errors = add_if (leb 400 t.code && leb t.code 499) totals.client_errors t.count;
      server_errors = add_if (leb 500 t.code) totals.server_errors t.count;
      duration = fl.add totals.duration t.sum;
    }
    refuse (not (finite_nonnegative totals'.duration)) duration_overflow
    ok totals'

  unfoldable pub add_tuples :
      CaddyTotals F → List (Bytes × CaddyTuple F) → Result CaddyError (CaddyTotals F)
  unfolding add_tuple
  add_tuples totals [] = ok totals
  add_tuples totals ((_, t) ∷ ts) = add_tuple totals t >>= λ totals'. add_tuples totals' ts

  abbrev pub no_totals : CaddyTotals F
  no_totals = record {
    requests = fl.zero_f;
    not_found = fl.zero_f;
    client_errors = fl.zero_f;
    server_errors = fl.zero_f;
    duration = fl.zero_f;
  }

  unfoldable pub totals : CaddyPopulation F → Result CaddyError (CaddyTotals F)
  totals p = add_tuples no_totals (sort_tuples p.tuples)
