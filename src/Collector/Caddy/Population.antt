-- ===== src/Collector/Caddy/Population.antt =====
-- What the population of a Caddy host is (internal/collector/caddy.go).
use mathlib.Core.Path.{subst}
use statlite.Result.{ok, refuse, >>=-eq-ok, refuse-eq-ok, Result-cases, ok_injective}
use statlite.Float.{Float64}
use statlite.Collector.Model.{finite_nonnegative}
use statlite.Bytes.{ascii, Bytes, bytes_eq}
use statlite.Prometheus.{Sample}
use statlite.Prometheus.Samples.{read_digits}
use statlite.Prometheus.Exposition.Invariant.{IsKeptBy}
use statlite.Collector.Caddy.{
  bytes_lt, CaddyTuple, CaddyPopulation, CaddyTotals, caddy_max_tuples, in_status_range,
  status_code, find_tuple, set_tuple, insert_tuple, sort_tuples, no_tuple, is_count_value,
  fill_tuple, accept_tuple, accept, add_tuple, add_tuples, quote_labels, sort_labels, is_other,
  label_value, first_missing, required_labels, refuse_missing, is_ambiguous, duplicate_count,
  duplicate_duration, ambiguous_server, invalid_value, too_many_tuples, unmatched_tuple,
}
use statlite.Prelude.{
  ℕ, ◌+◌, ◌≤◌, ◌≡◌, inl, inr, Bool, true, false, not, ◌&&◌, ◌||◌, Option, none, some, List, [], ◌∷◌,
  arith, leb, ◌==◌, if◌then◌else◌, Bool-cases, Option-cases, is_some, get_or_else, length, All,
  some_injective,
}

in_status_range-bounds :
    (o : Option ℕ) (code : ℕ) → in_status_range o ≡ ok code → (100 ≤ code) × (code ≤ 599)
in_status_range-bounds none code h = cc
in_status_range-bounds (some c) code h = ground arith

status_code-bounds :
    (text : Bytes) (code : ℕ) → status_code text ≡ ok code → (100 ≤ code) × (code ≤ 599)
unfolding status_code
status_code-bounds text code h = elim (Bool-cases (length text == 3)) [
  | inl e ↦ in_status_range-bounds (read_digits 0 text) code (rw e at h)
  | inr e ↦ cc (rw e at h)
]

module _ {F : Type 0} ⦃fl : Float64 F⦄ where
  -- A tuple's status and values, those that it has.
  pub record IsTuple (t : CaddyTuple F) : Type 0 where
    pub code_low : 100 ≤ t.code
    pub code_high : t.code ≤ 599
    pub count_exact : t.has_count ≡ true → is_count_value t.count ≡ true
    pub count_finite : t.has_count ≡ true → finite_nonnegative t.count ≡ true
    pub sum_finite : t.has_sum ≡ true → finite_nonnegative t.sum ≡ true

  pub record IsPopulation (p : CaddyPopulation F) : Type 0 where
    pub size_within : length p.tuples ≤ caddy_max_tuples
    pub all_tuples : All (λ (e : Bytes × CaddyTuple F). IsTuple e.1) p.tuples

  length-set_tuple :
      (key : Bytes) (t : CaddyTuple F) (ts : List (Bytes × CaddyTuple F))
      → length (set_tuple key t ts)
        ≡ (if is_some (find_tuple key ts) then length ts else length ts + 1)
  unfolding set_tuple find_tuple
  length-set_tuple key t [] = omega arith
  length-set_tuple key t ((k, u) ∷ ts) = ground (arith, length-set_tuple key t ts)

  length-set_tuple-le :
      (limit : ℕ) (key : Bytes) (t : CaddyTuple F) (ts : List (Bytes × CaddyTuple F))
      → (not (is_some (find_tuple key ts)) && leb limit (length ts)) ≡ false
      → length ts ≤ limit
      → length (set_tuple key t ts) ≤ limit
  length-set_tuple-le limit key t ts h k = ground (arith, length-set_tuple key t ts)

  All-set_tuple :
      (P : CaddyTuple F → Type 0) (key : Bytes) (t : CaddyTuple F)
      (ts : List (Bytes × CaddyTuple F))
      → P t
      → All (λ (e : Bytes × CaddyTuple F). P e.1) ts
      → All (λ (e : Bytes × CaddyTuple F). P e.1) (set_tuple key t ts)
  unfolding set_tuple
  All-set_tuple P key t [] h k = (h, tt)
  All-set_tuple P key t ((j, u) ∷ ts) h k = elim (Bool-cases (bytes_eq j key)) [
    | inl e ↦ rw e (h, k.1)
    | inr e ↦ rw e (k.0, All-set_tuple P key t ts h k.1)
  ]

  All-find_tuple :
      (P : CaddyTuple F → Type 0) (key : Bytes) (ts : List (Bytes × CaddyTuple F))
      (t : CaddyTuple F)
      → All (λ (e : Bytes × CaddyTuple F). P e.1) ts
      → find_tuple key ts ≡ some t
      → P t
  unfolding find_tuple
  All-find_tuple P key [] t h e = cc
  All-find_tuple P key ((k, u) ∷ ts) t h e = elim (Bool-cases (bytes_eq k key)) [
    | inl f ↦ subst P (some_injective (rw f at e)) h.0
    | inr f ↦ All-find_tuple P key ts t h.1 (rw f at e)
  ]

  -- The values of a tuple that has no code yet.
  record HasValues (t : CaddyTuple F) : Type 0 where
    count_exact : t.has_count ≡ true → is_count_value t.count ≡ true
    count_finite : t.has_count ≡ true → finite_nonnegative t.count ≡ true
    sum_finite : t.has_sum ≡ true → finite_nonnegative t.sum ≡ true

  fill_tuple-IsTuple :
      (is_count : Bool) (code : ℕ) (value : F) (t u : CaddyTuple F)
      → (100 ≤ code) × (code ≤ 599)
      → finite_nonnegative value ≡ true
      → (is_count && not (is_count_value value)) ≡ false
      → HasValues t
      → fill_tuple is_count code value t ≡ ok u
      → IsTuple u
  unfolding fill_tuple
  fill_tuple-IsTuple true code value t u c f k h e =
      let (done, fresh, e') = >>=-eq-ok (refuse t.has_count duplicate_count) _ e in
      subst IsTuple (ok_injective e') (record {
        code_low = c.0;
        code_high = c.1;
        count_exact = λ _. ground arith;
        count_finite = λ _. f;
        sum_finite = h.sum_finite;
      })
  fill_tuple-IsTuple false code value t u c f k h e =
      let (done, fresh, e') = >>=-eq-ok (refuse t.has_sum duplicate_duration) _ e in
      subst IsTuple (ok_injective e') (record {
        code_low = c.0;
        code_high = c.1;
        count_exact = h.count_exact;
        count_finite = h.count_finite;
        sum_finite = λ _. f;
      })

  -- The tuple that a sample goes to has values of its own, or none.
  known-HasValues :
      (key : Bytes) (ts : List (Bytes × CaddyTuple F))
      → All (λ (e : Bytes × CaddyTuple F). IsTuple e.1) ts
      → HasValues (get_or_else (find_tuple key ts) no_tuple)
  known-HasValues key ts h = elim (Option-cases (find_tuple key ts)) [
    | inl e ↦
        rw e (record { count_exact = λ k. cc k; count_finite = λ k. cc k; sum_finite = λ k. cc k })
    | inr (t, e) ↦
        let is = All-find_tuple IsTuple key ts t h e in
        rw e (record {
          count_exact = is.count_exact;
          count_finite = is.count_finite;
          sum_finite = is.sum_finite;
        })
  ]

  accept_tuple-IsPopulation :
      (quote : Bytes → Bytes) (is_count : Bool) (p q : CaddyPopulation F) (sample : Sample F)
      → IsPopulation p
      → accept_tuple quote is_count p sample ≡ ok q
      → IsPopulation q
  unfolding accept_tuple
  accept_tuple-IsPopulation quote is_count p q sample is e =
      let (_, _, e1) =
        >>=-eq-ok (refuse_missing (first_missing sample.labels required_labels)) _ e in
      let (code, c, e2) =
        >>=-eq-ok (status_code (get_or_else (label_value (ascii "code") sample.labels) [])) _ e1 in
      let server = get_or_else (label_value (ascii "server") sample.labels) [] in
      let (_, _, e3) = >>=-eq-ok (refuse (is_ambiguous p.server server) ambiguous_server) _ e2 in
      let bad =
        not (finite_nonnegative sample.value) || (is_count && not (is_count_value sample.value)) in
      let (_, v, e4) = >>=-eq-ok (refuse bad invalid_value) _ e3 in
      let key = quote_labels quote (sort_labels sample.labels) in
      let known = find_tuple key p.tuples in
      let full = not (is_some known) && leb caddy_max_tuples (length p.tuples) in
      let (_, room, e5) = >>=-eq-ok (refuse full too_many_tuples) _ e4 in
      let (u, filled, e6) =
        >>=-eq-ok (fill_tuple is_count code sample.value (get_or_else known no_tuple)) _ e5 in
      let v' = refuse-eq-ok bad invalid_value v in
      let r' = refuse-eq-ok full too_many_tuples room in
      let tuple =
        fill_tuple-IsTuple is_count code sample.value (get_or_else known no_tuple) u
          (status_code-bounds _ code c) (ground arith) (ground arith)
          (known-HasValues key p.tuples is.all_tuples) filled in
      subst IsPopulation (ok_injective e6) (record {
        size_within = length-set_tuple-le caddy_max_tuples key u p.tuples r' is.size_within;
        all_tuples = All-set_tuple IsTuple key u p.tuples tuple is.all_tuples;
      })

  accept_tuple-keeps :
      (quote : Bytes → Bytes) (is_count : Bool) (p : CaddyPopulation F) (sample : Sample F)
      → IsPopulation p
      → IsKeptBy IsPopulation (accept_tuple quote is_count p sample)
  accept_tuple-keeps quote is_count p sample is =
      elim (Result-cases (accept_tuple quote is_count p sample)) [
        | inl (q, e) ↦ rw e (accept_tuple-IsPopulation quote is_count p q sample is e)
        | inr (f, e) ↦ rw e tt
      ]

  -- A sample of another population changes nothing.
  pub accept-keeps :
      (quote : Bytes → Bytes) (p : CaddyPopulation F) (sample : Sample F)
      → IsPopulation p
      → IsKeptBy IsPopulation (accept quote p sample)
  unfolding accept
  accept-keeps quote p sample is =
      let is_count = bytes_eq sample.name (ascii "caddy_http_request_duration_seconds_count") in
      let is_sum = bytes_eq sample.name (ascii "caddy_http_request_duration_seconds_sum") in
      elim (Bool-cases (not is_count && not is_sum)) [
        | inl e ↦ simp e is
        | inr e ↦ elim (Bool-cases (is_other (label_value (ascii "host") sample.labels) p.host)) [
          | inl f ↦ simp (e, f) is
          | inr f ↦
              elim (Bool-cases
                (is_other (label_value (ascii "handler") sample.labels) (ascii "subroute"))) [
                  | inl g ↦ simp (e, f, g) is
                  | inr g ↦ simp (e, f, g) (accept_tuple-keeps quote is_count p sample is)
                ]
        ]
      ]

  -- A tuple whose count and sum were both seen.
  abbrev pub IsMatched : CaddyTuple F → Type 0
  IsMatched t = (t.has_count ≡ true) × (t.has_sum ≡ true)

  pub add_tuples-IsMatched :
      (ts : List (Bytes × CaddyTuple F)) (start end : CaddyTotals F)
      → add_tuples start ts ≡ ok end
      → All (λ (e : Bytes × CaddyTuple F). IsMatched e.1) ts
  unfolding add_tuples add_tuple
  add_tuples-IsMatched [] start end h = tt
  add_tuples-IsMatched ((k, t) ∷ ts) start end h =
      let (next, one, rest) = >>=-eq-ok (add_tuple start t) (λ n. add_tuples n ts) h in
      let (_, both, _) =
        >>=-eq-ok (refuse (not t.has_count || not t.has_sum) unmatched_tuple) _ one in
      let e = refuse-eq-ok (not t.has_count || not t.has_sum) unmatched_tuple both in
      ((ground arith, ground arith), add_tuples-IsMatched ts next end rest)

  All-insert_tuple :
      (P : CaddyTuple F → Type 0) (k : Bytes) (t : CaddyTuple F) (ts : List (Bytes × CaddyTuple F))
      → All (λ (e : Bytes × CaddyTuple F). P e.1) (insert_tuple k t ts)
      → P t × All (λ (e : Bytes × CaddyTuple F). P e.1) ts
  unfolding insert_tuple
  All-insert_tuple P k t [] h = h
  All-insert_tuple P k t ((j, u) ∷ ts) h = elim (Bool-cases (bytes_lt j k)) [
    | inl e ↦
        let (one, rest) = rw e at h in
        let (new, others) = All-insert_tuple P k t ts rest in (new, (one, others))
    | inr e ↦ rw e at h
  ]

  pub All-sort_tuples :
      (P : CaddyTuple F → Type 0) (ts : List (Bytes × CaddyTuple F))
      → All (λ (e : Bytes × CaddyTuple F). P e.1) (sort_tuples ts)
      → All (λ (e : Bytes × CaddyTuple F). P e.1) ts
  unfolding sort_tuples
  All-sort_tuples P [] h = tt
  All-sort_tuples P ((k, t) ∷ ts) h =
      let (one, rest) = All-insert_tuple P k t (sort_tuples ts) h in
      (one, All-sort_tuples P ts rest)
