-- ===== src/Storage/PublicMetrics/Errors.antt =====
-- When a minute reports errors, a rate and a latency weight (internal/storage/public_metrics.go).
use statlite.Float.{Float64}
use statlite.Time.{Time}
use statlite.Storage.Types.{SeriesPoint}
use statlite.Storage.Downsample.{BucketAccumulator, add_point, new_bucket_accumulator}
use statlite.Storage.Downsample.Totals.{
  cons_some, present, request_total, weights, latency-foldl_add,
}
use statlite.Storage.PublicMetrics.{
  Slot, paired_value, paired_4, paired_5, new_slot, add_to_slot, add_value, public_point,
  complete_errors, error_rate,
}
use statlite.Storage.PublicMetrics.Slots.{minute_summary}
use statlite.Prelude.{
  ℕ, ◌+◌, ◌≤◌, ◌≡◌, refl, ap, ◌∙◌, Bool, true, not, ◌&&◌, ◌||◌, Option, none, some, List, [], ◌∷◌,
  arith, ltb, ◌==◌, if◌then◌else◌, is_some, length, anyb, foldl, allb,
}

module _ {F : Type 0} where
  abbrev requests_of : SeriesPoint F → Option F
  requests_of p = p.requests

  -- Every request interval has an error count over the same interval, and there is one.
  abbrev pub is_complete : (SeriesPoint F → Option F) → List (SeriesPoint F) → Bool
  is_complete paired g =
      anyb (λ p. is_some (requests_of p)) g
      && allb (λ p. not (is_some (requests_of p)) || is_some (paired p)) g

  abbrev IsPaired : (SeriesPoint F → Option F) → Type 0
  IsPaired paired = (p : SeriesPoint F) → is_some (paired p) ≡ true → is_some (requests_of p) ≡ true

  length-cons_some :
      (o : Option F) (vs : List F)
      → length (cons_some o vs) ≡ (if is_some o then 1 else 0) + length vs
  length-cons_some none vs = omega arith
  length-cons_some (some v) vs = omega arith

  paired-le-requests :
      (paired : SeriesPoint F → Option F) (g : List (SeriesPoint F))
      → IsPaired paired
      → length (present paired g) ≤ length (present requests_of g)
  paired-le-requests paired [] h = omega arith
  paired-le-requests paired (p ∷ ps) h = ground (
    arith,
    h p,
    length-cons_some (paired p) (present paired ps),
    length-cons_some p.requests (present requests_of ps),
    paired-le-requests paired ps h,
  )

  paired_all :
      (paired : SeriesPoint F → Option F) (g : List (SeriesPoint F))
      → IsPaired paired
      → (length (present paired g) == length (present requests_of g))
        ≡ allb (λ p. not (is_some (requests_of p)) || is_some (paired p)) g
  paired_all paired [] h = refl
  paired_all paired (p ∷ ps) h = ground (
    arith,
    h p,
    length-cons_some (paired p) (present paired ps),
    length-cons_some p.requests (present requests_of ps),
    paired-le-requests paired ps h,
    paired_all paired ps h,
  )

  any_request :
      (g : List (SeriesPoint F))
      → ltb 0 (length (present requests_of g)) ≡ anyb (λ p. is_some (requests_of p)) g
  any_request [] = refl
  any_request (p ∷ ps) =
      ground (arith, length-cons_some p.requests (present requests_of ps), any_request ps)

  paired_4-IsPaired : IsPaired paired_4
  unfolding paired_value
  paired_4-IsPaired p h = ground arith

  paired_5-IsPaired : IsPaired paired_5
  unfolding paired_value
  paired_5-IsPaired p h = ground arith

module _ {F : Type 0} ⦃fl : Float64 F⦄ where
  foldl-cons_some :
      (acc : F) (o : Option F) (vs : List F)
      → foldl fl.add (add_value acc o) vs ≡ foldl fl.add acc (cons_some o vs)
  foldl-cons_some acc none vs = refl
  foldl-cons_some acc (some v) vs = refl

  slot-foldl_add :
      (s : Slot F) (g : List (SeriesPoint F))
      → let t = foldl add_to_slot s g in
        (t.request_intervals ≡ s.request_intervals + length (present requests_of g))
        × (t.paired_4xx ≡ s.paired_4xx + length (present paired_4 g))
        × (t.paired_5xx ≡ s.paired_5xx + length (present paired_5 g))
        × (t.sum_4xx ≡ foldl fl.add s.sum_4xx (present paired_4 g))
        × (t.sum_5xx ≡ foldl fl.add s.sum_5xx (present paired_5 g))
        × (t.acc ≡ foldl add_point s.acc g)
  unfolding add_to_slot
  slot-foldl_add s [] = (omega arith, omega arith, omega arith, refl, refl, refl)
  slot-foldl_add s (p ∷ ps) =
      let ih = slot-foldl_add (add_to_slot s p) ps in
      (
        ground (arith, ih.0, length-cons_some p.requests (present requests_of ps)),
        ground (arith, ih.1, length-cons_some (paired_4 p) (present paired_4 ps)),
        ground (arith, ih.2, length-cons_some (paired_5 p) (present paired_5 ps)),
        ih.3 ∙ foldl-cons_some s.sum_4xx (paired_4 p) (present paired_4 ps),
        ih.4 ∙ foldl-cons_some s.sum_5xx (paired_5 p) (present paired_5 ps),
        ih.5,
      )

  complete_lem :
      (paired : SeriesPoint F → Option F) (g : List (SeriesPoint F)) (n k : ℕ) (sum : F)
      → IsPaired paired
      → n ≡ 0 + length (present requests_of g)
      → k ≡ 0 + length (present paired g)
      → complete_errors n k sum ≡ (if is_complete paired g then some sum else none)
  complete_lem paired g n k sum h e f = ground (arith, any_request g, paired_all paired g h)

  slot_latency_requests :
      (b : Time) (g : List (SeriesPoint F))
      → (foldl add_to_slot (new_slot b) g).acc.latency_requests_sum
        ≡ request_total fl.zero_f (weights g)
  unfolding new_slot new_bucket_accumulator
  slot_latency_requests b g =
      ap (λ (a : BucketAccumulator F). a.latency_requests_sum) ((slot-foldl_add (new_slot b) g).5)
      ∙ (latency-foldl_add (new_bucket_accumulator b) g).1

  -- A minute reports 4xx (5xx) errors exactly when some point of it has a request delta and every
  -- point that has one also has an error delta paired with it; it then reports the sum of those
  -- deltas in order. The 5xx rate is reported exactly when the errors are and the minute's requests
  -- are above zero, as their quotient; the latency weight is the sum of the requests that weigh the
  -- latency, if that is above zero.
  pub minute_summary_errors :
      (b : Time) (g : List (SeriesPoint F))
      → let m = minute_summary (b, g) in
        (m.http_4xx ≡ (
          if is_complete paired_4 g
          then some (foldl fl.add fl.zero_f (present paired_4 g))
          else none))
        × (m.http_5xx ≡ (
            if is_complete paired_5 g
            then some (foldl fl.add fl.zero_f (present paired_5 g))
            else none))
        × (m.http_5xx_rate ≡ error_rate m.http_5xx m.requests)
        × (m.latency_requests ≡ (
            if fl.flt fl.zero_f (request_total fl.zero_f (weights g))
            then some (request_total fl.zero_f (weights g))
            else none))
  unfolding minute_summary public_point new_slot
  minute_summary_errors b g =
      let h = slot-foldl_add (new_slot b) g in
      (
        complete_lem paired_4 g _ _ _ paired_4-IsPaired h.0 h.1 ∙ rw h.3,
        complete_lem paired_5 g _ _ _ paired_5-IsPaired h.0 h.2 ∙ rw h.4,
        refl,
        rw (slot_latency_requests b g),
      )
