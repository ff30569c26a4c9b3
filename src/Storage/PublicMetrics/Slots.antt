-- ===== src/Storage/PublicMetrics/Slots.antt =====
-- The loop of `GroupPublicMetrics` (internal/storage/public_metrics.go) against its description by
-- minutes, and the order of what comes out.
use mathlib.Core.List.{append_assoc}
use statlite.Float.{Float64}
use statlite.Time.{Time, truncate, minute}
use statlite.Storage.Types.{SeriesPoint, Series}
use statlite.Storage.Grouping
use statlite.Storage.Downsample.{add_point, new_bucket_accumulator}
use statlite.Storage.PublicMetrics.{
  PublicMetricPoint, Slot, GroupState, is_usable, is_http_observation, new_slot, add_to_slot,
  public_point, flush_slot, group_step, group_public_metrics,
}
use statlite.Prelude.{
  ℕ, ◌≡◌, refl, ◌∙◌, inl, inr, Bool, true, false, ◌&&◌, Option, none, some, List, [], ◌∷◌, ◌++◌,
  map, arith, ◌==◌, if◌then◌else◌, Bool-cases, filterb, foldl,
}

module _ {F : Type 0} ⦃fl : Float64 F⦄ where
  abbrev pub minute_of : SeriesPoint F → ℕ
  minute_of p = truncate p.timestamp minute

  pub start-add_to_slot :
      (s : Slot F) (p : SeriesPoint F) → (add_to_slot s p).acc.start ≡ s.acc.start
  unfolding add_to_slot add_point
  start-add_to_slot s p = refl

module _ (F : Type 0) ⦃fl : Float64 F⦄ where
  pub start-new_slot : (b : Time) → (new_slot {F = F} b).acc.start ≡ b
  unfolding new_slot new_bucket_accumulator
  start-new_slot b = refl

module _ {F : Type 0} ⦃fl : Float64 F⦄ where
  -- The points of one minute, added in order to a fresh slot.
  unfoldable pub minute_summary : Time × List (SeriesPoint F) → PublicMetricPoint F
  minute_summary (b, points) = public_point (foldl add_to_slot (new_slot b) points)

  abbrev rest_out : Slot F → List (SeriesPoint F) → List (PublicMetricPoint F)
  rest_out =
      Grouping.rest_out minute_of new_slot add_to_slot (λ s. s.acc.start) public_point
        start-add_to_slot (start-new_slot F)

  abbrev seen : SeriesPoint F → Option Time → Option Time
  seen p latest = if is_http_observation p then some p.timestamp else latest

  abbrev fresh_slot : SeriesPoint F → Slot F
  fresh_slot p = add_to_slot (new_slot (minute_of p)) p

  group_step_skip :
      (s : GroupState F) (p : SeriesPoint F) → is_usable p ≡ false → group_step s p ≡ s
  unfolding group_step
  group_step_skip s p u = rw u

  module _ (out : List (PublicMetricPoint F)) (latest : Option Time) (p : SeriesPoint F)
      (u : is_usable p ≡ true) where
    group_step_first :
        group_step (record { out = out; latest = latest; slot = none }) p
        ≡ record { out = out; latest = seen p latest; slot = some (fresh_slot p) }
    unfolding group_step
    group_step_first = rw u

    group_step_same :
        (a : Slot F)
        → (a.acc.start == minute_of p) ≡ true
        → group_step (record { out = out; latest = latest; slot = some a }) p
          ≡ record { out = out; latest = seen p latest; slot = some (add_to_slot a p) }
    unfolding group_step
    group_step_same a e = rw (u, e)

    group_step_next :
        (a : Slot F)
        → (a.acc.start == minute_of p) ≡ false
        → group_step (record { out = out; latest = latest; slot = some a }) p ≡ record {
          out = out ++ public_point a ∷ [];
          latest = seen p latest;
          slot = some (fresh_slot p);
        }
    unfolding group_step
    group_step_next a e = rw (u, e)

  flush-group_points :
      (out : List (PublicMetricPoint F)) (latest : Option Time) (a : Slot F)
      (ps : List (SeriesPoint F))
      → (flush_slot
          (foldl group_step (record { out = out; latest = latest; slot = some a }) ps)).out
        ≡ out ++ rest_out a (filterb is_usable ps)
  unfolding Grouping.rest_out
  flush-group_points out latest a [] = unfold flush_slot in refl
  flush-group_points out latest a (p ∷ ps) = elim (Bool-cases (is_usable p)) [
    | inl u ↦ elim (Bool-cases (a.acc.start == minute_of p)) [
      | inl e ↦
          rw (group_step_same out latest p u a e, u, e)
            (flush-group_points out (seen p latest) (add_to_slot a p) ps)
      | inr e ↦
          rw (group_step_next out latest p u a e, u, e)
            (flush-group_points (out ++ public_point a ∷ []) (seen p latest) (fresh_slot p) ps
              ∙ append_assoc out (public_point a ∷ [])
                  (rest_out (fresh_slot p) (filterb is_usable ps)))
    ]
    | inr u ↦
        rw (group_step_skip (record { out = out; latest = latest; slot = some a }) p u, u)
          (flush-group_points out latest a ps)
  ]

  out-group_points :
      (latest : Option Time) (ps : List (SeriesPoint F))
      → (flush_slot (foldl group_step (record { out = []; latest = latest; slot = none }) ps)).out
        ≡ map minute_summary (Grouping.group_by minute_of (filterb is_usable ps))
  unfolding minute_summary Grouping.summary
  out-group_points latest [] = unfold Grouping.group_by flush_slot in refl
  out-group_points latest (p ∷ ps) = elim (Bool-cases (is_usable p)) [
    | inl u ↦
        rw (group_step_first [] latest p u, u)
          (flush-group_points [] (seen p latest) (fresh_slot p) ps
            ∙ Grouping.rest_out-new minute_of new_slot add_to_slot (λ s. s.acc.start) public_point
                start-add_to_slot (start-new_slot F) p (filterb is_usable ps))
    | inr u ↦
        rw (group_step_skip (record { out = []; latest = latest; slot = none }) p u, u)
          (out-group_points latest ps)
  ]

  -- The last point of the list that the test accepts.
  abbrev pub last_seen : (SeriesPoint F → Bool) → Option Time → List (SeriesPoint F) → Option Time
  last_seen test latest [] = latest
  last_seen test latest (p ∷ ps) = last_seen test (if test p then some p.timestamp else latest) ps

  latest-group_step :
      (s : GroupState F) (p : SeriesPoint F)
      → (group_step s p).latest
        ≡ (if is_usable p && is_http_observation p then some p.timestamp else s.latest)
  unfolding group_step
  latest-group_step s p = ground arith

  latest-group_points :
      (s : GroupState F) (ps : List (SeriesPoint F))
      → (foldl group_step s ps).latest
        ≡ last_seen (λ p. is_usable p && is_http_observation p) s.latest ps
  latest-group_points s [] = refl
  latest-group_points s (p ∷ ps) =
      rw (← latest-group_step s p) (latest-group_points (group_step s p) ps)

  -- `GroupPublicMetrics` drops the points with nothing usable, cuts the rest into neighbours of one
  -- UTC minute and returns one point for each, in order; its observation time is that of the last
  -- usable point with a request, latency or paired error value.
  pub group_public_metrics-eq_minutes :
      (series : Series F)
      → (group_public_metrics (some series)).points
          ≡ map minute_summary (Grouping.group_by minute_of (filterb is_usable series.points))
        × ((group_public_metrics (some series)).latest_http_observation_at
            ≡ last_seen (λ p. is_usable p && is_http_observation p) none series.points)
  unfolding group_public_metrics
  group_public_metrics-eq_minutes series = (
    out-group_points none series.points,
    latest-group_points (record { out = []; latest = none; slot = none }) series.points,
  )
