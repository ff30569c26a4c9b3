-- ===== src/Storage/Downsample/Groups.antt =====
-- The single pass of `AggregateSeries` (internal/storage/downsample.go) against its description by
-- groups: neighbours with one bucket start are summarised together.
use mathlib.Core.List.{append_assoc}
use statlite.Float.{Float64}
use statlite.Time.{Time, Duration}
use statlite.Storage.Types.{SeriesPoint, Series}
use statlite.Storage.Grouping
use statlite.Storage.Downsample.{
  BucketAccumulator, new_bucket_accumulator, add_point, bucket_point, bucket_start_of, flush_bucket,
  aggregate_step, aggregate_points, aggregate_series,
}
use statlite.Prelude.{
  ℕ, ◌≡◌, refl, ◌∙◌, inl, inr, Bool, true, false, ◌&&◌, ◌||◌, some, List, [], ◌∷◌, ◌++◌, map, arith,
  ltb, ◌==◌, if◌then◌else◌, Bool-cases, foldl,
}

module _ {F : Type 0} ⦃fl : Float64 F⦄ where
  abbrev pub bucket_key : Time → Duration → SeriesPoint F → ℕ
  bucket_key start bucket p = bucket_start_of start bucket p.timestamp

  abbrev pub groups : Time → Duration → List (SeriesPoint F) → List (Time × List (SeriesPoint F))
  groups start bucket = Grouping.group_by (bucket_key start bucket)

  -- Two neighbours share a bucket.
  abbrev pub has_shared_bucket : Time → Duration → List (SeriesPoint F) → Bool
  has_shared_bucket start bucket = Grouping.has_shared_key (bucket_key start bucket)

  -- The points of one bucket, added in order to a fresh accumulator.
  unfoldable pub summarise : Time × List (SeriesPoint F) → SeriesPoint F
  summarise (b, points) = bucket_point (foldl add_point (new_bucket_accumulator b) points)

  pub start-add_point :
      (a : BucketAccumulator F) (p : SeriesPoint F) → (add_point a p).start ≡ a.start
  unfolding add_point
  start-add_point a p = refl

module _ (F : Type 0) ⦃fl : Float64 F⦄ where
  pub start-new : (b : Time) → (new_bucket_accumulator {F = F} b).start ≡ b
  unfolding new_bucket_accumulator
  start-new b = refl

module _ {F : Type 0} ⦃fl : Float64 F⦄ (start : Time) (bucket : Duration) where
  -- The points still to come out when `a` is the open bucket.
  abbrev rest_out : BucketAccumulator F → List (SeriesPoint F) → List (SeriesPoint F)
  rest_out =
      Grouping.rest_out (bucket_key start bucket) new_bucket_accumulator add_point (λ a. a.start)
        bucket_point start-add_point (start-new F)

  out-foldl_step :
      (out : List (SeriesPoint F)) (a : BucketAccumulator F) (merged : Bool)
      (ps : List (SeriesPoint F))
      → (flush_bucket (
          foldl
            (aggregate_step start bucket)
            (record { out = out; acc = some a; merged = merged })
            ps)).out
        ≡ out ++ rest_out a ps
  unfolding aggregate_step Grouping.rest_out
  out-foldl_step out a merged [] = refl
  out-foldl_step out a merged (p ∷ ps) =
      let k = bucket_start_of start bucket p.timestamp in
      let fresh = add_point (new_bucket_accumulator k) p in
      elim (Bool-cases (a.start == k)) [
        | inl e ↦ rw e (out-foldl_step out (add_point a p) true ps)
        | inr e ↦ rw e (
            out-foldl_step (out ++ bucket_point a ∷ []) fresh merged ps
            ∙ append_assoc out (bucket_point a ∷ []) (rest_out fresh ps))
      ]

  merged-foldl_step :
      (out : List (SeriesPoint F)) (a : BucketAccumulator F) (merged : Bool) (p : SeriesPoint F)
      (ps : List (SeriesPoint F))
      → a.start ≡ bucket_start_of start bucket p.timestamp
      → (foldl
          (aggregate_step start bucket)
          (record { out = out; acc = some a; merged = merged })
          ps).merged
        ≡ (merged || has_shared_bucket start bucket (p ∷ ps))
  unfolding aggregate_step Grouping.has_shared_key
  merged-foldl_step out a merged p [] h = ground arith
  merged-foldl_step out a merged p (q ∷ ps) h =
      let k = bucket_start_of start bucket q.timestamp in
      let fresh = add_point (new_bucket_accumulator k) q in
      ground (
        arith,
        start-add_point a q,
        start-add_point (new_bucket_accumulator k) q,
        start-new F k,
        merged-foldl_step out (add_point a q) true q ps,
        merged-foldl_step (out ++ bucket_point a ∷ []) fresh merged q ps,
      )

  -- The loop's output is the summary of each group, in order.
  out-aggregate_points :
      (ps : List (SeriesPoint F))
      → (aggregate_points start bucket ps).out ≡ map summarise (groups start bucket ps)
  unfolding aggregate_points summarise Grouping.summary
  out-aggregate_points [] = unfold Grouping.group_by in refl
  out-aggregate_points (p ∷ ps) =
      out-foldl_step []
        (add_point (new_bucket_accumulator (bucket_start_of start bucket p.timestamp)) p) false ps
      ∙ Grouping.rest_out-new (bucket_key start bucket) new_bucket_accumulator add_point
          (λ a. a.start) bucket_point start-add_point (start-new F) p ps

  -- The loop notes a merge exactly when two neighbours share a bucket.
  merged-aggregate_points :
      (ps : List (SeriesPoint F))
      → (aggregate_points start bucket ps).merged ≡ has_shared_bucket start bucket ps
  unfolding aggregate_points
  merged-aggregate_points [] = unfold Grouping.has_shared_key in refl
  merged-aggregate_points (p ∷ ps) =
      let k = bucket_start_of start bucket p.timestamp in
      merged-foldl_step [] (add_point (new_bucket_accumulator k) p) false p ps
        (start-add_point (new_bucket_accumulator k) p ∙ start-new F k)

module _ {F : Type 0} ⦃fl : Float64 F⦄ where
  -- `AggregateSeries` returns the series as it is for a bucket of zero, or where no two neighbours
  -- share a bucket; otherwise it replaces the points by the summaries of their groups, and keeps
  -- every other field.
  pub aggregate_series-eq_summaries :
      (series : Series F) (bucket : Duration)
      → aggregate_series (some series) bucket
        ≡ some (
            if ltb 0 bucket && has_shared_bucket series.start bucket series.points
            then record series { points = map summarise (groups series.start bucket series.points) }
            else series)
  unfolding aggregate_series
  aggregate_series-eq_summaries series bucket = ground (
    arith,
    out-aggregate_points series.start bucket series.points,
    merged-aggregate_points series.start bucket series.points,
    Grouping.has_shared_key-two (bucket_key series.start bucket) series.points,
  )
