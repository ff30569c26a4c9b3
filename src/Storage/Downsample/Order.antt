-- ===== src/Storage/Downsample/Order.antt =====
-- The order of what `AggregateSeries` returns (internal/storage/downsample.go): its timestamps
-- increase strictly, and never precede the requested range.
use mathlib.Core.Path.{subst}
use statlite.Float.{Float64}
use statlite.Time.{Time, Duration, truncate_mono}
use statlite.Storage.Types.{SeriesPoint, Series}
use statlite.Storage.Downsample.{
  BucketAccumulator, new_bucket_accumulator, add_point, bucket_point, bucket_start_of,
  aggregate_series,
}
use statlite.Storage.Grouping.{
  group_by, join_group, has_shared_key, KeysFrom, keys_mono, join_group-KeysFrom,
}
use statlite.Storage.Downsample.Groups.{
  summarise, groups, has_shared_bucket, start-add_point, aggregate_series-eq_summaries,
}
use statlite.Prelude.{
  suc, ◌≤◌, ◌<◌, ◌≡◌, refl, sym, ◌∙◌, Bool, true, false, some, List, [], ◌∷◌, map, arith,
  if◌then◌else◌, lt→ltb, foldl, some_injective,
}

module _ {F : Type 0} where
  -- Timestamps from `lo` on that do not decrease.
  abbrev pub IsSortedFrom : Time → List (SeriesPoint F) → Type 0
  IsSortedFrom lo [] = Unit
  IsSortedFrom lo (p ∷ ps) = (lo ≤ p.timestamp) × IsSortedFrom p.timestamp ps

  -- Timestamps from `lo` on that increase strictly.
  abbrev pub IsIncreasingFrom : Time → List (SeriesPoint F) → Type 0
  IsIncreasingFrom lo [] = Unit
  IsIncreasingFrom lo (p ∷ ps) = (lo ≤ p.timestamp) × IsIncreasingFrom (suc p.timestamp) ps

bucket_start_of_mono :
    (start : Time) (bucket : Duration) (t u : Time)
    → t ≤ u
    → bucket_start_of start bucket t ≤ bucket_start_of start bucket u
unfolding bucket_start_of
bucket_start_of_mono start bucket t u h = ground (arith, truncate_mono t u bucket h)

start-le-bucket_start_of :
    (start : Time) (bucket : Duration) (t : Time) → start ≤ bucket_start_of start bucket t
unfolding bucket_start_of
start-le-bucket_start_of start bucket t = ground arith

module _ {F : Type 0} ⦃fl : Float64 F⦄ where
  groups-KeysFrom :
      (start : Time) (bucket : Duration) (t : Time) (ps : List (SeriesPoint F))
      → IsSortedFrom t ps
      → KeysFrom (bucket_start_of start bucket t) (groups start bucket ps)
  unfolding group_by
  groups-KeysFrom start bucket t [] h = tt
  groups-KeysFrom start bucket t (p ∷ ps) h =
      let k = bucket_start_of start bucket p.timestamp in
      keys_mono (bucket_start_of start bucket t) k (join_group k p (groups start bucket ps))
        (bucket_start_of_mono start bucket t p.timestamp h.0)
        (join_group-KeysFrom k p (groups start bucket ps)
          (groups-KeysFrom start bucket p.timestamp ps h.1))

  start-foldl_add :
      (a : BucketAccumulator F) (g : List (SeriesPoint F)) → (foldl add_point a g).start ≡ a.start
  start-foldl_add a [] = refl
  start-foldl_add a (p ∷ ps) = start-foldl_add (add_point a p) ps ∙ start-add_point a p

  timestamp-summarise : (b : Time) (g : List (SeriesPoint F)) → (summarise (b, g)).timestamp ≡ b
  unfolding summarise bucket_point add_point new_bucket_accumulator
  timestamp-summarise b g = start-foldl_add (new_bucket_accumulator b) g

  summaries-IsIncreasingFrom :
      (lo : Time) (gs : List (Time × List (SeriesPoint F)))
      → KeysFrom lo gs
      → IsIncreasingFrom lo (map summarise gs)
  summaries-IsIncreasingFrom lo [] k = tt
  summaries-IsIncreasingFrom lo ((c, g) ∷ gs) k =
      rw (timestamp-summarise c g) (k.0, summaries-IsIncreasingFrom (suc c) gs k.1)

  -- Points that share no bucket with a neighbour were strictly increasing already.
  unshared-IsIncreasingFrom :
      (start : Time) (bucket : Duration) (lo : Time) (ps : List (SeriesPoint F))
      → IsSortedFrom lo ps
      → has_shared_bucket start bucket ps ≡ false
      → IsIncreasingFrom lo ps
  unfolding has_shared_key
  unshared-IsIncreasingFrom start bucket lo [] h e = tt
  unshared-IsIncreasingFrom start bucket lo (p ∷ []) h e = h
  unshared-IsIncreasingFrom start bucket lo (p ∷ q ∷ ps) h e = (
    h.0,
    unshared-IsIncreasingFrom start bucket (suc p.timestamp) (q ∷ ps) (ground arith, h.1.1)
        (ground arith),
  )

  increasing_of :
      (series : Series F) (bucket : Duration) (shared : Bool)
      → has_shared_bucket series.start bucket series.points ≡ shared
      → IsSortedFrom series.start series.points
      → IsIncreasingFrom series.start
          (if shared
            then record series { points = map summarise (groups series.start bucket series.points) }
            else series).points
  increasing_of series bucket true e sorted =
      summaries-IsIncreasingFrom series.start (groups series.start bucket series.points) (
        keys_mono series.start (bucket_start_of series.start bucket series.start)
          (groups series.start bucket series.points)
          (start-le-bucket_start_of series.start bucket series.start)
          (groups-KeysFrom series.start bucket series.start series.points sorted))
  increasing_of series bucket false e sorted =
      unshared-IsIncreasingFrom series.start bucket series.start series.points sorted e

  -- For points in order and not before the start, and a positive bucket, the series that comes
  -- back, aggregated or not, has strictly increasing timestamps, none before the start.
  pub aggregate_series-IsIncreasingFrom :
      (series out : Series F) (bucket : Duration)
      → 0 < bucket
      → IsSortedFrom series.start series.points
      → aggregate_series (some series) bucket ≡ some out
      → IsIncreasingFrom series.start out.points
  aggregate_series-IsIncreasingFrom series out bucket pos sorted h =
      let e = rw (lt→ltb 0 bucket pos) at (aggregate_series-eq_summaries series bucket) in
      subst (λ (o : Series F). IsIncreasingFrom series.start o.points) (some_injective (sym e ∙ h))
        (increasing_of series bucket (has_shared_bucket series.start bucket series.points) refl
          sorted)
