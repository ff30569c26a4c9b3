-- ===== src/Storage/SeriesQuery.antt =====
-- internal/storage/series.go: the checks of a series query, the bounded poll ids and the counters'
-- baselines before the window. A read transaction is one database.
pub mod Baseline
pub mod Bounded
use statlite.Result.{Result, ok, err, ◌>>=◌, ◌>>◌, refuse}
use statlite.Float.{Float64}
use statlite.Time.{Time, before}
use statlite.Collector.Model.{is_counter}
use statlite.Storage.Types.{Series}
use statlite.Storage.Db.{
  Db, PollRow, SampleRow, StoreError, target_name_required, start_not_before_end,
  poll_limit_exceeded,
}
use statlite.Storage.Query.{polls_of, newest_first}
use statlite.Storage.DashboardPolls.{window_polls}
use statlite.Storage.Series.{CounterValue, Baselines, series_counter_keys}
use statlite.Storage.SeriesRows.{series_with_baseline}
use statlite.Prelude.{
  ℕ, ◌+◌, String, Bool, true, false, not, ◌&&◌, ◌||◌, Option, none, some, List, [], ◌∷◌, map, ltb,
  leb, ◌==◌, if◌then◌else◌, length, take, filterb, find?, str_eq, is_blank, insert,
}

abbrev pub public_metrics_poll_limit : ℕ
public_metrics_poll_limit = 4096

-- p.started_at < start, and not before a retention cutoff that is set.
abbrev pub is_eligible : Time → Time → PollRow → Bool
is_eligible start cutoff p = before p.started_at start && ((cutoff == 0) || leb cutoff p.started_at)

abbrev pub is_empty_ids : Option (List ℕ) → Bool
is_empty_ids none = false
is_empty_ids (some []) = true
is_empty_ids (some (_ ∷ _)) = false

module _ {F : Type 0} where
  -- ORDER BY p.started_at ASC, p.id ASC LIMIT PublicMetricsPollLimit+1
  unfoldable pub public_poll_ids : Db F → String → Time → Time → Result StoreError (List ℕ)
  public_poll_ids db target_name start end =
      let ids =
        map (λ (p : PollRow). p.id)
          (take (public_metrics_poll_limit + 1) (window_polls db target_name start end)) in
      if ltb public_metrics_poll_limit (length ids) then err poll_limit_exceeded else ok ids

  abbrev pub is_counter_sample : String → PollRow → SampleRow F → Bool
  is_counter_sample key p r =
      (r.poll_id == p.id) && str_eq r.metric_key key && is_counter r.metric_kind

  -- The first row of the polls, newest first, joined with their counter samples.
  unfoldable pub newest_counter : Db F → String → List PollRow → Option (CounterValue F)
  newest_counter db key [] = none
  newest_counter db key (p ∷ ps) =
      let rest = newest_counter db key ps in
      elim (find? (is_counter_sample key p) db.metric_samples) [
        | none ↦ rest
        | some r ↦ some (record { poll_id = p.id; app_run_id = p.app_run_id; value = r.value })
      ]

  abbrev pub baseline_polls : Db F → String → Time → Time → List PollRow
  baseline_polls db target_name start cutoff =
      newest_first (filterb (is_eligible start cutoff) (polls_of db target_name))

  abbrev pub set_baseline : String → Option (CounterValue F) → Baselines F → Baselines F
  set_baseline key none previous = previous
  set_baseline key (some counter) previous = insert key counter previous

  -- The loop over the keys.
  unfoldable pub add_baselines : Db F → List PollRow → List String → Baselines F → Baselines F
  add_baselines db polls [] previous = previous
  add_baselines db polls (key ∷ keys) previous =
      add_baselines db polls keys (set_baseline key (newest_counter db key polls) previous)

  unfoldable pub previous_counter_values_from :
      Db F → String → Time → List String → Time → Baselines F
  previous_counter_values_from db target_name start keys cutoff =
      add_baselines db (baseline_polls db target_name start cutoff) keys []

module _ {F : Type 0} ⦃fl : Float64 F⦄ where
  abbrev pub empty_series : Time → Time → Series F
  empty_series start end = record {
    cpu_unit = "";
    cpu_unit_assumed = false;
    cpu_unit_conflict = false;
    start = start;
    end = end;
    points = [];
    first_poll_id = 0;
    latest_point = none;
    current_host_disk = none;
  }

  unfoldable pub series_for_polls : Db F → String → Time → Time → Option (List ℕ) → Time → Series F
  series_for_polls db target_name start end ids cutoff =
      if is_empty_ids ids
      then empty_series start end
      else series_with_baseline db target_name start end ids
          (previous_counter_values_from db target_name start series_counter_keys cutoff)

  -- The ids of a bounded query, `none` for an unbounded one.
  abbrev pub query_ids : Db F → String → Time → Time → Bool → Result StoreError (Option (List ℕ))
  query_ids db target_name start end false = ok none
  query_ids db target_name start end true = do
    ids ← public_poll_ids db target_name start end
    ok (some ids)

  unfoldable pub series : Db F → String → Time → Time → Bool → Time → Result StoreError (Series F)
  series db target_name start end bounded cutoff = do
    refuse (is_blank target_name) target_name_required
    refuse (not (before start end)) start_not_before_end
    ids ← query_ids db target_name start end bounded
    ok (series_for_polls db target_name start end ids cutoff)

  unfoldable pub bounded_series : Db F → String → Time → Time → Time → Result StoreError (Series F)
  unfolding series
  bounded_series db target_name start end cutoff = series db target_name start end true cutoff
