-- ===== src/Monitor/FollowUp.antt =====
-- internal/monitor/monitor.go: how a monitor starts: its stored history, a first poll, and a second
-- one soon after where the first has counters without a baseline.
pub mod Baselines
use statlite.Result.{ok, err}
use statlite.Float.{Float64}
use statlite.Time.{Duration}
use statlite.Collector.Model.{MetricSample, is_counter}
use statlite.Storage.Types.{Snapshot}
use statlite.Monitor.State.{Store, Monitor}
use statlite.Monitor.Poll.{PollInput, poll_now}
use statlite.Prelude.{
  ℕ, String, ◌≡◌, refl, Bool, true, false, not, ◌&&◌, ◌||◌, Option, none, some, List, [], ◌∷◌, map,
  arith, ltb, ◌==◌, if◌then◌else◌, is_some, filterb, anyb, str_eq,
}

unfoldable pub app_run_changed : Option ℕ → Option ℕ → Bool
app_run_changed none none = false
app_run_changed none (some b) = true
app_run_changed (some a) none = true
app_run_changed (some a) (some b) = not (a == b)

unfoldable pub startup_follow_up_wait : Duration → Duration → Duration
startup_follow_up_wait interval preferred = if ltb interval preferred then interval else preferred

module _ {F : Type 0} where
  unfoldable pub has_counter_samples : List (MetricSample F) → Bool
  has_counter_samples samples = anyb (λ (s : MetricSample F). is_counter s.kind) samples

  -- The keys of the set `previousCounters`.
  abbrev pub counter_keys : List (MetricSample F) → List String
  counter_keys samples =
      map (λ (s : MetricSample F). s.key)
        (filterb (λ (s : MetricSample F). is_counter s.kind) samples)

  unfoldable pub has_counter_without_baseline : List (MetricSample F) → List (MetricSample F) → Bool
  has_counter_without_baseline previous current =
      let previous_counters = counter_keys previous in
      anyb
        (λ (s : MetricSample F).
          is_counter s.kind && not (anyb (λ k. str_eq k s.key) previous_counters))
        current

  -- `failed`: whether the poll returned an error.
  unfoldable pub needs_startup_follow_up : Option (Snapshot F) → Option (Snapshot F) → Bool → Bool
  needs_startup_follow_up previous none failed = false
  needs_startup_follow_up previous (some current) failed =
      if failed
        || not (str_eq current.status "ok")
        || not (has_counter_samples current.result.samples)
      then false
      else elim previous [
        | none ↦ true
        | some p ↦
            if app_run_changed p.app_run_id current.app_run_id
            then true
            else has_counter_without_baseline p.result.samples current.result.samples
      ]

  pub counter_key_iff :
      (key : String) (samples : List (MetricSample F))
      → anyb (λ k. str_eq k key) (counter_keys samples)
        ≡ anyb (λ (s : MetricSample F). is_counter s.kind && str_eq s.key key) samples
  counter_key_iff key [] = refl
  counter_key_iff key (s ∷ ss) = ground (arith, counter_key_iff key ss)

module _ {F S E : Type 0} (store : Store F S E) where
  -- The monitor with its history, the last successful snapshot, and whether that is known.
  unfoldable pub load_successful_history : S → Monitor F → Monitor F × Option (Snapshot F) × Bool
  load_successful_history s m = elim m.previous [
    | some p ↦ (m, some p, true)
    | none ↦ elim (store.latest_successful_snapshot s m.target_name) [
      | ok p ↦ (record m { previous = some p }, some p, true)
      | err e ↦ if store.is_no_rows e then (m, none, true) else (m, none, false)
    ]
  ]

module _ {F S E : Type 0} ⦃fl : Float64 F⦄ (store : Store F S E) where
  -- `loop` up to its ticker: `cancelled` says that the context ends before the follow-up's timer.
  -- The result is the state and how many polls were made.
  unfoldable pub start_loop : S → Monitor F → PollInput F → Bool → PollInput F → S × Monitor F × ℕ
  unfolding load_successful_history needs_startup_follow_up
  start_loop s m first cancelled second =
      let (m₁, previous, history_loaded) = load_successful_history store s m in
      let (s', m', out) = poll_now store s m₁ first in
      if history_loaded && needs_startup_follow_up previous out.snapshot (is_some out.error)
      then (if cancelled
          then (s', m', 1)
          else (let (s'', m'', _) = poll_now store s' m' second in (s'', m'', 2)))
      else (s', m', 1)
