-- ===== src/Monitor/Restart/Signals.antt =====
-- When a collected result belongs to a new app run (internal/monitor/monitor.go).
use statlite.Result.{ok, Result-cases}
use statlite.Float.{Float64}
use statlite.Collector.Model.{CollectionResult}
use statlite.Storage.Types.{Snapshot}
use statlite.Time.{Time}
use statlite.Monitor.State.{Store, Monitor}
use statlite.Monitor.Restart.{
  RunDecision, caddy_metrics_source, sample_value, with_run, is_lower, process_start_changed,
  uptime_decreased, decreased_core_counters, new_run, same_run, detect_caddy_run,
  compare_with_previous, detect_app_run,
}
use statlite.Prelude.{
  ℕ, String, ◌≡◌, ◌⊎◌, inl, inr, Bool, true, false, not, ◌&&◌, ◌||◌, Option, none, some, arith, ltb,
  ◌==◌, if◌then◌else◌, Bool-cases, Option-cases, is_some, str_eq,
}

module _ {F : Type 0} ⦃fl : Float64 F⦄ where
  abbrev pub lower_at : String → Snapshot F → CollectionResult F → Bool
  lower_at key p result =
      is_lower (sample_value p.result.samples key) (sample_value result.samples key)

  -- The signs of a restart between a snapshot and a result, after `failures` failed polls.
  abbrev pub restart_signs : ℕ → Snapshot F → CollectionResult F → Bool
  restart_signs failures p result =
      process_start_changed (some p) result
      || lower_at "process_uptime" p result
      || (lower_at "http_requests_total" p result
          && lower_at "http_request_time_total_seconds" p result)
      || (ltb 0 failures
          && (lower_at "http_requests_total" p result
              || lower_at "http_request_time_total_seconds" p result))

  abbrev pub is_restart : Monitor F → CollectionResult F → Bool
  is_restart m result =
      not (str_eq result.metrics_source caddy_metrics_source) && elim (with_run m.previous) [
        | none ↦ false
        | some (p, id) ↦ restart_signs m.status.consecutive_poll_failures p result
      ]

  -- Whether a result goes on in the run of the previous snapshot.
  abbrev pub continues_run : Monitor F → CollectionResult F → Bool
  continues_run m result = elim (with_run m.previous) [
    | none ↦ false
    | some (p, id) ↦
        if str_eq result.metrics_source caddy_metrics_source
        then is_some m.status.last_successful_poll_at
          && (m.status.consecutive_poll_failures == 0)
          && not result.counter_continuity_break
        else not (restart_signs m.status.consecutive_poll_failures p result)
          && (is_some p.result.process_start_time || not (is_some result.process_start_time))
  ]

  -- The run of the previous snapshot.
  abbrev pub run_of : Option (Snapshot F) → Option ℕ
  run_of previous = elim (with_run previous) [ none ↦ none | some (p, id) ↦ some id ]

  -- The start time that a new run gets.
  abbrev pub run_start : CollectionResult F → Option Time
  run_start result =
      if str_eq result.metrics_source caddy_metrics_source then none else result.process_start_time

module _ {F S E : Type 0} ⦃fl : Float64 F⦄ (store : Store F S E) where
  new_run-restart :
      (s : S) (result : CollectionResult F) (start : Option Time) (b : Bool) (reason : String)
      (d : RunDecision) (s' : S)
      → new_run store s result start b reason ≡ ok (d, s')
      → (d.restart_detected ≡ b) × (d.reason ≡ reason)
  new_run-restart s result start b reason d s' h =
      elim (Result-cases (store.ensure_app_run s result.target_name start result.poll_started_at)) [
        | inl (r, e) ↦ (ground arith, ground arith)
        | inr (x, e) ↦ absurd (ground arith)
      ]

  same_run-restart :
      (s : S) (result : CollectionResult F) (id : ℕ) (d : RunDecision) (s' : S)
      → same_run store s result id ≡ ok (d, s')
      → (d.restart_detected ≡ false) × (d.app_run_id ≡ id)
  same_run-restart s result id d s' h =
      elim (Result-cases (store.touch_app_run s id result.poll_started_at)) [
        | inl (r, e) ↦ (ground arith, ground arith)
        | inr (x, e) ↦ absurd (ground arith)
      ]

  compare_with_previous_lem :
      (s : S) (m : Monitor F) (result : CollectionResult F) (p : Snapshot F) (id : ℕ)
      (d : RunDecision) (s' : S)
      → compare_with_previous store s m result p id ≡ ok (d, s')
      → d.restart_detected ≡ restart_signs m.status.consecutive_poll_failures p result
  unfolding compare_with_previous uptime_decreased decreased_core_counters
  compare_with_previous_lem s m result p id d s' h =
      let new = λ (b : Bool) (reason : String).
        new_run-restart s result result.process_start_time b reason d s' in
      ground (
        arith,
        new true "process.start.time changed",
        new true "process uptime decreased",
        new true "core cumulative counters decreased",
        new true "poll failure followed by lower cumulative counter",
        new false "",
        same_run-restart s result id d s',
      )

  detect_caddy_run_lem :
      (s : S) (m : Monitor F) (result : CollectionResult F) (d : RunDecision) (s' : S)
      → detect_caddy_run store s m result ≡ ok (d, s')
      → d.restart_detected ≡ false
  unfolding detect_caddy_run
  detect_caddy_run_lem s m result d s' h = elim (Option-cases (with_run m.previous)) [
    | inl e ↦ ground (arith, new_run-restart s result none false "" d s')
    | inr ((p, id), e) ↦
        ground
          (arith, new_run-restart s result none false "" d s', same_run-restart s result id d s')
  ]

  -- If the app run of a result is found, a restart is reported exactly when the result is not
  -- Caddy's, the previous snapshot has a run, and the process start time changed, the uptime went
  -- down, both core counters went down, or one did after a failed poll.
  pub detect_app_run-is_restart :
      (s : S) (m : Monitor F) (result : CollectionResult F) (d : RunDecision) (s' : S)
      → detect_app_run store s m result ≡ ok (d, s')
      → d.restart_detected ≡ is_restart m result
  unfolding detect_app_run
  detect_app_run-is_restart s m result d s' h = elim (Option-cases (with_run m.previous)) [
    | inl e ↦ ground (
      arith,
      detect_caddy_run_lem s m result d s',
      new_run-restart s result result.process_start_time false "" d s',
    )
    | inr ((p, id), e) ↦ ground (
      arith,
      detect_caddy_run_lem s m result d s',
      compare_with_previous_lem s m result p id d s',
    )
  ]

module _ {F S E : Type 0} ⦃fl : Float64 F⦄ (store : Store F S E) where
  -- Touching the previous run, or ensuring another.
  abbrev pub TouchesOr : Bool → S → Monitor F → CollectionResult F → RunDecision → S → Type 0
  TouchesOr goes_on s m result d s' =
      ((goes_on ≡ true)
        × (run_of m.previous ≡ some d.app_run_id)
        × (store.touch_app_run s d.app_run_id result.poll_started_at ≡ ok s'))
      ⊎ ((goes_on ≡ false)
          × (store.ensure_app_run s result.target_name (run_start result) result.poll_started_at
              ≡ ok (d.app_run_id, s')))

  new_run-ensures :
      (s : S) (result : CollectionResult F) (start : Option Time) (b : Bool) (reason : String)
      (d : RunDecision) (s' : S)
      → new_run store s result start b reason ≡ ok (d, s')
      → store.ensure_app_run s result.target_name start result.poll_started_at
        ≡ ok (d.app_run_id, s')
  new_run-ensures s result start b reason d s' h =
      elim (Result-cases (store.ensure_app_run s result.target_name start result.poll_started_at)) [
        | inl (r, e) ↦ ground arith
        | inr (x, e) ↦ absurd (ground arith)
      ]

  same_run-touches :
      (s : S) (result : CollectionResult F) (id : ℕ) (d : RunDecision) (s' : S)
      → same_run store s result id ≡ ok (d, s')
      → (store.touch_app_run s d.app_run_id result.poll_started_at ≡ ok s') × (d.app_run_id ≡ id)
  same_run-touches s result id d s' h =
      elim (Result-cases (store.touch_app_run s id result.poll_started_at)) [
        | inl (r, e) ↦ (ground arith, ground arith)
        | inr (x, e) ↦ absurd (ground arith)
      ]

  compare_with_previous-ensures :
      (s : S) (m : Monitor F) (result : CollectionResult F) (p : Snapshot F) (id : ℕ)
      (d : RunDecision) (s' : S)
      → compare_with_previous store s m result p id ≡ ok (d, s')
      → let goes_on =
          not (restart_signs m.status.consecutive_poll_failures p result)
          && (is_some p.result.process_start_time || not (is_some result.process_start_time)) in
        ((goes_on ≡ true) × (same_run store s result id ≡ ok (d, s')))
        ⊎ ((goes_on ≡ false)
            × (store.ensure_app_run s result.target_name result.process_start_time
                  result.poll_started_at
                ≡ ok (d.app_run_id, s')))
  unfolding compare_with_previous uptime_decreased decreased_core_counters
  compare_with_previous-ensures s m result p id d s' h =
      let new = λ (b : Bool) (reason : String).
        new_run-ensures s result result.process_start_time b reason d s' in
      ground (
        arith,
        new true "process.start.time changed",
        new true "process uptime decreased",
        new true "core cumulative counters decreased",
        new true "poll failure followed by lower cumulative counter",
        new false "",
      )

  detect_caddy_run-ensures :
      (s : S) (m : Monitor F) (result : CollectionResult F) (p : Snapshot F) (id : ℕ)
      (d : RunDecision) (s' : S)
      → with_run m.previous ≡ some (p, id)
      → detect_caddy_run store s m result ≡ ok (d, s')
      → let goes_on =
          is_some m.status.last_successful_poll_at
          && (m.status.consecutive_poll_failures == 0)
          && not result.counter_continuity_break in
        ((goes_on ≡ true) × (same_run store s result id ≡ ok (d, s')))
        ⊎ ((goes_on ≡ false)
            × (store.ensure_app_run s result.target_name none result.poll_started_at
                ≡ ok (d.app_run_id, s')))
  unfolding detect_caddy_run
  detect_caddy_run-ensures s m result p id d s' e h =
      ground (arith, new_run-ensures s result none false "" d s')

  caddy_without_previous :
      (s : S) (m : Monitor F) (result : CollectionResult F) (d : RunDecision) (s' : S)
      → with_run m.previous ≡ none
      → detect_caddy_run store s m result ≡ ok (d, s')
      → store.ensure_app_run s result.target_name none result.poll_started_at
        ≡ ok (d.app_run_id, s')
  unfolding detect_caddy_run
  caddy_without_previous s m result d s' e h =
      ground (arith, new_run-ensures s result none false "" d s')

  -- If the app run of a result is found: the result goes on in the previous snapshot's run, which
  -- is touched, exactly when that snapshot has a run and, for Caddy, this monitor has had a success,
  -- no failure since and no break of continuity, or, for other sources, there is no sign of a
  -- restart and the start time is not known for the first time; else a run of the result's start
  -- time is ensured, for Caddy one without a start time.
  pub detect_app_run-continues_run :
      (s : S) (m : Monitor F) (result : CollectionResult F) (d : RunDecision) (s' : S)
      → detect_app_run store s m result ≡ ok (d, s')
      → TouchesOr (continues_run m result) s m result d s'
  unfolding detect_app_run
  detect_app_run-continues_run s m result d s' h =
      elim (Bool-cases (str_eq result.metrics_source caddy_metrics_source)) [
        | inl c ↦ elim (Option-cases (with_run m.previous)) [
          | inl e ↦
              let step : detect_caddy_run store s m result ≡ ok (d, s') = ground arith in
              let new = caddy_without_previous s m result d s' e step in ground arith
          | inr ((p, id), e) ↦
              let step : detect_caddy_run store s m result ≡ ok (d, s') = ground arith in
              elim (detect_caddy_run-ensures s m result p id d s' e step) [
                | inl (g, t) ↦ let touched = same_run-touches s result id d s' t in ground arith
                | inr (g, t) ↦ ground arith
              ]
        ]
        | inr c ↦ elim (Option-cases (with_run m.previous)) [
          | inl e ↦ ground (arith, new_run-ensures s result result.process_start_time false "" d s')
          | inr ((p, id), e) ↦
              let step : compare_with_previous store s m result p id ≡ ok (d, s') = ground arith in
              elim (compare_with_previous-ensures s m result p id d s' step) [
                | inl (g, t) ↦ let touched = same_run-touches s result id d s' t in ground arith
                | inr (g, t) ↦ ground arith
              ]
        ]
      ]
