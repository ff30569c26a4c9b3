-- ===== src/Monitor/Restart/Explained.antt =====
-- The search of a result's run (internal/monitor/monitor.go) fails only where the store does, and a
-- restart has a reason.
use statlite.Result.{Result, ok}
use statlite.Float.{Float64}
use statlite.Time.{Time}
use statlite.Collector.Model.{CollectionResult}
use statlite.Storage.Types.{Snapshot}
use statlite.Monitor.State.{Store, Monitor}
use statlite.Monitor.Restart.{
  process_start_changed, uptime_decreased, decreased_core_counters, RunDecision, with_run,
  detect_app_run, detect_caddy_run, compare_with_previous, new_run, same_run, caddy_metrics_source,
}
use statlite.Monitor.Restart.Signals.{run_of}
use statlite.Prelude.{
  ℕ, String, ◌≡◌, refl, inl, inr, Bool, true, false, not, ◌&&◌, ◌||◌, Option, none, some, arith,
  ltb, leb, if◌then◌else◌, Option-cases, is_some, length, str_eq, is_empty,
}

module _ {F S E : Type 0} ⦃fl : Float64 F⦄ (store : Store F S E) where
  -- A decision that reports a restart gives a reason.
  abbrev pub Explained : Result E (RunDecision × S) → Type 0
  Explained r =
      (d : RunDecision) × (s' : S) × (r ≡ ok (d, s'))
      × (d.restart_detected ≡ true → is_empty d.reason ≡ false)

  -- Where a write for this result cannot fail, neither does the search of its run.
  new_run-Explained :
      (s : S) (r : CollectionResult F) (start : Option Time) (b : Bool) (reason : String)
      (out : ℕ × S)
      → store.ensure_app_run s r.target_name start r.poll_started_at ≡ ok out
      → (b ≡ true → is_empty reason ≡ false)
      → Explained (new_run store s r start b reason)
  new_run-Explained s r start b reason out h k = rw h (_, _, refl, k)

  same_run-Explained :
      (s : S) (r : CollectionResult F) (id : ℕ) (s' : S)
      → store.touch_app_run s id r.poll_started_at ≡ ok s'
      → Explained (same_run store s r id)
  same_run-Explained s r id s' h = rw h (_, _, refl, λ b. absurd (ground arith))

  module _ (s : S) (m : Monitor F) (r : CollectionResult F)
      (ensures : (start : Option Time)
        → (out : ℕ × S) × (store.ensure_app_run s r.target_name start r.poll_started_at ≡ ok out))
      (touches : (id : ℕ)
        → run_of m.previous ≡ some id
        → (s' : S) × (store.touch_app_run s id r.poll_started_at ≡ ok s')) where
    new_run_ok :
        (start : Option Time) (b : Bool) (reason : String)
        → (b ≡ true → is_empty reason ≡ false)
        → Explained (new_run store s r start b reason)
    new_run_ok start b reason k =
        new_run-Explained s r start b reason (ensures start).0 (ensures start).1 k

    if-Explained :
        (b : Bool) (x y : Result E (RunDecision × S))
        → Explained x
        → Explained y
        → Explained (if b then x else y)
    if-Explained true x y h k = h
    if-Explained false x y h k = k

    compare_with_previous-Explained :
        (p : Snapshot F) (id : ℕ)
        → run_of m.previous ≡ some id
        → Explained (compare_with_previous store s m r p id)
    unfolding compare_with_previous
    compare_with_previous-Explained p id h =
        let new = λ (b : Bool) (reason : String) (k : b ≡ true → is_empty reason ≡ false).
          new_run_ok r.process_start_time b reason k in
        let same = same_run-Explained s r id (touches id h).0 (touches id h).1 in
        let drops = decreased_core_counters p.result.samples r.samples in
        if-Explained (process_start_changed (some p) r) _ _
          (new true "process.start.time changed" (λ _. refl))
          (if-Explained (uptime_decreased p.result.samples r.samples) _ _
            (new true "process uptime decreased" (λ _. refl))
            (if-Explained (leb 2 (length drops)) _ _
              (new true "core cumulative counters decreased" (λ _. refl))
              (if-Explained (ltb 0 m.status.consecutive_poll_failures && ltb 0 (length drops)) _ _
                (new true "poll failure followed by lower cumulative counter" (λ _. refl))
                (if-Explained
                  (is_some r.process_start_time && not (is_some p.result.process_start_time)) _ _
                  (new false "" (λ b. absurd (ground arith))) same))))

    detect_caddy_run-Explained : Explained (detect_caddy_run store s m r)
    unfolding detect_caddy_run
    detect_caddy_run-Explained =
        let new = new_run_ok none false "" (λ b. absurd (ground arith)) in
        if-Explained
          (not (is_some m.status.last_successful_poll_at)
            || ltb 0 m.status.consecutive_poll_failures
            || r.counter_continuity_break)
          _ _ new
          (elim (Option-cases (with_run m.previous)) [
            | inl e ↦ rw e new
            | inr ((p, id), e) ↦
                let t = touches id (ground arith) in rw e (same_run-Explained s r id t.0 t.1)
          ])

    pub detect_app_run-Explained : Explained (detect_app_run store s m r)
    unfolding detect_app_run
    detect_app_run-Explained =
        if-Explained (str_eq r.metrics_source caddy_metrics_source) _ _ detect_caddy_run-Explained
          (elim (Option-cases (with_run m.previous)) [
            | inl e ↦ rw e (new_run_ok r.process_start_time false "" (λ b. absurd (ground arith)))
            | inr ((p, id), e) ↦ rw e (compare_with_previous-Explained p id (ground arith))
          ])
