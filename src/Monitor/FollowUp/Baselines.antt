-- ===== src/Monitor/FollowUp/Baselines.antt =====
-- When a monitor polls a second time after its start (internal/monitor/monitor.go).
use statlite.Collector.Model.{MetricSample, is_counter}
use statlite.Result.{Result, ok, err, Result-cases}
use statlite.Float.{Float64}
use statlite.Storage.Types.{Snapshot}
use statlite.Monitor.State.{Store, Monitor}
use statlite.Monitor.Poll.{PollInput, PollReturn, poll_now}
use statlite.Monitor.FollowUp.{
  app_run_changed, has_counter_samples, has_counter_without_baseline, needs_startup_follow_up,
  counter_key_iff, load_successful_history, start_loop,
}
use statlite.Prelude.{
  ℕ, String, ◌≡◌, refl, Bool, false, not, ◌&&◌, ◌||◌, Option, none, some, List, [], ◌∷◌, arith,
  option_eq, anyb, allb, str_eq, is_some, true, if◌then◌else◌, Option-cases, Bool-cases, inl, inr,
  ◌∙◌, ap,
}

app_run_changed-option_eq : (a b : Option ℕ) → app_run_changed a b ≡ not (option_eq a b)
unfolding app_run_changed
app_run_changed-option_eq none none = refl
app_run_changed-option_eq none (some b) = refl
app_run_changed-option_eq (some a) none = refl
app_run_changed-option_eq (some a) (some b) = refl

module _ {F : Type 0} where
  -- Whether the samples have a counter of a key.
  abbrev pub has_counter : String → List (MetricSample F) → Bool
  has_counter key samples =
      anyb (λ (s : MetricSample F). is_counter s.kind && str_eq s.key key) samples

  -- A snapshot whose polls give a delta for every counter of `samples`.
  abbrev pub has_baselines : Option ℕ → List (MetricSample F) → Option (Snapshot F) → Bool
  has_baselines run samples none = false
  has_baselines run samples (some p) =
      option_eq p.app_run_id run
      && allb
          (λ (s : MetricSample F). not (is_counter s.kind) || has_counter s.key p.result.samples)
          samples

  without_baseline-allb :
      (previous current : List (MetricSample F))
      → has_counter_without_baseline previous current
        ≡ not (
            allb
              (λ (s : MetricSample F). not (is_counter s.kind) || has_counter s.key previous)
              current)
  unfolding has_counter_without_baseline
  without_baseline-allb previous [] = refl
  without_baseline-allb previous (s ∷ ss) =
      ground (arith, counter_key_iff s.key previous, without_baseline-allb previous ss)

  needs_startup_follow_up-has_baselines :
      (previous : Option (Snapshot F)) (current : Snapshot F) (failed : Bool)
      → needs_startup_follow_up previous (some current) failed ≡ (
          not failed
          && str_eq current.status "ok"
          && has_counter_samples current.result.samples
          && not (has_baselines current.app_run_id current.result.samples previous))
  unfolding needs_startup_follow_up
  needs_startup_follow_up-has_baselines none current failed = ground arith
  needs_startup_follow_up-has_baselines (some p) current failed = ground (
    arith,
    without_baseline-allb p.result.samples current.result.samples,
    app_run_changed-option_eq p.app_run_id current.app_run_id,
  )

  -- A first poll without an error whose ok snapshot has counters, some without a baseline in what is
  -- known of the history: `none` where the history could not be read.
  abbrev pub lacks_baselines : Option (Option (Snapshot F)) → Option (Snapshot F) → Bool → Bool
  lacks_baselines none current failed = false
  lacks_baselines (some previous) none failed = false
  lacks_baselines (some previous) (some current) failed =
      not failed
      && str_eq current.status "ok"
      && has_counter_samples current.result.samples
      && not (has_baselines current.app_run_id current.result.samples previous)

  needs_startup_follow_up-lacks_baselines :
      (previous current : Option (Snapshot F)) (failed : Bool)
      → needs_startup_follow_up previous current failed
        ≡ lacks_baselines (some previous) current failed
  unfolding needs_startup_follow_up
  needs_startup_follow_up-lacks_baselines previous none failed = refl
  needs_startup_follow_up-lacks_baselines previous (some current) failed =
      needs_startup_follow_up-has_baselines previous current failed

module _ {F S E : Type 0} (store : Store F S E) where
  -- The last success as the store has it, `some none` where there is none.
  abbrev pub stored_history : Result E (Snapshot F) → Option (Option (Snapshot F))
  stored_history (ok p) = some (some p)
  stored_history (err e) = if store.is_no_rows e then some none else none

  -- The last success that the monitor holds, else the store's.
  abbrev pub known_history : S → Monitor F → Option (Option (Snapshot F))
  known_history s m = elim m.previous [
    | some p ↦ some (some p)
    | none ↦ stored_history (store.latest_successful_snapshot s m.target_name)
  ]

-- A monitor that holds the success that is known.
abbrev pub with_history : {F : Type 0} → Monitor F → Option (Option (Snapshot F)) → Monitor F
with_history m (some (some p)) = record m { previous = some p }
with_history m (some none) = m
with_history m none = m

module _ {F S E : Type 0} ⦃fl : Float64 F⦄ (store : Store F S E) where
  -- The state after the first polls, and their number.
  abbrev pub follow_up : Bool → PollInput F → S × Monitor F × PollReturn F E → S × Monitor F × ℕ
  follow_up false second (s, m, out) = (s, m, 1)
  follow_up true second (s, m, out) = let (s', m', _) = poll_now store s m second in (s', m', 2)

  load_successful_history-known_history :
      (s : S) (m : Monitor F)
      → let (m₁, previous, loaded) = load_successful_history store s m in
        (m₁ ≡ with_history m (known_history store s m))
        × ((current : Option (Snapshot F)) (failed : Bool)
            → (loaded && needs_startup_follow_up previous current failed)
              ≡ lacks_baselines (known_history store s m) current failed)
  unfolding load_successful_history
  load_successful_history-known_history s m = elim (Option-cases m.previous) [
    | inr (p, e) ↦
        rw e
          (refl, λ current failed. needs_startup_follow_up-lacks_baselines (some p) current failed)
    | inl e ↦ elim (Result-cases (store.latest_successful_snapshot s m.target_name)) [
      | inl (p, f) ↦
          simp (load_successful_history, known_history, e, f)
            (
              refl,
              λ current failed. needs_startup_follow_up-lacks_baselines (some p) current failed,
            )
      | inr (x, f) ↦ elim (Bool-cases (store.is_no_rows x)) [
        | inl g ↦
            simp (load_successful_history, known_history, e, f, g)
              (refl, λ current failed. needs_startup_follow_up-lacks_baselines none current failed)
        | inr g ↦ simp (load_successful_history, known_history, e, f, g) (refl, λ _ _. refl)
      ]
    ]
  ]

  follow_up-if :
      (follows cancelled : Bool) (second : PollInput F) (polled : S × Monitor F × PollReturn F E)
      → (if follows
          then (if cancelled
              then (polled.0, polled.1, 1)
              else (let (s, m, _) = poll_now store polled.0 polled.1 second in (s, m, 2)))
          else (polled.0, polled.1, 1))
        ≡ follow_up (follows && not cancelled) second polled
  follow_up-if true true second polled = refl
  follow_up-if true false second polled = refl
  follow_up-if false cancelled second polled = refl

  follow_up-lacks_baselines :
      (s : S) (m : Monitor F) (previous : Option (Snapshot F)) (loaded : Bool)
      (known : Option (Option (Snapshot F))) (first second : PollInput F) (cancelled : Bool)
      → ((current : Option (Snapshot F)) (failed : Bool)
          → (loaded && needs_startup_follow_up previous current failed)
            ≡ lacks_baselines known current failed)
      → let polled = poll_now store s m first in
        let follows =
          loaded && needs_startup_follow_up previous polled.2.snapshot (is_some polled.2.error) in
        follow_up (follows && not cancelled) second polled
        ≡ follow_up
            (lacks_baselines known polled.2.snapshot (is_some polled.2.error) && not cancelled)
            second
            polled
  follow_up-lacks_baselines s m previous loaded known first second cancelled h =
      let polled = poll_now store s m first in
      ap (λ b. follow_up (b && not cancelled) second polled)
        (h polled.2.snapshot (is_some polled.2.error))

  -- A monitor that starts polls once, with the last success that it or the store knows. It polls a
  -- second time exactly when the context does not end before, the history could be read, the first
  -- poll returned an ok snapshot and no error, the snapshot has counters, and the history does not
  -- give every one of them a baseline: no earlier success, another run, or a counter that the earlier
  -- success lacks.
  pub start_loop-lacks_baselines :
      (s : S) (m : Monitor F) (first second : PollInput F) (cancelled : Bool)
      → let known = known_history store s m in
        let polled = poll_now store s (with_history m known) first in
        start_loop store s m first cancelled second
        ≡ follow_up
            (lacks_baselines known polled.2.snapshot (is_some polled.2.error) && not cancelled)
            second
            polled
  unfolding start_loop
  start_loop-lacks_baselines s m first second cancelled =
      let known = known_history store s m in
      let (m₁, previous, loaded) = load_successful_history store s m in
      let (same, needs) = load_successful_history-known_history s m in
      let polled = poll_now store s m₁ first in
      follow_up-if
        (loaded && needs_startup_follow_up previous polled.2.snapshot (is_some polled.2.error))
        cancelled second polled
      ∙ follow_up-lacks_baselines s m₁ previous loaded known first second cancelled needs
      ∙ ap
          (λ x.
            let out = poll_now store s x first in
            follow_up (lacks_baselines known out.2.snapshot (is_some out.2.error) && not cancelled)
              second out)
          same
