-- ===== src/Monitor/Poll/Stored.antt =====
-- A poll over the tables that succeeds (internal/monitor/monitor.go, internal/storage): what is needed
-- for it, and what is stored and returned.
use mathlib.Core.Path.{subst}
use statlite.Result.{ok, ok_injective}
use statlite.Float.{Float64}
use statlite.Time.{Time}
use statlite.Collector.Model.{CollectionResult, CollectorEvent, is_error}
use statlite.Storage.Types.{Snapshot}
use statlite.Storage.Db.{Db, AppRunRow, PollRow}
use statlite.Storage.Targets.{registered_target}
use statlite.Storage.Write.{is_sample_storable, is_event_storable}
use statlite.Storage.Integrity.{IsValid}
use statlite.Storage.Integrity.Runs.{
  has_run, ensure_app_run_sound, touch_app_run-IsValid, touch_app_run_lem,
  ensure_app_run-registered,
}
use statlite.Storage.Query.{polls_of, latest_snapshot}
use statlite.Monitor.State.{Store, Monitor, record_success}
use statlite.Monitor.Restart.{RunDecision, has_error_event, detect_app_run, clear_caddy_start}
use statlite.Monitor.Restart.Signals.{run_of, run_start, detect_app_run-continues_run}
use statlite.Monitor.Poll.{
  add_restart_event, restart_event, collected_result, collection_failed, store_result,
  collect_and_store, load_previous, poll_locked, poll_now,
}
use statlite.Monitor.Poll.Outcome.{collection_failed-add_restart_event}
use statlite.Monitor.Tables.{db_store}
use statlite.Prelude.{
  ℕ, ◌≤◌, String, ◌≡◌, refl, sym, ap, ◌∙◌, inl, inr, Bool, true, false, ◌&&◌, Option, none, some,
  List, [], ◌∷◌, ◌++◌, arith, Bool-cases, is_some, All, allb, anyb-append, is_empty, is_blank,
}
use statlite.Storage.Query.Stored.{IsStored, result-IsStored}
use statlite.Monitor.Restart.Explained.{detect_app_run-Explained}

allb-append :
    (test : CollectorEvent → Bool) (xs ys : List CollectorEvent)
    → allb test (xs ++ ys) ≡ (allb test xs && allb test ys)
allb-append test [] ys = refl
allb-append test (x ∷ xs) ys = ground (arith, allb-append test xs ys)

module _ {F S E : Type 0} ⦃fl : Float64 F⦄ (store : Store F S E) where
  store_result-saved :
      (s : S) (m : Monitor F) (r : CollectionResult F) (run : Option ℕ) (id : ℕ) (s' : S)
      (sn : Snapshot F)
      → store.save_collection_result_with_app_run s r run ≡ ok (id, s')
      → store.latest_snapshot s' m.target_name ≡ ok sn
      → collection_failed r none ≡ false
      → store_result store s m r none run ≡ (
        s',
        record_success m r.poll_finished_at id sn,
        record { snapshot = some sn; error = none },
      )
  unfolding store_result
  store_result-saved s m r run id s' sn h k f = rw (h, k, f, store_result) refl

  poll_now-store_result :
      (s : S) (m : Monitor F) (p : Snapshot F) (r : CollectionResult F) (now : Time)
      (d : RunDecision) (s' : S)
      → m.no_poll ≡ false
      → m.previous ≡ some p
      → collection_failed r none ≡ false
      → detect_app_run store s m r ≡ ok (d, s')
      → poll_now store s m
          (record { collected = record { result = some r; error = none }; now = now })
        ≡ store_result store s' m
            (add_restart_event d (clear_caddy_start r))
            none
            (some d.app_run_id)
  unfolding poll_now poll_locked load_previous collect_and_store collected_result
  poll_now-store_result s m p r now d s' e q f h = ground arith

module _ {F : Type 0} ⦃fl : Float64 F⦄ where
  -- The database after the run of a result is found.
  detect_app_run-has_run :
      (db : Db F) (m : Monitor F) (r : CollectionResult F) (d : RunDecision) (db' : Db F)
      → IsValid db
      → ((id : ℕ) → run_of m.previous ≡ some id → has_run id db.app_runs ≡ true)
      → detect_app_run db_store db m r ≡ ok (d, db')
      → IsValid db'
        × (has_run d.app_run_id db'.app_runs ≡ true)
        × (db' ≡ record db { app_runs = db'.app_runs })
  detect_app_run-has_run db m r d db' v known h =
      elim (detect_app_run-continues_run db_store db m r d db' h) [
        | inl (g, q, t) ↦
            let (db'', t', has, same) =
              touch_app_run_lem db d.app_run_id r.poll_started_at (known d.app_run_id q) in
            let eq : db'' ≡ db' = ok_injective (sym t' ∙ t) in
            (
              touch_app_run-IsValid db d.app_run_id r.poll_started_at db' v t,
              subst (λ (o : Db F). has_run d.app_run_id o.app_runs ≡ true) eq has,
              subst (λ (o : Db F). o ≡ record db { app_runs = o.app_runs }) eq same,
            )
        | inr (g, t) ↦
            let (has, _, same, v') =
              ensure_app_run_sound db r.target_name (run_start r) r.poll_started_at d.app_run_id db'
                v t in
            (v', has, same)
      ]

  -- What the poll changes of a result before it is saved: its start time and one more warning.
  final_fields :
      (d : RunDecision) (r : CollectionResult F)
      → let r' = add_restart_event d (clear_caddy_start r) in
        (r'.target_name ≡ r.target_name)
        × (r'.poll_started_at ≡ r.poll_started_at)
        × (r'.poll_finished_at ≡ r.poll_finished_at)
        × (r'.samples ≡ r.samples)
        × ((d.restart_detected ≡ true → is_empty d.reason ≡ false)
            → allb is_event_storable r.events ≡ true
            → allb is_event_storable r'.events ≡ true)
  unfolding clear_caddy_start
  final_fields d r = elim (Bool-cases d.restart_detected) [
    | inl e ↦ (
      ground arith,
      ground arith,
      ground arith,
      ground arith,
      λ k h. ground (arith, allb-append is_event_storable r.events (restart_event d.reason ∷ [])),
    )
    | inr e ↦ (ground arith, ground arith, ground arith, ground arith, λ k h. ground arith)
  ]

  has_error_event-add_restart_event :
      (d : RunDecision) (r : CollectionResult F)
      → has_error_event (add_restart_event d (clear_caddy_start r)).events
        ≡ has_error_event r.events
  unfolding has_error_event clear_caddy_start
  has_error_event-add_restart_event d r = ground (
    arith,
    anyb-append (λ (x : CollectorEvent). is_error x.severity) r.events
        (restart_event d.reason ∷ []),
  )

  collection_failed-none :
      (r : CollectionResult F) → has_error_event r.events ≡ false → collection_failed r none ≡ false
  unfolding collection_failed
  collection_failed-none r h = h

  final-IsStored :
      (db : Db F) (rows : List AppRunRow) (d : RunDecision) (result : CollectionResult F)
      (t : ℕ × String)
      → IsValid (record db { app_runs = rows })
      → has_run d.app_run_id rows ≡ true
      → (d.restart_detected ≡ true → is_empty d.reason ≡ false)
      → is_blank result.target_name ≡ false
      → registered_target db result.target_name ≡ ok t
      → All
          (λ (q : PollRow). q.started_at ≤ result.poll_started_at)
          (polls_of db result.target_name)
      → has_error_event result.events ≡ false
      → allb is_sample_storable result.samples ≡ true
      → allb is_event_storable result.events ≡ true
      → IsStored
          (record db { app_runs = rows })
          (add_restart_event d (clear_caddy_start result))
          (some d.app_run_id)
  unfolding registered_target polls_of has_error_event
  final-IsStored db rows d result t v has explained named reg newest no_error ss es =
      let r = add_restart_event d (clear_caddy_start result) in
      let f = final_fields d result in
      result-IsStored (record db { app_runs = rows }) r d.app_run_id t v has
        (ap is_blank f.0 ∙ named) (ap (λ n. registered_target db n) f.0 ∙ reg)
        (subst (λ n. All (λ (q : PollRow). q.started_at ≤ r.poll_started_at) (polls_of db n))
          (sym f.0)
          (subst (λ at. All (λ (q : PollRow). q.started_at ≤ at) (polls_of db result.target_name))
            (sym f.1) newest))
        (has_error_event-add_restart_event d result ∙ no_error)
        (ap (λ ss'. allb is_sample_storable ss') f.3 ∙ ss) (f.4 explained es)

  -- If polling is enabled, the monitor has a previous snapshot whose run, if any, is in the tables,
  -- the tables are valid, the target is registered, no poll of it started later, and the result
  -- can be stored and has no error event: the poll is recorded as a success and returns no error,
  -- but a snapshot that is ok, belongs to a run and holds the samples of the result.
  pub poll_now-record_success :
      (db : Db F) (m : Monitor F) (p : Snapshot F) (result : CollectionResult F) (now : Time)
      (t : ℕ × String)
      → IsValid db
      → m.no_poll ≡ false
      → m.previous ≡ some p
      → ((id : ℕ) → run_of m.previous ≡ some id → has_run id db.app_runs ≡ true)
      → m.target_name ≡ result.target_name
      → is_blank result.target_name ≡ false
      → registered_target db result.target_name ≡ ok t
      → All
          (λ (q : PollRow). q.started_at ≤ result.poll_started_at)
          (polls_of db result.target_name)
      → has_error_event result.events ≡ false
      → allb is_sample_storable result.samples ≡ true
      → allb is_event_storable result.events ≡ true
      → (db' : Db F) × (sn : Snapshot F) × (poll_now db_store db m
            (record { collected = record { result = some result; error = none }; now = now })
          ≡ (
            db',
            record_success m result.poll_finished_at sn.poll_id sn,
            record { snapshot = some sn; error = none },
          ))
        × (sn.status ≡ "ok")
        × (is_some sn.app_run_id ≡ true)
        × (sn.result.samples ≡ result.samples)
  poll_now-record_success db m p result now t v enabled prev known same_name named reg newest
        no_error ss es =
      let (d, db₁, found, explained) =
        detect_app_run-Explained db_store db m result
          (λ start.
            ensure_app_run-registered db result.target_name start result.poll_started_at t named
              reg)
          (λ id q.
            let (db'', e, _, _) = touch_app_run_lem db id result.poll_started_at (known id q) in
            (db'', e)) in
      let (v₁, has, only_runs) = detect_app_run-has_run db m result d db₁ v known found in
      let r = add_restart_event d (clear_caddy_start result) in
      let f = final_fields d result in
      let (db', sn, saved, latest, status, run, samples) =
        subst (λ (o : Db F). IsStored o r (some d.app_run_id)) (sym only_runs)
          (final-IsStored db db₁.app_runs d result t (subst IsValid only_runs v₁) has explained
            named reg newest no_error ss es) in
      let fine = collection_failed-none result no_error in
      (
        db',
        sn,
        poll_now-store_result db_store db m p result now d db₁ enabled prev fine found
            ∙ store_result-saved db_store db₁ m r (some d.app_run_id) sn.poll_id db' sn saved
                (ap (λ n. latest_snapshot db' n) (same_name ∙ sym f.0) ∙ latest)
                (collection_failed-add_restart_event d result none ∙ fine)
            ∙ ap
                (λ at. (
                  db',
                  record_success m at sn.poll_id sn,
                  record { snapshot = some sn; error = none },
                ))
                f.2,
        status,
        ap is_some run,
        samples ∙ f.3,
      )
