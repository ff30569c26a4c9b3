-- ===== src/Monitor/Poll/Writes.antt =====
-- What a poll writes to the store (internal/monitor/monitor.go): a property that every write keeps is
-- kept by a poll, on all of its paths. Over the tables: they stay valid.
use mathlib.Core.Path.{subst}
use statlite.Result.{ok, Result-cases}
use statlite.Float.{Float64}
use statlite.Time.{Time}
use statlite.Collector.Model.{CollectionResult}
use statlite.Storage.Db.{Db}
use statlite.Storage.Integrity.{IsValid}
use statlite.Storage.Integrity.Saves.{save-IsValid}
use statlite.Storage.Integrity.Runs.{ensure_app_run_sound, touch_app_run-IsValid}
use statlite.Monitor.State.{Store, Monitor}
use statlite.Monitor.Restart.{RunDecision, detect_app_run, clear_caddy_start}
use statlite.Monitor.Restart.Signals.{run_start, detect_app_run-continues_run}
use statlite.Monitor.Poll.{
  PollInput, add_restart_event, collected_result, collection_failed, store_result,
  collect_and_store, load_previous, poll_locked, poll_now,
}
use statlite.Monitor.Poll.Sequence.{run_polls}
use statlite.Monitor.Tables.{db_store}
use statlite.Prelude.{
  ℕ, String, ◌≡◌, sym, inl, inr, Option, none, some, List, [], ◌∷◌, arith, Bool-cases,
}

module _ {F S E : Type 0} (store : Store F S E) (P : S → Type 0) where
  -- Every write keeps the property.
  pub record Keeps : Type 0 where
    pub ensure :
        (s : S) (name : String) (start : Option Time) (at : Time) (id : ℕ) (s' : S)
        → P s
        → store.ensure_app_run s name start at ≡ ok (id, s')
        → P s'
    pub touch :
        (s : S) (id : ℕ) (at : Time) (s' : S) → P s → store.touch_app_run s id at ≡ ok s' → P s'
    pub save :
        (s : S) (r : CollectionResult F) (run : Option ℕ) (id : ℕ) (s' : S)
        → P s
        → store.save_collection_result_with_app_run s r run ≡ ok (id, s')
        → P s'

module _ {F S E : Type 0} ⦃fl : Float64 F⦄ (store : Store F S E) (P : S → Type 0)
    (k : Keeps store P) where
  detect_app_run-Keeps :
      (s : S) (m : Monitor F) (r : CollectionResult F) (d : RunDecision) (s' : S)
      → P s
      → detect_app_run store s m r ≡ ok (d, s')
      → P s'
  detect_app_run-Keeps s m r d s' p h = elim (detect_app_run-continues_run store s m r d s' h) [
    | inl (g, q, t) ↦ k.touch s d.app_run_id r.poll_started_at s' p t
    | inr (g, t) ↦ k.ensure s r.target_name (run_start r) r.poll_started_at d.app_run_id s' p t
  ]

  store_result-Keeps :
      (s : S) (m : Monitor F) (r : CollectionResult F) (e : Option String) (run : Option ℕ)
      → P s
      → P (store_result store s m r e run).0
  unfolding store_result
  store_result-Keeps s m r e run p =
      elim (Result-cases (store.save_collection_result_with_app_run s r run)) [
        | inr (x, q) ↦ rw (q, store_result) p
        | inl ((id, s'), q) ↦
            let p' = k.save s r run id s' p q in
            elim (Result-cases (store.latest_snapshot s' m.target_name)) [
              | inr (x, q') ↦ rw (q, q', store_result) p'
              | inl (sn, q') ↦ elim (Bool-cases (collection_failed r e)) [
                | inl f ↦ rw (q, q', f, store_result) p'
                | inr f ↦ rw (q, q', f, store_result) p'
              ]
            ]
      ]

  collect_and_store-Keeps :
      (s : S) (m : Monitor F) (i : PollInput F) → P s → P (collect_and_store store s m i).0
  unfolding collect_and_store
  collect_and_store-Keeps s m i p =
      let c = collected_result m.target_name i.now i.collected in
      elim (Bool-cases (collection_failed c.0 c.1)) [
        | inl f ↦ rw (f, collect_and_store) (store_result-Keeps s m c.0 c.1 none p)
        | inr f ↦ elim (Result-cases (detect_app_run store s m c.0)) [
          | inr (x, e) ↦ rw (f, e, collect_and_store) p
          | inl ((d, s'), e) ↦
              rw (f, e, collect_and_store)
                (store_result-Keeps s' m (add_restart_event d (clear_caddy_start c.0)) c.1
                  (some d.app_run_id) (detect_app_run-Keeps s m c.0 d s' p e))
        ]
      ]

  poll_locked-Keeps :
      (s : S) (m : Monitor F) (i : PollInput F) → P s → P (poll_locked store s m i).0
  unfolding poll_locked
  poll_locked-Keeps s m i p = elim (Result-cases (load_previous store s m)) [
    | inr (x, e) ↦ rw (e, poll_locked) p
    | inl (m', e) ↦ rw (e, poll_locked) (collect_and_store-Keeps s m' i p)
  ]

  poll_now-Keeps : (s : S) (m : Monitor F) (i : PollInput F) → P s → P (poll_now store s m i).0
  unfolding poll_now
  poll_now-Keeps s m i p = elim (Bool-cases m.no_poll) [
    | inl e ↦ let eq : (poll_now store s m i).0 ≡ s = ground arith in subst P (sym eq) p
    | inr e ↦
        let eq : (poll_now store s m i).0 ≡ (poll_locked store s m i).0 = ground arith in
        subst P (sym eq) (poll_locked-Keeps s m i p)
  ]

  run_polls-Keeps :
      (s : S) (m : Monitor F) (is : List (PollInput F)) → P s → P (run_polls store s m is).0
  run_polls-Keeps s m [] p = p
  run_polls-Keeps s m (i ∷ is) p =
      let (s', m', out) = poll_now store s m i in run_polls-Keeps s' m' is (poll_now-Keeps s m i p)

-- Any sequence of polls, whatever the collector answers and on every error path, keeps the tables
-- valid: the keys of polls increase, and every poll, sample and event refers to rows that exist.
pub run_polls-IsValid :
    {F : Type 0}
    → ⦃fl : Float64 F⦄ → (db : Db F) (m : Monitor F) (is : List (PollInput F)) → IsValid db
    → IsValid (run_polls db_store db m is).0
run_polls-IsValid db m is v =
    run_polls-Keeps db_store IsValid
      (record {
        ensure = λ s name start at id s' p h. (ensure_app_run_sound s name start at id s' p h).3;
        touch = λ s id at s' p h. touch_app_run-IsValid s id at s' p h;
        save = λ s r run id s' p h. save-IsValid s r run id s' p h;
      })
      db m is v
