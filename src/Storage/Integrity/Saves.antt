-- ===== src/Storage/Integrity/Saves.antt =====
-- Saving a collection result, ensuring and touching app runs (internal/storage/write.go) keep the
-- tables valid.
use mathlib.Core.List.{map-append}
use statlite.Result.{ok, Result-cases}
use statlite.Float.{Float64}
use statlite.Collector.Model.{CollectionResult}
use statlite.Storage.Db.{Db, TargetRow, PollRow, poll_keys, next_key, target_named}
use statlite.Storage.Db.Keys.{AllBelow, next_key-AllBelow}
use statlite.Storage.Targets.{registered_target}
use statlite.Storage.Write.{
  run_exists, sample_rows, event_rows, poll_row, is_sample_storable, is_event_storable,
  save_collection_result_with_app_run,
}
use statlite.Storage.Integrity.{has_poll, has_target, IncreasesFrom, IsValid}
use statlite.Prelude.{
  ℕ, suc, ◌≤◌, String, ◌≡◌, ap, inl, inr, true, false, Option, some, List, [], ◌∷◌, ◌++◌, arith,
  ◌==◌, Option-cases, allb, All-append, All-of, All-every, All-map, anyb-append, is_empty,
}

append-IncreasesFrom :
    (lo k : ℕ) (ks : List ℕ)
    → IncreasesFrom lo ks
    → AllBelow k ks
    → lo ≤ k
    → IncreasesFrom lo (ks ++ k ∷ [])
append-IncreasesFrom lo k [] h b l = (l, tt)
append-IncreasesFrom lo k (j ∷ ks) h b l = (h.0, append-IncreasesFrom (suc j) k ks h.1 b.1 b.0)

target_named-has_target :
    (name : String) (rows : List TargetRow) (r : TargetRow)
    → target_named name rows ≡ some r
    → has_target r.id rows ≡ true
target_named-has_target name [] r h = cc
target_named-has_target name (x ∷ xs) r h = ground (arith, target_named-has_target name xs r)

one-le-next_key : (ks : List ℕ) → 1 ≤ next_key ks
unfolding next_key
one-le-next_key ks = omega arith

has_poll-append :
    (id : ℕ) (ps : List PollRow) (q : PollRow)
    → has_poll id ps ≡ true
    → has_poll id (ps ++ q ∷ []) ≡ true
has_poll-append id ps q h = ground (arith, anyb-append (λ (p : PollRow). p.id == id) ps (q ∷ []))

has_poll-new : (ps : List PollRow) (q : PollRow) → has_poll q.id (ps ++ q ∷ []) ≡ true
has_poll-new ps q = ground (arith, anyb-append (λ (p : PollRow). p.id == q.id) ps (q ∷ []))

module _ {F : Type 0} where
  registered-has_target :
      (db : Db F) (name : String) {t : ℕ × String}
      → registered_target db name ≡ ok t
      → has_target t.0 db.targets ≡ true
  unfolding registered_target
  registered-has_target db name {t} h = elim (Option-cases (target_named name db.targets)) [
    | inl e ↦ ground arith
    | inr (r, e) ↦ ground (arith, target_named-has_target name db.targets r)
  ]

module _ {F : Type 0} ⦃fl : Float64 F⦄ where
  -- What a successful save did.
  pub record Saved (db : Db F) (result : CollectionResult F) (run : Option ℕ) (out : ℕ × Db F)
      : Type 0 where
    pub target : ℕ × String
    pub registered : registered_target db result.target_name ≡ ok target
    pub named : is_empty result.target_name ≡ false
    pub run_known : run_exists run db.app_runs ≡ true
    pub samples_storable : allb is_sample_storable result.samples ≡ true
    pub events_storable : allb is_event_storable result.events ≡ true
    pub out_eq : out ≡ (
      next_key (poll_keys db.polls),
      record db {
        polls = db.polls ++ poll_row (next_key (poll_keys db.polls)) target.0 run result ∷ [];
        metric_samples =
            db.metric_samples ++ sample_rows (next_key (poll_keys db.polls)) result.samples;
        collector_events =
            db.collector_events ++ event_rows (next_key (poll_keys db.polls)) result.events;
      },
    )

  pub save-Saved :
      (db : Db F) (result : CollectionResult F) (run : Option ℕ) {out : ℕ × Db F}
      → save_collection_result_with_app_run db result run ≡ ok out
      → Saved db result run out
  unfolding save_collection_result_with_app_run
  save-Saved db result run {out} h = elim (Result-cases (registered_target db result.target_name)) [
    | inl (t, e) ↦ record {
      target = t;
      registered = e;
      named = ground arith;
      run_known = ground arith;
      samples_storable = ground arith;
      events_storable = ground arith;
      out_eq = ground arith;
    }
    | inr (x, e) ↦ ground arith
  ]

  -- Saving a result into valid tables keeps them valid: the new poll's key is above all others, and
  -- the poll, its samples and its events refer to rows that exist.
  pub save-IsValid :
      (db : Db F) (result : CollectionResult F) (run : Option ℕ) (id : ℕ) (db' : Db F)
      → IsValid db
      → save_collection_result_with_app_run db result run ≡ ok (id, db')
      → IsValid db'
  save-IsValid db result run id db' v h =
      let s = save-Saved db result run h in
      let k = next_key (poll_keys db.polls) in
      let row : ℕ → PollRow = λ t. poll_row k t run result in
      rw (ap (λ (o : ℕ × Db F). o.1) s.out_eq) (record {
        poll_keys_increase =
            rw (map-append (λ (p : PollRow). p.id) db.polls (row s.target.0 ∷ [])) (
              append-IncreasesFrom 1 k (poll_keys db.polls) v.poll_keys_increase
                (next_key-AllBelow (poll_keys db.polls)) (one-le-next_key (poll_keys db.polls)));
        polls_have_target =
            All-append _ db.polls (row s.target.0 ∷ []) v.polls_have_target
              (registered-has_target db result.target_name s.registered, tt);
        polls_have_run =
            All-append _ db.polls (row s.target.0 ∷ []) v.polls_have_run (s.run_known, tt);
        samples_have_poll =
            All-append _ db.metric_samples (sample_rows k result.samples)
              (All-of _ (λ r q. has_poll-append r.poll_id db.polls (row s.target.0) q)
                db.metric_samples v.samples_have_poll)
              (All-map _ _ result.samples
                (All-every _ (λ _. has_poll-new db.polls (row s.target.0)) result.samples));
        events_have_poll =
            All-append _ db.collector_events (event_rows k result.events)
              (All-of _ (λ r q. has_poll-append r.poll_id db.polls (row s.target.0) q)
                db.collector_events v.events_have_poll)
              (All-map _ _ result.events
                (All-every _ (λ _. has_poll-new db.polls (row s.target.0)) result.events));
      })
