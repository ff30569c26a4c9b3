-- ===== src/Storage/Query/Latest.antt =====
-- Reading back what was saved (internal/storage/query.go and write.go), and the count of trailing
-- failures.
use statlite.Float.{Float64}
use statlite.Time.{Time}
use statlite.Collector.Model.{CollectionResult, MetricSample, CollectorEvent}
use statlite.Result.{ok}
use mathlib.Core.Path.{subst}
use statlite.Storage.Db.{
  Db, PollRow, SampleRow, EventRow, poll_keys, next_key, target_named, string_of,
  string_of-nullable,
}
use statlite.Storage.Db.Keys.{AllBelow, next_key-AllBelow}
use statlite.Storage.Write.{
  poll_status, poll_row, sample_rows, event_rows, save_collection_result_with_app_run,
}
use statlite.Storage.Integrity.{has_poll}
use statlite.Storage.Targets.{registered_target}
use statlite.Storage.Integrity.{has_poll, IsValid}
use statlite.Storage.Integrity.Saves.{save-Saved}
use statlite.Storage.Query.{
  is_newer, insert_newest, newest_first, polls_of, process_start_time, snapshot_of, has_status,
  latest_snapshot,
}
use statlite.Prelude.{
  ℕ, ◌≤◌, ◌<◌, String, ◌≡◌, refl, sym, ap, inl, inr, true, false, Option, some, List, [], ◌∷◌, ◌++◌,
  map, arith, ◌==◌, Option-cases, head?, filterb, All, All-filterb, All-of, filterb-append,
  is_blank,
}

head-insert_newest :
    (x : PollRow) (ps : List PollRow) (p : PollRow)
    → head? ps ≡ some p
    → is_newer x p ≡ false
    → head? (insert_newest x ps) ≡ some p
unfolding insert_newest
head-insert_newest x [] p h n = cc
head-insert_newest x (q ∷ qs) p h n = ground arith

-- A poll that is above all others by start and key comes first, though inserted last.
head-newest_first_append :
    (ps : List PollRow) (p : PollRow)
    → All (λ (q : PollRow). is_newer q p ≡ false) ps
    → head? (newest_first (ps ++ p ∷ [])) ≡ some p
unfolding newest_first
head-newest_first_append [] p h = unfold insert_newest in refl
head-newest_first_append (q ∷ qs) p h =
    head-insert_newest q (newest_first (qs ++ p ∷ [])) p (head-newest_first_append qs p h.1) h.0

pub filterb_all : (ps : List PollRow) → filterb (has_status "") ps ≡ ps
filterb_all [] = refl
filterb_all (p ∷ ps) = ap (λ qs. p ∷ qs) (filterb_all ps)

module _ {ℓ} {R : Type ℓ} (key : R → ℕ) where
  -- Rows of keys below `k` hold none of `k`.
  filterb-none :
      (k : ℕ) (rows : List R) → All (λ r. key r < k) rows → filterb (λ r. key r == k) rows ≡ []
  filterb-none k [] h = refl
  filterb-none k (r ∷ rows) h =
      let e : (key r == k) ≡ false = ground arith in rw e (filterb-none k rows h.1)

has_poll-below :
    (k id : ℕ) (ps : List PollRow) → AllBelow k (poll_keys ps) → has_poll id ps ≡ true → id < k
has_poll-below k id [] b h = cc
has_poll-below k id (p ∷ ps) b h = ground (arith, has_poll-below k id ps)

events_read_back :
    (k : ℕ) (events : List CollectorEvent)
    → map
        (λ (r : EventRow).
          let e : CollectorEvent = record {
            severity = r.severity;
            type = r.event_type;
            message = r.message;
            metric_key = string_of r.metric_key;
          } in
          e)
        (filterb (λ (r : EventRow). r.poll_id == k) (event_rows k events))
      ≡ events
events_read_back k [] = refl
events_read_back k (e ∷ es) =
    let h : (k == k) ≡ true = ground arith in
    rw (h, string_of-nullable e.metric_key, events_read_back k es)

module _ {F : Type 0} where
  samples_read_back :
      (k : ℕ) (samples : List (MetricSample F))
      → map
          (λ (r : SampleRow F).
            let s : MetricSample F = record {
              key = r.metric_key;
              kind = r.metric_kind;
              value = r.value;
              unit = string_of r.unit;
            } in
            s)
          (filterb (λ (r : SampleRow F). r.poll_id == k) (sample_rows k samples))
        ≡ samples
  samples_read_back k [] = refl
  samples_read_back k (s ∷ ss) =
      let e : (k == k) ≡ true = ground arith in
      rw (e, string_of-nullable s.unit, samples_read_back k ss)

AllBelow-polls :
    (k : ℕ) (ps : List PollRow) → AllBelow k (poll_keys ps) → All (λ (p : PollRow). p.id < k) ps
AllBelow-polls k [] h = tt
AllBelow-polls k (p ∷ ps) h = (h.0, AllBelow-polls k ps h.1)

none_newer :
    (p : PollRow) (ps : List PollRow)
    → All (λ (q : PollRow). q.id < p.id) ps
    → All (λ (q : PollRow). q.started_at ≤ p.started_at) ps
    → All (λ (q : PollRow). is_newer q p ≡ false) ps
none_newer p [] h k = tt
none_newer p (q ∷ qs) h k = (ground arith, none_newer p qs h.1 k.1)

module _ {F : Type 0} where
  polls_of-All :
      (db : Db F) (name : String) (P : PollRow → Type 0) → All P db.polls → All P (polls_of db name)
  unfolding polls_of
  polls_of-All db name P h = elim (Option-cases (target_named name db.targets)) [
    | inl e ↦ rw (e, polls_of) tt
    | inr (t, e) ↦ rw (e, polls_of) (All-filterb P _ db.polls h)
  ]

  polls_of-append :
      (db : Db F) (name : String) (t : ℕ × String) (p : PollRow) (ms : List (SampleRow F))
      (es : List EventRow)
      → registered_target db name ≡ ok t
      → p.target_id ≡ t.0
      → polls_of
          (record db { polls = db.polls ++ p ∷ []; metric_samples = ms; collector_events = es })
          name
        ≡ polls_of db name ++ p ∷ []
  unfolding polls_of registered_target
  polls_of-append db name t p ms es h k = elim (Option-cases (target_named name db.targets)) [
    | inl e ↦ absurd (ground arith)
    | inr (r, e) ↦
        let same : (p.target_id == r.id) ≡ true = ground arith in
        rw (e, polls_of)
          (rw (filterb-append (λ (q : PollRow). q.target_id == r.id) db.polls (p ∷ []), same))
  ]

module _ {F : Type 0} ⦃fl : Float64 F⦄ where
  -- The saved poll, read as a snapshot.
  snapshot_of-saved :
      (db : Db F) (result : CollectionResult F) (run : Option ℕ) (target k : ℕ)
      (start : Option Time)
      → All (λ (r : SampleRow F). r.poll_id < k) db.metric_samples
      → All (λ (r : EventRow). r.poll_id < k) db.collector_events
      → process_start_time db run ≡ ok start
      → snapshot_of
          (record db {
            polls = db.polls ++ poll_row k target run result ∷ [];
            metric_samples = db.metric_samples ++ sample_rows k result.samples;
            collector_events = db.collector_events ++ event_rows k result.events;
          })
          result.target_name
          (poll_row k target run result)
        ≡ ok (record {
          poll_id = k;
          target_id = target;
          app_run_id = run;
          status = (poll_status result.events).0;
          error_summary = (poll_status result.events).1;
          result = record result { counter_continuity_break = false; process_start_time = start };
        })
  unfolding snapshot_of process_start_time
  snapshot_of-saved db result run target k start hs he hp =
      rw
        (
          hp,
          filterb-append (λ (r : SampleRow F). r.poll_id == k) db.metric_samples
              (sample_rows k result.samples),
          filterb-none (λ (r : SampleRow F). r.poll_id) k db.metric_samples hs,
          samples_read_back k result.samples,
          filterb-append (λ (r : EventRow). r.poll_id == k) db.collector_events
              (event_rows k result.events),
          filterb-none (λ (r : EventRow). r.poll_id) k db.collector_events he,
          events_read_back k result.events,
          string_of-nullable (poll_status result.events).1,
          string_of-nullable result.metrics_source,
          string_of-nullable result.health_status,
          string_of-nullable result.db_health_status,
        )
        refl

  -- A valid database in which no poll of the target started later: after a result is saved, the
  -- target's latest snapshot is that poll with its run, the status and summary of its events, and
  -- the result as it was given, except that the continuity flag is not stored and the start time
  -- is the run's.
  pub save_then_latest :
      (db : Db F) (result : CollectionResult F) (run : Option ℕ) (id : ℕ) (db' : Db F)
      (start : Option Time)
      → IsValid db
      → is_blank result.target_name ≡ false
      → All
          (λ (p : PollRow). p.started_at ≤ result.poll_started_at)
          (polls_of db result.target_name)
      → save_collection_result_with_app_run db result run ≡ ok (id, db')
      → process_start_time db run ≡ ok start
      → (target : ℕ) × (latest_snapshot db' result.target_name
          ≡ ok (record {
            poll_id = id;
            target_id = target;
            app_run_id = run;
            status = (poll_status result.events).0;
            error_summary = (poll_status result.events).1;
            result = record result { counter_continuity_break = false; process_start_time = start };
          }))
  unfolding latest_snapshot
  save_then_latest db result run id db' start v named newest h hs =
      let s = save-Saved db result run h in
      let k = next_key (poll_keys db.polls) in
      let p = poll_row k s.target.0 run result in
      let below = next_key-AllBelow (poll_keys db.polls) in
      let ids = polls_of-All db result.target_name _ (AllBelow-polls k db.polls below) in
      let first =
        head-newest_first_append (polls_of db result.target_name) p (none_newer p _ ids newest) in
      subst
        (λ (o : ℕ × Db F).
          (target : ℕ) × (latest_snapshot o.1 result.target_name
            ≡ ok (record {
              poll_id = o.0;
              target_id = target;
              app_run_id = run;
              status = (poll_status result.events).0;
              error_summary = (poll_status result.events).1;
              result = record result {
                counter_continuity_break = false;
                process_start_time = start;
              };
            })))
        (sym s.out_eq)
        (
          s.target.0,
          rw
              (
                named,
                polls_of-append db result.target_name s.target p
                    (db.metric_samples ++ sample_rows k result.samples)
                    (db.collector_events ++ event_rows k result.events) s.registered refl,
                filterb_all (polls_of db result.target_name ++ p ∷ []),
                first,
              )
              (snapshot_of-saved db result run s.target.0 k start
                (All-of _ (λ r q. has_poll-below k r.poll_id db.polls below q) db.metric_samples
                  v.samples_have_poll)
                (All-of _ (λ r q. has_poll-below k r.poll_id db.polls below q) db.collector_events
                  v.events_have_poll)
                hs),
        )
