-- ===== src/Storage/Retention.antt =====
-- internal/storage/retention.go: the deletion of expired polls, with the samples and events that
-- go with them (ON DELETE CASCADE), and the cutoff that the server reads.
use statlite.Time.{Time, hour, before}
use statlite.Storage.Db.{Db, PollRow, SampleRow, EventRow}
use statlite.Prelude.{
  ℕ, zero, suc, ◌-◌, ◌*◌, Bool, not, List, [], ◌∷◌, ltb, ◌==◌, if◌then◌else◌, length, filterb, anyb,
}

module _ {F : Type 0} where
  -- The number of rows deleted and the database after it.
  unfoldable pub delete_polls_before : Db F → Time → ℕ × Db F
  delete_polls_before db cutoff =
      let expired = filterb (λ (p : PollRow). before p.started_at cutoff) db.polls in
      let is_kept : ℕ → Bool = λ id. not (anyb (λ (p : PollRow). p.id == id) expired) in
      (
        length expired,
        record db {
          polls = filterb (λ (p : PollRow). not (before p.started_at cutoff)) db.polls;
          metric_samples = filterb (λ (r : SampleRow F). is_kept r.poll_id) db.metric_samples;
          collector_events = filterb (λ (r : EventRow). is_kept r.poll_id) db.collector_events;
        },
      )

-- AddDate(0, 0, -days) in UTC, where a day has 24 hours.
unfoldable pub days_before : Time → ℕ → Time
days_before t days = t - days * (24 * hour)

-- The tracker's cutoff at the start: the zero time where retention is off.
unfoldable pub new_retention_cutoff : ℕ → Time → Time
unfolding days_before
new_retention_cutoff retention_days now =
    if ltb 0 retention_days then days_before now retention_days else 0

module _ {F : Type 0} where
  -- One cleanup: the database and the tracked cutoff after it.
  unfoldable pub cleanup_retention : Db F → Time → ℕ → Time → Db F × Time
  unfolding days_before delete_polls_before
  cleanup_retention db cutoff retention_days now =
      let new_cutoff = days_before now retention_days in
      ((delete_polls_before db new_cutoff).1, new_cutoff)

  -- The ticks of the cleanup loop, each at its own time; retention 0 turns the loop off.
  unfoldable pub run_cleanups : Db F → Time → ℕ → List Time → Db F × Time
  unfolding cleanup_retention
  run_cleanups db cutoff zero times = (db, cutoff)
  run_cleanups db cutoff (suc days) [] = (db, cutoff)
  run_cleanups db cutoff (suc days) (now ∷ times) =
      let s = cleanup_retention db cutoff (suc days) now in run_cleanups s.0 s.1 (suc days) times
