-- ===== src/Storage/Integrity/Deletes.antt =====
-- Retention (internal/storage/retention.go) deletes exactly the expired polls and what belongs to
-- them, and keeps the tables valid.
use statlite.Time.{Time, before}
use statlite.Storage.Db.{Db, PollRow, SampleRow, EventRow, poll_keys}
use statlite.Storage.Retention.{delete_polls_before, run_cleanups, days_before}
use statlite.Storage.Integrity.{has_poll, IncreasesFrom, IsValid}
use statlite.Prelude.{
  ℕ, zero, suc, ◌+◌, ◌≤◌, ◌≡◌, refl, ap, leb, inl, inr, Bool, true, false, not, List, [], ◌∷◌,
  arith, ◌==◌, if◌then◌else◌, Bool-cases, length, filterb, All, All-filterb, All-filterb_of,
  All-every, anyb-filterb-not, length-filterb-not,
}

increases_mono : (lo hi : ℕ) (ks : List ℕ) → lo ≤ hi → IncreasesFrom hi ks → IncreasesFrom lo ks
increases_mono lo hi [] h k = tt
increases_mono lo hi (j ∷ ks) h k = (omega arith, k.1)

filterb-IncreasesFrom :
    (lo : ℕ) (p : PollRow → Bool) (ps : List PollRow)
    → IncreasesFrom lo (poll_keys ps)
    → IncreasesFrom lo (poll_keys (filterb p ps))
filterb-IncreasesFrom lo p [] h = tt
filterb-IncreasesFrom lo p (q ∷ qs) h = elim (Bool-cases (p q)) [
  | inl e ↦ rw e (h.0, filterb-IncreasesFrom (suc q.id) p qs h.1)
  | inr e ↦ rw e (
      filterb-IncreasesFrom lo p qs (increases_mono lo (suc q.id) (poll_keys qs) (omega arith) h.1))
]

module _ {ℓ} {R : Type ℓ} (key : R → ℕ) (gone : ℕ → Bool) where
  -- The rows of one key after the rows of the keys that are gone are deleted.
  rows-filterb :
      (id : ℕ) (rows : List R)
      → filterb (λ r. key r == id) (filterb (λ r. not (gone (key r))) rows)
        ≡ (if gone id then [] else filterb (λ r. key r == id) rows)
  rows-filterb id [] = ground arith
  rows-filterb id (r ∷ rows) = ground (arith, rows-filterb id rows)

kept_polls :
    (cutoff : Time) (ps : List PollRow)
    → filterb
        (λ (p : PollRow). leb cutoff p.started_at)
        (filterb (λ (p : PollRow). not (before p.started_at cutoff)) ps)
      ≡ filterb (λ (p : PollRow). leb cutoff p.started_at) ps
kept_polls cutoff [] = refl
kept_polls cutoff (p ∷ ps) = elim (Bool-cases (before p.started_at cutoff)) [
  | inl e ↦
      let old : leb cutoff p.started_at ≡ false = ground arith in rw (e, old) (kept_polls cutoff ps)
  | inr e ↦
      let new : leb cutoff p.started_at ≡ true = ground arith in
      simp (e, new) (ap (λ l. p ∷ l) (kept_polls cutoff ps))
]

module _ {F : Type 0} where
  abbrev pub expired : Db F → Time → List PollRow
  expired db cutoff = filterb (λ (p : PollRow). before p.started_at cutoff) db.polls

  still_there :
      (db : Db F) (cutoff : Time) (id : ℕ)
      → not (has_poll id (expired db cutoff)) ≡ true
      → has_poll id db.polls ≡ true
      → has_poll id (delete_polls_before db cutoff).1.polls ≡ true
  unfolding delete_polls_before
  still_there db cutoff id e h =
      anyb-filterb-not (λ p. p.id == id) (λ p. before p.started_at cutoff) db.polls h (ground arith)

  pub delete_polls_before-IsValid :
      (db : Db F) (cutoff : Time) → IsValid db → IsValid (delete_polls_before db cutoff).1
  unfolding delete_polls_before
  delete_polls_before-IsValid db cutoff v = record {
    poll_keys_increase =
        filterb-IncreasesFrom 1 (λ p. not (before p.started_at cutoff)) db.polls
          v.poll_keys_increase;
    polls_have_target = All-filterb _ _ db.polls v.polls_have_target;
    polls_have_run = All-filterb _ _ db.polls v.polls_have_run;
    samples_have_poll =
        All-filterb_of _ _ (λ r e q. still_there db cutoff r.poll_id e q) db.metric_samples
          v.samples_have_poll;
    events_have_poll =
        All-filterb_of _ _ (λ r e q. still_there db cutoff r.poll_id e q) db.collector_events
          v.events_have_poll;
  }

  -- Cleanup deletes exactly the polls that started before the cutoff, and counts them: every poll
  -- that is left started at or after it, the polls that did are all left, in their order, and the
  -- count and the polls left make up the earlier ones. Of every poll id it deletes all samples and
  -- events if a poll of that id is deleted, and else keeps them all. Targets and app runs stay.
  pub delete_polls_before_lem :
      (db : Db F) (cutoff : Time)
      → let (deleted, db') = delete_polls_before db cutoff in
        (deleted + length db'.polls ≡ length db.polls)
        × All (λ (p : PollRow). cutoff ≤ p.started_at) db'.polls
        × (filterb (λ (p : PollRow). leb cutoff p.started_at) db'.polls
            ≡ filterb (λ (p : PollRow). leb cutoff p.started_at) db.polls)
        × ((id : ℕ)
            → filterb (λ (r : SampleRow F). r.poll_id == id) db'.metric_samples ≡ (
                if has_poll id (expired db cutoff)
                then []
                else filterb (λ (r : SampleRow F). r.poll_id == id) db.metric_samples))
        × ((id : ℕ)
            → filterb (λ (r : EventRow). r.poll_id == id) db'.collector_events ≡ (
                if has_poll id (expired db cutoff)
                then []
                else filterb (λ (r : EventRow). r.poll_id == id) db.collector_events))
        × (db'.targets ≡ db.targets)
        × (db'.app_runs ≡ db.app_runs)
  unfolding delete_polls_before
  delete_polls_before_lem db cutoff = (
    length-filterb-not (λ (p : PollRow). before p.started_at cutoff) db.polls,
    All-filterb_of _ {Q = λ _. Unit {0}} (λ (p : PollRow). not (before p.started_at cutoff))
        (λ p e _. ground arith) db.polls (All-every _ (λ _. tt) db.polls),
    kept_polls cutoff db.polls,
    λ id. rows-filterb (λ r. r.poll_id) (λ k. has_poll k (expired db cutoff)) id db.metric_samples,
    λ id.
        rows-filterb (λ r. r.poll_id) (λ k. has_poll k (expired db cutoff)) id db.collector_events,
    refl,
    refl,
  )

  -- Through any sequence of cleanups the tables stay valid, and no poll is older than the cutoff
  -- that the server is told of.
  pub run_cleanups_sound :
      (db : Db F) (cutoff : Time) (days : ℕ) (times : List Time)
      → IsValid db
      → All (λ (p : PollRow). cutoff ≤ p.started_at) db.polls
      → let (db', cutoff') = run_cleanups db cutoff days times in
        IsValid db' × All (λ (p : PollRow). cutoff' ≤ p.started_at) db'.polls
  unfolding run_cleanups
  run_cleanups_sound db cutoff zero times v a = (v, a)
  run_cleanups_sound db cutoff (suc days) [] v a = (v, a)
  run_cleanups_sound db cutoff (suc days) (now ∷ times) v a =
      let c = days_before now (suc days) in
      run_cleanups_sound (delete_polls_before db c).1 c (suc days) times
        (delete_polls_before-IsValid db c v) ((delete_polls_before_lem db c).1)
