-- ===== src/Storage/Integrity.antt =====
-- What the schema's keys and references promise (internal/storage/schema.sql), as an invariant of
-- the tables. That the operations keep it is in the children.
pub mod Saves
pub mod Runs
pub mod Deletes
use statlite.Storage.Db.{Db, TargetRow, AppRunRow, PollRow, SampleRow, EventRow, poll_keys}
use statlite.Storage.Write.{run_exists}
use statlite.Prelude.{ℕ, suc, ◌≤◌, ◌≡◌, Bool, true, List, [], ◌∷◌, ◌==◌, anyb, All}

abbrev pub has_poll : ℕ → List PollRow → Bool
has_poll id polls = anyb (λ (p : PollRow). p.id == id) polls

abbrev pub has_target : ℕ → List TargetRow → Bool
has_target id targets = anyb (λ (t : TargetRow). t.id == id) targets

-- Keys from `lo` on that increase strictly: a new row's key is above all others.
abbrev pub IncreasesFrom : ℕ → List ℕ → Type 0
IncreasesFrom lo [] = Unit
IncreasesFrom lo (k ∷ ks) = (lo ≤ k) × IncreasesFrom (suc k) ks

module _ {F : Type 0} where
  pub record IsValid (db : Db F) : Type 0 where
    pub poll_keys_increase : IncreasesFrom 1 (poll_keys db.polls)
    pub polls_have_target : All (λ (p : PollRow). has_target p.target_id db.targets ≡ true) db.polls
    pub polls_have_run : All (λ (p : PollRow). run_exists p.app_run_id db.app_runs ≡ true) db.polls
    pub samples_have_poll :
        All (λ (r : SampleRow F). has_poll r.poll_id db.polls ≡ true) db.metric_samples
    pub events_have_poll :
        All (λ (r : EventRow). has_poll r.poll_id db.polls ≡ true) db.collector_events
