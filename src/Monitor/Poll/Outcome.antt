-- ===== src/Monitor/Poll/Outcome.antt =====
-- How a poll counts: as a success or as a failure (internal/monitor/monitor.go).
use statlite.Time.{Time}
use statlite.Collector.Model.{CollectionResult, CollectorEvent, is_error}
use statlite.Storage.Types.{Snapshot}
use statlite.Monitor.State.{Monitor, record_success, record_failure, or_latest}
use statlite.Monitor.Restart.{RunDecision, has_error_event, clear_caddy_start}
use statlite.Monitor.Poll.{PollReturn, add_restart_event, restart_event, collection_failed}
use statlite.Prelude.{
  ℕ, ◌+◌, String, ◌≡◌, refl, ◌⊎◌, Bool, true, false, ◌||◌, Option, none, some, [], ◌∷◌, arith,
  is_some, anyb-append,
}

module _ {F : Type 0} where
  -- The warning of a restart is no error, and the start time does not matter.
  pub collection_failed-add_restart_event :
      (d : RunDecision) (r : CollectionResult F) (e : Option String)
      → collection_failed (add_restart_event d (clear_caddy_start r)) e ≡ collection_failed r e
  unfolding collection_failed has_error_event clear_caddy_start
  collection_failed-add_restart_event d r e = ground (
    arith,
    anyb-append (λ (x : CollectorEvent). is_error x.severity) r.events
        (restart_event d.reason ∷ []),
  )

  -- What a poll kept of the configuration.
  abbrev pub SameTarget : Monitor F → Monitor F → Type 0
  SameTarget m m' = (m'.target_name ≡ m.target_name) × (m'.no_poll ≡ m.no_poll)

module _ {F : Type 0} where
  pub record_failure-SameTarget :
      (m : Monitor F) (at : Time) (id : ℕ) (summary : String) (o : Option (Snapshot F))
      (r : Option (CollectionResult F))
      → SameTarget m (record_failure m at id summary o r)
  unfolding record_failure
  record_failure-SameTarget m at id summary o r = (refl, refl)

  pub record_success-SameTarget :
      (m : Monitor F) (at : Time) (id : ℕ) (sn : Snapshot F)
      → SameTarget m (record_success m at id sn)
  unfolding record_success
  record_success-SameTarget m at id sn = (refl, refl)

module _ {F E : Type 0} where
  -- A poll that was recorded as a success.
  pub record Succeeded (m m' : Monitor F) (out : PollReturn F E) : Type 0 where
    pub snapshot : Snapshot F
    pub returned : out ≡ record { snapshot = some snapshot; error = none }
    pub latest : m'.latest ≡ some snapshot
    pub previous : m'.previous ≡ some snapshot
    pub no_failures : m'.status.consecutive_poll_failures ≡ 0
    pub no_summary : m'.status.last_poll_error_summary ≡ ""
    pub polled : is_some m'.status.last_poll_at ≡ true
    pub success_is_last : m'.status.last_successful_poll_at ≡ m'.status.last_poll_at
    pub stored_is_last : m'.status.last_successful_stored_poll_id ≡ m'.status.last_stored_poll_id
    pub failure_kept : m'.status.last_failed_poll_at ≡ m.status.last_failed_poll_at

  -- A poll that was recorded as a failure.
  pub record Failed (m m' : Monitor F) (out : PollReturn F E) : Type 0 where
    pub one_more : m'.status.consecutive_poll_failures ≡ m.status.consecutive_poll_failures + 1
    pub polled : is_some m'.status.last_poll_at ≡ true
    pub failure_is_last : m'.status.last_failed_poll_at ≡ m'.status.last_poll_at
    pub success_kept : m'.status.last_successful_poll_at ≡ m.status.last_successful_poll_at
    pub stored_kept :
        m'.status.last_successful_stored_poll_id ≡ m.status.last_successful_stored_poll_id
    pub latest : m'.latest ≡ or_latest out.snapshot m.latest
    pub previous_kept : is_some m.previous ≡ true → m'.previous ≡ m.previous

  abbrev pub Outcome : Bool → Monitor F → Monitor F → PollReturn F E → Type 0
  Outcome failed m m' out =
      SameTarget m m'
      × (((failed ≡ false) × Succeeded m m' out)
          ⊎ (((failed || is_some out.error) ≡ true) × Failed m m' out))

module _ {F E : Type 0} where
  pub record_failure-Failed :
      (m : Monitor F) (at : Time) (id : ℕ) (summary : String) (r : Option (CollectionResult F))
      (out : PollReturn F E)
      → Failed m (record_failure m at id summary out.snapshot r) out
  unfolding record_failure
  record_failure-Failed m at id summary r out = record {
    one_more = refl;
    polled = refl;
    failure_is_last = refl;
    success_kept = refl;
    stored_kept = refl;
    latest = refl;
    previous_kept = λ _. refl;
  }

  pub record_success-Succeeded :
      (m : Monitor F) (at : Time) (id : ℕ) (sn : Snapshot F)
      → Succeeded {E = E} m
          (record_success m at id sn)
          (record { snapshot = some sn; error = none })
  unfolding record_success
  record_success-Succeeded m at id sn = record {
    snapshot = sn;
    returned = refl;
    latest = refl;
    previous = refl;
    no_failures = refl;
    no_summary = refl;
    polled = refl;
    success_is_last = refl;
    stored_is_last = refl;
    failure_kept = refl;
  }
