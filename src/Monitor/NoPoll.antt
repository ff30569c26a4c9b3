-- ===== src/Monitor/NoPoll.antt =====
-- internal/monitor/monitor.go: the state that a monitor restores where polling is disabled.
pub mod Restored
use statlite.Result.{Result, ok, err, ◌>>=◌}
use statlite.Time.{Time}
use statlite.Storage.Types.{Snapshot}
use statlite.Monitor.State.{Store, Monitor, health_observation}
use statlite.Prelude.{ℕ, true, not, Option, none, some, if◌then◌else◌, str_eq}

module _ {F S E : Type 0} (store : Store F S E) where
  -- A value that may be missing: no row is no error.
  unfoldable pub optional : {A : Type 0} → Result E A → Result E (Option A)
  optional (ok a) = ok (some a)
  optional (err e) = if store.is_no_rows e then ok none else err e

  abbrev pub restore : Monitor F → Snapshot F → Option (Snapshot F) → ℕ → Option Time → Monitor F
  restore m snapshot successful failed_polls last_failed_at =
      let failed = not (str_eq snapshot.status "ok") in
      record m {
        latest = some snapshot;
        health = health_observation (some snapshot.result);
        previous = elim successful [ none ↦ m.previous | some p ↦ some p ];
        status = record {
          last_poll_at = some snapshot.result.poll_finished_at;
          last_successful_poll_at = elim successful [
            | none ↦ m.status.last_successful_poll_at
            | some p ↦ some p.result.poll_finished_at
          ];
          last_failed_poll_at = elim last_failed_at [
            | none ↦ m.status.last_failed_poll_at
            | some at ↦ some at
          ];
          consecutive_poll_failures =
              if failed then failed_polls else m.status.consecutive_poll_failures;
          last_poll_error_summary =
              if failed then snapshot.error_summary else m.status.last_poll_error_summary;
          last_stored_poll_id = snapshot.poll_id;
          last_successful_stored_poll_id = elim successful [
            | none ↦ m.status.last_successful_stored_poll_id
            | some p ↦ p.poll_id
          ];
        };
      }

  -- The other three reads, once there is a latest snapshot.
  unfoldable pub load_restored : S → Monitor F → Snapshot F → Result E (Monitor F)
  load_restored s m snapshot = do
    successful ← optional (store.latest_successful_snapshot s m.target_name)
    failed_polls ← store.trailing_failed_polls s m.target_name
    last_failed_at ← optional (store.latest_failed_poll_at s m.target_name)
    ok (restore m snapshot successful failed_polls last_failed_at)

  -- `EnableNoPoll`: the monitor after the call, whose polling is disabled on every path, and the
  -- error.
  unfoldable pub enable_no_poll : S → Monitor F → Monitor F × Option E
  enable_no_poll s m₀ =
      let m : Monitor F = record m₀ { no_poll = true } in
      elim (store.latest_snapshot s m.target_name) [
        | err e ↦ (m, if store.is_no_rows e then none else some e)
        | ok snapshot ↦ elim (load_restored s m snapshot) [
          | ok m' ↦ (m', none)
          | err e ↦ (m, some e)
        ]
      ]
