-- ===== src/Monitor/Tables.antt =====
-- The monitor over the tables of internal/storage: the store's operations are those of
-- Storage.Query and Storage.Write.
use statlite.Float.{Float64}
use statlite.Storage.Db.{Db, StoreError, no_rows}
use statlite.Storage.Write.{ensure_app_run, touch_app_run, save_collection_result_with_app_run}
use statlite.Storage.Query.{
  latest_snapshot, latest_successful_snapshot, latest_failed_poll_at, trailing_failed_polls,
}
use statlite.Monitor.State.{Store}
use statlite.Prelude.{Bool, true, false}

-- errors.Is(err, sql.ErrNoRows)
abbrev pub is_no_rows : StoreError → Bool
is_no_rows no_rows = true
is_no_rows _ = false

-- The store that a monitor is given. The texts of the errors do not matter here.
abbrev pub db_store : {F : Type 0} → ⦃fl : Float64 F⦄ → Store F (Db F) StoreError
db_store = record {
  latest_snapshot = latest_snapshot;
  latest_successful_snapshot = latest_successful_snapshot;
  latest_failed_poll_at = latest_failed_poll_at;
  trailing_failed_polls = trailing_failed_polls;
  ensure_app_run = ensure_app_run;
  touch_app_run = touch_app_run;
  save_collection_result_with_app_run = save_collection_result_with_app_run;
  is_no_rows = is_no_rows;
  message = λ _. "store error";
}
