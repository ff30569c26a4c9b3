-- ===== src/Storage/Query/Stored.antt =====
-- A result that can be stored is stored and read back as an ok snapshot (internal/storage).
use statlite.Result.{ok, Result-cases}
use statlite.Float.{Float64}
use statlite.Time.{Time}
use statlite.Collector.Model.{CollectionResult, CollectorEvent, is_error}
use statlite.Storage.Types.{Snapshot}
use statlite.Storage.Db.{Db, AppRunRow, PollRow}
use statlite.Storage.Targets.{registered_target}
use statlite.Storage.Write.{
  poll_status, error_messages, run_exists, is_sample_storable, is_event_storable,
  save_collection_result_with_app_run,
}
use statlite.Storage.Integrity.{IsValid}
use statlite.Storage.Integrity.Runs.{has_run}
use statlite.Storage.Query.{polls_of, latest_snapshot, process_start_time}
use statlite.Storage.Query.Latest.{save_then_latest}
use statlite.Prelude.{
  ℕ, ◌≤◌, String, ◌≡◌, refl, inl, inr, Bool, true, false, Option, some, List, [], ◌∷◌, arith, ◌==◌,
  Bool-cases, anyb, find?, All, allb, is_empty, is_blank,
}

find?-anyb :
    (test : AppRunRow → Bool) (rows : List AppRunRow)
    → anyb test rows ≡ true
    → (r : AppRunRow) × (find? test rows ≡ some r)
find?-anyb test [] h = cc
find?-anyb test (x ∷ xs) h = elim (Bool-cases (test x)) [
  | inl e ↦ (x, ground arith)
  | inr e ↦ let (r, q) = find?-anyb test xs (ground arith) in (r, ground arith)
]

poll_status-ok :
    (events : List CollectorEvent)
    → anyb (λ (e : CollectorEvent). is_error e.severity) events ≡ false
    → error_messages events ≡ []
poll_status-ok [] h = refl
poll_status-ok (e ∷ es) h = ground (arith, poll_status-ok es)

is_empty-is_blank : (s : String) → is_blank s ≡ false → is_empty s ≡ false
unfolding is_blank
is_empty-is_blank String.[] h = ground arith
is_empty-is_blank (String.◌∷◌ c s) h = refl

module _ {F : Type 0} where
  process_start_time-has_run :
      (db : Db F) (id : ℕ)
      → has_run id db.app_runs ≡ true
      → (start : Option Time) × (process_start_time db (some id) ≡ ok start)
  unfolding process_start_time
  process_start_time-has_run db id h =
      let (r, e) = find?-anyb (λ (r : AppRunRow). r.id == id) db.app_runs h in
      (r.process_start_time, rw e refl)

module _ {F : Type 0} ⦃fl : Float64 F⦄ where
  save_storable :
      (db : Db F) (result : CollectionResult F) (id : ℕ) (t : ℕ × String)
      → is_blank result.target_name ≡ false
      → registered_target db result.target_name ≡ ok t
      → has_run id db.app_runs ≡ true
      → allb is_sample_storable result.samples ≡ true
      → allb is_event_storable result.events ≡ true
      → (out : ℕ × Db F) × (save_collection_result_with_app_run db result (some id) ≡ ok out)
  unfolding save_collection_result_with_app_run run_exists
  save_storable db result id t b r h k l =
      let e = is_empty-is_blank result.target_name b in
      elim (Result-cases (save_collection_result_with_app_run db result (some id))) [
        | inl (out, q) ↦ (out, q)
        | inr (x, q) ↦ absurd (ground arith)
      ]

  -- What a saved result is read back as.
  abbrev pub IsStored : Db F → CollectionResult F → Option ℕ → Type 0
  IsStored db r run =
      (db' : Db F) × (sn : Snapshot F) × (save_collection_result_with_app_run db r run
        ≡ ok (sn.poll_id, db'))
      × (latest_snapshot db' r.target_name ≡ ok sn)
      × (sn.status ≡ "ok")
      × (sn.app_run_id ≡ run)
      × (sn.result.samples ≡ r.samples)

  pub result-IsStored :
      (db : Db F) (r : CollectionResult F) (id : ℕ) (t : ℕ × String)
      → IsValid db
      → has_run id db.app_runs ≡ true
      → is_blank r.target_name ≡ false
      → registered_target db r.target_name ≡ ok t
      → All (λ (q : PollRow). q.started_at ≤ r.poll_started_at) (polls_of db r.target_name)
      → anyb (λ (e : CollectorEvent). is_error e.severity) r.events ≡ false
      → allb is_sample_storable r.samples ≡ true
      → allb is_event_storable r.events ≡ true
      → IsStored db r (some id)
  unfolding poll_status
  result-IsStored db r id t v has named reg newest no_error ss es =
      let (out, saved) = save_storable db r id t named reg has ss es in
      let (start, hs) = process_start_time-has_run db id has in
      let (target, latest) =
        save_then_latest db r (some id) out.0 out.1 start v named newest saved hs in
      (out.1, _, saved, latest, rw (poll_status-ok r.events no_error, poll_status) refl, refl, refl)
