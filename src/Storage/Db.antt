-- ===== src/Storage/Db.antt =====
-- The tables of internal/storage/schema.sql and the rows that the statements of write.go, query.go,
-- retention.go and target_identity.go read and write. A statement's text is its meaning here: a
-- table is the list of its rows in the order of insertion, NULL is `none`, and a time column, which
-- the code formats so that its text sorts by instant, is the instant. An INTEGER PRIMARY KEY gets
-- one more than the greatest key in use.
pub mod Keys
use statlite.Float.{Float64}
use statlite.Time.{Time}
use statlite.Collector.Model.{MetricKind, EventSeverity}
use statlite.Prelude.{
  ℕ, ◌+◌, ◌/◌, String, ◌≡◌, refl, not, Option, none, some, List, [], ◌∷◌, map, ltb, if◌then◌else◌,
  find?, str_eq, is_empty,
}

pub record TargetRow : Type 0 where
  pub id : ℕ
  pub name : String
  pub created_at : Time
  pub target_type : Option String

pub record AppRunRow : Type 0 where
  pub id : ℕ
  pub target_id : ℕ
  pub process_start_time : Option Time
  pub first_seen_at : Time
  pub last_seen_at : Time
  pub target_type : String

pub record PollRow : Type 0 where
  pub id : ℕ
  pub target_id : ℕ
  pub app_run_id : Option ℕ
  pub started_at : Time
  pub finished_at : Time
  pub status : String
  pub health_status : Option String
  pub db_health_status : Option String
  pub error_summary : Option String
  pub metrics_source : Option String

pub record SampleRow (F : Type 0) : Type 0 where
  pub poll_id : ℕ
  pub metric_key : String
  pub metric_kind : MetricKind
  pub value : F
  pub unit : Option String

pub record EventRow : Type 0 where
  pub poll_id : ℕ
  pub severity : EventSeverity
  pub event_type : String
  pub metric_key : Option String
  pub message : String

pub record Db (F : Type 0) : Type 0 where
  pub targets : List TargetRow
  pub app_runs : List AppRunRow
  pub polls : List PollRow
  pub metric_samples : List (SampleRow F)
  pub collector_events : List EventRow

-- The errors that the code and the schema's constraints produce; I/O errors are not modelled.
pub data StoreError : Type 0 where
  result_required : StoreError
  result_target_required : StoreError
  target_name_required : StoreError
  target_not_registered : String → StoreError
  target_has_no_type : String → StoreError
  registration_incomplete : StoreError
  registration_duplicate : String → StoreError
  registration_conflict : String → String → String → StoreError
  app_run_not_found : ℕ → StoreError
  constraint_failed : StoreError
  no_rows : StoreError
  event_type_required : StoreError
  start_not_before_end : StoreError
  poll_limit_exceeded : StoreError

-- sqlutil.go: an empty text is stored as NULL, and NULL is read as an empty text.
unfoldable pub nullable_string : String → Option String
nullable_string value = if is_empty value then none else some value

abbrev pub string_of : Option String → String
string_of none = ""
string_of (some s) = s

pub string_of-nullable : (s : String) → string_of (nullable_string s) ≡ s
unfolding nullable_string
string_of-nullable String.[] = refl
string_of-nullable (String.◌∷◌ c s) = refl

abbrev pub max_of : ℕ → List ℕ → ℕ
max_of m [] = m
max_of m (k ∷ ks) = max_of (if ltb m k then k else m) ks

-- The key that SQLite gives to a new row.
unfoldable pub next_key : List ℕ → ℕ
next_key keys = max_of 0 keys + 1

abbrev pub poll_keys : List PollRow → List ℕ
poll_keys rows = map (λ r. r.id) rows

abbrev pub target_keys : List TargetRow → List ℕ
target_keys rows = map (λ r. r.id) rows

abbrev pub app_run_keys : List AppRunRow → List ℕ
app_run_keys rows = map (λ r. r.id) rows

-- SELECT ... FROM targets WHERE name = ? (the name is UNIQUE).
abbrev pub target_named : String → List TargetRow → Option TargetRow
target_named name rows = find? (λ r. str_eq r.name name) rows
