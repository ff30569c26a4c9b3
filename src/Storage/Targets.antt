-- ===== src/Storage/Targets.antt =====
-- internal/storage/target_identity.go: configured names are bound to integration types.
pub mod Binding
use statlite.Result.{Result, ok, err, ◌>>=◌, ◌>>◌, refuse, or_err}
use statlite.Time.{Time}
use statlite.Storage.Db.{
  Db, TargetRow, StoreError, registration_incomplete, registration_duplicate, registration_conflict,
  target_not_registered, target_has_no_type, target_named, target_keys, next_key,
}
use statlite.Prelude.{
  ℕ, ◌+◌, String, ◌||◌, Option, none, some, List, [], ◌∷◌, ◌++◌, map, if◌then◌else◌, anyb, str_eq,
  is_blank,
}

pub record TargetIdentity : Type 0 where
  pub name : String
  pub type : String

-- UPDATE targets SET target_type = ? WHERE name = ?
unfoldable pub set_type : String → String → List TargetRow → List TargetRow
set_type name type rows =
    map (λ (r : TargetRow). if str_eq r.name name then record r { target_type = some type } else r)
      rows

-- The `switch` on the row that the name has.
unfoldable pub bind_target :
    Time → TargetIdentity → List TargetRow → Option TargetRow → Result StoreError (List TargetRow)
bind_target now t rows none = ok (
    rows
    ++ record {
      id = next_key (target_keys rows);
      name = t.name;
      created_at = now;
      target_type = some t.type;
    }
      ∷ [])
bind_target now t rows (some r) = elim r.target_type [
  | none ↦ ok (set_type t.name t.type rows)
  | some existing ↦
      if str_eq existing t.type then ok rows else err (registration_conflict t.name existing t.type)
]

-- The loop, inside one transaction: its result counts only if every target is bound.
unfoldable pub register_all :
    Time → List String → List TargetIdentity → List TargetRow → Result StoreError (List TargetRow)
register_all now seen [] rows = ok rows
register_all now seen (t ∷ ts) rows = do
  refuse (is_blank t.name || is_blank t.type) registration_incomplete
  refuse (anyb (λ n. str_eq n t.name) seen) (registration_duplicate t.name)
  rows' ← bind_target now t rows (target_named t.name rows)
  register_all now (t.name ∷ seen) ts rows'

module _ {F : Type 0} where
  -- The database after the call, and its error: a transaction that fails is rolled back.
  unfoldable pub register_targets : Db F → Time → List TargetIdentity → Db F × Option StoreError
  register_targets db now ts = elim (register_all now [] ts db.targets) [
    | ok rows ↦ (record db { targets = rows }, none)
    | err e ↦ (db, some e)
  ]

  unfoldable pub registered_target : Db F → String → Result StoreError (ℕ × String)
  registered_target db name = do
    r ← or_err (target_named name db.targets) (target_not_registered name)
    type ← or_err r.target_type (target_has_no_type name)
    ok (r.id, type)
