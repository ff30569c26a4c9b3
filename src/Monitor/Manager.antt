-- ===== src/Monitor/Manager.antt =====
-- internal/monitor/manager.go: the configured targets and which of them a request is for. A
-- `*Monitor` is a reference, and what it points to is given by a function, since the monitors poll
-- while the manager is used.
pub mod Resolve
use statlite.Result.{Result, ok, err, ◌>>=◌, ◌>>◌, refuse, or_err}
use statlite.Storage.Types.{Snapshot}
use statlite.Monitor.State.{Monitor}
use statlite.Prelude.{
  ℕ, zero, ◌+◌, String, Bool, false, ◌||◌, Option, none, some, List, [], ◌∷◌, ◌++◌, ltb,
  if◌then◌else◌, is_some, is_empty, trim_space, upper_eq, lookup, insert,
}

pub record TargetMetadata : Type 0 where
  pub name : String
  pub type : String
  pub endpoint : String
  pub endpoint_source : String

-- A target with the reference to its monitor.
pub record ManagedTarget : Type 0 where
  pub metadata : TargetMetadata
  pub monitor : ℕ

-- What NewManager is given, where the reference may be nil.
pub record NewTarget : Type 0 where
  pub metadata : TargetMetadata
  pub monitor : Option ℕ

pub record Manager : Type 0 where
  pub order : List String
  pub targets : List (String × ManagedTarget)

pub data ManagerError : Type 0 where
  no_targets : ManagerError
  name_required monitor_required : ℕ → ManagerError
  name_duplicated : ℕ → String → ManagerError

-- One round of NewManager's loop.
unfoldable pub add_target : ℕ → Manager → NewTarget → Result ManagerError Manager
add_target i manager target = do
  let name = trim_space target.metadata.name
  refuse (is_empty name) (name_required i)
  monitor ← or_err target.monitor (monitor_required i)
  refuse (is_some (lookup name manager.targets)) (name_duplicated i name)
  ok (record {
    order = manager.order ++ name ∷ [];
    targets =
        insert name
          (record { metadata = record target.metadata { name = name }; monitor = monitor })
          manager.targets;
  })

unfoldable pub add_targets : ℕ → Manager → List NewTarget → Result ManagerError Manager
add_targets i manager [] = ok manager
add_targets i manager (t ∷ ts) = do
  manager' ← add_target i manager t
  add_targets (i + 1) manager' ts

unfoldable pub new_manager : List NewTarget → Result ManagerError Manager
new_manager [] = err no_targets
new_manager (t ∷ ts) = add_targets 0 (record { order = []; targets = [] }) (t ∷ ts)

unfoldable pub status_unhealthy : String → Bool
status_unhealthy status =
    let s = trim_space status in
    upper_eq s "DOWN" || upper_eq s "ERROR" || upper_eq s "OUT_OF_SERVICE"

unfoldable pub exact_target : Manager → String → Option ManagedTarget
exact_target m name = lookup name m.targets

-- `m.targets[m.order[0]]`
abbrev pub first_in : List (String × ManagedTarget) → List String → Option ManagedTarget
first_in targets [] = none
first_in targets (first ∷ _) = lookup first targets

abbrev pub or_else : Option ManagedTarget → Option ManagedTarget → Option ManagedTarget
or_else none o = o
or_else (some t) o = some t

module _ {F : Type 0} where
  unfoldable pub snapshot_unhealthy : Option (Snapshot F) → Bool
  snapshot_unhealthy none = false
  snapshot_unhealthy (some s) =
      status_unhealthy s.result.health_status || status_unhealthy s.result.db_health_status

  abbrev pub is_failing : Monitor F → Bool
  is_failing m = ltb 0 m.status.consecutive_poll_failures

  -- The first of the names whose target's monitor passes the test.
  unfoldable pub first_target :
      (Monitor F → Bool) → (ℕ → Monitor F) → Manager → List String → Option ManagedTarget
  first_target test monitors m [] = none
  first_target test monitors m (name ∷ names) =
      let rest = first_target test monitors m names in
      elim (lookup name m.targets) [
        | none ↦ rest
        | some t ↦ if test (monitors t.monitor) then some t else rest
      ]

  -- `none` is the panic on `m.order[0]` of an empty manager, or the zero value of a missing name.
  unfoldable pub resolve_target : (ℕ → Monitor F) → Manager → String → Option ManagedTarget
  resolve_target monitors m name = or_else (lookup (trim_space name) m.targets) (
      or_else (first_target is_failing monitors m m.order) (
        or_else (first_target (λ (x : Monitor F). snapshot_unhealthy x.latest) monitors m m.order)
          (first_in m.targets m.order)))
