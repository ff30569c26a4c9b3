-- ===== src/Server/Events.antt =====
-- internal/server/public_events.go: the handler of the public event list, after the method check.
pub mod Window
use statlite.Result.{Result, ok, err, ◌>>=◌, ◌>>◌}
use statlite.Time.{Time, before}
use statlite.Storage.Db.{Db}
use statlite.Storage.Query.{events}
use statlite.Monitor.State.{Monitor}
use statlite.Monitor.Manager.{Manager}
use statlite.Server.Request.{
  RequestError, Query, check_query, select_public_target, parse_public_events_options,
  clamp_to_retention,
}
use statlite.Server.Status.{PublicEvent, public_event}
use statlite.Prelude.{ℕ, ◌-◌, String, not, Option, List, [], ◌∷◌, map, if◌then◌else◌}

pub record PublicEventsResponse : Type 0 where
  pub target : String
  pub events : List PublicEvent

-- The handler's error answers.
pub data ErrorAnswer : Type 0 where
  bad_request : RequestError → ErrorAnswer
  query_failed : ErrorAnswer

abbrev pub or_bad_request : {A : Type 0} → Result RequestError A → Result ErrorAnswer A
or_bad_request (ok a) = ok a
or_bad_request (err e) = err (bad_request e)

module _ {F : Type 0} where
  -- The events of a window; an empty window asks nothing of the store.
  unfoldable pub events_between :
      Db F → String → Time → Time → ℕ → Result ErrorAnswer (List PublicEvent)
  events_between db name start end limit =
      if not (before start end) then ok [] else elim (events db name start end limit) [
        | err e ↦ err query_failed
        | ok found ↦ ok (map public_event found)
      ]

  unfoldable pub handle_public_events :
      Db F
      → (ℕ → Monitor F)
      → Manager
      → ℕ
      → Option Time
      → Time
      → Query
      → Result ErrorAnswer PublicEventsResponse
  handle_public_events db monitors manager retention_days cutoff now query = do
    or_bad_request (check_query ("target" ∷ "range" ∷ "limit" ∷ []) query)
    target ← or_bad_request (select_public_target manager query)
    options ← or_bad_request (parse_public_events_options query)
    let start = (clamp_to_retention retention_days cutoff (now - options.0)).0
    found ← events_between db (monitors target.monitor).target_name start now options.1
    ok (record { target = target.metadata.name; events = found })
