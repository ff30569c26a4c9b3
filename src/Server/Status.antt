-- ===== src/Server/Status.antt =====
-- internal/server/public_status.go and public_events.go: the public view of a target's state, and the
-- projection of messages that could show an address.

pub mod View
use statlite.Time.{Time}
use statlite.Storage.Types.{Snapshot, Event}
use statlite.Monitor.State.{Status, HealthObservation}
use statlite.Prelude.{
  ℕ, String, Bool, false, not, ◌||◌, Option, none, some, List, [], ◌∷◌, map, ltb, ◌==◌,
  if◌then◌else◌, is_some, is_empty,
}
use statlite.Prelude.{codes, upper_code}

pub record PublicStatusResponse : Type 0 where
  pub target : String
  pub type : String
  pub collection_status : String
  pub last_poll_at : Option Time
  pub last_successful_poll_at : Option Time
  pub last_failed_poll_at : Option Time
  pub consecutive_failures : ℕ
  pub last_collection_error : Option String
  pub application_health : Option String
  pub dependency_health : Option String
  pub health_observed_at : Option Time

pub record PublicEvent : Type 0 where
  pub timestamp : Time
  pub severity : String
  pub type : String
  pub message : String
  pub metric_key : String

-- A character that the URL's pattern goes on with: no space, quote or angle bracket.
abbrev pub is_url_char : ℕ → Bool
is_url_char c = not (
    (c == 9)
    || (c == 10)
    || (c == 12)
    || (c == 13)
    || (c == 32)
    || (c == 34)
    || (c == 39)
    || (c == 60)
    || (c == 62))

abbrev pub drop_prefix : List ℕ → List ℕ → Option (List ℕ)
drop_prefix [] cs = some cs
drop_prefix (p ∷ ps) [] = none
drop_prefix (p ∷ ps) (c ∷ cs) = if p == c then drop_prefix ps cs else none

abbrev pub starts_url_char : Option (List ℕ) → Bool
starts_url_char none = false
starts_url_char (some []) = false
starts_url_char (some (c ∷ cs)) = is_url_char c

-- "://" and one more character, after "http" or "https".
abbrev pub after_scheme : Option (List ℕ) → Bool
after_scheme none = false
after_scheme (some cs) =
    starts_url_char (drop_prefix (codes "://") cs)
    || starts_url_char (drop_prefix (codes "S://") cs)

-- The pattern (?i)https?://[^\s"'<>]+ at the start of a text in capitals.
abbrev pub url_here : List ℕ → Bool
url_here cs = after_scheme (drop_prefix (codes "HTTP") cs)

unfoldable pub url_in : List ℕ → Bool
url_in [] = false
url_in (c ∷ cs) = let rest = url_in cs in url_here (c ∷ cs) || rest

-- publicURL.MatchString
unfoldable pub has_url : String → Bool
unfolding url_in upper_code
has_url message = url_in (map upper_code (codes message))

unfoldable pub public_diagnostic_message : String → String
unfolding has_url
public_diagnostic_message message = if has_url message then "collection request failed" else message

unfoldable pub public_event : Event → PublicEvent
unfolding public_diagnostic_message
public_event e = record {
  timestamp = e.timestamp;
  severity = e.severity;
  type = e.type;
  message = public_diagnostic_message e.message;
  metric_key = e.metric_key;
}

abbrev pub non_empty : String → Option String
non_empty s = if is_empty s then none else some s

module _ {F : Type 0} where
  -- The health of the newest attempt, or else that of the last successful snapshot.
  unfoldable pub health_or_successful : HealthObservation → Option (Snapshot F) → HealthObservation
  health_or_successful health none = health
  health_or_successful health (some s) = if health.reported then health else record {
    application = s.result.health_status;
    dependency = s.result.db_health_status;
    observed_at = s.result.poll_finished_at;
    reported = not (is_empty s.result.health_status) || not (is_empty s.result.db_health_status);
  }

  abbrev pub successful_at : Option Time → Option (Snapshot F) → Option Time
  successful_at (some at) successful = some at
  successful_at none none = none
  successful_at none (some s) = some s.result.poll_finished_at

  unfoldable pub public_status :
      String → String → Status → Option (Snapshot F) → HealthObservation → PublicStatusResponse
  unfolding public_diagnostic_message health_or_successful
  public_status name target_type status successful health₀ =
      let health = health_or_successful health₀ successful in
      record {
        target = name;
        type = target_type;
        collection_status =
            if not (is_some status.last_poll_at)
            then "not_polled"
            else if ltb 0 status.consecutive_poll_failures
            then "error"
            else "ok";
        last_poll_at = status.last_poll_at;
        last_successful_poll_at = successful_at status.last_successful_poll_at successful;
        last_failed_poll_at = status.last_failed_poll_at;
        consecutive_failures = status.consecutive_poll_failures;
        last_collection_error =
            if is_empty status.last_poll_error_summary
            then none
            else some (public_diagnostic_message status.last_poll_error_summary);
        application_health = if health.reported then non_empty health.application else none;
        dependency_health = if health.reported then non_empty health.dependency else none;
        health_observed_at = if health.reported then some health.observed_at else none;
      }
