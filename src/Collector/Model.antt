-- ===== src/Collector/Model.antt =====
-- internal/collector/model.go: the normalized result of one collection.
use statlite.Float.{Float64}
use statlite.Time.{Time}
use statlite.Prelude.{
  String, ◌≡◌, Bool, true, false, not, ◌&&◌, Option, List, [], ◌∷◌, ◌++◌, arith, if◌then◌else◌,
}

pub data MetricKind : Type 0 where
  counter gauge : MetricKind

pub data EventSeverity : Type 0 where
  warning error : EventSeverity

pub record MetricSample (F : Type 0) : Type 0 where
  pub key : String
  pub kind : MetricKind
  pub value : F
  pub unit : String

pub record CollectorEvent : Type 0 where
  pub severity : EventSeverity
  pub type : String
  pub message : String
  pub metric_key : String

pub record CollectionResult (F : Type 0) : Type 0 where
  pub counter_continuity_break : Bool
  pub target_name : String
  pub metrics_source : String
  pub poll_started_at : Time
  pub poll_finished_at : Time
  pub health_status : String
  pub db_health_status : String
  pub process_start_time : Option Time
  pub samples : List (MetricSample F)
  pub events : List CollectorEvent

abbrev pub is_counter : MetricKind → Bool
is_counter counter = true
is_counter gauge = false

abbrev pub is_error : EventSeverity → Bool
is_error error = true
is_error warning = false

module _ {F : Type 0} ⦃fl : Float64 F⦄ where
  unfoldable pub finite_nonnegative : F → Bool
  finite_nonnegative value =
      not (fl.is_nan value) && not (fl.is_inf value) && fl.fle fl.zero_f value

  -- The sum and whether it was added; the total is kept where it was not.
  unfoldable pub add_finite_nonnegative : F → F → F × Bool
  unfolding finite_nonnegative
  add_finite_nonnegative total value =
      if not (finite_nonnegative value)
      then (total, false)
      else (let result = fl.add total value in
          if not (finite_nonnegative result) then (total, false) else (result, true))

  unfoldable pub add_sample :
      CollectionResult F → String → MetricKind → F → String → CollectionResult F
  unfolding finite_nonnegative
  add_sample r key kind value unit =
      if is_counter kind && not (finite_nonnegative value) then r else record r {
        samples = r.samples ++ record { key = key; kind = kind; value = value; unit = unit } ∷ [];
      }

  -- Whatever is added, a total that was finite and not negative stays so.
  pub add_finite_nonnegative_sound :
      (total value : F)
      → finite_nonnegative total ≡ true
      → finite_nonnegative (add_finite_nonnegative total value).0 ≡ true
  unfolding add_finite_nonnegative
  add_finite_nonnegative_sound total value h = ground arith

module _ {F : Type 0} where
  unfoldable pub add_event :
      CollectionResult F → EventSeverity → String → String → String → CollectionResult F
  add_event r severity type metric_key message = record r {
    events =
        r.events
        ++ record { severity = severity; type = type; message = message; metric_key = metric_key }
          ∷ [];
  }
