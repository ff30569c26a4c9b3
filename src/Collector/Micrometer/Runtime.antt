-- ===== src/Collector/Micrometer/Runtime.antt =====
-- internal/collector/micrometer.go: the runtime values of a process. The conversion of seconds to an
-- instant, and the text form of one, are arguments.
use statlite.Float.{Float64}
use statlite.Time.{Time}
use statlite.Collector.Model.{
  CollectionResult, gauge, add_sample, finite_nonnegative, add_finite_nonnegative,
}
use statlite.Bytes.{ascii, bytes_eq}
use statlite.Prometheus.{Label, Sample}
use statlite.Prelude.{String, Bool, true, false, not, ◌&&◌, ◌||◌, some, if◌then◌else◌, anyb}

-- unixSeconds, and whether an instant's RFC 3339 text reads as that instant.
pub record UnixTime (F : Type 0) : Type 0 where
  pub unix_seconds : F → Time
  pub rfc3339_round_trips : Time → Bool

pub record RuntimeValues (F : Type 0) : Type 0 where
  pub cpu : F
  pub heap : F
  pub process_start : F
  pub uptime : F
  pub saw_cpu : Bool
  pub saw_heap : Bool
  pub saw_process_start : Bool
  pub saw_uptime : Bool
  pub invalid_cpu : Bool
  pub invalid_heap : Bool
  pub invalid_process_start : Bool
  pub invalid_uptime : Bool

abbrev pub is_heap_label : Label → Bool
is_heap_label l = bytes_eq l.name (ascii "area") && bytes_eq l.value (ascii "heap")

module _ {F : Type 0} ⦃fl : Float64 F⦄ where
  abbrev pub no_runtime_values : RuntimeValues F
  no_runtime_values = record {
    cpu = fl.zero_f;
    heap = fl.zero_f;
    process_start = fl.zero_f;
    uptime = fl.zero_f;
    saw_cpu = false;
    saw_heap = false;
    saw_process_start = false;
    saw_uptime = false;
    invalid_cpu = false;
    invalid_heap = false;
    invalid_process_start = false;
    invalid_uptime = false;
  }

  -- finiteInRange
  abbrev pub finite_in_range : F → F → F → Bool
  finite_in_range value min max =
      not (fl.is_nan value) && not (fl.is_inf value) && fl.fle min value && fl.fle value max

  unfoldable pub accept_cpu : RuntimeValues F → F → RuntimeValues F
  accept_cpu v value =
      if v.saw_cpu || not (finite_in_range value fl.zero_f (fl.of_nat 1))
      then record v { invalid_cpu = true }
      else record v { saw_cpu = true; cpu = value }

  unfoldable pub accept_heap : RuntimeValues F → F → RuntimeValues F
  unfolding add_finite_nonnegative
  accept_heap v value =
      if not (finite_nonnegative value)
      then record v { invalid_heap = true }
      else (let (heap, added) = add_finite_nonnegative v.heap value in
          record v { heap = heap; saw_heap = true; invalid_heap = v.invalid_heap || not added })

  unfoldable pub accept_uptime : RuntimeValues F → F → RuntimeValues F
  accept_uptime v value =
      if v.saw_uptime || not (finite_nonnegative value)
      then record v { invalid_uptime = true }
      else record v { saw_uptime = true; uptime = value }

  abbrev pub add_gauge_if : Bool → String → F → String → CollectionResult F → CollectionResult F
  add_gauge_if false key value unit r = r
  add_gauge_if true key value unit r = add_sample r key gauge value unit

module _ {F : Type 0} ⦃fl : Float64 F⦄ ⦃ut : UnixTime F⦄ where
  unfoldable pub accept_process_start : RuntimeValues F → F → RuntimeValues F
  accept_process_start v value =
      if v.saw_process_start
        || not (finite_nonnegative value)
        || fl.feq value fl.zero_f
        || not (ut.rfc3339_round_trips (ut.unix_seconds value))
      then record v { invalid_process_start = true }
      else record v { saw_process_start = true; process_start = value }

  -- accept
  unfoldable pub accept_runtime : RuntimeValues F → Sample F → RuntimeValues F
  unfolding accept_cpu accept_heap accept_process_start accept_uptime
  accept_runtime v sample =
      if bytes_eq sample.name (ascii "process_cpu_usage")
      then accept_cpu v sample.value
      else if bytes_eq sample.name (ascii "process_start_time_seconds")
      then accept_process_start v sample.value
      else if bytes_eq sample.name (ascii "process_uptime_seconds")
      then accept_uptime v sample.value
      else if bytes_eq sample.name (ascii "jvm_memory_used_bytes")
          && anyb is_heap_label sample.labels
      then accept_heap v sample.value
      else v

  -- addTo
  unfoldable pub add_runtime_values : RuntimeValues F → CollectionResult F → CollectionResult F
  add_runtime_values v r =
      let starts = v.saw_process_start && not v.invalid_process_start in
      let r1 = add_gauge_if (v.saw_cpu && not v.invalid_cpu) "process_cpu_usage" v.cpu "ratio" r in
      let r2 =
        add_gauge_if (v.saw_heap && not v.invalid_heap) "jvm_heap_used_bytes" v.heap "bytes" r1 in
      let r3 = add_gauge_if starts "process_start_time" v.process_start "unix_seconds" r2 in
      let r4 = record r3 {
        process_start_time =
            if starts then some (ut.unix_seconds v.process_start) else r3.process_start_time;
      } in
      add_gauge_if (v.saw_uptime && not v.invalid_uptime) "process_uptime" v.uptime "seconds" r4
