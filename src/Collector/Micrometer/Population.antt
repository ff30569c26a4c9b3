-- ===== src/Collector/Micrometer/Population.antt =====
-- What the HTTP aggregates keep, and when the duration of an exposition is reported
-- (internal/collector/micrometer.go).
use statlite.Float.{Float64}
use statlite.Collector.Model.{finite_nonnegative}
use statlite.Prometheus.{Label, Sample}
use statlite.Collector.Dimensions.{
  DimensionHash, multiplicity, has_key, matching_state_limit, MatchingState, series_fingerprint,
}
use statlite.Collector.Micrometer.{
  HttpValues, count_accepted, accept_count, duration_accepted, accept_duration,
  duration_matches_counts,
}
use statlite.Collector.Dimensions.Matching.{
  AreSingle, IsMatching, add_matching_dimension-IsMatching, all_match-has_key,
}
use statlite.Prelude.{
  ℕ, ◌+◌, ◌≤◌, ◌≡◌, refl, inl, inr, true, false, not, Option, List, [], arith, ltb, ==_iff,
  Bool-cases, Option-cases, length,
}

-- Populations of at most the limit's states, each of whose identities is there once.
pub record ArePopulations (counts durations : List (DimensionHash × ℕ)) (states : ℕ) : Type 0 where
  pub counts_single : AreSingle counts
  pub durations_single : AreSingle durations
  pub states_counted : states ≡ length counts + length durations
  pub states_within : states ≤ matching_state_limit

pub ArePopulations-nil : ArePopulations [] [] 0
unfolding AreSingle
ArePopulations-nil = record {
  counts_single = tt;
  durations_single = tt;
  states_counted = refl;
  states_within = omega arith;
}

module _ {F : Type 0} ⦃fl : Float64 F⦄ where
  abbrev pub IsBounded : HttpValues F → Type 0
  IsBounded v = ArePopulations v.count_dimensions v.duration_dimensions v.matching_states

  count_accepted-IsBounded :
      (v : HttpValues F) (code : ℕ) (value : F) (key : DimensionHash)
      → ltb 0 (multiplicity key v.count_dimensions) ≡ false
      → IsBounded v
      → IsBounded (count_accepted v code value key)
  unfolding count_accepted
  count_accepted-IsBounded v code value key fresh is =
      let m : MatchingState = record {
        groups = v.count_dimensions;
        states = v.matching_states;
        overflow = v.matching_overflow;
      } in
      let total = is.states_counted in
      let before : IsMatching (length v.duration_dimensions) v.count_dimensions v.matching_states =
        record { single = is.counts_single; size = omega arith; within = is.states_within } in
      let after =
        add_matching_dimension-IsMatching (length v.duration_dimensions) key m fresh before in
      let size = after.size in
      record {
        counts_single = after.single;
        durations_single = is.durations_single;
        states_counted = omega arith;
        states_within = after.within;
      }

  duration_accepted-IsBounded :
      (v : HttpValues F) (value : F) (key : DimensionHash)
      → ltb 0 (multiplicity key v.duration_dimensions) ≡ false
      → IsBounded v
      → IsBounded (duration_accepted v value key)
  unfolding duration_accepted
  duration_accepted-IsBounded v value key fresh is =
      let m : MatchingState = record {
        groups = v.duration_dimensions;
        states = v.matching_states;
        overflow = v.matching_overflow;
      } in
      let before : IsMatching (length v.count_dimensions) v.duration_dimensions v.matching_states =
        record {
          single = is.durations_single;
          size = is.states_counted;
          within = is.states_within;
        } in
      let after =
        add_matching_dimension-IsMatching (length v.count_dimensions) key m fresh before in
      record {
        counts_single = is.counts_single;
        durations_single = after.single;
        states_counted = after.size;
        states_within = after.within;
      }

  -- A change of a flag changes no population.
  pub accept_count-IsBounded :
      (validate : List Label → Option ℕ) (v : HttpValues F) (sample : Sample F)
      → IsBounded v
      → IsBounded (accept_count validate v sample)
  unfolding accept_count
  accept_count-IsBounded validate v sample is = elim (Option-cases (validate sample.labels)) [
    | inl e ↦ rw (accept_count, e) is
    | inr (code, e) ↦ elim (Bool-cases (not (finite_nonnegative sample.value))) [
      | inl f ↦ simp (accept_count, e, f) is
      | inr f ↦
          let key = series_fingerprint sample.labels in
          elim (Bool-cases (ltb 0 (multiplicity key v.count_dimensions))) [
            | inl g ↦ simp (accept_count, e, f, g) is
            | inr g ↦
                simp (accept_count, e, f, g) (count_accepted-IsBounded v code sample.value key g is)
          ]
    ]
  ]

  pub accept_duration-IsBounded :
      (validate : List Label → Option ℕ) (v : HttpValues F) (sample : Sample F)
      → IsBounded v
      → IsBounded (accept_duration validate v sample)
  unfolding accept_duration
  accept_duration-IsBounded validate v sample is = elim (Option-cases (validate sample.labels)) [
    | inl e ↦ rw (accept_duration, e) is
    | inr (code, e) ↦ elim (Bool-cases (not (finite_nonnegative sample.value))) [
      | inl f ↦ simp (accept_duration, e, f) is
      | inr f ↦
          let key = series_fingerprint sample.labels in
          elim (Bool-cases (ltb 0 (multiplicity key v.duration_dimensions))) [
            | inl g ↦ simp (accept_duration, e, f, g) is
            | inr g ↦
                simp (accept_duration, e, f, g)
                  (duration_accepted-IsBounded v sample.value key g is)
          ]
    ]
  ]

  -- A duration that is reported is one of exactly the series that were counted.
  pub duration_matches_counts-has_key :
      (v : HttpValues F) (key : DimensionHash)
      → IsBounded v
      → duration_matches_counts v ≡ true
      → has_key key v.count_dimensions ≡ has_key key v.duration_dimensions
  unfolding duration_matches_counts
  duration_matches_counts-has_key v key is h =
      let same =
        (==_iff (length v.count_dimensions) (length v.duration_dimensions)).0 (ground arith) in
      all_match-has_key v.count_dimensions v.duration_dimensions is.counts_single
        is.durations_single same (ground arith) key
