-- ===== src/Storage/Series/Deltas.antt =====
-- What counter deltas promise (internal/storage/series.go).
use statlite.Float.{Float64, FloatLaws}
use statlite.Collector.Model.{is_counter}
use statlite.Storage.Series.{
  SampleValue, CounterValue, PollSamples, Baselines, same_app_run, delta_of, counter_delta,
  usage_percentage, update_counters, update_previous_counters,
}
use statlite.Prelude.{
  ℕ, String, ◌≡◌, refl, ◌↔◌, true, false, Option, none, some, List, [], ◌∷◌, arith, eq_iff,
  if◌then◌else◌, lookup, insert, lookup-insert,
}

same_app_run_iff : (a b : Option ℕ) → (same_app_run a b ≡ true) ↔ (a ≡ b)
unfolding same_app_run
same_app_run_iff a b = ground arith

-- The keys of a Go map are distinct.
abbrev pub HasDistinctKeys {ℓ} : {V : Type ℓ} → List (String × V) → Type ℓ
HasDistinctKeys [] = Unit
HasDistinctKeys ((k, _) ∷ m) = (lookup k m ≡ none) × HasDistinctKeys m

module _ {F : Type 0} ⦃fl : Float64 F⦄ where
  delta_of-eq_some :
      (run : Option ℕ) (sample : Option (SampleValue F)) (base : Option (CounterValue F))
      (delta : F)
      → delta_of run sample base ≡ some delta
      → (s : SampleValue F) × (b : CounterValue F) × (sample ≡ some s)
        × (is_counter s.kind ≡ true)
        × (base ≡ some b)
        × (b.app_run_id ≡ run)
        × (fl.flt delta fl.zero_f ≡ false)
        × (delta ≡ fl.sub s.value b.value)
  delta_of-eq_some run none base delta h = cc
  delta_of-eq_some run (some s) none delta h = cc
  delta_of-eq_some run (some s) (some b) delta h = (
    s,
    b,
    refl,
    ground arith,
    refl,
    ground (arith, same_app_run_iff b.app_run_id run),
    ground arith,
    ground arith,
  )

  -- A counter delta is reported exactly when the poll has the counter, the baseline map has its
  -- key, both belong to the same app run (or both to none) and the difference is not below zero;
  -- it is then the sample less the baseline.
  pub counter_delta_iff :
      (poll : PollSamples F) (previous : Baselines F) (key : String) (delta : F)
      → (counter_delta poll previous key ≡ some delta) ↔ (
          (s : SampleValue F) × (b : CounterValue F) × (lookup key poll.samples ≡ some s)
          × (is_counter s.kind ≡ true)
          × (lookup key previous ≡ some b)
          × (b.app_run_id ≡ poll.app_run_id)
          × (fl.flt delta fl.zero_f ≡ false)
          × (delta ≡ fl.sub s.value b.value))
  unfolding counter_delta
  counter_delta_iff poll previous key delta = (
    delta_of-eq_some poll.app_run_id (lookup key poll.samples) (lookup key previous) delta,
    λ (s, b, hs, c, hb, r, n, d).
        rw (hs, hb) (ground (arith, same_app_run_iff b.app_run_id poll.app_run_id)),
  )

  -- If float64 obeys IEEE 754's laws of comparison and division: a usage that is reported for two
  -- values that are no NaN lies between 0 and 1.
  pub usage_percentage_bounds :
      FloatLaws fl
      → (used total usage : F) → fl.is_nan used ≡ false
      → fl.is_nan total ≡ false
      → usage_percentage (some used) (some total) ≡ some usage
      → (fl.fle fl.zero_f usage ≡ true) × (fl.fle usage (fl.of_nat 1) ≡ true)
  unfolding usage_percentage
  usage_percentage_bounds laws used total usage nu nt h = ground (
    arith,
    laws.le_of_not_lt used fl.zero_f nu laws.zero_not_nan,
    laws.le_of_not_lt total used nt nu,
    laws.lt_of_not_le total fl.zero_f nt laws.zero_not_nan,
    laws.div_nonneg used total,
    laws.div_le_one used total,
  )

module _ {F : Type 0} where
  -- What the baseline of a key becomes: the poll's counter, if the poll has one.
  abbrev pub next_baseline :
      ℕ → Option ℕ → Option (SampleValue F) → Option (CounterValue F) → Option (CounterValue F)
  next_baseline id run none old = old
  next_baseline id run (some s) old =
      if is_counter s.kind
      then some (record { poll_id = id; app_run_id = run; value = s.value })
      else old

  lookup-update_counters :
      (id : ℕ) (run : Option ℕ) (samples : List (String × SampleValue F)) (previous : Baselines F)
      (key : String)
      → HasDistinctKeys samples
      → lookup key (update_counters id run samples previous)
        ≡ next_baseline id run (lookup key samples) (lookup key previous)
  unfolding update_counters lookup
  lookup-update_counters id run [] previous key d = refl
  lookup-update_counters id run ((k, s) ∷ rest) previous key d =
      let v : CounterValue F = record { poll_id = id; app_run_id = run; value = s.value } in
      ground (
        arith,
        eq_iff k key,
        lookup-insert k key v previous,
        lookup-update_counters id run rest (insert k v previous) key d.1,
        lookup-update_counters id run rest previous key d.1,
      )

  -- After a poll whose sample keys are distinct, the baseline of a key is the poll's sample with its
  -- poll and run where the poll has a counter of that key, and else the one before.
  pub lookup-update_previous_counters :
      (poll : PollSamples F) (previous : Baselines F) (key : String)
      → HasDistinctKeys poll.samples
      → lookup key (update_previous_counters poll previous)
        ≡ next_baseline poll.poll_id poll.app_run_id (lookup key poll.samples) (lookup key previous)
  unfolding update_previous_counters
  lookup-update_previous_counters poll previous key d =
      lookup-update_counters poll.poll_id poll.app_run_id poll.samples previous key d
