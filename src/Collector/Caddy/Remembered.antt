-- ===== src/Collector/Caddy/Remembered.antt =====
-- What a Caddy collector remembers of a success (internal/collector/caddy.go).
use statlite.Result.{Result, ok, err, Result-cases}
use statlite.Float.{Float64}
use statlite.Time.{Time}
use statlite.Collector.Model.{CollectionResult}
use statlite.Bytes.{Bytes}
use statlite.Prometheus.{Limits}
use statlite.Prometheus.Samples.{FloatText}
use statlite.Prometheus.Exposition.{Parsed, parse}
use statlite.Prometheus.Exposition.Invariant.{parse-keeps}
use statlite.Collector.Caddy.{
  CaddyTuple, CaddyPopulation, CaddyTotals, CaddyError, caddy_max_tuples, accept, sort_tuples,
  totals, no_totals,
}
use statlite.Collector.Caddy.Collect.{
  CaddyCollector, Response, unreachable, answered, CollectError, with_totals, with_population,
  collect, scrape, parsed_population, is_configured, no_tuples, empty_result,
}
use statlite.Collector.Caddy.Population.{
  IsTuple, IsPopulation, IsMatched, accept-keeps, add_tuples-IsMatched, All-sort_tuples,
}
use statlite.Prelude.{
  ◌≤◌, String, ◌≡◌, refl, inl, inr, Option, none, some, List, [], arith, Bool-cases, Option-cases,
  length, All,
}

-- The memory of a success: at most 256 tuples, each with a status from 100 to 599, and a count and
-- a sum that were both seen and are finite and not negative, the count a whole number.
pub record IsMemory {F : Type 0} ⦃fl : Float64 F⦄ (c : CaddyCollector F) : Type 0 where
  pub tuples : List (Bytes × CaddyTuple F)
  pub remembered : c.previous ≡ some tuples
  pub size_within : length tuples ≤ caddy_max_tuples
  pub all_tuples : All (λ (e : Bytes × CaddyTuple F). IsTuple e.1) tuples
  pub all_matched : All (λ (e : Bytes × CaddyTuple F). IsMatched e.1) tuples

module _ {F : Type 0} ⦃fl : Float64 F⦄ where
  abbrev pub Leaves : CaddyCollector F × CollectionResult F × Option CollectError → Type 0
  Leaves (c, r, none) = IsMemory c
  Leaves (c, r, some e) = c.previous ≡ none

  totals-IsMatched :
      (p : CaddyPopulation F) (t : CaddyTotals F)
      → totals p ≡ ok t
      → All (λ (e : Bytes × CaddyTuple F). IsMatched e.1) p.tuples
  unfolding totals
  totals-IsMatched p t h =
      All-sort_tuples IsMatched p.tuples (add_tuples-IsMatched (sort_tuples p.tuples) no_totals t h)

  with_totals-Leaves :
      (text : CollectError → String) (c : CaddyCollector F) (r : CollectionResult F)
      (p : CaddyPopulation F)
      → IsPopulation p
      → Leaves (with_totals text c r p (totals p))
  with_totals-Leaves text c r p is = elim (Result-cases (totals p)) [
    | inr (e, h) ↦ rw h refl
    | inl (t, h) ↦ rw h (record {
      tuples = p.tuples;
      remembered = refl;
      size_within = is.size_within;
      all_tuples = is.all_tuples;
      all_matched = totals-IsMatched p t h;
    })
  ]

  abbrev HasPopulation : Result CollectError (CaddyPopulation F) → Type 0
  HasPopulation (ok p) = IsPopulation p
  HasPopulation (err e) = Unit

  with_population-Leaves :
      (text : CollectError → String) (c : CaddyCollector F) (r : CollectionResult F)
      (s : Result CollectError (CaddyPopulation F))
      → HasPopulation s
      → Leaves (with_population text c r s)
  with_population-Leaves text c r (err e) is = refl
  with_population-Leaves text c r (ok p) is = elim (Bool-cases (no_tuples p.tuples)) [
    | inl e ↦ rw e refl
    | inr e ↦ rw e (with_totals-Leaves text c r p is)
  ]

  parsed_population-HasPopulation :
      (p : Parsed (CaddyPopulation F) CaddyError)
      → IsPopulation p.state
      → HasPopulation (parsed_population p)
  parsed_population-HasPopulation p is = elim (Option-cases p.error) [
    | inl e ↦ rw e is
    | inr (f, e) ↦ rw e tt
  ]

scrape-HasPopulation :
    (F : Type 0) ⦃fl : Float64 F⦄ ⦃ft : FloatText F⦄ (quote : Bytes → Bytes) (limits : Limits)
    (host : Bytes) (response : Response)
    → HasPopulation {F = F} (scrape quote limits host response)
unfolding scrape
scrape-HasPopulation F quote limits host (unreachable message) = tt
scrape-HasPopulation F quote limits host (answered body format) =
    parsed_population-HasPopulation
      (parse (accept quote) (record { host = host; server = []; tuples = [] }) body format limits)
      (parse-keeps (accept quote) IsPopulation (accept-keeps quote)
        (record { host = host; server = []; tuples = [] }) body format limits
        (record { size_within = omega arith; all_tuples = tt }))

module _ {F : Type 0} ⦃fl : Float64 F⦄ ⦃ft : FloatText F⦄ where
  -- Whatever the endpoint answers: after a Caddy collection with an error nothing is remembered;
  -- after one without, at most 256 tuples are, each with a status from 100 to 599, and a count and
  -- a sum that were both seen and are finite and not negative, the count a whole number of at most
  -- 2^53 - 1.
  pub collect-Leaves :
      (quote : Bytes → Bytes) (text : CollectError → String) (limits : Limits)
      (started finished : Time) (c : CaddyCollector F) (response : Response)
      → Leaves (collect quote text limits started finished c response)
  unfolding collect
  collect-Leaves quote text limits started finished c response =
      elim (Bool-cases (is_configured c)) [
        | inl e ↦ rw e (
            with_population-Leaves text c (empty_result c.target_name started finished)
              (scrape quote limits c.host response)
              (scrape-HasPopulation F quote limits c.host response))
        | inr e ↦ rw e refl
      ]
