-- ===== src/Collector/Caddy/Continuity.antt =====
-- When the Caddy collector's counters continue (internal/collector/caddy.go).
use statlite.Result.{Result, ok, err}
use statlite.Float.{Float64}
use statlite.Time.{Time}
use statlite.Collector.Model.{CollectionResult, MetricKind, add_sample, add_event}
use statlite.Bytes.{Bytes, bytes_eq}
use statlite.Prometheus.{Limits}
use statlite.Prometheus.Samples.{FloatText}
use statlite.Collector.Caddy.{
  CaddyTuple, CaddyPopulation, CaddyTotals, CaddyError, find_tuple, totals,
}
use statlite.Collector.Caddy.Collect.{
  CaddyCollector, Response, CollectError, not_configured, not_observed, population_invalid,
  has_dropped, any_dropped, is_break, add_totals, is_configured, no_tuples, with_totals,
  with_population, collect, scrape, empty_result,
}
use statlite.Prelude.{
  ◌≢◌, String, ◌≡◌, refl, sym, ◌∙◌, ◌↔◌, inl, inr, true, false, not, ◌||◌, Option, none, some, List,
  [], ◌∷◌, arith, Bool-cases, Option-cases, All,
}

module _ {F : Type 0} ⦃fl : Float64 F⦄ where
  -- A tuple of the last population is still there, with no lower count and sum.
  abbrev pub IsKept : List (Bytes × CaddyTuple F) → Bytes × CaddyTuple F → Type 0
  IsKept tuples (key, old) =
      (current : CaddyTuple F) × (find_tuple key tuples ≡ some current)
      × (fl.flt current.count old.count ≡ false)
      × (fl.flt current.sum old.sum ≡ false)

  has_dropped-IsKept :
      (old : CaddyTuple F) (o : Option (CaddyTuple F))
      → has_dropped old o ≡ false
      → (current : CaddyTuple F) × (o ≡ some current)
        × (fl.flt current.count old.count ≡ false)
        × (fl.flt current.sum old.sum ≡ false)
  has_dropped-IsKept old none h = cc
  has_dropped-IsKept old (some current) h = (current, refl, ground arith, ground arith)

  any_dropped-IsKept :
      (previous tuples : List (Bytes × CaddyTuple F))
      → (any_dropped previous tuples ≡ false) ↔ All (IsKept tuples) previous
  unfolding any_dropped
  any_dropped-IsKept [] tuples = (λ _. tt, λ _. refl)
  any_dropped-IsKept ((key, old) ∷ previous) tuples = (
    λ h. (
      has_dropped-IsKept old (find_tuple key tuples) (ground arith),
      (any_dropped-IsKept previous tuples).0 (ground arith),
    ),
    λ h. let (current, e, c, s) = h.0 in rw (e, c, s) ((any_dropped-IsKept previous tuples).1 h.1),
  )

  add_sample-break :
      (r : CollectionResult F) (key : String) (kind : MetricKind) (value : F) (unit : String)
      → (add_sample r key kind value unit).counter_continuity_break ≡ r.counter_continuity_break
  unfolding add_sample
  add_sample-break r key kind value unit = ground arith

  add_totals-break :
      (r : CollectionResult F) (t : CaddyTotals F)
      → (add_totals r t).counter_continuity_break ≡ r.counter_continuity_break
  unfolding add_totals
  add_totals-break r t =
      add_sample-break _ _ _ _ _
      ∙ add_sample-break _ _ _ _ _
      ∙ add_sample-break _ _ _ _ _
      ∙ add_sample-break _ _ _ _ _
      ∙ add_sample-break _ _ _ _ _

  -- The counters of the last population continue in one that was found.
  pub record IsContinued (c : CaddyCollector F) (p : CaddyPopulation F) : Type 0 where
    pub old : List (Bytes × CaddyTuple F)
    pub remembered : c.previous ≡ some old
    pub same_server : bytes_eq c.server p.server ≡ true
    pub all_kept : All (IsKept p.tuples) old

  -- A success: what was found is remembered, continuous or not, and continuity is told exactly.
  pub record IsRemembered (found : Result CollectError (CaddyPopulation F)) (c d : CaddyCollector F)
      (r : CollectionResult F) : Type 0 where
    pub population : CaddyPopulation F
    pub was_found : found ≡ ok population
    pub has_tuples : population.tuples ≢ []
    pub memory : d ≡ record c { previous = some population.tuples; server = population.server }
    pub continuity : (r.counter_continuity_break ≡ false) ↔ IsContinued c population

  -- Why a collection fails.
  pub data IsFailure (found : Result CollectError (CaddyPopulation F)) (c : CaddyCollector F)
      : CollectError → Type 0 where
    unconfigured : is_configured c ≡ false → IsFailure found c not_configured
    unread : {e : CollectError} → found ≡ err e → IsFailure found c e
    unobserved :
        (p : CaddyPopulation F) → found ≡ ok p → p.tuples ≡ [] → IsFailure found c not_observed
    invalid :
        {e : CaddyError} (p : CaddyPopulation F)
        → found ≡ ok p
        → totals p ≡ err e
        → IsFailure found c (population_invalid e)

  -- What a collection that found a population, or an error, leaves behind.
  abbrev pub Remembers :
      Result CollectError (CaddyPopulation F)
      → CaddyCollector F
      → CaddyCollector F × CollectionResult F × Option CollectError
      → Type 0
  Remembers found c (d, r, some e) =
      IsFailure found c e × (d ≡ record c { previous = none; server = [] }) × (r.samples ≡ [])
  Remembers found c (d, r, none) = IsRemembered found c d r

  -- The memory and the continuity of a success.
  is_break-IsContinued :
      (c : CaddyCollector F) (p : CaddyPopulation F) → (is_break c p ≡ false) ↔ IsContinued c p
  is_break-IsContinued c p = elim (Option-cases c.previous) [
    | inl e ↦ (λ h. cc (sym (rw e at h)), λ k. absurd (let r = k.remembered in ground arith))
    | inr (old, e) ↦ (
      λ h.
          let h' : (not (bytes_eq c.server p.server) || any_dropped old p.tuples) ≡ false =
            rw e at h in
          record {
            old = old;
            remembered = e;
            same_server = ground arith;
            all_kept = (any_dropped-IsKept old p.tuples).0 (ground arith);
          },
      λ k.
          let kept = (any_dropped-IsKept k.old p.tuples).1 k.all_kept in
          rw (k.remembered) (rw (k.same_server) kept),
    )
  ]

  no_tuples-nil : (tuples : List (Bytes × CaddyTuple F)) → no_tuples tuples ≡ false → tuples ≢ []
  no_tuples-nil [] h = cc h
  no_tuples-nil (_ ∷ _) h = λ e. cc e

  nil-no_tuples : (tuples : List (Bytes × CaddyTuple F)) → no_tuples tuples ≡ true → tuples ≡ []
  nil-no_tuples [] h = refl
  nil-no_tuples (_ ∷ _) h = cc

  with_totals-Remembers :
      (text : CollectError → String) (c : CaddyCollector F) (r : CollectionResult F)
      (p : CaddyPopulation F) (t : Result CaddyError (CaddyTotals F))
      → totals p ≡ t
      → r.samples ≡ []
      → p.tuples ≢ []
      → Remembers (ok p) c (with_totals text c r p t)
  unfolding add_event
  with_totals-Remembers text c r p (err e) i h _ = (invalid p refl i, refl, h)
  with_totals-Remembers text c r p (ok t) i h k = record {
    population = p;
    was_found = refl;
    has_tuples = k;
    memory = refl;
    continuity =
        rw (add_totals-break (record r { counter_continuity_break = is_break c p }) t)
          (is_break-IsContinued c p);
  }

  with_population-Remembers :
      (text : CollectError → String) (c : CaddyCollector F) (r : CollectionResult F)
      (s : Result CollectError (CaddyPopulation F))
      → r.samples ≡ []
      → Remembers s c (with_population text c r s)
  unfolding add_event
  with_population-Remembers text c r (err e) h = (unread refl, refl, h)
  with_population-Remembers text c r (ok p) h = elim (Bool-cases (no_tuples p.tuples)) [
    | inl e ↦ rw e (unobserved p refl (nil-no_tuples p.tuples e), refl, h)
    | inr e ↦ rw e (with_totals-Remembers text c r p (totals p) refl h (no_tuples-nil p.tuples e))
  ]

module _ {F : Type 0} ⦃fl : Float64 F⦄ ⦃ft : FloatText F⦄ where
  -- A Caddy collection fails only if it is not configured, its answer is not read, or the population
  -- found is empty or has no totals; then no population and no server is remembered and no sample is
  -- reported. One that succeeded found a population with tuples in the endpoint's answer, and
  -- remembers just its tuples and its server, whether the counters continue or not. Its counters
  -- are reported as continuous exactly if a population was remembered before it, of the same
  -- server, each of whose tuples is in the new population with a count and a sum that are not lower.
  -- The rest of the collector is as before in both cases.
  pub collect-Remembers :
      (quote : Bytes → Bytes) (text : CollectError → String) (limits : Limits)
      (started finished : Time) (c : CaddyCollector F) (response : Response)
      → Remembers
          (scrape quote limits c.host response)
          c
          (collect quote text limits started finished c response)
  unfolding collect add_event
  collect-Remembers quote text limits started finished c response =
      elim (Bool-cases (is_configured c)) [
        | inl e ↦ rw e (
            with_population-Remembers text c (empty_result c.target_name started finished)
              (scrape quote limits c.host response) refl)
        | inr e ↦ rw e (unconfigured e, refl, refl)
      ]
