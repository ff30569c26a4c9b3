-- ===== src/Storage/Downsample/Totals.antt =====
-- What a bucket's summary holds (internal/storage/downsample.go): each field as a function of the
-- values that the bucket's points have, with no running state.
use statlite.Float.{Float64}
use statlite.Time.{Time}
use statlite.Storage.Types.{SeriesPoint}
use statlite.Storage.Downsample.{
  SumCount, BucketAccumulator, empty_sum, add_sum, add_weighted_latency, sum_result, avg_result,
  weighted_result, new_bucket_accumulator, add_point, bucket_point,
}
use statlite.Storage.Series.{same_app_run}
use statlite.Storage.Downsample.Groups.{summarise}
use statlite.Prelude.{
  ℕ, ◌+◌, ◌≡◌, refl, ◌∙◌, inl, inr, Bool, true, false, not, ◌&&◌, Option, none, some, List, [], ◌∷◌,
  arith, ◌==◌, if◌then◌else◌, Bool-cases, Option-cases, length, foldl, allb,
}

module _ {F : Type 0} where
  abbrev pub cons_some : Option F → List F → List F
  cons_some none vs = vs
  cons_some (some v) vs = v ∷ vs

  -- The values that are not null, in order.
  abbrev pub present : (SeriesPoint F → Option F) → List (SeriesPoint F) → List F
  present f [] = []
  present f (p ∷ ps) = cons_some (f p) (present f ps)

module _ {F : Type 0} ⦃fl : Float64 F⦄ where
  -- Null for no value; else the values added in order.
  abbrev pub sum_of : List F → Option F
  sum_of [] = none
  sum_of (v ∷ vs) = some (foldl fl.add fl.zero_f (v ∷ vs))

  abbrev pub mean_of : List F → Option F
  mean_of [] = none
  mean_of (v ∷ vs) = some (fl.div (foldl fl.add fl.zero_f (v ∷ vs)) (fl.of_nat (length (v ∷ vs))))

  pub sums : (SeriesPoint F → Option F) → SumCount F → List (SeriesPoint F) → SumCount F
  sums f s [] = s
  sums f s (p ∷ ps) = sums f (add_sum s (f p)) ps

  abbrev plus : SumCount F → List F → SumCount F
  plus s vs = record { sum = foldl fl.add s.sum vs; n = s.n + length vs }

  sums-eq_plus :
      (f : SeriesPoint F → Option F) (s : SumCount F) (g : List (SeriesPoint F))
      → sums f s g ≡ plus s (present f g)
  unfolding sums add_sum
  sums-eq_plus f s [] = ground arith
  sums-eq_plus f s (p ∷ ps) = elim (Option-cases (f p)) [
    | inl e ↦ rw e (sums-eq_plus f s ps)
    | inr (v, e) ↦
        rw e (sums-eq_plus f (record { sum = fl.add s.sum v; n = s.n + 1 }) ps ∙ ground arith)
  ]

  sum_result-plus : (vs : List F) → sum_result (plus empty_sum vs) ≡ sum_of vs
  unfolding sum_result
  sum_result-plus [] = refl
  sum_result-plus (v ∷ vs) = ground arith

  avg_result-plus : (vs : List F) → avg_result (plus empty_sum vs) ≡ mean_of vs
  unfolding avg_result
  avg_result-plus [] = refl
  avg_result-plus (v ∷ vs) = ground arith

  -- Every sum of the open bucket runs on its own.
  sums-foldl_add :
      (a : BucketAccumulator F) (g : List (SeriesPoint F))
      → let b = foldl add_point a g in
        (b.requests ≡ sums (λ p. p.requests) a.requests g)
        × (b.http_404 ≡ sums (λ p. p.http_404) a.http_404 g)
        × (b.http_4xx ≡ sums (λ p. p.http_4xx) a.http_4xx g)
        × (b.http_5xx ≡ sums (λ p. p.http_5xx) a.http_5xx g)
        × (b.heap ≡ sums (λ p. p.heap_used_bytes) a.heap g)
        × (b.cpu ≡ sums (λ p. p.process_cpu_usage) a.cpu g)
        × (b.host_cpu ≡ sums (λ p. p.host_cpu_usage) a.host_cpu g)
        × (b.host_memory_used ≡ sums (λ p. p.host_memory_used_bytes) a.host_memory_used g)
        × (b.host_memory_total ≡ sums (λ p. p.host_memory_total_bytes) a.host_memory_total g)
        × (b.host_memory_usage ≡ sums (λ p. p.host_memory_usage) a.host_memory_usage g)
        × (b.host_disk_used ≡ sums (λ p. p.host_disk_used_bytes) a.host_disk_used g)
        × (b.host_disk_total ≡ sums (λ p. p.host_disk_total_bytes) a.host_disk_total g)
        × (b.host_disk_usage ≡ sums (λ p. p.host_disk_usage) a.host_disk_usage g)
  unfolding add_point sums
  sums-foldl_add a [] =
      (refl, refl, refl, refl, refl, refl, refl, refl, refl, refl, refl, refl, refl)
  sums-foldl_add a (p ∷ ps) = sums-foldl_add (add_point a p) ps

  sum_field :
      (f : SeriesPoint F → Option F) (s : SumCount F) (g : List (SeriesPoint F))
      → s ≡ sums f empty_sum g
      → sum_result s ≡ sum_of (present f g)
  sum_field f s g h = rw h (rw (sums-eq_plus f empty_sum g) (sum_result-plus (present f g)))

  avg_field :
      (f : SeriesPoint F → Option F) (s : SumCount F) (g : List (SeriesPoint F))
      → s ≡ sums f empty_sum g
      → avg_result s ≡ mean_of (present f g)
  avg_field f s g h = rw h (rw (sums-eq_plus f empty_sum g) (avg_result-plus (present f g)))

  -- A bucket's counters are the sums, in order, of the values that its points have, and null where
  -- no point has one; its gauges are the means of those values, and null likewise.
  pub summarise_fields :
      (b : Time) (g : List (SeriesPoint F))
      → let s = summarise (b, g) in
        (s.requests ≡ sum_of (present (λ p. p.requests) g))
        × (s.http_404 ≡ sum_of (present (λ p. p.http_404) g))
        × (s.http_4xx ≡ sum_of (present (λ p. p.http_4xx) g))
        × (s.http_5xx ≡ sum_of (present (λ p. p.http_5xx) g))
        × (s.heap_used_bytes ≡ mean_of (present (λ p. p.heap_used_bytes) g))
        × (s.process_cpu_usage ≡ mean_of (present (λ p. p.process_cpu_usage) g))
        × (s.host_cpu_usage ≡ mean_of (present (λ p. p.host_cpu_usage) g))
        × (s.host_memory_used_bytes ≡ mean_of (present (λ p. p.host_memory_used_bytes) g))
        × (s.host_memory_total_bytes ≡ mean_of (present (λ p. p.host_memory_total_bytes) g))
        × (s.host_memory_usage ≡ mean_of (present (λ p. p.host_memory_usage) g))
        × (s.host_disk_used_bytes ≡ mean_of (present (λ p. p.host_disk_used_bytes) g))
        × (s.host_disk_total_bytes ≡ mean_of (present (λ p. p.host_disk_total_bytes) g))
        × (s.host_disk_usage ≡ mean_of (present (λ p. p.host_disk_usage) g))
  unfolding summarise bucket_point new_bucket_accumulator
  summarise_fields b g =
      let h = sums-foldl_add (new_bucket_accumulator b) g in
      (
        sum_field (λ p. p.requests) _ g h.0,
        sum_field (λ p. p.http_404) _ g h.1,
        sum_field (λ p. p.http_4xx) _ g h.2,
        sum_field (λ p. p.http_5xx) _ g h.3,
        avg_field (λ p. p.heap_used_bytes) _ g h.4,
        avg_field (λ p. p.process_cpu_usage) _ g h.5,
        avg_field (λ p. p.host_cpu_usage) _ g h.6,
        avg_field (λ p. p.host_memory_used_bytes) _ g h.7,
        avg_field (λ p. p.host_memory_total_bytes) _ g h.8,
        avg_field (λ p. p.host_memory_usage) _ g h.9,
        avg_field (λ p. p.host_disk_used_bytes) _ g h.10,
        avg_field (λ p. p.host_disk_total_bytes) _ g h.11,
        avg_field (λ p. p.host_disk_usage) _ g h.12,
      )

  -- The latencies that count, with their requests: both present, and the requests not <= 0.
  abbrev pub cons_weight : Option F → Option F → List (F × F) → List (F × F)
  cons_weight (some latency) (some requests) rest =
      if fl.fle requests fl.zero_f then rest else (latency, requests) ∷ rest
  cons_weight _ _ rest = rest

  abbrev pub weights : List (SeriesPoint F) → List (F × F)
  weights [] = []
  weights (p ∷ ps) = cons_weight p.average_latency_seconds p.requests (weights ps)

  abbrev pub weighted_total : F → List (F × F) → F
  weighted_total acc [] = acc
  weighted_total acc ((l, r) ∷ ws) = weighted_total (fl.add acc (fl.mul l r)) ws

  abbrev pub request_total : F → List (F × F) → F
  request_total acc [] = acc
  request_total acc ((l, r) ∷ ws) = request_total (fl.add acc r) ws

  abbrev latency_sums : BucketAccumulator F → F × F
  latency_sums a = (a.latency_weighted_sum, a.latency_requests_sum)

  add_weighted_latency-cons :
      (w r : F) (latency requests : Option F) (ws : List (F × F))
      → let s = add_weighted_latency (w, r) latency requests in
        (weighted_total s.0 ws ≡ weighted_total w (cons_weight latency requests ws))
        × (request_total s.1 ws ≡ request_total r (cons_weight latency requests ws))
  unfolding add_weighted_latency
  add_weighted_latency-cons w r none requests ws = (refl, refl)
  add_weighted_latency-cons w r (some l) none ws = (refl, refl)
  add_weighted_latency-cons w r (some l) (some q) ws = elim (Bool-cases (fl.fle q fl.zero_f)) [
    | inl e ↦ rw e (refl, refl)
    | inr e ↦ rw e (refl, refl)
  ]

  pub latency-foldl_add :
      (a : BucketAccumulator F) (g : List (SeriesPoint F))
      → let b = foldl add_point a g in
        (b.latency_weighted_sum ≡ weighted_total a.latency_weighted_sum (weights g))
        × (b.latency_requests_sum ≡ request_total a.latency_requests_sum (weights g))
  unfolding add_point
  latency-foldl_add a [] = (refl, refl)
  latency-foldl_add a (p ∷ ps) =
      let ih = latency-foldl_add (add_point a p) ps in
      let step =
        add_weighted_latency-cons a.latency_weighted_sum a.latency_requests_sum
          p.average_latency_seconds p.requests (weights ps) in
      (ih.0 ∙ step.0, ih.1 ∙ step.1)

  -- A bucket's latency is the mean of its points' latencies weighted by their requests, over the
  -- points that have a latency and a positive request delta; null where those requests add to
  -- nothing positive.
  pub summarise_latency :
      (b : Time) (g : List (SeriesPoint F))
      → (summarise (b, g)).average_latency_seconds ≡ (
          if fl.fle (request_total fl.zero_f (weights g)) fl.zero_f
          then none
          else some
              (fl.div (weighted_total fl.zero_f (weights g)) (request_total fl.zero_f (weights g))))
  unfolding summarise bucket_point new_bucket_accumulator weighted_result
  summarise_latency b g = let h = latency-foldl_add (new_bucket_accumulator b) g in rw (h.0, h.1)

  poll_id_step :
      (is_set common : Bool) (i j : ℕ) (ps : List (SeriesPoint F))
      → is_set ≡ true
      → let differs = common && not (i == j) in
        let common' = if not is_set then true else if differs then false else common in
        let i' = if not is_set then j else if differs then 0 else i in
        (if common' && allb (λ q. i' == q.poll_id) ps then i' else 0)
        ≡ (if common && ((i == j) && allb (λ q. i == q.poll_id) ps) then i else 0)
  poll_id_step false common i j ps h = cc
  poll_id_step true false i j ps h = refl
  poll_id_step true true i j ps h = elim (Bool-cases (i == j)) [ inl e ↦ rw e | inr e ↦ rw e ]

  app_run_step :
      (is_set common : Bool) (i j : Option ℕ) (ps : List (SeriesPoint F))
      → is_set ≡ true
      → let differs = common && not (same_app_run i j) in
        let common' = if not is_set then true else if differs then false else common in
        let i' = if not is_set then j else if differs then none else i in
        (if common' && allb (λ q. same_app_run i' q.app_run_id) ps then i' else none) ≡ (
          if common && ((same_app_run i j) && allb (λ q. same_app_run i q.app_run_id) ps)
          then i
          else none)
  app_run_step false common i j ps h = cc
  app_run_step true false i j ps h = refl
  app_run_step true true i j ps h = elim (Bool-cases (same_app_run i j)) [
    | inl e ↦ rw e
    | inr e ↦ rw e
  ]

  identity-foldl_add :
      (a : BucketAccumulator F) (g : List (SeriesPoint F))
      → a.identity_set ≡ true
      → let b = foldl add_point a g in
        ((if b.poll_id_common then b.poll_id else 0)
          ≡ (if a.poll_id_common && allb (λ q. a.poll_id == q.poll_id) g then a.poll_id else 0))
        × ((if b.app_run_common then b.app_run_id else none) ≡ (
            if a.app_run_common && allb (λ q. same_app_run a.app_run_id q.app_run_id) g
            then a.app_run_id
            else none))
  unfolding add_point
  identity-foldl_add a [] h = ground arith
  identity-foldl_add a (p ∷ ps) h =
      let ih = identity-foldl_add (add_point a p) ps refl in
      (
        ih.0 ∙ poll_id_step a.identity_set a.poll_id_common a.poll_id p.poll_id ps h,
        ih.1 ∙ app_run_step a.identity_set a.app_run_common a.app_run_id p.app_run_id ps h,
      )

  -- A bucket keeps the poll id and the app run of its first point exactly as long as all its points
  -- agree on them; else the id is 0 and the run null.
  summarise_identity :
      (b : Time) (p : SeriesPoint F) (g : List (SeriesPoint F))
      → let s = summarise (b, p ∷ g) in
        (s.poll_id ≡ (if allb (λ q. p.poll_id == q.poll_id) g then p.poll_id else 0))
        × (s.app_run_id
            ≡ (if allb (λ q. same_app_run p.app_run_id q.app_run_id) g then p.app_run_id else none))
  unfolding summarise bucket_point new_bucket_accumulator add_point
  summarise_identity b p g = identity-foldl_add (add_point (new_bucket_accumulator b) p) g refl
