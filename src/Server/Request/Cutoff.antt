-- ===== src/Server/Request/Cutoff.antt =====
-- Where a window starts at the retention's cutoff, its first point has lost the baseline of its
-- counters (internal/server/request.go): which point the clearing finds.
use mathlib.Core.Path.{subst}
use statlite.Time.{Time, before}
use statlite.Storage.Types.{SeriesPoint, Series}
use statlite.Server.Request.{
  clear_series_counter_fields, is_earlier, cutoff_index, clear_at, clear_found, clear_latest,
  clear_cutoff_counter_baseline,
}
use statlite.Prelude.{
  ℕ, zero, suc, ◌+◌, ◌≤◌, ◌≡◌, refl, sym, ap, ◌∙◌, ◌⊎◌, inl, inr, true, false, Option, none, some,
  List, [], ◌∷◌, ◌++◌, arith, Bool-cases, Option-cases, All, some_injective,
}

abbrev NotAfter : Time → Option (ℕ × Time) → Type 0
NotAfter at none = Unit
NotAfter at (some (j, b)) = at ≤ b

NotAfter-self :
    (k : ℕ) (at : Time) (best : Option (ℕ × Time)) → best ≡ some (k, at) → NotAfter at best
NotAfter-self k at none h = tt
NotAfter-self k at (some (j, b)) h = ground arith

NotAfter-earlier :
    (t at : Time) (best : Option (ℕ × Time)) → is_earlier t best ≡ true → at ≤ t → NotAfter at best
NotAfter-earlier t at none f h = tt
NotAfter-earlier t at (some (j, b)) f h = ground arith

later-NotAfter :
    (t at : Time) (best : Option (ℕ × Time)) → is_earlier t best ≡ false → NotAfter at best → at ≤ t
later-NotAfter t at none f h = absurd (ground arith)
later-NotAfter t at (some (j, b)) f h = ground arith

module _ {F : Type 0} where
  abbrev pub get_elem? : List (SeriesPoint F) → ℕ → Option (SeriesPoint F)
  get_elem? [] i = none
  get_elem? (p ∷ ps) zero = some p
  get_elem? (p ∷ ps) (suc i) = get_elem? ps i

  -- The point at an index, from position `i` on, of a timestamp that is not before the cutoff.
  abbrev IsAt : Time → ℕ → List (SeriesPoint F) → ℕ → Time → Type 0
  IsAt cutoff i ps k at =
      (n : ℕ) × (p : SeriesPoint F) × (k ≡ i + n)
      × (get_elem? ps n ≡ some p)
      × (p.timestamp ≡ at)
      × (cutoff ≤ at)

  -- No retained point is earlier.
  abbrev pub IsEarliest : Time → Time → List (SeriesPoint F) → Type 0
  IsEarliest cutoff at ps = All (λ (q : SeriesPoint F). cutoff ≤ q.timestamp → at ≤ q.timestamp) ps

  -- Either the index found so far stays, or one of the points from position `i` on is found.
  abbrev FoundFrom : Time → ℕ → Option (ℕ × Time) → List (SeriesPoint F) → ℕ → Time → Type 0
  FoundFrom cutoff i best ps k at =
      ((best ≡ some (k, at)) ⊎ IsAt cutoff i ps k at) × IsEarliest cutoff at ps × NotAfter at best

  IsAt-tail :
      (cutoff : Time) (i : ℕ) (p : SeriesPoint F) (ps : List (SeriesPoint F)) (k : ℕ) (at : Time)
      → IsAt cutoff (i + 1) ps k at
      → IsAt cutoff i (p ∷ ps) k at
  IsAt-tail cutoff i p ps k at (n, q, e, g, t, c) = (suc n, q, omega arith, g, t, c)

  cutoff_index-FoundFrom :
      (cutoff : Time) (i : ℕ) (best : Option (ℕ × Time)) (ps : List (SeriesPoint F)) (k : ℕ)
      (at : Time)
      → cutoff_index cutoff i best ps ≡ some (k, at)
      → FoundFrom cutoff i best ps k at
  unfolding cutoff_index
  cutoff_index-FoundFrom cutoff i best [] k at h = (inl h, tt, NotAfter-self k at best h)
  cutoff_index-FoundFrom cutoff i best (p ∷ ps) k at h =
      elim (Bool-cases (before p.timestamp cutoff)) [
        | inl e ↦
            let (found, least, after) =
              cutoff_index-FoundFrom cutoff (i + 1) best ps k at (ground arith) in
            (
              elim found [ inl b ↦ inl b | inr t ↦ inr (IsAt-tail cutoff i p ps k at t) ],
              (λ c. absurd (ground arith), least),
              after,
            )
        | inr e ↦ elim (Bool-cases (is_earlier p.timestamp best)) [
          | inl f ↦
              let (found, least, after) =
                cutoff_index-FoundFrom cutoff (i + 1) (some (i, p.timestamp)) ps k at
                  (ground arith) in
              (
                elim found [
                  | inl b ↦ inr (0, p, ground arith, refl, ground arith, ground arith)
                  | inr t ↦ inr (IsAt-tail cutoff i p ps k at t)
                ],
                (λ _. after, least),
                NotAfter-earlier p.timestamp at best f after,
              )
          | inr f ↦
              let (found, least, after) =
                cutoff_index-FoundFrom cutoff (i + 1) best ps k at (ground arith) in
              (
                elim found [ inl b ↦ inl b | inr t ↦ inr (IsAt-tail cutoff i p ps k at t) ],
                (λ _. later-NotAfter p.timestamp at best f after, least),
                after,
              )
        ]
      ]

  clear_at-get_elem? :
      (n : ℕ) (ps : List (SeriesPoint F)) (p : SeriesPoint F)
      → get_elem? ps n ≡ some p
      → (before_it : List (SeriesPoint F)) × (after_it : List (SeriesPoint F)) × (ps
          ≡ before_it ++ p ∷ after_it)
        × (clear_at n ps ≡ before_it ++ clear_series_counter_fields p ∷ after_it)
  unfolding clear_at
  clear_at-get_elem? n [] p h = cc
  clear_at-get_elem? zero (q ∷ qs) p h = (
    [],
    qs,
    ap (λ x. x ∷ qs) (some_injective h),
    ap (λ x. clear_series_counter_fields x ∷ qs) (some_injective h),
  )
  clear_at-get_elem? (suc n) (q ∷ qs) p h =
      let (b, a, e, c) = clear_at-get_elem? n qs p h in
      (q ∷ b, a, ap (λ x. q ∷ x) e, ap (λ x. q ∷ x) c)

  cutoff_index-eq_none :
      (cutoff : Time) (i : ℕ) (best : Option (ℕ × Time)) (ps : List (SeriesPoint F))
      → cutoff_index cutoff i best ps ≡ none
      → (best ≡ none) × All (λ (q : SeriesPoint F). before q.timestamp cutoff ≡ true) ps
  unfolding cutoff_index
  cutoff_index-eq_none cutoff i best [] h = (h, tt)
  cutoff_index-eq_none cutoff i best (p ∷ ps) h = elim (Bool-cases (before p.timestamp cutoff)) [
    | inl e ↦
        let (b, all) = cutoff_index-eq_none cutoff (i + 1) best ps (ground arith) in (b, (e, all))
    | inr e ↦ elim (Bool-cases (is_earlier p.timestamp best)) [
      | inl f ↦ absurd (
          let (b, _) =
            cutoff_index-eq_none cutoff (i + 1) (some (i, p.timestamp)) ps (ground arith) in
          ground arith)
      | inr f ↦ absurd (
          let (b, _) = cutoff_index-eq_none cutoff (i + 1) best ps (ground arith) in
          let g : is_earlier p.timestamp best ≡ true = ap (is_earlier p.timestamp) b in
          ground arith)
    ]
  ]

  clear_found-IsEarliest :
      (cutoff : Time) (points : List (SeriesPoint F)) (k : ℕ) (at : Time)
      → cutoff_index cutoff 0 none points ≡ some (k, at)
      → (before_it : List (SeriesPoint F)) × (p : SeriesPoint F) × (after_it : List (SeriesPoint F))
        × (points ≡ before_it ++ p ∷ after_it)
        × (clear_found (cutoff_index cutoff 0 none points) points
            ≡ before_it ++ clear_series_counter_fields p ∷ after_it)
        × (cutoff ≤ p.timestamp)
        × IsEarliest cutoff p.timestamp points
  clear_found-IsEarliest cutoff points k at h =
      let (found, least, _) = cutoff_index-FoundFrom cutoff 0 none points k at h in
      elim found [
        | inl b ↦ absurd (ground arith)
        | inr (n, p, e, g, t, c) ↦
            let (b, a, same, cleared) = clear_at-get_elem? n points p g in
            let index : k ≡ n = omega arith in
            (
              b,
              p,
              a,
              same,
              ap (λ o. clear_found o points) h ∙ ap (λ j. clear_at j points) index ∙ cleared,
              subst (λ x. cutoff ≤ x) (sym t) c,
              subst (λ x. IsEarliest cutoff x points) (sym t) least,
            )
      ]

  -- Clearing the baseline at a cutoff changes the latest point and at most one point of the series.
  -- If all points are before the cutoff, the points stay; else exactly one of them loses its counter
  -- deltas and its latency: it is not before the cutoff, and no point that is not before the cutoff
  -- is earlier. All points before and after it stay.
  pub clear_cutoff_counter_baseline-IsEarliest :
      (series : Series F) (cutoff : Time)
      → let latest = clear_latest series.first_poll_id cutoff series.latest_point in
        (All (λ (q : SeriesPoint F). before q.timestamp cutoff ≡ true) series.points
          × (clear_cutoff_counter_baseline (some series) cutoff
              ≡ some (record series { latest_point = latest })))
        ⊎ ((before_it : List (SeriesPoint F)) × (p : SeriesPoint F) × (after_it : List
              (SeriesPoint F))
            × (series.points ≡ before_it ++ p ∷ after_it)
            × (clear_cutoff_counter_baseline (some series) cutoff
                ≡ some (record series {
                  latest_point = latest;
                  points = before_it ++ clear_series_counter_fields p ∷ after_it;
                }))
            × (cutoff ≤ p.timestamp)
            × IsEarliest cutoff p.timestamp series.points)
  unfolding clear_cutoff_counter_baseline
  clear_cutoff_counter_baseline-IsEarliest series cutoff =
      let latest = clear_latest series.first_poll_id cutoff series.latest_point in
      let with_points : List (SeriesPoint F) → Option (Series F) =
        λ ps. some (record series { latest_point = latest; points = ps }) in
      elim (Option-cases (cutoff_index cutoff 0 none series.points)) [
        | inl e ↦ inl (
          (cutoff_index-eq_none cutoff 0 none series.points e).1,
          ap (λ o. with_points (clear_found o series.points)) e,
        )
        | inr ((k, at), e) ↦
            let (b, p, a, same, cleared, c, least) =
              clear_found-IsEarliest cutoff series.points k at e in
            inr (b, p, a, same, ap with_points cleared, c, least)
      ]
