-- ===== src/Storage/SeriesQuery/Bounded.antt =====
-- Which series a bounded query answers (internal/storage/series.go).
use mathlib.Core.Path.{subst}
use statlite.Result.{Result, ok, err}
use statlite.Float.{Float64}
use statlite.Time.{Time, before}
use statlite.Storage.Types.{Series, SeriesPoint}
use statlite.Storage.Db.{
  Db, PollRow, StoreError, target_name_required, start_not_before_end, poll_limit_exceeded,
}
use statlite.Storage.DashboardPolls.{window_polls}
use statlite.Storage.Series.{CounterValue, Baselines, series_counter_keys, or_else}
use statlite.Storage.SeriesRows.{samples_of, selects, series_polls}
use statlite.Storage.SeriesRows.Points.{
  HasDistinctIds, gather_polls, derive_points, series_with_baseline-derive_points,
}
use statlite.Storage.SeriesQuery.{
  public_poll_ids, public_metrics_poll_limit, newest_counter, baseline_polls, set_baseline,
  add_baselines, previous_counter_values_from, series_for_polls, is_empty_ids, series,
  bounded_series,
}
use statlite.Prelude.{
  ℕ, zero, suc, ◌≤◌, ◌<◌, String, ◌≡◌, refl, sym, ap, ◌∙◌, true, false, not, Option, none, some,
  List, [], ◌∷◌, map, arith, eq_iff, ltb, ◌==◌, if◌then◌else◌, All, length, take, filterb, anyb,
  str_eq, is_blank, lookup, lookup-insert, Bool-cases, inl, inr, ◌⊎◌, length-take,
}

take-all : {A : Type 0} (n : ℕ) (xs : List A) → length xs ≤ n → take n xs ≡ xs
take-all zero [] h = refl
take-all zero (x ∷ xs) h = absurd (omega arith)
take-all (suc n) [] h = refl
take-all (suc n) (x ∷ xs) h = ap (λ l. x ∷ l) (take-all n xs (omega arith))

length-map : {A B : Type 0} (f : A → B) (xs : List A) → length (map f xs) ≡ length xs
length-map f [] = refl
length-map f (x ∷ xs) = omega (arith, length-map f xs)

-- Every poll is selected by a list that has its id.
selects-own :
    (ps qs : List PollRow)
    → All (λ (q : PollRow). anyb (λ i. i == q.id) (map (λ (p : PollRow). p.id) ps) ≡ true) qs
    → filterb (λ (q : PollRow). selects (some (map (λ (p : PollRow). p.id) ps)) q.id) qs ≡ qs
selects-own ps [] h = refl
selects-own ps (q ∷ qs) h = rw (h.0) (ap (λ l. q ∷ l) (selects-own ps qs h.1))

selects-cons :
    (p : PollRow) (ids : List ℕ) (qs : List PollRow)
    → All (λ (q : PollRow). anyb (λ i. i == q.id) ids ≡ true) qs
    → All (λ (q : PollRow). anyb (λ i. i == q.id) (p.id ∷ ids) ≡ true) qs
selects-cons p ids [] h = tt
selects-cons p ids (q ∷ qs) h = (ground arith, selects-cons p ids qs h.1)

selects-All :
    (ps : List PollRow)
    → All (λ (q : PollRow). anyb (λ i. i == q.id) (map (λ (p : PollRow). p.id) ps) ≡ true) ps
selects-All [] = tt
selects-All (p ∷ ps) =
    (ground arith, selects-cons p (map (λ (q : PollRow). q.id) ps) ps (selects-All ps))

is_empty_ids-cases :
    (ps : List PollRow) → (ps ≡ []) ⊎ (is_empty_ids (some (map (λ (p : PollRow). p.id) ps)) ≡ false)
is_empty_ids-cases [] = inl refl
is_empty_ids-cases (p ∷ ps) = inr refl

module _ {F : Type 0} where
  series_polls-all :
      (db : Db F) (name : String) (start end : Time)
      → series_polls db name start end
          (some (map (λ (p : PollRow). p.id) (window_polls db name start end)))
        ≡ window_polls db name start end
  series_polls-all db name start end =
      selects-own (window_polls db name start end) (window_polls db name start end)
        (selects-All (window_polls db name start end))

  public_poll_ids-all :
      (db : Db F) (name : String) (start end : Time)
      → length (window_polls db name start end) ≤ public_metrics_poll_limit
      → public_poll_ids db name start end
        ≡ ok (map (λ (p : PollRow). p.id) (window_polls db name start end))
  unfolding public_poll_ids
  public_poll_ids-all db name start end h =
      let ps = window_polls db name start end in
      let size = length-map (λ (p : PollRow). p.id) ps in
      let all = take-all 4097 ps (omega arith) in
      rw all (
        let fits : ltb 4096 (length (map (λ (p : PollRow). p.id) ps)) ≡ false = ground arith in
        rw fits refl)

  public_poll_ids-poll_limit_exceeded :
      (db : Db F) (name : String) (start end : Time)
      → public_metrics_poll_limit < length (window_polls db name start end)
      → public_poll_ids db name start end ≡ err poll_limit_exceeded
  unfolding public_poll_ids
  public_poll_ids-poll_limit_exceeded db name start end h =
      let ps = window_polls db name start end in
      let size = length-map (λ (p : PollRow). p.id) (take 4097 ps) in
      let taken = length-take 4097 ps in
      let over : ltb 4096 (length (map (λ (p : PollRow). p.id) (take 4097 ps))) ≡ true =
        ground arith in
      rw over refl

  or_else_self : (a b : Option (CounterValue F)) → or_else a (or_else a b) ≡ or_else a b
  or_else_self none b = refl
  or_else_self (some x) b = refl

  or_else-none : (a : Option (CounterValue F)) → or_else a none ≡ a
  or_else-none none = refl
  or_else-none (some x) = refl

  lookup-set_baseline :
      (key other : String) (counter : Option (CounterValue F)) (previous : Baselines F)
      → lookup other (set_baseline key counter previous) ≡ (
          if str_eq key other
          then or_else counter (lookup other previous)
          else lookup other previous)
  lookup-set_baseline key other none previous = ground arith
  lookup-set_baseline key other (some c) previous = lookup-insert key other c previous

  lookup-add_baselines :
      (db : Db F) (polls : List PollRow) (keys : List String) (previous : Baselines F)
      (key : String)
      → lookup key (add_baselines db polls keys previous) ≡ (
          if anyb (λ k. str_eq k key) keys
          then or_else (newest_counter db key polls) (lookup key previous)
          else lookup key previous)
  unfolding add_baselines
  lookup-add_baselines db polls [] previous key = refl
  lookup-add_baselines db polls (k ∷ keys) previous key =
      let rest =
        lookup-add_baselines db polls keys (set_baseline k (newest_counter db k polls) previous)
          key in
      let set = lookup-set_baseline k key (newest_counter db k polls) previous in
      elim (Bool-cases (str_eq k key)) [
        | inl e ↦
            let k_eq : k ≡ key = ground (arith, eq_iff k key) in
            let own : lookup key (set_baseline k (newest_counter db k polls) previous)
                ≡ or_else (newest_counter db key polls) (lookup key previous) =
              set
              ∙ rw e (ap (λ n. or_else (newest_counter db n polls) (lookup key previous)) k_eq) in
            let before_window = set_baseline k (newest_counter db k polls) previous in
            let newest = or_else (newest_counter db key polls) (lookup key previous) in
            let done : (if anyb (λ n. str_eq n key) keys
                  then or_else (newest_counter db key polls) (lookup key before_window)
                  else lookup key before_window)
                ≡ newest =
              rw own (elim (Bool-cases (anyb (λ n. str_eq n key) keys)) [
                | inl g ↦ rw g (or_else_self (newest_counter db key polls) (lookup key previous))
                | inr g ↦ rw g refl
              ]) in
            rw e (rest ∙ done)
        | inr e ↦
            let kept : lookup key (set_baseline k (newest_counter db k polls) previous)
                ≡ lookup key previous =
              set ∙ rw e refl in
            rw e (
              rest
              ∙ ap
                  (λ x.
                    if anyb (λ n. str_eq n key) keys
                    then or_else (newest_counter db key polls) x
                    else x)
                  kept)
      ]

  -- The map holds for each key that is asked for what its query finds, and nothing for another key.
  pub lookup-previous_counter_values_from :
      (db : Db F) (name : String) (start : Time) (keys : List String) (cutoff : Time) (key : String)
      → lookup key (previous_counter_values_from db name start keys cutoff) ≡ (
          if anyb (λ k. str_eq k key) keys
          then newest_counter db key (baseline_polls db name start cutoff)
          else none)
  unfolding previous_counter_values_from lookup
  lookup-previous_counter_values_from db name start keys cutoff key =
      lookup-add_baselines db (baseline_polls db name start cutoff) keys [] key
      ∙ ap (λ x. if anyb (λ k. str_eq k key) keys then x else none)
          (or_else-none (newest_counter db key (baseline_polls db name start cutoff)))

module _ {F : Type 0} ⦃fl : Float64 F⦄ where
  abbrev pub points_of : Result StoreError (Series F) → Result StoreError (List (SeriesPoint F))
  points_of (ok series) = ok series.points
  points_of (err e) = err e

  series_for_polls-derive_points :
      (db : Db F) (name : String) (start end cutoff : Time)
      → HasDistinctIds (window_polls db name start end)
      → (series_for_polls db name start end
          (some (map (λ (p : PollRow). p.id) (window_polls db name start end)))
          cutoff).points
        ≡ derive_points start
            (previous_counter_values_from db name start series_counter_keys cutoff)
            (gather_polls (samples_of db) (window_polls db name start end))
  unfolding series_for_polls
  series_for_polls-derive_points db name start end cutoff d =
      let ps = window_polls db name start end in
      let ids = some (map (λ (p : PollRow). p.id) ps) in
      let previous = previous_counter_values_from db name start series_counter_keys cutoff in
      let same = series_polls-all db name start end in
      elim (is_empty_ids-cases ps) [
        | inl e ↦ rw e refl
        | inr e ↦ rw e (
            (series_with_baseline-derive_points db name start end ids previous
              (subst HasDistinctIds (sym same) d)).0
            ∙ ap (λ l. derive_points start previous (gather_polls (samples_of db) l)) same)
      ]

  -- If the polls of the window have distinct ids: a bounded query refuses a blank name, a start that
  -- is not before the end and a window of more than 4096 polls, in this order; otherwise its points
  -- are derived from all polls of the window with samples, against the baselines from before it.
  pub bounded_series-derive_points :
      (db : Db F) (name : String) (start end cutoff : Time)
      → HasDistinctIds (window_polls db name start end)
      → points_of (bounded_series db name start end cutoff) ≡ (
          if is_blank name
          then err target_name_required
          else if not (before start end)
          then err start_not_before_end
          else if ltb public_metrics_poll_limit (length (window_polls db name start end))
          then err poll_limit_exceeded
          else ok (
              derive_points start
                (previous_counter_values_from db name start series_counter_keys cutoff)
                (gather_polls (samples_of db) (window_polls db name start end))))
  unfolding bounded_series series
  bounded_series-derive_points db name start end cutoff d = elim (Bool-cases (is_blank name)) [
    | inl e ↦ rw e refl
    | inr e ↦ elim (Bool-cases (before start end)) [
      | inr f ↦ rw (e, f) refl
      | inl f ↦ elim (Bool-cases (ltb 4096 (length (window_polls db name start end)))) [
        | inl g ↦
            rw (e, f, g, public_poll_ids-poll_limit_exceeded db name start end (ground arith)) refl
        | inr g ↦
            rw (e, f, g, public_poll_ids-all db name start end (ground arith))
              (ap ok (series_for_polls-derive_points db name start end cutoff d))
      ]
    ]
  ]
