-- ===== src/Storage/SeriesQuery/Baseline.antt =====
-- Which sample is the baseline of a counter before a window (internal/storage/series.go).
use mathlib.Core.Path.{subst}
use statlite.Time.{Time}
use statlite.Collector.Model.{is_counter}
use statlite.Storage.Db.{Db, PollRow, SampleRow, TargetRow, target_named}
use statlite.Storage.Query.{polls_of, newest_first}
use statlite.Storage.Query.Sorted.{
  newest_first-All_inv, newest_first-Any, IsNewestFirst, newest_first-IsNewestFirst,
}
use statlite.Storage.Series.{CounterValue}
use statlite.Storage.SeriesQuery.{
  is_eligible, is_counter_sample, newest_counter, baseline_polls, previous_counter_values_from,
}
use statlite.Storage.SeriesQuery.Bounded.{lookup-previous_counter_values_from}
use statlite.Prelude.{
  String, ◌≡◌, refl, sym, ap, ◌∙◌, Bool, true, false, ◌&&◌, ◌||◌, Option, none, some, List, [], ◌∷◌,
  arith, ltb, leb, ◌==◌, All, All-of, Any, Any-of, Any-filterb, All-filterb-false, find?, find?-Any,
  find?-none, Option-cases, some_injective, filterb, anyb, str_eq, lookup, Bool-cases, inl, inr,
}

abbrev starts_later : PollRow → PollRow → Bool
starts_later q p =
    ltb p.started_at q.started_at || ((q.started_at == p.started_at) && ltb p.id q.id)

anyb-Any : {A : Type 0} (p : A → Bool) (xs : List A) → Any (λ x. p x ≡ true) xs → anyb p xs ≡ true
anyb-Any p [] h = elim h [ ]
anyb-Any p (x ∷ xs) (inl h) = rw h refl
anyb-Any p (x ∷ xs) (inr h) = ground (arith, anyb-Any p xs h)

filterb-none : {A : Type 0} (xs : List A) → filterb (λ x. false) xs ≡ []
filterb-none [] = refl
filterb-none (x ∷ xs) = filterb-none xs

filterb-of_target :
    (o : Option TargetRow) (ps : List PollRow)
    → (elim o [ none ↦ [] | some t ↦ filterb (λ (p : PollRow). p.target_id == t.id) ps ])
      ≡ filterb (λ p. elim o [ none ↦ false | some t ↦ p.target_id == t.id ]) ps
filterb-of_target none ps = sym (filterb-none ps)
filterb-of_target (some t) ps = refl

All-and_assoc :
    (a b c d : PollRow → Bool) (ps : List PollRow)
    → All (λ p. (a p && (b p && (c p && d p))) ≡ false) ps
    → All (λ p. ((a p && (b p && c p)) && d p) ≡ false) ps
All-and_assoc a b c d [] h = tt
All-and_assoc a b c d (p ∷ ps) h = let first = h.0 in (ground arith, All-and_assoc a b c d ps h.1)

All-and_true :
    (p : PollRow → Bool) (ps : List PollRow)
    → All (λ x. p x ≡ false) ps
    → All (λ x. (p x && true) ≡ false) ps
All-and_true p [] h = tt
All-and_true p (x ∷ xs) h = (rw (h.0) refl, All-and_true p xs h.1)

All-and_true_inv :
    (p : PollRow → Bool) (ps : List PollRow)
    → All (λ x. (p x && true) ≡ false) ps
    → All (λ x. p x ≡ false) ps
All-and_true_inv p [] h = tt
All-and_true_inv p (x ∷ xs) h =
    let first = h.0 in (ground (arith, first), All-and_true_inv p xs h.1)

and_false : (a : Bool) {b : Bool} → b ≡ false → (a && b) ≡ false
and_false a h = ground arith

starts_later_self : (p : PollRow) → starts_later p p ≡ false
starts_later_self p = ground arith

-- From the cutoff, which is 0 where it is not set, to before the start.
abbrev is_within : Time → Time → PollRow → Bool
is_within cutoff start p = leb cutoff p.started_at && ltb p.started_at start

filterb-is_eligible :
    (start cutoff : Time) (ps : List PollRow)
    → filterb (is_eligible start cutoff) ps ≡ filterb (is_within cutoff start) ps
filterb-is_eligible start cutoff [] = refl
filterb-is_eligible start cutoff (p ∷ ps) =
    let same : is_eligible start cutoff p ≡ is_within cutoff start p = ground arith in
    rw (same, filterb-is_eligible start cutoff ps) refl

module _ {F : Type 0} where
  abbrev is_of : Db F → String → PollRow → Bool
  is_of db name p = elim (target_named name db.targets) [
    | none ↦ false
    | some t ↦ p.target_id == t.id
  ]

  -- A counter sample of the key that the poll took.
  abbrev is_sample_of : String → PollRow → SampleRow F → Bool
  is_sample_of key p r = (r.poll_id == p.id) && str_eq r.metric_key key && is_counter r.metric_kind

  abbrev has_sample : Db F → String → PollRow → Bool
  has_sample db key p = anyb (is_sample_of key p) db.metric_samples

  -- A poll of the target before the window, kept by the cutoff, that sampled the counter.
  abbrev is_candidate : Db F → String → Time → Time → String → PollRow → Bool
  is_candidate db name start cutoff key p =
      is_of db name p && (is_within cutoff start p && has_sample db key p)

  pub record IsValueOf (db : Db F) (key : String) (c : CounterValue F) (p : PollRow) : Type 0 where
    pub poll_id_eq : c.poll_id ≡ p.id
    pub app_run_id_eq : c.app_run_id ≡ p.app_run_id
    pub value_eq :
        Any
          (λ (r : SampleRow F). (is_sample_of key p r ≡ true) × (c.value ≡ r.value))
          db.metric_samples

  abbrev pub IsBaseline :
      Db F → String → Time → Time → String → Bool → Option (CounterValue F) → Type 0
  IsBaseline db name start cutoff key false o = o ≡ none
  IsBaseline db name start cutoff key true none =
      All (λ p. is_candidate db name start cutoff key p ≡ false) db.polls
  IsBaseline db name start cutoff key true (some c) =
      Any
        (λ p.
          (is_candidate db name start cutoff key p ≡ true)
          × (IsValueOf db key c p
              × All (λ q. (is_candidate db name start cutoff key q && starts_later q p) ≡ false)
                  db.polls))
        db.polls

  abbrev counter_of : PollRow → SampleRow F → CounterValue F
  counter_of p r = record { poll_id = p.id; app_run_id = p.app_run_id; value = r.value }

  newest_counter-older :
      (db : Db F) (key : String) (p : PollRow) (ps : List PollRow)
      → find? (is_counter_sample key p) db.metric_samples ≡ none
      → newest_counter db key (p ∷ ps) ≡ newest_counter db key ps
  unfolding newest_counter
  newest_counter-older db key p ps e =
      ap
        (λ (o : Option (SampleRow F)). elim o [
          | none ↦ newest_counter db key ps
          | some r ↦ some (counter_of p r)
        ])
        e

  newest_counter-own :
      (db : Db F) (key : String) (p : PollRow) (ps : List PollRow) {r : SampleRow F}
      → find? (is_counter_sample key p) db.metric_samples ≡ some r
      → newest_counter db key (p ∷ ps) ≡ some (counter_of p r)
  unfolding newest_counter
  newest_counter-own db key p ps e =
      ap
        (λ (o : Option (SampleRow F)). elim o [
          | none ↦ newest_counter db key ps
          | some r ↦ some (counter_of p r)
        ])
        e

  newest_counter-none :
      (db : Db F) (key : String) (ps : List PollRow)
      → newest_counter db key ps ≡ none
      → All (λ p. has_sample db key p ≡ false) ps
  unfolding newest_counter
  newest_counter-none db key [] h = tt
  newest_counter-none db key (p ∷ ps) h =
      elim (Option-cases (find? (is_counter_sample key p) db.metric_samples)) [
        | inl e ↦ (
          find?-none (is_counter_sample key p) db.metric_samples e,
          newest_counter-none db key ps (sym (newest_counter-older db key p ps e) ∙ h),
        )
        | inr (r, e) ↦ cc (h, newest_counter-own db key p ps e)
      ]

  -- The counter is that of a poll of the list, and no poll of the list with a sample starts later.
  newest_counter-some :
      (db : Db F) (key : String) (ps : List PollRow) {c : CounterValue F}
      → IsNewestFirst ps
      → newest_counter db key ps ≡ some c
      → Any
          (λ p.
            (has_sample db key p ≡ true)
            × (IsValueOf db key c p
                × All (λ q. (has_sample db key q && starts_later q p) ≡ false) ps))
          ps
  unfolding newest_counter
  newest_counter-some db key [] s h = cc
  newest_counter-some db key (p ∷ ps) {c} s h =
      elim (Option-cases (find? (is_counter_sample key p) db.metric_samples)) [
        | inl e ↦
            let own = find?-none (is_counter_sample key p) db.metric_samples e in
            inr (
              Any-of (λ q k. (k.0, (k.1.0, (rw own refl, k.1.1)))) ps
                (newest_counter-some db key ps s.1 (sym (newest_counter-older db key p ps e) ∙ h)))
        | inr (r, e) ↦
            let found = find?-Any (is_counter_sample key p) db.metric_samples e in
            let own : IsValueOf db key (counter_of p r) p = record {
              poll_id_eq = refl;
              app_run_id_eq = refl;
              value_eq = Any-of (λ x k. (k.0, ap (λ y. y.value) (sym k.1))) db.metric_samples found;
            } in
            inl (
              anyb-Any (is_sample_of key p) db.metric_samples (Any-of (λ x k. k.0) _ found),
              (
                subst (λ x. IsValueOf db key x p)
                    (some_injective (sym (newest_counter-own db key p ps e) ∙ h)) own,
                (
                  and_false (has_sample db key p) (starts_later_self p),
                  All-of _ (λ q k. and_false (has_sample db key q) k) ps s.0,
                ),
              ),
            )
      ]

  polls_of-filterb :
      (db : Db F) (name : String) → polls_of db name ≡ filterb (is_of db name) db.polls
  unfolding polls_of
  polls_of-filterb db name = filterb-of_target (target_named name db.targets) db.polls

  module _ (db : Db F) (name : String) (start cutoff : Time) (key : String) where
    own_polls-eq :
        baseline_polls db name start cutoff
        ≡ newest_first (filterb (is_within cutoff start) (filterb (is_of db name) db.polls))
    own_polls-eq = ap newest_first (
        filterb-is_eligible start cutoff (polls_of db name)
        ∙ ap (filterb (is_within cutoff start)) (polls_of-filterb db name))

    lift-All :
        (test : PollRow → Bool)
        → All (λ p. (has_sample db key p && test p) ≡ false) (baseline_polls db name start cutoff)
        → All (λ p. (is_candidate db name start cutoff key p && test p) ≡ false) db.polls
    lift-All test h =
        All-and_assoc (is_of db name) (is_within cutoff start) (has_sample db key) test db.polls (
          All-filterb-false (is_of db name) _ db.polls (
            All-filterb-false (is_within cutoff start) _ _
              (newest_first-All_inv _ _ (subst (All _) own_polls-eq h))))

    lift-Any :
        (Q : PollRow → Type 0)
        → Any (λ p. (has_sample db key p ≡ true) × Q p) (baseline_polls db name start cutoff)
        → Any (λ p. (is_candidate db name start cutoff key p ≡ true) × Q p) db.polls
    lift-Any Q h =
        Any-of (λ p k. (rw (k.0, k.1.0, k.1.1.0) refl, k.1.1.1)) db.polls
          (Any-filterb _ (is_of db name) db.polls (
            Any-filterb _ (is_within cutoff start) _
              (newest_first-Any _ _ (subst (Any _) own_polls-eq h))))

    newest_counter-IsBaseline :
        (o : Option (CounterValue F))
        → newest_counter db key (baseline_polls db name start cutoff) ≡ o
        → IsBaseline db name start cutoff key true o
    newest_counter-IsBaseline none h =
        All-and_true_inv (is_candidate db name start cutoff key) db.polls (
          lift-All (λ _. true)
            (All-and_true (has_sample db key) _
              (newest_counter-none db key (baseline_polls db name start cutoff) h)))
    newest_counter-IsBaseline (some c) h =
        Any-of (λ p k. (k.0, (k.1.0, lift-All (λ q. starts_later q p) k.1.1))) db.polls
          (lift-Any _ (newest_counter-some db key _ (newest_first-IsNewestFirst _) h))

  -- The stored counter value of a key that is asked for, as the baseline before a window that starts
  -- at `start`, is that of a counter sample of the key in a poll of the target: the poll started
  -- before `start`, not before a retention cutoff that is set, and no such poll with a counter sample
  -- of the key started later, or at the same time with a larger id. If the target has no such poll,
  -- or the key is not asked for, there is no baseline.
  pub previous_counter_values_from-IsBaseline :
      (db : Db F) (name : String) (start : Time) (keys : List String) (cutoff : Time) (key : String)
      → IsBaseline db name start cutoff key
          (anyb (λ k. str_eq k key) keys)
          (lookup key (previous_counter_values_from db name start keys cutoff))
  previous_counter_values_from-IsBaseline db name start keys cutoff key =
      let read = lookup-previous_counter_values_from db name start keys cutoff key in
      elim (Bool-cases (anyb (λ k. str_eq k key) keys)) [
        | inl e ↦
            rw (read, e)
              (newest_counter-IsBaseline db name start cutoff key
                (newest_counter db key (baseline_polls db name start cutoff)) refl)
        | inr e ↦ rw (read, e) refl
      ]
