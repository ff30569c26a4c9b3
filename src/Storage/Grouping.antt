-- ===== src/Storage/Grouping.antt =====
-- The shape that the loops of internal/storage/downsample.go and public_metrics.go share: one open
-- accumulator, which comes out when a point with another key arrives. Against it stands a
-- description with no running state: neighbours with one key form a group.
use statlite.Prelude.{
  ℕ, suc, ◌≤◌, ◌≡◌, refl, ◌∙◌, ◌≢◌, inl, inr, Bool, true, false, ◌||◌, List, [], ◌∷◌, map, arith,
  ◌==◌, if◌then◌else◌, Bool-cases, length, foldl,
}

module _ {P : Type 0} where
  -- A point in front of the groups: in the first one if the key is the same, or in its own.
  abbrev pub join_group : ℕ → P → List (ℕ × List P) → List (ℕ × List P)
  join_group k p [] = (k, p ∷ []) ∷ []
  join_group k p ((c, g) ∷ gs) = if k == c then (c, p ∷ g) ∷ gs else (k, p ∷ []) ∷ (c, g) ∷ gs

  unfoldable pub group_by : (P → ℕ) → List P → List (ℕ × List P)
  group_by key [] = []
  group_by key (p ∷ ps) = join_group (key p) p (group_by key ps)

  -- Two neighbours share a key.
  unfoldable pub has_shared_key : (P → ℕ) → List P → Bool
  has_shared_key key [] = false
  has_shared_key key (p ∷ []) = false
  has_shared_key key (p ∷ q ∷ ps) = (key p == key q) || has_shared_key key (q ∷ ps)

  pub has_shared_key-two :
      (key : P → ℕ) (ps : List P) → has_shared_key key ps ≡ true → 2 ≤ length ps
  unfolding has_shared_key
  has_shared_key-two key [] h = cc
  has_shared_key-two key (p ∷ []) h = cc
  has_shared_key-two key (p ∷ q ∷ ps) h = omega arith

  -- Keys from `lo` on that increase strictly.
  abbrev pub KeysFrom : ℕ → List (ℕ × List P) → Type 0
  KeysFrom lo [] = Unit
  KeysFrom lo ((c, _) ∷ gs) = (lo ≤ c) × KeysFrom (suc c) gs

  pub keys_mono : (lo hi : ℕ) (gs : List (ℕ × List P)) → lo ≤ hi → KeysFrom hi gs → KeysFrom lo gs
  keys_mono lo hi [] h k = tt
  keys_mono lo hi ((c, g) ∷ gs) h k = (omega arith, k.1)

  pub join_group-KeysFrom :
      (b : ℕ) (p : P) (gs : List (ℕ × List P)) → KeysFrom b gs → KeysFrom b (join_group b p gs)
  join_group-KeysFrom b p [] k = omega arith
  join_group-KeysFrom b p ((c, g) ∷ gs) k = elim (Bool-cases (b == c)) [
    | inl e ↦ rw e k
    | inr e ↦ rw e (omega arith, (ground arith, k.1))
  ]

module _ {P S O : Type 0} (key : P → ℕ) (new : ℕ → S) (add : S → P → S) (start : S → ℕ)
    (out : S → O) (start-add : (s : S) (p : P) → start (add s p) ≡ start s)
    (start-new : (k : ℕ) → start (new k) ≡ k) where
  unfoldable pub summary : ℕ × List P → O
  summary (k, g) = out (foldl add (new k) g)

  -- What is still to come out when `s` is open.
  unfoldable pub rest_out : S → List P → List O
  rest_out s [] = out s ∷ []
  rest_out s (p ∷ ps) =
      let more = rest_out (add s p) ps in
      let fresh = out s ∷ rest_out (add (new (key p)) p) ps in
      if start s == key p then more else fresh

  abbrev finish : S → List (ℕ × List P) → List O
  finish s [] = out s ∷ []
  finish s ((c, g) ∷ gs) =
      if start s == c
      then out (foldl add s g) ∷ map summary gs
      else out s ∷ map summary ((c, g) ∷ gs)

  finish-join_same :
      (s : S) (k : ℕ) (p : P) (gs : List (ℕ × List P))
      → start s ≡ k
      → finish s (join_group k p gs) ≡ finish (add s p) gs
  unfolding summary
  finish-join_same s k p [] h = ground arith
  finish-join_same s k p ((c, g) ∷ gs) h = ground (arith, start-add s p)

  finish-join_ne :
      (s : S) (k : ℕ) (p : P) (gs : List (ℕ × List P))
      → start s ≢ k
      → finish s (join_group k p gs) ≡ out s ∷ finish (add (new k) p) gs
  unfolding summary
  finish-join_ne s k p [] h = ground arith
  finish-join_ne s k p ((c, g) ∷ gs) h = ground (arith, start-add (new k) p, start-new k)

  finish-new :
      (k : ℕ) (p : P) (gs : List (ℕ × List P))
      → finish (add (new k) p) gs ≡ map summary (join_group k p gs)
  unfolding summary
  finish-new k p [] = refl
  finish-new k p ((c, g) ∷ gs) = ground (arith, start-add (new k) p, start-new k)

  rest_out-eq-finish : (s : S) (ps : List P) → rest_out s ps ≡ finish s (group_by key ps)
  unfolding rest_out group_by
  rest_out-eq-finish s [] = refl
  rest_out-eq-finish s (p ∷ ps) =
      let k = key p in
      ground (
        arith,
        finish-join_same s k p (group_by key ps),
        finish-join_ne s k p (group_by key ps),
        rest_out-eq-finish (add s p) ps,
        rest_out-eq-finish (add (new k) p) ps,
      )

  -- From a fresh accumulator the loop puts out the summary of each group, in order.
  pub rest_out-new :
      (p : P) (ps : List P)
      → rest_out (add (new (key p)) p) ps ≡ map summary (group_by key (p ∷ ps))
  rest_out-new p ps =
      rest_out-eq-finish (add (new (key p)) p) ps
      ∙ unfold group_by in finish-new (key p) p (group_by key ps)
