-- ===== src/Prelude/Lists.antt =====
-- Lists measured by native numbers, under the library's names, and predicates over lists.
use Prim.Native.Nat.{ℕ, zero, suc, ◌+◌, ◌≤◌, min}
use mathlib.Core.Path.{◌≡◌, refl, subst}
use mathlib.Core.Bool.{Bool, true, false, not, ◌&&◌, ◌||◌}
use mathlib.Core.Logic.{◌⊎◌, inl, inr}
use mathlib.Core.List.{List, [], ◌∷◌, ◌++◌, map}
use mathlib.Core.Option.{Option, none, some}
use native.Mathlib.Omega.{arith}
use statlite.Prelude.Tests.{if◌then◌else◌, Bool-cases}

module _ {ℓ} {A : Type ℓ} where
  abbrev pub length : List A → ℕ
  length [] = 0
  length (x ∷ xs) = suc (length xs)

  abbrev pub take : ℕ → List A → List A
  take zero xs = []
  take (suc n) [] = []
  take (suc n) (x ∷ xs) = x ∷ take n xs

  abbrev pub head? : List A → Option A
  head? [] = none
  head? (x ∷ _) = some x

  abbrev pub last? : List A → Option A
  last? [] = none
  last? (x ∷ []) = some x
  last? (_ ∷ y ∷ ys) = last? (y ∷ ys)

  abbrev pub filterb : (A → Bool) → List A → List A
  filterb p [] = []
  filterb p (x ∷ xs) = let rest = filterb p xs in if p x then x ∷ rest else rest

  abbrev pub anyb : (A → Bool) → List A → Bool
  anyb p [] = false
  anyb p (x ∷ xs) = p x || anyb p xs

  abbrev pub find? : (A → Bool) → List A → Option A
  find? p [] = none
  find? p (x ∷ xs) = if p x then some x else find? p xs

  abbrev pub foldl {κ} : {B : Type κ} → (B → A → B) → B → List A → B
  foldl f b [] = b
  foldl f b (x ∷ xs) = foldl f (f b x) xs

  abbrev pub All {κ} : (A → Type κ) → List A → Type κ
  All P [] = Unit
  All P (x ∷ xs) = P x × All P xs

  pub length-append : (xs ys : List A) → length (xs ++ ys) ≡ length xs + length ys
  length-append [] ys = omega arith
  length-append (x ∷ xs) ys = omega (arith, length-append xs ys)

  pub length-take : (n : ℕ) (xs : List A) → length (take n xs) ≡ min n (length xs)
  length-take zero xs = omega arith
  length-take (suc n) [] = omega arith
  length-take (suc n) (x ∷ xs) = omega (arith, length-take n xs)

  pub length-filterb : (p : A → Bool) (xs : List A) → length (filterb p xs) ≤ length xs
  length-filterb p [] = omega arith
  length-filterb p (x ∷ xs) = ground (arith, length-filterb p xs)

  pub foldl-append {κ} :
      {B : Type κ} (f : B → A → B) (b : B) (xs ys : List A)
      → foldl f b (xs ++ ys) ≡ foldl f (foldl f b xs) ys
  foldl-append f b [] ys = refl
  foldl-append f b (x ∷ xs) ys = foldl-append f (f b x) xs ys

module _ {ℓ} {A : Type ℓ} where
  abbrev pub allb : (A → Bool) → List A → Bool
  allb p [] = true
  allb p (x ∷ xs) = p x && allb p xs

module _ {ℓ κ} {A : Type ℓ} (P : A → Type κ) where
  pub All-append : (xs ys : List A) → All P xs → All P ys → All P (xs ++ ys)
  All-append [] ys h k = k
  All-append (x ∷ xs) ys h k = (h.0, All-append xs ys h.1 k)

  pub All-filterb : (p : A → Bool) (xs : List A) → All P xs → All P (filterb p xs)
  All-filterb p [] h = tt
  All-filterb p (x ∷ xs) h = elim (Bool-cases (p x)) [
    | inl e ↦ rw e (h.0, All-filterb p xs h.1)
    | inr e ↦ rw e (All-filterb p xs h.1)
  ]

  -- A filter's result satisfies what its test and the list's own predicate give.
  pub All-filterb_of {μ} :
      {Q : A → Type μ} (p : A → Bool)
      → ((x : A) → p x ≡ true → Q x → P x)
      → (xs : List A) → All Q xs
      → All P (filterb p xs)
  All-filterb_of p f [] h = tt
  All-filterb_of p f (x ∷ xs) h = elim (Bool-cases (p x)) [
    | inl e ↦ rw e (f x e h.0, All-filterb_of p f xs h.1)
    | inr e ↦ rw e (All-filterb_of p f xs h.1)
  ]

  pub All-of {μ} : {Q : A → Type μ} → ((x : A) → Q x → P x) → (xs : List A) → All Q xs → All P xs
  All-of f [] h = tt
  All-of f (x ∷ xs) h = (f x h.0, All-of f xs h.1)

  pub All-every : ((x : A) → P x) → (xs : List A) → All P xs
  All-every f [] = tt
  All-every f (x ∷ xs) = (f x, All-every f xs)

  pub All-map {μ} :
      {B : Type μ} (f : B → A) (xs : List B) → All (λ b. P (f b)) xs → All P (map f xs)
  All-map f [] h = tt
  All-map f (x ∷ xs) h = (h.0, All-map f xs h.1)

module _ {ℓ} {A : Type ℓ} where
  pub anyb-append : (p : A → Bool) (xs ys : List A) → anyb p (xs ++ ys) ≡ (anyb p xs || anyb p ys)
  anyb-append p [] ys = refl
  anyb-append p (x ∷ xs) ys = ground (arith, anyb-append p xs ys)

  pub filterb-append :
      (p : A → Bool) (xs ys : List A) → filterb p (xs ++ ys) ≡ filterb p xs ++ filterb p ys
  filterb-append p [] ys = refl
  filterb-append p (x ∷ xs) ys = elim (Bool-cases (p x)) [
    | inl e ↦ rw (e, filterb-append p xs ys)
    | inr e ↦ rw (e, filterb-append p xs ys)
  ]

  -- An element that the test finds is on one side of a filter.
  pub anyb-filterb-not :
      (p q : A → Bool) (xs : List A)
      → anyb p xs ≡ true
      → anyb p (filterb q xs) ≡ false
      → anyb p (filterb (λ x. not (q x)) xs) ≡ true
  anyb-filterb-not p q [] h k = cc
  anyb-filterb-not p q (x ∷ xs) h k = ground (arith, anyb-filterb-not p q xs)

  pub length-filterb-not :
      (q : A → Bool) (xs : List A)
      → length (filterb q xs) + length (filterb (λ x. not (q x)) xs) ≡ length xs
  length-filterb-not q [] = omega arith
  length-filterb-not q (x ∷ xs) = ground (arith, length-filterb-not q xs)

module _ {A : Type 0} where
  -- Some element satisfies a predicate.
  abbrev pub Any : (A → Type 0) → List A → Type 0
  Any P [] = ⊥
  Any P (x ∷ xs) = P x ⊎ Any P xs

  pub Any-of : {P Q : A → Type 0} → ((x : A) → Q x → P x) → (xs : List A) → Any Q xs → Any P xs
  Any-of f [] h = elim h [ ]
  Any-of f (x ∷ xs) (inl h) = inl (f x h)
  Any-of f (x ∷ xs) (inr h) = inr (Any-of f xs h)

  pub Any-filterb :
      (P : A → Type 0) (p : A → Bool) (xs : List A)
      → Any P (filterb p xs)
      → Any (λ x. (p x ≡ true) × P x) xs
  Any-filterb P p [] h = elim h [ ]
  Any-filterb P p (x ∷ xs) h = elim (Bool-cases (p x)) [
    | inl e ↦ elim (subst (λ b. Any P (if b then x ∷ filterb p xs else filterb p xs)) e h) [
      | inl k ↦ inl (e, k)
      | inr k ↦ inr (Any-filterb P p xs k)
    ]
    | inr e ↦
        inr (
          Any-filterb P p xs
            (subst (λ b. Any P (if b then x ∷ filterb p xs else filterb p xs)) e h))
  ]

  -- What no element of a filter's result passes, no element of the list passes beside the filter.
  pub All-filterb-false :
      (p test : A → Bool) (xs : List A)
      → All (λ x. test x ≡ false) (filterb p xs)
      → All (λ x. (p x && test x) ≡ false) xs
  All-filterb-false p test [] h = tt
  All-filterb-false p test (x ∷ xs) h = elim (Bool-cases (p x)) [
    | inl e ↦
        let k =
          subst (λ b. All (λ y. test y ≡ false) (if b then x ∷ filterb p xs else filterb p xs)) e
            h in
        (rw e (k.0), All-filterb-false p test xs k.1)
    | inr e ↦
        let k =
          subst (λ b. All (λ y. test y ≡ false) (if b then x ∷ filterb p xs else filterb p xs)) e
            h in
        (rw e refl, All-filterb-false p test xs k)
  ]

  pub find?-Any :
      (p : A → Bool) (xs : List A) {a : A}
      → find? p xs ≡ some a
      → Any (λ x. (p x ≡ true) × (x ≡ a)) xs
  find?-Any p [] h = cc
  find?-Any p (x ∷ xs) h = elim (Bool-cases (p x)) [
    | inl e ↦ inl (e, cc (rw e at h))
    | inr e ↦ inr (find?-Any p xs (rw e at h))
  ]

  pub find?-none : (p : A → Bool) (xs : List A) → find? p xs ≡ none → anyb p xs ≡ false
  find?-none p [] h = refl
  find?-none p (x ∷ xs) h = elim (Bool-cases (p x)) [
    | inl e ↦ cc (rw e at h)
    | inr e ↦ rw e (find?-none p xs (rw e at h))
  ]
