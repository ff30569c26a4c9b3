-- ===== src/Collector/Dimensions/Matching.antt =====
-- The bounded populations of fingerprints, and what it means that they match
-- (internal/collector/micrometer.go).
use mathlib.Core.Path.{subst}
use statlite.Collector.Dimensions.{
  DimensionHash, same_hash, multiplicity, has_key, increment, matching_state_limit, MatchingState,
  add_matching_dimension, all_match,
}
use statlite.Prelude.{
  ℕ, ◌+◌, ◌≤◌, ◌≡◌, refl, ◌∙◌, inl, inr, true, false, ◌||◌, List, [], ◌∷◌, arith, ltb, ◌==◌,
  if◌then◌else◌, ==_iff, Bool-cases, length,
}

-- Every identity once.
unfoldable pub AreSingle : List (DimensionHash × ℕ) → Type 0
AreSingle [] = Unit {0}
AreSingle ((key, n) ∷ groups) = (n ≡ 1) × (has_key key groups ≡ false) × AreSingle groups

pub same_hash_refl : (a : DimensionHash) → same_hash a a ≡ true
same_hash_refl a = ground arith

same_hash-eq : (a b : DimensionHash) → same_hash a b ≡ true → a ≡ b
same_hash-eq a b h =
    let first = (==_iff a.first b.first).0 (ground arith) in
    let second = (==_iff a.second b.second).0 (ground arith) in cc (first, second)

has_key-multiplicity :
    (key : DimensionHash) (groups : List (DimensionHash × ℕ))
    → AreSingle groups
    → multiplicity key groups ≡ (if has_key key groups then 1 else 0)
unfolding AreSingle multiplicity has_key
has_key-multiplicity key [] h = refl
has_key-multiplicity key ((k, n) ∷ groups) (one, fresh, rest) =
    elim (Bool-cases (same_hash k key)) [
      | inl e ↦ rw e one
      | inr e ↦ rw e (has_key-multiplicity key groups rest)
    ]

has_key-increment :
    (other key : DimensionHash) (groups : List (DimensionHash × ℕ))
    → has_key other (increment key groups) ≡ (has_key other groups || same_hash key other)
unfolding has_key increment
has_key-increment other key [] = ground arith
has_key-increment other key ((k, n) ∷ groups) = elim (Bool-cases (same_hash k key)) [
  | inl e ↦ rw (e, same_hash-eq k key e) (ground arith)
  | inr e ↦ rw e (ground (arith, has_key-increment other key groups))
]

AreSingle-increment :
    (key : DimensionHash) (groups : List (DimensionHash × ℕ))
    → has_key key groups ≡ false
    → AreSingle groups
    → AreSingle (increment key groups) × (length (increment key groups) ≡ length groups + 1)
unfolding AreSingle has_key increment
AreSingle-increment key [] h s = ((refl, refl, tt), refl)
AreSingle-increment key ((k, n) ∷ groups) h (one, fresh, rest) =
    elim (Bool-cases (same_hash k key)) [
      | inl e ↦ cc (rw e at h)
      | inr e ↦
          let (single, size) = AreSingle-increment key groups (rw e at h) rest in
          rw e ((one, ground (arith, has_key-increment k key groups), single), omega arith)
    ]

-- The invariant of a population beside another one: both share the count of their states.
pub record IsMatching (others : ℕ) (groups : List (DimensionHash × ℕ)) (states : ℕ) : Type 0 where
  pub single : AreSingle groups
  pub size : states ≡ others + length groups
  pub within : states ≤ matching_state_limit

pub add_matching_dimension-IsMatching :
    (others : ℕ) (key : DimensionHash) (m : MatchingState)
    → (ltb 0 (multiplicity key m.groups)) ≡ false
    → IsMatching others m.groups m.states
    → IsMatching others (add_matching_dimension key m).groups (add_matching_dimension key m).states
unfolding add_matching_dimension
add_matching_dimension-IsMatching others key m fresh is =
    let known = has_key-multiplicity key m.groups is.single in
    elim (Bool-cases m.overflow) [
      | inl e ↦ rw e is
      | inr e ↦ elim (Bool-cases (has_key key m.groups)) [
        | inl f ↦ let known' = rw f at known in cc (rw known' at fresh)
        | inr f ↦ elim (Bool-cases (m.states == matching_state_limit)) [
          | inl g ↦ simp (e, f, g) is
          | inr g ↦
              let (single, size) = AreSingle-increment key m.groups f is.single in
              let old = is.size in
              let within = is.within in
              simp (e, f, g) (record { single = single; size = omega arith; within = ground arith })
        ]
      ]
    ]

-- The groups without one identity.
without : DimensionHash → List (DimensionHash × ℕ) → List (DimensionHash × ℕ)
without key [] = []
without key ((k, n) ∷ groups) =
    let rest = without key groups in if same_hash k key then groups else (k, n) ∷ rest

length-without :
    (key : DimensionHash) (groups : List (DimensionHash × ℕ))
    → has_key key groups ≡ true
    → length groups ≡ length (without key groups) + 1
unfolding has_key without
length-without key [] h = cc h
length-without key ((k, n) ∷ groups) h = elim (Bool-cases (same_hash k key)) [
  | inl e ↦ rw e (omega arith)
  | inr e ↦ let size = length-without key groups (rw e at h) in rw e (omega arith)
]

has_key-without :
    (key other : DimensionHash) (groups : List (DimensionHash × ℕ))
    → same_hash key other ≡ false
    → has_key other (without key groups) ≡ has_key other groups
unfolding has_key without
has_key-without key other [] h = refl
has_key-without key other ((k, n) ∷ groups) h = elim (Bool-cases (same_hash k key)) [
  | inl e ↦ rw (e, same_hash-eq k key e, h) refl
  | inr e ↦ rw (e, has_key-without key other groups h) refl
]

-- As many identities, all of them among the others, are all of the others.
has_key-pigeonhole :
    (counts durations : List (DimensionHash × ℕ))
    → AreSingle counts
    → length counts ≡ length durations
    → ((key : DimensionHash) → has_key key counts ≡ true → has_key key durations ≡ true)
    → (key : DimensionHash) → has_key key durations ≡ true
    → has_key key counts ≡ true
unfolding AreSingle has_key
has_key-pigeonhole [] [] single size within key h = cc h
has_key-pigeonhole [] (_ ∷ _) single size within key h = cc size
has_key-pigeonhole ((k, n) ∷ counts) durations (one, fresh, single) size within key h =
    elim (Bool-cases (same_hash k key)) [
      | inl e ↦ ground arith
      | inr e ↦
          let shorter = length-without k durations (within k (ground (arith, same_hash_refl k))) in
          let within' : (other : DimensionHash)
              → has_key other counts ≡ true
              → has_key other (without k durations) ≡ true =
            λ other g. elim (Bool-cases (same_hash k other)) [
              | inl f ↦ cc (g, fresh, same_hash-eq k other f)
              | inr f ↦ has_key-without k other durations f ∙ within other (ground arith)
            ] in
          let found =
            has_key-pigeonhole counts (without k durations) single (omega arith) within' key
              (has_key-without k key durations e ∙ h) in
          ground arith
    ]

has_key-all_match :
    (counts durations : List (DimensionHash × ℕ))
    → AreSingle counts
    → AreSingle durations
    → all_match counts durations ≡ true
    → (key : DimensionHash) → has_key key counts ≡ true
    → has_key key durations ≡ true
unfolding AreSingle has_key all_match
has_key-all_match [] durations single others h key k = cc k
has_key-all_match ((c, n) ∷ counts) durations (one, fresh, single) others h key k =
    elim (Bool-cases (same_hash c key)) [
      | inl e ↦
          let known = has_key-multiplicity c durations others in
          let found : has_key c durations ≡ true = ground arith in
          subst (λ x. has_key x durations ≡ true) (same_hash-eq c key e) found
      | inr e ↦ has_key-all_match counts durations single others (ground arith) key (rw e at k)
    ]

-- Populations that match have the same identities.
pub all_match-has_key :
    (counts durations : List (DimensionHash × ℕ))
    → AreSingle counts
    → AreSingle durations
    → length counts ≡ length durations
    → all_match counts durations ≡ true
    → (key : DimensionHash) → has_key key counts ≡ has_key key durations
all_match-has_key counts durations single others size h key =
    let to = has_key-all_match counts durations single others h in
    let from = has_key-pigeonhole counts durations single size to key in
    let to' = to key in ground arith
