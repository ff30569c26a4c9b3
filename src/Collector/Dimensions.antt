-- ===== src/Collector/Dimensions.antt =====
-- internal/collector/micrometer.go: the fingerprints by which the counts and the durations of one
-- series find each other, and their bounded populations. A Go map is an association list; uint64
-- wraps.
pub mod Fingerprint
pub mod Matching
use Prim.Native.Nat.{bit_xor, ◌^◌}
use statlite.Bytes.{Bytes}
use statlite.Prometheus.{Label}
use statlite.Prelude.{
  ℕ, zero, ◌+◌, ◌*◌, ◌/◌, ◌%◌, Bool, true, false, ◌&&◌, ◌||◌, List, [], ◌∷◌, ◌++◌, ◌==◌,
  if◌then◌else◌, length, foldl,
}

abbrev pub wrap : ℕ → ℕ
wrap n = n % 2 ^ 64

-- fnv.New64a
unfoldable pub fnv_1a : ℕ → Bytes → ℕ
fnv_1a hash [] = hash
fnv_1a hash (c ∷ s) = fnv_1a (wrap (bit_xor hash c * 1_099_511_628_211)) s

-- fnv.New64
unfoldable pub fnv_1 : ℕ → Bytes → ℕ
fnv_1 hash [] = hash
fnv_1 hash (c ∷ s) = fnv_1 (bit_xor (wrap (hash * 1_099_511_628_211)) c) s

-- What hashHTTPDimensions writes: each value behind a zero byte.
abbrev pub dimension_bytes : List Bytes → Bytes
dimension_bytes [] = []
dimension_bytes (value ∷ values) = 0 ∷ (value ++ dimension_bytes values)

-- hashHTTPDimensions, with either hash.
unfoldable pub hash_http_dimensions : (ℕ → Bytes → ℕ) → List Bytes → ℕ
hash_http_dimensions hash values = hash 14_695_981_039_346_656_037 (dimension_bytes values)

-- bits.RotateLeft64(x, 23)
unfoldable pub rotate_left_23 : ℕ → ℕ
rotate_left_23 x = wrap (x * 2 ^ 23) + x / 2 ^ 41

pub record DimensionHash : Type 0 where
  pub first : ℕ
  pub second : ℕ

unfoldable pub add_label : DimensionHash → Label → DimensionHash
unfolding hash_http_dimensions fnv_1a fnv_1 rotate_left_23
add_label f label =
    let values = label.name ∷ label.value ∷ [] in
    let first = hash_http_dimensions fnv_1a values in
    let second = hash_http_dimensions fnv_1 values in
    record {
      first = wrap (f.first + first);
      second = wrap (f.second + bit_xor second (rotate_left_23 first));
    }

abbrev pub finish_fingerprint : DimensionHash → ℕ → DimensionHash
finish_fingerprint f n = record {
  first = bit_xor f.first (wrap (n * 0x9e3779b97f4a7c15));
  second = bit_xor f.second (wrap (n * 0xc2b2ae3d27d4eb4f));
}

-- micrometerHTTPSeriesFingerprint
unfoldable pub series_fingerprint : List Label → DimensionHash
unfolding add_label
series_fingerprint labels =
    finish_fingerprint (foldl add_label (record { first = 0; second = 0 }) labels) (length labels)

abbrev pub same_hash : DimensionHash → DimensionHash → Bool
same_hash a b = (a.first == b.first) && (a.second == b.second)

-- groups[key], 0 where it is missing, and len(groups).
unfoldable pub multiplicity : DimensionHash → List (DimensionHash × ℕ) → ℕ
multiplicity key [] = 0
multiplicity key ((k, n) ∷ groups) =
    let rest = multiplicity key groups in if same_hash k key then n else rest

unfoldable pub has_key : DimensionHash → List (DimensionHash × ℕ) → Bool
has_key key [] = false
has_key key ((k, n) ∷ groups) = same_hash k key || has_key key groups

-- groups[key]++
unfoldable pub increment : DimensionHash → List (DimensionHash × ℕ) → List (DimensionHash × ℕ)
increment key [] = (key, 1) ∷ []
increment key ((k, n) ∷ groups) =
    let rest = increment key groups in
    if same_hash k key then (k, n + 1) ∷ groups else (k, n) ∷ rest

-- The loop of durationMatchesCounts.
unfoldable pub all_match : List (DimensionHash × ℕ) → List (DimensionHash × ℕ) → Bool
unfolding multiplicity
all_match [] durations = true
all_match ((key, n) ∷ counts) durations =
    (multiplicity key durations == n) && all_match counts durations

abbrev pub matching_state_limit : ℕ
matching_state_limit = 20_000

-- addMatchingDimension, on the groups that it is called for: the groups, the states and the overflow.
pub record MatchingState : Type 0 where
  pub groups : List (DimensionHash × ℕ)
  pub states : ℕ
  pub overflow : Bool

unfoldable pub add_matching_dimension : DimensionHash → MatchingState → MatchingState
unfolding increment has_key
add_matching_dimension key m =
    if m.overflow
    then m
    else if has_key key m.groups
    then record m { groups = increment key m.groups }
    else if m.states == matching_state_limit
    then record m { overflow = true }
    else record m { groups = increment key m.groups; states = m.states + 1 }
