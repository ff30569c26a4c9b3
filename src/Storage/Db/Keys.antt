-- ===== src/Storage/Db/Keys.antt =====
-- A new row's key is above every key in use.
use statlite.Storage.Db.{max_of, next_key}
use statlite.Prelude.{ℕ, ◌+◌, ◌≤◌, ◌<◌, List, [], ◌∷◌, arith, ltb, if◌then◌else◌, All}

le-max_of : (m : ℕ) (ks : List ℕ) → m ≤ max_of m ks
le-max_of m [] = omega arith
le-max_of m (k ∷ ks) = ground (arith, le-max_of k ks, le-max_of m ks)

max_of_mono : (m n : ℕ) (ks : List ℕ) → m ≤ n → max_of m ks ≤ max_of n ks
max_of_mono m n [] h = h
max_of_mono m n (k ∷ ks) h =
    max_of_mono (if ltb m k then k else m) (if ltb n k then k else n) ks (ground arith)

abbrev pub AllBelow : ℕ → List ℕ → Type 0
AllBelow n ks = All (λ k. k < n) ks

below_mono : (m n : ℕ) (ks : List ℕ) → m ≤ n → AllBelow m ks → AllBelow n ks
below_mono m n [] h a = tt
below_mono m n (k ∷ ks) h a = (omega arith, below_mono m n ks h a.1)

max_of-AllBelow : (m : ℕ) (ks : List ℕ) → AllBelow (max_of m ks + 1) ks
max_of-AllBelow m [] = tt
max_of-AllBelow m (k ∷ ks) =
    (ground (arith, le-max_of k ks, le-max_of m ks), max_of-AllBelow (if ltb m k then k else m) ks)

pub next_key-AllBelow : (ks : List ℕ) → AllBelow (next_key ks) ks
unfolding next_key
next_key-AllBelow ks = max_of-AllBelow 0 ks
