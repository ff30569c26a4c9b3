-- ===== src/Bytes/Sizes.antt =====
-- What a text function keeps is no longer than its text.
use statlite.Bytes.{
  Bytes, drop_spaces, reverse_onto, trim_space, split_at, last_space_width, space_width,
}
use statlite.Prelude.{
  ℕ, zero, suc, ◌+◌, ◌-◌, ◌≤◌, ◌≡◌, refl, inl, inr, Bool, Option, none, some, [], ◌∷◌, ◌++◌, arith,
  Bool-cases, length,
}

length-drop_spaces-le :
    (width : Bytes → ℕ) (skip : ℕ) (s : Bytes) → length (drop_spaces width skip s) ≤ length s
unfolding drop_spaces
length-drop_spaces-le width skip [] = omega arith
length-drop_spaces-le width (suc skip) (c ∷ s) = omega (arith, length-drop_spaces-le width skip s)
length-drop_spaces-le width zero (c ∷ s) =
    ground (arith, length-drop_spaces-le width (width (c ∷ s) - 1) s)

length-reverse_onto : (s t : Bytes) → length (reverse_onto s t) ≡ length s + length t
unfolding reverse_onto
length-reverse_onto [] t = omega arith
length-reverse_onto (c ∷ s) t = omega (arith, length-reverse_onto s (c ∷ t))

pub length-trim_space-le : (s : Bytes) → length (trim_space s) ≤ length s
unfolding trim_space
length-trim_space-le s =
    let left = drop_spaces space_width 0 s in
    let right = drop_spaces last_space_width 0 (reverse_onto left []) in
    omega (
      arith,
      length-reverse_onto right [],
      length-drop_spaces-le last_space_width 0 (reverse_onto left []),
      length-reverse_onto left [],
      length-drop_spaces-le space_width 0 s,
    )

abbrev pub Splits : Bytes → Option (Bytes × Bytes) → Type 0
Splits s none = Unit
Splits s (some (before, after)) = (before ++ after ≡ s) × (length before + length after ≡ length s)

pub split_at-Splits : (p : ℕ → Bool) (s : Bytes) → Splits s (split_at p s)
unfolding split_at
split_at-Splits p [] = tt
split_at-Splits p (c ∷ s) = elim (Bool-cases (p c)) [
  | inl e ↦ rw e (refl, omega arith)
  | inr e ↦ rw e (ground (arith, split_at-Splits p s))
]
