-- ===== src/Bytes/Trim.antt =====
-- Texts that begin and end with an ASCII character that is no space: nothing is trimmed there.
use mathlib.Core.List.{append-nil}
use statlite.Bytes.{
  Bytes, is_nil, space_width, last_space_width, drop_spaces, reverse_onto, trim_space,
}
use statlite.Prelude.{
  ℕ, ◌≡◌, refl, ap, ◌∙◌, Bool, true, false, ◌&&◌, [], ◌∷◌, ◌++◌, arith, ltb, leb, ◌==◌,
}

abbrev pub is_solid : ℕ → Bool
is_solid c = leb 0x21 c && ltb c 0x80

abbrev pub starts_solid : Bytes → Bool
starts_solid [] = false
starts_solid (c ∷ s) = is_solid c

pub is_nil-starts_solid : (s : Bytes) → starts_solid s ≡ true → is_nil s ≡ false
is_nil-starts_solid [] h = cc
is_nil-starts_solid (c ∷ s) h = refl

abbrev pub ends_solid : Bytes → Bool
ends_solid [] = false
ends_solid (c ∷ []) = is_solid c
ends_solid (c ∷ d ∷ s) = ends_solid (d ∷ s)

pub space_width-solid : (c : ℕ) (s : Bytes) → is_solid c ≡ true → space_width (c ∷ s) ≡ 0
unfolding space_width
space_width-solid c [] h = ground arith
space_width-solid c (b ∷ []) h = ground arith
space_width-solid c (b ∷ a ∷ _) h = ground arith

-- A last byte of ASCII is no part of a wider space.
space_width-pair : (b c : ℕ) → ltb c 0x80 ≡ true → (space_width (b ∷ c ∷ []) == 2) ≡ false
unfolding space_width
space_width-pair b c h = ground arith

space_width-triple : (a b c : ℕ) → ltb c 0x80 ≡ true → (space_width (a ∷ b ∷ c ∷ []) == 3) ≡ false
unfolding space_width
space_width-triple a b c h = ground arith

last_space_width-solid : (c : ℕ) (s : Bytes) → is_solid c ≡ true → last_space_width (c ∷ s) ≡ 0
unfolding last_space_width
last_space_width-solid c [] h = space_width-solid c [] h
last_space_width-solid c (b ∷ []) h =
    let low : ltb c 0x80 ≡ true = ground arith in
    rw (space_width-solid c [] h, space_width-pair b c low) refl
last_space_width-solid c (b ∷ a ∷ _) h =
    let low : ltb c 0x80 ≡ true = ground arith in
    rw (space_width-solid c [] h, space_width-pair b c low, space_width-triple a b c low) refl

drop_spaces-none :
    (width : Bytes → ℕ)
    → ((c : ℕ) (s : Bytes) → is_solid c ≡ true → width (c ∷ s) ≡ 0)
    → (s : Bytes) → starts_solid s ≡ true
    → drop_spaces width 0 s ≡ s
unfolding drop_spaces
drop_spaces-none width none_of [] h = refl
drop_spaces-none width none_of (c ∷ s) h = rw (none_of c s h) refl

starts_solid-reverse_onto :
    (s t : Bytes) → ends_solid s ≡ true → starts_solid (reverse_onto s t) ≡ true
unfolding reverse_onto
starts_solid-reverse_onto [] t h = cc
starts_solid-reverse_onto (c ∷ []) t h = h
starts_solid-reverse_onto (c ∷ d ∷ s) t h = starts_solid-reverse_onto (d ∷ s) (c ∷ t) h

reverse_onto-reverse_onto :
    (s t u : Bytes) → reverse_onto (reverse_onto s t) u ≡ reverse_onto t (s ++ u)
unfolding reverse_onto
reverse_onto-reverse_onto [] t u = refl
reverse_onto-reverse_onto (c ∷ s) t u = reverse_onto-reverse_onto s (c ∷ t) u

pub trim_space-solid : (s : Bytes) → starts_solid s ≡ true → ends_solid s ≡ true → trim_space s ≡ s
unfolding trim_space reverse_onto
trim_space-solid s h e = rw (drop_spaces-none space_width space_width-solid s h) (
    rw
      (drop_spaces-none last_space_width last_space_width-solid (reverse_onto s [])
        (starts_solid-reverse_onto s [] e))
      (reverse_onto-reverse_onto s [] [] ∙ append-nil s))

space_width-space : (s : Bytes) → space_width (0x20 ∷ s) ≡ 1
unfolding space_width
space_width-space [] = refl
space_width-space (_ ∷ []) = refl
space_width-space (_ ∷ _ ∷ _) = refl

drop_spaces-space : (s : Bytes) → drop_spaces space_width 0 (0x20 ∷ s) ≡ drop_spaces space_width 0 s
unfolding drop_spaces
drop_spaces-space s = rw (space_width-space s) refl

pub trim_space-space :
    (s : Bytes) → starts_solid s ≡ true → ends_solid s ≡ true → trim_space (0x20 ∷ s) ≡ s
unfolding trim_space
trim_space-space s h e =
    ap (λ t. reverse_onto (drop_spaces last_space_width 0 (reverse_onto t [])) [])
      (drop_spaces-space s)
    ∙ trim_space-solid s h e

pub ends_solid-append : (s t : Bytes) → ends_solid t ≡ true → ends_solid (s ++ t) ≡ true
ends_solid-append [] t h = h
ends_solid-append (c ∷ []) [] h = cc
ends_solid-append (c ∷ []) (d ∷ t) h = h
ends_solid-append (c ∷ d ∷ s) t h = ends_solid-append (d ∷ s) t h

pub starts_solid-append : (s t : Bytes) → starts_solid s ≡ true → starts_solid (s ++ t) ≡ true
starts_solid-append [] t h = cc
starts_solid-append (c ∷ s) t h = h

pub ends_solid-cons : (c : ℕ) (s : Bytes) → ends_solid s ≡ true → ends_solid (c ∷ s) ≡ true
ends_solid-cons c [] h = cc
ends_solid-cons c (d ∷ s) h = h
