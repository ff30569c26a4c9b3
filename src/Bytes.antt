-- ===== src/Bytes.antt =====
-- Go's string as its bytes, and what the source uses of the packages strings and unicode/utf8 there.
pub mod Trim
pub mod Sizes
use Prim.Native.Char.{code}
use statlite.Prelude.{
  ℕ, zero, suc, ◌+◌, ◌-◌, String, Bool, true, false, not, ◌&&◌, ◌||◌, Option, none, some, List, [],
  ◌∷◌, ◌++◌, leb, ltb, ◌==◌, if◌then◌else◌,
}

abbrev pub Bytes : Type 0
Bytes = List ℕ

-- A text literal of the source, which is ASCII.
abbrev pub ascii : String → Bytes
ascii String.[] = []
ascii (String.◌∷◌ c s) = code c ∷ ascii s

unfoldable pub bytes_eq : Bytes → Bytes → Bool
bytes_eq [] [] = true
bytes_eq (a ∷ s) (b ∷ t) = (a == b) && bytes_eq s t
bytes_eq _ _ = false

-- strings.HasPrefix
unfoldable pub has_prefix : Bytes → Bytes → Bool
has_prefix s [] = true
has_prefix [] (_ ∷ _) = false
has_prefix (a ∷ s) (b ∷ t) = (a == b) && has_prefix s t

-- unicode.IsSpace of the first rune, with that rune's width in bytes; 0 if it is none.
unfoldable pub space_width : Bytes → ℕ
space_width [] = 0
space_width (a ∷ []) = if a == 0x20 || (leb 9 a && leb a 13) then 1 else 0
space_width (a ∷ b ∷ []) =
    if a == 0x20 || (leb 9 a && leb a 13)
    then 1
    else if a == 0xc2 && (b == 0x85 || b == 0xa0)
    then 2
    else 0
space_width (a ∷ b ∷ c ∷ _) =
    if a == 0x20 || (leb 9 a && leb a 13)
    then 1
    else if a == 0xc2 && (b == 0x85 || b == 0xa0)
    then 2
    else if (a == 0xe1 && b == 0x9a && c == 0x80)
        || (a == 0xe2 && b == 0x80 && (leb 0x80 c && leb c 0x8a))
        || (a == 0xe2 && b == 0x80 && (c == 0xa8 || c == 0xa9 || c == 0xaf))
        || (a == 0xe2 && b == 0x81 && c == 0x9f)
        || (a == 0xe3 && b == 0x80 && c == 0x80)
    then 3
    else 0

-- The same of the last rune, on the bytes in reverse.
unfoldable pub last_space_width : Bytes → ℕ
last_space_width [] = 0
last_space_width (a ∷ []) = space_width (a ∷ [])
last_space_width (b ∷ a ∷ []) =
    if space_width (b ∷ []) == 1 then 1 else if space_width (a ∷ b ∷ []) == 2 then 2 else 0
last_space_width (c ∷ b ∷ a ∷ _) =
    if space_width (c ∷ []) == 1
    then 1
    else if space_width (b ∷ c ∷ []) == 2
    then 2
    else if space_width (a ∷ b ∷ c ∷ []) == 3
    then 3
    else 0

-- Drops the spaces in front, by a test of the first rune; `skip` is what is left of a space.
unfoldable pub drop_spaces : (Bytes → ℕ) → ℕ → Bytes → Bytes
drop_spaces width skip [] = []
drop_spaces width (suc skip) (c ∷ s) = drop_spaces width skip s
drop_spaces width zero (c ∷ s) =
    let w = width (c ∷ s) in
    let rest = drop_spaces width (w - 1) s in if w == 0 then c ∷ s else rest

unfoldable pub reverse_onto : Bytes → Bytes → Bytes
reverse_onto [] t = t
reverse_onto (c ∷ s) t = reverse_onto s (c ∷ t)

-- strings.TrimSpace
unfoldable pub trim_space : Bytes → Bytes
unfolding drop_spaces reverse_onto last_space_width space_width
trim_space s =
    reverse_onto (drop_spaces last_space_width 0 (reverse_onto (drop_spaces space_width 0 s) [])) []

abbrev pub is_nil : Bytes → Bool
is_nil [] = true
is_nil (_ ∷ _) = false

abbrev pub emit_field : Bytes → List Bytes → List Bytes
emit_field [] fields = fields
emit_field (c ∷ s) fields = (c ∷ s) ∷ fields

-- The loop of strings.Fields; `field` is the field that is open.
unfoldable pub split_fields : ℕ → Bytes → Bytes → List Bytes
unfolding space_width
split_fields skip field [] = emit_field field []
split_fields (suc skip) field (c ∷ s) = split_fields skip field s
split_fields zero field (c ∷ s) =
    let w = space_width (c ∷ s) in
    let more = split_fields 0 (field ++ c ∷ []) s in
    let next = split_fields (w - 1) [] s in if w == 0 then more else emit_field field next

-- strings.Fields
unfoldable pub fields : Bytes → List Bytes
unfolding split_fields
fields s = split_fields 0 [] s

-- The text before the first byte that a test finds, and the rest from that byte on.
unfoldable pub split_at : (ℕ → Bool) → Bytes → Option (Bytes × Bytes)
split_at p [] = none
split_at p (c ∷ s) =
    let rest = split_at p s in
    if p c
    then some ([], c ∷ s)
    else (elim rest [ none ↦ none | some (before, after) ↦ some (c ∷ before, after) ])

abbrev pub drop : ℕ → Bytes → Bytes
drop zero s = s
drop (suc n) [] = []
drop (suc n) (c ∷ s) = drop n s

-- strings.Index: the text before the first occurrence, and the text after it.
unfoldable pub split_on : Bytes → ℕ → Bytes → Option (Bytes × Bytes)
unfolding has_prefix
split_on sep n [] = none
split_on sep n (c ∷ s) =
    let rest = split_on sep n s in
    if has_prefix (c ∷ s) sep
    then some ([], drop n (c ∷ s))
    else (elim rest [ none ↦ none | some (before, after) ↦ some (c ∷ before, after) ])

-- The bytes that may follow a lead byte: how many, and the range of the first of them.
record Lead : Type 0 where
  count : ℕ
  low : ℕ
  high : ℕ

abbrev lead_of : ℕ → Option Lead
lead_of b =
    if ltb b 0x80
    then some (record { count = 0; low = 0x80; high = 0xbf })
    else if leb 0xc2 b && leb b 0xdf
    then some (record { count = 1; low = 0x80; high = 0xbf })
    else if b == 0xe0
    then some (record { count = 2; low = 0xa0; high = 0xbf })
    else if b == 0xed
    then some (record { count = 2; low = 0x80; high = 0x9f })
    else if leb 0xe1 b && leb b 0xef
    then some (record { count = 2; low = 0x80; high = 0xbf })
    else if b == 0xf0
    then some (record { count = 3; low = 0x90; high = 0xbf })
    else if leb 0xf1 b && leb b 0xf3
    then some (record { count = 3; low = 0x80; high = 0xbf })
    else if b == 0xf4
    then some (record { count = 3; low = 0x80; high = 0x8f })
    else none

unfoldable pub continues_utf8 : ℕ → ℕ → ℕ → Bytes → Bool
continues_utf8 zero low high [] = true
continues_utf8 (suc n) low high [] = false
continues_utf8 (suc n) low high (b ∷ s) =
    let rest = continues_utf8 n 0x80 0xbf s in leb low b && leb b high && rest
continues_utf8 zero low high (b ∷ s) = elim (lead_of b) [
  | none ↦ false
  | some lead ↦ continues_utf8 lead.count lead.low lead.high s
]

-- utf8.ValidString
unfoldable pub valid_utf8 : Bytes → Bool
unfolding continues_utf8
valid_utf8 s = continues_utf8 0 0x80 0xbf s
