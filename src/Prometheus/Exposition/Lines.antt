-- ===== src/Prometheus/Exposition/Lines.antt =====
-- The lines of a rendered exposition (internal/prometheus/prometheus.go).
use mathlib.Core.List.{append_assoc, append-nil}
use statlite.Bytes.{Bytes}
use statlite.Bytes.Trim.{is_solid, ends_solid}
use statlite.Prometheus.{Limits, Label, all_name_bytes}
use statlite.Prometheus.Labels.Sound.{IsLabel}
use statlite.Prometheus.Labels.Rendering.{escape, render_label, valid_name-all_name_bytes}
use statlite.Prometheus.Labels.RoundTrip.{render_labels_onto}
use statlite.Prometheus.Exposition.{ReadError, drop_cr, add_line, scan_lines}
use statlite.Prelude.{
  ℕ, ◌-◌, ◌<◌, ◌≡◌, refl, sym, ap, ◌∙◌, Bool, true, false, Option, List, [], ◌∷◌, ◌++◌, arith, leb,
  ◌==◌, length, All, All-append,
}

-- No line feed.
abbrev pub IsLine : Bytes → Type 0
IsLine s = All (λ c. (c == b'\n') ≡ false) s

pub scan_lines-IsLine :
    (size room : ℕ) (e : Option ReadError) (line t rest : Bytes)
    → IsLine t
    → length t < room
    → scan_lines size room e line (t ++ b'\n' ∷ rest)
      ≡ add_line (line ++ t) (scan_lines size size e [] rest)
unfolding scan_lines
scan_lines-IsLine size room e line [] rest h l =
    ap (λ u. add_line u (scan_lines size size e [] rest)) (sym (append-nil line))
scan_lines-IsLine size room e line (c ∷ t) rest h l =
    let room_left : leb room 1 ≡ false = ground arith in
    rw (h.0, room_left)
      (scan_lines-IsLine size (room - 1) e (line ++ c ∷ []) t rest h.1 (omega arith)
        ∙ ap (λ u. add_line u (scan_lines size size e [] rest)) (append_assoc line (c ∷ []) t))

pub drop_cr-solid : (s : Bytes) → ends_solid s ≡ true → drop_cr s ≡ s
drop_cr-solid [] h = refl
drop_cr-solid (c ∷ []) h = ground arith
drop_cr-solid (c ∷ d ∷ s) h = ap (λ t. c ∷ t) (drop_cr-solid (d ∷ s) h)

pub all_name_bytes-IsLine : (colon : Bool) (s : Bytes) → all_name_bytes colon s ≡ true → IsLine s
unfolding all_name_bytes
all_name_bytes-IsLine colon [] h = tt
all_name_bytes-IsLine colon (c ∷ s) h = (ground arith, all_name_bytes-IsLine colon s (ground arith))

escape-IsLine : (s rest : Bytes) → IsLine rest → IsLine (escape s ++ rest)
escape-IsLine [] rest h = h
escape-IsLine (c ∷ s) rest h = ground (arith, escape-IsLine s rest h)

pub AllSolid-IsLine : (s : Bytes) → All (λ c. is_solid c ≡ true) s → IsLine s
AllSolid-IsLine [] h = tt
AllSolid-IsLine (c ∷ s) h = (ground arith, AllSolid-IsLine s h.1)

render_label-IsLine :
    (limits : Limits) (l : Label) (rest : Bytes)
    → IsLabel limits l
    → IsLine rest
    → IsLine (render_label l rest)
render_label-IsLine limits l rest is h =
    All-append _ l.name (b'=' ∷ b'"' ∷ (escape l.value ++ b'"' ∷ rest))
      (all_name_bytes-IsLine false l.name (valid_name-all_name_bytes l.name false is.name_valid))
      (refl, (refl, escape-IsLine l.value (b'"' ∷ rest) (refl, h)))

pub render_labels_onto-IsLine :
    (limits : Limits) (ls : List Label) (rest : Bytes)
    → All (IsLabel limits) ls
    → IsLine rest
    → IsLine (render_labels_onto ls rest)
render_labels_onto-IsLine limits [] rest is h = h
render_labels_onto-IsLine limits (l ∷ []) rest is h = render_label-IsLine limits l rest is.0 h
render_labels_onto-IsLine limits (l ∷ k ∷ ls) rest is h =
    render_label-IsLine limits l (b',' ∷ render_labels_onto (k ∷ ls) rest) is.0
      (refl, render_labels_onto-IsLine limits (k ∷ ls) rest is.1 h)
