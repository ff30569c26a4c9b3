-- ===== src/Collector/Dimensions/Fingerprint.antt =====
-- A series' fingerprint does not depend on the order of its labels (internal/collector/micrometer.go).
use mathlib.Core.Logic.{∥∥₁_elim}
use mathlib.Core.List.{Permᴰ, Perm}
use statlite.Prometheus.{Label}
use statlite.Collector.Dimensions.{wrap, DimensionHash, add_label, series_fingerprint}
use statlite.Prelude.{ℕ, suc, ◌+◌, ◌≡◌, refl, ap, ◌∙◌, List, arith, length, foldl}

wrap-add_comm : (x p q : ℕ) → wrap (wrap (x + p) + q) ≡ wrap (wrap (x + q) + p)
wrap-add_comm x p q = omega arith

add_label_comm :
    (f : DimensionHash) (a b : Label) → add_label (add_label f a) b ≡ add_label (add_label f b) a
unfolding add_label
add_label_comm f a b = cc (wrap-add_comm f.first _ _, wrap-add_comm f.second _ _)

foldl-perm :
    {l m : List Label} → Permᴰ l m → (f : DimensionHash) → foldl add_label f l ≡ foldl add_label f m
foldl-perm Permᴰ.nil f = refl
foldl-perm (Permᴰ.cons {b = b} e p) f = rw e (foldl-perm p (add_label f b))
foldl-perm (Permᴰ.swap {a' = a'} {b' = b'} {l = l} e₁ e₂) f =
    rw (e₁, e₂) (ap (λ g. foldl add_label g l) (add_label_comm f b' a'))
foldl-perm (Permᴰ.trans p q) f = foldl-perm p f ∙ foldl-perm q f

length-perm : {l m : List Label} → Permᴰ l m → length l ≡ length m
length-perm Permᴰ.nil = refl
length-perm (Permᴰ.cons e p) = ap suc (length-perm p)
length-perm (Permᴰ.swap e₁ e₂) = refl
length-perm (Permᴰ.trans p q) = length-perm p ∙ length-perm q

-- The same labels in another order have the same fingerprint, both of its words.
pub series_fingerprint-perm :
    (labels others : List Label)
    → Perm labels others
    → series_fingerprint labels ≡ series_fingerprint others
unfolding series_fingerprint
series_fingerprint-perm labels others p =
    ∥∥₁_elim p (hlevel) (λ d. cc (foldl-perm d (record { first = 0; second = 0 }), length-perm d))
