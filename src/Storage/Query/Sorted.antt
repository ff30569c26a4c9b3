-- ===== src/Storage/Query/Sorted.antt =====
-- ORDER BY started_at DESC, id DESC: what the polls keep, and their order (internal/storage/query.go).
use statlite.Storage.Db.{PollRow}
use statlite.Storage.Query.{is_newer, insert_newest, newest_first}
use statlite.Prelude.{
  ◌≡◌, true, false, List, [], ◌∷◌, arith, Bool-cases, inl, inr, All, All-of, Any,
}

insert_newest-All :
    (P : PollRow → Type 0) (p : PollRow) (ps : List PollRow)
    → P p
    → All P ps
    → All P (insert_newest p ps)
unfolding insert_newest
insert_newest-All P p [] h k = (h, tt)
insert_newest-All P p (q ∷ qs) h k = elim (Bool-cases (is_newer p q)) [
  | inl e ↦ rw e (h, k)
  | inr e ↦ rw e (k.0, insert_newest-All P p qs h k.1)
]

pub newest_first-All :
    (P : PollRow → Type 0) (ps : List PollRow) → All P ps → All P (newest_first ps)
unfolding newest_first
newest_first-All P [] h = tt
newest_first-All P (p ∷ ps) h =
    insert_newest-All P p (newest_first ps) h.0 (newest_first-All P ps h.1)

insert_newest-All_inv :
    (P : PollRow → Type 0) (p : PollRow) (ps : List PollRow)
    → All P (insert_newest p ps)
    → P p × All P ps
unfolding insert_newest
insert_newest-All_inv P p [] h = h
insert_newest-All_inv P p (q ∷ qs) h = elim (Bool-cases (is_newer p q)) [
  | inl e ↦ rw e at h
  | inr e ↦
      let k : P q × All P (insert_newest p qs) = rw e at h in
      let (own, rest) = insert_newest-All_inv P p qs k.1 in (own, (k.0, rest))
]

pub newest_first-All_inv :
    (P : PollRow → Type 0) (ps : List PollRow) → All P (newest_first ps) → All P ps
unfolding newest_first
newest_first-All_inv P [] h = tt
newest_first-All_inv P (p ∷ ps) h =
    let (own, rest) = insert_newest-All_inv P p (newest_first ps) h in
    (own, newest_first-All_inv P ps rest)

insert_newest-Any :
    (P : PollRow → Type 0) (p : PollRow) (ps : List PollRow)
    → Any P (insert_newest p ps)
    → Any P (p ∷ ps)
unfolding insert_newest
insert_newest-Any P p [] h = h
insert_newest-Any P p (q ∷ qs) h = elim (Bool-cases (is_newer p q)) [
  | inl e ↦ rw e at h
  | inr e ↦
      let k : Any P (q ∷ insert_newest p qs) = rw e at h in
      elim k [
        | inl own ↦ inr (inl own)
        | inr rest ↦ elim (insert_newest-Any P p qs rest) [
          | inl own ↦ inl own
          | inr old ↦ inr (inr old)
        ]
      ]
]

pub newest_first-Any :
    (P : PollRow → Type 0) (ps : List PollRow) → Any P (newest_first ps) → Any P ps
unfolding newest_first
newest_first-Any P [] h = h
newest_first-Any P (p ∷ ps) h = elim (insert_newest-Any P p (newest_first ps) h) [
  | inl own ↦ inl own
  | inr rest ↦ inr (newest_first-Any P ps rest)
]

-- No poll is newer than one in front of it.
abbrev pub IsNewestFirst : List PollRow → Type 0
IsNewestFirst [] = Unit {0}
IsNewestFirst (p ∷ ps) = All (λ q. is_newer q p ≡ false) ps × IsNewestFirst ps

is_newer_asym : (p q : PollRow) → is_newer p q ≡ true → is_newer q p ≡ false
is_newer_asym p q h = ground arith

is_newer_trans :
    (p q r : PollRow) → is_newer p q ≡ true → is_newer r q ≡ false → is_newer r p ≡ false
is_newer_trans p q r h k = ground arith

insert_newest-IsNewestFirst :
    (p : PollRow) (ps : List PollRow) → IsNewestFirst ps → IsNewestFirst (insert_newest p ps)
unfolding insert_newest
insert_newest-IsNewestFirst p [] h = (tt, tt)
insert_newest-IsNewestFirst p (q ∷ qs) h = elim (Bool-cases (is_newer p q)) [
  | inl e ↦ rw e ((is_newer_asym p q e, All-of _ (λ r k. is_newer_trans p q r e k) qs h.0), h)
  | inr e ↦ rw e (insert_newest-All _ p qs e h.0, insert_newest-IsNewestFirst p qs h.1)
]

pub newest_first-IsNewestFirst : (ps : List PollRow) → IsNewestFirst (newest_first ps)
unfolding newest_first
newest_first-IsNewestFirst [] = tt
newest_first-IsNewestFirst (p ∷ ps) =
    insert_newest-IsNewestFirst p (newest_first ps) (newest_first-IsNewestFirst ps)
