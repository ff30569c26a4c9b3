-- ===== src/Storage/DashboardPolls/Selection.antt =====
-- Which polls a dashboard's chart reads (internal/storage/dashboard_series.go): no more than the cap,
-- and of every bucket and run the first and the last.
use mathlib.Core.Path.{subst}
use statlite.Time.{Time, Duration}
use statlite.Storage.Db.{Db, PollRow}
use statlite.Storage.DashboardPolls.{
  Group, Endpoints, Groups, same_group, find_group, set_group, adds_endpoint, extend, group_of,
  select_polls, endpoint_ids, group_ids, insert_id, sort_ids, window_polls, dashboard_poll_ids,
  dashboard_poll_limit,
}
use statlite.Prelude.{
  ℕ, suc, ◌+◌, ◌≤◌, String, ◌≡◌, refl, sym, ap, ◌∙◌, inl, inr, true, false, Option, none, some,
  List, [], ◌∷◌, map, arith, if◌then◌else◌, Bool-cases, Option-cases, get_or_else, length, last?,
  filterb, length-append, some_injective,
}

length-insert_id : (i : ℕ) (js : List ℕ) → length (insert_id i js) ≡ suc (length js)
unfolding insert_id
length-insert_id i [] = refl
length-insert_id i (j ∷ js) = ground (arith, length-insert_id i js)

length-sort_ids : (is : List ℕ) → length (sort_ids is) ≡ length is
unfolding sort_ids
length-sort_ids [] = refl
length-sort_ids (i ∷ is) = ground (arith, length-insert_id i (sort_ids is), length-sort_ids is)

abbrev step : Option Endpoints → ℕ
step pair = if adds_endpoint pair then 1 else 0

-- A poll adds as many ids at most as the count grows.
length-set_group :
    (key : Group) (id : ℕ) (gs : Groups)
    → length (group_ids (set_group key (extend (find_group key gs) id) gs))
      ≤ length (group_ids gs) + step (find_group key gs)
unfolding group_ids set_group find_group
length-set_group key id [] = ground arith
length-set_group key id ((k, e) ∷ gs) = elim (Bool-cases (same_group k key)) [
  | inl h ↦ ground (
    arith,
    length-append (endpoint_ids e) (group_ids gs),
    length-append (endpoint_ids (record { first = e.first; last = id })) (group_ids gs),
  )
  | inr h ↦ ground (
    arith,
    length-set_group key id gs,
    length-append (endpoint_ids e) (group_ids gs),
    length-append (endpoint_ids e) (group_ids (set_group key (extend (find_group key gs) id) gs)),
  )
]

-- The ids of a group's polls, and the first and the last of them.
abbrev pub ids_of : Duration → Group → List PollRow → List ℕ
ids_of bucket key ps =
    map (λ (p : PollRow). p.id) (filterb (λ (p : PollRow). same_group (group_of bucket p) key) ps)

abbrev pub endpoints_of : List ℕ → Option Endpoints
endpoints_of [] = none
endpoints_of (i ∷ is) = some (record { first = i; last = get_or_else (last? (i ∷ is)) i })

-- The endpoints of a group after more of its polls.
abbrev extend_all : Option Endpoints → List ℕ → Option Endpoints
extend_all e [] = e
extend_all e (i ∷ is) = extend_all (some (extend e i)) is

last_default :
    (i : ℕ) (is : List ℕ) (a b : ℕ)
    → get_or_else (last? (i ∷ is)) a ≡ get_or_else (last? (i ∷ is)) b
last_default i [] a b = refl
last_default i (j ∷ is) a b = last_default j is a b

extend_all-some :
    (f l : ℕ) (is : List ℕ)
    → extend_all (some (record { first = f; last = l })) is
      ≡ some (record { first = f; last = get_or_else (last? is) l })
extend_all-some f l [] = refl
extend_all-some f l (i ∷ []) = refl
extend_all-some f l (i ∷ j ∷ is) =
    extend_all-some f i (j ∷ is)
    ∙ ap (λ x. some (record { first = f; last = x })) (last_default j is i l)

extend_all-none : (is : List ℕ) → extend_all none is ≡ endpoints_of is
extend_all-none [] = refl
extend_all-none (i ∷ []) = refl
extend_all-none (i ∷ j ∷ is) = extend_all-some i i (j ∷ is)

same_group_eq : (a b : Group) → same_group a b ≡ true → a ≡ b
same_group_eq a b h = ground arith

same_group_self : (a : Group) → same_group a a ≡ true
same_group_self a = elim (Option-cases a.run) [
  | inl e ↦ rw e (ground arith)
  | inr (r, e) ↦ rw e (ground arith)
]

same_group_apart :
    (k key other : Group)
    → same_group k key ≡ false
    → same_group k other ≡ true
    → same_group key other ≡ false
same_group_apart k key other e f = elim (Bool-cases (same_group key other)) [
  | inr g ↦ g
  | inl g ↦
      let same = same_group_eq k other f ∙ sym (same_group_eq key other g) in
      absurd (let t = ap (λ x. same_group x key) same ∙ same_group_self key in ground arith)
]

find_group-set_group :
    (key other : Group) (v : Endpoints) (gs : Groups)
    → find_group other (set_group key v gs)
      ≡ (if same_group key other then some v else find_group other gs)
unfolding find_group set_group
find_group-set_group key other v [] = refl
find_group-set_group key other v ((k, w) ∷ gs) = elim (Bool-cases (same_group k key)) [
  | inl e ↦
      let same = ap (λ x. same_group x other) (same_group_eq k key e) in
      rw e (elim (Bool-cases (same_group key other)) [
        | inl f ↦ rw f refl
        | inr f ↦ rw (f, same ∙ f) refl
      ])
  | inr e ↦
      let rest = find_group-set_group key other v gs in
      rw e (elim (Bool-cases (same_group k other)) [
        | inl f ↦
            let apart : same_group key other ≡ false = same_group_apart k key other e f in
            rw (f, apart) refl
        | inr f ↦ rw f rest
      ])
]

-- A poll in front of the others counts for its own group.
extend_all_step :
    (bucket : Duration) (gs : Groups) (p : PollRow) (ps : List PollRow) (key : Group)
    → let at = group_of bucket p in
      extend_all
        (if same_group at key then some (extend (find_group at gs) p.id) else find_group key gs)
        (ids_of bucket key ps)
      ≡ extend_all (find_group key gs) (ids_of bucket key (p ∷ ps))
extend_all_step bucket gs p ps key = elim (Bool-cases (same_group (group_of bucket p) key)) [
  | inl e ↦
      let same = same_group_eq (group_of bucket p) key e in
      rw e (ap (λ k. extend_all (some (extend (find_group k gs) p.id)) (ids_of bucket key ps)) same)
  | inr e ↦ rw e refl
]

select_polls-extend_all :
    (bucket : Duration) (gs : Groups) (count : ℕ) (ps : List PollRow) (out : Groups) (n : ℕ)
    → select_polls bucket gs count ps ≡ some (out, n)
    → length (group_ids gs) ≤ count
    → count ≤ dashboard_poll_limit
    → (length (group_ids out) ≤ n)
      × (n ≤ dashboard_poll_limit)
      × ((key : Group) → find_group key out ≡ extend_all (find_group key gs) (ids_of bucket key ps))
unfolding select_polls
select_polls-extend_all bucket gs count [] out n h l b =
    subst
      (λ (o : Groups × ℕ).
        (length (group_ids o.0) ≤ o.1)
        × (o.1 ≤ 4096)
        × ((key : Group) → find_group key o.0 ≡ find_group key gs))
      (some_injective h) (l, b, λ key. refl)
select_polls-extend_all bucket gs count (p ∷ ps) out n h l b =
    let at = group_of bucket p in
    let pair = find_group at gs in
    let gs' = set_group at (extend pair p.id) gs in
    let count' = if adds_endpoint pair then count + 1 else count in
    let rest : select_polls bucket gs' count' ps ≡ some (out, n) = ground arith in
    let grown = length-set_group at p.id gs in
    let (l', b', ends) =
      select_polls-extend_all bucket gs' count' ps out n rest (ground arith) (ground arith) in
    (
      l',
      b',
      λ key.
          ends key
          ∙ ap (λ e. extend_all e (ids_of bucket key ps))
              (find_group-set_group at key (extend pair p.id) gs)
          ∙ extend_all_step bucket gs p ps key,
    )

module _ {F : Type 0} where
  -- If the selection of polls stays under its cap: the ids are sorted from a map that gives each
  -- bucket and app run the first and the last of its polls in the window, oldest first, and
  -- nothing to a bucket and run without polls; there are at most 4096 ids.
  pub dashboard_poll_ids-endpoints_of :
      (db : Db F) (name : String) (start end : Time) (bucket : Duration) (ids : List ℕ)
      → dashboard_poll_ids db name start end bucket ≡ some ids
      → (groups : Groups) × (ids ≡ sort_ids (group_ids groups))
        × (length ids ≤ dashboard_poll_limit)
        × ((key : Group)
            → find_group key groups
              ≡ endpoints_of (ids_of bucket key (window_polls db name start end)))
  unfolding dashboard_poll_ids find_group group_ids
  dashboard_poll_ids-endpoints_of db name start end bucket ids h =
      elim (Option-cases (select_polls bucket [] 0 (window_polls db name start end))) [
        | inl e ↦ absurd (ground arith)
        | inr ((groups, n), e) ↦
            let (l, b, ends) =
              select_polls-extend_all bucket [] 0 (window_polls db name start end) groups n e
                (omega arith) (omega arith) in
            let eq : sort_ids (group_ids groups) ≡ ids = ground arith in
            let size = length-sort_ids (group_ids groups) in
            (
              groups,
              sym eq,
              subst (λ o. length o ≤ 4096) eq (omega arith),
              λ key.
                  ends key ∙ extend_all-none (ids_of bucket key (window_polls db name start end)),
            )
      ]
