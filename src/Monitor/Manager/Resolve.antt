-- ===== src/Monitor/Manager/Resolve.antt =====
-- The manager's targets (internal/monitor/manager.go): which configurations are accepted, and that a
-- request is always given one of the targets.
use mathlib.Core.Path.{subst}
use mathlib.Core.List.{append-nil, append_assoc}
use statlite.Result.{Result, ok, err, Result-cases, ok_injective}
use statlite.Monitor.State.{Monitor}
use statlite.Monitor.Manager.{
  ManagedTarget, NewTarget, Manager, add_target, add_targets, new_manager, first_target, first_in,
  is_failing, resolve_target, snapshot_unhealthy,
}
use statlite.Prelude.{
  ℕ, ◌+◌, String, ◌≡◌, refl, sym, ap, ◌∙◌, inl, inr, Bool, true, false, not, ◌&&◌, none, some, List,
  [], ◌∷◌, ◌++◌, map, arith, eq_iff, eq_refl, ltb, Bool-cases, Option-cases, is_some, length, head?,
  anyb, anyb-append, str_eq, is_empty, trim_space, lookup, insert, lookup-insert,
}

abbrev pub is_ok : {E A : Type 0} → Result E A → Bool
is_ok (ok a) = true
is_ok (err e) = false

abbrev pub has_name : String → List String → Bool
has_name name names = anyb (λ n. str_eq n name) names

-- The names in order are those of the map, and a target carries its name.
pub record IsWellFormed (m : Manager) : Type 0 where
  pub ordered : (name : String) → is_some (lookup name m.targets) ≡ has_name name m.order
  pub named :
      (name : String) (t : ManagedTarget) → lookup name m.targets ≡ some t → t.metadata.name ≡ name

-- Each target has a name, trimmed, that is not empty and not among those before it, and a monitor.
abbrev pub acceptable : List String → List NewTarget → Bool
acceptable seen [] = true
acceptable seen (t ∷ ts) =
    let name = trim_space t.metadata.name in
    let rest = acceptable (seen ++ name ∷ []) ts in
    not (is_empty name) && is_some t.monitor && not (has_name name seen) && rest

no_targets-IsWellFormed : IsWellFormed (record { order = []; targets = [] })
unfolding lookup
no_targets-IsWellFormed = record { ordered = λ _. refl; named = λ name t h. cc }

insert-IsWellFormed :
    (m : Manager) (name : String) (t : ManagedTarget)
    → t.metadata.name ≡ name
    → IsWellFormed m
    → IsWellFormed (record { order = m.order ++ name ∷ []; targets = insert name t m.targets })
insert-IsWellFormed m name t e v = record {
  ordered = λ n. ground (
    arith,
    lookup-insert name n t m.targets,
    v.ordered n,
    anyb-append (λ k. str_eq k n) m.order (name ∷ []),
  );
  named = λ n u h. ground (arith, lookup-insert name n t m.targets, v.named n u, eq_iff name n);
}

add_target-IsWellFormed :
    (i : ℕ) (m : Manager) (t : NewTarget) (m' : Manager)
    → IsWellFormed m
    → add_target i m t ≡ ok m'
    → IsWellFormed m' × (m'.order ≡ m.order ++ trim_space t.metadata.name ∷ [])
unfolding add_target
add_target-IsWellFormed i m t m' v h = elim (Option-cases t.monitor) [
  | inl e ↦ absurd (ground arith)
  | inr (x, e) ↦
      let name = trim_space t.metadata.name in
      let added : ManagedTarget = record {
        metadata = record t.metadata { name = name };
        monitor = x;
      } in
      let eq : ◌≡◌ {A = Manager}
          (record { order = m.order ++ name ∷ []; targets = insert name added m.targets }) m' =
        ground arith in
      subst (λ (o : Manager). IsWellFormed o × (o.order ≡ m.order ++ name ∷ [])) eq
        (insert-IsWellFormed m name added refl v, refl)
]

is_ok-add_target :
    (i : ℕ) (m : Manager) (t : NewTarget)
    → IsWellFormed m
    → is_ok (add_target i m t) ≡ (
        not (is_empty (trim_space t.metadata.name))
        && is_some t.monitor
        && not (has_name (trim_space t.metadata.name) m.order))
unfolding add_target
is_ok-add_target i m t v = elim (Option-cases t.monitor) [
  | inl e ↦ ground (arith, v.ordered (trim_space t.metadata.name))
  | inr (x, e) ↦ ground (arith, v.ordered (trim_space t.metadata.name))
]

abbrev pub trimmed_names : List NewTarget → List String
trimmed_names ts = map (λ (t : NewTarget). trim_space t.metadata.name) ts

add_targets_lem :
    (i : ℕ) (m : Manager) (ts : List NewTarget)
    → IsWellFormed m
    → (is_ok (add_targets i m ts) ≡ acceptable m.order ts)
      × ((m' : Manager)
          → add_targets i m ts ≡ ok m'
          → IsWellFormed m' × (m'.order ≡ m.order ++ trimmed_names ts))
unfolding add_targets
add_targets_lem i m [] v = (
  refl,
  λ m' h.
      subst (λ (o : Manager). IsWellFormed o × (o.order ≡ m.order ++ [])) (ok_injective h)
        (v, sym (append-nil m.order)),
)
add_targets_lem i m (t ∷ ts) v = elim (Result-cases (add_target i m t)) [
  | inr (x, e) ↦ (let a = is_ok-add_target i m t v in ground arith, λ m' h. absurd (ground arith))
  | inl (m₁, e) ↦
      let name = trim_space t.metadata.name in
      let a = is_ok-add_target i m t v in
      let (v₁, o₁) = add_target-IsWellFormed i m t m₁ v e in
      let (r, q) = add_targets_lem (i + 1) m₁ ts v₁ in
      let r' : is_ok (add_targets (i + 1) m₁ ts) ≡ acceptable (m.order ++ name ∷ []) ts =
        r ∙ ap (λ o. acceptable o ts) o₁ in
      (
        ground arith,
        λ m' h.
            let (v', o') = q m' (ground arith) in
            (
              v',
              o'
                  ∙ ap (λ o. o ++ trimmed_names ts) o₁
                  ∙ append_assoc m.order (name ∷ []) (trimmed_names ts),
            ),
      )
]

-- A manager is built exactly when there are targets, and each has a name that is not blank, trimmed
-- differs from the names before it, and a monitor. Its order is then the trimmed names in the
-- order given, a name is in the map exactly when it is in the order, and each target carries the
-- name under which it is found.
pub new_manager-acceptable :
    (ts : List NewTarget)
    → (is_ok (new_manager ts) ≡ (ltb 0 (length ts) && acceptable [] ts))
      × ((m : Manager) → new_manager ts ≡ ok m → IsWellFormed m × (m.order ≡ trimmed_names ts))
unfolding new_manager
new_manager-acceptable [] = (refl, λ m h. cc)
new_manager-acceptable (t ∷ ts) =
    let a =
      add_targets_lem 0 (record { order = []; targets = [] }) (t ∷ ts) no_targets-IsWellFormed in
    (ground arith, a.1)

head?-none : (ns : List String) → head? ns ≡ none → length ns ≡ 0
head?-none [] h = refl
head?-none (n ∷ ns) h = cc

head?-some :
    (ns : List String) (n : String) → head? ns ≡ some n → (rest : List String) × (ns ≡ n ∷ rest)
head?-some [] n h = cc
head?-some (m ∷ ns) n h = (ns, ground arith)

first_of :
    (m : Manager)
    → IsWellFormed m
    → ltb 0 (length m.order) ≡ true
    → (t : ManagedTarget) × (lookup t.metadata.name m.targets ≡ some t)
      × (first_in m.targets m.order ≡ some t)
first_of m v h = elim (Option-cases (head? m.order)) [
  | inl e ↦ absurd (let l = head?-none m.order e in ground arith)
  | inr (n, e) ↦
      let shape = head?-some m.order n e in
      let has : has_name n m.order ≡ true = ground (arith, eq_refl n) in
      elim (Option-cases (lookup n m.targets)) [
        | inl q ↦ absurd (let o = v.ordered n in ground arith)
        | inr (t, q) ↦ (
          t,
          ap (λ k. lookup k m.targets) (v.named n t q) ∙ q,
          ap (first_in m.targets) shape.1 ∙ q,
        )
      ]
]

module _ {F : Type 0} (monitors : ℕ → Monitor F) where
  -- Whether the target of a name passes a test.
  abbrev pub passes : (Monitor F → Bool) → Manager → String → Bool
  passes test m name = elim (lookup name m.targets) [
    | none ↦ false
    | some t ↦ test (monitors t.monitor)
  ]

  first_target-passes :
      (test : Monitor F → Bool) (m : Manager) (names : List String)
      → IsWellFormed m
      → (is_some (first_target test monitors m names) ≡ anyb (passes test m) names)
        × ((t : ManagedTarget)
            → first_target test monitors m names ≡ some t
            → (test (monitors t.monitor) ≡ true) × (lookup t.metadata.name m.targets ≡ some t))
  unfolding first_target
  first_target-passes test m [] v = (refl, λ t e. cc)
  first_target-passes test m (n ∷ ns) v =
      let (r, q) = first_target-passes test m ns v in
      elim (Option-cases (lookup n m.targets)) [
        | inl e ↦ (ground arith, λ t h. q t (ground arith))
        | inr (u, e) ↦
            let named = v.named n u e in
            let found : lookup u.metadata.name m.targets ≡ some u =
              ap (λ k. lookup k m.targets) named ∙ e in
            elim (Bool-cases (test (monitors u.monitor))) [
              | inl b ↦ (ground arith, λ t h. ground arith)
              | inr b ↦ (ground arith, λ t h. q t (ground arith))
            ]
      ]

  -- A request to a manager that is valid and has targets always gets one of them, whatever the
  -- name: that of the trimmed name if it is configured; else, if some target's last poll failed,
  -- one whose last poll failed; else, if some target's latest snapshot is unhealthy, one such.
  pub resolve_target-configured :
      (m : Manager) (name : String)
      → IsWellFormed m
      → ltb 0 (length m.order) ≡ true
      → (t : ManagedTarget) × (resolve_target monitors m name ≡ some t)
        × (lookup t.metadata.name m.targets ≡ some t)
        × (has_name (trim_space name) m.order ≡ true → t.metadata.name ≡ trim_space name)
        × (has_name (trim_space name) m.order ≡ false
            → (anyb (passes is_failing m) m.order ≡ true → is_failing (monitors t.monitor) ≡ true)
              × (anyb (passes is_failing m) m.order ≡ false
                  → anyb (passes (λ (x : Monitor F). snapshot_unhealthy x.latest) m) m.order ≡ true
                  → snapshot_unhealthy (monitors t.monitor).latest ≡ true))
  unfolding resolve_target
  resolve_target-configured m name v h =
      let unhealthy : Monitor F → Bool = λ x. snapshot_unhealthy x.latest in
      let (rf, qf) = first_target-passes is_failing m m.order v in
      let (ru, qu) = first_target-passes unhealthy m m.order v in
      let o = v.ordered (trim_space name) in
      elim (Option-cases (lookup (trim_space name) m.targets)) [
        | inr (t, e) ↦
            let n = v.named (trim_space name) t e in
            (
              t,
              ground arith,
              ap (λ k. lookup k m.targets) n ∙ e,
              λ _. n,
              λ b. absurd (ground arith),
            )
        | inl e ↦ elim (Option-cases (first_target is_failing monitors m m.order)) [
          | inr (t, e₁) ↦
              let (b, l) = qf t e₁ in
              (
                t,
                ground arith,
                l,
                λ c. absurd (ground arith),
                λ _. (λ _. b, λ c. absurd (ground arith)),
              )
          | inl e₁ ↦ elim (Option-cases (first_target unhealthy monitors m m.order)) [
            | inr (t, e₂) ↦
                let (b, l) = qu t e₂ in
                (
                  t,
                  ground arith,
                  l,
                  λ c. absurd (ground arith),
                  λ _. (λ c. absurd (ground arith), λ _ _. b),
                )
            | inl e₂ ↦
                let (t, l, f) = first_of m v h in
                (
                  t,
                  ground arith,
                  l,
                  λ c. absurd (ground arith),
                  λ _. (λ c. absurd (ground arith), λ _ c. absurd (ground arith)),
                )
          ]
        ]
      ]
