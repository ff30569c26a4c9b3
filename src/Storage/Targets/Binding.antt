-- ===== src/Storage/Targets/Binding.antt =====
-- What registration promises (internal/storage/target_identity.go): all or nothing, and a name's
-- type never changes.
use mathlib.Core.Path.{subst}
use statlite.Result.{ok_injective, ok, Result-cases}
use statlite.Time.{Time}
use statlite.Storage.Db.{Db, TargetRow, StoreError, target_named}
use statlite.Storage.Targets.{TargetIdentity, set_type, bind_target, register_all, register_targets}
use statlite.Prelude.{
  String, ◌≡◌, refl, sym, ap, ◌∙◌, ◌≢◌, inl, inr, true, ◌&&◌, Option, none, some, List, [], ◌∷◌,
  ◌++◌, arith, eq_iff, if◌then◌else◌, Bool-cases, Option-cases, is_some, anyb, All, str_eq,
  some_injective,
}

abbrev pub type_of_row : Option TargetRow → Option String
type_of_row none = none
type_of_row (some r) = r.target_type

-- The type that a name is bound to.
abbrev pub type_of : String → List TargetRow → Option String
type_of name rows = type_of_row (target_named name rows)

type_of-set_type :
    (name n type : String) (rows : List TargetRow)
    → type_of n (set_type name type rows)
      ≡ (if str_eq name n && is_some (target_named n rows) then some type else type_of n rows)
unfolding set_type
type_of-set_type name n type [] = ground arith
type_of-set_type name n type (r ∷ rows) =
    ground
      (arith, eq_iff r.name name, eq_iff r.name n, eq_iff name n, type_of-set_type name n type rows)

type_of-append :
    (n : String) (rows : List TargetRow) (r : TargetRow)
    → type_of n (rows ++ r ∷ []) ≡ (
        if is_some (target_named n rows)
        then type_of n rows
        else if str_eq r.name n
        then r.target_type
        else none)
type_of-append n [] r = ground arith
type_of-append n (q ∷ rows) r = ground (arith, type_of-append n rows r)

-- `rows'` gives the target its type, and leaves every type that was bound.
abbrev Binds : TargetIdentity → List TargetRow → List TargetRow → Type 0
Binds t rows rows' =
    (type_of t.name rows' ≡ some t.type)
    × ((n ty : String) → type_of n rows ≡ some ty → type_of n rows' ≡ some ty)

append-Binds :
    (t : TargetIdentity) (rows : List TargetRow) (r : TargetRow)
    → target_named t.name rows ≡ none
    → r.name ≡ t.name
    → r.target_type ≡ some t.type
    → Binds t rows (rows ++ r ∷ [])
append-Binds t rows r e n ty = (
  ground (arith, type_of-append t.name rows r, eq_iff r.name t.name),
  λ m tm h. ground (arith, type_of-append m rows r),
)

set_type-Binds :
    (t : TargetIdentity) (rows : List TargetRow) (r : TargetRow)
    → target_named t.name rows ≡ some r
    → r.target_type ≡ none
    → Binds t rows (set_type t.name t.type rows)
set_type-Binds t rows r e n = (
  ground (arith, type_of-set_type t.name t.name t.type rows, eq_iff t.name t.name),
  λ m tm h. ground (arith, type_of-set_type t.name m t.type rows, eq_iff t.name m),
)

bind_target-Binds :
    (now : Time) (t : TargetIdentity) (rows rows' : List TargetRow) (found : Option TargetRow)
    → target_named t.name rows ≡ found
    → bind_target now t rows found ≡ ok rows'
    → Binds t rows rows'
unfolding bind_target
bind_target-Binds now t rows rows' none e h =
    subst (Binds t rows) (ok_injective h) (append-Binds t rows _ e refl refl)
bind_target-Binds now t rows rows' (some r) e h = elim (Option-cases r.target_type) [
  | inl f ↦ subst (Binds t rows) (ok_injective (rw f at h)) (set_type-Binds t rows r e f)
  | inr (ty, f) ↦
      let same : str_eq ty t.type ≡ true = ground arith in
      let kept : rows ≡ rows' = ground arith in
      subst (Binds t rows) kept (ground (arith, eq_iff ty t.type), λ m tm k. k)
]

-- Every listed target has its type.
abbrev pub AllBound : List TargetIdentity → List TargetRow → Type 0
AllBound ts rows = All (λ (t : TargetIdentity). type_of t.name rows ≡ some t.type) ts

register_all_sound :
    (now : Time) (seen : List String) (ts : List TargetIdentity) (rows rows' : List TargetRow)
    → register_all now seen ts rows ≡ ok rows'
    → AllBound ts rows' × ((n ty : String) → type_of n rows ≡ some ty → type_of n rows' ≡ some ty)
unfolding register_all
register_all_sound now seen [] rows rows' h = (tt, λ n ty b. ground arith)
register_all_sound now seen (t ∷ ts) rows rows' h =
    elim (Result-cases (bind_target now t rows (target_named t.name rows))) [
      | inl (mid, e) ↦
          let b = bind_target-Binds now t rows mid (target_named t.name rows) refl e in
          let ih = register_all_sound now (t.name ∷ seen) ts mid rows' (ground arith) in
          ((ih.1 t.name t.type b.0, ih.0), λ n ty k. ih.1 n ty (b.1 n ty k))
      | inr (x, e) ↦ absurd (ground arith)
    ]

type_of-AllBound :
    (n type : String) (ts : List TargetIdentity) (rows : List TargetRow)
    → anyb (λ (t : TargetIdentity). str_eq t.name n && str_eq t.type type) ts ≡ true
    → AllBound ts rows
    → type_of n rows ≡ some type
type_of-AllBound n type [] rows h a = cc
type_of-AllBound n type (t ∷ ts) rows h a =
    elim (Bool-cases (str_eq t.name n && str_eq t.type type)) [
      | inl e ↦
          let en : t.name ≡ n = ground (arith, eq_iff t.name n) in
          let et : t.type ≡ type = ground (arith, eq_iff t.type type) in
          subst (λ (m : String). type_of m rows ≡ some type) en (a.0 ∙ ap some et)
      | inr e ↦ type_of-AllBound n type ts rows (rw e at h) a.1
    ]

module _ {F : Type 0} where
  -- Registration is all or nothing. Where it succeeds, every configured name has its type, every
  -- type that was bound is the same as before, and only the targets table changes; where it fails,
  -- the database is the one before.
  pub register_targets_atomic :
      (db : Db F) (now : Time) (ts : List TargetIdentity)
      → let (db', error) = register_targets db now ts in
        (error ≡ none
          → AllBound ts db'.targets
            × ((n ty : String) → type_of n db.targets ≡ some ty → type_of n db'.targets ≡ some ty)
            × (db' ≡ record db { targets = db'.targets }))
        × ((e : StoreError) → error ≡ some e → db' ≡ db)
  unfolding register_targets
  register_targets_atomic db now ts = elim (Result-cases (register_all now [] ts db.targets)) [
    | inl (rows, e) ↦
        let s = register_all_sound now [] ts db.targets rows e in
        rw (e, register_targets) (λ _. (s.0, s.1, refl), λ x h. cc)
    | inr (x, e) ↦ rw (e, register_targets) (λ h. cc, λ _ _. refl)
  ]

  -- A configured type that differs from the one a name is bound to is refused.
  register_targets_conflict :
      (db : Db F) (now : Time) (ts : List TargetIdentity) (n old new : String)
      → type_of n db.targets ≡ some old
      → anyb (λ (t : TargetIdentity). str_eq t.name n && str_eq t.type new) ts ≡ true
      → old ≢ new
      → (register_targets db now ts).1 ≢ none
  register_targets_conflict db now ts n old new b l d h =
      let a = (register_targets_atomic db now ts).0 h in
      d (
        some_injective (
          sym (a.1 n old b)
          ∙ type_of-AllBound n new ts (register_targets db now ts).0.targets l a.0))
