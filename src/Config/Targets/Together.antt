-- ===== src/Config/Targets/Together.antt =====
-- What the targets of a validated list are together (internal/config/config.go).
use mathlib.Core.Path.{subst}
use statlite.Result.{ok, refuse, >>=-eq-ok, refuse-eq-ok, ok_injective}
use statlite.Config.{TargetConfig, Parsers}
use statlite.Config.Errors.{only_for_caddy, name_required, no_targets}
use statlite.Config.Caddy.{caddy_selection_key, target_error_of}
use statlite.Config.Targets.{
  Seen, find_selection, is_type, validate_type, check_auth, check_extras, refuse_duplicate, named,
  is_none_of, validate_target, validate_targets_from, validate_targets,
}
use statlite.Config.Targets.Switched.{validate_type-IsSwitched}
use statlite.Config.Targets.Accepted.{
  is_complete_auth, same_key, check_auth-is_complete_auth, IsAccepted, clash, is_fresh,
}
use statlite.Prelude.{
  ℕ, ◌+◌, String, ◌≡◌, refl, sym, ap, ◌∙◌, inl, inr, Bool, true, false, not, ◌&&◌, ◌||◌, Option,
  none, some, List, [], ◌∷◌, map, arith, if◌then◌else◌, Bool-cases, is_some, All, All-of, str_eq,
  is_empty, trim_space, lookup,
}

lookup-extended :
    (name key : String) (i : ℕ) (names : List (String × ℕ))
    → is_some (lookup key ((name, i) ∷ names)) ≡ (str_eq name key || is_some (lookup key names))
unfolding lookup
lookup-extended name key i names = elim (Bool-cases (str_eq name key)) [
  | inl e ↦ rw (e, lookup) refl
  | inr e ↦ rw (e, lookup) refl
]

find_selection-extended :
    (caddy : Bool) (k key : String × String) (name : String)
    (rest : List ((String × String) × String))
    → is_some (find_selection key (if caddy then (k, name) ∷ rest else rest))
      ≡ ((caddy && same_key k key) || is_some (find_selection key rest))
unfolding find_selection
find_selection-extended true k key name rest = elim (Bool-cases (same_key k key)) [
  | inl e ↦ rw e refl
  | inr e ↦ rw e refl
]
find_selection-extended false k key name rest = refl

check_extras-auth :
    (t : TargetConfig) {v : Unit {0}} → check_extras t ≡ ok v → is_complete_auth t t.auth ≡ true
unfolding check_extras
check_extras-auth t h =
    let (_, auth, _) = >>=-eq-ok (check_auth t t.auth) _ h in
    check_auth-is_complete_auth t t.auth auth

refuse_duplicate-eq-ok :
    (i : ℕ) (name : String) (o : Option ℕ) {v : Unit {0}}
    → refuse_duplicate i name o ≡ ok v
    → is_some o ≡ false
refuse_duplicate-eq-ok i name none h = refl
refuse_duplicate-eq-ok i name (some j) h = cc h

module _ (lib : Parsers) where
  -- A target that passed beside the earlier ones, and the state behind it.
  record IsAdded (i : ℕ) (seen seen' : Seen) (t t' : TargetConfig) : Type 0 where
    accepted : IsAccepted lib t'
    trimmed : t'.name ≡ trim_space t.name
    fresh : is_fresh lib seen t' ≡ true
    names : seen'.names ≡ (t'.name, i) ∷ seen.names
    selections : seen'.selections ≡ (
        if is_type t' "caddy"
        then (caddy_selection_key lib t', t'.name) ∷ seen.selections
        else seen.selections)

  validate_target-IsAdded :
      (i : ℕ) (seen seen' : Seen) (t t' : TargetConfig)
      → validate_target lib i seen t ≡ ok (seen', t')
      → IsAdded i seen seen' t t'
  unfolding validate_target
  validate_target-IsAdded i seen seen' t t' h =
      let n = named t in
      let (_, name, h1) = >>=-eq-ok (refuse (is_empty n.name) (name_required i)) _ h in
      let (_, unseen, h2) = >>=-eq-ok (refuse_duplicate i n.name (lookup n.name seen.names)) _ h1 in
      let hosted = not (is_type n "caddy") && (not (is_empty n.host) || n.host_set) in
      let failure = target_error_of n "host" only_for_caddy in
      let (_, host, h3) = >>=-eq-ok (refuse hosted failure) _ h2 in
      let with_name = record seen { names = (n.name, i) ∷ seen.names } in
      let ((s, u), e, h4) = >>=-eq-ok (validate_type lib with_name n) _ h3 in
      let (_, extras, h5) = >>=-eq-ok (check_extras u) _ h4 in
      let is = validate_type-IsSwitched lib with_name s n u e in
      let same = ok_injective h5 in
      let name' = refuse-eq-ok (is_empty n.name) _ name in
      let unseen' = refuse_duplicate-eq-ok i n.name (lookup n.name seen.names) unseen in
      let host' = refuse-eq-ok hosted failure host in
      subst (λ (x : Seen × TargetConfig). IsAdded i seen x.0 t x.1) same
        (record {
          accepted = record {
            has_name = ap is_empty is.same_name ∙ name';
            has_type = is.has_type;
            has_url = is.has_url;
            has_source = is.has_source;
            has_auth = check_extras-auth u extras;
            host_of_caddy = rw (is.same_type, is.same_host) (ground arith);
          };
          trimmed = is.same_name;
          fresh = rw (is.fresh_selection, is.same_name, unseen') refl;
          names = is.same_names ∙ ap (λ m. (m, i) ∷ seen.names) (sym is.same_name);
          selections = is.new_selections;
        })

  -- What the state behind a target has room for clashes with neither that target nor an earlier one.
  is_fresh-added :
      (i : ℕ) (seen seen' : Seen) (t t' u : TargetConfig)
      → IsAdded i seen seen' t t'
      → is_fresh lib seen' u ≡ true
      → (is_fresh lib seen u ≡ true) × (clash lib t' u ≡ false)
  is_fresh-added i seen seen' t t' u is h =
      let k = caddy_selection_key lib t' in
      let l = caddy_selection_key lib u in
      let names =
        ap (λ m. is_some (lookup u.name m)) is.names
        ∙ lookup-extended t'.name u.name i seen.names in
      let selections =
        ap (λ m. is_some (find_selection l m)) is.selections
        ∙ find_selection-extended (is_type t' "caddy") k l t'.name seen.selections in
      let h' = rw (names, selections) at h in (ground arith, ground arith)

  -- Pairwise without a clash.
  pub AreSeparate : List TargetConfig → Type 0
  AreSeparate [] = Unit {0}
  AreSeparate (t ∷ ts) = All (λ u. clash lib t u ≡ false) ts × AreSeparate ts

  -- Accepted targets that the state in front of them leaves room for.
  record AreAdded (seen : Seen) (ts : List TargetConfig) : Type 0 where
    all_accepted : All (IsAccepted lib) ts
    all_fresh : All (λ u. is_fresh lib seen u ≡ true) ts
    separate : AreSeparate ts

  AreAdded-cons :
      (i : ℕ) (seen seen' : Seen) (t t' : TargetConfig) (ts : List TargetConfig)
      → IsAdded i seen seen' t t'
      → AreAdded seen' ts
      → AreAdded seen (t' ∷ ts)
  unfolding AreSeparate
  AreAdded-cons i seen seen' t t' ts is rest = record {
    all_accepted = (is.accepted, rest.all_accepted);
    all_fresh =
        (is.fresh, All-of _ (λ u h. (is_fresh-added i seen seen' t t' u is h).0) ts rest.all_fresh);
    separate = (
      All-of _ (λ u h. (is_fresh-added i seen seen' t t' u is h).1) ts rest.all_fresh,
      rest.separate,
    );
  }

  validate_targets_from-AreAdded :
      (i : ℕ) (seen : Seen) (ts us : List TargetConfig)
      → validate_targets_from lib i seen ts ≡ ok us
      → AreAdded seen us
        × (map (λ (u : TargetConfig). u.name) us ≡ map (λ (t : TargetConfig). trim_space t.name) ts)
  unfolding validate_targets_from AreSeparate
  validate_targets_from-AreAdded i seen [] us h =
      subst
        (λ (v : List TargetConfig). AreAdded seen v × (map (λ (u : TargetConfig). u.name) v ≡ []))
        (ok_injective h) (record { all_accepted = tt; all_fresh = tt; separate = tt }, refl)
  validate_targets_from-AreAdded i seen (t ∷ ts) us h =
      let ((seen', t'), e, h1) = >>=-eq-ok (validate_target lib i seen t) _ h in
      let (us', e', h2) = >>=-eq-ok (validate_targets_from lib (i + 1) seen' ts) _ h1 in
      let is = validate_target-IsAdded i seen seen' t t' e in
      let (rest, names) = validate_targets_from-AreAdded (i + 1) seen' ts us' e' in
      subst
        (λ (v : List TargetConfig).
          AreAdded seen v
          × (map (λ (u : TargetConfig). u.name) v
              ≡ map (λ (t : TargetConfig). trim_space t.name) (t ∷ ts)))
        (ok_injective h2) (AreAdded-cons i seen seen' t t' us' is rest, cc (is.trimmed, names))

  -- What an accepted list of targets is.
  pub record AreAccepted (ts : List TargetConfig) : Type 0 where
    pub not_none : is_none_of ts ≡ false
    pub all_accepted : All (IsAccepted lib) ts
    pub separate : AreSeparate ts

  is_none_of-map :
      (ts us : List TargetConfig)
      → map (λ (u : TargetConfig). u.name) us ≡ map (λ (t : TargetConfig). trim_space t.name) ts
      → is_none_of us ≡ is_none_of ts
  is_none_of-map [] [] h = refl
  is_none_of-map (_ ∷ _) (_ ∷ _) h = refl
  is_none_of-map [] (_ ∷ _) h = cc
  is_none_of-map (_ ∷ _) [] h = cc

  pub validate_targets-AreAccepted :
      (ts us : List TargetConfig)
      → validate_targets lib ts ≡ ok us
      → AreAccepted us
        × (map (λ (u : TargetConfig). u.name) us ≡ map (λ (t : TargetConfig). trim_space t.name) ts)
  unfolding validate_targets
  validate_targets-AreAccepted ts us h =
      let (_, some_target, h1) = >>=-eq-ok (refuse (is_none_of ts) no_targets) _ h in
      let (is, names) = validate_targets_from-AreAdded 0 _ ts us h1 in
      (
        record {
          not_none =
              is_none_of-map ts us names ∙ refuse-eq-ok (is_none_of ts) no_targets some_target;
          all_accepted = is.all_accepted;
          separate = is.separate;
        },
        names,
      )
