-- ===== src/Server/Events/Window.antt =====
-- What the public event list may show (internal/server/public_events.go and request.go,
-- internal/storage/query.go).
use mathlib.Core.Path.{subst}
use statlite.Result.{or_err, Result, ok, err, Result-cases, >>=-eq-ok, ok_injective, or_err-eq-ok}
use statlite.Time.{Time, before}
use statlite.Storage.Types.{Event}
use statlite.Storage.Db.{Db, PollRow}
use statlite.Storage.Query.{newest_first, polls_of, poll_events, all_events, query_events, events}
use statlite.Storage.Query.Sorted.{newest_first-All}
use statlite.Monitor.State.{Monitor}
use statlite.Monitor.Manager.{Manager}
use statlite.Server.Request.{
  RequestError, bad_limit, Query, get_value, check_query, select_public_target, events_window,
  events_limit, parse_public_events_options, clamp_to_retention,
}
use statlite.Server.Status.{PublicEvent, public_event, has_url}
use statlite.Server.Status.View.{public_diagnostic_message-has_url}
use statlite.Server.Events.{
  PublicEventsResponse, or_bad_request, events_between, handle_public_events,
}
use statlite.Prelude.{
  ℕ, zero, suc, ◌-◌, ◌≤◌, ◌<◌, String, ◌≡◌, refl, sym, ap, inl, inr, Bool, true, false, ◌&&◌, some,
  List, [], ◌∷◌, map, arith, ltb, leb, if◌then◌else◌, Bool-cases, length, take, filterb, All,
  All-append, All-of, All-every, All-map, length-take,
}

events_limit_bounds : (v : String) (n : ℕ) → events_limit v ≡ some n → (1 ≤ n) × (n ≤ 500)
unfolding events_limit
events_limit_bounds v n h = (ground arith, ground arith)

take-All : (P : Event → Type 0) (n : ℕ) (es : List Event) → All P es → All P (take n es)
take-All P zero es h = tt
take-All P (suc n) [] h = tt
take-All P (suc n) (e ∷ es) h = (h.0, take-All P n es h.1)

abbrev InWindow : Time → Time → Time → Type 0
InWindow start end at = (start ≤ at) × (at ≤ end)

abbrev in_window : Time → Time → PollRow → Bool
in_window start end p = leb start p.started_at && leb p.started_at end

window-All :
    (start end : Time) (ps : List PollRow)
    → All (λ (p : PollRow). InWindow start end p.started_at) (filterb (in_window start end) ps)
window-All start end [] = tt
window-All start end (p ∷ ps) = elim (Bool-cases (in_window start end p)) [
  | inl e ↦ rw e ((ground arith, ground arith), window-All start end ps)
  | inr e ↦ rw e (window-All start end ps)
]

-- What may be shown of a target between two times.
abbrev pub Shown : Time → Time → PublicEvent → Type 0
Shown start end e = (start ≤ e.timestamp) × (e.timestamp ≤ end) × (has_url e.message ≡ false)

length-map : (f : Event → PublicEvent) (es : List Event) → length (map f es) ≡ length es
length-map f [] = refl
length-map f (e ∷ es) = ap (λ n. suc n) (length-map f es)

public_event-Shown :
    (start end : Time) (es : List Event)
    → All (λ (e : Event). InWindow start end e.timestamp) es
    → All (Shown start end) (map public_event es)
unfolding public_event
public_event-Shown start end [] h = tt
public_event-Shown start end (e ∷ es) h = (
  (h.0.0, h.0.1, public_diagnostic_message-has_url e.message),
  public_event-Shown start end es h.1,
)

parse_public_events_options_bounds :
    (query : Query) (options : ℕ × ℕ)
    → parse_public_events_options query ≡ ok options
    → (1 ≤ options.1) × (options.1 ≤ 500)
unfolding parse_public_events_options
parse_public_events_options_bounds query options h =
    let (window, _, h₁) = >>=-eq-ok (or_err (events_window (get_value "range" query)) _) _ h in
    let (limit, l, h₂) =
      >>=-eq-ok (or_err (events_limit (get_value "limit" query)) bad_limit) _ h₁ in
    let b = events_limit_bounds (get_value "limit" query) limit (or_err-eq-ok _ bad_limit l) in
    subst (λ (o : ℕ × ℕ). (1 ≤ o.1) × (o.1 ≤ 500)) (ok_injective h₂) b

le_trans : {a b c : ℕ} → a ≤ b → b ≤ c → a ≤ c
le_trans h k = omega arith

clamp_to_retention-le :
    (days : ℕ) (cutoff start : Time)
    → (if ltb 0 days then cutoff else 0) ≤ (clamp_to_retention days (some cutoff) start).0
unfolding clamp_to_retention
clamp_to_retention-le days cutoff start = ground arith

or_bad_request-eq-ok :
    {A : Type 0} (r : Result RequestError A) {a : A} → or_bad_request r ≡ ok a → r ≡ ok a
or_bad_request-eq-ok (ok a) h = cc
or_bad_request-eq-ok (err e) h = cc

module _ {F : Type 0} where
  all_events-InWindow :
      (db : Db F) (type : String) (start end : Time) (ps : List PollRow)
      → All (λ (p : PollRow). InWindow start end p.started_at) ps
      → All (λ (e : Event). InWindow start end e.timestamp) (all_events db type ps)
  all_events-InWindow db type start end [] h = tt
  all_events-InWindow db type start end (p ∷ ps) h =
      All-append _ (poll_events db type p) (all_events db type ps)
        (All-map _ _ _ (All-every _ (λ _. h.0) _)) (all_events-InWindow db type start end ps h.1)

  query_events-InWindow :
      (db : Db F) (name : String) (start end : Time) (type : String) (limit : ℕ)
      → 0 < limit
      → All
          (λ (e : Event). InWindow start end e.timestamp)
          (query_events db name start end type limit)
        × (length (query_events db name start end type limit) ≤ limit)
  unfolding query_events
  query_events-InWindow db name start end type limit h =
      let window = newest_first (filterb (in_window start end) (polls_of db name)) in
      let found = all_events db type window in
      let all =
        all_events-InWindow db type start end window
          (newest_first-All _ _ (window-All start end _)) in
      let e : ltb 0 limit ≡ true = ground arith in
      rw e (
        take-All _ limit found all,
        subst (λ n. n ≤ limit) (sym (length-take limit found)) (ground arith),
      )

  events-eq_query :
      (db : Db F) (name : String) (start end : Time) (limit : ℕ) (found : List Event)
      → events db name start end limit ≡ ok found
      → query_events db name start end "" limit ≡ found
  unfolding events
  events-eq_query db name start end limit found h = ground arith

  events_between-Shown :
      (db : Db F) (name : String) (start end : Time) (limit : ℕ) (out : List PublicEvent)
      → 0 < limit
      → events_between db name start end limit ≡ ok out
      → All (Shown start end) out × (length out ≤ limit)
  unfolding events_between
  events_between-Shown db name start end limit out l h = elim (Bool-cases (before start end)) [
    | inr e ↦
        let none_found : ◌≡◌ {A = List PublicEvent} [] out = ground arith in
        subst (λ (o : List PublicEvent). All (Shown start end) o × (length o ≤ limit)) none_found
          (tt, omega arith)
    | inl e ↦ elim (Result-cases (events db name start end limit)) [
      | inr (x, q) ↦ absurd (ground arith)
      | inl (found, q) ↦
          let eq : map public_event found ≡ out = ground arith in
          let (w, b) = query_events-InWindow db name start end "" limit l in
          let r = events-eq_query db name start end limit found q in
          let w' =
            subst
              (λ (o : List Event).
                All (λ (x : Event). InWindow start end x.timestamp) o × (length o ≤ limit))
              r (w, b) in
          subst (λ (o : List PublicEvent). All (Shown start end) o × (length o ≤ limit)) eq
            (
              public_event-Shown start end found w'.0,
              subst (λ n. n ≤ limit) (sym (length-map public_event found)) w'.1,
            )
    ]
  ]

  -- If the public event list answers with events: each was recorded by a poll that started no
  -- earlier than the retention's cutoff, where retention is on, and no later than the request, its
  -- message holds no URL, and there are at most 500 of them.
  pub handle_public_events-Shown :
      (db : Db F) (monitors : ℕ → Monitor F) (manager : Manager) (days cutoff : ℕ) (now : Time)
      (query : Query) (out : PublicEventsResponse)
      → handle_public_events db monitors manager days (some cutoff) now query ≡ ok out
      → All (Shown (if ltb 0 days then cutoff else 0) now) out.events × (length out.events ≤ 500)
  unfolding handle_public_events
  handle_public_events-Shown db monitors manager days cutoff now query out h =
      let (_, _, h₁) =
        >>=-eq-ok (or_bad_request (check_query ("target" ∷ "range" ∷ "limit" ∷ []) query)) _ h in
      let (target, _, h₂) = >>=-eq-ok (or_bad_request (select_public_target manager query)) _ h₁ in
      let (options, p, h₃) = >>=-eq-ok (or_bad_request (parse_public_events_options query)) _ h₂ in
      let start = (clamp_to_retention days (some cutoff) (now - options.0)).0 in
      let name = (monitors target.monitor).target_name in
      let (found, q, h₄) = >>=-eq-ok (events_between db name start now options.1) _ h₃ in
      let bound = parse_public_events_options_bounds query options (or_bad_request-eq-ok _ p) in
      let shown = events_between-Shown db name start now options.1 found (omega arith) q in
      let low = clamp_to_retention-le days cutoff (now - options.0) in
      subst
        (λ (o : List PublicEvent).
          All (Shown (if ltb 0 days then cutoff else 0) now) o × (length o ≤ 500))
        (ap (λ (o : PublicEventsResponse). o.events) (ok_injective h₄))
        (All-of _ (λ e k. (le_trans low k.0, k.1, k.2)) found shown.0, le_trans shown.1 bound.1)
