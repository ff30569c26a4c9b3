-- ===== src/Storage/DashboardPolls.antt =====
-- internal/storage/dashboard_series.go: the polls that a dashboard's chart reads, at most two for each
-- bucket and app run. A Go map is an association list, and its range's order does not matter, since
-- the ids are sorted.
pub mod Selection
use statlite.Time.{Time, Duration}
use statlite.Storage.Db.{Db, PollRow}
use statlite.Storage.Downsample.{clock_bucket_start}
use statlite.Storage.Query.{polls_of}
use statlite.Prelude.{
  ℕ, ◌+◌, String, Bool, true, ◌&&◌, ◌||◌, Option, none, some, List, [], ◌∷◌, ◌++◌, ltb, leb, ◌==◌,
  if◌then◌else◌, option_eq, filterb,
}

abbrev pub dashboard_poll_limit : ℕ
dashboard_poll_limit = 4096

-- The map's key, `group`, and its value, `endpoints`.
pub record Group : Type 0 where
  pub bucket : Time
  pub run : Option ℕ

pub record Endpoints : Type 0 where
  pub first : ℕ
  pub last : ℕ

abbrev pub same_group : Group → Group → Bool
same_group a b = (a.bucket == b.bucket) && option_eq a.run b.run

abbrev pub Groups : Type 0
Groups = List (Group × Endpoints)

unfoldable pub find_group : Group → Groups → Option Endpoints
find_group key [] = none
find_group key ((k, v) ∷ gs) = if same_group k key then some v else find_group key gs

unfoldable pub set_group : Group → Endpoints → Groups → Groups
set_group key v [] = (key, v) ∷ []
set_group key v ((k, w) ∷ gs) =
    if same_group k key then (key, v) ∷ gs else (k, w) ∷ set_group key v gs

-- !exists || pair.first == pair.last
abbrev pub adds_endpoint : Option Endpoints → Bool
adds_endpoint none = true
adds_endpoint (some e) = e.first == e.last

abbrev pub extend : Option Endpoints → ℕ → Endpoints
extend none id = record { first = id; last = id }
extend (some e) id = record { first = e.first; last = id }

abbrev pub group_of : Duration → PollRow → Group
group_of bucket p = record { bucket = clock_bucket_start p.started_at bucket; run = p.app_run_id }

-- The loop over the polls, oldest first: the map and the count, or `none` past the cap.
unfoldable pub select_polls : Duration → Groups → ℕ → List PollRow → Option (Groups × ℕ)
select_polls bucket groups count [] = some (groups, count)
select_polls bucket groups count (p ∷ ps) =
    let key = group_of bucket p in
    let pair = find_group key groups in
    let rest =
      select_polls bucket (set_group key (extend pair p.id) groups)
        (if adds_endpoint pair then count + 1 else count) ps in
    if adds_endpoint pair && (count == dashboard_poll_limit) then none else rest

abbrev pub endpoint_ids : Endpoints → List ℕ
endpoint_ids e = if e.last == e.first then e.first ∷ [] else e.first ∷ e.last ∷ []

unfoldable pub group_ids : Groups → List ℕ
group_ids [] = []
group_ids ((k, e) ∷ gs) = endpoint_ids e ++ group_ids gs

-- slices.Sort
unfoldable pub insert_id : ℕ → List ℕ → List ℕ
insert_id i [] = i ∷ []
insert_id i (j ∷ js) = if leb i j then i ∷ j ∷ js else j ∷ insert_id i js

unfoldable pub sort_ids : List ℕ → List ℕ
sort_ids [] = []
sort_ids (i ∷ is) = insert_id i (sort_ids is)

-- ORDER BY p.started_at ASC, p.id ASC
abbrev pub is_older : PollRow → PollRow → Bool
is_older a b = ltb a.started_at b.started_at || ((a.started_at == b.started_at) && ltb a.id b.id)

unfoldable pub insert_oldest : PollRow → List PollRow → List PollRow
insert_oldest p [] = p ∷ []
insert_oldest p (q ∷ qs) = if is_older p q then p ∷ q ∷ qs else q ∷ insert_oldest p qs

unfoldable pub oldest_first : List PollRow → List PollRow
oldest_first [] = []
oldest_first (p ∷ ps) = insert_oldest p (oldest_first ps)

module _ {F : Type 0} where
  abbrev pub window_polls : Db F → String → Time → Time → List PollRow
  window_polls db target_name start end = oldest_first (
      filterb (λ (p : PollRow). leb start p.started_at && leb p.started_at end)
        (polls_of db target_name))

  -- `none` asks for the fallback on all polls.
  unfoldable pub dashboard_poll_ids : Db F → String → Time → Time → Duration → Option (List ℕ)
  dashboard_poll_ids db target_name start end bucket =
      elim (select_polls bucket [] 0 (window_polls db target_name start end)) [
        | none ↦ none
        | some (groups, count) ↦ some (sort_ids (group_ids groups))
      ]
