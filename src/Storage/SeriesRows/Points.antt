-- ===== src/Storage/SeriesRows/Points.antt =====
-- The points of a series, poll by poll (internal/storage/series.go).
use mathlib.Core.Path.{subst}
use mathlib.Core.List.{append_assoc, append-nil}
use statlite.Float.{Float64}
use statlite.Time.{Time}
use statlite.Storage.Types.{SeriesPoint}
use statlite.Storage.Db.{Db, PollRow, SampleRow}
use statlite.Storage.Series.{PollSamples, Baselines, build_series_point, set_current_host_disk}
use statlite.Storage.SeriesRows.{
  SeriesLoop, SeriesRow, joined_row, joined_rows, samples_of, series_polls, new_poll_samples,
  put_sample, flush_poll, series_row, series_with_baseline,
}
use statlite.Prelude.{
  ℕ, String, ◌≡◌, refl, sym, ap, ◌∙◌, true, false, Option, none, some, List, [], ◌∷◌, ◌++◌, map,
  arith, ◌==◌, if◌then◌else◌, All, inl, inr, Bool-cases, last?, foldl, foldl-append,
}

abbrev pub HasDistinctIds : List PollRow → Type 0
HasDistinctIds [] = Unit
HasDistinctIds (p ∷ ps) = All (λ (q : PollRow). (p.id == q.id) ≡ false) ps × HasDistinctIds ps

module _ {F : Type 0} where
  -- All samples of a poll that has some.
  abbrev pub gathered : PollRow → List (SampleRow F) → List (PollSamples F)
  gathered p [] = []
  gathered p (r ∷ rs) =
      foldl put_sample (new_poll_samples (joined_row p r)) (map (joined_row p) (r ∷ rs)) ∷ []

  abbrev pub gather_polls : (PollRow → List (SampleRow F)) → List PollRow → List (PollSamples F)
  gather_polls samples [] = []
  gather_polls samples (p ∷ ps) = gathered p (samples p) ++ gather_polls samples ps

  abbrev IsApart : Option (PollSamples F) → List PollRow → Type 0
  IsApart none ps = Unit
  IsApart (some poll) ps = All (λ (q : PollRow). (poll.poll_id == q.id) ≡ false) ps

  abbrev pending : Option (PollSamples F) → List (PollSamples F)
  pending none = []
  pending (some poll) = poll ∷ []

  foldl-poll_id :
      (poll : PollSamples F) (rows : List (SeriesRow F))
      → (foldl put_sample poll rows).poll_id ≡ poll.poll_id
  foldl-poll_id poll [] = refl
  foldl-poll_id poll (r ∷ rows) = foldl-poll_id (put_sample poll r) rows

module _ {F : Type 0} ⦃fl : Float64 F⦄ where
  -- One point for each poll, against the counters of the polls before it.
  abbrev pub derive_points : Time → Baselines F → List (PollSamples F) → List (SeriesPoint F)
  derive_points start previous [] = []
  derive_points start previous (poll ∷ polls) =
      let (point, include, next) = build_series_point poll previous start in
      let rest = derive_points start next polls in if include then point ∷ rest else rest

  flush_poll-derive_points :
      (start : Time) (cur : Option (PollSamples F)) (previous : Baselines F)
      (points : List (SeriesPoint F)) (polls : List (PollSamples F))
      → let loop : SeriesLoop F = record { current = cur; previous = previous; points = points } in
        let flushed = flush_poll start loop in
        flushed.points ++ derive_points start flushed.previous polls
        ≡ points ++ derive_points start previous (pending cur ++ polls)
  unfolding flush_poll
  flush_poll-derive_points start none previous points polls = refl
  flush_poll-derive_points start (some poll) previous points polls =
      let (point, include, next) = build_series_point poll previous start in
      elim (Bool-cases include) [
        | inl e ↦ rw e (append_assoc points (point ∷ []) (derive_points start next polls))
        | inr e ↦ rw e refl
      ]

  series_row-put_sample :
      (start : Time) (p : PollRow) (r : SampleRow F) (poll : PollSamples F) (previous : Baselines F)
      (points : List (SeriesPoint F))
      → (poll.poll_id == p.id) ≡ true
      → series_row start
          (record { current = some poll; previous = previous; points = points })
          (joined_row p r)
        ≡ record {
          current = some (put_sample poll (joined_row p r));
          previous = previous;
          points = points;
        }
  unfolding series_row
  series_row-put_sample start p r poll previous points h = rw h refl

  -- The other rows of a poll.
  foldl-put_sample :
      (start : Time) (p : PollRow) (poll : PollSamples F) (previous : Baselines F)
      (points : List (SeriesPoint F)) (rs : List (SampleRow F))
      → (poll.poll_id == p.id) ≡ true
      → foldl
          (series_row start)
          (record { current = some poll; previous = previous; points = points })
          (map (joined_row p) rs)
        ≡ record {
          current = some (foldl put_sample poll (map (joined_row p) rs));
          previous = previous;
          points = points;
        }
  foldl-put_sample start p poll previous points [] h = refl
  foldl-put_sample start p poll previous points (r ∷ rs) h =
      ap (λ loop. foldl (series_row start) loop (map (joined_row p) rs))
        (series_row-put_sample start p r poll previous points h)
      ∙ foldl-put_sample start p (put_sample poll (joined_row p r)) previous points rs h

  -- The first row of a poll.
  series_row-new_poll_samples :
      (start : Time) (p : PollRow) (ps : List PollRow) (r : SampleRow F)
      (cur : Option (PollSamples F)) (previous : Baselines F) (points : List (SeriesPoint F))
      → IsApart cur (p ∷ ps)
      → let loop : SeriesLoop F = record { current = cur; previous = previous; points = points } in
        let row = joined_row p r in
        series_row start loop row
        ≡ record (flush_poll start loop) { current = some (put_sample (new_poll_samples row) row) }
  unfolding series_row
  series_row-new_poll_samples start p ps r none previous points h = refl
  series_row-new_poll_samples start p ps r (some poll) previous points h = rw (h.0) refl

  -- All rows of a poll.
  foldl-gathered :
      (start : Time) (p : PollRow) (ps : List PollRow) (r : SampleRow F) (rs : List (SampleRow F))
      (cur : Option (PollSamples F)) (previous : Baselines F) (points : List (SeriesPoint F))
      → IsApart cur (p ∷ ps)
      → let loop : SeriesLoop F = record { current = cur; previous = previous; points = points } in
        let row = joined_row p r in
        foldl (series_row start) loop (map (joined_row p) (r ∷ rs))
        ≡ record (flush_poll start loop) {
          current =
              some
                (foldl put_sample (put_sample (new_poll_samples row) row) (map (joined_row p) rs));
        }
  foldl-gathered start p ps r rs cur previous points h =
      let loop : SeriesLoop F = record { current = cur; previous = previous; points = points } in
      let row = joined_row p r in
      let flushed = flush_poll start loop in
      ap (λ l. foldl (series_row start) l (map (joined_row p) rs))
        (series_row-new_poll_samples start p ps r cur previous points h)
      ∙ foldl-put_sample start p (put_sample (new_poll_samples row) row) flushed.previous
          flushed.points rs (ground arith)

  -- The points of the polls still to come, whichever poll is open.
  abbrev Gathers :
      Time
      → (PollRow → List (SampleRow F))
      → List PollRow
      → List (SeriesRow F)
      → List (PollSamples F)
      → Type 0
  Gathers start samples ps rows polls =
      (cur : Option (PollSamples F)) (previous : Baselines F) (points : List (SeriesPoint F))
      → IsApart cur ps
      → (flush_poll start (
          foldl (series_row start) (record { current = cur; previous = previous; points = points })
            rows)).points
        ≡ points ++ derive_points start previous (pending cur ++ polls)

  IsApart-tail :
      (cur : Option (PollSamples F)) (p : PollRow) (ps : List PollRow)
      → IsApart cur (p ∷ ps)
      → IsApart cur ps
  IsApart-tail none p ps h = tt
  IsApart-tail (some poll) p ps h = h.1

  joined_row-Gathers :
      (start : Time) (samples : PollRow → List (SampleRow F)) (p : PollRow) (ps : List PollRow)
      (rs : List (SampleRow F)) (rows : List (SeriesRow F)) (polls : List (PollSamples F))
      → All (λ (q : PollRow). (p.id == q.id) ≡ false) ps
      → Gathers start samples ps rows polls
      → Gathers start samples (p ∷ ps) (map (joined_row p) rs ++ rows) (gathered p rs ++ polls)
  joined_row-Gathers start samples p ps [] rows polls d rest cur previous points h =
      rest cur previous points (IsApart-tail cur p ps h)
  joined_row-Gathers start samples p ps (r ∷ rs) rows polls d rest cur previous points h =
      let loop : SeriesLoop F = record { current = cur; previous = previous; points = points } in
      let row = joined_row p r in
      let poll = foldl put_sample (put_sample (new_poll_samples row) row) (map (joined_row p) rs) in
      let flushed = flush_poll start loop in
      let apart =
        subst (λ i. All (λ (q : PollRow). (i == q.id) ≡ false) ps)
          (sym (foldl-poll_id (put_sample (new_poll_samples row) row) (map (joined_row p) rs))) d in
      ap (λ l. (flush_poll start l).points)
        (foldl-append (series_row start) loop (map (joined_row p) (r ∷ rs)) rows)
      ∙ ap (λ l. (flush_poll start (foldl (series_row start) l rows)).points)
          (foldl-gathered start p ps r rs cur previous points h)
      ∙ rest (some poll) flushed.previous flushed.points apart
      ∙ flush_poll-derive_points start cur previous points (poll ∷ polls)

  joined_rows-Gathers :
      (start : Time) (samples : PollRow → List (SampleRow F)) (ps : List PollRow)
      → HasDistinctIds ps
      → Gathers start samples ps (joined_rows samples ps) (gather_polls samples ps)
  unfolding joined_rows
  joined_rows-Gathers start samples [] d cur previous points h =
      sym (append-nil _) ∙ flush_poll-derive_points start cur previous points []
  joined_rows-Gathers start samples (p ∷ ps) d cur previous points h =
      joined_row-Gathers start samples p ps (samples p) (joined_rows samples ps)
        (gather_polls samples ps) d.0 (joined_rows-Gathers start samples ps d.1) cur previous points
        h

  -- If the polls that the query joins have distinct ids: the series has one point for each poll
  -- of them that has a sample of the series' keys and did not start before the window, in their
  -- order, built from all samples of that poll against the counters that the polls before it left
  -- in the baselines; and the latest point is the last of them.
  pub series_with_baseline-derive_points :
      (db : Db F) (name : String) (start end : Time) (ids : Option (List ℕ))
      (previous : Baselines F)
      → HasDistinctIds (series_polls db name start end ids)
      → let series = series_with_baseline db name start end ids previous in
        let polls = gather_polls (samples_of db) (series_polls db name start end ids) in
        (series.points ≡ derive_points start previous polls)
        × (series.latest_point ≡ last? (derive_points start previous polls))
  unfolding series_with_baseline set_current_host_disk
  series_with_baseline-derive_points db name start end ids previous d =
      let same =
        joined_rows-Gathers start (samples_of db) (series_polls db name start end ids) d none
          previous [] tt in
      (same, ap last? same)
