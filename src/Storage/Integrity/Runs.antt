-- ===== src/Storage/Integrity/Runs.antt =====
-- Ensuring and touching app runs (internal/storage/write.go): the run returned is there, no run is
-- lost, and the tables stay valid.
use mathlib.Core.Path.{subst}
use statlite.Result.{ok, Result-cases}
use statlite.Time.{Time}
use statlite.Storage.Db.{Db, AppRunRow, PollRow}
use statlite.Storage.Targets.{registered_target}
use statlite.Storage.Write.{
  run_exists, app_run_step, upsert_app_run, insert_anonymous_app_run, same_run, ensure_app_run,
  touch_app_run,
}
use statlite.Storage.Integrity.{IsValid}
use statlite.Prelude.{
  ℕ, String, ◌≡◌, refl, ◌∙◌, inl, inr, Bool, true, false, Option, none, some, List, [], ◌∷◌, ◌++◌,
  map, arith, ◌==◌, if◌then◌else◌, Option-cases, anyb, find?, All-of, anyb-append, is_blank,
}

abbrev pub has_run : ℕ → List AppRunRow → Bool
has_run id rows = anyb (λ (r : AppRunRow). r.id == id) rows

has_run-map :
    (f : AppRunRow → AppRunRow)
    → ((r : AppRunRow) → (f r).id ≡ r.id)
    → (id : ℕ) (rows : List AppRunRow) → has_run id (map f rows) ≡ has_run id rows
has_run-map f h id [] = refl
has_run-map f h id (r ∷ rows) = rw (h r, has_run-map f h id rows)

find?-has_run :
    (test : AppRunRow → Bool) (rows : List AppRunRow) (r : AppRunRow)
    → find? test rows ≡ some r
    → has_run r.id rows ≡ true
find?-has_run test [] r h = cc
find?-has_run test (x ∷ xs) r h = ground (arith, find?-has_run test xs r)

abbrev HasRunAfter : ℕ → List AppRunRow → List AppRunRow → Type 0
HasRunAfter id rows rows' =
    (has_run id rows' ≡ true) × ((k : ℕ) → has_run k rows ≡ true → has_run k rows' ≡ true)

has_run-append : (rows : List AppRunRow) (r : AppRunRow) → HasRunAfter r.id rows (rows ++ r ∷ [])
has_run-append rows r = (
  ground (arith, anyb-append (λ (q : AppRunRow). q.id == r.id) rows (r ∷ [])),
  λ k h. ground (arith, anyb-append (λ (q : AppRunRow). q.id == k) rows (r ∷ [])),
)

-- The run that the step returns is there, and every run that was there still is.
app_run_step-HasRunAfter :
    (rows : List AppRunRow) (target : ℕ) (type : String) (start : Option Time) (seen : Time)
    → let (id, rows') = app_run_step rows target type start seen in HasRunAfter id rows rows'
unfolding upsert_app_run insert_anonymous_app_run
app_run_step-HasRunAfter rows target type none seen = has_run-append rows _
app_run_step-HasRunAfter rows target type (some start) seen =
    elim (Option-cases (find? (same_run target start) rows)) [
      | inl e ↦ rw (e, upsert_app_run) (has_run-append rows _)
      | inr (old, e) ↦
          rw (e, upsert_app_run)
            (
              has_run-map (touch start seen) (touch_id start seen) old.id rows
                  ∙ find?-has_run (same_run target start) rows old e,
              λ k h. has_run-map (touch start seen) (touch_id start seen) k rows ∙ h,
            )
    ]
  where
    touch : Time → Time → AppRunRow → AppRunRow
    touch st at r = if same_run target st r then record r { last_seen_at = at } else r

    touch_id : (st at : Time) (r : AppRunRow) → (touch st at r).id ≡ r.id
    touch_id st at r = ground arith

run_exists-eq_has_run :
    (run : Option ℕ) (rows rows' : List AppRunRow)
    → ((k : ℕ) → has_run k rows ≡ true → has_run k rows' ≡ true)
    → run_exists run rows ≡ true
    → run_exists run rows' ≡ true
unfolding run_exists
run_exists-eq_has_run none rows rows' f h = refl
run_exists-eq_has_run (some k) rows rows' f h = f k h

module _ {F : Type 0} where
  with_runs-IsValid :
      (db : Db F) (rows : List AppRunRow)
      → ((k : ℕ) → has_run k db.app_runs ≡ true → has_run k rows ≡ true)
      → IsValid db
      → IsValid (record db { app_runs = rows })
  with_runs-IsValid db rows f v = record {
    poll_keys_increase = v.poll_keys_increase;
    polls_have_target = v.polls_have_target;
    polls_have_run =
        All-of _ (λ (p : PollRow) h. run_exists-eq_has_run p.app_run_id db.app_runs rows f h)
          db.polls v.polls_have_run;
    samples_have_poll = v.samples_have_poll;
    events_have_poll = v.events_have_poll;
  }

  -- A run that is ensured is there afterwards, so a poll may refer to it; every earlier run stays,
  -- polls, samples, events and targets are untouched, and the tables stay valid.
  pub ensure_app_run_sound :
      (db : Db F) (name : String) (start : Option Time) (seen : Time) (id : ℕ) (db' : Db F)
      → IsValid db
      → ensure_app_run db name start seen ≡ ok (id, db')
      → (has_run id db'.app_runs ≡ true)
        × ((k : ℕ) → has_run k db.app_runs ≡ true → has_run k db'.app_runs ≡ true)
        × (db' ≡ record db { app_runs = db'.app_runs })
        × IsValid db'
  unfolding ensure_app_run
  ensure_app_run_sound db name start seen id db' v h =
      elim (Result-cases (registered_target db name)) [
        | inl (t, e) ↦
            let run = app_run_step db.app_runs t.0 t.1 start seen in
            let a = app_run_step-HasRunAfter db.app_runs t.0 t.1 start seen in
            let eq : ◌≡◌ {A = ℕ × Db F} (run.0, record db { app_runs = run.1 }) (id, db') =
              ground arith in
            subst
              (λ (o : ℕ × Db F).
                (has_run o.0 o.1.app_runs ≡ true)
                × ((k : ℕ) → has_run k db.app_runs ≡ true → has_run k o.1.app_runs ≡ true)
                × (o.1 ≡ record db { app_runs = o.1.app_runs })
                × IsValid o.1)
              eq (a.0, a.1, refl, with_runs-IsValid db run.1 a.1 v)
        | inr (x, e) ↦ absurd (ground arith)
      ]

  pub touch_app_run-IsValid :
      (db : Db F) (id : ℕ) (seen : Time) (db' : Db F)
      → IsValid db
      → touch_app_run db id seen ≡ ok db'
      → IsValid db'
  unfolding touch_app_run
  touch_app_run-IsValid db id seen db' v h =
      let touch : AppRunRow → AppRunRow =
        λ r. if r.id == id then record r { last_seen_at = seen } else r in
      let eq : ◌≡◌ {A = Db F} (record db { app_runs = map touch db.app_runs }) db' = ground arith in
      subst IsValid eq (
        with_runs-IsValid db (map touch db.app_runs)
          (λ k q. has_run-map touch (λ r. ground arith) k db.app_runs ∙ q) v)

  -- Touching a run that is there succeeds, keeps it and changes no other table.
  pub touch_app_run_lem :
      (db : Db F) (id : ℕ) (seen : Time)
      → has_run id db.app_runs ≡ true
      → (db' : Db F) × (touch_app_run db id seen ≡ ok db')
        × (has_run id db'.app_runs ≡ true)
        × (db' ≡ record db { app_runs = db'.app_runs })
  unfolding touch_app_run
  touch_app_run_lem db id seen h =
      let touch : AppRunRow → AppRunRow =
        λ r. if r.id == id then record r { last_seen_at = seen } else r in
      (
        record db { app_runs = map touch db.app_runs },
        rw h refl,
        has_run-map touch (λ r. ground arith) id db.app_runs ∙ h,
        refl,
      )

  -- Ensuring a run of a registered target succeeds.
  pub ensure_app_run-registered :
      (db : Db F) (name : String) (start : Option Time) (seen : Time) (t : ℕ × String)
      → is_blank name ≡ false
      → registered_target db name ≡ ok t
      → (out : ℕ × Db F) × (ensure_app_run db name start seen ≡ ok out)
  unfolding ensure_app_run
  ensure_app_run-registered db name start seen t b r =
      let run = app_run_step db.app_runs t.0 t.1 start seen in
      ((run.0, record db { app_runs = run.1 }), rw (b, r) refl)
