-- ===== src/Monitor/NoPoll/Restored.antt =====
-- A monitor whose polling is disabled (internal/monitor/monitor.go): it never collects, and its count
-- of failures is restored from the stored polls.
use statlite.Time.{Time}
use mathlib.Core.Path.{subst}
use statlite.Result.{>>=-eq-ok, ok_injective, ok, Result-cases}
use statlite.Float.{Float64}
use statlite.Storage.Types.{Snapshot}
use statlite.Storage.Db.{Db, PollRow}
use statlite.Storage.Query.{
  newest_first, polls_of, count_failed, latest_snapshot, latest_snapshot_with,
  trailing_failed_polls, snapshot_of, process_start_time,
}
use statlite.Storage.Query.Latest.{filterb_all}
use statlite.Monitor.State.{Store, Monitor}
use statlite.Monitor.NoPoll.{enable_no_poll, restore, optional, load_restored}
use statlite.Monitor.Poll.{PollInput, polling_disabled, poll_now}
use statlite.Monitor.Tables.{db_store}
use statlite.Prelude.{
  ℕ, suc, String, ◌≡◌, refl, sym, ap, ◌∙◌, inl, inr, true, not, Option, none, some, List, [], ◌∷◌,
  arith, ◌==◌, if◌then◌else◌, Bool-cases, Option-cases, take, head?, str_eq, is_blank,
  some_injective,
}

module _ {F S E : Type 0} (store : Store F S E) where
  load_restored-restore :
      (s : S) (m m' : Monitor F) (sn : Snapshot F)
      → load_restored store s m sn ≡ ok m'
      → (p : Option (Snapshot F)) × (n : ℕ) × (at : Option Time) × (store.trailing_failed_polls s
            m.target_name
          ≡ ok n)
        × (m' ≡ restore store m sn p n at)
  unfolding load_restored
  load_restored-restore s m m' sn h =
      let (p, _, h₁) =
        >>=-eq-ok (optional store (store.latest_successful_snapshot s m.target_name)) _ h in
      let (n, t, h₂) = >>=-eq-ok (store.trailing_failed_polls s m.target_name) _ h₁ in
      let (at, _, h₃) =
        >>=-eq-ok (optional store (store.latest_failed_poll_at s m.target_name)) _ h₂ in
      (p, n, at, t, sym (ok_injective h₃))

  enable_no_poll-no_poll : (s : S) (m : Monitor F) → (enable_no_poll store s m).0.no_poll ≡ true
  unfolding enable_no_poll
  enable_no_poll-no_poll s m =
      let m₁ : Monitor F = record m { no_poll = true } in
      elim (Result-cases (store.latest_snapshot s m.target_name)) [
        | inr (x, e) ↦ rw (e, enable_no_poll) refl
        | inl (sn, e) ↦ elim (Result-cases (load_restored store s m₁ sn)) [
          | inr (x, q) ↦ rw (e, q, enable_no_poll) refl
          | inl (m', q) ↦
              rw (e, q, enable_no_poll)
                (ap (λ (x : Monitor F). x.no_poll) (load_restored-restore s m₁ m' sn q).4)
        ]
      ]

module _ {F S E : Type 0} ⦃fl : Float64 F⦄ (store : Store F S E) where
  -- Whatever the store answers while polling is disabled, a later poll collects nothing, returns the
  -- error that says so, and changes neither the monitor nor the store.
  pub poll_now-enable_no_poll :
      (s : S) (m : Monitor F) (s' : S) (i : PollInput F)
      → let m' = (enable_no_poll store s m).0 in
        poll_now store s' m' i ≡ (s', m', record { snapshot = none; error = some polling_disabled })
  unfolding poll_now
  poll_now-enable_no_poll s m s' i = rw (enable_no_poll-no_poll store s m) refl

head-count_failed :
    (k : ℕ) (ps : List PollRow) (p : PollRow)
    → head? ps ≡ some p
    → str_eq p.status "ok" ≡ (count_failed (take (suc k) ps) == 0)
unfolding count_failed
head-count_failed k [] p h = cc
head-count_failed k (q ∷ qs) p h = ground arith

module _ {F : Type 0} where
  snapshot_of-status :
      (db : Db F) (name : String) (p : PollRow) (sn : Snapshot F)
      → snapshot_of db name p ≡ ok sn
      → sn.status ≡ p.status
  unfolding snapshot_of
  snapshot_of-status db name p sn h =
      let (start, _, h₁) = >>=-eq-ok (process_start_time db p.app_run_id) _ h in
      sym (ap (λ (x : Snapshot F). x.status) (ok_injective h₁))

  -- The latest snapshot is not ok exactly when there are failures at the end of the polls.
  latest_snapshot-trailing_failed_polls :
      (db : Db F) (name : String) (sn : Snapshot F) (n : ℕ)
      → latest_snapshot db name ≡ ok sn
      → trailing_failed_polls db name ≡ ok n
      → str_eq sn.status "ok" ≡ (n == 0)
  unfolding latest_snapshot latest_snapshot_with trailing_failed_polls
  latest_snapshot-trailing_failed_polls db name sn n h t = elim (Bool-cases (is_blank name)) [
    | inl b ↦ absurd (ground arith)
    | inr b ↦ elim (Option-cases (head? (newest_first (polls_of db name)))) [
      | inl e ↦ absurd (let f = filterb_all (polls_of db name) in ground arith)
      | inr (p, e) ↦
          let f = filterb_all (polls_of db name) in
          let got : snapshot_of db name p ≡ ok sn = ground arith in
          let count : count_failed (take 100 (newest_first (polls_of db name))) ≡ n =
            ground arith in
          rw (snapshot_of-status db name p sn got, sym count) (head-count_failed 99 _ p e)
    ]
  ]

module _ {F : Type 0} ⦃fl : Float64 F⦄ where
  -- If polling is disabled over the tables without an error, for a monitor with no failures so far:
  -- the restored count of failures is positive exactly when the restored latest snapshot is not ok.
  pub enable_no_poll-failures :
      (db : Db F) (m m' : Monitor F) (sn : Snapshot F)
      → m.status.consecutive_poll_failures ≡ 0
      → m.latest ≡ none
      → enable_no_poll db_store db m ≡ (m', none)
      → m'.latest ≡ some sn
      → (m'.status.consecutive_poll_failures == 0) ≡ str_eq sn.status "ok"
  unfolding enable_no_poll
  enable_no_poll-failures db m m' sn z l h g =
      let m₁ : Monitor F = record m { no_poll = true } in
      elim (Result-cases (latest_snapshot db m.target_name)) [
        | inr (x, e) ↦ absurd (ground arith)
        | inl (s, e) ↦ elim (Result-cases (load_restored db_store db m₁ s)) [
          | inr (x, q) ↦ absurd (ground arith)
          | inl (m₂, q) ↦
              let (p, n, at, t, eq) = load_restored-restore db_store db m₁ m₂ s q in
              let same : m₂ ≡ m' = ground arith in
              let r : restore db_store m₁ s p n at ≡ m' = sym eq ∙ same in
              let of_sn : s ≡ sn = some_injective (ap (λ (x : Monitor F). x.latest) r ∙ g) in
              let count = latest_snapshot-trailing_failed_polls db m.target_name s n e t in
              subst
                (λ (x : Monitor F).
                  (x.status.consecutive_poll_failures == 0) ≡ str_eq sn.status "ok")
                r
                (subst
                  (λ (x : Snapshot F).
                    ((if not (str_eq s.status "ok") then n else m.status.consecutive_poll_failures)
                      == 0)
                    ≡ str_eq x.status "ok")
                  of_sn (ground arith))
        ]
      ]
