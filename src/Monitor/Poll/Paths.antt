-- ===== src/Monitor/Poll/Paths.antt =====
-- What a poll does to the monitor on each of its paths (internal/monitor/monitor.go).
use mathlib.Core.Path.{subst}
use statlite.Time.{Time}
use statlite.Result.{ok, Result-cases}
use statlite.Float.{Float64}
use statlite.Collector.Model.{CollectionResult}
use statlite.Storage.Types.{Snapshot}
use statlite.Monitor.State.{Store, Monitor, record_failure}
use statlite.Monitor.Restart.{detect_app_run, clear_caddy_start}
use statlite.Monitor.Poll.{
  PollReturn, PollInput, add_restart_event, collected_result, collection_failed, store_result,
  collect_and_store, load_previous, poll_locked, poll_now,
}
use statlite.Prelude.{
  ℕ, String, ◌≡◌, refl, sym, ◌∙◌, inl, inr, Bool, true, false, ◌||◌, Option, none, some, arith,
  Bool-cases, Option-cases, is_some,
}
use statlite.Monitor.Poll.Outcome.{
  Outcome, record_failure-Failed, record_success-Succeeded, record_failure-SameTarget,
  record_success-SameTarget, collection_failed-add_restart_event,
}

module _ {F S E : Type 0} ⦃fl : Float64 F⦄ (store : Store F S E) where
  abbrev Ends : Bool → Monitor F → S × Monitor F × PollReturn F E → Type 0
  Ends failed m out = Outcome failed m out.1 out.2

  record_failure-Ends :
      (failed : Bool) (m : Monitor F) (s : S) (at : Time) (id : ℕ) (summary : String)
      (r : Option (CollectionResult F)) (out : PollReturn F E)
      → (failed || is_some out.error) ≡ true
      → Ends failed m (s, record_failure m at id summary out.snapshot r, out)
  record_failure-Ends failed m s at id summary r out h = (
    record_failure-SameTarget m at id summary out.snapshot r,
    inr (h, record_failure-Failed m at id summary r out),
  )

  store_result-Ends :
      (s : S) (m : Monitor F) (result : CollectionResult F) (collect_err : Option String)
      (run : Option ℕ)
      → Ends
          (collection_failed result collect_err)
          m
          (store_result store s m result collect_err run)
  unfolding store_result
  store_result-Ends s m result collect_err run =
      elim (Result-cases (store.save_collection_result_with_app_run s result run)) [
        | inr (x, e) ↦ rw (e, store_result) (record_failure-Ends _ m s _ _ _ _ _ (ground arith))
        | inl ((id, s'), e) ↦ elim (Result-cases (store.latest_snapshot s' m.target_name)) [
          | inr (x, e') ↦
              rw (e, e', store_result) (record_failure-Ends _ m s' _ _ _ _ _ (ground arith))
          | inl (sn, e') ↦ elim (Bool-cases (collection_failed result collect_err)) [
            | inl f ↦ rw (e, e', f, store_result) (record_failure-Ends true m s' _ _ _ _ _ refl)
            | inr f ↦
                rw (e, e', f, store_result)
                  (
                    record_success-SameTarget m _ _ sn,
                    inl (refl, record_success-Succeeded m _ _ sn),
                  )
          ]
        ]
      ]

  collect_and_store-Ends :
      (s : S) (m : Monitor F) (input : PollInput F)
      → let c = collected_result m.target_name input.now input.collected in
        Ends (collection_failed c.0 c.1) m (collect_and_store store s m input)
  unfolding collect_and_store
  collect_and_store-Ends s m input =
      let c = collected_result m.target_name input.now input.collected in
      elim (Bool-cases (collection_failed c.0 c.1)) [
        | inl f ↦
            rw (f, collect_and_store)
              (subst (λ b. Ends b m (store_result store s m c.0 c.1 none)) f
                (store_result-Ends s m c.0 c.1 none))
        | inr f ↦ elim (Result-cases (detect_app_run store s m c.0)) [
          | inr (x, e) ↦
              rw (f, e, collect_and_store) (record_failure-Ends _ m s _ _ _ _ _ (ground arith))
          | inl ((d, s'), e) ↦
              let r = add_restart_event d (clear_caddy_start c.0) in
              rw (f, e, collect_and_store)
                (subst (λ b. Ends b m (store_result store s' m r c.1 (some d.app_run_id)))
                  (collection_failed-add_restart_event d c.0 c.1 ∙ f)
                  (store_result-Ends s' m r c.1 (some d.app_run_id)))
        ]
      ]

  load_previous-keeps :
      (s : S) (m m' : Monitor F)
      → load_previous store s m ≡ ok m'
      → (q : Option (Snapshot F)) × (m' ≡ record m { previous = q })
        × (is_some m.previous ≡ true → q ≡ m.previous)
  unfolding load_previous
  load_previous-keeps s m m' h = elim (Option-cases m.previous) [
    | inr (p, e) ↦ (m.previous, ground arith, λ _. refl)
    | inl e ↦ elim (Result-cases (store.latest_successful_snapshot s m.target_name)) [
      | inl (p, q) ↦ (some p, ground arith, λ b. ground arith)
      | inr (x, q) ↦ (m.previous, ground arith, λ _. refl)
    ]
  ]

  with_previous-Ends :
      (failed : Bool) (m : Monitor F) (q : Option (Snapshot F))
      (out : S × Monitor F × PollReturn F E)
      → (is_some m.previous ≡ true → q ≡ m.previous)
      → Ends failed (record m { previous = q }) out
      → Ends failed m out
  with_previous-Ends failed m q out k h = (
    h.0,
    elim h.1 [
      | inl (f, y) ↦ inl (
        f,
        record {
          snapshot = y.snapshot;
          returned = y.returned;
          latest = y.latest;
          previous = y.previous;
          no_failures = y.no_failures;
          no_summary = y.no_summary;
          polled = y.polled;
          success_is_last = y.success_is_last;
          stored_is_last = y.stored_is_last;
          failure_kept = y.failure_kept;
        },
      )
      | inr (f, y) ↦ inr (
        f,
        record {
          one_more = y.one_more;
          polled = y.polled;
          failure_is_last = y.failure_is_last;
          success_kept = y.success_kept;
          stored_kept = y.stored_kept;
          latest = y.latest;
          previous_kept = λ b.
              y.previous_kept (subst (λ (o : Option (Snapshot F)). is_some o ≡ true) (sym (k b)) b)
              ∙ k b;
        },
      )
    ],
  )

  poll_locked-Ends :
      (s : S) (m : Monitor F) (input : PollInput F)
      → let c = collected_result m.target_name input.now input.collected in
        Ends (collection_failed c.0 c.1) m (poll_locked store s m input)
  unfolding poll_locked
  poll_locked-Ends s m input = elim (Result-cases (load_previous store s m)) [
    | inr (x, e) ↦ rw (e, poll_locked) (record_failure-Ends _ m s _ _ _ _ _ (ground arith))
    | inl (m₁, e) ↦
        let c = collected_result m.target_name input.now input.collected in
        let (q, eq, k) = load_previous-keeps s m m₁ e in
        let m₂ : Monitor F = record m { previous = q } in
        rw (e, poll_locked)
          (subst
            (λ (x : Monitor F).
              Ends (collection_failed c.0 c.1) m (collect_and_store store s x input))
            (sym eq)
            (with_previous-Ends _ m q (collect_and_store store s m₂ input) k
              (collect_and_store-Ends s m₂ input)))
  ]

  -- A poll of an enabled monitor either is a success, and then the collection did not fail, no
  -- error is returned, the snapshot is the latest and the previous one, the failures are
  -- reset and the last poll is the last successful one; or it is a failure, and then the
  -- collection failed or an error is returned, there is one failure more, the last poll is the last
  -- failed one, and the last success, its poll id and its snapshot are kept.
  pub poll_now-Outcome :
      (s : S) (m : Monitor F) (input : PollInput F)
      → m.no_poll ≡ false
      → let c = collected_result m.target_name input.now input.collected in
        let (s', m', out) = poll_now store s m input in Outcome (collection_failed c.0 c.1) m m' out
  unfolding poll_now
  poll_now-Outcome s m input h =
      let c = collected_result m.target_name input.now input.collected in
      let eq : poll_now store s m input ≡ poll_locked store s m input = ground arith in
      subst (λ (o : S × Monitor F × PollReturn F E). Ends (collection_failed c.0 c.1) m o) (sym eq)
        (poll_locked-Ends s m input)
