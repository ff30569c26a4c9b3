-- ===== src/Monitor/Poll/Sequence.antt =====
-- Sequences of polls (internal/monitor/monitor.go): what the status says of the polls so far.
use statlite.Float.{Float64}
use statlite.Monitor.State.{Store, Monitor}
use statlite.Monitor.Poll.{PollReturn, PollInput, collected_result, collection_failed, poll_now}
use statlite.Monitor.Poll.Outcome.{Outcome}
use statlite.Monitor.Poll.Paths.{poll_now-Outcome}
use statlite.Prelude.{
  ℕ, ◌+◌, ◌<◌, ◌≡◌, refl, sym, ap, ◌∙◌, inl, inr, Bool, true, false, ◌||◌, List, [], ◌∷◌, arith,
  is_some,
}

module _ {F : Type 0} where
  -- What the status of an enabled monitor says at any time: with no failure the last poll, if any,
  -- was successful, and with one it failed; a success is known with the snapshot of its poll.
  pub record IsConsistent (m : Monitor F) : Type 0 where
    pub none_failed :
        m.status.consecutive_poll_failures ≡ 0
        → m.status.last_poll_at ≡ m.status.last_successful_poll_at
    pub some_failed :
        0 < m.status.consecutive_poll_failures
        → (m.status.last_poll_at ≡ m.status.last_failed_poll_at)
          × (is_some m.status.last_failed_poll_at ≡ true)
    pub success_has_snapshot :
        is_some m.status.last_successful_poll_at ≡ true → is_some m.previous ≡ true

module _ {F S E : Type 0} ⦃fl : Float64 F⦄ (store : Store F S E) where
  -- The polls of a monitor, one after another, and whether each counted as a failure.
  abbrev pub run_polls : S → Monitor F → List (PollInput F) → S × Monitor F × List Bool
  run_polls s m [] = (s, m, [])
  run_polls s m (i ∷ is) =
      let c = collected_result m.target_name i.now i.collected in
      let (s', m', out) = poll_now store s m i in
      let (s'', m'', fs) = run_polls s' m' is in
      (s'', m'', (collection_failed c.0 c.1 || is_some out.error) ∷ fs)

-- The failures at the end of a sequence, after `n` before it.
abbrev pub trailing_failures : ℕ → List Bool → ℕ
trailing_failures n [] = n
trailing_failures n (true ∷ fs) = trailing_failures (n + 1) fs
trailing_failures n (false ∷ fs) = trailing_failures 0 fs

module _ {F E : Type 0} where
  Outcome-trailing_failures :
      (failed : Bool) (m m' : Monitor F) (out : PollReturn F E) (fs : List Bool)
      → Outcome failed m m' out
      → trailing_failures m'.status.consecutive_poll_failures fs
        ≡ trailing_failures m.status.consecutive_poll_failures ((failed || is_some out.error) ∷ fs)
  Outcome-trailing_failures failed m m' out fs h = elim h.1 [
    | inl (f, y) ↦
        let no_error : is_some out.error ≡ false =
          ap (λ (o : PollReturn F E). is_some o.error) y.returned in
        rw (f, no_error, y.no_failures) refl
    | inr (f, y) ↦ rw (f, y.one_more) refl
  ]

  Outcome-IsConsistent :
      (failed : Bool) (m m' : Monitor F) (out : PollReturn F E)
      → Outcome failed m m' out
      → IsConsistent m
      → IsConsistent m'
  Outcome-IsConsistent failed m m' out h v = elim h.1 [
    | inl (f, y) ↦ record {
      none_failed = λ _. sym y.success_is_last;
      some_failed = λ p. absurd (let z = y.no_failures in omega arith);
      success_has_snapshot = λ _. ap is_some y.previous;
    }
    | inr (f, y) ↦ record {
      none_failed = λ z. absurd (let w = y.one_more in omega arith);
      some_failed = λ _. (sym y.failure_is_last, ap is_some y.failure_is_last ∙ y.polled);
      success_has_snapshot = λ b.
          let had = v.success_has_snapshot (sym (ap is_some y.success_kept) ∙ b) in
          ap is_some (y.previous_kept had) ∙ had;
    }
  ]

module _ {F S E : Type 0} ⦃fl : Float64 F⦄ (store : Store F S E) where
  -- After any sequence of polls of an enabled monitor whose status is consistent, with any store
  -- and any answers of the collector: the count of failures is that of the polls at the end of the
  -- sequence whose collection failed or that returned an error, added to the earlier ones where no
  -- poll was a success; and the status is consistent again.
  pub run_polls-trailing_failures :
      (s : S) (m : Monitor F) (is : List (PollInput F))
      → m.no_poll ≡ false
      → IsConsistent m
      → let (s', m', fs) = run_polls store s m is in
        (m'.status.consecutive_poll_failures
          ≡ trailing_failures m.status.consecutive_poll_failures fs)
        × IsConsistent m'
  run_polls-trailing_failures s m [] h v = (refl, v)
  run_polls-trailing_failures s m (i ∷ is) h v =
      let c = collected_result m.target_name i.now i.collected in
      let failed = collection_failed c.0 c.1 in
      let (s', m', out) = poll_now store s m i in
      let o = poll_now-Outcome store s m i h in
      let rest =
        run_polls-trailing_failures s' m' is (o.0.1 ∙ h)
          (Outcome-IsConsistent failed m m' out o v) in
      (rest.0 ∙ Outcome-trailing_failures failed m m' out (run_polls store s' m' is).2 o, rest.1)
