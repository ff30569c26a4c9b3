-- ===== src/Server/Status/View.antt =====
-- What the public status says of a monitor (internal/server/public_status.go).
use mathlib.Core.Path.{subst}
use statlite.Monitor.State.{Monitor}
use statlite.Monitor.Poll.Sequence.{IsConsistent}
use statlite.Server.Status.{PublicStatusResponse, public_status, has_url, public_diagnostic_message}
use statlite.Prelude.{
  String, ◌≡◌, refl, ◌⊎◌, inl, inr, true, false, none, some, arith, ltb, Bool-cases, Option-cases,
  is_some, is_empty, some_injective,
}

-- A message that is shown holds no URL.
pub public_diagnostic_message-has_url : (m : String) → has_url (public_diagnostic_message m) ≡ false
unfolding public_diagnostic_message
public_diagnostic_message-has_url m = elim (Bool-cases (has_url m)) [
  | inl e ↦ rw e refl
  | inr e ↦ rw e e
]

module _ {F : Type 0} where
  -- The response to `CurrentState` of a monitor.
  abbrev pub status_of : String → String → Monitor F → PublicStatusResponse
  status_of name type m = public_status name type m.status m.previous m.health

  -- For a monitor whose status is consistent, as polling keeps it: the collection status is "ok"
  -- only if the last poll was the last successful one, "error" only if it was the last failed one,
  -- and "not_polled" only if there was none; it is always one of these. A reported error text holds
  -- no URL.
  pub public_status-collection_status :
      (m : Monitor F) (name type : String)
      → IsConsistent m
      → let r = status_of name type m in
        (((r.collection_status ≡ "not_polled") × (r.last_poll_at ≡ none))
          ⊎ ((r.collection_status ≡ "ok")
              × (r.last_poll_at ≡ m.status.last_successful_poll_at)
              × (is_some r.last_poll_at ≡ true))
          ⊎ ((r.collection_status ≡ "error")
              × (r.last_poll_at ≡ r.last_failed_poll_at)
              × (is_some r.last_poll_at ≡ true)))
        × ((text : String) → r.last_collection_error ≡ some text → has_url text ≡ false)
  unfolding public_status
  public_status-collection_status m name type v = (
    elim (Option-cases m.status.last_poll_at) [
      | inl e ↦ inl (ground arith, e)
      | inr (at, e) ↦ elim (Bool-cases (ltb 0 m.status.consecutive_poll_failures)) [
        | inr f ↦ inr (inl (ground arith, v.none_failed (ground arith), ground arith))
        | inl f ↦ inr (inr (ground arith, (v.some_failed (ground arith)).0, ground arith))
      ]
    ],
    λ text h.
        let shown = public_diagnostic_message-has_url m.status.last_poll_error_summary in
        elim (Bool-cases (is_empty m.status.last_poll_error_summary)) [
          | inl e ↦ absurd (ground arith)
          | inr e ↦
              let same : public_diagnostic_message m.status.last_poll_error_summary ≡ text =
                some_injective (ground arith) in
              subst (λ t. has_url t ≡ false) same shown
        ],
  )
