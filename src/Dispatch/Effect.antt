-- ===== src/Dispatch/Effect.antt =====
-- All that a call of garwarp/src/portal_dispatch.rs does to its registry.
use garwarp.Base.{
  true, false, Option, none, some, ◌≡◌, refl, ap, sym, Result, ok, err, map_err, ok_injective,
  bind-eq-ok, Text, text_eq, text_eq_iff, Bool-cases, inl, inr,
}
use garwarp.Base.Map.{get, insert, contains_key, get-insert, get-insert_self, is_some}
use mathlib.Core.Path.{subst}
use garwarp.Window.{ParentWindowContext, parse_optional_parent_window}
use garwarp.Error.{PortalError, invalid_parent_window}
use garwarp.Validate.{validate_request_identity}
use garwarp.Request.Types.{Instant, RequestOwner, RequestState, RequestEntry, is_terminal}
use garwarp.Request.{record_of, begin_at}
use garwarp.Dispatch.{
  PortalDispatch, begin_request, begun, existing, fail_unless_terminal, register_checked,
  register_unimplemented_call, checked_call, normalize_optional,
}
use garwarp.Dispatch.Settled.{AllSettled, existing-settled, register_unimplemented_call-AllSettled}
use garwarp.Dispatch.Fresh.{failed_entry, register_unimplemented_call-fresh}

-- What a call may do at an id: the id, the entry before, and the entry after. It keeps them, or adds
-- at its own id a failed request of its sender.
pub data Adds (id sender : Text) (began failed_at : Instant)
    : Text → Option RequestEntry → Option RequestEntry → Type 0 where
  kept : {j : Text} {o : Option RequestEntry} → Adds id sender began failed_at j o o
  added :
      {owner : RequestOwner} {window : Option ParentWindowContext}
      → owner.sender ≡ sender
      → Adds id sender began failed_at id none (some (failed_entry id owner window began failed_at))

is_some-false {ℓ} : {A : Type ℓ} {o : Option A} → is_some o ≡ false → o ≡ none
is_some-false {o = none} h = refl
is_some-false {o = some a} h = cc

module _ (id sender app_id parent_window : Text) where
  checked_call-sender :
      {owner : RequestOwner} {window : Option ParentWindowContext}
      → checked_call id sender app_id parent_window ≡ ok (owner, window)
      → owner.sender ≡ sender
  unfolding checked_call
  checked_call-sender h =
      let (u, h0, h1) =
        bind-eq-ok (validate_request_identity id sender (normalize_optional app_id)) _ h in
      let (w, h2, h3) =
        bind-eq-ok
          (map_err (λ _. invalid_parent_window)
            (parse_optional_parent_window (normalize_optional parent_window)))
          _ h1 in
      sym (ap (λ (p : RequestOwner × Option ParentWindowContext). p.0.sender) (ok_injective h3))

  module _ (began failed_at : Instant) (d : PortalDispatch) (settled : AllSettled d) where
    fail_unless_terminal-kept :
        (owner : RequestOwner) (o : Result PortalError RequestState)
        → ((state : RequestState) → o ≡ ok state → is_terminal state ≡ true)
        → (fail_unless_terminal id owner failed_at d o).0 ≡ d
    unfolding fail_unless_terminal
    fail_unless_terminal-kept owner (err e) over = refl
    fail_unless_terminal-kept owner (ok state) over = rw (over state refl) refl

    register_checked-old :
        (owner : RequestOwner) (window : Option ParentWindowContext)
        → contains_key id d.requests.entries ≡ true
        → (register_checked id began failed_at d (ok (owner, window))).0 ≡ d
    unfolding register_checked begin_request begin_at begun
    register_checked-old owner window old = rw old (
        fail_unless_terminal-kept owner (existing owner window (record_of id d.requests))
          (λ state e.
            existing-settled id owner window began failed_at (get id d.requests.entries) d.requests
              refl settled e))

    module _ (owner : RequestOwner) (window : Option ParentWindowContext)
        (mine : owner.sender ≡ sender) (fresh : contains_key id d.requests.entries ≡ false) where
      abbrev entry : RequestEntry
      entry = failed_entry id owner window began failed_at

      Adds-with_entry_self :
          Adds id sender began failed_at id
            (get id d.requests.entries)
            (get id (insert id entry d.requests.entries))
      Adds-with_entry_self =
          rw (get-insert_self id entry d.requests.entries, is_some-false fresh) (added mine)

      Adds-with_entry :
          (j : Text)
          → Adds id sender began failed_at j
              (get j d.requests.entries)
              (get j (insert id entry d.requests.entries))
      Adds-with_entry j = elim (Bool-cases (text_eq id j)) [
        | inl same ↦
            subst
              (λ k.
                Adds id sender began failed_at k (get k d.requests.entries)
                  (get k (insert id entry d.requests.entries)))
              ((text_eq_iff id j).0 same) Adds-with_entry_self
        | inr other ↦ rw (get-insert id j entry d.requests.entries, other) kept
      ]

    -- A call on a registry whose requests are all terminal keeps them so. It changes nothing at any
    -- id, or adds at its own id, if that was free, a failed request of its sender.
    pub register_unimplemented_call-Adds :
        let after =
          (register_unimplemented_call id sender app_id parent_window began failed_at d).0 in
        AllSettled after
        × ((j : Text)
            → Adds id sender began failed_at j
                (get j d.requests.entries)
                (get j after.requests.entries))
    register_unimplemented_call-Adds = (
      register_unimplemented_call-AllSettled id sender app_id parent_window began failed_at d
          settled,
      λ j. at (checked_call id sender app_id parent_window) j refl,
    )
      where
        at :
            (o : Result PortalError (RequestOwner × Option ParentWindowContext)) (j : Text)
            → checked_call id sender app_id parent_window ≡ o
            → Adds id sender began failed_at j (get j d.requests.entries) (
                get j
                  (register_unimplemented_call id sender app_id parent_window began failed_at
                    d).0.requests.entries)
        at (err e) j h = unfold register_unimplemented_call register_checked in rw h kept
        at (ok (owner, window)) j h = elim (Bool-cases (contains_key id d.requests.entries)) [
          | inl old ↦
              unfold register_unimplemented_call in
              rw (h, register_checked-old owner window old) kept
          | inr fresh ↦
              rw
                (register_unimplemented_call-fresh id sender app_id parent_window owner window began
                  failed_at d h fresh)
                (Adds-with_entry owner window (checked_call-sender h) fresh j)
        ]
