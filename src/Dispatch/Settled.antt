-- ===== src/Dispatch/Settled.antt =====
-- The states of the requests that garwarp/src/portal_dispatch.rs holds between two calls.
use garwarp.Base.{
  ensure-ok, ok_or-eq-ok, some_injective, ok_or, ensure, ap, text_eq, Bool, true, not, Option, none,
  some, ◌≡◌, ◌≢◌, refl, arith, Result, ok, err, Text, Bool-cases, inl, inr, bind-eq-ok,
}
use garwarp.Base.Map.{get, insert, contains_key, get-insert_self, insert-insert}
use garwarp.Base.Map.All.{All, All-insert, All-get}
use garwarp.Window.{ParentWindowContext}
use garwarp.Error.{PortalError, request_not_found, ownership_mismatch}
use garwarp.Validate.{validate_request_identity}
use mathlib.Core.Path.{subst}
use garwarp.Request.Types.{
  Instant, RequestOwner, RequestState, RequestEntry, RequestRecord, failed, is_terminal, state_eq,
}
use garwarp.Request.{
  RequestRegistry, begin_at, transition_at, transition_found, transition_entry, is_valid_transition,
  new_entry, record_of, to_record,
}
use garwarp.Request.Machine.{owner_eq_iff}
use garwarp.Dispatch.{
  PortalDispatch, begin_request, begun, existing, fail_unless_terminal, register_checked,
  register_unimplemented_call, checked_call, validate_update_choices,
}

abbrev pub IsSettled : Text → RequestEntry → Type 0
IsSettled id entry = is_terminal entry.state ≡ true

abbrev pub AllSettled : PortalDispatch → Type 0
AllSettled d = All IsSettled d.requests.entries

module _ (id : Text) (owner : RequestOwner) (window : Option ParentWindowContext)
    (now later : Instant) where
  -- A new request that is failed at once is there as failed.
  pub transition_entry-new :
      (transition_entry id owner failed later (new_entry id owner window now)).0
      ≡ record (new_entry id owner window now) { state = failed; last_updated_at = later }
  unfolding transition_entry new_entry state_eq is_valid_transition
  transition_entry-new = rw ((owner_eq_iff owner owner).1 refl) refl

  fresh-AllSettled :
      (r : RequestRegistry)
      → All IsSettled r.entries
      → All IsSettled
          (transition_at id owner failed later
            (record r { entries = insert id (new_entry id owner window now) r.entries })).0.entries
  unfolding transition_at transition_found
  fresh-AllSettled r h =
      rw
        (
          get-insert_self id (new_entry id owner window now) r.entries,
          transition_entry-new,
          insert-insert id
              (record (new_entry id owner window now) { state = failed; last_updated_at = later })
              (new_entry id owner window now) r.entries,
        )
        (All-insert IsSettled id _ r.entries (unfold is_terminal in refl) h)

  existing-ok :
      (saved : RequestRecord) {state : RequestState}
      → existing owner window (some saved) ≡ ok state
      → saved.state ≡ state
  unfolding existing
  existing-ok saved h = ground arith

  pub existing-settled :
      (o : Option RequestEntry) (r : RequestRegistry) {state : RequestState}
      → get id r.entries ≡ o
      → All IsSettled r.entries
      → existing owner window (record_of id r) ≡ ok state
      → is_terminal state ≡ true
  unfolding record_of to_record
  existing-settled none r e h k = absurd (nothing_there (rw e at k))
    where
      nothing_there : {state : RequestState} → existing owner window none ≢ ok state
      nothing_there k = unfold existing in cc
  existing-settled (some entry) r {state} e h k =
      rw⁻¹ (existing-ok (to_record entry) (rw e at k)) (All-get IsSettled id r.entries h e)

  settled_after :
      (d : PortalDispatch) (o : Result PortalError RequestState)
      → ((state : RequestState) → o ≡ ok state → is_terminal state ≡ true)
      → AllSettled d
      → AllSettled (fail_unless_terminal id owner later d o).0
  unfolding fail_unless_terminal
  settled_after d (err e) over h = h
  settled_after d (ok state) over h = rw (over state refl) h

  begin_request-AllSettled :
      (d : PortalDispatch)
      → AllSettled d
      → AllSettled
          (fail_unless_terminal id owner later
            (begin_request id owner window now d).0
            (begin_request id owner window now d).1).0
  unfolding begin_request begin_at begun
  begin_request-AllSettled d h = elim (Bool-cases (contains_key id d.requests.entries)) [
    | inl old ↦ rw old (
        settled_after d (existing owner window (record_of id d.requests))
          (λ state e. existing-settled (get id d.requests.entries) d.requests refl h e) h)
    | inr fresh ↦
        rw fresh (unfold fail_unless_terminal is_terminal in fresh-AllSettled d.requests h)
  ]

-- A call keeps every request of the registry behind the D-Bus methods terminal, on every branch.
pub register_unimplemented_call-AllSettled :
    (id sender app_id parent_window : Text) (now later : Instant) (d : PortalDispatch)
    → AllSettled d
    → AllSettled (register_unimplemented_call id sender app_id parent_window now later d).0
unfolding register_unimplemented_call
register_unimplemented_call-AllSettled id sender app_id parent_window now later d h =
    checked (checked_call id sender app_id parent_window)
  where
    checked :
        (o : Result PortalError (RequestOwner × Option ParentWindowContext))
        → AllSettled (register_checked id now later d o).0
    checked (err e) = h
    checked (ok (owner, window)) =
        unfold register_checked in begin_request-AllSettled id owner window now later d h

record_of-settled :
    (id : Text) (o : Option RequestEntry) (r : RequestRegistry) (saved : RequestRecord)
    → get id r.entries ≡ o
    → All IsSettled r.entries
    → record_of id r ≡ some saved
    → is_terminal saved.state ≡ true
unfolding record_of to_record
record_of-settled id none r saved e h k = absurd (nothing_there saved (rw e at k))
  where
    nothing_there : (saved : RequestRecord) → none ≢ some saved
    nothing_there saved k = cc
record_of-settled id (some entry) r saved e h k =
    subst (λ s. is_terminal s ≡ true) (same_state (to_record entry) saved (rw e at k))
      (All-get IsSettled id r.entries h e)
  where
    same_state : (a b : RequestRecord) → some a ≡ some b → a.state ≡ b.state
    same_state a b e = ap (λ (s : RequestRecord). s.state) (some_injective e)

-- If every request of the registry is terminal, `UpdateChoices` is refused whatever it names.
pub validate_update_choices-refused :
    (id sender : Text) (d : PortalDispatch)
    → AllSettled d
    → validate_update_choices id sender d ≢ ok tt
unfolding validate_update_choices
validate_update_choices-refused id sender d h k =
    let (done, valid, k1) = bind-eq-ok (validate_request_identity id sender none) _ k in
    let (saved, found, k2) = bind-eq-ok (ok_or (record_of id d.requests) request_not_found) _ k1 in
    let (mine, owned, k3) =
      bind-eq-ok (ensure (text_eq saved.owner.sender sender) ownership_mismatch) _ k2 in
    contradiction (is_terminal saved.state)
      (record_of-settled id (get id d.requests.entries) d.requests saved refl h
        (ok_or-eq-ok _ _ found))
      (ensure-ok _ _ k3)
  where
    contradiction : (b : Bool) → b ≡ true → not b ≡ true → ⊥
    contradiction b p q = ground arith
