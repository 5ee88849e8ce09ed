-- ===== src/Dispatch/Fresh.antt =====
-- A call of garwarp/src/portal_dispatch.rs with an id that is not taken.
use garwarp.Base.{false, Option, ◌≡◌, refl, ok, Text}
use garwarp.Base.Map.{insert, contains_key, get-insert_self, insert-insert}
use garwarp.Window.{ParentWindowContext}
use garwarp.Request.Types.{
  Instant, RequestOwner, RequestState, RequestEntry, failed, is_terminal, state_eq,
}
use garwarp.Request.{
  begin_at, transition_at, transition_found, transition_entry, is_valid_transition, new_entry,
}
use garwarp.Request.Machine.{owner_eq_iff}
use garwarp.Dispatch.{
  PortalDispatch, begin_request, begun, fail_unless_terminal, register_checked,
  register_unimplemented_call, checked_call,
}

-- The entry that such a call leaves.
abbrev pub failed_entry :
    Text → RequestOwner → Option ParentWindowContext → Instant → Instant → RequestEntry
failed_entry id owner window began failed_at = record {
  id = id;
  owner = owner;
  parent_window = window;
  state = failed;
  started_at = began;
  last_updated_at = failed_at;
}

-- The dispatcher with one more entry.
abbrev pub with_entry : Text → RequestEntry → PortalDispatch → PortalDispatch
with_entry id entry d = record {
  requests = record { entries = insert id entry d.requests.entries; timeout = d.requests.timeout };
}

module _ (id sender app_id parent_window : Text) (owner : RequestOwner)
    (window : Option ParentWindowContext) (began failed_at : Instant) (d : PortalDispatch)
    (checked : checked_call id sender app_id parent_window ≡ ok (owner, window))
    (fresh : contains_key id d.requests.entries ≡ false) where
  transition_entry-pair :
      transition_entry id owner failed failed_at (new_entry id owner window began)
      ≡ (failed_entry id owner window began failed_at, ok tt)
  unfolding transition_entry new_entry state_eq is_valid_transition
  transition_entry-pair = rw ((owner_eq_iff owner owner).1 refl) refl

  begin_request-fresh :
      begin_request id owner window began d
      ≡ (with_entry id (new_entry id owner window began) d, ok RequestState.pending)
  unfolding begin_request begin_at begun
  begin_request-fresh = rw fresh refl

  transition_at-fresh :
      transition_at id owner failed failed_at
        (with_entry id (new_entry id owner window began) d).requests
      ≡ ((with_entry id (failed_entry id owner window began failed_at) d).requests, ok tt)
  unfolding transition_at transition_found
  transition_at-fresh =
      rw
        (
          get-insert_self id (new_entry id owner window began) d.requests.entries,
          transition_entry-pair,
          insert-insert id (failed_entry id owner window began failed_at)
              (new_entry id owner window began) d.requests.entries,
        )
        refl

  -- The request is stored as failed, and nothing else is changed.
  pub register_unimplemented_call-fresh :
      register_unimplemented_call id sender app_id parent_window began failed_at d
      ≡ (with_entry id (failed_entry id owner window began failed_at) d, ok tt)
  unfolding register_unimplemented_call register_checked fail_unless_terminal is_terminal
  register_unimplemented_call-fresh = rw (checked, begin_request-fresh, transition_at-fresh) refl
