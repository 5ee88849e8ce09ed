-- ===== src/Dbus/Fresh.antt =====
-- The calls of garwarp/src/dbus.rs on a request that is not known, and on one that has failed.
use garwarp.Base.{
  true, false, Option, some, none, ◌≡◌, refl, ap, Result, ok, err, ◌>>=◌, Text, codes, text_eq_refl,
  if◌then◌else◌,
}
use garwarp.Base.Map.{get, contains_key}
use garwarp.Window.{ParentWindowContext}
use garwarp.Error.{PortalError, map_portal_error, code_value, internal_failure}
use garwarp.Validate.{validate_request_identity}
use garwarp.Portal.{derive_request_id_from_handle}
use garwarp.Request.Types.{RequestOwner, RequestEntry, is_terminal}
use garwarp.Request.{record_of, to_record}
use garwarp.Dispatch.{PortalDispatch, checked_call, validate_update_choices}
use garwarp.Dispatch.Fresh.{failed_entry, with_entry, register_unimplemented_call-fresh}
use garwarp.Dbus.{
  Call, failure_response, failed_response, registered, with_dispatch, placeholder,
  request_identity_for_call, update_choices,
}

module _ (call : Call) (id sender : Text) (d : PortalDispatch) (sent : call.sender ≡ some sender)
    (derived : derive_request_id_from_handle sender call.handle ≡ ok id)
    (running : call.poisoned ≡ false) where
  request_identity_for_call-derived : request_identity_for_call call ≡ ok (sender, id)
  unfolding request_identity_for_call
  request_identity_for_call-derived = rw (sent, derived) refl

  -- A call with an id that is not taken leaves it failed, and replies with the code of a failure.
  pub placeholder-fresh :
      {Options : Type 0} (options : Options) (owner : RequestOwner)
      (window : Option ParentWindowContext)
      → checked_call id sender call.app_id call.parent_window ≡ ok (owner, window)
      → contains_key id d.requests.entries ≡ false
      → placeholder (ok options) call d
        ≡ (with_entry id (failed_entry id owner window call.began call.failed_at) d, 2)
  unfolding placeholder registered with_dispatch failed_response failure_response map_portal_error
      code_value
  placeholder-fresh options owner window checked fresh =
      rw
        (
          request_identity_for_call-derived,
          running,
          register_unimplemented_call-fresh id sender call.app_id call.parent_window owner window
              call.began call.failed_at d checked fresh,
        )
        refl

  module _ (entry : RequestEntry) (valid : validate_request_identity id sender none ≡ ok tt)
      (known : get id d.requests.entries ≡ some entry) (its : entry.owner.sender ≡ sender)
      (ended : is_terminal entry.state ≡ true) where
    validate_update_choices-failed :
        validate_update_choices id sender d ≡ err PortalError.invalid_transition
    unfolding validate_update_choices record_of to_record
    validate_update_choices-failed = rw (valid, known, its, text_eq_refl sender, ended) refl

    verdict :
        (request_identity_for_call call >>= λ (p : Text × Text).
        if call.poisoned then err internal_failure else validate_update_choices p.1 p.0 d)
        ≡ err PortalError.invalid_transition
    verdict = rw (request_identity_for_call-derived, running) validate_update_choices-failed

    -- An update of the choices of a failed request is refused as an invalid transition.
    pub update_choices-failed : update_choices call d ≡ err (codes "invalid_transition")
    unfolding update_choices map_portal_error
    update_choices-failed =
        ap
          (λ (r : Result PortalError (Unit {0})). elim r [
            | ok done ↦ ok done
            | err e ↦ err (map_portal_error e).reason
          ])
          verdict
