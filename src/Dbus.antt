-- ===== src/Dbus.antt =====
-- garwarp/src/dbus.rs: the D-Bus methods. The bus itself is not modelled: a call gives the sender
-- of its header, the path of its request handle, its arguments and its options.
pub mod Replies
pub mod Fresh
pub mod Session
use garwarp.Base.{ℕ, Bool, Option, Result, ok, err, ◌>>=◌, ok_or, Text, if◌then◌else◌}
use garwarp.Base.Map.{Map}
use garwarp.Error.{PortalError, map_portal_error, code_value, internal_failure, unauthorized_client}
use garwarp.Portal.{derive_request_id_from_handle}
use garwarp.Options.{
  parse_screenshot_options, parse_file_chooser_options, parse_app_chooser_options,
}
use garwarp.Request.Types.{Instant}
use garwarp.Dispatch.{PortalDispatch, register_unimplemented_call, validate_update_choices}

-- `failure_response`: the code; the results that are sent beside it are always empty.
unfoldable pub failure_response : PortalError → ℕ
unfolding map_portal_error code_value
failure_response e = code_value (map_portal_error e).code

unfoldable pub failed_response : ℕ
unfolding failure_response
failed_response = failure_response internal_failure

-- What a call gives to a method, with the clock at the two calls of the registry, and whether a
-- thread that panicked has poisoned the lock of the dispatcher.
pub record Call : Type 0 where
  pub sender : Option Text
  pub handle : Text
  pub app_id : Text
  pub parent_window : Text
  pub began : Instant
  pub failed_at : Instant
  pub poisoned : Bool

unfoldable pub request_identity_for_call : Call → Result PortalError (Text × Text)
request_identity_for_call call = do
  sender ← ok_or call.sender unauthorized_client
  request_id ← derive_request_id_from_handle sender call.handle
  ok (sender, request_id)

-- `with_dispatch`.
unfoldable pub with_dispatch :
    Bool
    → (PortalDispatch → PortalDispatch × Result PortalError (Unit {0}))
    → PortalDispatch
    → PortalDispatch × Result PortalError (Unit {0})
with_dispatch poisoned callback d = if poisoned then (d, err internal_failure) else callback d

abbrev answered : PortalDispatch × Result PortalError (Unit {0}) → PortalDispatch × ℕ
answered (d, err e) = (d, failure_response e)
answered (d, ok done) = (d, failed_response)

registered : Call → PortalDispatch → Result PortalError (Text × Text) → PortalDispatch × ℕ
registered call d (err e) = (d, failure_response e)
registered call d (ok (sender, request_id)) = answered (
    with_dispatch call.poisoned
      (register_unimplemented_call request_id sender call.app_id call.parent_window call.began
        call.failed_at)
      d)

-- The body that the six methods with a reply share, behind the parse of their options.
unfoldable pub placeholder :
    {Options : Type 0} → Result PortalError Options → Call → PortalDispatch → PortalDispatch × ℕ
unfolding registered with_dispatch
placeholder (err e) call d = (d, failure_response e)
placeholder (ok options) call d = registered call d (request_identity_for_call call)

module _ {Value : Type 0} (as_bool : Value → Option Bool) (as_text : Value → Option Text) where
  -- `Screenshot` and `PickColor`.
  unfoldable pub screenshot : Map Value → Call → PortalDispatch → PortalDispatch × ℕ
  unfolding placeholder
  screenshot options = placeholder (parse_screenshot_options as_bool as_text options)

  -- `OpenFile`, `SaveFile` and `SaveFiles`.
  unfoldable pub open_file : Map Value → Call → PortalDispatch → PortalDispatch × ℕ
  unfolding placeholder
  open_file options = placeholder (parse_file_chooser_options as_bool as_text options)

  unfoldable pub choose_application : Map Value → Call → PortalDispatch → PortalDispatch × ℕ
  unfolding placeholder
  choose_application options = placeholder (parse_app_chooser_options as_bool as_text options)

-- An error is sent as its reason; the lock's poison is an error as in `with_dispatch`.
unfoldable pub update_choices : Call → PortalDispatch → Result Text (Unit {0})
update_choices call d =
    elim (do
      (sender, request_id) ← request_identity_for_call call
      if call.poisoned then err internal_failure else validate_update_choices request_id sender d) [
        | ok done ↦ ok done
        | err e ↦ err (map_portal_error e).reason
      ]
