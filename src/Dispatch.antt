-- ===== src/Dispatch.antt =====
-- garwarp/src/portal_dispatch.rs: the registry behind the D-Bus methods.
pub mod Settled
pub mod Fresh
pub mod Effect
use garwarp.Base.{
  not, ◌&&◌, Option, none, some, Result, ok, err, ◌>>=◌, ok_or, map_err, ensure, Text, text_eq,
  trim, is_empty, if◌then◌else◌,
}
use garwarp.Window.{ParentWindowContext, window_eq, parse_optional_parent_window}
use garwarp.Request.Types.{
  Instant, Duration, RequestOwner, owner_eq, RequestState, pending, failed, is_terminal,
  RequestRecord, RequestError, already_exists, not_found, owner_mismatch,
}
use garwarp.Request
use garwarp.Request.{RequestRegistry, begin_at, transition_at, record_of}
use garwarp.Error.{
  PortalError, invalid_parent_window, ownership_mismatch, request_not_found, request_already_exists,
  invalid_transition,
}
use garwarp.Validate.{validate_request_identity}

pub record PortalDispatch : Type 0 where
  pub requests : RequestRegistry

-- `PortalDispatch::new`.
unfoldable pub new : Duration → PortalDispatch
new request_timeout = record { requests = Request.new request_timeout }

unfoldable pub normalize_optional : Text → Option Text
normalize_optional input =
    let trimmed = trim input in if is_empty trimmed then none else some trimmed

unfoldable pub map_request_error_to_portal : RequestError → PortalError
map_request_error_to_portal (already_exists id) = request_already_exists
map_request_error_to_portal (not_found id) = request_not_found
map_request_error_to_portal (owner_mismatch id) = ownership_mismatch
map_request_error_to_portal (RequestError.invalid_transition id from target) = invalid_transition

-- The match on the record of an id that is already taken.
unfoldable pub existing :
    RequestOwner
    → Option ParentWindowContext
    → Option RequestRecord
    → Result PortalError RequestState
existing owner parent_window none = err request_already_exists
existing owner parent_window (some saved) =
    if owner_eq saved.owner owner && window_eq saved.parent_window parent_window
    then ok saved.state
    else if not (owner_eq saved.owner owner)
    then err ownership_mismatch
    else err request_already_exists

-- The match on the result of `begin`.
unfoldable pub begun :
    RequestOwner
    → Option ParentWindowContext
    → Option RequestRecord
    → Result RequestError (Unit {0})
    → Result PortalError RequestState
unfolding existing map_request_error_to_portal
begun owner parent_window saved (ok done) = ok pending
begun owner parent_window saved (err (already_exists id)) = existing owner parent_window saved
begun owner parent_window saved (err error) = err (map_request_error_to_portal error)

unfoldable pub begin_request :
    Text
    → RequestOwner
    → Option ParentWindowContext
    → Instant
    → PortalDispatch
    → PortalDispatch × Result PortalError RequestState
unfolding begun
begin_request request_id owner parent_window now d =
    let (r, result) = begin_at request_id owner parent_window now d.requests in
    (record d { requests = r }, begun owner parent_window (record_of request_id r) result)

-- What follows `begin_request` in `register_unimplemented_call`.
unfoldable pub fail_unless_terminal :
    Text
    → RequestOwner
    → Instant
    → PortalDispatch
    → Result PortalError RequestState
    → PortalDispatch × Result PortalError (Unit {0})
fail_unless_terminal request_id owner now d (err error) = (d, err error)
fail_unless_terminal request_id owner now d (ok state) =
    if not (is_terminal state)
    then (let (r, result) = transition_at request_id owner failed now d.requests in
        (record d { requests = r }, map_err map_request_error_to_portal result))
    else (d, ok tt)

-- The checks of `register_unimplemented_call`: the owner and the parent window of the request.
unfoldable pub checked_call :
    Text → Text → Text → Text → Result PortalError (RequestOwner × Option ParentWindowContext)
unfolding normalize_optional
checked_call request_id sender app_id parent_window = do
  let app_id' = normalize_optional app_id
  _ ← validate_request_identity request_id sender app_id'
  window ←
      map_err (λ _. invalid_parent_window)
        (parse_optional_parent_window (normalize_optional parent_window))
  ok (record { sender = sender; app_id = app_id' }, window)

register_checked :
    Text
    → Instant
    → Instant
    → PortalDispatch
    → Result PortalError (RequestOwner × Option ParentWindowContext)
    → PortalDispatch × Result PortalError (Unit {0})
register_checked request_id began failed_at d (err error) = (d, err error)
register_checked request_id began failed_at d (ok (owner, window)) =
    let (d', state) = begin_request request_id owner window began d in
    fail_unless_terminal request_id owner failed_at d' state

-- `began` and `failed_at` are what the clock shows to `begin` and to `transition`.
unfoldable pub register_unimplemented_call :
    Text
    → Text
    → Text
    → Text
    → Instant
    → Instant
    → PortalDispatch
    → PortalDispatch × Result PortalError (Unit {0})
unfolding register_checked
register_unimplemented_call request_id sender app_id parent_window began failed_at d =
    register_checked request_id began failed_at d
      (checked_call request_id sender app_id parent_window)

unfoldable pub validate_update_choices :
    Text → Text → PortalDispatch → Result PortalError (Unit {0})
validate_update_choices request_id sender d = do
  _ ← validate_request_identity request_id sender none
  saved ← ok_or (record_of request_id d.requests) request_not_found
  _ ← ensure (text_eq saved.owner.sender sender) ownership_mismatch
  ensure (not (is_terminal saved.state)) invalid_transition
