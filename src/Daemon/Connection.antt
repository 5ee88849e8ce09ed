-- ===== src/Daemon/Connection.antt =====
-- `handle_connection` of garwarp/src/daemon.rs: one request of a control client, and the reply.
pub mod Acts
pub mod Safety
pub mod Storable
pub mod Retry
pub mod Speaks
pub mod Keeps
pub mod Spoken
use garwarp.Base.{
  ℕ, ◌+◌, ◌-◌, false, not, ◌&&◌, Option, none, some, [], ◌∷◌, ◌++◌, map, Result, ok, err, ◌>>=◌,
  ok_or, Text, codes, utf8_len, ltb, ◌==◌, if◌then◌else◌,
}
use mathlib.Core.Option
use garwarp.Base.Digits.{show_radix}
use garwarp.Error.{
  PortalError, ErrorMapping, map_portal_error, map_request_error, code_value, internal_failure,
  unauthorized_client, invalid_request_payload, invalid_parent_window, ownership_mismatch,
  request_not_found, request_already_exists,
}
use garwarp.Validate.{validate_request_id, validate_request_identity}
use garwarp.Window.{ParentWindowContext, window_eq, parse_optional_parent_window}
use garwarp.Window
use garwarp.Request.Types.{
  Instant, RequestOwner, owner_eq, RequestState, RequestRecord, RequestError, already_exists,
}
use garwarp.Request.Types
use garwarp.Request.{
  begin_at, transition_at, record_of, records, in_flight_count, total_count, terminal_count,
}
use garwarp.Ipc.Health.{stopping, protocol_version}
use garwarp.Ipc.Target.{RequestTransitionTarget}
use garwarp.Ipc.Control.{
  ControlRequest, stop, list_requests, inspect_request, begin_request, transition_request,
}
use garwarp.Ipc.Control
use garwarp.Ipc.Response.{
  ControlResponse, ack_stopping, request_list, ack_request, request_snapshot, error,
}
use garwarp.Daemon.State.{DaemonState}

abbrev pub max_control_line_bytes : ℕ
max_control_line_bytes = 4096

-- What a client's connection shows to the daemon: the peer's user id at the two reads of it (none
-- for an error), the text that the client sends (none if it is not UTF-8, or on a read error), and
-- the clock at the call of the registry.
pub record Incoming : Type 0 where
  pub uid : Option ℕ
  pub uid_again : Option ℕ
  pub stream : Option Text
  pub now : Instant

unfoldable pub mapped : ErrorMapping → ControlResponse
unfolding code_value
mapped mapping = error (code_value mapping.code) mapping.reason

unfoldable pub refuse : PortalError → ControlResponse
unfolding mapped map_portal_error
refuse e = mapped (map_portal_error e)

-- `BufRead::read_line` behind `take(limit)`: the bytes read and the line with its newline; none if
-- the limit falls inside a character.
unfoldable pub read_line : ℕ → Text → Option (ℕ × Text)
unfolding utf8_len
read_line limit [] = some (0, [])
read_line limit (c ∷ cs) =
    let rest = read_line (limit - utf8_len c) cs in
    if limit == 0
    then some (0, [])
    else if ltb limit (utf8_len c)
    then none
    else if c == b'\n'
    then some (1, c ∷ [])
    else Option.map (λ p. (p.0 + utf8_len c, c ∷ p.1)) rest

-- `canonical_sender_for_uid`.
unfoldable pub canonical_sender_for_uid : ℕ → Text
canonical_sender_for_uid uid = codes ":uid." ++ show_radix 10 uid

unfoldable pub map_transition_target : RequestTransitionTarget → RequestState
map_transition_target RequestTransitionTarget.awaiting_user = RequestState.awaiting_user
map_transition_target RequestTransitionTarget.fulfilled = RequestState.fulfilled
map_transition_target RequestTransitionTarget.cancelled = RequestState.cancelled
map_transition_target RequestTransitionTarget.failed = RequestState.failed

abbrev Reply : Type 0
Reply = DaemonState × ControlResponse

unfoldable pub handle_status : DaemonState → Reply
handle_status s = (
  s,
  ControlResponse.status (record {
    protocol_version = protocol_version;
    health = s.health;
    in_flight_requests = in_flight_count s.requests;
    total_requests = total_count s.requests;
    terminal_requests = terminal_count s.requests;
  }),
)

unfoldable pub handle_stop : DaemonState → Reply
handle_stop s = (record s { health = stopping; running = false }, ack_stopping)

unfoldable pub handle_list : DaemonState → Reply
handle_list s = (s, request_list (map (λ saved. saved.id) (records s.requests)))

snapshot : Option RequestRecord → ControlResponse
snapshot none = refuse request_not_found
snapshot (some saved) =
    request_snapshot saved.id (Types.as_str saved.state) saved.owner.sender saved.owner.app_id
      (Option.map Window.as_str saved.parent_window)

unfoldable pub handle_inspect : Text → DaemonState → Reply
unfolding snapshot
handle_inspect id s = elim (validate_request_id id) [
  | err e ↦ (s, refuse e)
  | ok done ↦ (s, snapshot (record_of id s.requests))
]

-- The sender is read from the socket, and the fields are checked: the owner of the request.
unfoldable pub identified : Text → Option Text → Option ℕ → Result PortalError RequestOwner
identified id app_id uid = do
  sender ← ok_or (Option.map canonical_sender_for_uid uid) internal_failure
  _ ← validate_request_identity id sender app_id
  ok (record { sender = sender; app_id = app_id })

unfoldable pub parsed_window : Option Text → Result PortalError (Option ParentWindowContext)
parsed_window parent_window = elim (parse_optional_parent_window parent_window) [
  | ok window ↦ ok window
  | err e ↦ err invalid_parent_window
]

-- The reply to `begin` of an id that is already taken.
unfoldable pub existing :
    Text → RequestOwner → Option ParentWindowContext → Option RequestRecord → ControlResponse
existing id owner window none = refuse request_already_exists
existing id owner window (some saved) =
    if owner_eq saved.owner owner && window_eq saved.parent_window window
    then ack_request id (Types.as_str saved.state)
    else if not (owner_eq saved.owner owner)
    then refuse ownership_mismatch
    else refuse request_already_exists

unfoldable pub begin_reply :
    Text
    → RequestOwner
    → Option ParentWindowContext
    → Option RequestRecord
    → Result RequestError (Unit {0})
    → ControlResponse
unfolding existing
begin_reply id owner window saved (ok done) = ack_request id (codes "pending")
begin_reply id owner window saved (err (already_exists taken)) = existing id owner window saved
begin_reply id owner window saved (err e) = mapped (map_request_error e)

-- The checks in front of `begin`.
unfoldable pub begin_checks :
    Text
    → Option Text
    → Option Text
    → Option ℕ
    → Result PortalError (RequestOwner × Option ParentWindowContext)
begin_checks id app_id parent_window uid = do
  owner ← identified id app_id uid
  window ← parsed_window parent_window
  ok (owner, window)

begin_checked :
    Text
    → Instant
    → DaemonState
    → Result PortalError (RequestOwner × Option ParentWindowContext)
    → Reply
begin_checked id now s (err e) = (s, refuse e)
begin_checked id now s (ok (owner, window)) =
    let (r, result) = begin_at id owner window now s.requests in
    (record s { requests = r }, begin_reply id owner window (record_of id r) result)

unfoldable pub handle_begin :
    Text → Option Text → Option Text → Option ℕ → Instant → DaemonState → Reply
unfolding begin_checked
handle_begin id app_id parent_window uid now s =
    begin_checked id now s (begin_checks id app_id parent_window uid)

abbrev transition_reply : Text → RequestState → Result RequestError (Unit {0}) → ControlResponse
transition_reply id target (ok done) = ack_request id (Types.as_str target)
transition_reply id target (err e) = mapped (map_request_error e)

transition_checked :
    Text → RequestState → Instant → DaemonState → Result PortalError RequestOwner → Reply
transition_checked id target now s (err e) = (s, refuse e)
transition_checked id target now s (ok owner) =
    let (r, result) = transition_at id owner target now s.requests in
    (record s { requests = r }, transition_reply id target result)

unfoldable pub handle_transition :
    Text → Option Text → RequestTransitionTarget → Option ℕ → Instant → DaemonState → Reply
unfolding transition_checked map_transition_target
handle_transition id app_id target uid now s =
    transition_checked id (map_transition_target target) now s (identified id app_id uid)

-- The match on the parsed line. The sender that the line names is not used.
unfoldable pub handle_request : Option ControlRequest → Option ℕ → Instant → DaemonState → Reply
unfolding handle_status handle_stop handle_list handle_inspect handle_begin handle_transition
handle_request none uid now s = (s, refuse invalid_request_payload)
handle_request (some ControlRequest.status) uid now s = handle_status s
handle_request (some stop) uid now s = handle_stop s
handle_request (some list_requests) uid now s = handle_list s
handle_request (some (inspect_request id)) uid now s = handle_inspect id s
handle_request (some (begin_request id sender app_id parent_window)) uid now s =
    handle_begin id app_id parent_window uid now s
handle_request (some (transition_request id sender app_id target)) uid now s =
    handle_transition id app_id target uid now s

-- The check of the number of bytes, on what `read_line` returned.
unfoldable pub handle_line :
    Option (ℕ × Text) → Incoming → DaemonState → DaemonState × Option ControlResponse
unfolding handle_request
handle_line none c s = (s, none)
handle_line (some (bytes_read, line)) c s =
    if ltb max_control_line_bytes bytes_read
    then (s, some (refuse invalid_request_payload))
    else (let (s', reply) = handle_request (Control.parse_line line) c.uid_again c.now s in
        (s', some reply))

abbrev and_read : Option Text → Option (ℕ × Text)
and_read none = none
and_read (some stream) = read_line (max_control_line_bytes + 1) stream

-- The reply that the client is sent; none if the line could not be read.
unfoldable pub handle_connection : ℕ → Incoming → DaemonState → DaemonState × Option ControlResponse
unfolding handle_line
handle_connection daemon_uid c s = elim c.uid [
  | none ↦ (s, some (refuse internal_failure))
  | some uid ↦
      if not (uid == daemon_uid)
      then (s, some (refuse unauthorized_client))
      else handle_line (and_read c.stream) c s
]
