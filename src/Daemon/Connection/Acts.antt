-- ===== src/Daemon/Connection/Acts.antt =====
-- The calls of the registry that `handle_connection` of garwarp/src/daemon.rs makes.
use garwarp.Base.{
  ℕ, Option, none, some, ◌≡◌, refl, arith, Result, ok, err, Text, ◌==◌, ltb, Bool-cases, inl, inr,
  bind-eq-ok, Option-cases,
}
use mathlib.Core.Option
use garwarp.Window.{ParentWindowContext}
use garwarp.Error.{PortalError}
use garwarp.Request.Types.{Instant, RequestOwner, RequestState}
use garwarp.Request.{RequestRegistry, begin_at, transition_at}
use garwarp.Ipc.Control.{
  ControlRequest, status, stop, list_requests, inspect_request, begin_request, transition_request,
}
use garwarp.Ipc.Control
use garwarp.Validate.{validate_request_identity}
use garwarp.Daemon.State.{DaemonState}
use garwarp.Daemon.Connection.{
  Incoming, canonical_sender_for_uid, identified, parsed_window, begin_checks, begin_checked,
  transition_checked, handle_begin, handle_transition, handle_inspect, handle_request, handle_line,
  handle_connection, and_read, handle_status, handle_stop, handle_list, map_transition_target,
}

-- One call of the registry at the time `now` by a client whose user id is `uid`, or none. A call of `begin` has
-- passed the checks in front of it; a call of `transition` names an owner with the sender of that
-- user id.
pub data Acts (uid : Option ℕ) (now : Instant) : RequestRegistry → RequestRegistry → Type 0 where
  nothing : {r : RequestRegistry} → Acts uid now r r
  begins :
      {r : RequestRegistry} (id : Text) (app_id parent_window : Option Text) (owner : RequestOwner)
      (window : Option ParentWindowContext)
      → begin_checks id app_id parent_window uid ≡ ok (owner, window)
      → Acts uid now r (begin_at id owner window now r).0
  moves :
      {r : RequestRegistry} (id : Text) (owner : RequestOwner) (target : RequestState)
      → Option.map canonical_sender_for_uid uid ≡ some (owner.sender)
      → Acts uid now r (transition_at id owner target now r).0

identified-sender :
    (id : Text) (app_id : Option Text) (uid : Option ℕ) (owner : RequestOwner)
    → identified id app_id uid ≡ ok owner
    → Option.map canonical_sender_for_uid uid ≡ some (owner.sender)
unfolding identified
identified-sender id app_id none owner h = cc
identified-sender id app_id (some u) owner h =
    let (done, valid, same) =
      bind-eq-ok (validate_request_identity id (canonical_sender_for_uid u) app_id) _ h in
    ground arith

pub begin_checks-sender :
    (id : Text) (app_id : Option Text) (uid : Option ℕ) (parent_window : Option Text)
    (owner : RequestOwner) (window : Option ParentWindowContext)
    → begin_checks id app_id parent_window uid ≡ ok (owner, window)
    → Option.map canonical_sender_for_uid uid ≡ some (owner.sender)
unfolding begin_checks
begin_checks-sender id app_id uid parent_window owner window h =
    let (mine, found, rest) = bind-eq-ok (identified id app_id uid) _ h in
    let (w, parsed, same) = bind-eq-ok (parsed_window parent_window) _ rest in
    rw (identified-sender id app_id uid mine found) (unwrap mine owner w window same)
  where
    unwrap :
        (a b : RequestOwner) (v w : Option ParentWindowContext)
        → ◌≡◌ {A = Result PortalError (RequestOwner × Option ParentWindowContext)}
            (ok (a, v))
            (ok (b, w))
        → some a.sender ≡ some b.sender
    unwrap a b v w e = cc

module _ (id : Text) (app_id : Option Text) (uid : Option ℕ) (now : Instant) (s : DaemonState) where
  handle_begin-Acts :
      (parent_window : Option Text)
      → Acts uid now s.requests (handle_begin id app_id parent_window uid now s).0.requests
  unfolding handle_begin begin_checks begin_checked
  handle_begin-Acts parent_window = checked _ refl
    where
      checked :
          (o : Result PortalError (RequestOwner × Option ParentWindowContext))
          → begin_checks id app_id parent_window uid ≡ o
          → Acts uid now s.requests (begin_checked id now s o).0.requests
      checked (err e) h = nothing
      checked (ok (owner, window)) h = begins id app_id parent_window owner window h

  transition_checked-Acts :
      (target : RequestState) (o : Result PortalError RequestOwner)
      → identified id app_id uid ≡ o
      → Acts uid now s.requests (transition_checked id target now s o).0.requests
  unfolding transition_checked
  transition_checked-Acts target (err e) h = nothing
  transition_checked-Acts target (ok owner) h =
      moves id owner target (identified-sender id app_id uid owner h)

handle_inspect-same : (id : Text) (s : DaemonState) → (handle_inspect id s).0 ≡ s
unfolding handle_inspect
handle_inspect-same id s = ground arith

handle_request-Acts :
    (request : Option ControlRequest) (uid : Option ℕ) (now : Instant) (s : DaemonState)
    → Acts uid now s.requests (handle_request request uid now s).0.requests
unfolding handle_request handle_status handle_stop handle_list handle_transition
handle_request-Acts none uid now s = nothing
handle_request-Acts (some status) uid now s = nothing
handle_request-Acts (some stop) uid now s = nothing
handle_request-Acts (some list_requests) uid now s = nothing
handle_request-Acts (some (inspect_request id)) uid now s = rw (handle_inspect-same id s) nothing
handle_request-Acts (some (begin_request id sender app_id parent_window)) uid now s =
    handle_begin-Acts id app_id uid now s parent_window
handle_request-Acts (some (transition_request id sender app_id target)) uid now s =
    transition_checked-Acts id app_id uid now s (map_transition_target target) _ refl

handle_line-Acts :
    (read : Option (ℕ × Text)) (c : Incoming) (s : DaemonState)
    → Acts c.uid_again c.now s.requests (handle_line read c s).0.requests
unfolding handle_line
handle_line-Acts none c s = nothing
handle_line-Acts (some (bytes_read, line)) c s = elim (Bool-cases (ltb 4096 bytes_read)) [
  | inl long ↦ rw long nothing
  | inr short ↦ rw short (handle_request-Acts (Control.parse_line line) c.uid_again c.now s)
]

-- Whatever line a client sends, the registry sees at most one call, of `begin` or of `transition`,
-- at the time of the connection, and the
-- owner of that call has the sender of the user id read from the client's socket.
pub handle_connection-Acts :
    (daemon_uid : ℕ) (c : Incoming) (s : DaemonState)
    → Acts c.uid_again c.now s.requests (handle_connection daemon_uid c s).0.requests
unfolding handle_connection
handle_connection-Acts daemon_uid c s = elim (Option-cases c.uid) [
  | inl unread ↦ rw unread nothing
  | inr (uid, read) ↦ rw read (elim (Bool-cases (uid == daemon_uid)) [
    | inl same ↦ rw same (handle_line-Acts (and_read c.stream) (record c { uid = some uid }) s)
    | inr other ↦ rw other nothing
  ])
]

handle_line-unanswered :
    (read : Option (ℕ × Text)) (c : Incoming) (s : DaemonState)
    → (handle_line read c s).1 ≡ none
    → (handle_line read c s).0 ≡ s
unfolding handle_line
handle_line-unanswered none c s h = refl
handle_line-unanswered (some (bytes_read, line)) c s h = ground arith

-- A connection that gets no reply changes nothing.
pub handle_connection-unanswered :
    (daemon_uid : ℕ) (c : Incoming) (s : DaemonState)
    → (handle_connection daemon_uid c s).1 ≡ none
    → (handle_connection daemon_uid c s).0 ≡ s
unfolding handle_connection
handle_connection-unanswered daemon_uid c s h =
    ground (arith, handle_line-unanswered (and_read c.stream) c s)
