-- ===== src/Ctl/Exchange.antt =====
-- `garwarpctl/src/main.rs` and `handle_connection` of garwarp/src/daemon.rs at the two ends of one
-- connection.

use garwarp.Base.{
  ==_iff, ℕ, ◌+◌, ◌<◌, ◌≤◌, false, Option, none, some, [], ◌∷◌, ◌++◌, ◌≡◌, ◌≢◌, refl, ap, ◌∙◌,
  arith, ok, Text, codes, len, ltb, some_injective,
}
use garwarp.Base.Digits.{u64_max}
use garwarp.Base.Map.All.{All}
use garwarp.Request.Types.{Instant}
use garwarp.Request.{total_count}
use garwarp.Ipc.Control.{list_requests, ControlRequest, as_line}
use garwarp.Ipc.Control.RoundTrip.{IsPlain, parse_line-as_line}
use garwarp.Ipc.Response.{ControlResponse, to_line}
use garwarp.Ipc.Response.RoundTrip.{parse_line-to_line}
use garwarp.Daemon.State.{DaemonState}
use garwarp.Daemon.Connection.{
  Incoming, max_control_line_bytes, handle_request, handle_line, handle_connection,
}
use garwarp.Daemon.Connection.Speaks.{ids_of, handle_request-IsPlain}
use garwarp.Daemon.Connection.Spoken.{IsSpoken}
use garwarp.Ctl.{
  Command, status, stop, list, portal_smoke, version, help, inspect, begin, transition, request_of,
}
use garwarp.Ctl.Run.{Output, Socket, send_request, respond, sent, shown_of, run}
use garwarp.Ctl.Wire.{as_line-IsLine, read_line-whole, parse_line-newline, first_line-to_line}

-- A command that sends a request waits for the reply to it.
run-respond :
    (debug : ControlResponse → Text) (socket : Socket) (run_portal_smoke : Output)
    (command : Command) (r : ControlRequest)
    → request_of command ≡ some r
    → run debug socket run_portal_smoke command ≡ sent debug socket r (respond debug command)
unfolding run respond request_of
run-respond debug socket smoke status r e =
    ap (λ x. sent debug socket x (respond debug status)) (some_injective e)
run-respond debug socket smoke stop r e =
    ap (λ x. sent debug socket x (respond debug stop)) (some_injective e)
run-respond debug socket smoke list r e =
    ap (λ x. sent debug socket x (respond debug list)) (some_injective e)
run-respond debug socket smoke portal_smoke r e = absurd (cc e)
run-respond debug socket smoke version r e = absurd (cc e)
run-respond debug socket smoke help r e = absurd (cc e)
run-respond debug socket smoke (inspect id) r e =
    ap (λ x. sent debug socket x (respond debug (inspect id))) (some_injective e)
run-respond debug socket smoke (begin id sender app_id parent_window) r e =
    ap (λ x. sent debug socket x (respond debug (begin id sender app_id parent_window)))
      (some_injective e)
run-respond debug socket smoke (transition id sender app_id target) r e =
    ap (λ x. sent debug socket x (respond debug (transition id sender app_id target)))
      (some_injective e)

-- A connection of a client that runs under the daemon's user id.
abbrev pub trusted : ℕ → Instant → Text → Incoming
trusted daemon_uid now line = record {
  uid = some daemon_uid;
  uid_again = some daemon_uid;
  stream = some line;
  now = now;
}

-- What the daemon writes before it closes the connection.
abbrev pub written : Option ControlResponse → Text
written none = []
written (some reply) = to_line reply

-- The daemon behind the socket.
abbrev pub served : ℕ → Instant → DaemonState → Socket
served daemon_uid now s line =
    ok (written (handle_connection daemon_uid (trusted daemon_uid now line) s).1)

module _ (daemon_uid : ℕ) (now : Instant) (s : DaemonState) (r : ControlRequest) (plain : IsPlain r)
    (fits : len (as_line r) < max_control_line_bytes) where
  -- The daemon sees the request.
  pub handle_connection-as_line :
      handle_connection daemon_uid (trusted daemon_uid now (as_line r ++ codes "\n")) s
      ≡ (let (s', reply) = handle_request (some r) (some daemon_uid) now s in (s', some reply))
  unfolding handle_connection handle_line
  handle_connection-as_line =
      rw
        (
          read_line-whole (max_control_line_bytes + 1) (as_line r) (as_line-IsLine r plain)
              (omega arith),
          parse_line-newline (as_line r),
          parse_line-as_line r plain,
          (==_iff daemon_uid daemon_uid).1 refl,
          short,
        )
        refl
    where
      short : ltb max_control_line_bytes (len (as_line r) + 1) ≡ false
      short = ground arith

  module _ (spoken : All IsSpoken s.requests.entries) (counted : total_count s.requests ≤ u64_max)
      (not_dash : r ≡ list_requests → ids_of s.requests ≢ codes "-" ∷ []) where
    -- The client gets the reply.
    send_request-served :
        send_request (served daemon_uid now s) r
        ≡ ok ((handle_request (some r) (some daemon_uid) now s).1)
    unfolding send_request
    send_request-served =
        let reply = (handle_request (some r) (some daemon_uid) now s).1 in
        let understood =
          handle_request-IsPlain (some r) (some daemon_uid) now s spoken counted
            (λ e. not_dash (some_injective e)) in
        rw
          (
            handle_connection-as_line,
            first_line-to_line reply understood,
            parse_line-to_line reply understood,
          )
          refl

    -- What the client prints for a command that sends a request is what it prints for the reply of the
    -- daemon to this very request, and the daemon is left as by this request: if the texts of
    -- the request are words that stand for themselves, its line fits, the registry holds what a client
    -- can give it, its size has 64 bits, and no list is asked for when its one id is a dash.
    pub run-answers :
        (debug : ControlResponse → Text) (run_portal_smoke : Output) (command : Command)
        → request_of command ≡ some r
        → (run debug (served daemon_uid now s) run_portal_smoke command
            ≡ respond debug command (handle_request (some r) (some daemon_uid) now s).1)
          × ((handle_connection daemon_uid (trusted daemon_uid now (as_line r ++ codes "\n")) s).0
              ≡ (handle_request (some r) (some daemon_uid) now s).0)
    run-answers debug run_portal_smoke command e = (
      run-respond debug (served daemon_uid now s) run_portal_smoke command r e
          ∙ sent-ok debug (respond debug command),
      ap (λ p. p.0) handle_connection-as_line,
    )
      where
        sent-ok :
            (debug : ControlResponse → Text) (shown : ControlResponse → Output)
            → sent debug (served daemon_uid now s) r shown
              ≡ shown (handle_request (some r) (some daemon_uid) now s).1
        sent-ok debug shown = unfold sent in ap (shown_of shown) send_request-served
