-- ===== src/Ipc/Response.antt =====
-- `ControlResponse` of garwarp-ipc/src/lib.rs, printed by `to_line` and read by `parse_line`.
mod Fields
pub mod RoundTrip
unfoldable pub use Fields.*
use garwarp.Base.{
  ℕ, Bool, true, false, ◌&&◌, ◌||◌, not, Option, none, some, List, [], ◌∷◌, ◌++◌, Result, ok, err,
  ◌>>=◌, ok_or, ensure, Text, codes, text_eq, is_empty, trim, split_whitespace, split_once, split,
  join, if◌then◌else◌,
}
use garwarp.Base.Digits.{show_radix}
use garwarp.Ipc.Health.{HealthStatus, healthy, protocol_version}
use garwarp.Ipc.Health

abbrev decimal : ℕ → Text
decimal = show_radix 10

-- `unwrap_or("-")`.
abbrev pub or_dash : Option Text → Text
or_dash none = codes "-"
or_dash (some value) = value

abbrev pub list_text : List Text → Text
list_text [] = codes "-"
list_text (id ∷ ids) = join (codes ",") (id ∷ ids)

unfoldable pub to_line : ControlResponse → Text
to_line (status s) =
    codes "status protocol="
    ++ (decimal s.protocol_version
        ++ (codes " health="
            ++ (Health.as_str s.health
                ++ (codes " in_flight="
                    ++ (decimal s.in_flight_requests
                        ++ (codes " total="
                            ++ (decimal s.total_requests
                                ++ (codes " terminal="
                                    ++ (decimal s.terminal_requests ++ codes "\n")))))))))
to_line ack_stopping = codes "ack stopping\n"
to_line (request_list ids) = codes "list ids=" ++ (list_text ids ++ codes "\n")
to_line (ack_request id state) =
    codes "ack request id=" ++ (id ++ (codes " state=" ++ (state ++ codes "\n")))
to_line (request_snapshot id state sender app_id parent_window) =
    codes "snapshot id="
    ++ (id
        ++ (codes " state="
            ++ (state
                ++ (codes " sender="
                    ++ (sender
                        ++ (codes " app_id="
                            ++ (or_dash app_id
                                ++ (codes " parent="
                                    ++ (or_dash parent_window ++ codes "\n")))))))))
to_line (error code reason) =
    codes "error code=" ++ (decimal code ++ (codes " reason=" ++ (reason ++ codes "\n")))

-- The match on the word behind `ack`.
unfoldable pub parse_ack : List Text → Result ParseError ControlResponse
parse_ack [] = err (missing_field (codes "ack"))
parse_ack (word ∷ parts) =
    if text_eq word (codes "stopping")
    then ok ack_stopping
    else if text_eq word (codes "request")
    then (do
      f ← each_field ack_field parts (record { id = none; state = none })
      id ← ok_or f.id (missing_field (codes "id"))
      state ← ok_or f.state (missing_field (codes "state"))
      ok (ack_request id state))
    else err (unknown_token word)

unfoldable pub parse_status : List Text → Result ParseError ControlResponse
parse_status parts = do
  f ← each_field status_field parts no_status
  version ← ok_or f.protocol_version (missing_field (codes "protocol"))
  health ← ok_or f.health (missing_field (codes "health"))
  in_flight ← ok_or f.in_flight_requests (missing_field (codes "in_flight"))
  total ← ok_or f.total_requests (missing_field (codes "total"))
  terminal ← ok_or f.terminal_requests (missing_field (codes "terminal"))
  ok (
      status (record {
        protocol_version = version;
        health = health;
        in_flight_requests = in_flight;
        total_requests = total;
        terminal_requests = terminal;
      }))

unfoldable pub parse_list : List Text → Result ParseError ControlResponse
parse_list parts = do
  ids ← each_field list_field parts none
  found ← ok_or ids (missing_field (codes "ids"))
  ok (request_list found)

unfoldable pub parse_snapshot : List Text → Result ParseError ControlResponse
parse_snapshot parts = do
  f ← each_field snapshot_field parts no_snapshot
  id ← ok_or f.id (missing_field (codes "id"))
  state ← ok_or f.state (missing_field (codes "state"))
  sender ← ok_or f.sender (missing_field (codes "sender"))
  ok (request_snapshot id state sender (flatten f.app_id) (flatten f.parent_window))

unfoldable pub parse_error : List Text → Result ParseError ControlResponse
parse_error [] = err (missing_field (codes "reason"))
parse_error (first ∷ parts) = do
  f ← each_field error_field (first ∷ parts) (record { code = none; reason = none })
  code ← ok_or f.code (missing_field (codes "code"))
  reason ← ok_or f.reason (missing_field (codes "reason"))
  ok (error code reason)

-- The match on `parts.next()`.
unfoldable pub parse_words : List Text → Result ParseError ControlResponse
unfolding parse_ack parse_status parse_list parse_snapshot parse_error
parse_words [] = err empty
parse_words (word ∷ parts) =
    if text_eq word (codes "status")
    then parse_status parts
    else if text_eq word (codes "ack")
    then parse_ack parts
    else if text_eq word (codes "list")
    then parse_list parts
    else if text_eq word (codes "snapshot")
    then parse_snapshot parts
    else if text_eq word (codes "error")
    then parse_error parts
    else err (unknown_token word)

unfoldable pub parse_line : Text → Result ParseError ControlResponse
parse_line input = parse_words (split_whitespace (trim input))
