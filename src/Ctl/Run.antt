-- ===== src/Ctl/Run.antt =====
-- `run` and `main` of garwarpctl/src/main.rs: what the client sends, prints and returns. The derived
-- `Debug` of a reply is a parameter, as is what the socket answers.
use garwarp.Base.{
  ℕ, List, [], ◌∷◌, ◌++◌, map, Result, ok, err, ◌>>=◌, map_err, Text, codes, ◌==◌, if◌then◌else◌,
}
use garwarp.Base.Digits.{show_radix}
use garwarp.Ipc.Health
use garwarp.Ipc.Health.{protocol_version}
use garwarp.Ipc.Control.{
  ControlRequest, list_requests, inspect_request, begin_request, transition_request, as_line,
}
use garwarp.Ipc.Response.{
  ControlResponse, ack_stopping, request_list, ack_request, request_snapshot, error, or_dash,
  ParseError, empty, missing_field, invalid_field, unknown_token, parse_line,
}
use garwarp.Ctl.{
  Command, status, stop, list, portal_smoke, version, help, inspect, begin, transition,
  parse_command,
}

-- The lines that a command prints, and its `io::Error` as text.
pub record Output : Type 0 where
  pub printed : List Text
  pub result : Result Text (Unit {0})

abbrev pub prints : List Text → Output
prints lines = record { printed = lines; result = ok tt }

abbrev pub fails : Text → Output
fails message = record { printed = []; result = err message }

-- What the process leaves.
pub record Exit : Type 0 where
  pub stdout : List Text
  pub stderr : List Text
  pub code : ℕ

-- The end of `main`, on what `run` returned.
abbrev finish : List Text → Result Text (Unit {0}) → Exit
finish lines (ok done) = record { stdout = lines; stderr = []; code = 0 }
finish lines (err message) = record {
  stdout = lines;
  stderr = (codes "garwarpctl error: " ++ message) ∷ [];
  code = 1;
}

abbrev finished : Output → Exit
finished o = finish o.printed o.result

-- `Display` of `ParseError` (garwarp-ipc/src/lib.rs).
unfoldable pub parse_error_text : ParseError → Text
parse_error_text empty = codes "empty input"
parse_error_text (missing_field field) = codes "missing field: " ++ field
parse_error_text (invalid_field field) = codes "invalid field: " ++ field
parse_error_text (unknown_token token) = codes "unknown token: " ++ token

-- `BufRead::read_line`, without a limit.
unfoldable pub first_line : Text → Text
first_line [] = []
first_line (c ∷ cs) = let rest = first_line cs in if c == b'\n' then c ∷ [] else c ∷ rest

-- The socket: what is written there, and what is read until it is closed, or the error.
abbrev pub Socket : Type 0
Socket = Text → Result Text Text

unfoldable pub send_request : Socket → ControlRequest → Result Text ControlResponse
unfolding parse_error_text first_line
send_request socket request = do
  reply ← socket (as_line request ++ codes "\n")
  map_err parse_error_text (parse_line (first_line reply))

abbrev decimal : ℕ → Text
decimal = show_radix 10

unfoldable pub print_help : List Text
print_help =
    codes "garwarpctl <command>"
    ∷ codes "commands:"
    ∷ codes "  status (default)"
    ∷ codes "  stop"
    ∷ codes "  list"
    ∷ codes "  portal-smoke"
    ∷ codes "  inspect <id>"
    ∷ codes "  begin <id> <sender> [app_id|-] [parent_window|-]"
    ∷ codes "  transition <id> <sender> <awaiting_user|fulfilled|cancelled|failed> [app_id|-]"
    ∷ codes "  await|fulfill|cancel|fail <id> <sender> [app_id|-]"
    ∷ codes "  version"
    ∷ codes "  help"
    ∷ []

-- `?` behind `send_request`.
abbrev pub shown_of : (ControlResponse → Output) → Result Text ControlResponse → Output
shown_of shown (err message) = fails message
shown_of shown (ok response) = shown response

module _ (debug : ControlResponse → Text) where
  -- The two arms that every match on a reply ends with.
  otherwise : ControlResponse → Output
  otherwise (error code reason) =
      fails (codes "daemon error: code=" ++ (decimal code ++ (codes " reason=" ++ reason)))
  otherwise other = fails (codes "unexpected response: " ++ debug other)

  show_status : ControlResponse → Output
  unfolding otherwise
  show_status (ControlResponse.status s) = prints (
      (codes "protocol=" ++ decimal s.protocol_version)
      ∷ (codes "health=" ++ Health.as_str s.health)
      ∷ (codes "in_flight=" ++ decimal s.in_flight_requests)
      ∷ (codes "total=" ++ decimal s.total_requests)
      ∷ (codes "terminal=" ++ decimal s.terminal_requests)
      ∷ [])
  show_status other = otherwise other

  show_stop : ControlResponse → Output
  unfolding otherwise
  show_stop ack_stopping = prints (codes "stopping" ∷ [])
  show_stop other = otherwise other

  show_list : ControlResponse → Output
  unfolding otherwise
  show_list (request_list []) = prints (codes "ids=-" ∷ [])
  show_list (request_list (id ∷ ids)) = prints (map (λ i. codes "id=" ++ i) (id ∷ ids))
  show_list other = otherwise other

  show_snapshot : ControlResponse → Output
  unfolding otherwise
  show_snapshot (request_snapshot id state sender app_id parent_window) = prints (
      (codes "id=" ++ id)
      ∷ (codes "state=" ++ state)
      ∷ (codes "sender=" ++ sender)
      ∷ (codes "app_id=" ++ or_dash app_id)
      ∷ (codes "parent_window=" ++ or_dash parent_window)
      ∷ [])
  show_snapshot other = otherwise other

  show_ack : ControlResponse → Output
  unfolding otherwise
  show_ack (ack_request id state) = prints ((codes "id=" ++ id) ∷ (codes "state=" ++ state) ∷ [])
  show_ack other = otherwise other

  -- The match on the reply in each arm of `run`; the commands that send nothing have none.
  unfoldable pub respond : Command → ControlResponse → Output
  unfolding show_status show_stop show_list show_snapshot show_ack
  respond status = show_status
  respond stop = show_stop
  respond list = show_list
  respond (inspect id) = show_snapshot
  respond (begin id sender app_id parent_window) = show_ack
  respond (transition id sender app_id target) = show_ack
  respond _ = otherwise

  unfoldable pub sent : Socket → ControlRequest → (ControlResponse → Output) → Output
  sent socket request shown = shown_of shown (send_request socket request)

  module _ (socket : Socket) (run_portal_smoke : Output) where
    unfoldable pub run : Command → Output
    unfolding sent show_status show_stop show_list show_snapshot show_ack print_help
    run status = sent socket ControlRequest.status show_status
    run stop = sent socket ControlRequest.stop show_stop
    run list = sent socket list_requests show_list
    run portal_smoke = run_portal_smoke
    run (inspect id) = sent socket (inspect_request id) show_snapshot
    run (begin id sender app_id parent_window) =
        sent socket (begin_request id sender app_id parent_window) show_ack
    run (transition id sender app_id target) =
        sent socket (transition_request id sender app_id target) show_ack
    run version = prints ((codes "garwarpctl protocol v" ++ decimal protocol_version) ∷ [])
    run help = prints print_help

    main_of : Result Text Command → Exit
    unfolding run
    main_of (err message) = record {
      stdout = print_help;
      stderr = (codes "garwarpctl error: " ++ message) ∷ [];
      code = 1;
    }
    main_of (ok command) = finished (run command)

    -- `main`, on the arguments behind the name of the program.
    unfoldable pub main : List Text → Exit
    unfolding main_of
    main args = main_of (parse_command args)
