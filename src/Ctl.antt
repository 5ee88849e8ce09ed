-- ===== src/Ctl.antt =====
-- garwarpctl/src/main.rs: the command line of the control client, and the request that it sends.
pub mod Segments
pub mod Run
pub mod Smoke
pub mod Wire
pub mod Exchange
pub mod Paths
pub mod Args
mod Examples
use garwarp.Base.{
  ◌||◌, Option, none, some, List, [], ◌∷◌, ◌++◌, Result, ok, err, ◌>>=◌, Text, codes, text_eq,
  is_empty, strip_prefix, is_ascii_alphanumeric, ok_or, ensure, not, ◌==◌, if◌then◌else◌,
}
use garwarp.Ipc.Target.{RequestTransitionTarget, awaiting_user, fulfilled, cancelled, failed}
use garwarp.Ipc.Control.{
  ControlRequest, list_requests, inspect_request, begin_request, transition_request,
}

pub data Command : Type 0 where
  status stop list portal_smoke version help : Command
  inspect : Text → Command
  begin : Text → Text → Option Text → Option Text → Command
  transition : Text → Text → Option Text → RequestTransitionTarget → Command

unfoldable pub parse_transition_target : Text → Result Text RequestTransitionTarget
parse_transition_target value =
    if text_eq value (codes "awaiting_user")
    then ok awaiting_user
    else if text_eq value (codes "fulfilled")
    then ok fulfilled
    else if text_eq value (codes "cancelled")
    then ok cancelled
    else if text_eq value (codes "failed")
    then ok failed
    else err (codes "unsupported transition state: " ++ value)

unfoldable pub optional_value : Text → Option Text
optional_value value = if text_eq value (codes "-") || is_empty value then none else some value

abbrev unknown : Result Text Command
unknown = err (codes "unknown command or invalid arguments")

-- The target of the four commands that are short for a transition.
unfoldable pub short_target : Text → Option RequestTransitionTarget
short_target command =
    if text_eq command (codes "await")
    then some awaiting_user
    else if text_eq command (codes "fulfill")
    then some fulfilled
    else if text_eq command (codes "cancel")
    then some cancelled
    else if text_eq command (codes "fail")
    then some failed
    else none

abbrev short_transition :
    Text → Text → Option Text → Option RequestTransitionTarget → Result Text Command
short_transition id sender app_id none = unknown
short_transition id sender app_id (some target) = ok (transition id sender app_id target)

-- The arms of the match on the arguments, by their number.
parse_one : Text → Result Text Command
parse_one command =
    if text_eq command (codes "status")
    then ok status
    else if text_eq command (codes "stop")
    then ok stop
    else if text_eq command (codes "list")
    then ok list
    else if text_eq command (codes "portal-smoke")
    then ok portal_smoke
    else if text_eq command (codes "version")
        || text_eq command (codes "--version")
        || text_eq command (codes "-V")
    then ok version
    else if text_eq command (codes "help")
        || text_eq command (codes "--help")
        || text_eq command (codes "-h")
    then ok help
    else unknown

parse_three : Text → Text → Text → Result Text Command
unfolding short_target
parse_three command id sender =
    if text_eq command (codes "begin")
    then ok (begin id sender none none)
    else short_transition id sender none (short_target command)

parse_four : Text → Text → Text → Text → Result Text Command
unfolding short_target
parse_four command id sender last =
    if text_eq command (codes "begin")
    then ok (begin id sender (optional_value last) none)
    else if text_eq command (codes "transition")
    then (do target ← parse_transition_target last; ok (transition id sender none target))
    else short_transition id sender (optional_value last) (short_target command)

parse_five : Text → Text → Text → Text → Text → Result Text Command
parse_five command id sender fourth last =
    if text_eq command (codes "begin")
    then ok (begin id sender (optional_value fourth) (optional_value last))
    else if text_eq command (codes "transition")
    then (do
      target ← parse_transition_target fourth
      ok (transition id sender (optional_value last) target))
    else unknown

unfoldable pub parse_command : List Text → Result Text Command
unfolding parse_one parse_three parse_four parse_five parse_transition_target optional_value
parse_command [] = ok status
parse_command (command ∷ []) = parse_one command
parse_command (command ∷ id ∷ []) =
    if text_eq command (codes "inspect") then ok (inspect id) else unknown
parse_command (command ∷ id ∷ sender ∷ []) = parse_three command id sender
parse_command (command ∷ id ∷ sender ∷ last ∷ []) = parse_four command id sender last
parse_command (command ∷ id ∷ sender ∷ fourth ∷ last ∷ []) =
    parse_five command id sender fourth last
parse_command _ = unknown

-- The request that `run` sends for a command, if it sends one.
unfoldable pub request_of : Command → Option ControlRequest
request_of status = some ControlRequest.status
request_of stop = some ControlRequest.stop
request_of list = some list_requests
request_of (inspect id) = some (inspect_request id)
request_of (begin id sender app_id parent_window) =
    some (begin_request id sender app_id parent_window)
request_of (transition id sender app_id target) = some (transition_request id sender app_id target)
request_of _ = none

-- The client's own copy of `sender_to_handle_segment`, with its error messages.
unfoldable pub segment_of : Text → Result Text Text
segment_of [] = ok []
segment_of (c ∷ cs) =
    let rest = segment_of cs in
    if is_ascii_alphanumeric c
    then (rest >>= λ segment. ok (c ∷ segment))
    else if c == b'.' || c == b'_' || c == b'-'
    then (rest >>= λ segment. ok (b'_' ∷ segment))
    else err (codes "unsupported sender character: " ++ (c ∷ []))

unfoldable pub sender_to_handle_segment : Text → Result Text Text
sender_to_handle_segment sender = do
  body ← ok_or (strip_prefix (codes ":") sender) (codes "invalid sender unique name: " ++ sender)
  _ ← ensure (not (is_empty body)) (codes "invalid sender unique name: empty")
  segment_of body
