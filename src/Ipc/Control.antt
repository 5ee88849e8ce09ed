-- ===== src/Ipc/Control.antt =====
-- `ControlRequest` of garwarp-ipc/src/lib.rs, printed by `as_line` and read by `parse_line`.
pub mod RoundTrip
use garwarp.Base.{
  Bool, true, false, ◌&&◌, ◌||◌, Option, none, some, List, [], ◌∷◌, ◌++◌, and_then, Text, codes,
  text_eq, trim, split_whitespace, split_once, join, if◌then◌else◌,
}
use garwarp.Base.Map.{Map, get, insert, contains_key}
use garwarp.Ipc.Target.{RequestTransitionTarget}
use garwarp.Ipc.Target

pub data ControlRequest : Type 0 where
  status stop list_requests : ControlRequest
  inspect_request : Text → ControlRequest
  begin_request : Text → Text → Option Text → Option Text → ControlRequest
  transition_request : Text → Text → Option Text → RequestTransitionTarget → ControlRequest

-- What `parts.push` adds for an optional field.
abbrev pub push_field : Text → Option Text → List Text
push_field key none = []
push_field key (some value) = (key ++ value) ∷ []

abbrev pub begin_parts : Text → Text → Option Text → Option Text → List Text
begin_parts id sender app_id parent_window =
    codes "begin"
    ∷ (codes "id=" ++ id)
    ∷ (codes "sender=" ++ sender)
    ∷ (push_field (codes "app_id=") app_id ++ push_field (codes "parent=") parent_window)

abbrev pub transition_parts : Text → Text → Option Text → RequestTransitionTarget → List Text
transition_parts id sender app_id target =
    codes "transition"
    ∷ (codes "id=" ++ id)
    ∷ (codes "sender=" ++ sender)
    ∷ (codes "state=" ++ Target.as_str target)
    ∷ push_field (codes "app_id=") app_id

unfoldable pub as_line : ControlRequest → Text
as_line status = codes "status"
as_line stop = codes "stop"
as_line list_requests = codes "list"
as_line (inspect_request id) = codes "inspect id=" ++ id
as_line (begin_request id sender app_id parent_window) =
    join (codes " ") (begin_parts id sender app_id parent_window)
as_line (transition_request id sender app_id target) =
    join (codes " ") (transition_parts id sender app_id target)

parse_fields_onto : Map Text → List Text → Option (Map Text)
parse_fields_onto fields [] = some fields
parse_fields_onto fields (part ∷ parts) = and_then (split_once b'=' part) λ (key, value).
    let rest = parse_fields_onto (insert key value fields) parts in
    if contains_key key fields then none else rest

unfoldable pub parse_fields : List Text → Option (Map Text)
unfolding parse_fields_onto
parse_fields = parse_fields_onto []

abbrev any_eq : Text → List Text → Bool
any_eq key [] = false
any_eq key (a ∷ allowed) = text_eq key a || any_eq key allowed

unfoldable pub fields_only : Map Text → List Text → Bool
fields_only [] allowed = true
fields_only ((key, value) ∷ fields) allowed = any_eq key allowed && fields_only fields allowed

-- The three arms of the match on the first word, on the fields behind it.
unfoldable pub inspect_of : Map Text → Option ControlRequest
inspect_of fields =
    if fields_only fields (codes "id" ∷ [])
    then and_then (get (codes "id") fields) (λ id. some (inspect_request id))
    else none

unfoldable pub begin_of : Map Text → Option ControlRequest
begin_of fields =
    if fields_only fields (codes "id" ∷ codes "sender" ∷ codes "app_id" ∷ codes "parent" ∷ [])
    then and_then (get (codes "id") fields) (λ id. and_then (get (codes "sender") fields) (λ sender.
      some (begin_request id sender (get (codes "app_id") fields) (get (codes "parent") fields))))
    else none

unfoldable pub transition_of : Map Text → Option ControlRequest
transition_of fields =
    if fields_only fields (codes "id" ∷ codes "sender" ∷ codes "state" ∷ codes "app_id" ∷ [])
    then and_then (get (codes "id") fields) (λ id. and_then (get (codes "sender") fields) (λ sender.
      and_then (get (codes "state") fields) (λ state.
        and_then (Target.parse state)
          (λ target. some (transition_request id sender (get (codes "app_id") fields) target)))))
    else none

-- The match on `parts.next()`.
unfoldable pub parse_parts : List Text → Option ControlRequest
unfolding parse_fields fields_only inspect_of begin_of transition_of
parse_parts [] = none
parse_parts (word ∷ parts) =
    if text_eq word (codes "inspect")
    then and_then (parse_fields parts) inspect_of
    else if text_eq word (codes "begin")
    then and_then (parse_fields parts) begin_of
    else if text_eq word (codes "transition")
    then and_then (parse_fields parts) transition_of
    else none

unfoldable pub parse_line : Text → Option ControlRequest
parse_line input =
    let trimmed = trim input in
    if text_eq trimmed (codes "status")
    then some status
    else if text_eq trimmed (codes "stop")
    then some stop
    else if text_eq trimmed (codes "list")
    then some list_requests
    else parse_parts (split_whitespace trimmed)
