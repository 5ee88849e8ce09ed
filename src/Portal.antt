-- ===== src/Portal.antt =====
-- garwarp/src/portal.rs: request handles, and the request ids derived from them.
pub mod Separation
use garwarp.Base.{
  ℕ, Bool, not, ◌&&◌, ◌||◌, List, [], ◌∷◌, ◌++◌, Result, ok, err, ◌>>=◌, ok_or, ensure, Text, codes,
  text_eq, trim, strip_prefix, split, is_empty, all, is_ascii_alphanumeric, ◌==◌, if◌then◌else◌,
}
use garwarp.Error.{PortalError, invalid_request_payload, ownership_mismatch}
use garwarp.Validate.{validate_request_id}

abbrev pub request_handle_prefix : Text
request_handle_prefix = codes "/org/freedesktop/portal/desktop/request/"

abbrev pub request_id_prefix : Text
request_id_prefix = codes "req:"

pub record RequestHandle : Type 0 where
  pub sender_segment : Text
  pub token : Text

unfoldable pub is_segment_char : ℕ → Bool
is_segment_char c = is_ascii_alphanumeric c || c == b'_'

unfoldable pub is_valid_path_segment : Text → Bool
is_valid_path_segment value = all is_segment_char value

-- The two parts of the path behind the prefix; any other number of parts is an error.
unfoldable pub handle_of_parts : List Text → Result PortalError RequestHandle
handle_of_parts (sender_segment ∷ token ∷ []) = do
  _ ← ensure (not (is_empty sender_segment || is_empty token)) invalid_request_payload
  _ ←
      ensure (is_valid_path_segment sender_segment && is_valid_path_segment token)
        invalid_request_payload
  ok (record { sender_segment = sender_segment; token = token })
handle_of_parts _ = err invalid_request_payload

unfoldable pub parse_request_handle : Text → Result PortalError RequestHandle
unfolding handle_of_parts
parse_request_handle handle = do
  _ ← ensure (text_eq (trim handle) handle) invalid_request_payload
  suffix ← ok_or (strip_prefix request_handle_prefix handle) invalid_request_payload
  handle_of_parts (split b'/' suffix)

-- The loop of `sender_to_handle_segment`.
unfoldable pub segment_of : Text → Result PortalError Text
segment_of [] = ok []
segment_of (c ∷ cs) =
    let rest = segment_of cs in
    if is_ascii_alphanumeric c
    then (rest >>= λ segment. ok (c ∷ segment))
    else if c == b'.' || c == b'_' || c == b'-'
    then (rest >>= λ segment. ok (b'_' ∷ segment))
    else err invalid_request_payload

unfoldable pub sender_to_handle_segment : Text → Result PortalError Text
sender_to_handle_segment sender = do
  _ ← ensure (text_eq (trim sender) sender) invalid_request_payload
  unique_body ← ok_or (strip_prefix (codes ":") sender) invalid_request_payload
  _ ← ensure (not (is_empty unique_body)) invalid_request_payload
  segment ← segment_of unique_body
  _ ← ensure (not (is_empty segment) && is_valid_path_segment segment) invalid_request_payload
  ok segment

unfoldable pub derive_request_id : Text → RequestHandle → Result PortalError Text
derive_request_id caller_sender handle = do
  expected_sender_segment ← sender_to_handle_segment caller_sender
  _ ← ensure (text_eq expected_sender_segment handle.sender_segment) ownership_mismatch
  let request_id = request_id_prefix ++ (expected_sender_segment ++ (b':' ∷ handle.token))
  _ ← validate_request_id request_id
  ok request_id

unfoldable pub derive_request_id_from_handle : Text → Text → Result PortalError Text
derive_request_id_from_handle caller_sender request_handle_path = do
  request_handle ← parse_request_handle request_handle_path
  derive_request_id caller_sender request_handle
