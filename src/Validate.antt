-- ===== src/Validate.antt =====
-- garwarp/src/validate.rs: which request ids, senders and application ids are accepted.
pub mod Dark
use garwarp.Base.{
  ℕ, Bool, not, ◌&&◌, ◌||◌, Option, none, some, Result, ok, ◌>>=◌, ensure, Text, is_empty, len, all,
  is_ascii_alphanumeric, starts_with, has_char, leb, ◌==◌,
}
use garwarp.Error.{PortalError, invalid_request_payload}

abbrev pub max_request_id_len : ℕ
max_request_id_len = 128

abbrev pub max_sender_len : ℕ
max_sender_len = 128

abbrev pub max_app_id_len : ℕ
max_app_id_len = 255

unfoldable pub is_id_char : ℕ → Bool
is_id_char c = is_ascii_alphanumeric c || c == b'.' || c == b'_' || c == b'-' || c == b':'

unfoldable pub is_app_id_char : ℕ → Bool
is_app_id_char c = is_ascii_alphanumeric c || c == b'.' || c == b'_' || c == b'-'

unfoldable pub is_valid_request_id : Text → Bool
is_valid_request_id value =
    not (is_empty value) && leb (len value) max_request_id_len && all is_id_char value

unfoldable pub is_valid_sender : Text → Bool
is_valid_sender value =
    leb (len value) max_sender_len && starts_with b':' value && all is_id_char value

unfoldable pub is_valid_app_id : Text → Bool
is_valid_app_id value =
    not (is_empty value)
    && leb (len value) max_app_id_len
    && has_char b'.' value
    && all is_app_id_char value

unfoldable pub validate_request_id : Text → Result PortalError (Unit {0})
validate_request_id request_id = ensure (is_valid_request_id request_id) invalid_request_payload

validate_app_id : Option Text → Result PortalError (Unit {0})
validate_app_id none = ok tt
validate_app_id (some app_id) = ensure (is_valid_app_id app_id) invalid_request_payload

unfoldable pub validate_request_identity : Text → Text → Option Text → Result PortalError (Unit {0})
unfolding validate_request_id validate_app_id
validate_request_identity request_id sender app_id = do
  _ ← validate_request_id request_id
  _ ← ensure (is_valid_sender sender) invalid_request_payload
  validate_app_id app_id
