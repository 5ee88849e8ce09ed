-- ===== src/Ipc/Response/Fields.antt =====
-- The replies of garwarp-ipc/src/lib.rs, and the bodies of the loops of `parse_line` over the
-- fields of each kind of reply. A loop's local variables are a record.
use garwarp.Base.{
  ℕ, Bool, false, not, not, ◌||◌, Option, none, some, List, [], ◌∷◌, Result, ok, err, ◌>>=◌, ok_or,
  Text, codes, text_eq, is_empty, split_once, split, if◌then◌else◌,
}
use garwarp.Base.Digits.{from_str_radix, u16_max, u32_max, u64_max}
use garwarp.Ipc.Health.{HealthStatus, healthy, protocol_version}
use garwarp.Ipc.Health

pub record StatusResponse : Type 0 where
  pub protocol_version : ℕ
  pub health : HealthStatus
  pub in_flight_requests : ℕ
  pub total_requests : ℕ
  pub terminal_requests : ℕ

-- `StatusResponse::healthy`.
unfoldable pub healthy_response : StatusResponse
healthy_response = record {
  protocol_version = protocol_version;
  health = healthy;
  in_flight_requests = 0;
  total_requests = 0;
  terminal_requests = 0;
}

pub data ControlResponse : Type 0 where
  status : StatusResponse → ControlResponse
  ack_stopping : ControlResponse
  request_list : List Text → ControlResponse
  ack_request : Text → Text → ControlResponse
  request_snapshot : Text → Text → Text → Option Text → Option Text → ControlResponse
  error : ℕ → Text → ControlResponse

pub data ParseError : Type 0 where
  empty : ParseError
  missing_field : Text → ParseError
  invalid_field : Text → ParseError
  unknown_token : Text → ParseError

-- `for part in parts`, with the variables that its body changes.
unfoldable pub each_field :
    {S : Type 0} → (Text → S → Result ParseError S) → List Text → S → Result ParseError S
each_field body [] s = ok s
each_field body (part ∷ parts) s = body part s >>= λ s'. each_field body parts s'

-- `if slot.replace(value).is_some() { return Err(..) }`.
abbrev pub replace : {A : Type 0} → Text → Option A → A → Result ParseError (Option A)
replace part none value = ok (some value)
replace part (some old) value = err (invalid_field part)

abbrev pub key_value : Text → Result ParseError (Text × Text)
key_value part = ok_or (split_once b'=' part) (invalid_field part)

abbrev number : ℕ → Text → Text → Result ParseError ℕ
number max part value = ok_or (from_str_radix max 10 value) (invalid_field part)

pub record StatusFields : Type 0 where
  pub protocol_version : Option ℕ
  pub health : Option HealthStatus
  pub in_flight_requests : Option ℕ
  pub total_requests : Option ℕ
  pub terminal_requests : Option ℕ

abbrev pub no_status : StatusFields
no_status = record {
  protocol_version = none;
  health = none;
  in_flight_requests = none;
  total_requests = none;
  terminal_requests = none;
}

unfoldable pub status_field : Text → StatusFields → Result ParseError StatusFields
status_field part f = do
  (key, value) ← key_value part
  if text_eq key (codes "protocol")
      then (do
        parsed ← number u16_max part value
        slot ← replace part f.protocol_version parsed
        ok (record f { protocol_version = slot }))
      else if text_eq key (codes "health")
      then (do
        parsed ← ok_or (Health.parse value) (invalid_field part)
        slot ← replace part f.health parsed
        ok (record f { health = slot }))
      else if text_eq key (codes "in_flight")
      then (do
        parsed ← number u64_max part value
        slot ← replace part f.in_flight_requests parsed
        ok (record f { in_flight_requests = slot }))
      else if text_eq key (codes "total")
      then (do
        parsed ← number u64_max part value
        slot ← replace part f.total_requests parsed
        ok (record f { total_requests = slot }))
      else if text_eq key (codes "terminal")
      then (do
        parsed ← number u64_max part value
        slot ← replace part f.terminal_requests parsed
        ok (record f { terminal_requests = slot }))
      else err (invalid_field part)

pub record AckFields : Type 0 where
  pub id : Option Text
  pub state : Option Text

unfoldable pub ack_field : Text → AckFields → Result ParseError AckFields
ack_field part f = do
  (key, value) ← key_value part
  if text_eq key (codes "id")
      then (do slot ← replace part f.id value; ok (record f { id = slot }))
      else if text_eq key (codes "state")
      then (do slot ← replace part f.state value; ok (record f { state = slot }))
      else err (invalid_field part)

abbrev pub any_empty : List Text → Bool
any_empty [] = false
any_empty (id ∷ ids) = is_empty id || any_empty ids

unfoldable pub list_field : Text → Option (List Text) → Result ParseError (Option (List Text))
list_field part ids = do
  (key, value) ← key_value part
  if not (text_eq key (codes "ids"))
      then err (invalid_field part)
      else if text_eq value (codes "-")
      then replace part ids []
      else if any_empty (split b',' value)
      then err (invalid_field part)
      else replace part ids (split b',' value)

-- `app_id` with `saw_app_id`: none before the field is seen. So for the parent window.
pub record SnapshotFields : Type 0 where
  pub id : Option Text
  pub state : Option Text
  pub sender : Option Text
  pub app_id : Option (Option Text)
  pub parent_window : Option (Option Text)

abbrev pub no_snapshot : SnapshotFields
no_snapshot = record { id = none; state = none; sender = none; app_id = none; parent_window = none }

abbrev pub flatten : Option (Option Text) → Option Text
flatten none = none
flatten (some o) = o

abbrev pub dash_none : Text → Option Text
dash_none value = if text_eq value (codes "-") then none else some value

unfoldable pub snapshot_field : Text → SnapshotFields → Result ParseError SnapshotFields
snapshot_field part f = do
  (key, value) ← key_value part
  if text_eq key (codes "id")
      then (do slot ← replace part f.id value; ok (record f { id = slot }))
      else if text_eq key (codes "state")
      then (do slot ← replace part f.state value; ok (record f { state = slot }))
      else if text_eq key (codes "sender")
      then (do slot ← replace part f.sender value; ok (record f { sender = slot }))
      else if text_eq key (codes "app_id")
      then (do slot ← replace part f.app_id (dash_none value); ok (record f { app_id = slot }))
      else if text_eq key (codes "parent")
      then (do
        slot ← replace part f.parent_window (dash_none value)
        ok (record f { parent_window = slot }))
      else err (invalid_field part)

pub record ErrorFields : Type 0 where
  pub code : Option ℕ
  pub reason : Option Text

unfoldable pub error_field : Text → ErrorFields → Result ParseError ErrorFields
error_field part f = do
  (key, value) ← key_value part
  if text_eq key (codes "code")
      then (do
        parsed ← number u32_max part value
        slot ← replace part f.code parsed
        ok (record f { code = slot }))
      else if text_eq key (codes "reason")
      then (do slot ← replace part f.reason value; ok (record f { reason = slot }))
      else err (invalid_field part)
