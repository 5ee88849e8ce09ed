-- ===== src/Request/Types.antt =====
-- The data of garwarp/src/request.rs: owners, states, entries and records of requests.
use garwarp.Base.{
  ℕ, Bool, true, false, ◌&&◌, Option, none, some, Text, codes, text_eq, if◌then◌else◌,
}
use garwarp.Window.{ParentWindowContext}

-- `std::time::Instant` and `Duration`, in nanoseconds.
abbrev pub Instant : Type 0
Instant = ℕ

abbrev pub Duration : Type 0
Duration = ℕ

pub record RequestOwner : Type 0 where
  pub sender : Text
  pub app_id : Option Text

-- The derived `PartialEq`.
unfoldable pub option_text_eq : Option Text → Option Text → Bool
option_text_eq none none = true
option_text_eq (some a) (some b) = text_eq a b
option_text_eq _ _ = false

unfoldable pub owner_eq : RequestOwner → RequestOwner → Bool
unfolding option_text_eq
owner_eq a b = text_eq a.sender b.sender && option_text_eq a.app_id b.app_id

pub data RequestState : Type 0 where
  pending awaiting_user fulfilled cancelled failed expired : RequestState

unfoldable pub is_terminal : RequestState → Bool
is_terminal pending = false
is_terminal awaiting_user = false
is_terminal _ = true

unfoldable pub as_str : RequestState → Text
as_str pending = codes "pending"
as_str awaiting_user = codes "awaiting_user"
as_str fulfilled = codes "fulfilled"
as_str cancelled = codes "cancelled"
as_str failed = codes "failed"
as_str expired = codes "expired"

unfoldable pub parse : Text → Option RequestState
parse input =
    if text_eq input (codes "pending")
    then some pending
    else if text_eq input (codes "awaiting_user")
    then some awaiting_user
    else if text_eq input (codes "fulfilled")
    then some fulfilled
    else if text_eq input (codes "cancelled")
    then some cancelled
    else if text_eq input (codes "failed")
    then some failed
    else if text_eq input (codes "expired")
    then some expired
    else none

-- The derived `PartialEq`.
unfoldable pub state_eq : RequestState → RequestState → Bool
state_eq pending pending = true
state_eq awaiting_user awaiting_user = true
state_eq fulfilled fulfilled = true
state_eq cancelled cancelled = true
state_eq failed failed = true
state_eq expired expired = true
state_eq _ _ = false

pub record RequestEntry : Type 0 where
  pub id : Text
  pub owner : RequestOwner
  pub parent_window : Option ParentWindowContext
  pub state : RequestState
  pub started_at : Instant
  pub last_updated_at : Instant

pub record RequestRecord : Type 0 where
  pub id : Text
  pub owner : RequestOwner
  pub parent_window : Option ParentWindowContext
  pub state : RequestState

pub data RequestError : Type 0 where
  already_exists : Text → RequestError
  not_found : Text → RequestError
  owner_mismatch : Text → RequestError
  invalid_transition : Text → RequestState → RequestState → RequestError
