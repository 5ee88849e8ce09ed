-- ===== src/Store.antt =====
-- garwarp/src/request_store.rs: the text of the request store, written and read back. A read of
-- the store is one of the cases of `StoreFile`; the files themselves are in Store/Files.
pub mod RecordLine
pub mod Reload
pub mod RoundTrip
pub mod Loaded
pub mod Again
pub mod Files
use garwarp.Base.{
  ℕ, suc, ◌+◌, Bool, not, ◌||◌, Option, none, some, List, [], ◌∷◌, ◌++◌, Result, ok, err, ◌>>=◌,
  ok_or, map_err, ensure, Text, codes, text_eq, trim, is_empty, split, split_once, if◌then◌else◌,
  ◌==◌,
}
use garwarp.Base.Map.{Map, get, insert, contains_key}
use garwarp.Base.Digits.{show_radix}
use garwarp.Window.{
  ParentWindowContext, ParentWindowError, empty, invalid_format, unsupported_backend,
  invalid_window_id, parse_optional_parent_window,
}
use garwarp.Window
use garwarp.Request.Types.{
  Instant, Duration, RequestOwner, RequestState, RequestRecord, RequestError, already_exists,
  not_found, owner_mismatch, invalid_transition, pending, awaiting_user, fulfilled, cancelled,
  failed, expired,
}
use garwarp.Request.Types
use garwarp.Request
use garwarp.Request.{RequestRegistry, restore_record, records}

abbrev or_dash : Option Text → Text
or_dash none = codes "-"
or_dash (some value) = value

abbrev window_text : Option ParentWindowContext → Text
window_text none = codes "-"
window_text (some window) = Window.as_str window

unfoldable pub format_record_line : RequestRecord → Text
format_record_line saved =
    codes "id="
    ++ (saved.id
        ++ (codes "\tsender="
            ++ (saved.owner.sender
                ++ (codes "\tapp_id="
                    ++ (or_dash saved.owner.app_id
                        ++ (codes "\tparent="
                            ++ (window_text saved.parent_window
                                ++ (codes "\tstate=" ++ Types.as_str saved.state))))))))

pub store_lines : List RequestRecord → Text
store_lines [] = []
store_lines (saved ∷ rest) = format_record_line saved ++ (b'\n' ∷ store_lines rest)

-- What `persist_registry` writes.
unfoldable pub store_text : RequestRegistry → Text
unfolding store_lines
store_text r = store_lines (records r)

-- `Display` of `ParentWindowError` (garwarp/src/window.rs).
unfoldable pub window_error_text : ParentWindowError → Text
window_error_text empty = codes "parent window is empty"
window_error_text (invalid_format value) = codes "invalid parent-window format: " ++ value
window_error_text (unsupported_backend value) = codes "unsupported parent-window backend: " ++ value
window_error_text (invalid_window_id value) = codes "invalid x11 window id: " ++ value

-- The derived `Debug` of `RequestState`.
abbrev debug_state : RequestState → Text
debug_state pending = codes "Pending"
debug_state awaiting_user = codes "AwaitingUser"
debug_state fulfilled = codes "Fulfilled"
debug_state cancelled = codes "Cancelled"
debug_state failed = codes "Failed"
debug_state expired = codes "Expired"

-- `Display` of `RequestError` (garwarp/src/request.rs).
unfoldable pub request_error_text : RequestError → Text
request_error_text (already_exists id) = codes "request already exists: " ++ id
request_error_text (not_found id) = codes "request not found: " ++ id
request_error_text (owner_mismatch id) = codes "request ownership mismatch: " ++ id
request_error_text (invalid_transition id from target) =
    codes "invalid transition for "
    ++ (id ++ (codes ": " ++ (debug_state from ++ (codes " -> " ++ debug_state target))))

abbrev is_known_field : Text → Bool
is_known_field key =
    text_eq key (codes "id")
    || text_eq key (codes "sender")
    || text_eq key (codes "app_id")
    || text_eq key (codes "parent")
    || text_eq key (codes "state")

parse_fields_onto : Map Text → List Text → Result Text (Map Text)
parse_fields_onto fields [] = ok fields
parse_fields_onto fields (token ∷ tokens) = do
  (key, value) ← ok_or (split_once b'=' token) (codes "invalid token: " ++ token)
  _ ← ensure (is_known_field key) (codes "unknown field: " ++ key)
  _ ← ensure (not (contains_key key fields)) (codes "duplicate field: " ++ key)
  parse_fields_onto (insert key value fields) tokens

unfoldable pub parse_fields : Text → Result Text (Map Text)
unfolding parse_fields_onto
parse_fields line = parse_fields_onto [] (split b'\t' line)

unfoldable pub required_field : Map Text → Text → Result Text Text
required_field fields key = ok_or (get key fields) (codes "missing field: " ++ key)

abbrev dash_none : Option Text → Option Text
dash_none none = none
dash_none (some value) = if text_eq value (codes "-") then none else some value

-- `optional_field` and `optional_field_ref`.
unfoldable pub optional_field : Map Text → Text → Option Text
optional_field fields key = dash_none (get key fields)

record_of_fields : Map Text → Result Text RequestRecord
record_of_fields fields = do
  id ← required_field fields (codes "id")
  sender ← required_field fields (codes "sender")
  let app_id = optional_field fields (codes "app_id")
  window ←
      map_err window_error_text
        (parse_optional_parent_window (optional_field fields (codes "parent")))
  state_text ← required_field fields (codes "state")
  state ← ok_or (Types.parse state_text) (codes "invalid request state")
  ok (record {
    id = id;
    owner = record { sender = sender; app_id = app_id };
    parent_window = window;
    state = state;
  })

unfoldable pub parse_record_line : Text → Result Text RequestRecord
unfolding record_of_fields
parse_record_line line = do fields ← parse_fields line; record_of_fields fields

abbrev strip_cr : Text → Text
strip_cr [] = []
strip_cr (c ∷ []) = if c == b'\r' then [] else c ∷ []
strip_cr (c ∷ d ∷ cs) = c ∷ strip_cr (d ∷ cs)

-- `str::lines`: all parts but the last end with a newline, and an empty last part is no line.
abbrev terminated : List Text → List Text
terminated [] = []
terminated (last ∷ []) = if is_empty last then [] else last ∷ []
terminated (line ∷ next ∷ rest) = strip_cr line ∷ terminated (next ∷ rest)

unfoldable pub lines : Text → List Text
lines body = terminated (split b'\n' body)

pub data StoreFile : Type 0 where
  absent unreadable : StoreFile
  body : Text → StoreFile

-- `io::Error`: of the read, or of kind `InvalidData` with its message.
pub data LoadError : Type 0 where
  read_failed : LoadError
  invalid_data : Text → LoadError

abbrev at_line : ℕ → Text → LoadError
at_line index message =
    invalid_data (
      codes "invalid request store line " ++ (show_radix 10 (index + 1) ++ (codes ": " ++ message)))

-- `restore_record` as a result: the registry is dropped on an error.
abbrev restore : RequestRecord → Instant → RequestRegistry → Result RequestError RequestRegistry
restore saved now r = (restore_record saved now r).1 >>= λ done. ok (restore_record saved now r).0

load_line : ℕ → Instant → Text → RequestRegistry → Result LoadError RequestRegistry
load_line index now line r = if is_empty (trim line) then ok r else (do
  saved ← map_err (at_line index) (parse_record_line line)
  map_err (λ e. at_line index (request_error_text e)) (restore saved now r))

pub load_lines : ℕ → Instant → List Text → RequestRegistry → Result LoadError RequestRegistry
load_lines index now [] r = ok r
load_lines index now (line ∷ rest) r = do
  r' ← load_line index now line r
  load_lines (suc index) now rest r'

unfoldable pub load_registry : StoreFile → Duration → Instant → Result LoadError RequestRegistry
unfolding load_lines load_line
load_registry absent timeout now = ok (Request.new timeout)
load_registry unreadable timeout now = err read_failed
load_registry (body text) timeout now = load_lines 0 now (lines text) (Request.new timeout)
