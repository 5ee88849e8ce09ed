-- ===== src/Window.antt =====
-- garwarp/src/window.rs: the parent window that a client names, parsed and printed.
pub mod RoundTrip
mod Examples
use garwarp.Base.{
  ℕ, String, Bool, true, false, Option, none, some, map, List, [], ◌∷◌, ◌++◌, ◌≡◌, refl, Result, ok,
  err, ◌>>=◌, ok_or, map_err, ensure, not, Text, codes, text_eq, is_empty, trim, split_once,
  strip_prefix, if◌then◌else◌, ◌==◌, ◌≢◌,
}
use garwarp.Base.Digits.{from_str_radix, show_radix, u64_max}

pub data ParentWindowContext : Type 0 where
  x11 : ℕ → ParentWindowContext

-- `ParentWindowContext::as_str`.
unfoldable pub as_str : ParentWindowContext → Text
as_str (x11 window_id) = codes "x11:0x" ++ show_radix 16 window_id

pub data ParentWindowError : Type 0 where
  empty : ParentWindowError
  invalid_format : Text → ParentWindowError
  unsupported_backend : Text → ParentWindowError
  invalid_window_id : Text → ParentWindowError

abbrev or_else : Option Text → Option Text → Option Text
or_else none o = o
or_else (some a) o = some a

-- The digits behind `0x` or `0X` are read in base 16, any other text in base 10.
unfoldable pub parse_x11_window_id : Text → Result ParentWindowError ℕ
parse_x11_window_id input =
    let trimmed = trim input in
    if is_empty trimmed
    then err (invalid_window_id input)
    else ok_or
        (elim (or_else (strip_prefix (codes "0x") trimmed) (strip_prefix (codes "0X") trimmed)) [
          | some hex ↦ from_str_radix u64_max 16 hex
          | none ↦ from_str_radix u64_max 10 trimmed
        ])
        (invalid_window_id input)

unfoldable pub parse_parent_window : Text → Result ParentWindowError ParentWindowContext
parse_parent_window input = do
  let trimmed = trim input
  _ ← ensure (not (is_empty trimmed)) empty
  (backend, value) ← ok_or (split_once b':' trimmed) (invalid_format trimmed)
  _ ← ensure (text_eq backend (codes "x11")) (unsupported_backend backend)
  window_id ← parse_x11_window_id value
  ok (x11 window_id)

-- An absent or blank parent window is none.
unfoldable pub parse_optional_parent_window :
    Option Text → Result ParentWindowError (Option ParentWindowContext)
parse_optional_parent_window none = ok none
parse_optional_parent_window (some value) =
    if not (is_empty (trim value))
    then (do window ← parse_parent_window value; ok (some window))
    else ok none

-- The derived `PartialEq` of `Option<ParentWindowContext>`.
unfoldable pub window_eq : Option ParentWindowContext → Option ParentWindowContext → Bool
window_eq none none = true
window_eq (some (x11 a)) (some (x11 b)) = a == b
window_eq _ _ = false
