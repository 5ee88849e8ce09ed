-- ===== src/Window/Examples.antt =====
-- The theorems on parent windows at concrete texts.
use garwarp.Base.{◌≡◌, refl, arith, ok, err, codes, trim, is_whitespace, text_eq, split_once}
use garwarp.Base.Digits.{from_str_radix}
use garwarp.Window.{x11, as_str, parse_parent_window, parse_x11_window_id, unsupported_backend}
use garwarp.Window.RoundTrip.{parse_parent_window-as_str}

parse_parent_window-as_str_example : parse_parent_window (as_str (x11 42)) ≡ ok (x11 42)
parse_parent_window-as_str_example = parse_parent_window-as_str 42 (omega arith)

parse_decimal : parse_parent_window (codes " x11:42 ") ≡ ok (x11 42)
unfolding parse_parent_window parse_x11_window_id trim is_whitespace text_eq split_once
    from_str_radix
parse_decimal = refl

-- A sign is accepted, as `u64::from_str_radix` does.
parse_signed : parse_parent_window (codes "x11:0x+2A") ≡ ok (x11 42)
unfolding parse_parent_window parse_x11_window_id trim is_whitespace text_eq split_once
    from_str_radix
parse_signed = refl

parse_wayland :
    parse_parent_window (codes "wayland:abc") ≡ err (unsupported_backend (codes "wayland"))
unfolding parse_parent_window trim is_whitespace text_eq split_once
parse_wayland = refl
