-- ===== src/Window/RoundTrip.antt =====
-- `ParentWindowContext::as_str` and the parsers of garwarp/src/window.rs, one after the other.
use garwarp.Base.{
  ok_or-eq-ok, ◌∙◌, Result, trim, bind-eq-ok, ensure, not, is_empty, ok_or, err, Bool, false,
  if◌then◌else◌, ℕ, ◌≤◌, ◌<◌, ◌↔◌, true, Option, none, some, ◌++◌, ◌≡◌, ap, arith, ok, ◌>>=◌,
  split_once, text_eq, Text, codes, all, is_dark, is_whitespace, trim-dark,
}
use garwarp.Base.Digits.{
  from_str_radix, from_str_radix-le, show_radix, digit_char, all-show_radix,
  from_str_radix-show_radix, u64_max,
}
use garwarp.Window.{
  ParentWindowError, invalid_window_id, ParentWindowContext, x11, as_str, parse_x11_window_id,
  parse_parent_window, parse_optional_parent_window, window_eq,
}

pub window_eq_iff : (a b : Option ParentWindowContext) → (window_eq a b ≡ true) ↔ (a ≡ b)
unfolding window_eq
window_eq_iff none none = ground arith
window_eq_iff (some (x11 a)) (some (x11 b)) = ground arith
window_eq_iff _ _ = ground arith

digit_char-dark : (d : ℕ) → d < 16 → is_dark (digit_char d) ≡ true
unfolding is_whitespace
digit_char-dark d h = ground arith

pub all-as_str : (w : ParentWindowContext) → all is_dark (as_str w) ≡ true
unfolding as_str is_whitespace
all-as_str (x11 n) = all-show_radix is_dark digit_char-dark 16 n (omega arith) (omega arith)

hex_text : ℕ → Text
hex_text n = codes "0x" ++ show_radix 16 n

parse_x11_window_id-hex_text : (n : ℕ) → n ≤ u64_max → parse_x11_window_id (hex_text n) ≡ ok n
unfolding parse_x11_window_id hex_text
parse_x11_window_id-hex_text n h =
    rw (trim-dark (hex_text n) (unfold is_whitespace in all-hex n))
      (rw (from_str_radix-show_radix u64_max 16 n (omega arith) (omega arith) h))
  where
    all-hex : (n : ℕ) → all is_dark (show_radix 16 n) ≡ true
    all-hex n = all-show_radix is_dark digit_char-dark 16 n (omega arith) (omega arith)

-- Every window id of 64 bits is printed to a text that is parsed to the same window.
pub parse_parent_window-as_str :
    (n : ℕ) → n ≤ u64_max → parse_parent_window (as_str (x11 n)) ≡ ok (x11 n)
unfolding parse_parent_window as_str split_once text_eq hex_text
parse_parent_window-as_str n h =
    rw (trim-dark (as_str (x11 n)) (all-as_str (x11 n)))
      (ap (λ r. r >>= λ w. ok (x11 w)) (parse_x11_window_id-hex_text n h))

-- So is an optional window, when it is there.
pub parse_optional_parent_window-as_str :
    (n : ℕ) → n ≤ u64_max → parse_optional_parent_window (some (as_str (x11 n))) ≡ ok (some (x11 n))
unfolding parse_optional_parent_window as_str
parse_optional_parent_window-as_str n h =
    rw (trim-dark (as_str (x11 n)) (all-as_str (x11 n)))
      (ap (λ r. r >>= λ w. ok (some w)) (parse_parent_window-as_str n h))

-- A window id of 64 bits.
abbrev pub IsWide : Option ParentWindowContext → Type 0
IsWide none = Unit {0}
IsWide (some (x11 n)) = n ≤ u64_max

parse_x11_window_id-le : (s : Text) {n : ℕ} → parse_x11_window_id s ≡ ok n → n ≤ u64_max
unfolding parse_x11_window_id
parse_x11_window_id-le s {n} = go (is_empty (trim s)) (trim s) _
  where
    go :
        (b : Bool) (t : Text) (o : Option Text)
        → (if b
            then err (invalid_window_id s)
            else ok_or
                (elim o [
                  | some hex ↦ from_str_radix u64_max 16 hex
                  | none ↦ from_str_radix u64_max 10 t
                ])
                (invalid_window_id s))
          ≡ ok n
        → n ≤ u64_max
    go true t o h = cc
    go false t none h = from_str_radix-le u64_max 10 t (ok_or-eq-ok _ _ h)
    go false t (some hex) h = from_str_radix-le u64_max 16 hex (ok_or-eq-ok _ _ h)

same_id :
    (m n : ℕ)
    → ◌≡◌ {A = Result ParentWindowError ParentWindowContext} (ok (x11 m)) (ok (x11 n))
    → ◌≡◌ {A = Result ParentWindowError ℕ} (ok m) (ok n)
same_id m n h = cc

parse_parent_window-le : (s : Text) {n : ℕ} → parse_parent_window s ≡ ok (x11 n) → n ≤ u64_max
unfolding parse_parent_window
parse_parent_window-le s {n} h =
    let (done, filled, h1) = bind-eq-ok (ensure (not (is_empty (trim s))) _) _ h in
    let ((backend, value), cut, h2) = bind-eq-ok (ok_or (split_once b':' (trim s)) _) _ h1 in
    let (done', named, h3) = bind-eq-ok (ensure (text_eq backend (codes "x11")) _) _ h2 in
    let (m, number, same) = bind-eq-ok (parse_x11_window_id value) _ h3 in
    parse_x11_window_id-le value (number ∙ same_id m n same)

-- A parent window that is read has a window id of 64 bits.
pub parse_optional_parent_window-IsWide :
    (o : Option Text) (w : Option ParentWindowContext)
    → parse_optional_parent_window o ≡ ok w
    → IsWide w
unfolding parse_optional_parent_window
parse_optional_parent_window-IsWide o none h = tt
parse_optional_parent_window-IsWide none (some (x11 n)) h = cc
parse_optional_parent_window-IsWide (some value) (some (x11 n)) h =
    parse_parent_window-le value (inner (parse_parent_window value) (not (is_empty (trim value))) h)
  where
    inner :
        (r : Result ParentWindowError ParentWindowContext) (b : Bool)
        → ◌≡◌ {A = Result ParentWindowError (Option ParentWindowContext)}
            (if b then (r >>= λ w. ok (some w)) else ok none)
            (ok (some (x11 n)))
        → r ≡ ok (x11 n)
    inner (ok w) true h = cc
    inner (err e) true h = cc
    inner r false h = cc
