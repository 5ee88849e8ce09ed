-- ===== src/Base/Digits.antt =====
-- Unsigned numbers in text: `from_str_radix` and `parse` of the unsigned integer types, and the
-- formats `{}` and `{:x}`.
use Prim.Native.Nat.{ℕ, zero, suc, ◌+◌, ◌-◌, ◌*◌, ◌/◌, ◌%◌, ◌≤◌, ◌<◌}
use native.Mathlib.Nat.{div-add-mod', div-lt_self, mod-lt}
use mathlib.Core.Path.{◌≡◌, refl, ap, ◌∙◌}
use mathlib.Core.Logic.{inl, inr}
use mathlib.Core.Bool.{Bool, true, false, not, ◌&&◌, ◌||◌}
use mathlib.Core.Option.{Option, none, some}
use mathlib.Core.List.{[], ◌∷◌}
use native.Mathlib.Omega.{arith}
use garwarp.Base.Tests.{leb, leb→le, ltb, ◌==◌, if◌then◌else◌, Bool-cases}
use garwarp.Base.Outcome.{and_then, and_then-eq-some}
use garwarp.Base.Str.{Text, all, is_empty}

abbrev digit_value : ℕ → Option ℕ
digit_value c =
    if leb b'0' c && leb c b'9'
    then some (c - b'0')
    else if leb b'a' c && leb c b'z'
    then some (c - b'a' + 10)
    else if leb b'A' c && leb c b'Z'
    then some (c - b'A' + 10)
    else none

-- `char::to_digit`.
pub to_digit : ℕ → ℕ → Option ℕ
to_digit radix c = and_then (digit_value c) (λ d. if ltb d radix then some d else none)

read_digits : ℕ → ℕ → ℕ → Text → Option ℕ
read_digits radix max acc [] = some acc
read_digits radix max acc (c ∷ cs) = and_then (to_digit radix c) (λ d.
    let next = acc * radix + d in
    let rest = read_digits radix max next cs in if leb next max then rest else none)

-- `from_str_radix` of the type whose largest value is `max`; `none` for every parse error.
unfoldable pub from_str_radix : ℕ → ℕ → Text → Option ℕ
unfolding read_digits to_digit
from_str_radix max radix [] = none
from_str_radix max radix (c ∷ cs) =
    if is_empty cs && (c == b'+' || c == b'-')
    then none
    else read_digits radix max 0 (if c == b'+' then cs else c ∷ cs)

abbrev pub u16_max : ℕ
u16_max = 0xffff

abbrev pub u32_max : ℕ
u32_max = 0xffff_ffff

abbrev pub u64_max : ℕ
u64_max = 0xffff_ffff_ffff_ffff

abbrev pub digit_char : ℕ → ℕ
digit_char d = if ltb d 10 then d + 48 else d + 87

write_digits : ℕ → ℕ → ℕ → Text → Text
write_digits radix zero n acc = acc
write_digits radix (suc fuel) n acc =
    let rest = write_digits radix fuel (n / radix) (digit_char (n % radix) ∷ acc) in
    if ltb n radix then digit_char n ∷ acc else rest

-- The digits of a number, with no leading zero.
unfoldable pub show_radix : ℕ → ℕ → Text
unfolding write_digits
show_radix radix n = write_digits radix (suc n) n []

div-lt : (n r : ℕ) → 2 ≤ r → r ≤ n → n / r < n
div-lt n r h k = div-lt_self (omega arith) (omega arith)

to_digit-digit_char : (r d : ℕ) → d < r → r ≤ 16 → to_digit r (digit_char d) ≡ some d
unfolding to_digit
to_digit-digit_char r d h k = ground arith

module _ (r max : ℕ) (two : 2 ≤ r) (sixteen : r ≤ 16) where
  read_digits-cons :
      (a d : ℕ) (s : Text)
      → d < r
      → a * r + d ≤ max
      → read_digits r max a (digit_char d ∷ s) ≡ read_digits r max (a * r + d) s
  unfolding read_digits
  read_digits-cons a d s h k = rw (to_digit-digit_char r d h sixteen) (ground arith)

  read_digits-write_digits :
      (fuel n : ℕ) (s : Text)
      → n < fuel
      → n ≤ max
      → read_digits r max 0 (write_digits r fuel n s) ≡ read_digits r max n s
  unfolding write_digits
  read_digits-write_digits zero n s h k = absurd (omega arith)
  read_digits-write_digits (suc fuel) n s h k = elim (Bool-cases (ltb n r)) [
    | inl small ↦ rw small (
        read_digits-cons 0 n s (ground arith) (omega arith)
        ∙ ap (λ a. read_digits r max a s) (omega arith))
    | inr large ↦ rw large (
        let fall : n / r < n = div-lt n r two (ground arith) in
        let whole : n / r * r + n % r ≡ n = div-add-mod' n r in
        read_digits-write_digits fuel (n / r) (digit_char (n % r) ∷ s) (omega arith) (omega arith)
        ∙ read_digits-cons (n / r) (n % r) s (mod-lt n (omega arith)) (omega arith)
        ∙ ap (λ a. read_digits r max a s) whole)
  ]

module _ (p : ℕ → Bool) (digit : (d : ℕ) → d < 16 → p (digit_char d) ≡ true) where
  all-write_digits :
      (r fuel n : ℕ) (s : Text)
      → 2 ≤ r
      → r ≤ 16
      → all p s ≡ true
      → all p (write_digits r fuel n s) ≡ true
  unfolding write_digits
  all-write_digits r zero n s two h k = k
  all-write_digits r (suc fuel) n s two h k = elim (Bool-cases (ltb n r)) [
    | inl small ↦ rw (small, digit n (ground arith)) k
    | inr large ↦ rw large (
        all-write_digits r fuel (n / r) (digit_char (n % r) ∷ s) two h
          (rw (digit (n % r) (grind (arith, mod-lt n))) k))
  ]

  -- What holds of every digit's character holds of every character of a printed number.
  pub all-show_radix : (r n : ℕ) → 2 ≤ r → r ≤ 16 → all p (show_radix r n) ≡ true
  unfolding show_radix
  all-show_radix r n two h = all-write_digits r (suc n) n [] two h refl

is_empty-write_digits :
    (r fuel n : ℕ) (s : Text) → n < fuel → 2 ≤ r → is_empty (write_digits r fuel n s) ≡ false
unfolding write_digits
is_empty-write_digits r zero n s h two = absurd (omega arith)
is_empty-write_digits r (suc fuel) n s h two = elim (Bool-cases (ltb n r)) [
  | inl small ↦ rw small
  | inr large ↦ rw large (
      let fall : n / r < n = div-lt n r two (ground arith) in
      is_empty-write_digits r fuel (n / r) (digit_char (n % r) ∷ s) (omega arith) two)
]

pub is_empty-show_radix : (r n : ℕ) → 2 ≤ r → is_empty (show_radix r n) ≡ false
unfolding show_radix
is_empty-show_radix r n two = is_empty-write_digits r (suc n) n [] (omega arith) two

unsigned : ℕ → Bool
unsigned c = not (c == b'+') && not (c == b'-')

unsigned-digit_char : (d : ℕ) → d < 16 → unsigned (digit_char d) ≡ true
unfolding unsigned
unsigned-digit_char d h = ground arith

from_str_radix-unsigned :
    (max r : ℕ) (s : Text)
    → is_empty s ≡ false
    → all unsigned s ≡ true
    → from_str_radix max r s ≡ read_digits r max 0 s
unfolding from_str_radix unsigned
from_str_radix-unsigned max r [] h k = cc
from_str_radix-unsigned max r (c ∷ cs) h k = ground arith

-- Reading back a printed number gives the number, if the type can hold it.
pub from_str_radix-show_radix :
    (max r n : ℕ) → 2 ≤ r → r ≤ 16 → n ≤ max → from_str_radix max r (show_radix r n) ≡ some n
unfolding read_digits
from_str_radix-show_radix max r n two h k =
    from_str_radix-unsigned max r (show_radix r n) (is_empty-show_radix r n two)
      (all-show_radix unsigned unsigned-digit_char r n two h)
    ∙ unfold show_radix in read_digits-write_digits r max two h (suc n) n [] (omega arith) k

read_digits-le :
    (radix max acc : ℕ) (s : Text) {n : ℕ}
    → acc ≤ max
    → read_digits radix max acc s ≡ some n
    → n ≤ max
unfolding read_digits
read_digits-le radix max acc [] h e = ground arith
read_digits-le radix max acc (c ∷ cs) {n} h e =
    let (d, digit, rest) = and_then-eq-some (to_digit radix c) _ e in
    fits (acc * radix + d) max
      (λ le. read_digits-le radix max (acc * radix + d) cs (leb→le (acc * radix + d) max le)) rest
  where
    fits :
        (next max : ℕ) {o : Option ℕ}
        → (leb next max ≡ true → o ≡ some n → n ≤ max)
        → (if leb next max then o else none) ≡ some n
        → n ≤ max
    fits next max rest g = ground arith

-- A number that is read fits its type.
pub from_str_radix-le :
    (max radix : ℕ) (s : Text) {n : ℕ} → from_str_radix max radix s ≡ some n → n ≤ max
unfolding from_str_radix
from_str_radix-le max radix [] h = cc
from_str_radix-le max radix (c ∷ cs) {n} h =
    read_digits-le radix max 0 (if c == b'+' then cs else c ∷ cs) (omega arith) (ground arith)
