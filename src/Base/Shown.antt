-- ===== src/Base/Shown.antt =====
-- Texts with no whitespace, texts with no tab and no newline, and optional texts that are printed as a dash when there is none.
use mathlib.Core.Path.{◌≡◌}
use mathlib.Core.Logic.{◌≢◌}
use mathlib.Core.Bool.{true}
use mathlib.Core.Option.{Option, none, some}
use mathlib.Core.Bool.{Bool, ◌&&◌}
use native.Mathlib.Omega.{arith}
use Prim.Native.Nat.{ℕ}
use garwarp.Base.Str.{Text, codes, all, all_mono, is_dark, is_whitespace, is_not}

abbrev pub IsDark : Text → Type 0
IsDark s = all is_dark s ≡ true

-- An optional text that is printed as itself.
abbrev pub IsShown : Option Text → Type 0
IsShown none = Unit {0}
IsShown (some s) = IsDark s × (s ≢ codes "-")

-- No tab and no newline.
abbrev pub is_plain : ℕ → Bool
is_plain c = is_not b'\n' c && is_not b'\t' c

abbrev pub IsPlain : Text → Type 0
IsPlain s = all is_plain s ≡ true

-- An optional text that a line between tabs shows as itself.
abbrev pub IsCell : Option Text → Type 0
IsCell none = Unit {0}
IsCell (some s) = IsPlain s × (s ≢ codes "-")

dark_plain : (c : ℕ) → is_dark c ≡ true → is_plain c ≡ true
unfolding is_whitespace
dark_plain c h = ground arith

pub IsDark-IsPlain : (s : Text) → IsDark s → IsPlain s
IsDark-IsPlain s = all_mono is_dark is_plain s dark_plain

pub IsShown-IsCell : (o : Option Text) → IsShown o → IsCell o
IsShown-IsCell none h = tt
IsShown-IsCell (some s) h = (IsDark-IsPlain s h.0, h.1)
