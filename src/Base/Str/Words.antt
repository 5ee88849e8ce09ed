-- ===== src/Base/Str/Words.antt =====
-- Laws of `trim`, `split_whitespace` and of words joined by spaces.

use mathlib.Core.Path.{◌≡◌, refl, ap, ◌∙◌}
use mathlib.Core.Logic.{inl, inr}
use mathlib.Core.Bool.{Bool, true, not, ◌&&◌}
use mathlib.Core.List.{List, [], ◌∷◌, ◌++◌}
use native.Mathlib.Omega.{arith}
use garwarp.Base.Tests.{Bool-cases}
use garwarp.Base.Str.Core.{Text, is_empty, is_whitespace, is_dark, all}
use garwarp.Base.Str.Split.{trim_start, trim_end, trim, flush, cut_words, split_whitespace, join}

abbrev pub is_word : Text → Bool
is_word s = not (is_empty s) && all is_dark s

abbrev pub AreWords : List Text → Type 0
AreWords [] = Unit {0}
AreWords (w ∷ ws) = (is_word w ≡ true) × AreWords ws

cut_words-dark : (w : Text) → all is_dark w ≡ true → cut_words w ≡ (w, [])
cut_words-dark [] h = refl
cut_words-dark (c ∷ w) h = ground (arith, cut_words-dark w)

space : is_whitespace b' ' ≡ true
unfolding is_whitespace
space = refl

cut_words-append :
    (w rest : Text)
    → all is_dark w ≡ true
    → cut_words (w ++ b' ' ∷ rest) ≡ (w, split_whitespace rest)
unfolding split_whitespace
cut_words-append [] rest h = rw space refl
cut_words-append (c ∷ w) rest h = ground (arith, cut_words-append w rest)

pub split_whitespace-word : (w : Text) → is_word w ≡ true → split_whitespace w ≡ w ∷ []
unfolding split_whitespace
split_whitespace-word [] h = cc
split_whitespace-word (c ∷ w) h = ground (arith, cut_words-dark (c ∷ w))

pub split_whitespace-append :
    (w rest : Text)
    → is_word w ≡ true
    → split_whitespace (w ++ b' ' ∷ rest) ≡ w ∷ split_whitespace rest
unfolding split_whitespace
split_whitespace-append [] rest h = cc
split_whitespace-append (c ∷ w) rest h = ground (arith, cut_words-append (c ∷ w) rest)

-- Words joined by spaces are cut into the same words.
pub split_whitespace-join :
    (ws : List Text) → AreWords ws → split_whitespace (join (b' ' ∷ []) ws) ≡ ws
unfolding join
split_whitespace-join [] h = unfold split_whitespace in refl
split_whitespace-join (w ∷ []) h = split_whitespace-word w h.0
split_whitespace-join (w ∷ x ∷ r) h =
    split_whitespace-append w (join (b' ' ∷ []) (x ∷ r)) h.0
    ∙ ap (◌∷◌ w) (split_whitespace-join (x ∷ r) h.1)

split_whitespace-trim_start : (s : Text) → split_whitespace (trim_start s) ≡ split_whitespace s
unfolding split_whitespace trim_start
split_whitespace-trim_start [] = refl
split_whitespace-trim_start (c ∷ s) = ground (arith, split_whitespace-trim_start s)

cut_words-trim_end : (s : Text) → cut_words (trim_end s) ≡ cut_words s
unfolding trim_end
cut_words-trim_end [] = refl
cut_words-trim_end (c ∷ s) = elim (Bool-cases (is_whitespace c && is_empty (trim_end s))) [
  | inl blank ↦ ground (arith, cut_words-trim_end s)
  | inr dark ↦ rw dark (rw (cut_words-trim_end s) refl)
]

-- Trimming does not change the words of a text.
pub split_whitespace-trim : (s : Text) → split_whitespace (trim s) ≡ split_whitespace s
unfolding trim split_whitespace
split_whitespace-trim s =
    ap (λ p. flush p.0 p.1) (cut_words-trim_end (trim_start s)) ∙ split_whitespace-trim_start s

trim_start-dark : (s : Text) → all is_dark s ≡ true → trim_start s ≡ s
unfolding trim_start
trim_start-dark [] h = refl
trim_start-dark (c ∷ s) h = ground arith

trim_end-dark : (s : Text) → all is_dark s ≡ true → trim_end s ≡ s
unfolding trim_end
trim_end-dark [] h = refl
trim_end-dark (c ∷ s) h = ground (arith, trim_end-dark s)

-- A text with no whitespace is its own trimmed form.
pub trim-dark : (s : Text) → all is_dark s ≡ true → trim s ≡ s
unfolding trim
trim-dark s h = ap trim_end (trim_start-dark s h) ∙ trim_end-dark s h

-- Words joined by spaces, with a newline at the end.
abbrev pub line_of : List Text → Text
line_of [] = b'\n' ∷ []
line_of (w ∷ []) = w ++ b'\n' ∷ []
line_of (w ∷ x ∷ r) = w ++ b' ' ∷ line_of (x ∷ r)

newline : is_whitespace b'\n' ≡ true
unfolding is_whitespace
newline = refl

cut_words-newline : (w : Text) → all is_dark w ≡ true → cut_words (w ++ b'\n' ∷ []) ≡ (w, [])
cut_words-newline [] h = rw newline refl
cut_words-newline (c ∷ w) h = ground (arith, cut_words-newline w)

-- A line is cut into its words.
pub split_whitespace-line_of :
    (w : Text) (ws : List Text) → AreWords (w ∷ ws) → split_whitespace (line_of (w ∷ ws)) ≡ w ∷ ws
split_whitespace-line_of [] [] h = cc (h.0)
split_whitespace-line_of (c ∷ w) [] h =
    unfold split_whitespace in ground (arith, cut_words-newline (c ∷ w))
split_whitespace-line_of w (x ∷ r) h =
    split_whitespace-append w (line_of (x ∷ r)) h.0 ∙ ap (◌∷◌ w) (split_whitespace-line_of x r h.1)
