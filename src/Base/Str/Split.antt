-- ===== src/Base/Str/Split.antt =====
-- Trimming, and cutting a text at whitespace or at a character.
use Prim.Native.Nat.{ℕ}
use mathlib.Core.Bool.{◌&&◌}
use mathlib.Core.Option.{Option, none, some}
use mathlib.Core.List.{List, [], ◌∷◌, ◌++◌}
use garwarp.Base.Tests.{◌==◌, if◌then◌else◌}
use garwarp.Base.Str.Core.{Text, is_empty, is_whitespace}

unfoldable pub trim_start : Text → Text
trim_start [] = []
trim_start (c ∷ cs) = let rest = trim_start cs in if is_whitespace c then rest else c ∷ cs

unfoldable pub trim_end : Text → Text
trim_end [] = []
trim_end (c ∷ cs) =
    let rest = trim_end cs in if is_whitespace c && is_empty rest then [] else c ∷ rest

unfoldable pub trim : Text → Text
unfolding trim_start trim_end
trim s = trim_end (trim_start s)

abbrev pub flush : Text → List Text → List Text
flush [] ws = ws
flush (c ∷ cs) ws = (c ∷ cs) ∷ ws

-- The word that the text begins with, if it does not begin with whitespace, and the words after.
abbrev pub cut_words : Text → Text × List Text
cut_words [] = ([], [])
cut_words (c ∷ cs) =
    let (w, ws) = cut_words cs in if is_whitespace c then ([], flush w ws) else (c ∷ w, ws)

unfoldable pub split_whitespace : Text → List Text
split_whitespace s = let (w, ws) = cut_words s in flush w ws

abbrev pub cut : ℕ → Text → Text × List Text
cut sep [] = ([], [])
cut sep (c ∷ cs) = let (p, ps) = cut sep cs in if c == sep then ([], p ∷ ps) else (c ∷ p, ps)

-- `str::split(sep)`: always at least one part.
unfoldable pub split : ℕ → Text → List Text
split sep s = let (p, ps) = cut sep s in p ∷ ps

abbrev pub prepend : ℕ → Option (Text × Text) → Option (Text × Text)
prepend c none = none
prepend c (some (a, b)) = some (c ∷ a, b)

unfoldable pub split_once : ℕ → Text → Option (Text × Text)
split_once sep [] = none
split_once sep (c ∷ cs) =
    let rest = prepend c (split_once sep cs) in if c == sep then some ([], cs) else rest

-- `[Text]::join(sep)`.
unfoldable pub join : Text → List Text → Text
join sep [] = []
join sep (x ∷ []) = x
join sep (x ∷ y ∷ r) = x ++ (sep ++ join sep (y ∷ r))
