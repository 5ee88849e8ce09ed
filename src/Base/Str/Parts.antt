-- ===== src/Base/Str/Parts.antt =====
-- Laws of `split`, `split_once` and of parts joined by one character.
use Prim.Native.Nat.{ℕ}
use mathlib.Core.Path.{◌≡◌, refl, ap, ◌∙◌}
use mathlib.Core.Bool.{Bool, true, false, not, ◌&&◌}
use mathlib.Core.Option.{Option, none, some}
use mathlib.Core.List.{List, [], ◌∷◌, ◌++◌}
use native.Mathlib.Omega.{arith}
use garwarp.Base.Tests.{◌==◌, if◌then◌else◌}
use garwarp.Base.Str.Core.{Text, all}
use garwarp.Base.Str.Split.{cut, split, split_once, join, prepend}

abbrev pub is_not : ℕ → ℕ → Bool
is_not sep c = not (c == sep)

abbrev pub LackAll : ℕ → List Text → Type 0
LackAll sep [] = Unit {0}
LackAll sep (p ∷ ps) = (all (is_not sep) p ≡ true) × LackAll sep ps

cut-lack : (sep : ℕ) (p : Text) → all (is_not sep) p ≡ true → cut sep p ≡ (p, [])
cut-lack sep [] h = refl
cut-lack sep (c ∷ p) h = ground (arith, cut-lack sep p)

cut-append :
    (sep : ℕ) (p rest : Text)
    → all (is_not sep) p ≡ true
    → cut sep (p ++ sep ∷ rest) ≡ (p, split sep rest)
unfolding split
cut-append sep [] rest h = ground arith
cut-append sep (c ∷ p) rest h = ground (arith, cut-append sep p rest)

pub split-lack : (sep : ℕ) (p : Text) → all (is_not sep) p ≡ true → split sep p ≡ p ∷ []
unfolding split
split-lack sep p h = rw (cut-lack sep p h)

pub split-append :
    (sep : ℕ) (p rest : Text)
    → all (is_not sep) p ≡ true
    → split sep (p ++ sep ∷ rest) ≡ p ∷ split sep rest
unfolding split
split-append sep p rest h = ap (λ q. q.0 ∷ q.1) (cut-append sep p rest h)

-- Parts joined by a character that none of them holds are cut into the same parts.
pub split-join :
    (sep : ℕ) (p : Text) (ps : List Text)
    → LackAll sep (p ∷ ps)
    → split sep (join (sep ∷ []) (p ∷ ps)) ≡ p ∷ ps
unfolding join
split-join sep p [] h = split-lack sep p h.0
split-join sep p (q ∷ ps) h =
    split-append sep p (join (sep ∷ []) (q ∷ ps)) h.0 ∙ ap (◌∷◌ p) (split-join sep q ps h.1)

pub split_once-append :
    (sep : ℕ) (k v : Text) → all (is_not sep) k ≡ true → split_once sep (k ++ sep ∷ v) ≡ some (k, v)
unfolding split_once
split_once-append sep [] v h = ground arith
split_once-append sep (c ∷ k) v h = ground (arith, split_once-append sep k v)

-- Every part passes the test.
abbrev pub AllOf : (ℕ → Bool) → List Text → Type 0
AllOf p [] = Unit {0}
AllOf p (s ∷ ss) = (all p s ≡ true) × AllOf p ss

-- The parts hold characters of the text, and not the one at which it is cut.
pub split-AllOf :
    (p : ℕ → Bool) (sep : ℕ) (s : Text)
    → all p s ≡ true
    → AllOf (λ c. p c && is_not sep c) (split sep s)
unfolding split
split-AllOf p sep [] h = (refl, tt)
split-AllOf p sep (c ∷ s) h = ground (arith, split-AllOf p sep s)

pub split_once-all :
    (p : ℕ → Bool) (sep : ℕ) (s k v : Text)
    → split_once sep s ≡ some (k, v)
    → all p s ≡ true
    → all p v ≡ true
unfolding split_once
split_once-all p sep [] k v e h = absurd (cc e)
split_once-all p sep (c ∷ s) k v e h =
    found (split_once sep s) (λ a b same. split_once-all p sep s a b same (ground arith)) (c == sep)
      e
  where
    found :
        (o : Option (Text × Text))
        → ((a b : Text) → o ≡ some (a, b) → all p b ≡ true)
        → (b : Bool) → (if b then some ([], s) else prepend c o) ≡ some (k, v)
        → all p v ≡ true
    found o ih true e' = ground arith
    found none ih false e' = absurd (cc e')
    found (some (a, b)) ih false e' = ground (arith, ih a b refl)
