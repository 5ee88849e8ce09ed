-- ===== src/Base/Sort.antt =====
-- The order of texts, and sorting by a text key as `sort_by` and `sort` do it: equal keys keep
-- their order.
pub mod Order
use mathlib.Core.Bool.{Bool, true, false}
use mathlib.Core.List.{List, [], ◌∷◌}
use garwarp.Base.Tests.{ltb, ◌==◌, if◌then◌else◌}
use garwarp.Base.Str.{Text}

-- The order of texts, by their characters; it is also that of their bytes in UTF-8.
unfoldable pub text_le : Text → Text → Bool
text_le [] b = true
text_le (x ∷ a) [] = false
text_le (x ∷ a) (y ∷ b) = let rest = text_le a b in if x == y then rest else ltb x y

module _ {ℓ} {A : Type ℓ} (key : A → Text) where
  unfoldable pub insert_by : A → List A → List A
  insert_by x [] = x ∷ []
  insert_by x (y ∷ ys) = if text_le (key x) (key y) then x ∷ y ∷ ys else y ∷ insert_by x ys

  unfoldable pub sort_by : List A → List A
  sort_by [] = []
  sort_by (x ∷ xs) = insert_by x (sort_by xs)
