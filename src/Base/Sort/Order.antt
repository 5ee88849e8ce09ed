-- ===== src/Base/Sort/Order.antt =====
-- Laws of the order of texts and of sorting by a key.
use mathlib.Core.Path.{◌≡◌, refl}
use mathlib.Core.Logic.{◌≢◌, inl, inr}
use mathlib.Core.Bool.{Bool, true, false, ◌||◌}
use mathlib.Core.List.{List, [], ◌∷◌}
use native.Mathlib.Omega.{arith}
use garwarp.Base.Tests.{Bool-cases}
use garwarp.Base.Str.{Text, text_eq}
use garwarp.Base.Sort.{text_le, insert_by, sort_by}

unfoldable pub contains : Text → List Text → Bool
contains j [] = false
contains j (x ∷ xs) = text_eq x j || contains j xs

pub text_le_total : (a b : Text) → text_le a b ≡ false → text_le b a ≡ true
unfolding text_le
text_le_total [] b h = cc
text_le_total (x ∷ a) [] h = refl
text_le_total (x ∷ a) (y ∷ b) h = ground (arith, text_le_total a b)

pub text_le_antisym : (a b : Text) → text_le a b ≡ true → text_le b a ≡ true → a ≡ b
unfolding text_le
text_le_antisym [] [] h k = refl
text_le_antisym [] (y ∷ b) h k = cc
text_le_antisym (x ∷ a) [] h k = cc
text_le_antisym (x ∷ a) (y ∷ b) h k = ground (arith, text_le_antisym a b)

pub text_le_trans : (a b c : Text) → text_le a b ≡ true → text_le b c ≡ true → text_le a c ≡ true
unfolding text_le
text_le_trans [] b c h k = refl
text_le_trans (x ∷ a) [] c h k = cc
text_le_trans (x ∷ a) (y ∷ b) [] h k = cc
text_le_trans (x ∷ a) (y ∷ b) (z ∷ c) h k = ground (arith, text_le_trans a b c)

contains-insert_by :
    (key : Text → Text) (j x : Text) (xs : List Text)
    → contains j (insert_by key x xs) ≡ (text_eq x j || contains j xs)
unfolding contains insert_by
contains-insert_by key j x [] = refl
contains-insert_by key j x (y ∷ ys) = ground (arith, contains-insert_by key j x ys)

pub contains-sort_by :
    (key : Text → Text) (j : Text) (xs : List Text) → contains j (sort_by key xs) ≡ contains j xs
unfolding contains sort_by
contains-sort_by key j [] = refl
contains-sort_by key j (x ∷ xs) =
    ground (arith, contains-insert_by key j x (sort_by key xs), contains-sort_by key j xs)

module _ {ℓ} {A : Type ℓ} (key : A → Text) where
  -- The keys rise along the list.
  pub data IsSorted : List A → Type ℓ where
    nil : IsSorted []
    one : (x : A) → IsSorted (x ∷ [])
    more :
        (x y : A) (l : List A)
        → text_le (key x) (key y) ≡ true
        → IsSorted (y ∷ l)
        → IsSorted (x ∷ y ∷ l)

module _ {ℓ} {A : Type ℓ} (key : A → Text) where
  insert_by-IsSorted : (x : A) {l : List A} → IsSorted key l → IsSorted key (insert_by key x l)
  unfolding insert_by
  insert_by-IsSorted x nil = one x
  insert_by-IsSorted x (one y) = elim (Bool-cases (text_le (key x) (key y))) [
    | inl le ↦ rw le (more x y [] le (one y))
    | inr gt ↦ rw gt (more y x [] (text_le_total (key x) (key y) gt) (one x))
  ]
  insert_by-IsSorted x (more y z l h s) = elim (Bool-cases (text_le (key x) (key y))) [
    | inl le ↦ rw le (more x y (z ∷ l) le (more y z l h s))
    | inr gt ↦ rw gt (behind (text_le_total (key x) (key y) gt) (insert_by-IsSorted x s))
  ]
    where
      behind :
          text_le (key y) (key x) ≡ true
          → IsSorted key (insert_by key x (z ∷ l))
          → IsSorted key (y ∷ insert_by key x (z ∷ l))
      behind yx s' = elim (Bool-cases (text_le (key x) (key z))) [
        | inl le ↦ rw le (more y x (z ∷ l) yx (more x z l le s))
        | inr gt ↦ rw gt (more y z (insert_by key x l) h (rw gt at s'))
      ]

  pub sort_by-IsSorted : (l : List A) → IsSorted key (sort_by key l)
  unfolding sort_by
  sort_by-IsSorted [] = nil
  sort_by-IsSorted (x ∷ l) = insert_by-IsSorted x (sort_by-IsSorted l)

  pub insert_by_comm :
      (x y : A) (l : List A)
      → key x ≢ key y
      → insert_by key x (insert_by key y l) ≡ insert_by key y (insert_by key x l)
  unfolding insert_by
  insert_by_comm x y [] h =
      ground (arith, text_le_total (key x) (key y), text_le_antisym (key x) (key y))
  insert_by_comm x y (z ∷ l) h = ground (
    arith,
    text_le_total (key x) (key y),
    text_le_antisym (key x) (key y),
    text_le_total (key x) (key z),
    text_le_total (key y) (key z),
    text_le_trans (key x) (key y) (key z),
    text_le_trans (key y) (key x) (key z),
    insert_by_comm x y l,
  )

  -- A sorted list stays as it is.
  pub sort_by-sorted : {l : List A} → IsSorted key l → sort_by key l ≡ l
  unfolding sort_by insert_by
  sort_by-sorted nil = refl
  sort_by-sorted (one x) = refl
  sort_by-sorted (more x y l h s) = rw (sort_by-sorted s, h) refl
