-- ===== src/Base/Map/All.antt =====
-- What holds of every pair of a map.
use mathlib.Core.Path.{◌≡◌, sym, subst, subst₂}
use mathlib.Core.Bool.{Bool, true}
use mathlib.Core.Option.{some}
use mathlib.Core.List.{[], ◌∷◌}
use mathlib.Core.Logic.{inl, inr}
use garwarp.Base.Tests.{Bool-cases}
use garwarp.Base.Str.{Text, text_eq, text_eq_iff}
use garwarp.Base.Map.{Map, get, insert, retain}

abbrev pub All {ℓ κ} : {V : Type ℓ} → (Text → V → Type κ) → Map V → Type κ
All P [] = Unit
All P ((k, v) ∷ m) = P k v × All P m

module _ {ℓ κ} {V : Type ℓ} (P : Text → V → Type κ) where
  pub All-get : (k : Text) (m : Map V) {v : V} → All P m → get k m ≡ some v → P k v
  unfolding get
  All-get k [] h e = absurd (cc e)
  All-get k ((j, w) ∷ m) {v} h e = elim (Bool-cases (text_eq j k)) [
    | inl same ↦
        let found : some w ≡ some v = rw same at e in
        let value : w ≡ v = cc found in subst₂ P ((text_eq_iff j k).0 same) value h.0
    | inr other ↦ All-get k m h.1 (rw other at e)
  ]

  pub All-insert : (k : Text) (v : V) (m : Map V) → P k v → All P m → All P (insert k v m)
  unfolding insert
  All-insert k v [] p h = (p, tt)
  All-insert k v ((j, w) ∷ m) p h = elim (Bool-cases (text_eq j k)) [
    | inl same ↦ rw same (subst (λ x. P x v) (sym ((text_eq_iff j k).0 same)) p, h.1)
    | inr other ↦ rw other (h.0, All-insert k v m p h.1)
  ]

  pub All-retain : (p : V → Bool) (m : Map V) → All P m → All P (retain p m)
  unfolding retain
  All-retain p [] h = h
  All-retain p ((j, w) ∷ m) h = elim (Bool-cases (p w)) [
    | inl kept ↦ rw kept (h.0, All-retain p m h.1)
    | inr gone ↦ rw gone (All-retain p m h.1)
  ]

module _ {ℓ κ} {V : Type ℓ} (P Q : Text → V → Type κ) where
  pub All-mono : (m : Map V) → ((k : Text) (v : V) → P k v → Q k v) → All P m → All Q m
  All-mono [] f h = tt
  All-mono ((k, v) ∷ m) f h = (f k v h.0, All-mono m f h.1)

  pub All-both : (m : Map V) → All P m → All Q m → All (λ k v. P k v × Q k v) m
  All-both [] h g = tt
  All-both ((k, v) ∷ m) h g = ((h.0, g.0), All-both m h.1 g.1)

-- What is retained has passed the test.
pub All-retained {ℓ} :
    {V : Type ℓ} (p : V → Bool) (m : Map V) → All (λ k v. p v ≡ true) (retain p m)
unfolding retain
All-retained p [] = tt
All-retained p ((k, v) ∷ m) = elim (Bool-cases (p v)) [
  | inl kept ↦ rw kept (kept, All-retained p m)
  | inr gone ↦ rw gone (All-retained p m)
]
