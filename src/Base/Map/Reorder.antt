-- ===== src/Base/Map/Reorder.antt =====
-- Two orders of iteration of one map.
use mathlib.Core.Path.{◌≡◌, refl, ◌∙◌}
use mathlib.Core.Logic.{◌≢◌}
use mathlib.Core.List.{[], ◌∷◌}
use native.Mathlib.Omega.{arith}
use garwarp.Base.Str.{Text, text_eq_iff}
use garwarp.Base.Map.{Map, IsMap, get}
use garwarp.Base.Map.All.{All}

pub data Reorder {ℓ} {V : Type ℓ} : Map V → Map V → Type ℓ where
  nil : Reorder [] []
  cons : (k : Text) (v : V) {m n : Map V} → Reorder m n → Reorder ((k, v) ∷ m) ((k, v) ∷ n)
  swap : (k j : Text) (v w : V) (m : Map V) → Reorder ((k, v) ∷ (j, w) ∷ m) ((j, w) ∷ (k, v) ∷ m)
  trans : {m n o : Map V} → Reorder m n → Reorder n o → Reorder m o

module _ {ℓ} {V : Type ℓ} where
  get-swap :
      (k j : Text) (v w : V) (m : Map V)
      → IsMap ((k, v) ∷ (j, w) ∷ m)
      → (i : Text) → get i ((k, v) ∷ (j, w) ∷ m) ≡ get i ((j, w) ∷ (k, v) ∷ m)
  unfolding get
  get-swap k j v w m h i = ground (arith, text_eq_iff k i, text_eq_iff j i, text_eq_iff j k)

  swap-IsMap :
      (k j : Text) (v w : V) (m : Map V) → IsMap ((k, v) ∷ (j, w) ∷ m) → IsMap ((j, w) ∷ (k, v) ∷ m)
  unfolding get
  swap-IsMap k j v w m h = ground (arith, text_eq_iff k j, text_eq_iff j k)

  ap_get :
      (k : Text) (v : V) (m n : Map V) (i : Text)
      → ((j : Text) → get j m ≡ get j n)
      → get i ((k, v) ∷ m) ≡ get i ((k, v) ∷ n)
  unfolding get
  ap_get k v m n i same = rw (same i)

  pub distinct_keys : (k j : Text) (v w : V) (m : Map V) → IsMap ((k, v) ∷ (j, w) ∷ m) → k ≢ j
  unfolding get
  distinct_keys k j v w m h e = ground (arith, text_eq_iff j k)

  pub get-Reorder :
      {m n : Map V} → Reorder m n → IsMap m → ((i : Text) → get i m ≡ get i n) × IsMap n
  get-Reorder nil h = (λ i. refl, tt)
  get-Reorder (cons k v {m} {n} p) h =
      let (same, n_map) = get-Reorder p h.1 in
      (λ i. ap_get k v m n i same, (rw (← same k) h.0, n_map))
  get-Reorder (swap k j v w m) h = (get-swap k j v w m h, swap-IsMap k j v w m h)
  get-Reorder (trans p q) h =
      let (first, n_map) = get-Reorder p h in
      let (second, o_map) = get-Reorder q n_map in (λ i. first i ∙ second i, o_map)

  pub All-Reorder {κ} : (P : Text → V → Type κ) {m n : Map V} → Reorder m n → All P m → All P n
  All-Reorder P nil h = h
  All-Reorder P (cons k v p) h = (h.0, All-Reorder P p h.1)
  All-Reorder P (swap k j v w m) h = (h.1.0, (h.0, h.1.1))
  All-Reorder P (trans p q) h = All-Reorder P q (All-Reorder P p h)
