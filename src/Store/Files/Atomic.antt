-- ===== src/Store/Files/Atomic.antt =====
-- What `atomic_write` of garwarp/src/request_store.rs leaves behind, wherever it stops.
use mathlib.Core.Path.{subst}
use garwarp.Base.{
  ◌∙◌, if-keeps, sym, some_injective, text_eq_refl, if◌then◌else◌, ℕ, Bool, true, false, Option,
  none, some, [], ◌∷◌, ◌++◌, ◌≡◌, ◌≢◌, ◌⊎◌, inl, inr, refl, arith, ap, Result, ok, err, Text, codes,
  text_eq-ne,
}
use garwarp.Base.Digits.{show_radix}
use garwarp.Base.Map.{get, get-insert_self, insert, remove, get-insert, get-remove, contains_key}
use garwarp.Base.Files.{File, text, Directory, create_new, rename, rename-some}
use garwarp.Store.Files.{
  Writing, IoError, os_error, unique_temp_name, replaced, fill, after_create, atomic_write,
}

-- No text is longer than itself.
pub too_long : (c : ℕ) (s rest : Text) → c ∷ (s ++ rest) ≢ s
too_long c [] rest = λ e. cc e
too_long c (d ∷ s) rest = λ e. too_long d s rest (tail e)
  where
    tail : c ∷ (d ∷ (s ++ rest)) ≡ d ∷ s → d ∷ (s ++ rest) ≡ s
    tail e = cc

unique_temp_name-ne : (name : Text) (w : Writing) → unique_temp_name name w ≢ name
unfolding unique_temp_name
unique_temp_name-ne name w =
    too_long b'.' name (codes ".tmp-" ++ (show_radix 10 w.pid ++ (b'-' ∷ show_radix 10 w.nanos)))

-- Every file is as it was, but for the temporary one.
record IsKept (temp : Text) (d d' : Directory) : Type 0 where
  same : (j : Text) → temp ≢ j → get j d' ≡ get j d

-- The file is as it was and there is an error, or it holds the contents; the other files are as
-- they were, but for the temporary one.
pub record IsAtomic (temp name contents : Text) (d : Directory)
    (r : Directory × Result IoError (Unit {0})) : Type 0 where
  pub either_way :
      ((r.1 ≡ err os_error) × (get name r.0 ≡ get name d))
      ⊎ ((r.1 ≡ ok tt) × (get name r.0 ≡ some (text contents)) × (get temp r.0 ≡ none))
  pub others : (j : Text) → temp ≢ j → name ≢ j → get j r.0 ≡ get j d

module _ (temp name contents : Text) (d : Directory) (apart : temp ≢ name) where
  IsKept-refl : IsKept temp d d
  IsKept-refl = record { same = λ j ne. refl }

  insert-IsKept :
      (file : File) {d' : Directory} → IsKept temp d d' → IsKept temp d (insert temp file d')
  insert-IsKept file {d'} k = record {
    same = λ j ne. ground (arith, get-insert temp j file d', text_eq-ne ne, k.same j ne);
  }

  failed-IsAtomic :
      (d' : Directory) → IsKept temp d d' → IsAtomic temp name contents d (d', err os_error)
  failed-IsAtomic d' k = record {
    either_way = inl (refl, k.same name apart);
    others = λ j ne ne'. k.same j ne;
  }

  create_new-IsKept :
      (allowed : Bool) {d' : Directory} → create_new allowed temp d ≡ some d' → IsKept temp d d'
  unfolding create_new
  create_new-IsKept true {d'} e = made (contains_key temp d) e
    where
      made :
          (b : Bool)
          → (if b then none else some (insert temp (text []) d)) ≡ some d'
          → IsKept temp d d'
      made true e = absurd (cc e)
      made false e = subst (IsKept temp d) (some_injective e) (insert-IsKept (text []) IsKept-refl)
  create_new-IsKept false e = absurd (cc e)

  moved-IsAtomic :
      (d' : Directory)
      → IsKept temp d d'
      → IsAtomic temp name contents d (insert name (text contents) (remove temp d'), ok tt)
  moved-IsAtomic d' k = record {
    either_way = inr (
      refl,
      get-insert_self name (text contents) (remove temp d'),
      ground (
        arith,
        get-insert name temp (text contents) (remove temp d'),
        text_eq-ne (λ e. apart (sym e)),
        get-remove temp temp d',
        text_eq_refl temp,
      ),
    );
    others = λ j ne ne'. ground (
      arith,
      get-insert name j (text contents) (remove temp d'),
      text_eq-ne ne',
      get-remove temp j d',
      text_eq-ne ne,
      k.same j ne,
    );
  }

  replaced-IsAtomic :
      (allowed : Bool) (d' : Directory) (o : Option Directory)
      → get temp d' ≡ some (text contents)
      → rename allowed temp name d' ≡ o
      → IsKept temp d d'
      → IsAtomic temp name contents d (replaced d' o)
  unfolding replaced
  replaced-IsAtomic allowed d' none held e k = failed-IsAtomic d' k
  replaced-IsAtomic allowed d' (some d'') held e k =
      let (file, found, same) = rename-some allowed temp name d' e in
      let whole = some_injective (sym found ∙ held) in
      subst (λ (x : Directory). IsAtomic temp name contents d (x, ok tt))
        (sym (same ∙ ap (λ f. insert name f (remove temp d')) whole)) (moved-IsAtomic d' k)

  fill-IsAtomic :
      (w : Writing) (d' : Directory) (o : Option File)
      → IsKept temp d d'
      → IsAtomic temp name contents d (fill w temp name contents d' o)
  unfolding fill
  fill-IsAtomic w d' (some file) k = failed-IsAtomic (insert temp file d') (insert-IsKept file k)
  fill-IsAtomic w d' none k =
      if-keeps (IsAtomic temp name contents d) w.synced
        (replaced-IsAtomic w.renamed (insert temp (text contents) d') _
          (get-insert_self temp (text contents) d') refl (insert-IsKept (text contents) k))
        (failed-IsAtomic (insert temp (text contents) d') (insert-IsKept (text contents) k))

  after_create-IsAtomic :
      (w : Writing) (o : Option Directory)
      → create_new w.created temp d ≡ o
      → IsAtomic temp name contents d (after_create w temp name contents d o)
  unfolding after_create
  after_create-IsAtomic w none e = failed-IsAtomic d IsKept-refl
  after_create-IsAtomic w (some d') e =
      let k = create_new-IsKept w.created e in
      if-keeps (IsAtomic temp name contents d) w.permitted (fill-IsAtomic w d' w.torn k)
        (failed-IsAtomic d' k)

-- Wherever `atomic_write` stops, for whichever reason, the file still has its old contents and there
-- is an error, or it has all of the new contents, there is none, and the temporary file is gone; no
-- other file is touched.
pub atomic_write-IsAtomic :
    (w : Writing) (name contents : Text) (d : Directory)
    → IsAtomic (unique_temp_name name w) name contents d (atomic_write w name contents d)
unfolding atomic_write
atomic_write-IsAtomic w name contents d =
    let temp = unique_temp_name name w in
    let apart = unique_temp_name-ne name w in
    if-keeps (IsAtomic temp name contents d) w.made_directory
      (after_create-IsAtomic temp name contents d apart w (create_new w.created temp d) refl)
      (failed-IsAtomic temp name contents d apart d (IsKept-refl temp name contents d apart))
