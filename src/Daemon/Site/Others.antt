-- ===== src/Daemon/Site/Others.antt =====
-- The files that are not the store of garwarp/src/daemon.rs, nor one of its temporary or quarantined
-- copies.
use garwarp.Base.{
  ℕ, Bool, Option, none, some, List, ◌≡◌, ◌≢◌, refl, ◌∙◌, ap, arith, Result, ok, err, Text,
  text_eq-ne, if-keeps,
}
use garwarp.Base.Map.{get, remove, get-insert, get-remove, contains_key}
use garwarp.Base.Files.{Directory, rename, rename-some}
use garwarp.Request.Types.{Duration}
use garwarp.Request.{RequestRegistry}
use garwarp.Store.{LoadError, store_text}
use garwarp.Store.Files.{Writing, IoError, persist_registry, unique_temp_name}
use garwarp.Store.Files.Atomic.{atomic_write-IsAtomic}
use garwarp.Daemon.State.{load_registry_with_recovery}
use garwarp.Daemon.Site.{
  Site, persist_in, store_file, quarantined_name, put_aside, quarantine_request_store, Starting,
  loaded_or_new, load_in, loaded_in, start_in,
}

-- A name that no write of the store and no quarantine of it uses.
pub record IsApart (name j : Text) : Type 0 where
  pub store : name ≢ j
  pub temp : (w : Writing) → unique_temp_name name w ≢ j
  pub quarantined : (nanos : ℕ) → quarantined_name name nanos ≢ j

pub persist_in-others :
    (name j : Text) (w : Writing) (y : Site)
    → unique_temp_name name w ≢ j
    → name ≢ j
    → get j (persist_in name w y).files ≡ get j y.files
unfolding persist_in persist_registry
persist_in-others name j w y =
    (atomic_write-IsAtomic w name (store_text y.daemon.requests) y.files).others j

module _ (name j : Text) (apart : IsApart name j) where
  put_aside-others :
      (allowed : Bool) (nanos : ℕ) (d : Directory) (o : Option Directory)
      → rename allowed name (quarantined_name name nanos) d ≡ o
      → get j (put_aside (quarantined_name name nanos) d o).0 ≡ get j d
  unfolding put_aside
  put_aside-others allowed nanos d none e = refl
  put_aside-others allowed nanos d (some d') e =
      let q = quarantined_name name nanos in
      let (file, found, moved) = rename-some allowed name q d e in
      ap (get j) moved
      ∙ ground (
        arith,
        get-insert q j file (remove name d),
        text_eq-ne (apart.quarantined nanos),
        get-remove name j d,
        text_eq-ne apart.store,
      )

  quarantine_request_store-others :
      (allowed : Bool) (nanos : ℕ) (d : Directory)
      → get j (quarantine_request_store allowed nanos name d).0 ≡ get j d
  unfolding quarantine_request_store
  quarantine_request_store-others allowed nanos d =
      if-keeps (λ (p : Directory × Result IoError (Option Text)). get j p.0 ≡ get j d)
        (contains_key name d)
        (put_aside-others allowed nanos d (rename allowed name (quarantined_name name nanos) d)
          refl)
        refl

  loaded_or_new-others :
      (s : Starting) (timeout : Duration) (d : Directory)
      (o : Result LoadError (RequestRegistry × List Text))
      → get j (loaded_or_new name s timeout d o).0 ≡ get j d
  unfolding loaded_or_new
  loaded_or_new-others s timeout d (ok p) = refl
  loaded_or_new-others s timeout d (err e) = quarantine_request_store-others s.renamed s.nanos d

  pub start_in-others :
      (s : Starting) (timeout : Duration) (d : Directory)
      → get j (start_in name s timeout d).files ≡ get j d
  unfolding start_in loaded_in load_in
  start_in-others s timeout d =
      persist_in-others name j s.writing (loaded_in name s timeout d) (apart.temp s.writing)
        apart.store
      ∙ loaded_or_new-others s timeout d (
          load_registry_with_recovery (store_file s.readable (get name d)) timeout s.loaded_at
            s.recovered_at)
