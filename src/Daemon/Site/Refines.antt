-- ===== src/Daemon/Site/Refines.antt =====
-- The daemon with its directory against the daemon with the text of its store.
use garwarp.Base.{Option, none, some, List, ◌≡◌, inl, inr, refl, ◌∙◌, ap, Result, ok, err, Text}
use garwarp.Base.Map.{get}
use garwarp.Base.Files.{File, text, Directory}
use garwarp.Request.Types.{Duration}
use garwarp.Request.{RequestRegistry}
use garwarp.Store.{LoadError, store_text}
use garwarp.Store.Files.{Writing, persist_registry}
use garwarp.Store.Files.Atomic.{IsAtomic, atomic_write-IsAtomic}
use garwarp.Daemon.State.{
  System, persist, load_registry_with_recovery, load_registry_with_fallback, or_empty, loaded,
  start,
}
use garwarp.Daemon.Site.{
  Site, succeeds, persist_in, store_file, Starting, loaded_or_new, load_in, loaded_in, start_in,
}

-- The text of the store, if there is one.
abbrev text_of : Option File → Option Text
text_of (some (text contents)) = some contents
text_of _ = none

-- The daemon with the text of its store.
abbrev pub seen : Text → Site → System
seen name y = record { daemon = y.daemon; store = text_of (get name y.files) }

-- With the real calls of the file system, one `persist_registry_state` either replaces the text of
-- the store or leaves it, as its result says.
pub persist_in-refines :
    (name : Text) (w : Writing) (y : Site)
    → seen name (persist_in name w y)
      ≡ persist (succeeds (persist_registry w name y.daemon.requests y.files).1) (seen name y)
unfolding persist_in persist_registry persist
persist_in-refines name w y =
    elim (IsAtomic.either_way
      (atomic_write-IsAtomic w name (store_text y.daemon.requests) y.files)) [
        | inl failed ↦ rw (failed.0, failed.1) refl
        | inr written ↦ rw (written.0, written.1) refl
      ]

loaded_or_new-agrees :
    (name : Text) (s : Starting) (timeout : Duration) (d : Directory)
    (o : Result LoadError (RequestRegistry × List Text))
    → (loaded_or_new name s timeout d o).1 ≡ or_empty timeout o
unfolding loaded_or_new
loaded_or_new-agrees name s timeout d (ok (r, ids)) = refl
loaded_or_new-agrees name s timeout d (err e) = refl

loaded_in-refines :
    (name : Text) (s : Starting) (timeout : Duration) (d : Directory)
    → seen name (loaded_in name s timeout d)
      ≡ loaded
          (store_file s.readable (get name d))
          timeout
          s.loaded_at
          s.recovered_at
          (text_of (get name (load_in name s timeout d).0))
unfolding loaded_in loaded load_in load_registry_with_fallback
loaded_in-refines name s timeout d =
    rw
      (loaded_or_new-agrees name s timeout d (
        load_registry_with_recovery (store_file s.readable (get name d)) timeout s.loaded_at
          s.recovered_at))
      refl

-- The start with the directory is the start with what `load_registry` reads there.
pub start_in-refines :
    (name : Text) (s : Starting) (timeout : Duration) (d : Directory)
    → let y = loaded_in name s timeout d in
      seen name (start_in name s timeout d)
      ≡ start
          (store_file s.readable (get name d))
          timeout
          s.loaded_at
          s.recovered_at
          (seen name y).store
          (succeeds (persist_registry s.writing name y.daemon.requests y.files).1)
unfolding start_in start
start_in-refines name s timeout d =
    persist_in-refines name s.writing (loaded_in name s timeout d)
    ∙ ap (persist _) (loaded_in-refines name s timeout d)
