-- ===== src/Store/Reload.antt =====
-- `load_registry` of garwarp/src/request_store.rs on the lines that `persist_registry` writes.
use garwarp.Base.{
  ℕ, suc, false, List, [], ◌∷◌, map, ◌≡◌, refl, ap, ok, Text, split, split-append, trim, is_empty,
  is_whitespace,
}
use garwarp.Base.Map.{insert, contains_key}
use garwarp.Request.Types.{Instant, RequestRecord}
use garwarp.Request.{RequestRegistry, restore_record, restored}
use garwarp.Store.{
  format_record_line, store_lines, strip_cr, terminated, lines, load_line, load_lines,
}
use garwarp.Store.RecordLine.{
  IsStorable, parse_record_line-format, all-format_record_line, strip_cr-format,
}

abbrev pub AllStorable : List RequestRecord → Type 0
AllStorable [] = Unit {0}
AllStorable (saved ∷ rest) = IsStorable saved × AllStorable rest

terminated-split :
    (line s : Text) → terminated (line ∷ split b'\n' s) ≡ strip_cr line ∷ terminated (split b'\n' s)
unfolding split
terminated-split line s = refl

pub lines-store_lines :
    (l : List RequestRecord) → AllStorable l → lines (store_lines l) ≡ map format_record_line l
unfolding lines store_lines
lines-store_lines [] h = unfold split in refl
lines-store_lines (saved ∷ rest) h =
    rw
      (
        split-append b'\n' (format_record_line saved) (store_lines rest)
            (all-format_record_line saved h.0),
        terminated-split (format_record_line saved) (store_lines rest),
        strip_cr-format saved,
      )
      (ap (◌∷◌ (format_record_line saved)) (lines-store_lines rest h.1))

not_blank : (saved : RequestRecord) → is_empty (trim (format_record_line saved)) ≡ false
unfolding format_record_line trim is_whitespace
not_blank saved = refl

-- The registry with one more entry, as `restore_record` leaves it.
unfoldable pub put : Instant → RequestRecord → RequestRegistry → RequestRegistry
put now saved r = record r { entries = insert saved.id (restored saved now) r.entries }

load_line-format :
    (index : ℕ) (now : Instant) (saved : RequestRecord) (r : RequestRegistry)
    → IsStorable saved
    → contains_key saved.id r.entries ≡ false
    → load_line index now (format_record_line saved) r ≡ ok (put now saved r)
unfolding load_line put restore_record
load_line-format index now saved r h fresh =
    rw (not_blank saved, parse_record_line-format saved h, fresh) refl

unfoldable pub reload : Instant → List RequestRecord → RequestRegistry → RequestRegistry
reload now [] r = r
reload now (saved ∷ rest) r = reload now rest (put now saved r)

unfoldable pub Fresh : Instant → List RequestRecord → RequestRegistry → Type 0
Fresh now [] r = Unit {0}
Fresh now (saved ∷ rest) r =
    (contains_key saved.id r.entries ≡ false) × Fresh now rest (put now saved r)

pub load_lines-format :
    (index : ℕ) (now : Instant) (l : List RequestRecord) (r : RequestRegistry)
    → AllStorable l
    → Fresh now l r
    → load_lines index now (map format_record_line l) r ≡ ok (reload now l r)
unfolding load_lines reload Fresh
load_lines-format index now [] r h fresh = refl
load_lines-format index now (saved ∷ rest) r h fresh =
    rw (load_line-format index now saved r h.0 fresh.0)
      (load_lines-format (suc index) now rest (put now saved r) h.1 fresh.1)
