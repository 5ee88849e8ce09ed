-- ===== src/Store/RoundTrip.antt =====
-- `load_registry` of garwarp/src/request_store.rs on what `persist_registry` writes of a registry.
use garwarp.Base.{
  false, List, [], ◌∷◌, ◌++◌, map, ◌≡◌, refl, arith, ap, ◌∙◌, ok, Bool-cases, inl, inr, Text,
  text_eq_iff,
}
use garwarp.Base.Map.{Map, IsMap, get, get-insert, insert, contains_key, values}
use garwarp.Base.Map.All.{All}
use garwarp.Base.Sort.{sort_by, insert_by, text_le}
use garwarp.Base.Sort.Order.{contains, sort_by-sorted}
use garwarp.Request.Types.{Instant, Duration, RequestEntry, RequestRecord}
use garwarp.Request.{RequestRegistry, new, records, to_record, restored}
use garwarp.Request.Invariant.{IsWf, IsKeyed}
use garwarp.Request.Records.{record_id, contains-insert_by, contains-records, records-IsSorted}
use garwarp.Store.{store_text, load_registry, body}
use garwarp.Store.RecordLine.{IsStorable}
use garwarp.Store.Reload.{AllStorable, lines-store_lines, put, reload, Fresh, load_lines-format}

-- No id stands twice.
AreDistinct : List RequestRecord → Type 0
AreDistinct [] = Unit {0}
AreDistinct (saved ∷ rest) = (contains saved.id (map record_id rest) ≡ false) × AreDistinct rest

insert_by-AreDistinct :
    (saved : RequestRecord) (l : List RequestRecord)
    → contains saved.id (map record_id l) ≡ false
    → AreDistinct l
    → AreDistinct (insert_by record_id saved l)
unfolding AreDistinct insert_by contains
insert_by-AreDistinct saved [] h d = (refl, tt)
insert_by-AreDistinct saved (x ∷ l) h d = ground (
  arith,
  text_eq_iff saved.id x.id,
  text_eq_iff x.id saved.id,
  contains-insert_by x.id saved l,
  insert_by-AreDistinct saved l,
)

sorted-AreDistinct :
    (m : Map RequestEntry)
    → All IsKeyed m
    → IsMap m
    → AreDistinct (sort_by record_id (map to_record (values m)))
unfolding AreDistinct sort_by values to_record
sorted-AreDistinct [] k h = tt
sorted-AreDistinct ((id, entry) ∷ m) k h =
    insert_by-AreDistinct (to_record entry) (sort_by record_id (map to_record (values m)))
      (rw (contains-records entry.id m k.1, k.0) (h.0)) (sorted-AreDistinct m k.1 h.1)

pairs : Instant → List RequestRecord → Map RequestEntry
pairs now [] = []
pairs now (saved ∷ rest) = (saved.id, restored saved now) ∷ pairs now rest

insert-fresh :
    (k : Text) (v : RequestEntry) (m rest : Map RequestEntry)
    → contains_key k m ≡ false
    → insert k v m ++ rest ≡ m ++ ((k, v) ∷ rest)
unfolding insert get
insert-fresh k v [] rest h = refl
insert-fresh k v ((j, w) ∷ m) rest h = ground (arith, insert-fresh k v m rest)

nothing_behind : (m : Map RequestEntry) → m ≡ m ++ []
nothing_behind [] = refl
nothing_behind (p ∷ m) = ap (◌∷◌ p) (nothing_behind m)

-- None of the ids is taken.
Free : List RequestRecord → Map RequestEntry → Type 0
Free [] m = Unit {0}
Free (saved ∷ rest) m = (contains_key saved.id m ≡ false) × Free rest m

Free-put :
    (now : Instant) (saved : RequestRecord) (l : List RequestRecord) (r : RequestRegistry)
    → contains saved.id (map record_id l) ≡ false
    → Free l r.entries
    → Free l (put now saved r).entries
unfolding Free contains put
Free-put now saved [] r h free = tt
Free-put now saved (x ∷ l) r h free = ground (
  arith,
  get-insert saved.id x.id (restored saved now) r.entries,
  text_eq_iff saved.id x.id,
  text_eq_iff x.id saved.id,
  Free-put now saved l r,
)

Free-Fresh :
    (now : Instant) (l : List RequestRecord) (r : RequestRegistry)
    → AreDistinct l
    → Free l r.entries
    → Fresh now l r
unfolding Free Fresh AreDistinct
Free-Fresh now [] r d free = tt
Free-Fresh now (saved ∷ rest) r d free =
    (free.0, Free-Fresh now rest (put now saved r) d.1 (Free-put now saved rest r d.0 free.1))

Free-empty : (l : List RequestRecord) → Free l []
unfolding Free get
Free-empty [] = tt
Free-empty (saved ∷ rest) = (refl, Free-empty rest)

entries-reload :
    (now : Instant) (l : List RequestRecord) (r : RequestRegistry)
    → Fresh now l r
    → (reload now l r).entries ≡ r.entries ++ pairs now l
unfolding reload Fresh pairs put
entries-reload now [] r fresh = nothing_behind r.entries
entries-reload now (saved ∷ rest) r fresh =
    entries-reload now rest (put now saved r) fresh.1
    ∙ insert-fresh saved.id (restored saved now) r.entries (pairs now rest) fresh.0

records-pairs : (now : Instant) (l : List RequestRecord) → map to_record (values (pairs now l)) ≡ l
unfolding pairs values to_record restored
records-pairs now [] = refl
records-pairs now (saved ∷ rest) = ap (◌∷◌ saved) (records-pairs now rest)

-- What is stored of every entry is storable.
abbrev pub IsStorableEntry : Text → RequestEntry → Type 0
IsStorableEntry id entry = IsStorable (to_record entry)

insert_by-AllStorable :
    (saved : RequestRecord) (l : List RequestRecord)
    → IsStorable saved
    → AllStorable l
    → AllStorable (insert_by record_id saved l)
unfolding insert_by
insert_by-AllStorable saved [] h k = (h, tt)
insert_by-AllStorable saved (x ∷ l) h k = elim (Bool-cases (text_le saved.id x.id)) [
  | inl le ↦ rw le (h, k)
  | inr gt ↦ rw gt (k.0, insert_by-AllStorable saved l h k.1)
]

sorted-AllStorable :
    (m : Map RequestEntry)
    → All IsStorableEntry m
    → AllStorable (sort_by record_id (map to_record (values m)))
unfolding sort_by values to_record
sorted-AllStorable [] h = tt
sorted-AllStorable ((id, entry) ∷ m) h =
    insert_by-AllStorable (to_record entry) (sort_by record_id (map to_record (values m))) h.0
      (sorted-AllStorable m h.1)

module _ (r : RequestRegistry) (timeout : Duration) (now : Instant) (wf : IsWf r)
    (storable : All IsStorableEntry r.entries) where
  reloaded : RequestRegistry
  reloaded = reload now (records r) (new timeout)

  records-Fresh : Fresh now (records r) (new timeout)
  unfolding records new
  records-Fresh =
      Free-Fresh now (records r) (new timeout) (sorted-AreDistinct r.entries wf.keyed wf.distinct)
        (Free-empty (records r))

  load_registry-reloaded : load_registry (body (store_text r)) timeout now ≡ ok reloaded
  unfolding load_registry store_text reloaded records
  load_registry-reloaded =
      rw (lines-store_lines (records r) (sorted-AllStorable r.entries storable)) (
        load_lines-format 0 now (records r) (new timeout) (sorted-AllStorable r.entries storable)
          records-Fresh)

  records-reloaded : records reloaded ≡ records r
  unfolding records reloaded new
  records-reloaded =
      rw (entries-reload now (records r) (new timeout) records-Fresh, records-pairs now (records r))
        (sort_by-sorted record_id (records-IsSorted r))

  -- The store of a well-formed registry with storable records is read back, and the registry that
  -- is read has the same records.
  pub load_registry-store_text :
      (r' : RequestRegistry) × (load_registry (body (store_text r)) timeout now ≡ ok r')
      × (records r' ≡ records r)
  load_registry-store_text = (reloaded, load_registry-reloaded, records-reloaded)
