-- ===== src/Request/Lookup.antt =====
-- What each operation leaves at an id: the entry that `get` finds there, on every branch.
use garwarp.Base.{
  Bool, true, not, ◌&&◌, Option, none, some, [], ◌∷◌, ◌≡◌, refl, arith, Text, text_eq,
  if◌then◌else◌,
}
use garwarp.Base.Map.{Map, IsMap, get, get-insert, get-retain}
use garwarp.Window.{ParentWindowContext}
use garwarp.Request.Types.{
  Instant, Duration, RequestOwner, RequestState, is_terminal, RequestEntry, RequestRecord,
}
use garwarp.Request.{
  RequestRegistry, begin_at, restore_record, transition_entry, transition_found, transition_at,
  expire_where, expire_entry, is_stale, expire_stale, recover_after_restart, prune_terminal,
  should_remove, new_entry, restored,
}

-- The entry at an id, if there is one.
unfoldable pub entry_at : RequestRegistry → Text → Option RequestEntry
entry_at r id = get id r.entries

abbrev put_at : Text → Text → RequestEntry → Option RequestEntry → Option RequestEntry
put_at id j entry old = if text_eq id j then some entry else old

pub entry_at-begin_at :
    (id j : Text) (owner : RequestOwner) (parent : Option ParentWindowContext) (now : Instant)
    (r : RequestRegistry)
    → entry_at (begin_at id owner parent now r).0 j ≡ elim (entry_at r id) [
      | none ↦ put_at id j (new_entry id owner parent now) (entry_at r j)
      | some old ↦ entry_at r j
    ]
unfolding entry_at begin_at
entry_at-begin_at id j owner parent now r =
    ground (arith, get-insert id j (new_entry id owner parent now) r.entries)

pub entry_at-restore_record :
    (saved : RequestRecord) (j : Text) (now : Instant) (r : RequestRegistry)
    → entry_at (restore_record saved now r).0 j ≡ elim (entry_at r saved.id) [
      | none ↦ put_at saved.id j (restored saved now) (entry_at r j)
      | some old ↦ entry_at r j
    ]
unfolding entry_at restore_record
entry_at-restore_record saved j now r =
    ground (arith, get-insert saved.id j (restored saved now) r.entries)

pub entry_at-transition_at :
    (id j : Text) (owner : RequestOwner) (target : RequestState) (now : Instant)
    (r : RequestRegistry)
    → entry_at (transition_at id owner target now r).0 j ≡ elim (entry_at r id) [
      | none ↦ entry_at r j
      | some entry ↦ put_at id j (transition_entry id owner target now entry).0 (entry_at r j)
    ]
unfolding entry_at transition_at transition_found
entry_at-transition_at id j owner target now r = found (get id r.entries)
  where
    found :
        (o : Option RequestEntry)
        → get j (transition_found id owner target now r o).0.entries ≡ elim o [
          | none ↦ get j r.entries
          | some entry ↦
              put_at id j (transition_entry id owner target now entry).0 (get j r.entries)
        ]
    found none = refl
    found (some entry) = get-insert id j (transition_entry id owner target now entry).0 r.entries

-- The loops of expiry at one entry.
unfoldable pub expire_if : (RequestEntry → Bool) → Instant → RequestEntry → RequestEntry
expire_if due now entry =
    if not (is_terminal entry.state) && due entry then expire_entry now entry else entry

abbrev pub at_some : (RequestEntry → RequestEntry) → Option RequestEntry → Option RequestEntry
at_some f none = none
at_some f (some entry) = some (f entry)

pub get-expire_where :
    (due : RequestEntry → Bool) (now : Instant) (j : Text) (m : Map RequestEntry)
    → get j (expire_where due now m).0 ≡ at_some (expire_if due now) (get j m)
unfolding expire_where get expire_if
get-expire_where due now j [] = refl
get-expire_where due now j ((k, entry) ∷ m) = ground (arith, get-expire_where due now j m)

pub entry_at-expire_stale :
    (now : Instant) (j : Text) (r : RequestRegistry)
    → entry_at (expire_stale now r).0 j
      ≡ at_some (expire_if (is_stale r.timeout now) now) (entry_at r j)
unfolding entry_at expire_stale
entry_at-expire_stale now j r = get-expire_where (is_stale r.timeout now) now j r.entries

pub entry_at-recover_after_restart :
    (now : Instant) (j : Text) (r : RequestRegistry)
    → entry_at (recover_after_restart now r).0 j
      ≡ at_some (expire_if (λ _. true) now) (entry_at r j)
unfolding entry_at recover_after_restart
entry_at-recover_after_restart now j r = get-expire_where (λ _. true) now j r.entries

pub entry_at-prune_terminal :
    (now : Instant) (retention : Duration) (j : Text) (r : RequestRegistry)
    → IsMap r.entries
    → entry_at (prune_terminal now retention r).0 j ≡ elim (entry_at r j) [
      | none ↦ none
      | some entry ↦ if not (should_remove now retention entry) then some entry else none
    ]
unfolding entry_at prune_terminal
entry_at-prune_terminal now retention j r distinct =
    get-retain (λ entry. not (should_remove now retention entry)) j r.entries distinct
