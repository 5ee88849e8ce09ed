-- ===== src/Request.antt =====
-- garwarp/src/request.rs: the registry of requests and the operations on it. A method that mutates
-- the registry returns the new one beside its result. The proofs are in the modules below.
pub mod Types
pub mod Invariant
pub mod Machine
pub mod Lookup
pub mod History
pub mod Counts
pub mod Expiry
pub mod Records
pub mod Transition
pub mod Examples
use garwarp.Base.{
  ℕ, zero, suc, ◌+◌, ◌-◌, Bool, true, false, not, ◌&&◌, Option, none, some, List, [], ◌∷◌, map,
  Result, ok, err, Text, leb, if◌then◌else◌, length,
}
use garwarp.Base.Map.{Map, get, insert, contains_key, retain, values}
use garwarp.Base.Sort.{sort_by}
use garwarp.Window.{ParentWindowContext}
use garwarp.Request.Types.{
  Instant, Duration, RequestOwner, owner_eq, RequestState, pending, awaiting_user, fulfilled,
  cancelled, failed, expired, is_terminal, state_eq, RequestEntry, RequestRecord, RequestError,
  already_exists, not_found, owner_mismatch, invalid_transition,
}

pub record RequestRegistry : Type 0 where
  pub entries : Map RequestEntry
  pub timeout : Duration

abbrev pub Reply : Type 0
Reply = RequestRegistry × Result RequestError (Unit {0})

-- `RequestRegistry::new`.
unfoldable pub new : Duration → RequestRegistry
new timeout = record { entries = []; timeout = timeout }

-- `RequestEntry::new`.
unfoldable pub new_entry : Text → RequestOwner → Option ParentWindowContext → Instant → RequestEntry
new_entry id owner parent_window now = record {
  id = id;
  owner = owner;
  parent_window = parent_window;
  state = pending;
  started_at = now;
  last_updated_at = now;
}

-- `begin`, with the time of its call to the clock.
unfoldable pub begin_at :
    Text → RequestOwner → Option ParentWindowContext → Instant → RequestRegistry → Reply
unfolding new_entry
begin_at id owner parent_window now r =
    if contains_key id r.entries
    then (r, err (already_exists id))
    else (record r { entries = insert id (new_entry id owner parent_window now) r.entries }, ok tt)

unfoldable pub restored : RequestRecord → Instant → RequestEntry
restored saved now = record {
  id = saved.id;
  owner = saved.owner;
  parent_window = saved.parent_window;
  state = saved.state;
  started_at = now;
  last_updated_at = now;
}

unfoldable pub restore_record : RequestRecord → Instant → RequestRegistry → Reply
unfolding restored
restore_record saved now r =
    if contains_key saved.id r.entries
    then (r, err (already_exists saved.id))
    else (record r { entries = insert saved.id (restored saved now) r.entries }, ok tt)

unfoldable pub is_valid_transition : RequestState → RequestState → Bool
is_valid_transition pending awaiting_user = true
is_valid_transition pending cancelled = true
is_valid_transition pending failed = true
is_valid_transition pending expired = true
is_valid_transition awaiting_user fulfilled = true
is_valid_transition awaiting_user cancelled = true
is_valid_transition awaiting_user failed = true
is_valid_transition awaiting_user expired = true
is_valid_transition _ _ = false

-- The body of `transition_at` behind the lookup: the entry as it is left, and the result.
unfoldable pub transition_entry :
    Text
    → RequestOwner
    → RequestState
    → Instant
    → RequestEntry
    → RequestEntry × Result RequestError (Unit {0})
unfolding is_valid_transition
transition_entry id owner target now entry =
    if not (owner_eq entry.owner owner)
    then (entry, err (owner_mismatch id))
    else if state_eq entry.state target
    then (record entry { last_updated_at = now }, ok tt)
    else if not (is_valid_transition entry.state target)
    then (entry, err (invalid_transition id entry.state target))
    else (record entry { state = target; last_updated_at = now }, ok tt)

-- `transition_at` behind the lookup of the id.
unfoldable pub transition_found :
    Text → RequestOwner → RequestState → Instant → RequestRegistry → Option RequestEntry → Reply
transition_found id owner target now r none = (r, err (not_found id))
transition_found id owner target now r (some entry) =
    let (entry', result) = transition_entry id owner target now entry in
    (record r { entries = insert id entry' r.entries }, result)

-- `transition`, with the time of its call to the clock.
unfoldable pub transition_at :
    Text → RequestOwner → RequestState → Instant → RequestRegistry → Reply
unfolding transition_found
transition_at id owner target now r = transition_found id owner target now r (get id r.entries)

-- The effect of the loops of `expire_stale` and `recover_after_restart` on one entry that passes
-- the test, and the ids that they push.
abbrev pub expire_entry : Instant → RequestEntry → RequestEntry
expire_entry now entry = record entry { state = expired; last_updated_at = now }

unfoldable pub expire_where :
    (RequestEntry → Bool) → Instant → Map RequestEntry → Map RequestEntry × List Text
expire_where due now [] = ([], [])
expire_where due now ((id, entry) ∷ m) =
    let (m', ids) = expire_where due now m in
    if is_terminal entry.state
    then ((id, entry) ∷ m', ids)
    else if due entry
    then ((id, expire_entry now entry) ∷ m', entry.id ∷ ids)
    else ((id, entry) ∷ m', ids)

-- `duration_since` of an earlier and a later instant is 0, as is `-` on ℕ.
abbrev pub is_stale : Duration → Instant → RequestEntry → Bool
is_stale timeout now entry = leb timeout (now - entry.started_at)

unfoldable pub expire_stale : Instant → RequestRegistry → RequestRegistry × List Text
expire_stale now r =
    let (m, ids) = expire_where (is_stale r.timeout now) now r.entries in
    (record r { entries = m }, ids)

unfoldable pub recover_after_restart : Instant → RequestRegistry → RequestRegistry × List Text
recover_after_restart now r =
    let (m, ids) = expire_where (λ _. true) now r.entries in (record r { entries = m }, ids)

abbrev pub should_remove : Instant → Duration → RequestEntry → Bool
should_remove now retention entry =
    is_terminal entry.state && leb retention (now - entry.last_updated_at)

-- The keys that the closure given to `retain` pushes.
unfoldable pub removed_ids : Instant → Duration → Map RequestEntry → List Text
removed_ids now retention [] = []
removed_ids now retention ((id, entry) ∷ m) =
    let rest = removed_ids now retention m in
    if should_remove now retention entry then id ∷ rest else rest

unfoldable pub prune_terminal : Instant → Duration → RequestRegistry → RequestRegistry × List Text
prune_terminal now retention r = (
  record r { entries = retain (λ entry. not (should_remove now retention entry)) r.entries },
  sort_by (λ id. id) (removed_ids now retention r.entries),
)

-- `filter(test).count()`.
unfoldable pub count_where : (RequestEntry → Bool) → List RequestEntry → ℕ
count_where test [] = 0
count_where test (entry ∷ es) =
    let rest = count_where test es in if test entry then suc rest else rest

abbrev pub is_in_flight : RequestState → Bool
is_in_flight pending = true
is_in_flight awaiting_user = true
is_in_flight _ = false

unfoldable pub in_flight_count : RequestRegistry → ℕ
in_flight_count r = count_where (λ entry. is_in_flight entry.state) (values r.entries)

unfoldable pub total_count : RequestRegistry → ℕ
total_count r = length r.entries

unfoldable pub terminal_count : RequestRegistry → ℕ
terminal_count r = count_where (λ entry. is_terminal entry.state) (values r.entries)

unfoldable pub to_record : RequestEntry → RequestRecord
to_record entry = record {
  id = entry.id;
  owner = entry.owner;
  parent_window = entry.parent_window;
  state = entry.state;
}

abbrev pub view {ℓ} : {A : Type ℓ} → (RequestEntry → A) → Option RequestEntry → Option A
view f none = none
view f (some entry) = some (f entry)

unfoldable pub state : Text → RequestRegistry → Option RequestState
state id r = view (λ entry. entry.state) (get id r.entries)

unfoldable pub parent_window : Text → RequestRegistry → Option (Option ParentWindowContext)
parent_window id r = view (λ entry. entry.parent_window) (get id r.entries)

unfoldable pub owner : Text → RequestRegistry → Option RequestOwner
owner id r = view (λ entry. entry.owner) (get id r.entries)

unfoldable pub record_of : Text → RequestRegistry → Option RequestRecord
unfolding to_record
record_of id r = view to_record (get id r.entries)

unfoldable pub records : RequestRegistry → List RequestRecord
unfolding to_record
records r = sort_by (λ saved. saved.id) (map to_record (values r.entries))
