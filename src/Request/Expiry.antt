-- ===== src/Request/Expiry.antt =====
-- What `expire_stale`, `recover_after_restart` and `prune_terminal` of garwarp/src/request.rs do at an
-- id, and the ids that they return.
use garwarp.Base.{
  ℕ, ◌-◌, ◌≤◌, ◌<◌, leb, ◌⊎◌, inl, inr, Bool, true, false, not, ◌&&◌, Option, none, some, [], ◌∷◌,
  ◌≡◌, refl, ◌∙◌, arith, Text, text_eq_iff, if◌then◌else◌,
}
use garwarp.Base.Map.{Map, IsMap, get, values}
use garwarp.Base.Map.All.{All}
use garwarp.Base.Sort.Order.{contains, contains-sort_by}
use garwarp.Request.Types.{
  Instant, Duration, RequestEntry, RequestState, pending, awaiting_user, fulfilled, cancelled,
  failed, expired, is_terminal,
}
use garwarp.Request.{
  RequestRegistry, expire_where, is_stale, expire_stale, recover_after_restart, prune_terminal,
  should_remove, removed_ids, in_flight_count, count_where, is_in_flight,
}
use garwarp.Request.Invariant.{IsWf, IsKeyed}
use garwarp.Request.Lookup.{
  entry_at, expire_if, at_some, entry_at-expire_stale, entry_at-prune_terminal,
}

-- A test of the entry at an id, false if there is none.
abbrev pub test_at : (RequestEntry → Bool) → Option RequestEntry → Bool
test_at p none = false
test_at p (some entry) = p entry

abbrev pub is_due : (RequestEntry → Bool) → RequestEntry → Bool
is_due due entry = not (is_terminal entry.state) && due entry

contains-expire_where :
    (due : RequestEntry → Bool) (now : Instant) (j : Text) (m : Map RequestEntry)
    → IsMap m
    → All IsKeyed m
    → contains j (expire_where due now m).1 ≡ test_at (is_due due) (get j m)
unfolding expire_where get contains
contains-expire_where due now j [] h k = refl
contains-expire_where due now j ((i, entry) ∷ m) h k =
    ground
      (arith, text_eq_iff i j, text_eq_iff entry.id j, contains-expire_where due now j m h.1 k.1)

-- The states of a request in flight, and of one that has ended.
pub data IsLive : RequestState → Type 0 where
  live_pending : IsLive pending
  live_awaiting_user : IsLive awaiting_user

pub data IsOver : RequestState → Type 0 where
  over_fulfilled : IsOver fulfilled
  over_cancelled : IsOver cancelled
  over_failed : IsOver failed
  over_expired : IsOver expired

-- A state is one of them, and `is_terminal` says which.
Live-Over :
    (s : RequestState) → ((is_terminal s ≡ false) × IsLive s) ⊎ ((is_terminal s ≡ true) × IsOver s)
unfolding is_terminal
Live-Over pending = inl (refl, live_pending)
Live-Over awaiting_user = inl (refl, live_awaiting_user)
Live-Over fulfilled = inr (refl, over_fulfilled)
Live-Over cancelled = inr (refl, over_cancelled)
Live-Over failed = inr (refl, over_failed)
Live-Over expired = inr (refl, over_expired)

-- What expiry may do at an id: the entry before, the entry after, and whether the id is returned.
pub data Expires (timeout : Duration) (now : Instant)
    : Option RequestEntry → Option RequestEntry → Bool → Type 0 where
  no_request : Expires timeout now none none false
  ended : {e : RequestEntry} → IsOver e.state → Expires timeout now (some e) (some e) false
  in_time :
      {e : RequestEntry}
      → IsLive e.state
      → now - e.started_at < timeout
      → Expires timeout now (some e) (some e) false
  out_of_time :
      {e : RequestEntry}
      → IsLive e.state
      → timeout ≤ now - e.started_at
      → Expires timeout now
          (some e)
          (some (record {
            id = e.id;
            owner = e.owner;
            parent_window = e.parent_window;
            state = expired;
            started_at = e.started_at;
            last_updated_at = now;
          }))
          true

leb-cases : (a b : ℕ) → ((leb a b ≡ true) × (a ≤ b)) ⊎ ((leb a b ≡ false) × (b < a))
leb-cases a b = ground arith

Expires-entry :
    (timeout : Duration) (now : Instant) (o : Option RequestEntry)
    → Expires timeout now o
        (at_some (expire_if (is_stale timeout now) now) o)
        (test_at (is_due (is_stale timeout now)) o)
unfolding expire_if
Expires-entry timeout now none = no_request
Expires-entry timeout now (some e) = elim (Live-Over e.state) [
  | inr (over, h) ↦ rw over (ended h)
  | inl (live, h) ↦ elim (leb-cases timeout (now - e.started_at)) [
    | inl (late, k) ↦ rw (live, late) (out_of_time h k)
    | inr (early, k) ↦ rw (live, early) (in_time h k)
  ]
]

-- `expire_stale` marks exactly the requests in flight that started at least `timeout` ago, keeps
-- every other entry, and returns exactly the ids of those that it marked.
pub expire_stale_exact :
    (now : Instant) (r : RequestRegistry) (j : Text)
    → IsWf r
    → Expires r.timeout now
        (entry_at r j)
        (entry_at (expire_stale now r).0 j)
        (contains j (expire_stale now r).1)
expire_stale_exact now r j wf =
    rw (entry_at-expire_stale now j r, returned) (Expires-entry r.timeout now (entry_at r j))
  where
    returned :
        contains j (expire_stale now r).1 ≡ test_at (is_due (is_stale r.timeout now)) (entry_at r j)
    returned =
        unfold expire_stale entry_at in
        contains-expire_where (is_stale r.timeout now) now j r.entries wf.distinct wf.keyed

no_flight :
    (now : Instant) (m : Map RequestEntry)
    → count_where (λ entry. is_in_flight entry.state) (values (expire_where (λ _. true) now m).0)
      ≡ 0
unfolding expire_where count_where values is_terminal
no_flight now [] = refl
no_flight now ((i, entry) ∷ m) = ground (arith, no_flight now m)

-- After the recovery at a restart no request is in flight.
pub recover_after_restart_settles :
    (now : Instant) (r : RequestRegistry) → in_flight_count (recover_after_restart now r).0 ≡ 0
unfolding in_flight_count recover_after_restart
recover_after_restart_settles now r = no_flight now r.entries

contains-removed_ids :
    (now : Instant) (retention : Duration) (j : Text) (m : Map RequestEntry)
    → IsMap m
    → contains j (removed_ids now retention m) ≡ test_at (should_remove now retention) (get j m)
unfolding removed_ids get contains
contains-removed_ids now retention j [] h = refl
contains-removed_ids now retention j ((i, entry) ∷ m) h =
    ground (arith, text_eq_iff i j, contains-removed_ids now retention j m h.1)

-- What pruning may do at an id: the entry before, the entry after, and whether the id is returned.
pub data Prunes (retention : Duration) (now : Instant)
    : Option RequestEntry → Option RequestEntry → Bool → Type 0 where
  no_request : Prunes retention now none none false
  in_flight : {e : RequestEntry} → IsLive e.state → Prunes retention now (some e) (some e) false
  retained :
      {e : RequestEntry}
      → IsOver e.state
      → now - e.last_updated_at < retention
      → Prunes retention now (some e) (some e) false
  removed :
      {e : RequestEntry}
      → IsOver e.state
      → retention ≤ now - e.last_updated_at
      → Prunes retention now (some e) none true

Prunes-entry :
    (retention : Duration) (now : Instant) (o : Option RequestEntry)
    → Prunes retention now o
        (if test_at (should_remove now retention) o then none else o)
        (test_at (should_remove now retention) o)
Prunes-entry retention now none = Prunes.no_request
Prunes-entry retention now (some e) = elim (Live-Over e.state) [
  | inl (live, h) ↦ rw live (in_flight h)
  | inr (over, h) ↦ elim (leb-cases retention (now - e.last_updated_at)) [
    | inl (late, k) ↦ rw (over, late) (removed h k)
    | inr (early, k) ↦ rw (over, early) (retained h k)
  ]
]

module _ (now : Instant) (retention : Duration) (r : RequestRegistry) (j : Text) (wf : IsWf r) where
  entry_at-pruned :
      entry_at (prune_terminal now retention r).0 j
      ≡ (if test_at (should_remove now retention) (entry_at r j) then none else entry_at r j)
  entry_at-pruned = ground (arith, entry_at-prune_terminal now retention j r wf.distinct)

  contains-pruned :
      contains j (prune_terminal now retention r).1
      ≡ test_at (should_remove now retention) (entry_at r j)
  unfolding prune_terminal entry_at
  contains-pruned =
      contains-sort_by (λ id. id) j (removed_ids now retention r.entries)
      ∙ contains-removed_ids now retention j r.entries wf.distinct

  -- `prune_terminal` removes exactly the terminal requests last changed at least `retention` ago,
  -- keeps every other entry, and returns exactly the ids that it removed.
  pub prune_terminal_exact :
      Prunes retention now
        (entry_at r j)
        (entry_at (prune_terminal now retention r).0 j)
        (contains j (prune_terminal now retention r).1)
  prune_terminal_exact =
      rw (entry_at-pruned, contains-pruned) (Prunes-entry retention now (entry_at r j))
