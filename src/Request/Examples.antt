-- ===== src/Request/Examples.antt =====
-- The theorems on the registry at concrete registries, and runs of its operations.
use garwarp.Base.{none, some, List, [], ◌∷◌, ◌≡◌, ◌↔◌, ◌⊎◌, refl, map, ok, err, codes, text_eq}
use garwarp.Base.Map.{get, insert, is_some, values}
use garwarp.Base.Map.Reorder.{swap}
use garwarp.Base.Sort.{sort_by, insert_by, text_le}
use garwarp.Base.Sort.Order.{contains}
use garwarp.Request.Types.{
  RequestOwner, awaiting_user, fulfilled, cancelled, failed, RequestEntry, RequestRecord,
  owner_mismatch, is_terminal, state_eq, owner_eq,
}
use garwarp.Request.{
  RequestRegistry, begin_at, restore_record, transition_at, transition_entry, expire_stale,
  expire_where, recover_after_restart, prune_terminal, removed_ids, in_flight_count, records,
}
use garwarp.Request.Invariant.{IsWf}
use garwarp.Request.Machine.{◌⟶◌}
use garwarp.Request.Lookup.{entry_at}
use garwarp.Request.History.{
  Op, begin, restore, transition, expire_old, apply, run, Follows, Later, Present, apply-IsWf,
  apply-Later, run-Follows,
}
use garwarp.Request.Expiry.{
  expire_stale_exact, recover_after_restart_settles, prune_terminal_exact, Expires, Prunes,
}
use garwarp.Request.Records.{record_id, records_exact, records-Reorder}
use garwarp.Request.Transition.{transition_at_succeeds_iff, transition_at_refused}

abbrev pub alice : RequestOwner
alice = record { sender = codes ":1.2"; app_id = some (codes "org.test.App") }

abbrev pub bob : RequestOwner
bob = record { sender = codes ":1.7"; app_id = none }

abbrev pub waiting : RequestEntry
waiting = record {
  id = codes "b";
  owner = alice;
  parent_window = none;
  state = awaiting_user;
  started_at = 5;
  last_updated_at = 6;
}

abbrev pub done : RequestEntry
done = record {
  id = codes "a";
  owner = bob;
  parent_window = none;
  state = cancelled;
  started_at = 1;
  last_updated_at = 2;
}

abbrev pub two : RequestRegistry
two = record { entries = (codes "b", waiting) ∷ (codes "a", done) ∷ []; timeout = 10 }

abbrev pub two' : RequestRegistry
two' = record { entries = (codes "a", done) ∷ (codes "b", waiting) ∷ []; timeout = 10 }

pub two-IsWf : IsWf two
unfolding get text_eq
two-IsWf = record { distinct = (refl, (refl, tt)); keyed = (refl, (refl, tt)) }

pub waiting_held : entry_at two (codes "b") ≡ some waiting
unfolding entry_at get text_eq
waiting_held = refl

apply-IsWf_example : IsWf (apply (begin (codes "c") bob none 7) two)
apply-IsWf_example = apply-IsWf (begin (codes "c") bob none 7) two two-IsWf

apply-Later_example :
    Later waiting (entry_at (apply (transition (codes "b") alice fulfilled 8) two) (codes "b"))
apply-Later_example =
    apply-Later (codes "b") waiting two waiting_held (transition (codes "b") alice fulfilled 8)
      two-IsWf

abbrev saved_d : RequestRecord
saved_d = record { id = codes "d"; owner = bob; parent_window = none; state = cancelled }

abbrev script : List Op
script =
    begin (codes "c") bob none 7
    ∷ restore saved_d 7
    ∷ transition (codes "b") alice fulfilled 8
    ∷ expire_old 99
    ∷ []

script-Present : Present (codes "b") script two
unfolding entry_at apply begin_at restore_record transition_at transition_entry expire_stale
    expire_where is_terminal get insert text_eq owner_eq state_eq
script-Present = (refl, (refl, (refl, (refl, tt))))

run-Follows_example :
    (b : RequestEntry) × (entry_at (run script two) (codes "b") ≡ some b) × Follows waiting b
run-Follows_example =
    run-Follows (codes "b") script two waiting two-IsWf waiting_held script-Present

transition_at_succeeds_iff_example :
    ((transition_at (codes "b") bob failed 8 two).1 ≡ ok tt)
    ↔ ((waiting.owner ≡ bob) × ((waiting.state ≡ failed) ⊎ (waiting.state ⟶ failed)))
transition_at_succeeds_iff_example =
    transition_at_succeeds_iff (codes "b") bob failed 8 two waiting waiting_held

bob_refused : (transition_at (codes "b") bob failed 8 two).1 ≡ err (owner_mismatch (codes "b"))
unfolding transition_at transition_entry get text_eq owner_eq
bob_refused = refl

transition_at_refused_example :
    entry_at (transition_at (codes "b") bob failed 8 two).0 (codes "a") ≡ entry_at two (codes "a")
transition_at_refused_example =
    transition_at_refused (codes "b") bob failed 8 two (codes "a") bob_refused

expire_stale_exact_example :
    Expires 10 20
      (entry_at two (codes "b"))
      (entry_at (expire_stale 20 two).0 (codes "b"))
      (contains (codes "b") (expire_stale 20 two).1)
expire_stale_exact_example = expire_stale_exact 20 two (codes "b") two-IsWf

expire_two : (expire_stale 20 two).1 ≡ codes "b" ∷ []
unfolding expire_stale expire_where is_terminal
expire_two = refl

recover_after_restart_settles_example : in_flight_count (recover_after_restart 9 two).0 ≡ 0
recover_after_restart_settles_example = recover_after_restart_settles 9 two

prune_terminal_exact_example :
    Prunes 10 12
      (entry_at two (codes "a"))
      (entry_at (prune_terminal 12 10 two).0 (codes "a"))
      (contains (codes "a") (prune_terminal 12 10 two).1)
prune_terminal_exact_example = prune_terminal_exact 12 10 two (codes "a") two-IsWf

prune_two : (prune_terminal 12 10 two).1 ≡ codes "a" ∷ []
unfolding prune_terminal removed_ids is_terminal sort_by insert_by
prune_two = refl

records_exact_example :
    contains (codes "a") (map record_id (records two)) ≡ is_some (entry_at two (codes "a"))
records_exact_example = records_exact two (codes "a") two-IsWf

records-two : map record_id (records two) ≡ codes "a" ∷ codes "b" ∷ []
unfolding records sort_by insert_by values text_le
records-two = refl

records-Reorder_example : records two ≡ records two'
records-Reorder_example =
    records-Reorder two two' two-IsWf (swap (codes "b") (codes "a") waiting done [])
