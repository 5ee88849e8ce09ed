-- ===== src/Request/Invariant.antt =====
-- The invariant of the registry of garwarp/src/request.rs: each id is a key once, and stands in the
-- entry under it.
use garwarp.Base.{
  Bool, Option, none, some, [], ◌∷◌, ◌≡◌, ◌∙◌, refl, arith, Text, Bool-cases, inl, inr,
}
use garwarp.Base.Map.{Map, IsMap, get, insert, contains_key, insert-IsMap, retain-IsMap}
use garwarp.Base.Map.All.{All, All-get, All-insert, All-retain}
use garwarp.Window.{ParentWindowContext}
use garwarp.Request.Types.{
  Instant, Duration, RequestOwner, RequestState, RequestEntry, RequestRecord,
}
use garwarp.Request.{
  RequestRegistry, new, begin_at, restore_record, transition_entry, transition_found, transition_at,
  expire_where, expire_stale, recover_after_restart, prune_terminal, new_entry, restored,
}

abbrev pub IsKeyed : Text → RequestEntry → Type 0
IsKeyed id entry = entry.id ≡ id

pub record IsWf (r : RequestRegistry) : Type 0 where
  pub distinct : IsMap r.entries
  pub keyed : All IsKeyed r.entries

pub new-IsWf : (timeout : Duration) → IsWf (new timeout)
unfolding new
new-IsWf timeout = record { distinct = tt; keyed = tt }

module _ (id : Text) (now : Instant) (r : RequestRegistry) (wf : IsWf r) where
  insert-IsWf :
      (entry : RequestEntry)
      → entry.id ≡ id
      → IsWf (record r { entries = insert id entry r.entries })
  insert-IsWf entry same = record {
    distinct = insert-IsMap id entry r.entries wf.distinct;
    keyed = All-insert IsKeyed id entry r.entries same wf.keyed;
  }

  pub begin_at-IsWf :
      (owner : RequestOwner) (parent : Option ParentWindowContext)
      → IsWf (begin_at id owner parent now r).0
  unfolding begin_at
  begin_at-IsWf owner parent = elim (Bool-cases (contains_key id r.entries)) [
    | inl old ↦ rw old wf
    | inr fresh ↦ rw fresh (insert-IsWf (new_entry id owner parent now) refl)
  ]

  pub id-transition_entry :
      (owner : RequestOwner) (target : RequestState) (entry : RequestEntry)
      → (transition_entry id owner target now entry).0.id ≡ entry.id
  unfolding transition_entry
  id-transition_entry owner target entry = ground arith

  transition_found-IsWf :
      (owner : RequestOwner) (target : RequestState) (found : Option RequestEntry)
      → get id r.entries ≡ found
      → IsWf (transition_found id owner target now r found).0
  unfolding transition_found
  transition_found-IsWf owner target none e = wf
  transition_found-IsWf owner target (some entry) e =
      insert-IsWf (transition_entry id owner target now entry).0
        (id-transition_entry owner target entry ∙ All-get IsKeyed id r.entries wf.keyed e)

  pub transition_at-IsWf :
      (owner : RequestOwner) (target : RequestState) → IsWf (transition_at id owner target now r).0
  unfolding transition_at
  transition_at-IsWf owner target = transition_found-IsWf owner target (get id r.entries) refl

pub restore_record-IsWf :
    (saved : RequestRecord) (now : Instant) (r : RequestRegistry)
    → IsWf r
    → IsWf (restore_record saved now r).0
unfolding restore_record
restore_record-IsWf saved now r wf = elim (Bool-cases (contains_key saved.id r.entries)) [
  | inl old ↦ rw old wf
  | inr fresh ↦ rw fresh (insert-IsWf saved.id now r wf (restored saved now) refl)
]

-- A value that is replaced only in its state and times.
get-expire_where :
    (due : RequestEntry → Bool) (now : Instant) (id : Text) (m : Map RequestEntry)
    → contains_key id (expire_where due now m).0 ≡ contains_key id m
unfolding expire_where get
get-expire_where due now id [] = refl
get-expire_where due now id ((j, entry) ∷ m) = ground (arith, get-expire_where due now id m)

expire_where-IsMap :
    (due : RequestEntry → Bool) (now : Instant) (m : Map RequestEntry)
    → IsMap m
    → IsMap (expire_where due now m).0
unfolding expire_where
expire_where-IsMap due now [] h = h
expire_where-IsMap due now ((j, entry) ∷ m) h =
    ground (arith, get-expire_where due now j m, expire_where-IsMap due now m h.1)

expire_where-IsKeyed :
    (due : RequestEntry → Bool) (now : Instant) (m : Map RequestEntry)
    → All IsKeyed m
    → All IsKeyed (expire_where due now m).0
unfolding expire_where
expire_where-IsKeyed due now [] h = h
expire_where-IsKeyed due now ((j, entry) ∷ m) h = ground (arith, expire_where-IsKeyed due now m h.1)

module _ (now : Instant) (r : RequestRegistry) (wf : IsWf r) where
  pub expire_stale-IsWf : IsWf (expire_stale now r).0
  unfolding expire_stale
  expire_stale-IsWf = record {
    distinct = expire_where-IsMap _ now r.entries wf.distinct;
    keyed = expire_where-IsKeyed _ now r.entries wf.keyed;
  }

  pub recover_after_restart-IsWf : IsWf (recover_after_restart now r).0
  unfolding recover_after_restart
  recover_after_restart-IsWf = record {
    distinct = expire_where-IsMap _ now r.entries wf.distinct;
    keyed = expire_where-IsKeyed _ now r.entries wf.keyed;
  }

  pub prune_terminal-IsWf : (retention : Duration) → IsWf (prune_terminal now retention r).0
  unfolding prune_terminal
  prune_terminal-IsWf retention = record {
    distinct = retain-IsMap _ r.entries wf.distinct;
    keyed = All-retain IsKeyed _ r.entries wf.keyed;
  }
