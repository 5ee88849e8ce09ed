-- ===== src/Daemon/Round/Restart.antt =====
-- The start of the daemon, its rounds, and a later start from the store that they leave.
use garwarp.Base.{
  if-keeps, ℕ, Bool, true, Option, none, some, List, [], ◌∷◌, ◌≡◌, refl, ok, Text, not,
}
use garwarp.Base.Map.{Map}
use garwarp.Base.Map.All.{All, All-retain}
use garwarp.Request.Types.{Instant, Duration, RequestEntry, is_terminal}
use garwarp.Request.{
  RequestRegistry, expire_where, expire_stale, prune_terminal, should_remove, is_stale, records,
  to_record, new, recover_after_restart,
}
use garwarp.Request.Invariant.{IsWf}
use garwarp.Store.{body, absent, load_registry, store_text}
use garwarp.Store.RoundTrip.{IsStorableEntry, load_registry-store_text}
use garwarp.Daemon.State.{System, loaded, start, persist}
use garwarp.Daemon.Connection.{Incoming, handle_connection}
use garwarp.Daemon.Connection.Storable.{handle_connection-IsStorable}
use garwarp.Daemon.Round.{
  Events, with_requests, expire_round, prune_round, accept_one, accept_round, round, run_loop,
}
use garwarp.Daemon.Round.Durable.{
  IsSaved, NeverFails, run_loop-IsWf, run_loop-IsSaved, requests-persist_if_any,
  requests-finish_connection,
}

-- Every request of the daemon can be stored.
abbrev pub IsStorableSystem : System → Type 0
IsStorableSystem y = All IsStorableEntry y.daemon.requests.entries

pub expire_where-IsStorable :
    (due : RequestEntry → Bool) (now : Instant) (m : Map RequestEntry)
    → All IsStorableEntry m
    → All IsStorableEntry (expire_where due now m).0
unfolding expire_where to_record
expire_where-IsStorable due now [] h = tt
expire_where-IsStorable due now ((id, entry) ∷ m) h =
    let rest = expire_where-IsStorable due now m h.1 in
    if-keeps (λ (p : Map RequestEntry × List Text). All IsStorableEntry p.0)
      (is_terminal entry.state) (h.0, rest)
      (if-keeps (λ (p : Map RequestEntry × List Text). All IsStorableEntry p.0) (due entry)
        (
          record {
            id = h.0.id;
            sender = h.0.sender;
            app_id = h.0.app_id;
            parent_window = h.0.parent_window;
          },
          rest,
        )
        (h.0, rest))

module _ (daemon_uid : ℕ) (retention : Duration) (e : Events) where
  expire_round-IsStorable : (y : System) → IsStorableSystem y → IsStorableSystem (expire_round e y)
  unfolding expire_round expire_stale
  expire_round-IsStorable y h =
      rw
        (requests-persist_if_any (expire_stale e.expired_at y.daemon.requests).1 e.expired_saved
          (with_requests y (expire_stale e.expired_at y.daemon.requests).0))
        (expire_where-IsStorable (is_stale y.daemon.requests.timeout e.expired_at) e.expired_at
          y.daemon.requests.entries h)

  prune_round-IsStorable :
      (y : System) → IsStorableSystem y → IsStorableSystem (prune_round retention e y)
  unfolding prune_round prune_terminal
  prune_round-IsStorable y h =
      rw
        (requests-persist_if_any (prune_terminal e.pruned_at retention y.daemon.requests).1
          e.pruned_saved
          (with_requests y (prune_terminal e.pruned_at retention y.daemon.requests).0))
        (All-retain IsStorableEntry (λ entry. not (should_remove e.pruned_at retention entry))
          y.daemon.requests.entries h)

  accept_round-IsStorable :
      (y : System) → IsStorableSystem y → IsStorableSystem (accept_round daemon_uid e y)
  unfolding accept_round
  accept_round-IsStorable y h = accepted e.accepted
    where
      accepted : (o : Option Incoming) → IsStorableSystem (accept_one daemon_uid e y o)
      accepted none = h
      accepted (some c) =
          rw
            (requests-finish_connection daemon_uid retention e y
              (handle_connection daemon_uid c y.daemon))
            (handle_connection-IsStorable daemon_uid c y.daemon h)

  round-IsStorable :
      (y : System) → IsStorableSystem y → IsStorableSystem (round daemon_uid retention e y)
  unfolding round
  round-IsStorable y h =
      accept_round-IsStorable (prune_round retention e (expire_round e y))
        (prune_round-IsStorable (expire_round e y) (expire_round-IsStorable y h))

-- However many rounds are run, every request stays storable.
pub run_loop-IsStorable :
    (daemon_uid : ℕ) (retention : Duration) (es : List Events) (y : System)
    → IsStorableSystem y
    → IsStorableSystem (run_loop daemon_uid retention es y)
unfolding run_loop
run_loop-IsStorable daemon_uid retention [] y h = h
run_loop-IsStorable daemon_uid retention (e ∷ es) y h =
    if-keeps IsStorableSystem y.daemon.running
      (run_loop-IsStorable daemon_uid retention es (round daemon_uid retention e y)
        (round-IsStorable daemon_uid retention e y h))
      h

-- The daemon on its first start, without a store.
abbrev pub first_start : Duration → Instant → Instant → System
first_start timeout loaded_at recovered_at = start absent timeout loaded_at recovered_at none true

module _ (timeout : Duration) (loaded_at recovered_at : Instant) where
  started-IsWf : IsWf (first_start timeout loaded_at recovered_at).daemon.requests
  unfolding start loaded load_registry recover_after_restart expire_where persist new
  started-IsWf = record { distinct = tt; keyed = tt }

  started-IsStorable : IsStorableSystem (first_start timeout loaded_at recovered_at)
  unfolding start loaded load_registry recover_after_restart expire_where persist new
  started-IsStorable = tt

  started-IsSaved : IsSaved (first_start timeout loaded_at recovered_at)
  unfolding start loaded persist
  started-IsSaved = refl

-- A daemon that was started with no store, and none of whose writes failed, leaves a store that is
-- read back to a registry with the same records, however many rounds it ran.
pub run_loop-restarts :
    (daemon_uid : ℕ) (timeout retention : Duration) (loaded_at recovered_at later : Instant)
    (es : List Events)
    → NeverFails es
    → (text : Text) × (r : RequestRegistry) × ((run_loop daemon_uid retention es
          (first_start timeout loaded_at recovered_at)).store
        ≡ some text)
      × (load_registry (body text) timeout later ≡ ok r)
      × (records r
          ≡ records
              (run_loop daemon_uid retention es
                (first_start timeout loaded_at recovered_at)).daemon.requests)
run_loop-restarts daemon_uid timeout retention loaded_at recovered_at later es fine =
    let y = first_start timeout loaded_at recovered_at in
    let z = run_loop daemon_uid retention es y in
    let (r, loaded, same) =
      load_registry-store_text z.daemon.requests timeout later
        (run_loop-IsWf daemon_uid retention es y (started-IsWf timeout loaded_at recovered_at))
        (run_loop-IsStorable daemon_uid retention es y
          (started-IsStorable timeout loaded_at recovered_at)) in
    (
      store_text z.daemon.requests,
      r,
      run_loop-IsSaved daemon_uid retention es y fine
          (started-IsSaved timeout loaded_at recovered_at),
      loaded,
      same,
    )
