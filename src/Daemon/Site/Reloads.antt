-- ===== src/Daemon/Site/Reloads.antt =====
-- The store that the daemon of garwarp/src/daemon.rs leaves for its next start, whatever it found.
use mathlib.Core.Path.{subst}
use garwarp.Base.{
  ℕ, true, Option, none, some, List, [], ◌∷◌, ◌≡◌, inl, inr, refl, sym, ok, Text, if-keeps,
}
use garwarp.Base.Map.{get}
use garwarp.Base.Map.All.{All-retain}
use garwarp.Base.Files.{File, text}
use garwarp.Ipc.Response.{ControlResponse}
use garwarp.Request.Types.{Instant, Duration}
use garwarp.Request.{RequestRegistry, expire_stale, prune_terminal, recover_after_restart}
use garwarp.Request.Invariant.{expire_stale-IsWf, prune_terminal-IsWf, recover_after_restart-IsWf}
use garwarp.Store.{load_registry, store_text}
use garwarp.Store.Loaded.{IsSound}
use garwarp.Store.RoundTrip.{IsStorableEntry, load_registry-store_text}
use garwarp.Store.Files.{Writing, persist_registry}
use garwarp.Store.Files.Atomic.{IsAtomic, atomic_write-IsAtomic}
use garwarp.Daemon.State.{DaemonState, update_health_after_persist}
use garwarp.Daemon.Connection.{Incoming, handle_connection}
use garwarp.Daemon.Connection.Safety.{handle_connection-IsWf}
use garwarp.Daemon.Connection.Storable.{handle_connection-IsStorable}
use garwarp.Daemon.Round.Restart.{expire_where-IsStorable}
use garwarp.Daemon.Site.{Site, persist_in, store_file}
use garwarp.Daemon.Site.Loop.{
  Happenings, with_daemon, persist_if_any_in, expire_round_in, prune_round_in, finish_connection_in,
  accept_one_in, accept_round_in, round_in, run_loop_in,
}

-- The file is accepted by a later start, whenever that is.
unfoldable pub Reloads : Option File → Type 0
Reloads o =
    (timeout : Duration) (now : Instant)
    → (r : RequestRegistry) × (load_registry (store_file true o) timeout now ≡ ok r)

-- The registry can be stored, and the store can be read.
pub record IsSafe (name : Text) (y : Site) : Type 0 where
  pub sound : IsSound y.daemon.requests
  pub reloads : Reloads (get name y.files)

pub Reloads-none : Reloads none
unfolding Reloads load_registry store_file
Reloads-none timeout now = (_, refl)

Reloads-store_text : (r : RequestRegistry) → IsSound r → Reloads (some (text (store_text r)))
unfolding Reloads store_file
Reloads-store_text r h timeout now =
    let (r', loaded, same) = load_registry-store_text r timeout now h.wf h.storable in (r', loaded)

expire_stale-IsSound :
    (now : Instant) (r : RequestRegistry) → IsSound r → IsSound (expire_stale now r).0
expire_stale-IsSound now r h = record {
  wf = expire_stale-IsWf now r h.wf;
  storable = unfold expire_stale in expire_where-IsStorable _ now r.entries h.storable;
}

pub recover_after_restart-IsSound :
    (now : Instant) (r : RequestRegistry) → IsSound r → IsSound (recover_after_restart now r).0
recover_after_restart-IsSound now r h = record {
  wf = recover_after_restart-IsWf now r h.wf;
  storable = unfold recover_after_restart in expire_where-IsStorable _ now r.entries h.storable;
}

prune_terminal-IsSound :
    (now : Instant) (retention : Duration) (r : RequestRegistry)
    → IsSound r
    → IsSound (prune_terminal now retention r).0
prune_terminal-IsSound now retention r h = record {
  wf = prune_terminal-IsWf now r h.wf retention;
  storable = unfold prune_terminal in All-retain IsStorableEntry _ r.entries h.storable;
}

handle_connection-IsSound :
    (daemon_uid : ℕ) (c : Incoming) (s : DaemonState)
    → IsSound s.requests
    → IsSound (handle_connection daemon_uid c s).0.requests
handle_connection-IsSound daemon_uid c s h = record {
  wf = handle_connection-IsWf daemon_uid c s h.wf;
  storable = handle_connection-IsStorable daemon_uid c s h.storable;
}

module _ (name : Text) where
  pub persist_in-IsSafe :
      (w : Writing) (y : Site) → IsSafe name y → IsSafe name (persist_in name w y)
  persist_in-IsSafe w y h = record {
    sound = unfold persist_in update_health_after_persist in h.sound;
    reloads =
        unfold persist_in persist_registry in
        elim (IsAtomic.either_way
          (atomic_write-IsAtomic w name (store_text y.daemon.requests) y.files)) [
            | inl failed ↦ subst Reloads (sym failed.1) h.reloads
            | inr written ↦
                subst Reloads (sym (written.1)) (Reloads-store_text y.daemon.requests h.sound)
          ];
  }

  persist_if_any_in-IsSafe :
      (ids : List Text) (w : Writing) (y : Site)
      → IsSafe name y
      → IsSafe name (persist_if_any_in name ids w y)
  unfolding persist_if_any_in
  persist_if_any_in-IsSafe [] w y h = h
  persist_if_any_in-IsSafe (id ∷ ids) w y h = persist_in-IsSafe w y h

  module _ (daemon_uid : ℕ) (retention : Duration) where
    expire_round_in-IsSafe :
        (e : Happenings) (y : Site) → IsSafe name y → IsSafe name (expire_round_in name e y)
    unfolding expire_round_in
    expire_round_in-IsSafe e y h =
        persist_if_any_in-IsSafe (expire_stale e.expired_at y.daemon.requests).1 e.expired_write _
          (record {
            sound = expire_stale-IsSound e.expired_at y.daemon.requests h.sound;
            reloads = h.reloads;
          })

    prune_round_in-IsSafe :
        (e : Happenings) (y : Site)
        → IsSafe name y
        → IsSafe name (prune_round_in name retention e y)
    unfolding prune_round_in
    prune_round_in-IsSafe e y h =
        persist_if_any_in-IsSafe (prune_terminal e.pruned_at retention y.daemon.requests).1
          e.pruned_write _
          (record {
            sound = prune_terminal-IsSound e.pruned_at retention y.daemon.requests h.sound;
            reloads = h.reloads;
          })

    finish_connection_in-IsSafe :
        (e : Happenings) (y : Site) (p : DaemonState × Option ControlResponse)
        → IsSafe name (with_daemon y p.0)
        → IsSafe name (finish_connection_in name e y p)
    unfolding finish_connection_in
    finish_connection_in-IsSafe e y (s, none) h = h
    finish_connection_in-IsSafe e y (s, some reply) h =
        if-keeps (IsSafe name) e.replied (persist_in-IsSafe e.reply_write (with_daemon y s) h) h

    accept_round_in-IsSafe :
        (e : Happenings) (y : Site)
        → IsSafe name y
        → IsSafe name (accept_round_in name daemon_uid e y)
    unfolding accept_round_in
    accept_round_in-IsSafe e y h = accepted e.accepted
      where
        accepted : (o : Option Incoming) → IsSafe name (accept_one_in name daemon_uid e y o)
        accepted none = unfold accept_one_in in h
        accepted (some c) =
            unfold accept_one_in in
            finish_connection_in-IsSafe e y (handle_connection daemon_uid c y.daemon) (record {
              sound = handle_connection-IsSound daemon_uid c y.daemon h.sound;
              reloads = h.reloads;
            })

    pub run_loop_in-IsSafe :
        (es : List Happenings) (y : Site)
        → IsSafe name y
        → IsSafe name (run_loop_in name daemon_uid retention es y)
    unfolding run_loop_in round_in
    run_loop_in-IsSafe [] y h = h
    run_loop_in-IsSafe (e ∷ es) y h =
        let cleaned = prune_round_in-IsSafe e _ (expire_round_in-IsSafe e y h) in
        if-keeps (IsSafe name) y.daemon.running
          (run_loop_in-IsSafe es _ (accept_round_in-IsSafe e _ cleaned)) h
