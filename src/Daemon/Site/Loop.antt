-- ===== src/Daemon/Site/Loop.antt =====
-- The loop of `run` in garwarp/src/daemon.rs, over the directory of the store.
pub mod Refines
use garwarp.Base.{
  ℕ, Option, none, some, List, [], ◌∷◌, Text, ◌≡◌, refl, sym, ◌∙◌, ap, Bool, if◌then◌else◌,
}
use garwarp.Ipc.Response.{ControlResponse}
use garwarp.Request.Types.{Instant, Duration}
use garwarp.Request.{RequestRegistry, expire_stale, prune_terminal}
use garwarp.Store.Files.{Writing, persist_registry}
use garwarp.Daemon.State.{DaemonState, System, persist}
use garwarp.Daemon.Connection.{Incoming, handle_connection}
use garwarp.Daemon.Site.{Site, succeeds, persist_in}

-- What the system gives to one round, with each of its writes of the store.
pub record Happenings : Type 0 where
  pub expired_at : Instant
  pub pruned_at : Instant
  pub expired_write : Writing
  pub pruned_write : Writing
  pub accepted : Option Incoming
  pub replied : Bool
  pub reply_write : Writing

abbrev pub with_requests_in : Site → RequestRegistry → Site
with_requests_in y r = record y { daemon = record (y.daemon) { requests = r } }

abbrev pub with_daemon : Site → DaemonState → Site
with_daemon y s = record y { daemon = s }

module _ (name : Text) where
  -- The registry is written if any id was changed.
  unfoldable pub persist_if_any_in : List Text → Writing → Site → Site
  persist_if_any_in [] w y = y
  persist_if_any_in (id ∷ ids) w y = persist_in name w y

  unfoldable pub expire_round_in : Happenings → Site → Site
  expire_round_in e y =
      let (r, ids) = expire_stale e.expired_at y.daemon.requests in
      persist_if_any_in ids e.expired_write (with_requests_in y r)

  unfoldable pub prune_round_in : Duration → Happenings → Site → Site
  prune_round_in retention e y =
      let (r, ids) = prune_terminal e.pruned_at retention y.daemon.requests in
      persist_if_any_in ids e.pruned_write (with_requests_in y r)

  unfoldable pub finish_connection_in :
      Happenings → Site → DaemonState × Option ControlResponse → Site
  finish_connection_in e y (s, none) = with_daemon y s
  finish_connection_in e y (s, some reply) =
      if e.replied then persist_in name e.reply_write (with_daemon y s) else with_daemon y s

  unfoldable pub accept_one_in : ℕ → Happenings → Site → Option Incoming → Site
  accept_one_in daemon_uid e y none = y
  accept_one_in daemon_uid e y (some c) =
      finish_connection_in e y (handle_connection daemon_uid c y.daemon)

  unfoldable pub accept_round_in : ℕ → Happenings → Site → Site
  unfolding accept_one_in
  accept_round_in daemon_uid e y = accept_one_in daemon_uid e y e.accepted

  -- The body of `while state.running`.
  unfoldable pub round_in : ℕ → Duration → Happenings → Site → Site
  round_in daemon_uid retention e y =
      accept_round_in daemon_uid e (prune_round_in retention e (expire_round_in e y))

  unfoldable pub run_loop_in : ℕ → Duration → List Happenings → Site → Site
  run_loop_in daemon_uid retention [] y = y
  run_loop_in daemon_uid retention (e ∷ es) y =
      let rest = run_loop_in daemon_uid retention es (round_in daemon_uid retention e y) in
      if y.daemon.running then rest else y
