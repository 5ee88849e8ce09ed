-- ===== src/Daemon/Round.antt =====
-- One round of the loop of `run` in garwarp/src/daemon.rs.
pub mod Durable
pub mod Restart
pub mod Health
pub mod Fresh
use garwarp.Base.{ℕ, Bool, Option, none, some, List, [], ◌∷◌, Text, if◌then◌else◌}
use garwarp.Ipc.Response.{ControlResponse}
use garwarp.Request.Types.{Instant, Duration}
use garwarp.Request.{RequestRegistry, expire_stale, prune_terminal}
use garwarp.Daemon.State.{DaemonState, System, persist}
use garwarp.Daemon.Connection.{Incoming, handle_connection}

-- What the system gives to one round: the clock at its two reads, whether each write of the store
-- and the write of the reply succeed, and the connection that is accepted, if any.
pub record Events : Type 0 where
  pub expired_at : Instant
  pub pruned_at : Instant
  pub expired_saved : Bool
  pub pruned_saved : Bool
  pub accepted : Option Incoming
  pub replied : Bool
  pub reply_saved : Bool

abbrev with_requests : System → RequestRegistry → System
with_requests y r = record y { daemon = record (y.daemon) { requests = r } }

-- The registry is written if any id was changed.
unfoldable pub persist_if_any : List Text → Bool → System → System
persist_if_any [] written y = y
persist_if_any (id ∷ ids) written y = persist written y

unfoldable pub expire_round : Events → System → System
expire_round e y =
    let (r, ids) = expire_stale e.expired_at y.daemon.requests in
    persist_if_any ids e.expired_saved (with_requests y r)

unfoldable pub prune_round : Duration → Events → System → System
prune_round retention e y =
    let (r, ids) = prune_terminal e.pruned_at retention y.daemon.requests in
    persist_if_any ids e.pruned_saved (with_requests y r)

-- The match on the result of `handle_connection`, an error if no reply was written.
unfoldable pub finish_connection : Events → System → DaemonState × Option ControlResponse → System
finish_connection e y (s, none) = record y { daemon = s }
finish_connection e y (s, some reply) =
    if e.replied then persist e.reply_saved (record y { daemon = s }) else record y { daemon = s }

unfoldable pub accept_one : ℕ → Events → System → Option Incoming → System
accept_one daemon_uid e y none = y
accept_one daemon_uid e y (some c) = finish_connection e y (handle_connection daemon_uid c y.daemon)

unfoldable pub accept_round : ℕ → Events → System → System
unfolding accept_one
accept_round daemon_uid e y = accept_one daemon_uid e y e.accepted

-- The body of `while state.running`.
unfoldable pub round : ℕ → Duration → Events → System → System
round daemon_uid retention e y =
    accept_round daemon_uid e (prune_round retention e (expire_round e y))

-- The loop over the events of its rounds: it ends at the first round that finds it stopped.
unfoldable pub run_loop : ℕ → Duration → List Events → System → System
run_loop daemon_uid retention [] y = y
run_loop daemon_uid retention (e ∷ es) y =
    let rest = run_loop daemon_uid retention es (round daemon_uid retention e y) in
    if y.daemon.running then rest else y
