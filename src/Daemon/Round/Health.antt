-- ===== src/Daemon/Round/Health.antt =====
-- What the health in a status reply says of the store, across the rounds of the daemon's loop.
use garwarp.Base.{
  if-keeps, ◌≢◌, ℕ, Bool, true, false, Option, none, some, List, [], ◌∷◌, ◌≡◌, refl, Text,
}
use garwarp.Ipc.Health.{HealthStatus, starting, healthy, degraded, stopping}
use garwarp.Ipc.Response.{ControlResponse}
use garwarp.Request.Types.{Instant, Duration}
use garwarp.Request.{RequestRegistry, expire_stale, prune_terminal}
use garwarp.Store.{StoreFile}
use garwarp.Daemon.State.{
  DaemonState, System, persist, update_health_after_persist, health_after_persist, loaded, start,
}
use garwarp.Daemon.Connection.{Incoming, handle_connection}
use garwarp.Daemon.Connection.Acts.{handle_connection-unanswered}
use garwarp.Daemon.Round.{
  Events, with_requests, persist_if_any, expire_round, prune_round, finish_connection, accept_one,
  accept_round, round, run_loop,
}
use garwarp.Daemon.Round.Durable.{IsSaved, expire_stale-nothing, prune_terminal-nothing}

-- A daemon that calls itself healthy has its registry in the store.
abbrev pub IsHonest : System → Type 0
IsHonest y = y.daemon.health ≡ healthy → IsSaved y

never_healthy : (h : HealthStatus) → health_after_persist h false ≢ healthy
unfolding health_after_persist
never_healthy starting = λ e. cc e
never_healthy healthy = λ e. cc e
never_healthy degraded = λ e. cc e
never_healthy stopping = λ e. cc e

pub persist-IsHonest : (written : Bool) (y : System) → IsHonest (persist written y)
unfolding persist update_health_after_persist
persist-IsHonest true y = λ e. refl
persist-IsHonest false y = λ e. absurd (never_healthy y.daemon.health e)

persist_if_any-IsHonest :
    (ids : List Text) (written : Bool) (r : RequestRegistry) (y : System)
    → (ids ≡ [] → r ≡ y.daemon.requests)
    → IsHonest y
    → IsHonest (persist_if_any ids written (with_requests y r))
unfolding persist_if_any
persist_if_any-IsHonest [] written r y same honest = rw (same refl) honest
persist_if_any-IsHonest (id ∷ ids) written r y same honest =
    persist-IsHonest written (with_requests y r)

module _ (daemon_uid : ℕ) (retention : Duration) (e : Events) where
  expire_round-IsHonest : (y : System) → IsHonest y → IsHonest (expire_round e y)
  unfolding expire_round
  expire_round-IsHonest y =
      persist_if_any-IsHonest (expire_stale e.expired_at y.daemon.requests).1 e.expired_saved _ y
        (expire_stale-nothing e.expired_at y.daemon.requests)

  prune_round-IsHonest : (y : System) → IsHonest y → IsHonest (prune_round retention e y)
  unfolding prune_round
  prune_round-IsHonest y =
      persist_if_any-IsHonest (prune_terminal e.pruned_at retention y.daemon.requests).1
        e.pruned_saved _ y (prune_terminal-nothing e.pruned_at retention y.daemon.requests)

  finish_connection-IsHonest :
      (y : System) (p : DaemonState × Option ControlResponse)
      → e.replied ≡ true
      → (p.1 ≡ none → p.0 ≡ y.daemon)
      → IsHonest y
      → IsHonest (finish_connection e y p)
  unfolding finish_connection
  finish_connection-IsHonest y (s, none) replied same honest = rw (same refl) honest
  finish_connection-IsHonest y (s, some reply) replied same honest =
      rw replied (persist-IsHonest e.reply_saved (record y { daemon = s }))

  accept_round-IsHonest :
      (y : System) → e.replied ≡ true → IsHonest y → IsHonest (accept_round daemon_uid e y)
  unfolding accept_round
  accept_round-IsHonest y replied honest = accepted e.accepted
    where
      accepted : (o : Option Incoming) → IsHonest (accept_one daemon_uid e y o)
      accepted none = honest
      accepted (some c) =
          finish_connection-IsHonest y (handle_connection daemon_uid c y.daemon) replied
            (handle_connection-unanswered daemon_uid c y.daemon) honest

  round-IsHonest :
      (y : System) → e.replied ≡ true → IsHonest y → IsHonest (round daemon_uid retention e y)
  unfolding round
  round-IsHonest y replied honest =
      accept_round-IsHonest (prune_round retention e (expire_round e y)) replied
        (prune_round-IsHonest (expire_round e y) (expire_round-IsHonest y honest))

-- Every reply of the rounds reaches its client.
abbrev pub AllReplied : List Events → Type 0
AllReplied [] = Unit {0}
AllReplied (e ∷ es) = (e.replied ≡ true) × AllReplied es

run_loop-IsHonest :
    (daemon_uid : ℕ) (retention : Duration) (es : List Events) (y : System)
    → AllReplied es
    → IsHonest y
    → IsHonest (run_loop daemon_uid retention es y)
unfolding run_loop
run_loop-IsHonest daemon_uid retention [] y replied honest = honest
run_loop-IsHonest daemon_uid retention (e ∷ es) y replied honest =
    if-keeps IsHonest y.daemon.running
      (run_loop-IsHonest daemon_uid retention es (round daemon_uid retention e y) replied.1
        (round-IsHonest daemon_uid retention e y replied.0 honest))
      honest

start-IsHonest :
    (file : StoreFile) (store : Option Text) (timeout : Duration) (loaded_at recovered_at : Instant)
    (written : Bool)
    → IsHonest (start file timeout loaded_at recovered_at store written)
unfolding start
start-IsHonest file store timeout loaded_at recovered_at written =
    persist-IsHonest written (loaded file timeout loaded_at recovered_at store)

-- Whatever the store held at the start, and whichever writes of it failed since: if every reply
-- reached its client, a daemon that calls itself healthy has its registry in the store.
pub healthy-IsSaved :
    (file : StoreFile) (store : Option Text) (timeout retention : Duration)
    (loaded_at recovered_at : Instant) (written : Bool) (daemon_uid : ℕ) (es : List Events)
    → AllReplied es
    → (run_loop daemon_uid retention es
        (start file timeout loaded_at recovered_at store written)).daemon.health
      ≡ healthy
    → IsSaved
        (run_loop daemon_uid retention es (start file timeout loaded_at recovered_at store written))
healthy-IsSaved file store timeout retention loaded_at recovered_at written daemon_uid es replied =
    run_loop-IsHonest daemon_uid retention es
      (start file timeout loaded_at recovered_at store written) replied
      (start-IsHonest file store timeout loaded_at recovered_at written)
