-- ===== src/Daemon/State.antt =====
-- The state of the daemon of garwarp/src/daemon.rs, its health, and its start from the store.
use garwarp.Base.{Bool, true, false, List, [], Result, ok, err, Text, if◌then◌else◌, Option, some}
use garwarp.Ipc.Health.{HealthStatus, healthy, degraded}
use garwarp.Request.Types.{Instant, Duration}
use garwarp.Request
use garwarp.Request.{RequestRegistry, recover_after_restart}
use garwarp.Store.{StoreFile, LoadError, load_registry, store_text}

pub record DaemonState : Type 0 where
  pub health : HealthStatus
  pub requests : RequestRegistry
  pub running : Bool

unfoldable pub health_after_persist : HealthStatus → Bool → HealthStatus
health_after_persist healthy false = degraded
health_after_persist degraded true = healthy
health_after_persist health persisted = health

unfoldable pub update_health_after_persist : DaemonState → Bool → DaemonState
unfolding health_after_persist
update_health_after_persist s persisted = record s {
  health = health_after_persist s.health persisted;
}

-- The daemon and the text of its store; the write of the store fails or replaces the text.
pub record System : Type 0 where
  pub daemon : DaemonState
  pub store : Option Text

-- `persist_registry_state` and `update_health_after_persist`, as they always stand together.
unfoldable pub persist : Bool → System → System
unfolding update_health_after_persist
persist written y = record {
  daemon = update_health_after_persist y.daemon written;
  store = if written then some (store_text y.daemon.requests) else y.store;
}

unfoldable pub load_registry_with_recovery :
    StoreFile → Duration → Instant → Instant → Result LoadError (RequestRegistry × List Text)
load_registry_with_recovery file timeout loaded_at recovered_at =
    elim (load_registry file timeout loaded_at) [
      | ok r ↦ ok (recover_after_restart recovered_at r)
      | err error ↦ err error
    ]

abbrev pub or_empty :
    Duration → Result LoadError (RequestRegistry × List Text) → RequestRegistry × List Text × Bool
or_empty timeout (ok (r, recovered_ids)) = (r, recovered_ids, false)
or_empty timeout (err error) = (Request.new timeout, [], true)

-- The move of the unreadable store to another name is in Daemon/Site.
unfoldable pub load_registry_with_fallback :
    StoreFile → Duration → Instant → Instant → RequestRegistry × List Text × Bool
unfolding load_registry_with_recovery
load_registry_with_fallback file timeout loaded_at recovered_at =
    or_empty timeout (load_registry_with_recovery file timeout loaded_at recovered_at)

-- The state that `run` builds from the store.
unfoldable pub loaded : StoreFile → Duration → Instant → Instant → Option Text → System
unfolding load_registry_with_fallback
loaded file timeout loaded_at recovered_at store =
    let (requests, recovered_ids, startup_degraded) =
      load_registry_with_fallback file timeout loaded_at recovered_at in
    record {
      daemon = record {
        health = if startup_degraded then degraded else healthy;
        requests = requests;
        running = true;
      };
      store = store;
    }

-- `run`, up to its loop.
unfoldable pub start : StoreFile → Duration → Instant → Instant → Option Text → Bool → System
unfolding loaded persist
start file timeout loaded_at recovered_at store written =
    persist written (loaded file timeout loaded_at recovered_at store)
