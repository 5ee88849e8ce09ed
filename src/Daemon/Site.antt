-- ===== src/Daemon/Site.antt =====
-- The daemon of garwarp/src/daemon.rs with the directory of its store: how it persists its registry,
-- puts an unreadable store aside, and starts.
pub mod Refines
pub mod Loop
pub mod Reloads
pub mod Started
pub mod Others
pub mod Kept
pub mod Examples
use garwarp.Base.{
  ℕ, Bool, true, false, Option, none, some, List, [], ◌∷◌, ◌++◌, Result, ok, err, Text, codes,
  if◌then◌else◌,
}
use garwarp.Base.Digits.{show_radix}
use garwarp.Base.Map.{get, contains_key}
use garwarp.Base.Files.{File, text, binary, Directory, rename}
use garwarp.Ipc.Health.{healthy, degraded}
use garwarp.Request.Types.{Instant, Duration}
use garwarp.Request
use garwarp.Request.{RequestRegistry}
use garwarp.Store.{StoreFile, absent, unreadable, body, LoadError}
use garwarp.Store.Files.{Writing, IoError, os_error, persist_registry}
use garwarp.Daemon.State.{DaemonState, update_health_after_persist, load_registry_with_recovery}

pub record Site : Type 0 where
  pub daemon : DaemonState
  pub files : Directory

abbrev pub succeeds : Result IoError (Unit {0}) → Bool
succeeds (ok done) = true
succeeds (err e) = false

-- `persist_registry_state` and `update_health_after_persist`, as they always stand together.
unfoldable pub persist_in : Text → Writing → Site → Site
persist_in name w y =
    let (files, result) = persist_registry w name y.daemon.requests y.files in
    record { daemon = update_health_after_persist y.daemon (succeeds result); files = files }

-- What `load_registry` reads; `readable` is whether the system lets it.
unfoldable pub store_file : Bool → Option File → StoreFile
store_file readable none = absent
store_file readable (some binary) = unreadable
store_file readable (some (text contents)) = if readable then body contents else unreadable

unfoldable pub quarantined_name : Text → ℕ → Text
quarantined_name file_name nanos = file_name ++ (codes ".corrupt-" ++ show_radix 10 nanos)

-- The end of `quarantine_request_store`, on the result of `fs::rename`.
put_aside : Text → Directory → Option Directory → Directory × Result IoError (Option Text)
put_aside quarantined d none = (d, err os_error)
put_aside quarantined d (some d') = (d', ok (some quarantined))

unfoldable pub quarantine_request_store :
    Bool → ℕ → Text → Directory → Directory × Result IoError (Option Text)
unfolding put_aside
quarantine_request_store allowed nanos name d =
    if contains_key name d
    then (let quarantined = quarantined_name name nanos in
        put_aside quarantined d (rename allowed name quarantined d))
    else (d, ok none)

-- What the system gives to a start: the clock at its reads, whether the store can be read and be
-- renamed, and how it is written.
pub record Starting : Type 0 where
  pub readable : Bool
  pub loaded_at : Instant
  pub recovered_at : Instant
  pub renamed : Bool
  pub nanos : ℕ
  pub writing : Writing

loaded_or_new :
    Text
    → Starting
    → Duration
    → Directory
    → Result LoadError (RequestRegistry × List Text)
    → Directory × (RequestRegistry × List Text × Bool)
unfolding quarantine_request_store
loaded_or_new name s timeout d (ok (r, recovered_ids)) = (d, (r, recovered_ids, false))
loaded_or_new name s timeout d (err error) =
    ((quarantine_request_store s.renamed s.nanos name d).0, (Request.new timeout, [], true))

-- `load_registry_with_fallback`, with the directory as it leaves it.
unfoldable pub load_in :
    Text → Starting → Duration → Directory → Directory × (RequestRegistry × List Text × Bool)
unfolding loaded_or_new
load_in name s timeout d = loaded_or_new name s timeout d (
    load_registry_with_recovery (store_file s.readable (get name d)) timeout s.loaded_at
      s.recovered_at)

-- The state that `run` builds from the store.
unfoldable pub loaded_in : Text → Starting → Duration → Directory → Site
unfolding load_in
loaded_in name s timeout d =
    let (files, loaded) = load_in name s timeout d in
    record {
      daemon = record {
        health = if loaded.2 then degraded else healthy;
        requests = loaded.0;
        running = true;
      };
      files = files;
    }

-- `run`, up to its loop.
unfoldable pub start_in : Text → Starting → Duration → Directory → Site
unfolding loaded_in persist_in
start_in name s timeout d = persist_in name s.writing (loaded_in name s timeout d)
