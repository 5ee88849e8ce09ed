-- ===== src/Daemon/Process.antt =====
-- `run` of garwarp/src/daemon.rs from its first line to its last: the lock, the socket, the store and
-- the loop, in the runtime directory.
pub mod Exclusive
pub mod Cleanup
mod Examples
use garwarp.Base.{
  ℕ, Bool, true, false, not, Option, none, some, List, Result, ok, err, Text, if◌then◌else◌,
}
use garwarp.Base.Map.{get, insert, remove, contains_key}
use garwarp.Base.Files.{File, binary, Directory}
use garwarp.Config.{Config}
use garwarp.Runtime.{default_control_socket, lock_file_name, request_store_name}
use garwarp.Lock.Files.{Locking, AcquireError, acquire_in, release_in}
use garwarp.Daemon.Site.{Site, Starting, start_in}
use garwarp.Daemon.Site.Loop.{Happenings, run_loop_in}

-- What the system gives to `run`: the process and its user, and whether each of its calls succeeds.
pub record Launch : Type 0 where
  pub pid : ℕ
  pub daemon_uid : ℕ
  pub made_directory : Bool
  pub locking : Locking
  pub socket_removed : Bool
  pub named : Bool
  pub bound : Bool
  pub permitted : Bool
  pub nonblocking : Bool
  pub starting : Starting
  pub cleaned_up : Bool
  pub unlocked : Bool

-- `io::Error` of `run`.
pub data RunError : Type 0 where
  not_locked : AcquireError → RunError
  failed : RunError

-- A process in its loop, or what it has left in the directory and returned.
pub data Process : Type 0 where
  serving : Site → Process
  returned : Directory → Result RunError (Unit {0}) → Process

-- `remove_stale_socket`; none for an error.
unfoldable pub remove_stale_socket : Bool → Directory → Option Directory
remove_stale_socket removed d =
    if contains_key default_control_socket d
    then (if removed then some (remove default_control_socket d) else none)
    else some d

-- `UnixListener::bind`, an error if there is a file at the path.
unfoldable pub bind_socket : Bool → Directory → Option Directory
bind_socket bound d =
    if contains_key default_control_socket d
    then none
    else (if bound then some (insert default_control_socket binary d) else none)

-- A return behind the lock: the guard is dropped.
abbrev pub return : Launch → Directory → Result RunError (Unit {0}) → Process
return l d result = returned (release_in l.unlocked lock_file_name d) result

-- The loop has ended, or goes on.
after_loop : Launch → Bool → Site → Process
after_loop l true y = serving y
after_loop l false y =
    return l (if l.cleaned_up then remove default_control_socket y.files else y.files) (ok tt)

after_bind : Config → Launch → List Happenings → Directory → Option Directory → Process
unfolding after_loop
after_bind config l es d none = return l d (err failed)
after_bind config l es d (some d') =
    if l.permitted
    then (if l.nonblocking
        then (let y =
              run_loop_in request_store_name l.daemon_uid config.terminal_retention es
                (start_in request_store_name l.starting config.request_timeout d') in
            after_loop l y.daemon.running y)
        else return l d' (err failed))
    else return l d' (err failed)

after_socket : Config → Launch → List Happenings → Directory → Option Directory → Process
unfolding after_bind
after_socket config l es d none = return l d (err failed)
after_socket config l es d (some d') =
    if l.named then after_bind config l es d' (bind_socket l.bound d') else return l d' (err failed)

after_lock :
    Config → Launch → List Happenings → Directory × Result AcquireError (Unit {0}) → Process
unfolding after_socket
after_lock config l es (d, err e) = returned d (err (not_locked e))
after_lock config l es (d, ok done) =
    after_socket config l es d (remove_stale_socket l.socket_removed d)

unfoldable pub run_process : (ℕ → Bool) → Config → Launch → List Happenings → Directory → Process
unfolding after_lock
run_process process_exists config l es d =
    if l.made_directory
    then after_lock config l es (acquire_in process_exists lock_file_name l.pid l.locking d)
    else returned d (err failed)
