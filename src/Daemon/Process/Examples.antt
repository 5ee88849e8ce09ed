-- ===== src/Daemon/Process/Examples.antt =====
-- The theorems on `run` at a concrete directory and concrete calls.
use garwarp.Base.{
  ℕ, Bool, ◌≡◌, refl, arith, none, some, true, [], ◌∷◌, codes, ok, ◌==◌, text_eq, trim,
  is_whitespace,
}
use garwarp.Base.Digits.{show_radix, from_str_radix}
use garwarp.Base.Map.{get, insert, remove}
use garwarp.Base.Files.{text, binary, Directory}
use garwarp.Config.{Config}
use garwarp.Runtime.{lock_file_name, default_control_socket, request_store_name}
use garwarp.Lock.Files.{Locking, acquire_in, release_in}
use garwarp.Lock.Files.Held.{IsRefused}
use garwarp.Daemon.Examples.{asks}
use garwarp.Daemon.Connection.{Incoming, handle_connection, read_line}
use garwarp.Daemon.State.{update_health_after_persist}
use garwarp.Ipc.Control
use garwarp.Daemon.Site.{Site, start_in, persist_in}
use garwarp.Daemon.Site.Loop.{
  run_loop_in, round_in, accept_round_in, finish_connection_in, accept_one_in,
}
use garwarp.Daemon.Site.Examples.{starting, happening, with_junk}
use garwarp.Daemon.Process.{
  Launch, serving, returned, run_process, remove_stale_socket, bind_socket,
}
use garwarp.Daemon.Process.Exclusive.{run_process-excludes}
use garwarp.Daemon.Process.Cleanup.{IsClean, run_process-IsClean}

abbrev only_seven : ℕ → Bool
only_seven pid = pid == 7

abbrev locking : Locking
locking = record {
  opened = true;
  readable = true;
  removed = true;
  opened_again = true;
  torn = none;
}

abbrev launch : Launch
launch = record {
  pid = 7;
  daemon_uid = 1000;
  made_directory = true;
  locking = locking;
  socket_removed = true;
  named = true;
  bound = true;
  permitted = true;
  nonblocking = true;
  starting = starting;
  cleaned_up = true;
  unlocked = true;
}

abbrev config : Config
config = record { poll_interval = 1; request_timeout = 10; terminal_retention = 5 }

-- The lock of a process that has died, its socket, and a store that cannot be loaded.
abbrev left_over : Directory
left_over = (lock_file_name, text (codes "99\n")) ∷ (default_control_socket, binary) ∷ with_junk

abbrev ready : Directory
ready = insert default_control_socket binary (
    remove default_control_socket
      (insert lock_file_name (text (show_radix 10 7)) (remove lock_file_name left_over)))

abbrev in_loop : Site
in_loop = start_in request_store_name starting 10 ready

serves : run_process only_seven config launch [] left_over ≡ serving in_loop
unfolding run_process acquire_in start_in run_loop_in get text_eq from_str_radix trim is_whitespace
    remove_stale_socket insert remove bind_socket update_health_after_persist
serves = refl

run_process-excludes_example :
    IsRefused in_loop.files (acquire_in only_seven lock_file_name 8 locking in_loop.files)
run_process-excludes_example =
    run_process-excludes only_seven config launch [] left_over in_loop 8 locking (omega arith) refl
      serves

abbrev stops : Incoming
stops = record asks { stream = some (codes "stop\n") }

abbrev stopped : Directory
stopped = remove lock_file_name (
    remove default_control_socket
      (run_loop_in request_store_name 1000 5 (happening (some stops) ∷ []) in_loop).files)

stops_clean :
    run_process only_seven config launch (happening (some stops) ∷ []) left_over
    ≡ returned stopped (ok tt)
unfolding run_process acquire_in start_in run_loop_in get text_eq from_str_radix trim is_whitespace
    remove_stale_socket insert remove bind_socket update_health_after_persist round_in
    accept_round_in finish_connection_in accept_one_in handle_connection read_line
    Control.parse_line persist_in release_in
stops_clean = refl

taken : (acquire_in only_seven lock_file_name 7 locking left_over).1 ≡ ok tt
unfolding acquire_in get text_eq from_str_radix trim is_whitespace
taken = refl

run_process-IsClean_example : IsClean stopped (ok tt)
run_process-IsClean_example =
    run_process-IsClean only_seven config launch (happening (some stops) ∷ []) left_over stopped
      (ok tt) refl refl refl taken stops_clean
