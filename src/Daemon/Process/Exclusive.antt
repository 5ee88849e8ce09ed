-- ===== src/Daemon/Process/Exclusive.antt =====
-- The lock file while `run` of garwarp/src/daemon.rs is in its loop.
use mathlib.Core.Path.{subst}
use garwarp.Base.{
  cons_injective, ℕ, ◌≤◌, Bool, true, false, Option, none, some, List, ◌∷◌, ◌==◌, ok, err, ◌≡◌, ◌≢◌,
  refl, ◌∙◌, arith, Text, text_eq, if-keeps,
}
use garwarp.Base.Digits.{u32_max}
use garwarp.Base.Map.{get-insert, get-remove, contains_key}
use garwarp.Base.Files.{binary, Directory}
use garwarp.Config.{Config}
use garwarp.Runtime.{default_control_socket, lock_file_name, request_store_name}
use garwarp.Store.Files.{unique_temp_name}
use garwarp.Lock.Files.{Locking, Acquired, acquire_in}
use garwarp.Lock.Files.Held.{IsHeld, Holds, acquire_in-Holds, IsRefused, acquire_in-IsRefused}
use garwarp.Daemon.Site.{Site, quarantined_name, start_in}
use garwarp.Daemon.Site.Loop.{Happenings, run_loop_in}
use garwarp.Daemon.Site.Others.{IsApart, persist_in-others, start_in-others}
use garwarp.Daemon.Site.Kept.{run_loop_in-keeps}
use garwarp.Daemon.Process.{
  Launch, Process, serving, returned, remove_stale_socket, bind_socket, after_loop, after_bind,
  after_socket, after_lock, run_process,
}

heads_apart : (c d : ℕ) (a b : Text) → (c == d) ≡ false → c ∷ a ≢ d ∷ b
heads_apart c d a b h e = absurd (differ (cons_injective e).0)
  where
    differ : c ≡ d → ⊥
    differ same = ground arith

lock-IsApart : IsApart request_store_name lock_file_name
unfolding unique_temp_name quarantined_name
lock-IsApart = record {
  store = heads_apart b'r' b'g' _ _ refl;
  temp = λ w. heads_apart b'.' b'g' _ _ refl;
  quarantined = λ nanos. heads_apart b'r' b'g' _ _ refl;
}

socket_not_lock : text_eq default_control_socket lock_file_name ≡ false
unfolding text_eq
socket_not_lock = refl

module _ (pid : ℕ) where
  Keeps : Directory → Type 0
  Keeps d = IsHeld lock_file_name pid d

  -- A process in its loop has its id in the lock file.
  InLoop : Process → Type 0
  unfolding Keeps
  InLoop (serving y) = Keeps y.files
  InLoop (returned d result) = Unit {0}

  KeepsSome : Option Directory → Type 0
  unfolding Keeps
  KeepsSome none = Unit {0}
  KeepsSome (some d) = Keeps d

  remove_stale_socket-Keeps :
      (removed : Bool) (d : Directory) → Keeps d → KeepsSome (remove_stale_socket removed d)
  unfolding remove_stale_socket KeepsSome Keeps
  remove_stale_socket-Keeps removed d h =
      if-keeps KeepsSome (contains_key default_control_socket d)
        (if-keeps KeepsSome removed
          (get-remove default_control_socket lock_file_name d ∙ rw socket_not_lock h) tt)
        h

  bind_socket-Keeps : (bound : Bool) (d : Directory) → Keeps d → KeepsSome (bind_socket bound d)
  unfolding bind_socket KeepsSome Keeps
  bind_socket-Keeps bound d h = if-keeps KeepsSome (contains_key default_control_socket d) tt (
      if-keeps KeepsSome bound
        (get-insert default_control_socket lock_file_name binary d ∙ rw socket_not_lock h) tt)

  module _ (config : Config) (l : Launch) (es : List Happenings) where
    served-Keeps :
        (d : Directory)
        → Keeps d
        → Keeps
            (run_loop_in request_store_name l.daemon_uid config.terminal_retention es
              (start_in request_store_name l.starting config.request_timeout d)).files
    unfolding Keeps
    served-Keeps d h =
        run_loop_in-keeps request_store_name (IsHeld lock_file_name pid)
          (λ w y k.
            persist_in-others request_store_name lock_file_name w y (lock-IsApart.temp w)
              lock-IsApart.store
            ∙ k)
          l.daemon_uid config.terminal_retention es _
          (start_in-others request_store_name lock_file_name lock-IsApart l.starting
              config.request_timeout d
            ∙ h)

    after_loop-InLoop : (b : Bool) (y : Site) → Keeps y.files → InLoop (after_loop l b y)
    unfolding after_loop InLoop
    after_loop-InLoop true y h = h
    after_loop-InLoop false y h = tt

    after_bind-InLoop :
        (d : Directory) (o : Option Directory) → KeepsSome o → InLoop (after_bind config l es d o)
    unfolding after_bind InLoop KeepsSome
    after_bind-InLoop d none h = tt
    after_bind-InLoop d (some d') h =
        if-keeps InLoop l.permitted
          (if-keeps InLoop l.nonblocking (after_loop-InLoop _ _ (served-Keeps d' h)) tt) tt

    after_socket-InLoop :
        (d : Directory) (o : Option Directory) → KeepsSome o → InLoop (after_socket config l es d o)
    unfolding after_socket InLoop KeepsSome
    after_socket-InLoop d none h = tt
    after_socket-InLoop d (some d') h =
        if-keeps InLoop l.named
          (after_bind-InLoop d' (bind_socket l.bound d') (bind_socket-Keeps l.bound d' h)) tt

    after_lock-InLoop :
        (a : Acquired) → Holds lock_file_name pid a → InLoop (after_lock config l es a)
    unfolding after_lock InLoop Keeps
    after_lock-InLoop (d, err e) h = tt
    after_lock-InLoop (d, ok done) h =
        after_socket-InLoop d (remove_stale_socket l.socket_removed d)
          (remove_stale_socket-Keeps l.socket_removed d h)

run_process-InLoop :
    (process_exists : ℕ → Bool) (config : Config) (l : Launch) (es : List Happenings)
    (d : Directory)
    → InLoop l.pid (run_process process_exists config l es d)
unfolding run_process InLoop
run_process-InLoop process_exists config l es d =
    if-keeps (InLoop l.pid) l.made_directory
      (after_lock-InLoop l.pid config l es _
        (acquire_in-Holds process_exists lock_file_name l.pid l.locking d))
      tt

-- As long as a process with an id of 32 bits is in the loop of `run`, after whichever rounds, no
-- process acquires the lock, and an attempt touches no file.
pub run_process-excludes :
    (process_exists : ℕ → Bool) (config : Config) (l : Launch) (es : List Happenings)
    (d : Directory) (y : Site) (other : ℕ) (l' : Locking)
    → l.pid ≤ u32_max
    → process_exists l.pid ≡ true
    → run_process process_exists config l es d ≡ serving y
    → IsRefused y.files (acquire_in process_exists lock_file_name other l' y.files)
unfolding InLoop Keeps
run_process-excludes process_exists config l es d y other l' fits alive e =
    acquire_in-IsRefused process_exists lock_file_name l.pid fits alive other l' y.files
      (subst (InLoop l.pid) e (run_process-InLoop process_exists config l es d))
