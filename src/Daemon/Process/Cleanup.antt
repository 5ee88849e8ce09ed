-- ===== src/Daemon/Process/Cleanup.antt =====
-- What `run` of garwarp/src/daemon.rs leaves in the directory when it returns.
use mathlib.Core.Path.{subst}
use garwarp.Base.{
  ℕ, Bool, true, false, Option, none, some, List, Result, ok, err, ◌≡◌, ◌⊎◌, inl, inr, refl, ◌∙◌,
  text_eq, text_eq_refl, if-keeps, if◌then◌else◌,
}
use garwarp.Base.Map.{get, remove, get-remove}
use garwarp.Base.Files.{Directory}
use garwarp.Config.{Config}
use garwarp.Runtime.{default_control_socket, lock_file_name}
use garwarp.Lock.Files.{Acquired, acquire_in, release_in}
use garwarp.Daemon.Site.{Site}
use garwarp.Daemon.Site.Loop.{Happenings}
use garwarp.Daemon.Process.{
  Launch, RunError, failed, Process, serving, returned, remove_stale_socket, bind_socket, return,
  after_loop, after_bind, after_socket, after_lock, run_process,
}

-- The lock file is gone, and after a return without an error so is the socket.
pub record IsClean (d : Directory) (result : Result RunError (Unit {0})) : Type 0 where
  pub unlocked : get lock_file_name d ≡ none
  pub closed : (result ≡ err failed) ⊎ (get default_control_socket d ≡ none)

CleanIfReturned : Process → Type 0
CleanIfReturned (serving y) = Unit {0}
CleanIfReturned (returned d result) = IsClean d result

lock_not_socket : text_eq lock_file_name default_control_socket ≡ false
unfolding text_eq
lock_not_socket = refl

socket_removed :
    (d : Directory)
    → get default_control_socket (remove lock_file_name (remove default_control_socket d)) ≡ none
socket_removed d =
    get-remove lock_file_name default_control_socket (remove default_control_socket d)
    ∙ rw lock_not_socket (
        get-remove default_control_socket default_control_socket d
        ∙ rw (text_eq_refl default_control_socket) refl)

module _ (config : Config) (l : Launch) (es : List Happenings) (unlocked : l.unlocked ≡ true)
    (cleaned : l.cleaned_up ≡ true) where
  lock_gone : (d : Directory) → get lock_file_name (release_in l.unlocked lock_file_name d) ≡ none
  unfolding release_in
  lock_gone d =
      rw unlocked
        (get-remove lock_file_name lock_file_name d ∙ rw (text_eq_refl lock_file_name) refl)

  failed-IsClean : (d : Directory) → CleanIfReturned (return l d (err failed))
  unfolding CleanIfReturned
  failed-IsClean d = record { unlocked = lock_gone d; closed = inl refl }

  after_loop-IsClean : (b : Bool) (y : Site) → CleanIfReturned (after_loop l b y)
  unfolding after_loop CleanIfReturned
  after_loop-IsClean true y = tt
  after_loop-IsClean false y = record { unlocked = lock_gone _; closed = inr socket_gone }
    where
      socket_gone :
          get default_control_socket (
            release_in l.unlocked lock_file_name
              (if l.cleaned_up then remove default_control_socket y.files else y.files))
          ≡ none
      socket_gone = unfold release_in in rw (unlocked, cleaned) (socket_removed y.files)

  after_bind-IsClean :
      (d : Directory) (o : Option Directory) → CleanIfReturned (after_bind config l es d o)
  unfolding after_bind
  after_bind-IsClean d none = failed-IsClean d
  after_bind-IsClean d (some d') =
      if-keeps CleanIfReturned l.permitted
        (if-keeps CleanIfReturned l.nonblocking (after_loop-IsClean _ _) (failed-IsClean d'))
        (failed-IsClean d')

  after_socket-IsClean :
      (d : Directory) (o : Option Directory) → CleanIfReturned (after_socket config l es d o)
  unfolding after_socket
  after_socket-IsClean d none = failed-IsClean d
  after_socket-IsClean d (some d') =
      if-keeps CleanIfReturned l.named (after_bind-IsClean d' (bind_socket l.bound d'))
        (failed-IsClean d')

  after_lock-IsClean : (a : Acquired) → a.1 ≡ ok tt → CleanIfReturned (after_lock config l es a)
  unfolding after_lock
  after_lock-IsClean (d, err e) h = absurd (cc h)
  after_lock-IsClean (d, ok done) h =
      after_socket-IsClean d (remove_stale_socket l.socket_removed d)

-- A `run` that has acquired the lock, and whose removals of its own files succeed, leaves no lock file
-- when it returns, wherever that is, and no socket if it returns without an error.
pub run_process-IsClean :
    (process_exists : ℕ → Bool) (config : Config) (l : Launch) (es : List Happenings)
    (d d' : Directory) (result : Result RunError (Unit {0}))
    → l.unlocked ≡ true
    → l.cleaned_up ≡ true
    → l.made_directory ≡ true
    → (acquire_in process_exists lock_file_name l.pid l.locking d).1 ≡ ok tt
    → run_process process_exists config l es d ≡ returned d' result
    → IsClean d' result
unfolding run_process CleanIfReturned
run_process-IsClean process_exists config l es d d' result unlocked cleaned made acquired e =
    subst CleanIfReturned (rw made at e) (
      after_lock-IsClean config l es unlocked cleaned
        (acquire_in process_exists lock_file_name l.pid l.locking d) acquired)
