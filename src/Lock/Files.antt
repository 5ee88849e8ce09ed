-- ===== src/Lock/Files.antt =====
-- `SingleInstanceGuard` of garwarp/src/lock.rs on the directory of the lock file, with every call of
-- the file system that can fail.
pub mod Held
use garwarp.Base.{
  ℕ, Bool, true, false, not, Option, none, some, Result, ok, err, ◌≡◌, ◌∙◌, refl, ap, Text,
  if◌then◌else◌,
}
use garwarp.Base.Digits.{show_radix}
use garwarp.Base.Map.{get, insert, remove}
use garwarp.Base.Files.{File, text, binary, Directory}
use garwarp.Lock.{is_stale, acquire, LockError, already_running}

-- What the system gives to one `acquire`: whether its calls succeed, and what a failed `write_pid`
-- leaves in the file.
pub record Locking : Type 0 where
  pub opened : Bool
  pub readable : Bool
  pub removed : Bool
  pub opened_again : Bool
  pub torn : Option File

pub data AcquireError : Type 0 where
  locked os_error : AcquireError

abbrev pub Acquired : Type 0
Acquired = Directory × Result AcquireError (Unit {0})

-- `write_pid`, on what it leaves if it fails.
write_pid : Text → ℕ → Directory → Option File → Acquired
write_pid name pid d none = (insert name (text (show_radix 10 pid)) d, ok tt)
write_pid name pid d (some file) = (insert name file d, err os_error)

module _ (process_exists : ℕ → Bool) where
  -- What `is_stale` returns of the file; none for an error of the read.
  stale_file : Bool → File → Option Bool
  unfolding is_stale
  stale_file readable binary = none
  stale_file readable (text pid_raw) =
      if readable then some (is_stale process_exists pid_raw) else none

  -- The arm of a lock file that is there.
  acquire_over : Text → ℕ → Locking → Directory → Option Bool → Acquired
  unfolding write_pid
  acquire_over name pid l d none = (d, err os_error)
  acquire_over name pid l d (some false) = (d, err locked)
  acquire_over name pid l d (some true) =
      if l.removed
      then (if l.opened_again
          then write_pid name pid (remove name d) l.torn
          else (remove name d, err os_error))
      else (d, err os_error)

  acquire_at : Text → ℕ → Locking → Directory → Option File → Acquired
  unfolding acquire_over stale_file
  acquire_at name pid l d none = write_pid name pid d l.torn
  acquire_at name pid l d (some file) = acquire_over name pid l d (stale_file l.readable file)

  unfoldable pub acquire_in : Text → ℕ → Locking → Directory → Acquired
  unfolding acquire_at
  acquire_in name pid l d =
      if l.opened then acquire_at name pid l d (get name d) else (d, err os_error)

-- `drop` of the guard, whose error is not looked at.
unfoldable pub release_in : Bool → Text → Directory → Directory
release_in removed name d = if removed then remove name d else d
