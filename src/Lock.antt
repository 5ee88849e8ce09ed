-- ===== src/Lock.antt =====
-- garwarp/src/lock.rs: the lock file of the daemon, with its text or none if there is no file. No
-- other process changes the file between two steps, and its reads and writes do not fail.
pub mod Exclusion
pub mod Files
pub mod Steps
pub mod Race
use garwarp.Base.{ℕ, Bool, not, Option, none, some, Result, ok, err, Text, trim, if◌then◌else◌}
use garwarp.Base.Digits.{from_str_radix, show_radix, u32_max}

pub data LockError : Type 0 where
  already_running : LockError

-- `process_exists` is the look at /proc.
module _ (process_exists : ℕ → Bool) where
  unfoldable pub is_stale : Text → Bool
  is_stale pid_raw = elim (from_str_radix u32_max 10 (trim pid_raw)) [
    | none ↦ Bool.true
    | some pid ↦ not (process_exists pid)
  ]

  -- The file as it is left, and the result, for the process `pid`.
  unfoldable pub acquire : ℕ → Option Text → Option Text × Result LockError (Unit {0})
  unfolding is_stale
  acquire pid none = (some (show_radix 10 pid), ok tt)
  acquire pid (some content) =
      if is_stale content
      then (some (show_radix 10 pid), ok tt)
      else (some content, err already_running)

-- `drop` of the guard.
unfoldable pub release : Option Text → Option Text
release file = none
