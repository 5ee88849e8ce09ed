-- ===== src/Lock/Files/Held.antt =====
-- The lock file of garwarp/src/lock.rs in its directory, once it is acquired.
use garwarp.Base.{
  ℕ, ◌≤◌, Bool, true, false, Option, none, some, ok, err, ◌≡◌, ◌≢◌, refl, Text, if-keeps,
}
use garwarp.Base.Digits.{show_radix, u32_max}
use garwarp.Base.Map.{get, remove, get-insert_self}
use garwarp.Base.Files.{File, text, Directory}
use garwarp.Lock.Exclusion.{own_pid-fresh}
use garwarp.Lock.Files.{
  Locking, AcquireError, locked, os_error, Acquired, write_pid, stale_file, acquire_over,
  acquire_at, acquire_in,
}

-- The lock file with the id of the process.
abbrev pub IsHeld : Text → ℕ → Directory → Type 0
IsHeld name pid d = get name d ≡ some (text (show_radix 10 pid))

-- If the lock was acquired, the file has the id of the process.
abbrev pub Holds : Text → ℕ → Acquired → Type 0
Holds name pid (d, ok done) = IsHeld name pid d
Holds name pid (d, err e) = Unit {0}

module _ (process_exists : ℕ → Bool) (name : Text) (pid : ℕ) (l : Locking) where
  write_pid-Holds : (d : Directory) (o : Option File) → Holds name pid (write_pid name pid d o)
  unfolding write_pid
  write_pid-Holds d none = get-insert_self name (text (show_radix 10 pid)) d
  write_pid-Holds d (some file) = tt

  acquire_over-Holds :
      (d : Directory) (o : Option Bool)
      → Holds name pid (acquire_over process_exists name pid l d o)
  unfolding acquire_over
  acquire_over-Holds d none = tt
  acquire_over-Holds d (some false) = tt
  acquire_over-Holds d (some true) =
      if-keeps (Holds name pid) l.removed
        (if-keeps (Holds name pid) l.opened_again (write_pid-Holds (remove name d) l.torn) tt) tt

  acquire_at-Holds :
      (d : Directory) (o : Option File) → Holds name pid (acquire_at process_exists name pid l d o)
  unfolding acquire_at
  acquire_at-Holds d none = write_pid-Holds d l.torn
  acquire_at-Holds d (some file) = acquire_over-Holds d (stale_file process_exists l.readable file)

  pub acquire_in-Holds : (d : Directory) → Holds name pid (acquire_in process_exists name pid l d)
  unfolding acquire_in
  acquire_in-Holds d = if-keeps (Holds name pid) l.opened (acquire_at-Holds d (get name d)) tt

-- The lock is not acquired, and no file is touched.
pub record IsRefused (d : Directory) (r : Acquired) : Type 0 where
  pub same : r.0 ≡ d
  pub refused : r.1 ≢ ok tt

err-IsRefused : (d : Directory) (e : AcquireError) → IsRefused d (d, err e)
err-IsRefused d e = record { same = refl; refused = λ h. cc h }

module _ (process_exists : ℕ → Bool) (name : Text) (pid : ℕ) (fits : pid ≤ u32_max)
    (alive : process_exists pid ≡ true) (other : ℕ) (l : Locking) (d : Directory) where
  over-IsRefused :
      (readable : Bool)
      → IsRefused d (
          acquire_over process_exists name other l d
            (stale_file process_exists readable (text (show_radix 10 pid))))
  unfolding stale_file acquire_over
  over-IsRefused true = rw (own_pid-fresh process_exists pid fits alive) (err-IsRefused d locked)
  over-IsRefused false = err-IsRefused d os_error

  -- A file with the id of a process that runs is not taken over.
  pub acquire_in-IsRefused :
      IsHeld name pid d → IsRefused d (acquire_in process_exists name other l d)
  unfolding acquire_in acquire_at
  acquire_in-IsRefused held =
      if-keeps (IsRefused d) l.opened (rw held (over-IsRefused l.readable))
        (err-IsRefused d os_error)
