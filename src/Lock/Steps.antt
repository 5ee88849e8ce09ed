-- ===== src/Lock/Steps.antt =====
-- `SingleInstanceGuard::acquire` of garwarp/src/lock.rs, one call of the file system after the
-- other, so that the calls of two processes can be interleaved. A file that is removed is still
-- written by a process that has it open.
use garwarp.Base.{
  ℕ, ◌+◌, ◌==◌, Bool, true, false, Option, none, some, List, [], ◌∷◌, Result, ok, err, Text,
  if◌then◌else◌,
}
use garwarp.Base.Digits.{show_radix}
use garwarp.Lock.{is_stale, LockError, already_running}

-- The file that the path of the lock names, and the text of each file.
pub record LockFiles : Type 0 where
  pub link : Option ℕ
  pub contents : ℕ → Text
  pub next : ℕ

-- Where a process is: in front of its first `try_create_lock`, of `write_pid` on an open file, of
-- `is_stale`, of `remove_file` and of its second `try_create_lock`, or at an end.
pub data Point : Type 0 where
  trying : Point
  created : ℕ → Point
  occupied removing retrying holding refused failed : Point

abbrev write : ℕ → Text → LockFiles → LockFiles
write file contents f = record f {
  contents = λ other. if file == other then contents else f.contents other;
}

-- `try_create_lock` at a free path.
abbrev create : LockFiles → Point × LockFiles
create f = (
  created f.next,
  record {
    link = some f.next;
    contents = λ other. if f.next == other then [] else f.contents other;
    next = f.next + 1;
  },
)

module _ (process_exists : ℕ → Bool) where
  step_at : ℕ → Point → Option ℕ → LockFiles → Point × LockFiles
  step_at pid trying none f = create f
  step_at pid trying (some file) f = (occupied, f)
  step_at pid (created file) link f = (holding, write file (show_radix 10 pid) f)
  step_at pid occupied none f = (failed, f)
  step_at pid occupied (some file) f =
      ((if is_stale process_exists (f.contents file) then removing else refused), f)
  step_at pid removing none f = (failed, f)
  step_at pid removing (some file) f = (retrying, record f { link = none })
  step_at pid retrying none f = create f
  step_at pid retrying (some file) f = (failed, f)
  step_at pid ended link f = (ended, f)

  unfoldable pub step : ℕ → Point → LockFiles → Point × LockFiles
  unfolding step_at
  step pid point f = step_at pid point f.link f

  -- The first process, if the flag is set, or the second one acts.
  abbrev pub turn : ℕ → ℕ → Bool → Point × Point × LockFiles → Point × Point × LockFiles
  turn a b true (p, q, f) = let (p', f') = step a p f in (p', q, f')
  turn a b false (p, q, f) = let (q', f') = step b q f in (p, q', f')

  unfoldable pub interleave :
      ℕ → ℕ → List Bool → Point × Point × LockFiles → Point × Point × LockFiles
  unfolding step
  interleave a b [] s = s
  interleave a b (first ∷ more) s = interleave a b more (turn a b first s)

-- The text at the path.
abbrev pub text_at : LockFiles → Option Text
text_at f = elim f.link [ none ↦ none | some file ↦ some (f.contents file) ]

-- The result of an attempt that has ended as `acquire` says.
abbrev pub result_at : Point → Option (Result LockError (Unit {0}))
result_at holding = some (ok tt)
result_at refused = some (err already_running)
result_at point = none
