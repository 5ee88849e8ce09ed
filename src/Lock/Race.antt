-- ===== src/Lock/Race.antt =====
-- Attempts on the lock of garwarp/src/lock.rs, by one process that nothing disturbs and by two.
use garwarp.Base.{
  ℕ, ◌==◌, ◌+◌, arith, Bool, true, false, Option, none, some, List, [], ◌∷◌, ◌≡◌, ◌≢◌, ◌≤◌, refl,
  ap, sym, ◌∙◌, ok, some_injective, Text, if◌then◌else◌, trim, is_whitespace,
}
use garwarp.Base.Digits.{u32_max, show_radix, from_str_radix}
use garwarp.Lock.{is_stale, acquire}
use garwarp.Lock.Exclusion.{own_pid-fresh, held}
use garwarp.Lock.Steps.{
  turn, occupied, LockFiles, Point, trying, created, removing, holding, refused, step, interleave,
  text_at, result_at,
}

same : (n : ℕ) → (n == n) ≡ true
same n = ground arith

-- The second process does nothing.
abbrev alone : List Bool
alone = true ∷ true ∷ true ∷ true ∷ true ∷ []

-- Both processes hold the lock, and the file names the second one.
pub AreHolding : ℕ → Point × Point × LockFiles → Type 0
AreHolding b s = (s.0 ≡ holding) × (s.1 ≡ holding) × (text_at s.2 ≡ some (show_radix 10 b))

module _ (process_exists : ℕ → Bool) (a b : ℕ) where
  abbrev pub attempt : LockFiles → Point × Point × LockFiles
  attempt f = interleave process_exists a b alone (trying, trying, f)

  module _ (contents : ℕ → Text) (next : ℕ) where
    abbrev at : Option ℕ → LockFiles
    at link = record { link = link; contents = contents; next = next }

    attempt_by_staleness :
        (file : ℕ) (stale : Bool)
        → is_stale process_exists (contents file) ≡ stale
        → (text_at (attempt (at (some file))).2
            ≡ (acquire process_exists a (some (contents file))).0)
          × (result_at (attempt (at (some file))).0
              ≡ some (acquire process_exists a (some (contents file))).1)
    unfolding interleave step acquire
    attempt_by_staleness file true h = (rw (h, same next) refl, rw h refl)
    attempt_by_staleness file false h = (rw h refl, rw h refl)

    attempt_by_link :
        (link : Option ℕ)
        → (text_at (attempt (at link)).2 ≡ (acquire process_exists a (text_at (at link))).0)
          × (result_at (attempt (at link)).0
              ≡ some (acquire process_exists a (text_at (at link))).1)
    unfolding interleave step acquire
    attempt_by_link none = (rw (same next) refl, refl)
    attempt_by_link (some file) =
        attempt_by_staleness file (is_stale process_exists (contents file)) refl

  -- The calls of a process that nothing disturbs leave the text at the path, and have the result,
  -- that `acquire` says.
  pub interleave-acquire :
      (f : LockFiles)
      → (text_at (attempt f).2 ≡ (acquire process_exists a (text_at f)).0)
        × (result_at (attempt f).0 ≡ some (acquire process_exists a (text_at f)).1)
  interleave-acquire f = attempt_by_link f.contents f.next f.link

-- A process that has not got past the look at the lock.
data IsShutOut : Point → Type 0 where
  shut_trying : IsShutOut trying
  shut_occupied : IsShutOut occupied
  shut_refused : IsShutOut refused

IsShutOut-waits : {p : Point} → IsShutOut p → p ≢ holding
IsShutOut-waits shut_trying h = cc
IsShutOut-waits shut_occupied h = cc
IsShutOut-waits shut_refused h = cc

module _ (process_exists : ℕ → Bool) (a b : ℕ) (fits : a ≤ u32_max)
    (alive : process_exists a ≡ true) where
  -- The first process holds the lock, and the file names it.
  record IsKept (s : Point × Point × LockFiles) : Type 0 where
    holds : s.0 ≡ holding
    out : IsShutOut s.1
    named : text_at s.2 ≡ some (show_radix 10 a)

  own_text-fresh :
      (text : Text) → some text ≡ some (show_radix 10 a) → is_stale process_exists text ≡ false
  own_text-fresh text e = rw (some_injective e) (own_pid-fresh process_exists a fits alive)

  step_out :
      (contents : ℕ → Text) (next : ℕ) (link : Option ℕ) {q : Point}
      → IsShutOut q
      → text_at (record { link = link; contents = contents; next = next }) ≡ some (show_radix 10 a)
      → IsKept (
          turn process_exists a b false
            (holding, q, record { link = link; contents = contents; next = next }))
  unfolding step
  step_out contents next none out named = cc
  step_out contents next (some file) shut_trying named = record {
    holds = refl;
    out = shut_occupied;
    named = named;
  }
  step_out contents next (some file) shut_occupied named =
      rw (own_text-fresh (contents file) named)
        (record { holds = refl; out = shut_refused; named = named })
  step_out contents next (some file) shut_refused named = record {
    holds = refl;
    out = shut_refused;
    named = named;
  }

  turn-IsKept :
      (first : Bool) (s : Point × Point × LockFiles)
      → IsKept s
      → IsKept (turn process_exists a b first s)
  unfolding step
  turn-IsKept true (p, q, f) h = rw h.holds (record { holds = refl; out = h.out; named = h.named })
  turn-IsKept false (p, q, f) h = rw h.holds (step_out f.contents f.next f.link h.out h.named)

  interleave-IsKept :
      (schedule : List Bool) (s : Point × Point × LockFiles)
      → IsKept s
      → IsKept (interleave process_exists a b schedule s)
  unfolding interleave
  interleave-IsKept [] s h = h
  interleave-IsKept (first ∷ more) s h =
      interleave-IsKept more (turn process_exists a b first s) (turn-IsKept first s h)

  attempt-IsKept :
      (f : LockFiles)
      → (attempt process_exists a b f).0 ≡ holding
      → IsKept (attempt process_exists a b f)
  attempt-IsKept f h = record {
    holds = h;
    out = unfold interleave in shut_trying;
    named =
        (interleave-acquire process_exists a b f).0
        ∙ held process_exists a fits alive (text_at f) granted;
  }
    where
      granted : (acquire process_exists a (text_at f)).1 ≡ ok tt
      granted =
          sym (some_injective (sym (ap result_at h) ∙ (interleave-acquire process_exists a b f).1))

  -- A process with an id of 32 bits that has acquired the lock undisturbed, and runs, keeps it: in
  -- whichever order its calls and those of one other attempt come then, that attempt never holds the
  -- lock, and the file names the first process.
  pub interleave-excludes :
      (f : LockFiles) (schedule : List Bool)
      → (attempt process_exists a b f).0 ≡ holding
      → let end = interleave process_exists a b schedule (attempt process_exists a b f) in
        (end.0 ≡ holding) × (end.1 ≢ holding) × (text_at end.2 ≡ some (show_radix 10 a))
  interleave-excludes f schedule h =
      let kept = interleave-IsKept schedule (attempt process_exists a b f) (attempt-IsKept f h) in
      (kept.holds, IsShutOut-waits kept.out, kept.named)

module _ (process_exists : ℕ → Bool) (a b : ℕ) where
  -- The second process acts between the creation of the file by the first one and its write.
  abbrev race : List Bool
  race = true ∷ false ∷ false ∷ false ∷ false ∷ false ∷ true ∷ []

  empty-stale : is_stale process_exists [] ≡ true
  unfolding is_stale from_str_radix trim is_whitespace
  empty-stale = refl

  module _ (contents : ℕ → Text) (next : ℕ) where
    emptied : ℕ → Text
    emptied other = if next == other then [] else contents other

    emptied-stale : is_stale process_exists (emptied next) ≡ true
    unfolding emptied
    emptied-stale = rw (same next) empty-stale

    -- Behind the look of the second process at the empty file.
    after_look :
        (stale : Bool)
        → stale ≡ true
        → AreHolding b (
            interleave process_exists a b (false ∷ false ∷ false ∷ true ∷ []) (
              created next,
              (if stale then removing else refused),
              record { link = some next; contents = emptied; next = next + 1 },
            ))
    unfolding AreHolding interleave step
    after_look true h = (refl, refl, rw (same (next + 1)) (ground arith))
    after_look false h = cc

    -- In that order two processes hold the lock, and the file names the second one.
    pub interleave-both : AreHolding b (
        interleave process_exists a b race
          (trying, trying, record { link = none; contents = contents; next = next }))
    unfolding interleave step emptied
    interleave-both = after_look (is_stale process_exists (emptied next)) emptied-stale
