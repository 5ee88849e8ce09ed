-- ===== src/Lock/Exclusion.antt =====
-- Exclusion between the processes that call `acquire` of garwarp/src/lock.rs.
use garwarp.Base.{
  ap, ◌∙◌, not, ℕ, ◌≤◌, ◌<◌, Bool, true, false, Option, none, some, ◌≡◌, refl, arith, ok, err, Text,
  is_dark, is_whitespace, trim, trim-dark,
}
use garwarp.Base.Shown.{IsDark}
use garwarp.Base.Digits.{
  from_str_radix, from_str_radix-show_radix, show_radix, all-show_radix, digit_char, u32_max,
}
use garwarp.Lock.{acquire, is_stale, already_running}

show_radix-IsDark : (n : ℕ) → IsDark (show_radix 10 n)
show_radix-IsDark n = all-show_radix is_dark digit 10 n (omega arith) (omega arith)
  where
    digit : (d : ℕ) → d < 16 → is_dark (digit_char d) ≡ true
    digit d h = unfold is_whitespace in ground arith

module _ (process_exists : ℕ → Bool) (pid : ℕ) (fits : pid ≤ u32_max)
    (alive : process_exists pid ≡ true) where
  own_pid-read : from_str_radix u32_max 10 (trim (show_radix 10 pid)) ≡ some pid
  own_pid-read =
      rw (trim-dark (show_radix 10 pid) (show_radix-IsDark pid))
        (from_str_radix-show_radix u32_max 10 pid (omega arith) (omega arith) fits)

  pub own_pid-fresh : is_stale process_exists (show_radix 10 pid) ≡ false
  unfolding is_stale
  own_pid-fresh =
      ap (λ (o : Option ℕ). elim o [ none ↦ true | some p ↦ not (process_exists p) ]) own_pid-read
      ∙ ap not alive

  pub held :
      (file : Option Text)
      → (acquire process_exists pid file).1 ≡ ok tt
      → (acquire process_exists pid file).0 ≡ some (show_radix 10 pid)
  unfolding acquire
  held none h = refl
  held (some content) h = ground arith

  -- As long as the process that acquired the lock runs, and its id has 32 bits, no process acquires
  -- it, and the file stays.
  pub acquire-excludes :
      (file : Option Text) (other : ℕ)
      → (acquire process_exists pid file).1 ≡ ok tt
      → acquire process_exists other (acquire process_exists pid file).0
        ≡ ((acquire process_exists pid file).0, err already_running)
  acquire-excludes file other h = rw (held file h) (unfold acquire in rw own_pid-fresh refl)
