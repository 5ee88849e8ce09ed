-- ===== src/Config/Bounds.antt =====
-- Bounds on the durations that `Config::from_env` of garwarp/src/config.rs reads.
use garwarp.Base.{ℕ, ◌<◌, Option, none, some, arith, Text, and_then}
use garwarp.Base.Digits.{from_str_radix, u64_max}
use garwarp.Config.{from_env, millis_or, or_default, positive}

or_default-positive :
    (default : ℕ) (o : Option ℕ) → 0 < default → 0 < or_default default (and_then o positive)
or_default-positive default none h = omega arith
or_default-positive default (some value) h = ground arith

millis_or-positive : (default : ℕ) (var : Option Text) → 0 < default → 0 < millis_or default var
unfolding millis_or
millis_or-positive default var h =
    or_default-positive default (and_then var (from_str_radix u64_max 10)) h

-- Whatever the environment holds, the poll interval, the timeout of a request and the retention of
-- a terminal one are positive.
pub from_env-positive :
    (var : Text → Option Text)
    → (0 < (from_env var).poll_interval)
      × (0 < (from_env var).request_timeout)
      × (0 < (from_env var).terminal_retention)
unfolding from_env
from_env-positive var = (
  millis_or-positive 100 _ (omega arith),
  millis_or-positive 30_000 _ (omega arith),
  millis_or-positive 30_000 _ (omega arith),
)
