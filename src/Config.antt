-- ===== src/Config.antt =====
-- garwarp/src/config.rs, and the command of garwarp/src/main.rs.
pub mod Bounds
pub mod Main
use garwarp.Base.{
  ℕ, ◌*◌, Option, none, some, Text, codes, text_eq, ◌||◌, and_then, ltb, if◌then◌else◌,
}
use garwarp.Base.Digits.{from_str_radix, u64_max}
use garwarp.Request.Types.{Duration}

-- `Duration::from_millis`, in nanoseconds.
abbrev pub from_millis : ℕ → Duration
from_millis ms = ms * 1_000_000

pub record Config : Type 0 where
  pub poll_interval : Duration
  pub request_timeout : Duration
  pub terminal_retention : Duration

abbrev positive : ℕ → Option ℕ
positive value = if ltb 0 value then some value else none

abbrev or_default : ℕ → Option ℕ → Duration
or_default default none = from_millis default
or_default default (some value) = from_millis value

-- The chain that reads one variable of the environment.
unfoldable pub millis_or : ℕ → Option Text → Duration
millis_or default var =
    or_default default (and_then (and_then var (from_str_radix u64_max 10)) positive)

-- The environment is a function from the names of its variables.
unfoldable pub from_env : (Text → Option Text) → Config
unfolding millis_or
from_env var = record {
  poll_interval = millis_or 100 (var (codes "GARWARP_POLL_MS"));
  request_timeout = millis_or 30_000 (var (codes "GARWARP_REQUEST_TIMEOUT_MS"));
  terminal_retention = millis_or 30_000 (var (codes "GARWARP_TERMINAL_RETENTION_MS"));
}

pub data Command : Type 0 where
  daemon version help : Command

-- `parse_command` of garwarp/src/main.rs.
unfoldable pub parse_command : Option Text → Command
parse_command none = daemon
parse_command (some input) =
    if text_eq input (codes "daemon")
    then daemon
    else if text_eq input (codes "version")
        || text_eq input (codes "--version")
        || text_eq input (codes "-V")
    then version
    else help
