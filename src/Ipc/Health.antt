-- ===== src/Ipc/Health.antt =====
-- `HealthStatus` of garwarp-ipc/src/lib.rs, and the constants of the protocol.
use garwarp.Base.{ℕ, Option, none, some, Text, codes, text_eq, if◌then◌else◌}

abbrev pub protocol_version : ℕ
protocol_version = 1

pub data HealthStatus : Type 0 where
  starting healthy degraded stopping : HealthStatus

unfoldable pub as_str : HealthStatus → Text
as_str starting = codes "starting"
as_str healthy = codes "healthy"
as_str degraded = codes "degraded"
as_str stopping = codes "stopping"

unfoldable pub parse : Text → Option HealthStatus
parse input =
    if text_eq input (codes "starting")
    then some starting
    else if text_eq input (codes "healthy")
    then some healthy
    else if text_eq input (codes "degraded")
    then some degraded
    else if text_eq input (codes "stopping")
    then some stopping
    else none
