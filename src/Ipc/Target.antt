-- ===== src/Ipc/Target.antt =====
-- `RequestTransitionTarget` of garwarp-ipc/src/lib.rs.
use garwarp.Base.{Option, none, some, Text, codes, text_eq, if◌then◌else◌}

pub data RequestTransitionTarget : Type 0 where
  awaiting_user fulfilled cancelled failed : RequestTransitionTarget

unfoldable pub as_str : RequestTransitionTarget → Text
as_str awaiting_user = codes "awaiting_user"
as_str fulfilled = codes "fulfilled"
as_str cancelled = codes "cancelled"
as_str failed = codes "failed"

unfoldable pub parse : Text → Option RequestTransitionTarget
parse input =
    if text_eq input (codes "awaiting_user")
    then some awaiting_user
    else if text_eq input (codes "fulfilled")
    then some fulfilled
    else if text_eq input (codes "cancelled")
    then some cancelled
    else if text_eq input (codes "failed")
    then some failed
    else none
