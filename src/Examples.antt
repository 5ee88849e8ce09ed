-- ===== src/Examples.antt =====
-- The theorems on the D-Bus methods, the client, the lock and the configuration at concrete values.
use garwarp.Base.{
  none, arith, true, len, ◌<◌, ◌≡◌, ◌≢◌, refl, false, some, [], ◌∷◌, codes, Result, ok,
  is_ascii_alphanumeric, is_whitespace, trim, text_eq,
}
use garwarp.Error.{PortalError}
use garwarp.Request.Types.{is_terminal}
use garwarp.Validate.{is_valid_request_id, is_id_char, validate_request_id}
use garwarp.Portal.{RequestHandle, derive_request_id, segment_of, is_segment_char}
use garwarp.Portal
use garwarp.Portal.Separation.{derive_request_id-separates}
use garwarp.Dispatch.{PortalDispatch, register_unimplemented_call}
use garwarp.Dispatch.Settled.{AllSettled}
use garwarp.Dispatch.Effect.{Adds, register_unimplemented_call-Adds}
use garwarp.Base.{Text, false}
use garwarp.Base.Map.{get}
use garwarp.Base.Digits.{show_radix}
use garwarp.Request.Examples.{done}
use garwarp.Dbus.{Call, update_choices}
use garwarp.Dbus.Replies.{serve, update_choices-refused}
use garwarp.Dispatch
use garwarp.Ctl
use garwarp.Ctl.Segments.{answer, sender_to_handle_segment-agrees}
use garwarp.Lock.Steps.{LockFiles, Point, holding, step, interleave, text_at}
use garwarp.Lock.Race.{attempt, interleave-excludes}
use garwarp.Config.{from_env}
use garwarp.Config.Bounds.{from_env-positive}

abbrev handle : RequestHandle
handle = record { sender_segment = codes "1_2"; token = codes "t" }

handle_id : derive_request_id (codes ":1.2") handle ≡ ok (codes "req:1_2:t")
unfolding derive_request_id Portal.sender_to_handle_segment Portal.segment_of is_ascii_alphanumeric
    is_segment_char validate_request_id is_valid_request_id is_id_char trim is_whitespace text_eq
    Portal.is_valid_path_segment len
handle_id = refl

-- Another sender with the same segment.
handle_id_dash : derive_request_id (codes ":1-2") handle ≡ ok (codes "req:1_2:t")
unfolding derive_request_id Portal.sender_to_handle_segment Portal.segment_of is_ascii_alphanumeric
    is_segment_char validate_request_id is_valid_request_id is_id_char trim is_whitespace text_eq
    Portal.is_valid_path_segment len
handle_id_dash = refl

derive_request_id-separates_example :
    (Portal.sender_to_handle_segment (codes ":1.2")
      ≡ Portal.sender_to_handle_segment (codes ":1-2"))
    × (codes "t" ≡ codes "t")
derive_request_id-separates_example =
    derive_request_id-separates (codes ":1.2") (codes ":1-2") handle handle handle_id handle_id_dash

abbrev one_done : PortalDispatch
one_done = record { requests = record { entries = (codes "a", done) ∷ []; timeout = 10 } }

one-AllSettled : AllSettled one_done
unfolding is_terminal
one-AllSettled = (refl, tt)

abbrev called : PortalDispatch
called =
    (register_unimplemented_call (codes "req:1_2:t") (codes ":1.2") (codes "") (codes "") 3 4
      one_done).0

register_unimplemented_call-Adds_example :
    AllSettled called
    × ((j : Text)
        → Adds
            (codes "req:1_2:t")
            (codes ":1.2")
            3
            4
            j
            (get j one_done.requests.entries)
            (get j called.requests.entries))
register_unimplemented_call-Adds_example =
    register_unimplemented_call-Adds (codes "req:1_2:t") (codes ":1.2") (codes "") (codes "") 3 4
      one_done one-AllSettled

abbrev call : Call
call = record {
  sender = some (codes ":1.2");
  handle = codes "/org/freedesktop/portal/desktop/request/1_2/t";
  app_id = codes "org.test.App";
  parent_window = codes "x11:0x2a";
  began = 3;
  failed_at = 4;
  poisoned = false;
}

abbrev readable : Result PortalError (Unit {0})
readable = ok tt

update_choices-refused_example :
    update_choices call (serve ((readable, call) ∷ []) (Dispatch.new 10)) ≢ ok tt
update_choices-refused_example = update_choices-refused 10 ((readable, call) ∷ []) call

sender_to_handle_segment-agrees_example :
    answer (Ctl.sender_to_handle_segment (codes ":1.2"))
    ≡ answer (Portal.sender_to_handle_segment (codes ":1.2"))
sender_to_handle_segment-agrees_example = sender_to_handle_segment-agrees (codes ":1.2")

from_env-positive_example :
    (0 < (from_env (λ name. some (codes "250"))).poll_interval)
    × (0 < (from_env (λ name. some (codes "250"))).request_timeout)
    × (0 < (from_env (λ name. some (codes "250"))).terminal_retention)
from_env-positive_example = from_env-positive (λ name. some (codes "250"))

-- No file is at the path of the lock.
abbrev no_lock : LockFiles
no_lock = record { link = none; contents = λ file. []; next = 0 }

no_lock-acquired : (attempt (λ pid. true) 7 8 no_lock).0 ≡ holding
unfolding interleave step
no_lock-acquired = refl

abbrev second_attempt : Point × Point × LockFiles
second_attempt =
    interleave (λ pid. true) 7 8 (false ∷ true ∷ false ∷ false ∷ [])
      (attempt (λ pid. true) 7 8 no_lock)

interleave-excludes_example :
    (second_attempt.0 ≡ holding)
    × (second_attempt.1 ≢ holding)
    × (text_at second_attempt.2 ≡ some (show_radix 10 7))
interleave-excludes_example =
    interleave-excludes (λ pid. true) 7 8 (omega arith) refl no_lock
      (false ∷ true ∷ false ∷ false ∷ []) no_lock-acquired
