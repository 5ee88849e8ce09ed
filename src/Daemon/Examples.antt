-- ===== src/Daemon/Examples.antt =====
-- The theorems on the daemon and its store at a concrete daemon and concrete lines.
use garwarp.Base.{
  ◌≡◌, ◌≢◌, ◌≤◌, false, text_eq, trim, some_injective, refl, arith, Option, none, some, true, [],
  ◌∷◌, List, Text, codes, ok, is_whitespace,
}
use mathlib.Core.Option
use garwarp.Base.Map.All.{All}
use garwarp.Ipc.Health.{healthy}
use garwarp.Request.Types.{RequestEntry, awaiting_user}
use garwarp.Request.{
  RequestRegistry, to_record, records, prune_terminal, removed_ids, expire_stale, expire_where,
  recover_after_restart, new,
}
use garwarp.Request.Invariant.{IsWf}
use garwarp.Request.Lookup.{entry_at}
use garwarp.Request.History.{Op, transition, expire_old, Present, Follows}
use garwarp.Request.History
use garwarp.Ipc.Response.{ack_request}
use garwarp.Request.Types
use garwarp.Base.Map.{get}
use garwarp.Request.Examples.{two, waiting, waiting_held, two-IsWf}
use garwarp.Store.{body, absent, load_registry, store_text}
use garwarp.Store.RecordLine.{parse_record_line-format}
use garwarp.Store.{format_record_line, parse_record_line}
use garwarp.Store.RoundTrip.{IsStorableEntry, load_registry-store_text}
use garwarp.Daemon.State.{DaemonState, System, start, loaded, persist}
use garwarp.Daemon.Connection.{Incoming, canonical_sender_for_uid, handle_connection, read_line}
use garwarp.Daemon.Connection.Acts.{Acts, handle_connection-Acts}
use garwarp.Daemon.Connection.Safety.{handle_connection-foreign, handle_connection-Follows}
use garwarp.Daemon.Connection.{handle_begin, begin_checks, identified, parsed_window, begin_reply}
use garwarp.Validate.{validate_request_identity, is_valid_request_id, is_id_char, is_valid_sender}
use garwarp.Base.{len, is_ascii_alphanumeric}
use garwarp.Base.Digits.{show_radix}
use garwarp.Window.{parse_optional_parent_window}
use garwarp.Base.Map.{insert}
use garwarp.Request.{begin_at, transition_at, transition_entry}
use garwarp.Request.Types.{is_terminal}
use garwarp.Daemon.Connection.Retry.{handle_begin-resumes}
use garwarp.Daemon.Round.{
  Events, round, run_loop, accept_round, finish_connection, prune_round, expire_round,
  persist_if_any,
}
use garwarp.Base.Map.{retain}
use garwarp.Base.Sort.{sort_by}
use garwarp.Ipc.Control
use garwarp.Daemon.Round.Health.{healthy-IsSaved}
use garwarp.Daemon.Round.Fresh.{AreFresh, IsOrdered, round-AreFresh}
use mathlib.Core.Path.{subst}
use garwarp.Daemon.Round.Durable.{IsSaved, NeverFails, run_loop-IsWf, run_loop-IsSaved}
use garwarp.Daemon.Round.Restart.{first_start, run_loop-restarts}

abbrev pub serving : DaemonState
serving = record { health = healthy; requests = two; running = true }

abbrev fulfills : Incoming
fulfills = record {
  uid = some 1000;
  uid_again = some 1000;
  stream = some (codes "transition id=b sender=:1.2 state=fulfilled app_id=org.test.App\n");
  now = 30;
}

abbrev pub begins_one : Incoming
begins_one = record {
  uid = some 1000;
  uid_again = some 1000;
  stream = some (codes "begin id=req-1 sender=:1.2 app_id=org.test.App parent=x11:0x2a\n");
  now = 30;
}

abbrev calm : Option Incoming → Events
calm accepted = record {
  expired_at = 31;
  pruned_at = 32;
  expired_saved = true;
  pruned_saved = true;
  accepted = accepted;
  replied = true;
  reply_saved = true;
}

abbrev rounds : List Events
rounds = calm (some begins_one) ∷ calm none ∷ []

rounds-NeverFails : NeverFails rounds
rounds-NeverFails = (
  record { expired_saved = refl; pruned_saved = refl; replied = refl; reply_saved = refl },
  (record { expired_saved = refl; pruned_saved = refl; replied = refl; reply_saved = refl }, tt),
)

not_alice : Option.map canonical_sender_for_uid (some 1000) ≢ some (codes ":1.2")
unfolding canonical_sender_for_uid
not_alice e = ground arith

handle_connection-foreign_example :
    entry_at (handle_connection 1000 fulfills serving).0.requests (codes "b") ≡ some waiting
handle_connection-foreign_example =
    handle_connection-foreign (codes "b") waiting 1000 fulfills serving waiting_held not_alice

handle_connection-Follows_example :
    (b : RequestEntry) × (entry_at (handle_connection 1000 fulfills serving).0.requests (codes "b")
      ≡ some b)
    × Follows waiting b
handle_connection-Follows_example =
    handle_connection-Follows (codes "b") waiting 1000 fulfills serving waiting_held

handle_connection-Acts_example :
    Acts (some 1000) 30 two (handle_connection 1000 fulfills serving).0.requests
handle_connection-Acts_example = handle_connection-Acts 1000 fulfills serving

two-IsStorable : All IsStorableEntry two.entries
unfolding to_record is_whitespace
two-IsStorable = (
  record { id = refl; sender = refl; app_id = (refl, λ e. ground arith); parent_window = tt },
  (record { id = refl; sender = refl; app_id = tt; parent_window = tt }, tt),
)

load_registry-store_text_example :
    (r : RequestRegistry) × (load_registry (body (store_text two)) 10 50 ≡ ok r)
    × (records r ≡ records two)
load_registry-store_text_example = load_registry-store_text two 10 50 two-IsWf two-IsStorable

parse_record_line-format_example :
    parse_record_line (format_record_line (to_record waiting)) ≡ ok (to_record waiting)
parse_record_line-format_example = parse_record_line-format (to_record waiting) two-IsStorable.0

abbrev pub stored : System
stored = record { daemon = serving; store = some (store_text two) }

run_loop-IsWf_example : IsWf (run_loop 1000 5 rounds stored).daemon.requests
run_loop-IsWf_example = run_loop-IsWf 1000 5 rounds stored two-IsWf

run_loop-IsSaved_example : IsSaved (run_loop 1000 5 rounds stored)
run_loop-IsSaved_example = run_loop-IsSaved 1000 5 rounds stored rounds-NeverFails refl

run_loop-restarts_example :
    (text : Text) × (r : RequestRegistry) × ((run_loop 1000 5 rounds (first_start 10 1 2)).store
      ≡ some text)
    × (load_registry (body text) 10 50 ≡ ok r)
    × (records r ≡ records (run_loop 1000 5 rounds (first_start 10 1 2)).daemon.requests)
run_loop-restarts_example = run_loop-restarts 1000 10 5 1 2 50 rounds rounds-NeverFails

abbrev first_begin : DaemonState
first_begin = (handle_begin (codes "req-1") none none (some 1000) 7 serving).0

-- The dialog is shown in between.
abbrev between : List Op
between =
    transition (codes "req-1") (record { sender = codes ":uid.1000"; app_id = none }) awaiting_user
      8
    ∷ expire_old 9
    ∷ []

abbrev shown : DaemonState
shown = record {
  health = healthy;
  requests = History.run between first_begin.requests;
  running = true;
}

between-Present : Present (codes "req-1") between first_begin.requests
unfolding History.apply entry_at insert transition_at transition_entry expire_stale expire_where
    is_terminal Types.state_eq Types.owner_eq handle_begin begin_checks identified
    validate_request_identity is_valid_request_id len is_id_char is_ascii_alphanumeric
    is_valid_sender canonical_sender_for_uid show_radix parsed_window parse_optional_parent_window
    begin_at get text_eq
between-Present = (refl, (refl, tt))

first_granted :
    (handle_begin (codes "req-1") none none (some 1000) 7 serving).1
    ≡ ack_request (codes "req-1") (codes "pending")
unfolding begin_reply handle_begin begin_checks identified validate_request_identity
    is_valid_request_id len is_id_char is_ascii_alphanumeric is_valid_sender
    canonical_sender_for_uid show_radix parsed_window parse_optional_parent_window begin_at get
    text_eq
first_granted = refl

handle_begin-resumes_example :
    (a b : RequestEntry) × (entry_at first_begin.requests (codes "req-1") ≡ some a)
    × (entry_at shown.requests (codes "req-1") ≡ some b)
    × Follows a b
    × (handle_begin (codes "req-1") none none (some 1000) 9 shown
        ≡ (shown, ack_request (codes "req-1") (Types.as_str b.state)))
handle_begin-resumes_example =
    handle_begin-resumes (codes "req-1") none none (some 1000) 7 serving two-IsWf between 9 shown
      between-Present refl first_granted

abbrev pub asks : Incoming
asks = record begins_one { stream = some (codes "list\n") }

-- A write that fails, and one that does not.
abbrev uneven : List Events
uneven = record (calm (some asks)) { reply_saved = false } ∷ calm (some asks) ∷ []

healthy_again : (run_loop 1000 5 uneven (start absent 10 1 2 none true)).daemon.health ≡ healthy
unfolding run_loop round start loaded persist accept_round finish_connection handle_connection
    read_line Control.parse_line text_eq trim is_whitespace prune_round persist_if_any
    prune_terminal sort_by removed_ids expire_round expire_stale expire_where load_registry
    recover_after_restart new retain
healthy_again = refl

healthy-IsSaved_example : IsSaved (run_loop 1000 5 uneven (start absent 10 1 2 none true))
healthy-IsSaved_example =
    healthy-IsSaved absent none 10 5 1 2 true 1000 uneven (refl, (refl, tt)) healthy_again

-- A request that is made after the reads of the clock.
abbrev later_round : Events
later_round = calm (some (record begins_one { now = 33 }))

later_round-IsOrdered : IsOrdered later_round
later_round-IsOrdered = record {
  in_round = omega arith;
  at_connection = λ c e. subst (λ (x : Incoming). 32 ≤ x.now) (some_injective e) (omega arith);
}

round-AreFresh_example : AreFresh 10 5 31 32 (round 1000 5 later_round stored).daemon.requests
round-AreFresh_example =
    round-AreFresh 5 later_round (omega arith) 1000 stored (omega arith) later_round-IsOrdered
