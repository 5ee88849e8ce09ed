-- ===== src/Ctl/Examples.antt =====
-- The theorems on the client at concrete arguments and a concrete daemon.
use garwarp.Base.{
  ◌≡◌, ◌≢◌, ◌≤◌, ◌<◌, refl, arith, none, some, [], ◌∷◌, ◌++◌, codes, ok, len, utf8_len,
  is_whitespace, join,
}
use garwarp.Base.Digits.{u64_max}
use garwarp.Base.Map.All.{All}
use garwarp.Base.Sort.{sort_by, insert_by, text_le}
use garwarp.Base.Map.{values}
use garwarp.Ipc.Target.{fulfilled}
use garwarp.Ipc.Control.{begin_request, as_line}
use garwarp.Ipc.Response.{to_line}
use garwarp.Request.{total_count, records, to_record}
use garwarp.Request.Examples.{two}
use garwarp.Daemon.Connection.{handle_request, handle_connection}
use garwarp.Daemon.Connection.Spoken.{IsSpoken}
use garwarp.Daemon.Connection.Speaks.{ids_of}
use garwarp.Daemon.Examples.{serving}
use garwarp.Ctl.{Command, begin, transition, request_of, parse_command}
use garwarp.Ctl.Args.{args_of, parse_command-args_of}
use garwarp.Ctl.Run.{prints, run, respond}
use garwarp.Ctl
use garwarp.Ctl.Smoke.{contains_text, run_portal_smoke}
use garwarp.Ctl.Smoke.Backend.{backend, after}
use garwarp.Ctl.Smoke.Passes.{passed, run_portal_smoke-passes}
use garwarp.Dispatch.{PortalDispatch}
use garwarp.Dispatch
use garwarp.Base.{Text, is_ascii_alphanumeric}
use garwarp.Validate.{is_valid_sender, is_id_char}
use garwarp.Base.Map.{get}
use garwarp.Request
use garwarp.Ctl.Exchange.{trusted, served, run-answers}

parse_command-args_of_example :
    parse_command (args_of (transition (codes "a") (codes ":1.2") none fulfilled))
    ≡ ok (transition (codes "a") (codes ":1.2") none fulfilled)
parse_command-args_of_example =
    parse_command-args_of (transition (codes "a") (codes ":1.2") none fulfilled) tt

two-IsSpoken : All IsSpoken two.entries
unfolding is_whitespace
two-IsSpoken = (
  record {
    dark = refl;
    filled = refl;
    listed = refl;
    sender = refl;
    app_id = (refl, λ e. ground arith);
  },
  (record { dark = refl; filled = refl; listed = refl; sender = refl; app_id = tt }, tt),
)

abbrev command : Command
command = begin (codes "req-1") (codes ":1.2") (some (codes "org.test.App")) none

two_counted : total_count two ≤ u64_max
unfolding total_count
two_counted = omega arith

two_listed : ids_of two ≢ codes "-" ∷ []
unfolding records sort_by insert_by text_le values to_record
two_listed e = ground arith

short :
    len (as_line (begin_request (codes "req-1") (codes ":1.2") (some (codes "org.test.App")) none))
    < 4096
unfolding len as_line join utf8_len
short = omega arith

run-answers_example :
    let r = begin_request (codes "req-1") (codes ":1.2") (some (codes "org.test.App")) none in
    (run to_line (served 1000 9 serving) (prints []) command
      ≡ respond to_line command (handle_request (some r) (some 1000) 9 serving).1)
    × ((handle_connection 1000 (trusted 1000 9 (as_line r ++ codes "\n")) serving).0
        ≡ (handle_request (some r) (some 1000) 9 serving).0)
unfolding request_of is_whitespace
run-answers_example =
    run-answers 1000 9 serving
      (begin_request (codes "req-1") (codes ":1.2") (some (codes "org.test.App")) none)
      (refl, refl, refl, tt) short two-IsSpoken two_counted (λ e. two_listed) to_line (prints [])
      command refl

-- The options of the smoke test are empty, so any type of their values will do.
abbrev dispatch : PortalDispatch
unfolding Dispatch.new Request.new
dispatch = Dispatch.new 1000

run_portal_smoke-passes_example :
    run_portal_smoke
      (backend {Value = Text} (λ v. none) some (λ reason. reason) (λ handle. (3, 4)) (codes ":1.7"))
      (λ path. ok tt)
      (ok (some (codes ":1.7")))
      dispatch
    ≡ (
      after
          (λ handle. (3, 4))
          (codes ":1.7")
          (codes "1_7")
          (codes "smoke_choose_app")
          (after
            (λ handle. (3, 4))
            (codes ":1.7")
            (codes "1_7")
            (codes "smoke_open_file")
            (after
              (λ handle. (3, 4))
              (codes ":1.7")
              (codes "1_7")
              (codes "smoke_screenshot")
              dispatch)),
      passed,
      ok tt,
    )
unfolding Ctl.sender_to_handle_segment Ctl.segment_of is_ascii_alphanumeric is_valid_sender
    is_id_char len utf8_len contains_text get Dispatch.new Request.new
run_portal_smoke-passes_example =
    run_portal_smoke-passes {Value = Text} (λ v. none) some (λ reason. reason) (λ handle. (3, 4))
      (λ path. ok tt) (codes ":1.7") (codes "1_7") dispatch refl refl (omega arith) refl
      (λ token part. refl) (λ token. refl)
