-- ===== src/Ipc/Examples.antt =====
-- The theorems on the control protocol at concrete lines.
use garwarp.Base.{
  ◌≡◌, refl, none, some, [], ◌∷◌, ok, codes, trim, is_whitespace, text_eq, split_once,
  split_whitespace,
}
use garwarp.Base.Map.{get, insert}
use garwarp.Ipc.Control.{ControlRequest, begin_request, transition_request, as_line, parse_parts}
use garwarp.Ipc.Control
use garwarp.Ipc.Control.RoundTrip.{parse_line-as_line}
use garwarp.Ipc.Response.{ControlResponse, request_list, to_line, status}
use garwarp.Ipc.Response
use garwarp.Ipc.Response.RoundTrip.{parse_line-to_line, AreIds}

abbrev begin_one : ControlRequest
begin_one =
    begin_request (codes "req-1") (codes ":1.2") (some (codes "org.test.App"))
      (some (codes "x11:0x2a"))

parse_line-as_line_example : Control.parse_line (as_line begin_one) ≡ some begin_one
unfolding is_whitespace
parse_line-as_line_example = parse_line-as_line begin_one (refl, refl, refl, refl)

duplicate_field : Control.parse_line (codes "inspect id=req-1 id=req-2") ≡ none
unfolding Control.parse_line parse_parts trim is_whitespace split_whitespace split_once text_eq get
    insert
duplicate_field = refl

unknown_field : Control.parse_line (codes "inspect id=req-1 bogus=1") ≡ none
unfolding Control.parse_line parse_parts trim is_whitespace split_whitespace split_once text_eq get
    insert
unknown_field = refl

abbrev two_ids : ControlResponse
two_ids = request_list (codes "req-1" ∷ codes "req-2" ∷ [])

two-AreIds : AreIds (codes "req-1" ∷ codes "req-2" ∷ [])
unfolding is_whitespace
two-AreIds = (refl, refl, refl, (refl, refl, refl, tt))

parse_line-to_line_example : Response.parse_line (to_line two_ids) ≡ ok two_ids
parse_line-to_line_example = parse_line-to_line two_ids (two-AreIds, λ e. cc e)
