-- ===== src/Ctl/Smoke/Passes.antt =====
-- A run of the portal smoke test of garwarpctl/src/main.rs against the methods of
-- garwarp/src/dbus.rs.
use garwarp.Base.{
  ◌≤◌, Bool, true, false, Option, some, List, [], ◌∷◌, ◌++◌, ◌≡◌, refl, ap, arith, Result, ok, err,
  Text, codes, len, utf8_len, text_eq, is_ascii_alphanumeric,
}
use garwarp.Base.Digits.{show_radix}
use garwarp.Base.Map.{contains_key}
use garwarp.Validate.{is_valid_sender}
use garwarp.Portal.{is_segment_char}
use garwarp.Portal.Separation.{id_text}
use garwarp.Request.Types.{Instant}
use garwarp.Dispatch.{PortalDispatch}
use garwarp.Ctl.{sender_to_handle_segment}
use garwarp.Ctl.Smoke.{request_handle, contains_text, smoke_calls, run_portal_smoke}
use garwarp.Ctl.Smoke.Identity.{path_of, IsSegment}
use garwarp.Ctl.Smoke.Backend.{
  backend, after, not_taken, call_portal_screenshot-after, call_portal_open_file-after,
  call_portal_choose_application-after, call_portal_update_choices-after,
}

abbrev first : Text
first = codes "smoke_screenshot"

abbrev second : Text
second = codes "smoke_open_file"

abbrev third : Text
third = codes "smoke_choose_app"

first_part : IsSegment first
unfolding is_segment_char is_ascii_alphanumeric
first_part = record { valid = refl; filled = refl }

second_part : IsSegment second
unfolding is_segment_char is_ascii_alphanumeric
second_part = record { valid = refl; filled = refl }

third_part : IsSegment third
unfolding is_segment_char is_ascii_alphanumeric
third_part = record { valid = refl; filled = refl }

first_fits : len first ≤ 23
unfolding len utf8_len
first_fits = omega arith

second_fits : len second ≤ 23
unfolding len utf8_len
second_fits = omega arith

third_fits : len third ≤ 23
unfolding len utf8_len
third_fits = omega arith

-- What a smoke test that passes prints.
abbrev pub passed : List Text
passed =
    codes "screenshot_response=2"
    ∷ codes "open_file_response=2"
    ∷ codes "choose_application_response=2"
    ∷ codes "update_choices=invalid_transition"
    ∷ codes "portal_smoke=ok"
    ∷ []

module _ {Value : Type 0} (as_bool : Value → Option Bool) (as_text : Value → Option Text)
    (error_text : Text → Text) (clock : Text → Instant × Instant)
    (object_path : Text → Result Text (Unit {0})) (sender segment : Text) (d : PortalDispatch)
    (named : sender_to_handle_segment sender ≡ ok segment) (valid : is_valid_sender sender ≡ true)
    (short : len segment ≤ 100)
    (shows : contains_text (codes "invalid_transition") (error_text (codes "invalid_transition"))
      ≡ true)
    (accepted : (token : Text) → IsSegment token → object_path (path_of segment token) ≡ ok tt)
    (free : (token : Text) → contains_key (id_text segment token) d.requests.entries ≡ false) where
  request_handle-accepted :
      (token : Text)
      → IsSegment token
      → request_handle (backend as_bool as_text error_text clock sender) object_path segment token
        ≡ ok (path_of segment token)
  unfolding request_handle
  request_handle-accepted token part =
      ap
        (λ (r : Result Text (Unit {0})). elim r [
          | err e ↦
              err (
                codes "invalid request-handle path "
                ++ (path_of segment token ++ (codes ": " ++ e)))
          | ok done ↦ ok (path_of segment token)
        ])
        (accepted token part)

  abbrev after_first : PortalDispatch
  after_first = after clock sender segment first d

  abbrev after_second : PortalDispatch
  after_second = after clock sender segment second after_first

  second_free : contains_key (id_text segment second) after_first.requests.entries ≡ false
  unfolding text_eq
  second_free = not_taken segment first second _ d.requests.entries refl (free second)

  third_free : contains_key (id_text segment third) after_second.requests.entries ≡ false
  unfolding text_eq
  third_free =
      not_taken segment second third _ after_first.requests.entries refl
        (not_taken segment first third _ d.requests.entries refl (free third))

  -- The smoke test passes if the bus gives it a valid name whose segment has at most 100 bytes, no id
  -- of that name is taken, the bus accepts its object paths, and an error shows its reason. It prints
  -- the three codes of a failure, the refused update and its last line, and leaves its three requests
  -- failed.
  pub run_portal_smoke-passes :
      run_portal_smoke
        (backend as_bool as_text error_text clock sender)
        object_path
        (ok (some sender))
        d
      ≡ (after clock sender segment third after_second, passed, ok tt)
  unfolding run_portal_smoke smoke_calls show_radix
  run_portal_smoke-passes =
      rw
        (
          named,
          request_handle-accepted first first_part,
          call_portal_screenshot-after as_bool as_text error_text clock sender segment named valid
              short first first_part first_fits d (free first) object_path,
          request_handle-accepted second second_part,
          call_portal_open_file-after as_bool as_text error_text clock sender segment named valid
              short second second_part second_fits after_first second_free object_path,
          request_handle-accepted third third_part,
          call_portal_choose_application-after as_bool as_text error_text clock sender segment named
              valid short third third_part third_fits after_second third_free object_path,
          call_portal_update_choices-after as_bool as_text error_text clock sender segment named
              valid short third third_part third_fits after_second third_free object_path shows,
        )
        refl
