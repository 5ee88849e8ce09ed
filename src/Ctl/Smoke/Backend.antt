-- ===== src/Ctl/Smoke/Backend.antt =====
-- The portal smoke test of garwarpctl/src/main.rs against the methods of garwarp/src/dbus.rs, on a
-- bus that passes on a call with the name of its sender.
use garwarp.Base.{
  ℕ, ◌≤◌, Bool, true, false, Option, none, some, [], ◌∷◌, ◌++◌, ◌≡◌, refl, ap, arith, Result, ok,
  err, map_err, Text, codes, text_eq, len, utf8_len, trim, is_whitespace, is_ascii_alphanumeric,
}
use garwarp.Base.Map.{Map, get, insert, contains_key, get-insert, get-insert_self}
use garwarp.Window.{parse_optional_parent_window}
use garwarp.Validate.{
  validate_request_id, is_valid_sender, is_valid_app_id, is_app_id_char, validate_request_identity,
}
use garwarp.Portal.Separation.{id_text}
use garwarp.Options.{
  ScreenshotOptions, FileChooserOptions, AppChooserOptions, parse_screenshot_options,
  parse_file_chooser_options, parse_app_chooser_options, bool_option, string_option,
}
use garwarp.Request.Types.{Instant, RequestOwner, RequestEntry, is_terminal}
use garwarp.Dispatch.{PortalDispatch, checked_call, normalize_optional}
use garwarp.Dispatch.Fresh.{failed_entry, with_entry}
use garwarp.Dbus
use garwarp.Dbus.{Call}
use garwarp.Dbus.Fresh.{placeholder-fresh, update_choices-failed}
use garwarp.Ctl.{sender_to_handle_segment}
use garwarp.Ctl.Smoke.{
  Portal, Called, expect_failed_response, call_portal_screenshot, call_portal_open_file,
  call_portal_choose_application, call_portal_update_choices_expect_invalid_transition, answered,
  contains_text,
}
use garwarp.Ctl.Smoke.Identity.{
  path_of, IsSegment, id_text-valid, derive_request_id_from_handle-path,
}

text_eq-append : (a b c : Text) → text_eq (a ++ b) (a ++ c) ≡ text_eq b c
unfolding text_eq
text_eq-append [] b c = refl
text_eq-append (x ∷ a) b c = ground (arith, text_eq-append a b c)

-- A token that is not another one makes an id that is not the other one.
pub not_taken :
    (segment a b : Text) (e : RequestEntry) (m : Map RequestEntry)
    → text_eq a b ≡ false
    → contains_key (id_text segment b) m ≡ false
    → contains_key (id_text segment b) (insert (id_text segment a) e m) ≡ false
unfolding text_eq
not_taken segment a b e m h k =
    rw
      (
        get-insert (id_text segment a) (id_text segment b) e m,
        text_eq-append segment (b':' ∷ a) (b':' ∷ b),
        h,
      )
      k

abbrev test_app : Text
test_app = codes "org.test.App"

abbrev test_owner : Text → RequestOwner
test_owner sender = record { sender = sender; app_id = some test_app }

-- What a call with a token leaves in the registry.
abbrev pub after : (Text → Instant × Instant) → Text → Text → Text → PortalDispatch → PortalDispatch
after clock sender segment token = with_entry (id_text segment token) (
    failed_entry (id_text segment token) (test_owner sender) none (clock (path_of segment token)).0
      (clock (path_of segment token)).1)

-- What the empty options are parsed to.
abbrev no_screenshot_options : ScreenshotOptions
no_screenshot_options = record { modal = none; interactive = none; permission_store_checked = none }

abbrev no_open_file_options : FileChooserOptions
no_open_file_options = record {
  accept_label = none;
  modal = none;
  multiple = none;
  directory = none;
  current_name = none;
}

abbrev no_choose_application_options : AppChooserOptions
no_choose_application_options = record {
  last_choice = none;
  modal = none;
  content_type = none;
  uri = none;
  filename = none;
  activation_token = none;
}

module _ {Value : Type 0} (as_bool : Value → Option Bool) (as_text : Value → Option Text)
    (error_text : Text → Text) (clock : Text → Instant × Instant) (sender : Text) where
  -- A call whose sender is known, with what the clock shows to it, by its handle.
  abbrev call_of : Text → Text → Text → Call
  call_of handle app_id parent_window = record {
    sender = some sender;
    handle = handle;
    app_id = app_id;
    parent_window = parent_window;
    began = (clock handle).0;
    failed_at = (clock handle).1;
    poisoned = false;
  }

  abbrev replied : PortalDispatch × ℕ → Called PortalDispatch
  replied (d, code) = (d, ok (ok (code, true)))

  -- An error reaches the client as some text about its reason.
  abbrev pub backend : Portal PortalDispatch
  backend = record {
    screenshot_call = λ handle app_id window d.
        replied (Dbus.screenshot as_bool as_text [] (call_of handle app_id window) d);
    open_file_call = λ handle app_id window d.
        replied (Dbus.open_file as_bool as_text [] (call_of handle app_id window) d);
    choose_application_call = λ handle app_id window d.
        replied (Dbus.choose_application as_bool as_text [] (call_of handle app_id window) d);
    update_choices_call =
        λ handle d. (d, map_err error_text (Dbus.update_choices (call_of handle [] []) d));
  }

  module _ (segment : Text) (named : sender_to_handle_segment sender ≡ ok segment)
      (valid : is_valid_sender sender ≡ true) (short : len segment ≤ 100) where
    module _ (token : Text) (part : IsSegment token) (fits : len token ≤ 23) where
      id_valid : validate_request_id (id_text segment token) ≡ ok tt
      id_valid = id_text-valid sender segment token named part (omega (arith, short, fits))

      checked_call-test :
          checked_call (id_text segment token) sender test_app [] ≡ ok (test_owner sender, none)
      unfolding checked_call normalize_optional validate_request_identity is_valid_app_id
          is_app_id_char parse_optional_parent_window trim is_whitespace len utf8_len
          is_ascii_alphanumeric
      checked_call-test = rw (id_valid, valid) refl

      module _ (d : PortalDispatch)
          (fresh : contains_key (id_text segment token) d.requests.entries ≡ false) where
        placeholder-after :
            {Options : Type 0} (options : Options)
            → Dbus.placeholder (ok options) (call_of (path_of segment token) test_app []) d
              ≡ (after clock sender segment token d, 2)
        placeholder-after options =
            placeholder-fresh (call_of (path_of segment token) test_app []) (id_text segment token)
              sender d refl
              (derive_request_id_from_handle-path sender segment token named part
                (omega (arith, short, fits)))
              refl options (test_owner sender) none checked_call-test fresh

        module _ (object_path : Text → Result Text (Unit {0})) where
          pub call_portal_screenshot-after :
              call_portal_screenshot backend object_path (path_of segment token) d
              ≡ (after clock sender segment token d, [], ok 2)
          unfolding call_portal_screenshot expect_failed_response Dbus.screenshot
              parse_screenshot_options bool_option get
          call_portal_screenshot-after =
              ap (λ p. answered (codes "screenshot") (replied p))
                (placeholder-after no_screenshot_options)

          pub call_portal_open_file-after :
              call_portal_open_file backend object_path (path_of segment token) d
              ≡ (after clock sender segment token d, [], ok 2)
          unfolding call_portal_open_file expect_failed_response Dbus.open_file
              parse_file_chooser_options bool_option string_option get
          call_portal_open_file-after =
              ap (λ p. answered (codes "open file") (replied p))
                (placeholder-after no_open_file_options)

          pub call_portal_choose_application-after :
              call_portal_choose_application backend object_path (path_of segment token) d
              ≡ (after clock sender segment token d, [], ok 2)
          unfolding call_portal_choose_application expect_failed_response Dbus.choose_application
              parse_app_chooser_options string_option bool_option get
          call_portal_choose_application-after =
              ap (λ p. answered (codes "choose application") (replied p))
                (placeholder-after no_choose_application_options)

          update_choices-after :
              Dbus.update_choices
                (call_of (path_of segment token) [] [])
                (after clock sender segment token d)
              ≡ err (codes "invalid_transition")
          unfolding validate_request_identity is_terminal
          update_choices-after =
              update_choices-failed (call_of (path_of segment token) [] []) (id_text segment token)
                sender (after clock sender segment token d) refl
                (derive_request_id_from_handle-path sender segment token named part
                  (omega (arith, short, fits)))
                refl _ (rw (id_valid, valid) refl)
                (get-insert_self (id_text segment token) _ d.requests.entries) refl refl

          pub call_portal_update_choices-after :
              contains_text (codes "invalid_transition") (error_text (codes "invalid_transition"))
                ≡ true
              → call_portal_update_choices_expect_invalid_transition backend object_path
                  (path_of segment token)
                  (after clock sender segment token d)
                ≡ (after clock sender segment token d, [], ok tt)
          unfolding call_portal_update_choices_expect_invalid_transition
          call_portal_update_choices-after shows = rw (update_choices-after, shows) refl
