-- ===== src/Ctl/Smoke.antt =====
-- The portal smoke test of garwarpctl/src/main.rs. The bus and the object paths of zbus are
-- parameters: what a call answers, in a state of its own, and which paths are accepted.
pub mod Identity
pub mod Backend
pub mod Passes
pub mod Acquired
use garwarp.Base.{
  ℕ, Bool, true, false, not, ◌||◌, Option, none, some, List, [], ◌∷◌, ◌++◌, Result, ok, err, ok_or,
  map_err, Text, codes, ◌==◌, if◌then◌else◌, strip_prefix,
}
use garwarp.Base.Digits.{show_radix}
use garwarp.Base.Map.{is_some}
use garwarp.Ctl.{sender_to_handle_segment}
use garwarp.Ctl.Run.{Output}

abbrev pub backend_object_path : Text
backend_object_path = codes "/org/freedesktop/portal/desktop"

abbrev pub portal_response_failed : ℕ
portal_response_failed = 2

-- A decoded reply: its code, and whether its results are empty.
abbrev pub Reply : Type 0
Reply = ℕ × Bool

-- A call on the bus: its error, or the error of decoding its reply.
abbrev pub Called : Type 0 → Type 0
Called S = S × Result Text (Result Text Reply)

-- The three calls with their handle, application id and parent window; the other arguments are
-- constants. `update_choices` has only the handle.
pub record Portal (S : Type 0) : Type 0 where
  pub screenshot_call : Text → Text → Text → S → Called S
  pub open_file_call : Text → Text → Text → S → Called S
  pub choose_application_call : Text → Text → Text → S → Called S
  pub update_choices_call : Text → S → S × Result Text (Unit {0})

-- `contains`.
unfoldable pub contains_text : Text → Text → Bool
contains_text pattern [] = is_some (strip_prefix pattern [])
contains_text pattern (c ∷ cs) =
    let rest = contains_text pattern cs in is_some (strip_prefix pattern (c ∷ cs)) || rest

unfoldable pub expect_failed_response : Result Text Reply → Result Text ℕ
expect_failed_response (err e) = err (codes "failed to decode method reply: " ++ e)
expect_failed_response (ok (response, empty)) =
    if not (response == portal_response_failed)
    then err (codes "unexpected portal response code: " ++ show_radix 10 response)
    else if not empty
    then err (codes "expected empty results map for placeholder implementation")
    else ok response

-- What is left of the state, what is printed, and the result.
abbrev pub Io : Type 0 → Type 0 → Type 0
Io S A = S → S × List Text × Result Text A

module _ {S : Type 0} where
  abbrev pub continued :
      {A B : Type 0} → (A → Io S B) → S × List Text × Result Text A → S × List Text × Result Text B
  continued f (s, lines, err e) = (s, lines, err e)
  continued f (s, lines, ok a) = let (s', more, result) = f a s in (s', lines ++ more, result)

  infixl 5 ◌>>=◌
  abbrev pub ◌>>=◌ : {A B : Type 0} → Io S A → (A → Io S B) → Io S B
  (m >>= f) s = continued f (m s)

  abbrev pub lift : {A : Type 0} → Result Text A → Io S A
  lift result s = (s, [], result)

  abbrev pub println : Text → Io S (Unit {0})
  println line s = (s, line ∷ [], ok tt)

  abbrev answered : Text → Called S → S × List Text × Result Text ℕ
  answered what (s, err e) = (s, [], err (what ++ (codes " call failed: " ++ e)))
  answered what (s, ok reply) = (s, [], expect_failed_response reply)

  abbrev refused : S × Result Text (Unit {0}) → S × List Text × Result Text (Unit {0})
  refused (s, ok done) =
      (s, [], err (codes "expected UpdateChoices to fail with invalid_transition"))
  refused (s, err e) =
      if not (contains_text (codes "invalid_transition") e)
      then (s, [], err (codes "unexpected UpdateChoices error: " ++ e))
      else (s, [], ok tt)

  module _ (portal : Portal S) (object_path : Text → Result Text (Unit {0})) where
    unfoldable pub request_handle : Text → Text → Result Text Text
    request_handle sender_segment token =
        let path =
          backend_object_path ++ (codes "/request/" ++ (sender_segment ++ (b'/' ∷ token))) in
        elim (object_path path) [
          | err e ↦ err (codes "invalid request-handle path " ++ (path ++ (codes ": " ++ e)))
          | ok done ↦ ok path
        ]

    unfoldable pub call_portal_screenshot : Text → Io S ℕ
    unfolding expect_failed_response
    call_portal_screenshot handle s =
        answered (codes "screenshot") (portal.screenshot_call handle (codes "org.test.App") [] s)

    unfoldable pub call_portal_open_file : Text → Io S ℕ
    unfolding expect_failed_response
    call_portal_open_file handle s =
        answered (codes "open file") (portal.open_file_call handle (codes "org.test.App") [] s)

    unfoldable pub call_portal_choose_application : Text → Io S ℕ
    unfolding expect_failed_response
    call_portal_choose_application handle s =
        answered (codes "choose application")
          (portal.choose_application_call handle (codes "org.test.App") [] s)

    unfoldable pub call_portal_update_choices_expect_invalid_transition : Text → Io S (Unit {0})
    unfolding contains_text
    call_portal_update_choices_expect_invalid_transition handle s =
        refused (portal.update_choices_call handle s)

    abbrev shown : Text → ℕ → Io S (Unit {0})
    shown key response = println (key ++ (b'=' ∷ show_radix 10 response))

    -- The calls, behind the look at the session: the unique name, or the error of the connection.
    unfoldable pub smoke_calls : Text → Io S (Unit {0})
    unfolding request_handle call_portal_screenshot call_portal_open_file
        call_portal_choose_application call_portal_update_choices_expect_invalid_transition
    smoke_calls segment = do
      screenshot_handle ← lift (request_handle segment (codes "smoke_screenshot"))
      screenshot_response ← call_portal_screenshot screenshot_handle
      _ ← shown (codes "screenshot_response") screenshot_response
      open_file_handle ← lift (request_handle segment (codes "smoke_open_file"))
      open_file_response ← call_portal_open_file open_file_handle
      _ ← shown (codes "open_file_response") open_file_response
      choose_handle ← lift (request_handle segment (codes "smoke_choose_app"))
      choose_response ← call_portal_choose_application choose_handle
      _ ← shown (codes "choose_application_response") choose_response
      _ ← call_portal_update_choices_expect_invalid_transition choose_handle
      _ ← println (codes "update_choices=invalid_transition")
      println (codes "portal_smoke=ok")

    unfoldable pub run_portal_smoke : Result Text (Option Text) → Io S (Unit {0})
    unfolding smoke_calls
    run_portal_smoke session = do
      unique_name ← lift (map_err (λ e. codes "failed to connect to session bus: " ++ e) session)
      sender ← lift (ok_or unique_name (codes "connection missing unique bus name"))
      segment ← lift (sender_to_handle_segment sender)
      smoke_calls segment

-- The output of the command.
abbrev pub output_of : {S : Type 0} → S × List Text × Result Text (Unit {0}) → Output
output_of (s, lines, result) = record { printed = lines; result = result }
