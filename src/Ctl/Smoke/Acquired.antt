-- ===== src/Ctl/Smoke/Acquired.antt =====
-- The portal smoke test of garwarpctl/src/main.rs against a daemon that has just taken its name on
-- the bus, by `SessionNameGuard::acquire` of garwarp/src/dbus.rs.
use garwarp.Base.{◌≤◌, true, false, Bool, Option, some, ◌≡◌, refl, Result, ok, Text, codes, len}
use garwarp.Base.Map.{get, contains_key}
use garwarp.Validate.{is_valid_sender}
use garwarp.Config.{Config}
use garwarp.Request
use garwarp.Request.Types.{Instant, Duration}
use garwarp.Dispatch
use garwarp.Dbus.Session.{Bus, SessionNameGuard, acquire, acquire-dispatch}
use garwarp.Ctl.{sender_to_handle_segment}
use garwarp.Ctl.Smoke.{contains_text, run_portal_smoke}
use garwarp.Ctl.Smoke.Identity.{path_of, IsSegment}
use garwarp.Ctl.Smoke.Backend.{backend}
use garwarp.Ctl.Smoke.Passes.{passed, run_portal_smoke-passes}

new-free :
    (timeout : Duration) (id : Text)
    → contains_key id (Dispatch.new timeout).requests.entries ≡ false
unfolding Dispatch.new Request.new get
new-free timeout id = refl

module _ {Value : Type 0} (as_bool : Value → Option Bool) (as_text : Value → Option Text)
    (error_text : Text → Text) (clock : Text → Instant × Instant)
    (object_path : Text → Result Text (Unit {0})) (sender segment : Text)
    (named : sender_to_handle_segment sender ≡ ok segment) (valid : is_valid_sender sender ≡ true)
    (short : len segment ≤ 100)
    (shows : contains_text (codes "invalid_transition") (error_text (codes "invalid_transition"))
      ≡ true)
    (accepted : (token : Text)
      → IsSegment token
      → object_path (path_of segment token) ≡ ok tt) where
  -- A smoke test that is the first to call the daemon passes.
  pub run_portal_smoke-acquired :
      {E : Type 0} (bus : Bus E) (config : Config) (guard : SessionNameGuard)
      → acquire bus config ≡ ok guard
      → let smoke =
          run_portal_smoke
            (backend as_bool as_text error_text clock sender)
            object_path
            (ok (some sender))
            guard.dispatch in
        (smoke.1 ≡ passed) × (smoke.2 ≡ ok tt)
  run_portal_smoke-acquired bus config guard h =
      let smoked =
        run_portal_smoke-passes as_bool as_text error_text clock object_path sender segment
          guard.dispatch named valid short shows accepted
          (λ token. rw (acquire-dispatch bus config h) (new-free config.request_timeout _)) in
      (rw smoked refl, rw smoked refl)
