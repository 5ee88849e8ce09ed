-- ===== src/Dbus/Session.antt =====
-- `SessionNameGuard::acquire` of garwarp/src/dbus.rs and `acquire_dbus_name` of
-- garwarp/src/daemon.rs. Each call on the bus succeeds or has an error of zbus.
use garwarp.Base.{
  List, [], ◌∷◌, ◌++◌, Result, ok, ◌>>=◌, map_err, Text, codes, ◌≡◌, ap, sym, ok_injective,
  bind-eq-ok,
}
use garwarp.Config.{Config}
use garwarp.Dispatch.{PortalDispatch, new}

abbrev pub backend_dbus_name : Text
backend_dbus_name = codes "org.freedesktop.impl.portal.desktop.garwarp"

abbrev object_path : Text
object_path = codes "/org/freedesktop/portal/desktop"

-- The calls of a connection.
pub record Bus (E : Type 0) : Type 0 where
  pub connect : Result E (Unit {0})
  pub request_name : Text → Result E (Unit {0})
  pub register : Text → Text → Result E (Unit {0})

-- The name that is held, the interfaces that are served with their path, and the dispatcher that
-- they share.
pub record SessionNameGuard : Type 0 where
  pub name : Text
  pub served : List (Text × Text)
  pub dispatch : PortalDispatch

-- The interfaces, in the order in which they are registered.
abbrev interfaces : List Text
interfaces =
    codes "org.freedesktop.impl.portal.Screenshot"
    ∷ codes "org.freedesktop.impl.portal.FileChooser"
    ∷ codes "org.freedesktop.impl.portal.AppChooser"
    ∷ []

module _ {E : Type 0} (bus : Bus E) where
  serve_all : List Text → Result E (List (Text × Text))
  serve_all [] = ok []
  serve_all (interface ∷ rest) =
      let after = serve_all rest in
      bus.register object_path interface >>= λ _.
      after >>= λ served. ok ((object_path, interface) ∷ served)

  unfoldable pub acquire : Config → Result E SessionNameGuard
  unfolding serve_all
  acquire config = do
    _ ← bus.connect
    _ ← bus.request_name backend_dbus_name
    served ← serve_all interfaces
    ok (record { name = backend_dbus_name; served = served; dispatch = new config.request_timeout })

  -- `acquire_dbus_name`, with `Display` of the error.
  unfoldable pub acquire_dbus_name : (E → Text) → Config → Result Text SessionNameGuard
  unfolding acquire
  acquire_dbus_name error_text config =
      map_err
        (λ e.
          codes "failed to claim dbus name " ++ (backend_dbus_name ++ (codes ": " ++ error_text e)))
        (acquire config)

  -- A dispatcher that is served is new.
  pub acquire-dispatch :
      (config : Config) {guard : SessionNameGuard}
      → acquire config ≡ ok guard
      → guard.dispatch ≡ new config.request_timeout
  unfolding acquire
  acquire-dispatch config h =
      let (u, h0, h1) = bind-eq-ok bus.connect _ h in
      let (v, h2, h3) = bind-eq-ok (bus.request_name backend_dbus_name) _ h1 in
      let (served, h4, h5) = bind-eq-ok (serve_all interfaces) _ h3 in
      sym (ap (λ (g : SessionNameGuard). g.dispatch) (ok_injective h5))
