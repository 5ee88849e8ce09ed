-- ===== src/Daemon/Connection/Storable.antt =====
-- The requests that a connection adds, as the store of garwarp/src/request_store.rs writes them.
use garwarp.Base.{ok_injective, ℕ, Option, none, some, ◌≡◌, ok, err, Result, Text, bind-eq-ok}
use garwarp.Base.Shown.{IsDark, IsShown, IsDark-IsPlain, IsShown-IsCell}
use mathlib.Core.Path.{subst}
use garwarp.Request.History.{transition_entry-Follows}
use garwarp.Base.Map.All.{All}
use garwarp.Window.{ParentWindowContext, ParentWindowError}
use garwarp.Window.RoundTrip.{IsWide, parse_optional_parent_window-IsWide}
use garwarp.Error.{PortalError}
use garwarp.Validate.{validate_request_identity}
use garwarp.Validate.Dark.{validate_request_identity-IsDark}
use garwarp.Request.Types.{Instant, RequestOwner, RequestState, RequestEntry}
use garwarp.Request.{transition_entry, to_record, new_entry}
use garwarp.Store.RecordLine.{IsStorable}
use garwarp.Store.RoundTrip.{IsStorableEntry}
use garwarp.Daemon.State.{DaemonState}
use garwarp.Daemon.Connection.{
  Incoming, canonical_sender_for_uid, identified, parsed_window, begin_checks, handle_connection,
}
use garwarp.Daemon.Connection.Keeps.{Acts-All}
use garwarp.Daemon.Connection.Acts.{handle_connection-Acts}

parsed_window-IsWide :
    (o : Option Text) (w : Option ParentWindowContext) → parsed_window o ≡ ok w → IsWide w
unfolding parsed_window
parsed_window-IsWide o w h = parse_optional_parent_window-IsWide o w (inner _ h)
  where
    inner :
        (r : Result ParentWindowError (Option ParentWindowContext))
        → ◌≡◌ {A = Result PortalError (Option ParentWindowContext)}
            (elim r [ ok window ↦ ok window | err e ↦ err PortalError.invalid_parent_window ])
            (ok w)
        → r ≡ ok w
    inner (ok v) h = cc
    inner (err e) h = cc

pub identified-IsDark :
    (id : Text) (app_id : Option Text) (uid : Option ℕ) (owner : RequestOwner)
    → identified id app_id uid ≡ ok owner
    → IsDark id × IsDark owner.sender × IsShown owner.app_id
unfolding identified
identified-IsDark id app_id none owner h = cc
identified-IsDark id app_id (some u) owner h =
    let (done, valid, same) =
      bind-eq-ok (validate_request_identity id (canonical_sender_for_uid u) app_id) _ h in
    subst (λ (o : RequestOwner). IsDark id × IsDark o.sender × IsShown o.app_id) (ok_injective same)
      (validate_request_identity-IsDark id (canonical_sender_for_uid u) app_id valid)

begin_checks-IsStorable :
    (id : Text) (app_id parent_window : Option Text) (uid : Option ℕ) (owner : RequestOwner)
    (window : Option ParentWindowContext) (now : Instant)
    → begin_checks id app_id parent_window uid ≡ ok (owner, window)
    → IsStorable (to_record (new_entry id owner window now))
unfolding begin_checks to_record new_entry
begin_checks-IsStorable id app_id parent_window uid owner window now h =
    let (mine, found, h1) = bind-eq-ok (identified id app_id uid) _ h in
    let (w, parsed, same) = bind-eq-ok (parsed_window parent_window) _ h1 in
    subst
      (λ (p : RequestOwner × Option ParentWindowContext).
        IsStorable (to_record (new_entry id p.0 p.1 now)))
      (ok_injective same)
      (storable mine w (identified-IsDark id app_id uid mine found)
        (parsed_window-IsWide parent_window w parsed))
  where
    storable :
        (o : RequestOwner) (w : Option ParentWindowContext)
        → IsDark id × IsDark o.sender × IsShown o.app_id
        → IsWide w
        → IsStorable (to_record (new_entry id o w now))
    storable o w d wide = record {
      id = IsDark-IsPlain id d.0;
      sender = IsDark-IsPlain o.sender d.1;
      app_id = IsShown-IsCell o.app_id d.2;
      parent_window = wide;
    }

-- A change of the state and of the times keeps an entry storable.
transition_entry-IsStorable :
    (id : Text) (owner : RequestOwner) (target : RequestState) (now : Instant) (a : RequestEntry)
    → IsStorable (to_record a)
    → IsStorable (to_record (transition_entry id owner target now a).0)
unfolding to_record
transition_entry-IsStorable id owner target now a h =
    let f = transition_entry-Follows id owner target now a in
    record {
      id = rw (f.id) (h.id);
      sender = rw (f.owner) (h.sender);
      app_id = rw (f.owner) (h.app_id);
      parent_window = rw (f.parent_window) (h.parent_window);
    }

-- A connection keeps every stored request storable: what `begin` adds has passed the checks.
pub handle_connection-IsStorable :
    (daemon_uid : ℕ) (c : Incoming) (s : DaemonState)
    → All IsStorableEntry s.requests.entries
    → All IsStorableEntry (handle_connection daemon_uid c s).0.requests.entries
handle_connection-IsStorable daemon_uid c s =
    Acts-All IsStorableEntry c.uid_again c.now
      (λ id app_id parent owner window.
        begin_checks-IsStorable id app_id parent c.uid_again owner window c.now)
      (λ id owner target. transition_entry-IsStorable id owner target c.now)
      (handle_connection-Acts daemon_uid c s)
