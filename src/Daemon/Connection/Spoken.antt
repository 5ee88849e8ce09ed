-- ===== src/Daemon/Connection/Spoken.antt =====
-- What the clients of garwarp/src/daemon.rs can give to a request.
use mathlib.Core.Path.{subst}
use garwarp.Base.{
  ℕ, false, true, Option, none, some, ◌≡◌, arith, ok, Text, all, all_mono, is_not, is_empty,
  is_ascii_alphanumeric, bind-eq-ok, ok_injective,
}
use garwarp.Base.Shown.{IsDark, IsShown}
use garwarp.Base.Map.All.{All}
use garwarp.Window.{ParentWindowContext}
use garwarp.Validate.{
  is_id_char, is_valid_request_id, validate_request_id, validate_request_identity,
}
use garwarp.Request.Types.{Instant, RequestOwner, RequestState, RequestEntry}
use garwarp.Request.{transition_entry, new_entry}
use garwarp.Request.History.{transition_entry-Follows}
use garwarp.Daemon.State.{DaemonState}
use garwarp.Daemon.Connection.{
  Incoming, canonical_sender_for_uid, identified, parsed_window, begin_checks, handle_connection,
}
use garwarp.Daemon.Connection.Acts.{handle_connection-Acts}
use garwarp.Daemon.Connection.Storable.{identified-IsDark}
use garwarp.Daemon.Connection.Keeps.{Acts-All}

-- What a client can give a request: texts with no whitespace, and an id that a list can hold.
pub record IsSpoken (id : Text) (entry : RequestEntry) : Type 0 where
  pub dark : IsDark entry.id
  pub filled : is_empty entry.id ≡ false
  pub listed : all (is_not b',') entry.id ≡ true
  pub sender : IsDark entry.owner.sender
  pub app_id : IsShown entry.owner.app_id

-- An id of the characters that `validate_request_id` accepts.
id_char-listed : (c : ℕ) → is_id_char c ≡ true → is_not b',' c ≡ true
unfolding is_id_char is_ascii_alphanumeric
id_char-listed c h = ground arith

request_id-listed :
    (id : Text)
    → validate_request_id id ≡ ok tt
    → (is_empty id ≡ false) × (all (is_not b',') id ≡ true)
unfolding validate_request_id is_valid_request_id
request_id-listed id h =
    (ground arith, all_mono is_id_char (is_not b',') id id_char-listed (ground arith))

identified-valid :
    (id : Text) (app_id : Option Text) (uid : Option ℕ) (owner : RequestOwner)
    → identified id app_id uid ≡ ok owner
    → validate_request_id id ≡ ok tt
unfolding identified validate_request_identity
identified-valid id app_id none owner h = absurd (cc h)
identified-valid id app_id (some u) owner h =
    let (done, valid, same) =
      bind-eq-ok (validate_request_identity id (canonical_sender_for_uid u) app_id) _ h in
    let (first, accepted, rest) = bind-eq-ok (validate_request_id id) _ valid in accepted

begin_checks-IsSpoken :
    (id : Text) (app_id parent_window : Option Text) (uid : Option ℕ) (owner : RequestOwner)
    (window : Option ParentWindowContext) (now : Instant)
    → begin_checks id app_id parent_window uid ≡ ok (owner, window)
    → IsSpoken id (new_entry id owner window now)
unfolding begin_checks new_entry
begin_checks-IsSpoken id app_id parent_window uid owner window now h =
    let (mine, found, h1) = bind-eq-ok (identified id app_id uid) _ h in
    let (w, parsed, same) = bind-eq-ok (parsed_window parent_window) _ h1 in
    let dark = identified-IsDark id app_id uid mine found in
    let listed = request_id-listed id (identified-valid id app_id uid mine found) in
    subst
      (λ (p : RequestOwner × Option ParentWindowContext). IsSpoken id (new_entry id p.0 p.1 now))
      (ok_injective same)
      (record {
        dark = dark.0;
        filled = listed.0;
        listed = listed.1;
        sender = dark.1;
        app_id = dark.2;
      })

transition_entry-IsSpoken :
    (id : Text) (owner : RequestOwner) (target : RequestState) (now : Instant) (a : RequestEntry)
    → IsSpoken id a
    → IsSpoken id (transition_entry id owner target now a).0
transition_entry-IsSpoken id owner target now a h =
    let f = transition_entry-Follows id owner target now a in
    record {
      dark = rw (f.id) (h.dark);
      filled = rw (f.id) (h.filled);
      listed = rw (f.id) (h.listed);
      sender = rw (f.owner) (h.sender);
      app_id = rw (f.owner) (h.app_id);
    }

-- A connection adds only such requests, and keeps them such.
pub handle_connection-IsSpoken :
    (daemon_uid : ℕ) (c : Incoming) (s : DaemonState)
    → All IsSpoken s.requests.entries
    → All IsSpoken (handle_connection daemon_uid c s).0.requests.entries
handle_connection-IsSpoken daemon_uid c s =
    Acts-All IsSpoken c.uid_again c.now
      (λ id app_id parent owner window.
        begin_checks-IsSpoken id app_id parent c.uid_again owner window c.now)
      (λ id owner target. transition_entry-IsSpoken id owner target c.now)
      (handle_connection-Acts daemon_uid c s)
