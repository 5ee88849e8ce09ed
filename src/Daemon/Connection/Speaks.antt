-- ===== src/Daemon/Connection/Speaks.antt =====
-- The replies of `handle_connection` of garwarp/src/daemon.rs, as lines of the control protocol.
use mathlib.Core.Path.{subst}
use garwarp.Base.{
  sym, ℕ, ◌≤◌, true, false, not, ◌&&◌, Option, none, some, List, [], ◌∷◌, map, ◌≡◌, ◌≢◌, refl,
  arith, Result, ok, err, Text, codes, all, is_not, is_empty, is_whitespace, if-keeps,
  if◌then◌else◌, Bool-cases, inl, inr, bind-eq-ok,
}
use garwarp.Base.Shown.{IsDark, IsShown}
use mathlib.Core.Option
use garwarp.Base.Digits.{u64_max}
use garwarp.Base.Map.{Map, get, values}
use garwarp.Base.Map.All.{All, All-get}
use garwarp.Base.Sort.{sort_by, insert_by, text_le}
use garwarp.Error.{PortalError, map_portal_error, map_request_error, code_value}
use garwarp.Window.{ParentWindowContext, window_eq}
use garwarp.Window
use garwarp.Window.RoundTrip.{all-as_str}
use garwarp.Validate.{validate_request_id, is_valid_request_id}
use garwarp.Request.Types.{
  Instant, owner_eq, RequestOwner, RequestState, RequestEntry, RequestRecord, RequestError,
  already_exists, not_found, owner_mismatch, invalid_transition,
}
use garwarp.Request.Types
use garwarp.Request.{RequestRegistry, view, records, record_of, to_record, total_count}
use garwarp.Request.Counts.{counts_add_up}
use garwarp.Request.Records.{record_id}
use garwarp.Ipc.Control.{
  ControlRequest, stop, list_requests, inspect_request, begin_request, transition_request,
}
use garwarp.Ipc.Response.{ack_request}
use garwarp.Ipc.Response.RoundTrip.{IsPlain, AreIds}
use garwarp.Store.RecordLine.{state-IsDark}
use garwarp.Daemon.State.{DaemonState}
use garwarp.Daemon.Connection.{
  mapped, refuse, handle_status, handle_stop, handle_list, handle_inspect, snapshot, identified,
  begin_checks, begin_checked, begin_reply, existing, handle_begin, transition_reply,
  transition_checked, handle_transition, map_transition_target, handle_request,
}
use garwarp.Daemon.Connection.Storable.{identified-IsDark}
use garwarp.Daemon.Connection.Spoken.{IsSpoken}

refuse-IsPlain : (e : PortalError) → IsPlain (refuse e)
unfolding refuse mapped map_portal_error code_value is_whitespace
refuse-IsPlain PortalError.cancelled_by_user = (omega arith, refl)
refuse-IsPlain PortalError.invalid_request_payload = (omega arith, refl)
refuse-IsPlain PortalError.unauthorized_client = (omega arith, refl)
refuse-IsPlain PortalError.invalid_parent_window = (omega arith, refl)
refuse-IsPlain PortalError.ownership_mismatch = (omega arith, refl)
refuse-IsPlain PortalError.request_not_found = (omega arith, refl)
refuse-IsPlain PortalError.request_already_exists = (omega arith, refl)
refuse-IsPlain PortalError.request_timeout = (omega arith, refl)
refuse-IsPlain PortalError.invalid_transition = (omega arith, refl)
refuse-IsPlain PortalError.internal_failure = (omega arith, refl)

mapped-IsPlain : (e : RequestError) → IsPlain (mapped (map_request_error e))
unfolding map_request_error refuse
mapped-IsPlain (already_exists id) = refuse-IsPlain PortalError.request_already_exists
mapped-IsPlain (not_found id) = refuse-IsPlain PortalError.request_not_found
mapped-IsPlain (owner_mismatch id) = refuse-IsPlain PortalError.ownership_mismatch
mapped-IsPlain (invalid_transition id from target) = refuse-IsPlain PortalError.invalid_transition

-- A list of the ids of such entries.
insert_by-AreIds :
    (saved : RequestRecord) (l : List RequestRecord)
    → IsDark saved.id × (is_empty saved.id ≡ false) × (all (is_not b',') saved.id ≡ true)
    → AreIds (map record_id l)
    → AreIds (map record_id (insert_by record_id saved l))
unfolding insert_by
insert_by-AreIds saved [] (dark, filled, listed) k = (dark, filled, listed, k)
insert_by-AreIds saved (x ∷ l) (dark, filled, listed) k =
    elim (Bool-cases (text_le saved.id x.id)) [
      | inl le ↦ rw le (dark, filled, listed, k)
      | inr gt ↦ rw gt (k.0, k.1, k.2, insert_by-AreIds saved l (dark, filled, listed) k.3)
    ]

records-AreIds :
    (m : Map RequestEntry)
    → All IsSpoken m
    → AreIds (map record_id (sort_by record_id (map to_record (values m))))
unfolding sort_by values to_record
records-AreIds [] h = tt
records-AreIds ((id, entry) ∷ m) h =
    insert_by-AreIds (to_record entry) (sort_by record_id (map to_record (values m)))
      (h.0.dark, h.0.filled, h.0.listed) (records-AreIds m h.1)

window-IsShown : (w : Option ParentWindowContext) → IsShown (Option.map Window.as_str w)
window-IsShown none = tt
window-IsShown (some (Window.x11 n)) =
    (all-as_str (Window.x11 n), unfold Window.as_str in λ e. cc e)

module _ (s : DaemonState) (spoken : All IsSpoken s.requests.entries) where
  snapshot-IsPlain :
      (o : Option RequestEntry) (id : Text)
      → get id s.requests.entries ≡ o
      → IsPlain (snapshot (view to_record o))
  unfolding snapshot to_record
  snapshot-IsPlain none id e = refuse-IsPlain PortalError.request_not_found
  snapshot-IsPlain (some entry) id e =
      let h = All-get IsSpoken id s.requests.entries spoken e in
      (h.dark, state-IsDark entry.state, h.sender, h.app_id, window-IsShown entry.parent_window)

  handle_inspect-reply :
      (id : Text)
      → (handle_inspect id s).1 ≡ (
          if is_valid_request_id id
          then snapshot (record_of id s.requests)
          else refuse PortalError.invalid_request_payload)
  unfolding handle_inspect validate_request_id
  handle_inspect-reply id = ground arith

  handle_inspect-IsPlain : (id : Text) → IsPlain (handle_inspect id s).1
  handle_inspect-IsPlain id = subst IsPlain (sym (handle_inspect-reply id)) (
      if-keeps IsPlain (is_valid_request_id id)
        (unfold record_of in snapshot-IsPlain (get id s.requests.entries) id refl)
        (refuse-IsPlain PortalError.invalid_request_payload))

  handle_status-IsPlain : total_count s.requests ≤ u64_max → IsPlain (handle_status s).1
  unfolding handle_status
  handle_status-IsPlain fits = (
    omega arith,
    omega (arith, counts_add_up s.requests),
    fits,
    omega (arith, counts_add_up s.requests),
  )

existing-IsPlain :
    (id : Text) (owner : RequestOwner) (window : Option ParentWindowContext)
    (o : Option RequestRecord)
    → IsDark id
    → IsPlain (existing id owner window o)
unfolding existing
existing-IsPlain id owner window none h = refuse-IsPlain PortalError.request_already_exists
existing-IsPlain id owner window (some saved) h =
    let acked : IsPlain (ack_request id (Types.as_str saved.state)) =
      (h, state-IsDark saved.state) in
    if-keeps IsPlain (owner_eq saved.owner owner && window_eq saved.parent_window window) acked (
      if-keeps IsPlain (not (owner_eq saved.owner owner))
        (refuse-IsPlain PortalError.ownership_mismatch)
        (refuse-IsPlain PortalError.request_already_exists))

begin_reply-IsPlain :
    (id : Text) (owner : RequestOwner) (window : Option ParentWindowContext)
    (o : Option RequestRecord) (result : Result RequestError (Unit {0}))
    → IsDark id
    → IsPlain (begin_reply id owner window o result)
unfolding begin_reply is_whitespace
begin_reply-IsPlain id owner window o (ok done) h = (h, refl)
begin_reply-IsPlain id owner window o (err (already_exists taken)) h =
    existing-IsPlain id owner window o h
begin_reply-IsPlain id owner window o (err (not_found x)) h = mapped-IsPlain (not_found x)
begin_reply-IsPlain id owner window o (err (owner_mismatch x)) h = mapped-IsPlain (owner_mismatch x)
begin_reply-IsPlain id owner window o (err (invalid_transition x from target)) h =
    mapped-IsPlain (invalid_transition x from target)

transition_reply-IsPlain :
    (id : Text) (target : RequestState) (result : Result RequestError (Unit {0}))
    → IsDark id
    → IsPlain (transition_reply id target result)
transition_reply-IsPlain id target (ok done) h = (h, state-IsDark target)
transition_reply-IsPlain id target (err e) h = mapped-IsPlain e

module _ (id : Text) (app_id : Option Text) (uid : Option ℕ) (now : Instant) (s : DaemonState) where
  begin_checked-IsPlain :
      (parent_window : Option Text)
      (o : Result PortalError (RequestOwner × Option ParentWindowContext))
      → begin_checks id app_id parent_window uid ≡ o
      → IsPlain (begin_checked id now s o).1
  unfolding begin_checked begin_checks
  begin_checked-IsPlain parent_window (err e) h = refuse-IsPlain e
  begin_checked-IsPlain parent_window (ok (owner, window)) h =
      let (mine, found, rest) = bind-eq-ok (identified id app_id uid) _ h in
      begin_reply-IsPlain id owner window _ _ (identified-IsDark id app_id uid mine found).0

  transition_checked-IsPlain :
      (target : RequestState) (o : Result PortalError RequestOwner)
      → identified id app_id uid ≡ o
      → IsPlain (transition_checked id target now s o).1
  unfolding transition_checked
  transition_checked-IsPlain target (err e) h = refuse-IsPlain e
  transition_checked-IsPlain target (ok owner) h =
      transition_reply-IsPlain id target _ (identified-IsDark id app_id uid owner h).0

-- The ids that the registry lists.
abbrev pub ids_of : RequestRegistry → List Text
ids_of r = map record_id (records r)

-- Every reply can be printed to a line that is parsed back to it, if the registry holds what a client
-- can give it, its size has 64 bits, and no list is asked for when its one id is `-`.
pub handle_request-IsPlain :
    (request : Option ControlRequest) (uid : Option ℕ) (now : Instant) (s : DaemonState)
    → All IsSpoken s.requests.entries
    → total_count s.requests ≤ u64_max
    → (request ≡ some list_requests → ids_of s.requests ≢ codes "-" ∷ [])
    → IsPlain (handle_request request uid now s).1
unfolding handle_request handle_stop handle_list handle_begin handle_transition records
handle_request-IsPlain none uid now s spoken fits dash =
    refuse-IsPlain PortalError.invalid_request_payload
handle_request-IsPlain (some ControlRequest.status) uid now s spoken fits dash =
    handle_status-IsPlain s spoken fits
handle_request-IsPlain (some stop) uid now s spoken fits dash = tt
handle_request-IsPlain (some list_requests) uid now s spoken fits dash =
    (records-AreIds s.requests.entries spoken, dash refl)
handle_request-IsPlain (some (inspect_request id)) uid now s spoken fits dash =
    handle_inspect-IsPlain s spoken id
handle_request-IsPlain (some (begin_request id sender app_id parent_window)) uid now s spoken fits
      dash =
    begin_checked-IsPlain id app_id uid now s parent_window
      (begin_checks id app_id parent_window uid) refl
handle_request-IsPlain (some (transition_request id sender app_id target)) uid now s spoken fits
      dash =
    transition_checked-IsPlain id app_id uid now s (map_transition_target target)
      (identified id app_id uid) refl
