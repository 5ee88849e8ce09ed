-- ===== src/Dbus/Replies.antt =====
-- The replies of the methods of garwarp/src/dbus.rs, and what they leave in the registry.
use garwarp.Base.{
  ◌>>=◌, if◌then◌else◌, Bool, true, false, List, [], ◌∷◌, ◌≡◌, ◌≢◌, refl, Result, ok, err, Text,
}
use garwarp.Request.Types.{Duration}
use garwarp.Error.{
  PortalError, map_portal_error, code_value, internal_failure, cancelled_by_user,
  invalid_request_payload, unauthorized_client, invalid_parent_window, ownership_mismatch,
  request_not_found, request_already_exists, request_timeout, invalid_transition,
}
use garwarp.Dispatch.{PortalDispatch, new, register_unimplemented_call, validate_update_choices}
use garwarp.Request
use garwarp.Dispatch.Settled.{
  AllSettled, register_unimplemented_call-AllSettled, validate_update_choices-refused,
}
use garwarp.Dbus.{
  Call, failure_response, failed_response, answered, registered, with_dispatch, placeholder,
  request_identity_for_call, update_choices,
}

failure_response-nonzero : (e : PortalError) → failure_response e ≢ 0
unfolding failure_response map_portal_error code_value
failure_response-nonzero cancelled_by_user h = cc
failure_response-nonzero invalid_request_payload h = cc
failure_response-nonzero unauthorized_client h = cc
failure_response-nonzero invalid_parent_window h = cc
failure_response-nonzero ownership_mismatch h = cc
failure_response-nonzero request_not_found h = cc
failure_response-nonzero request_already_exists h = cc
failure_response-nonzero request_timeout h = cc
failure_response-nonzero invalid_transition h = cc
failure_response-nonzero internal_failure h = cc

answered-nonzero : (p : PortalDispatch × Result PortalError (Unit {0})) → (answered p).1 ≢ 0
unfolding failed_response
answered-nonzero (d, err e) = failure_response-nonzero e
answered-nonzero (d, ok done) = failure_response-nonzero internal_failure

registered-nonzero :
    (call : Call) (d : PortalDispatch) (o : Result PortalError (Text × Text))
    → (registered call d o).1 ≢ 0
unfolding registered
registered-nonzero call d (err e) = failure_response-nonzero e
registered-nonzero call d (ok (sender, request_id)) = answered-nonzero _

-- No method replies with the code of success, whatever its options and its call are.
pub placeholder-nonzero :
    {Options : Type 0} (options : Result PortalError Options) (call : Call) (d : PortalDispatch)
    → (placeholder options call d).1 ≢ 0
unfolding placeholder
placeholder-nonzero (err e) call d = failure_response-nonzero e
placeholder-nonzero (ok options) call d = registered-nonzero call d (request_identity_for_call call)

requests-answered : (p : PortalDispatch × Result PortalError (Unit {0})) → (answered p).0 ≡ p.0
requests-answered (d, err e) = refl
requests-answered (d, ok done) = refl

with_dispatch-AllSettled :
    (poisoned : Bool) (f : PortalDispatch → PortalDispatch × Result PortalError (Unit {0}))
    (d : PortalDispatch)
    → AllSettled d
    → AllSettled (f d).0
    → AllSettled (with_dispatch poisoned f d).0
unfolding with_dispatch
with_dispatch-AllSettled true f d h k = h
with_dispatch-AllSettled false f d h k = k

registered-AllSettled :
    (call : Call) (d : PortalDispatch) (o : Result PortalError (Text × Text))
    → AllSettled d
    → AllSettled (registered call d o).0
unfolding registered
registered-AllSettled call d (err e) h = h
registered-AllSettled call d (ok (sender, request_id)) h =
    let f =
      register_unimplemented_call request_id sender call.app_id call.parent_window call.began
        call.failed_at in
    rw (requests-answered (with_dispatch call.poisoned f d)) (
      with_dispatch-AllSettled call.poisoned f d h (
        register_unimplemented_call-AllSettled request_id sender call.app_id call.parent_window
          call.began call.failed_at d h))

placeholder-AllSettled :
    {Options : Type 0} (options : Result PortalError Options) (call : Call) (d : PortalDispatch)
    → AllSettled d
    → AllSettled (placeholder options call d).0
unfolding placeholder
placeholder-AllSettled (err e) call d h = h
placeholder-AllSettled (ok options) call d h =
    registered-AllSettled call d (request_identity_for_call call) h

-- A sequence of calls, each with whether its options can be read.
abbrev pub serve : List (Result PortalError (Unit {0}) × Call) → PortalDispatch → PortalDispatch
serve [] d = d
serve ((options, call) ∷ calls) d = serve calls (placeholder options call d).0

serve-AllSettled :
    (calls : List (Result PortalError (Unit {0}) × Call)) (d : PortalDispatch)
    → AllSettled d
    → AllSettled (serve calls d)
serve-AllSettled [] d h = h
serve-AllSettled ((options, call) ∷ calls) d h =
    serve-AllSettled calls (placeholder options call d).0 (placeholder-AllSettled options call d h)

bind-refused :
    {A : Type 0} (o : Result PortalError A) (f : A → Result PortalError (Unit {0}))
    → ((a : A) → f a ≢ ok tt)
    → (o >>= f) ≢ ok tt
bind-refused (ok a) f h = h a
bind-refused (err e) f h = λ k. cc k

sent-refused :
    (o : Result PortalError (Unit {0}))
    → o ≢ ok tt
    → ◌≢◌ {A = Result Text (Unit {0})}
        (elim o [ ok done ↦ ok done | err e ↦ err (map_portal_error e).reason ])
        (ok tt)
sent-refused (ok tt) h = absurd (h refl)
sent-refused (err e) h = λ k. cc k

update_choices-settled :
    (call : Call) (d : PortalDispatch) → AllSettled d → update_choices call d ≢ ok tt
unfolding update_choices
update_choices-settled call d h =
    sent-refused _
      (bind-refused (request_identity_for_call call) _ (λ p. checked p.1 p.0 call.poisoned))
  where
    checked :
        (request_id sender : Text) (poisoned : Bool)
        → (if poisoned then err internal_failure else validate_update_choices request_id sender d)
          ≢ ok tt
    checked request_id sender true = λ k. cc k
    checked request_id sender false = validate_update_choices-refused request_id sender d h

-- After any sequence of calls, `UpdateChoices` is refused.
pub update_choices-refused :
    (timeout : Duration) (calls : List (Result PortalError (Unit {0}) × Call)) (call : Call)
    → update_choices call (serve calls (new timeout)) ≢ ok tt
unfolding new Request.new
update_choices-refused timeout calls call =
    update_choices-settled call (serve calls (new timeout))
      (serve-AllSettled calls (new timeout) tt)
