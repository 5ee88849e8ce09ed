-- ===== src/Daemon/Connection/Safety.antt =====
-- The stored requests of the daemon across one connection of a control client.
use garwarp.Base.{
  ℕ, Option, some, ◌≡◌, ◌≢◌, refl, arith, Text, text_eq, Bool-cases, inl, inr, Bool, ap,
  if◌then◌else◌,
}
use mathlib.Core.Option
use garwarp.Request.Types.{Instant, RequestEntry, RequestOwner, RequestState}
use garwarp.Request.{RequestRegistry, transition_entry}
use garwarp.Request.Invariant.{IsWf, begin_at-IsWf, transition_at-IsWf}
use garwarp.Request.Machine.{owner_eq_iff}
use garwarp.Request.Lookup.{entry_at}
use garwarp.Request.History.{
  Follows, begin_at-held, transition_at-held, Follows-refl, transition_entry-Follows,
}
use garwarp.Daemon.State.{DaemonState}
use garwarp.Daemon.Connection.{Incoming, canonical_sender_for_uid, handle_connection}
use garwarp.Daemon.Connection.Acts.{Acts, nothing, begins, moves, handle_connection-Acts}

Acts-IsWf :
    {uid : Option ℕ} {now : Instant} {r s : RequestRegistry} → Acts uid now r s → IsWf r → IsWf s
Acts-IsWf nothing wf = wf
Acts-IsWf {now} (begins id app_id parent owner window checked) wf =
    begin_at-IsWf id now _ wf owner window
Acts-IsWf {now} (moves id owner target sender) wf = transition_at-IsWf id now _ wf owner target

-- A connection keeps the registry well-formed.
pub handle_connection-IsWf :
    (daemon_uid : ℕ) (c : Incoming) (s : DaemonState)
    → IsWf s.requests
    → IsWf (handle_connection daemon_uid c s).0.requests
handle_connection-IsWf daemon_uid c s = Acts-IsWf (handle_connection-Acts daemon_uid c s)

transition_entry-foreign :
    (id : Text) (owner : RequestOwner) (target : RequestState) (now : Instant) (a : RequestEntry)
    → owner.sender ≢ a.owner.sender
    → (transition_entry id owner target now a).0 ≡ a
unfolding transition_entry
transition_entry-foreign id owner target now a other = ground (arith, owner_eq_iff a.owner owner)

same_either : {A : Type 0} (b : Bool) (x : A) → (if b then x else x) ≡ x
same_either b x = ground arith

module _ (j : Text) (a : RequestEntry) where
  Acts-foreign :
      {uid : Option ℕ} {now : Instant} {r s : RequestRegistry}
      → Acts uid now r s
      → entry_at r j ≡ some a
      → Option.map canonical_sender_for_uid uid ≢ some (a.owner.sender)
      → entry_at s j ≡ some a
  Acts-foreign nothing held other = held
  Acts-foreign {now} (begins {r} id app_id parent owner window checked) held other =
      begin_at-held j a r held id owner window now
  Acts-foreign {now} (moves {r} id owner target sender) held other =
      rw
        (
          transition_at-held j a r held id owner target now,
          transition_entry-foreign id owner target now a (λ e. other (rw sender (ap some e))),
        )
        (same_either (text_eq id j) (some a))

  Acts-Follows :
      {uid : Option ℕ} {now : Instant} {r s : RequestRegistry}
      → Acts uid now r s
      → entry_at r j ≡ some a
      → (b : RequestEntry) × (entry_at s j ≡ some b) × Follows a b
  Acts-Follows nothing held = (a, held, Follows-refl a)
  Acts-Follows {now} (begins {r} id app_id parent owner window checked) held =
      (a, begin_at-held j a r held id owner window now, Follows-refl a)
  Acts-Follows {now} (moves {r} id owner target sender) held = elim (Bool-cases (text_eq id j)) [
    | inl same ↦ (
      (transition_entry id owner target now a).0,
      rw (transition_at-held j a r held id owner target now, same) refl,
      transition_entry-Follows id owner target now a,
    )
    | inr other ↦
        (a, rw (transition_at-held j a r held id owner target now, other) refl, Follows-refl a)
  ]

  -- A connection never touches a stored request of another sender than the one that stands for the
  -- user id that was read from the client's socket, whatever line the client sends.
  pub handle_connection-foreign :
      (daemon_uid : ℕ) (c : Incoming) (s : DaemonState)
      → entry_at s.requests j ≡ some a
      → Option.map canonical_sender_for_uid c.uid_again ≢ some (a.owner.sender)
      → entry_at (handle_connection daemon_uid c s).0.requests j ≡ some a
  handle_connection-foreign daemon_uid c s = Acts-foreign (handle_connection-Acts daemon_uid c s)

  -- A connection never removes a stored request: it keeps its id, owner, parent window and start,
  -- and moves its state along the edges of the machine.
  pub handle_connection-Follows :
      (daemon_uid : ℕ) (c : Incoming) (s : DaemonState)
      → entry_at s.requests j ≡ some a
      → (b : RequestEntry) × (entry_at (handle_connection daemon_uid c s).0.requests j ≡ some b)
        × Follows a b
  handle_connection-Follows daemon_uid c s = Acts-Follows (handle_connection-Acts daemon_uid c s)
