-- ===== src/Daemon/Connection/Keeps.antt =====
-- What holds of every stored request, through the one call of the registry that a connection of
-- garwarp/src/daemon.rs makes.
use garwarp.Base.{ℕ, Option, none, some, ◌≡◌, refl, ok, Text, Bool-cases, inl, inr}
use garwarp.Base.Map.{get, contains_key}
use garwarp.Base.Map.All.{All, All-insert, All-get}
use garwarp.Window.{ParentWindowContext}
use garwarp.Request.Types.{Instant, RequestOwner, RequestState, RequestEntry}
use garwarp.Request.{
  RequestRegistry, begin_at, transition_at, transition_entry, transition_found, new_entry,
}
use garwarp.Daemon.Connection.{begin_checks}
use garwarp.Daemon.Connection.Acts.{Acts, nothing, begins, moves}

module _ (P : Text → RequestEntry → Type 0) (uid : Option ℕ) (now : Instant)
    (begun : (id : Text) (app_id parent_window : Option Text) (owner : RequestOwner)
        (window : Option ParentWindowContext)
      → begin_checks id app_id parent_window uid ≡ ok (owner, window)
      → P id (new_entry id owner window now))
    (moved : (id : Text) (owner : RequestOwner) (target : RequestState) (a : RequestEntry)
      → P id a
      → P id (transition_entry id owner target now a).0) where
  transition_found-All :
      (id : Text) (owner : RequestOwner) (target : RequestState) (r : RequestRegistry)
      (o : Option RequestEntry)
      → get id r.entries ≡ o
      → All P r.entries
      → All P (transition_found id owner target now r o).0.entries
  unfolding transition_found
  transition_found-All id owner target r none e h = h
  transition_found-All id owner target r (some a) e h =
      All-insert P id (transition_entry id owner target now a).0 r.entries
        (moved id owner target a (All-get P id r.entries h e)) h

  pub Acts-All : {r s : RequestRegistry} → Acts uid now r s → All P r.entries → All P s.entries
  Acts-All nothing h = h
  Acts-All (begins {r} id app_id parent owner window checked) h =
      elim (Bool-cases (contains_key id r.entries)) [
        | inl old ↦ unfold begin_at in rw old h
        | inr fresh ↦
            unfold begin_at in
            rw fresh (
              All-insert P id (new_entry id owner window now) r.entries
                (begun id app_id parent owner window checked) h)
      ]
  Acts-All (moves {r} id owner target sender) h =
      unfold transition_at in transition_found-All id owner target r (get id r.entries) refl h
