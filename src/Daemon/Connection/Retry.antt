-- ===== src/Daemon/Connection/Retry.antt =====
-- A `begin` line that a client of garwarp/src/daemon.rs sends again, with other calls of the registry
-- in between.
use garwarp.Ipc.Response.{ack_request}
use garwarp.Base.{
  ap, ◌∙◌, ℕ, Option, some, none, List, true, ◌≡◌, ◌≢◌, refl, arith, ok, err, Result, Text,
  Bool-cases, inl, inr,
}
use garwarp.Base.Map.{get, contains_key, get-insert_self, is_some}
use garwarp.Window.{ParentWindowContext}
use garwarp.Window.RoundTrip.{window_eq_iff}
use garwarp.Error.{PortalError}
use garwarp.Request.Types.{Instant, RequestOwner, owner_eq, RequestRecord, RequestEntry, pending}
use garwarp.Request.Types
use garwarp.Request.{RequestRegistry, begin_at, new_entry, record_of, to_record}
use garwarp.Request.Machine.{owner_eq_iff}
use garwarp.Request.Invariant.{IsWf, begin_at-IsWf}
use garwarp.Request.Lookup.{entry_at}
use garwarp.Request.History.{Op, run, Present, Follows, run-Follows}
use garwarp.Daemon.State.{DaemonState}
use garwarp.Daemon.Connection.{
  begin_checks, begin_checked, begin_reply, existing, refuse, handle_begin,
}

-- The request of this owner with this window stands in the registry.
record IsMine (owner : RequestOwner) (window : Option ParentWindowContext) (o : Option RequestEntry)
    (a : RequestEntry) : Type 0 where
  there : o ≡ some a
  owner_same : a.owner ≡ owner
  window_same : a.parent_window ≡ window

module _ (id : Text) (owner : RequestOwner) (window : Option ParentWindowContext) where
  existing-IsMine :
      (o : Option RequestEntry) (r : RequestRegistry) {state : Text}
      → get id r.entries ≡ o
      → existing id owner window (record_of id r) ≡ ack_request id state
      → (a : RequestEntry) × IsMine owner window o a
  unfolding existing record_of to_record refuse
  existing-IsMine none r e h = absurd (nothing_there (rw e at h))
    where
      nothing_there : {state : Text} → existing id owner window none ≢ ack_request id state
      nothing_there h = cc
  existing-IsMine (some a) r e h = (
    a,
    record {
      there = refl;
      owner_same = ground (arith, rw e at h, owner_eq_iff a.owner owner);
      window_same = ground (arith, rw e at h, window_eq_iff a.parent_window window);
    },
  )

  existing-same :
      (r : RequestRegistry) (a : RequestEntry)
      → IsMine owner window (get id r.entries) a
      → existing id owner window (record_of id r) ≡ ack_request id (Types.as_str a.state)
  unfolding existing record_of to_record
  existing-same r a h =
      rw
        (
          h.there,
          h.owner_same,
          h.window_same,
          (owner_eq_iff owner owner).1 refl,
          (window_eq_iff window window).1 refl,
        )
        refl

  begin_checked-again :
      (later : Instant) (s : DaemonState) (a : RequestEntry)
      → IsMine owner window (entry_at s.requests id) a
      → begin_checked id later s (ok (owner, window)) ≡ (s, ack_request id (Types.as_str a.state))
  unfolding begin_checked begin_at begin_reply entry_at
  begin_checked-again later s a h =
      rw (taken h.there) (ap (λ reply. (s, reply)) (existing-same s.requests a h))
    where
      taken : {o : Option RequestEntry} → o ≡ some a → is_some o ≡ true
      taken e = rw e refl

  begin_checked-granted :
      (now : Instant) (s : DaemonState) {state : Text}
      → (begin_checked id now s (ok (owner, window))).1 ≡ ack_request id state
      → (a : RequestEntry) × IsMine owner window
          (entry_at (begin_checked id now s (ok (owner, window))).0.requests id)
          a
  unfolding begin_checked begin_at begin_reply entry_at
  begin_checked-granted now s h = elim (Bool-cases (contains_key id s.requests.entries)) [
    | inl old ↦ rw old (existing-IsMine (get id s.requests.entries) s.requests refl (rw old at h))
    | inr fresh ↦ rw fresh (
      new_entry id owner window now,
      record {
        there = get-insert_self id (new_entry id owner window now) s.requests.entries;
        owner_same = unfold new_entry in refl;
        window_same = unfold new_entry in refl;
      },
    )
  ]

  begin_checked-IsWf :
      (now : Instant) (s : DaemonState)
      → IsWf s.requests
      → IsWf (begin_checked id now s (ok (owner, window))).0.requests
  unfolding begin_checked
  begin_checked-IsWf now s wf = begin_at-IsWf id now s.requests wf owner window

module _ (id : Text) (now later : Instant) (s s' : DaemonState) (wf : IsWf s.requests)
    (ops : List Op) where
  -- Whatever the checks say, a reply that grants the request can be had again.
  begin_checked-resumes :
      (o : Result PortalError (RequestOwner × Option ParentWindowContext)) {state : Text}
      → Present id ops (begin_checked id now s o).0.requests
      → s'.requests ≡ run ops (begin_checked id now s o).0.requests
      → (begin_checked id now s o).1 ≡ ack_request id state
      → (a b : RequestEntry) × (entry_at (begin_checked id now s o).0.requests id ≡ some a)
        × (entry_at s'.requests id ≡ some b)
        × Follows a b
        × (begin_checked id later s' o ≡ (s', ack_request id (Types.as_str b.state)))
  unfolding begin_checked
  begin_checked-resumes (err e) kept same h = absurd (refused e h)
    where
      refused : (e : PortalError) {state : Text} → refuse e ≢ ack_request id state
      refused e h = unfold refuse in cc
  begin_checked-resumes (ok (owner, window)) kept same h =
      let (a, mine) = begin_checked-granted id owner window now s h in
      let (b, found, follows) =
        run-Follows id ops (begin_checked id now s (ok (owner, window))).0.requests a
          (begin_checked-IsWf id owner window now s wf) mine.there kept in
      let there = ap (λ r. entry_at r id) same ∙ found in
      (
        a,
        b,
        mine.there,
        there,
        follows,
        begin_checked-again id owner window later s' b (record {
          there = there;
          owner_same = follows.owner ∙ mine.owner_same;
          window_same = follows.parent_window ∙ mine.window_same;
        }),
      )

-- A `begin` that was granted, of the id that the client gives.
module _ (id : Text) (app_id parent_window : Option Text) (uid : Option ℕ) (now : Instant)
    (s : DaemonState) (wf : IsWf s.requests) where
  abbrev after_begin : DaemonState
  after_begin = (handle_begin id app_id parent_window uid now s).0

  module _ (ops : List Op) (later : Instant) (s' : DaemonState)
      (kept : Present id ops after_begin.requests)
      (same : s'.requests ≡ run ops after_begin.requests) where
    -- A client whose `begin` was granted by a daemon with a well-formed registry, and that sends the
    -- same `begin` again after any operations on the registry that leave the id taken all along, is
    -- told the state of its request, which follows the state that the first `begin` left; the second
    -- line changes nothing.
    pub handle_begin-resumes :
        {state : Text}
        → (handle_begin id app_id parent_window uid now s).1 ≡ ack_request id state
        → (a b : RequestEntry) × (entry_at after_begin.requests id ≡ some a)
          × (entry_at s'.requests id ≡ some b)
          × Follows a b
          × (handle_begin id app_id parent_window uid later s'
              ≡ (s', ack_request id (Types.as_str b.state)))
    unfolding handle_begin
    handle_begin-resumes h =
        begin_checked-resumes id now later s s' wf ops (begin_checks id app_id parent_window uid)
          kept same h
