-- ===== src/Daemon/Site/Loop/Refines.antt =====
-- The loop of the daemon with its directory against the loop with the text of its store.
use garwarp.Base.{
  ℕ, Option, none, some, List, [], ◌∷◌, Text, ◌≡◌, refl, sym, ◌∙◌, ap, Bool, true, false,
  if◌then◌else◌,
}
use garwarp.Ipc.Response.{ControlResponse}
use garwarp.Request.Types.{Duration}
use garwarp.Request.{expire_stale, prune_terminal}
use garwarp.Store.Files.{Writing, persist_registry}
use garwarp.Daemon.State.{DaemonState, System, persist}
use garwarp.Daemon.Connection.{Incoming, handle_connection}
use garwarp.Daemon.Round.{
  Events, persist_if_any, expire_round, prune_round, finish_connection, accept_one, accept_round,
  round, run_loop,
}
use garwarp.Daemon.Site.{Site, succeeds, persist_in}
use garwarp.Daemon.Site.Refines.{seen, persist_in-refines}
use garwarp.Daemon.Site.Loop.{
  Happenings, with_requests_in, with_daemon, persist_if_any_in, expire_round_in, prune_round_in,
  finish_connection_in, accept_one_in, accept_round_in, round_in, run_loop_in,
}

-- Whether a write of the registry succeeds.
abbrev pub saves : Text → Writing → Site → Bool
saves name w y = succeeds (persist_registry w name y.daemon.requests y.files).1

-- The state in which a round writes after a reply.
abbrev pub replied_at : ℕ → Site → Option Incoming → Site
replied_at daemon_uid y none = y
replied_at daemon_uid y (some c) = with_daemon y (handle_connection daemon_uid c y.daemon).0

module _ (name : Text) where
  persist_if_any-refines :
      (ids : List Text) (w : Writing) (y : Site)
      → seen name (persist_if_any_in name ids w y)
        ≡ persist_if_any ids (saves name w y) (seen name y)
  unfolding persist_if_any persist_if_any_in
  persist_if_any-refines [] w y = refl
  persist_if_any-refines (id ∷ ids) w y = persist_in-refines name w y

  finish_connection-refines :
      (e : Happenings) (v : Events) (y : Site) (p : DaemonState × Option ControlResponse)
      → v.replied ≡ e.replied
      → v.reply_saved ≡ saves name e.reply_write (with_daemon y p.0)
      → seen name (finish_connection_in name e y p) ≡ finish_connection v (seen name y) p
  unfolding finish_connection finish_connection_in
  finish_connection-refines e v y (s, none) p q = refl
  finish_connection-refines e v y (s, some reply) p q = rw (p, q) (split e.replied)
    where
      split :
          (b : Bool)
          → seen name
              (if b then persist_in name e.reply_write (with_daemon y s) else with_daemon y s)
            ≡ (if b
                then persist
                    (saves name e.reply_write (with_daemon y s))
                    (seen name (with_daemon y s))
                else seen name (with_daemon y s))
      split true = persist_in-refines name e.reply_write (with_daemon y s)
      split false = refl

  module _ (daemon_uid : ℕ) (retention : Duration) where
    -- A round as it is without the directory: which of its writes succeed.
    unfoldable pub events_of : Happenings → Site → Events
    events_of e y =
        let y₁ = expire_round_in name e y in
        let y₂ = prune_round_in name retention e y₁ in
        record {
          expired_at = e.expired_at;
          pruned_at = e.pruned_at;
          expired_saved =
              saves name e.expired_write
                (with_requests_in y (expire_stale e.expired_at y.daemon.requests).0);
          pruned_saved =
              saves name e.pruned_write
                (with_requests_in y₁ (prune_terminal e.pruned_at retention y₁.daemon.requests).0);
          accepted = e.accepted;
          replied = e.replied;
          reply_saved = saves name e.reply_write (replied_at daemon_uid y₂ e.accepted);
        }

    unfoldable pub all_events : List Happenings → Site → List Events
    unfolding events_of
    all_events [] y = []
    all_events (e ∷ es) y = events_of e y ∷ all_events es (round_in name daemon_uid retention e y)

    expire_round-refines :
        (e : Happenings) (y : Site)
        → seen name (expire_round_in name e y) ≡ expire_round (events_of e y) (seen name y)
    unfolding expire_round expire_round_in events_of
    expire_round-refines e y =
        let (r, ids) = expire_stale e.expired_at y.daemon.requests in
        persist_if_any-refines ids e.expired_write (with_requests_in y r)

    prune_round-refines :
        (e : Happenings) (y : Site)
        → seen name (prune_round_in name retention e (expire_round_in name e y))
          ≡ prune_round retention (events_of e y) (seen name (expire_round_in name e y))
    unfolding prune_round prune_round_in events_of
    prune_round-refines e y =
        let y₁ = expire_round_in name e y in
        let (r, ids) = prune_terminal e.pruned_at retention y₁.daemon.requests in
        persist_if_any-refines ids e.pruned_write (with_requests_in y₁ r)

    accept_round-refines :
        (e : Happenings) (v : Events) (y : Site)
        → v.accepted ≡ e.accepted
        → v.replied ≡ e.replied
        → v.reply_saved ≡ saves name e.reply_write (replied_at daemon_uid y e.accepted)
        → seen name (accept_round_in name daemon_uid e y) ≡ accept_round daemon_uid v (seen name y)
    unfolding accept_round accept_round_in accept_one accept_one_in
    accept_round-refines e v y p q q' =
        accepted e.accepted q' ∙ ap (accept_one daemon_uid v (seen name y)) (sym p)
      where
        accepted :
            (o : Option Incoming)
            → v.reply_saved ≡ saves name e.reply_write (replied_at daemon_uid y o)
            → seen name (accept_one_in name daemon_uid e y o)
              ≡ accept_one daemon_uid v (seen name y) o
        accepted none h = refl
        accepted (some c) h =
            finish_connection-refines e v y (handle_connection daemon_uid c y.daemon) q h

    round-refines :
        (e : Happenings) (y : Site)
        → seen name (round_in name daemon_uid retention e y)
          ≡ round daemon_uid retention (events_of e y) (seen name y)
    unfolding round round_in
    round-refines e y =
        let y₂ = prune_round_in name retention e (expire_round_in name e y) in
        accept_round-refines e (events_of e y) y₂ (unfold events_of in refl)
          (unfold events_of in refl) (unfold events_of in refl)
        ∙ ap (accept_round daemon_uid (events_of e y)) (
            prune_round-refines e y
            ∙ ap (prune_round retention (events_of e y)) (expire_round-refines e y))

    -- The loop with the directory, where each write makes its calls of the file system, is the loop
    -- that replaces the text of the store or fails, at the writes that succeed.
    pub run_loop_in-refines :
        (es : List Happenings) (y : Site)
        → seen name (run_loop_in name daemon_uid retention es y)
          ≡ run_loop daemon_uid retention (all_events es y) (seen name y)
    unfolding run_loop run_loop_in all_events
    run_loop_in-refines [] y = refl
    run_loop_in-refines (e ∷ es) y =
        let rest =
          run_loop_in-refines es (round_in name daemon_uid retention e y)
          ∙ ap
              (run_loop daemon_uid retention
                (all_events es (round_in name daemon_uid retention e y)))
              (round-refines e y) in
        either y.daemon.running _ y _ rest
      where
        either :
            (b : Bool) (a d : Site) (c : System)
            → seen name a ≡ c
            → seen name (if b then a else d) ≡ (if b then c else seen name d)
        either true a d c h = h
        either false a d c h = refl
