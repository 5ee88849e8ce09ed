-- ===== src/Daemon/Round/Fresh.antt =====
-- How long a request can stay, across one round of the daemon's loop.
use garwarp.Base.{
  ℕ, ◌+◌, ◌≤◌, ◌<◌, true, not, ◌||◌, ltb, Option, none, some, [], ◌∷◌, ◌≡◌, refl, arith, Text,
}
use native.Mathlib.Nat.{le_trans}
use garwarp.Base.Map.{Map, retain}
use garwarp.Base.Map.All.{All, All-retain, All-retained, All-both, All-mono}
use garwarp.Request.Types.{Instant, Duration, RequestOwner, RequestState, RequestEntry, is_terminal}
use garwarp.Window.{ParentWindowContext}
use garwarp.Request.{
  RequestRegistry, transition_entry, new_entry, expire_where, expire_stale, prune_terminal,
  should_remove, is_stale,
}
use garwarp.Daemon.State.{System}
use garwarp.Daemon.Connection.{Incoming, handle_connection}
use garwarp.Daemon.Connection.Keeps.{Acts-All}
use garwarp.Daemon.Connection.Acts.{Acts, handle_connection-Acts}
use garwarp.Daemon.Round.{Events, expire_round, prune_round, accept_one, accept_round, round}
use garwarp.Daemon.Round.Durable.{requests-persist_if_any, requests-finish_connection}

-- A request in flight has not yet run into its timeout at `expired_at`.
abbrev IsYoung : Duration → Instant → Text → RequestEntry → Type 0
IsYoung timeout expired_at id entry =
    (is_terminal entry.state || ltb expired_at (entry.started_at + timeout)) ≡ true

-- A terminal request is not due to be removed at `pruned_at`.
abbrev IsRecent : Duration → Instant → Text → RequestEntry → Type 0
IsRecent retention pruned_at id entry =
    (not (is_terminal entry.state) || ltb pruned_at (entry.last_updated_at + retention)) ≡ true

abbrev pub IsFresh : Duration → Duration → Instant → Instant → Text → RequestEntry → Type 0
IsFresh timeout retention expired_at pruned_at id entry =
    IsYoung timeout expired_at id entry × IsRecent retention pruned_at id entry

expire_where-IsYoung :
    (timeout : Duration) (now : Instant) (m : Map RequestEntry)
    → 0 < timeout
    → All (IsYoung timeout now) (expire_where (is_stale timeout now) now m).0
unfolding expire_where is_terminal
expire_where-IsYoung timeout now [] h = tt
expire_where-IsYoung timeout now ((id, entry) ∷ m) h =
    ground (arith, expire_where-IsYoung timeout now m h)

kept-IsRecent :
    (retention : Duration) (now : Instant) (id : Text) (entry : RequestEntry)
    → 0 < retention
    → not (should_remove now retention entry) ≡ true
    → IsRecent retention now id entry
kept-IsRecent retention now id entry h kept = ground arith

prune_terminal-IsRecent :
    (retention : Duration) (now : Instant) (r : RequestRegistry)
    → 0 < retention
    → All (IsRecent retention now) (prune_terminal now retention r).0.entries
unfolding prune_terminal
prune_terminal-IsRecent retention now r h =
    All-mono _ (IsRecent retention now)
      (retain (λ entry. not (should_remove now retention entry)) r.entries)
      (λ id entry kept. kept-IsRecent retention now id entry h kept)
      (All-retained (λ entry. not (should_remove now retention entry)) r.entries)

abbrev pub AreFresh : Duration → Duration → Instant → Instant → RequestRegistry → Type 0
AreFresh timeout retention expired_at pruned_at r =
    All (IsFresh timeout retention expired_at pruned_at) r.entries

module _ (timeout retention : Duration) (expired_at pruned_at now : Instant) (live : 0 < timeout)
    (kept : 0 < retention) (after : expired_at ≤ now) (after' : pruned_at ≤ now) where
  new_entry-IsFresh :
      (id : Text) (owner : RequestOwner) (window : Option ParentWindowContext)
      → IsFresh timeout retention expired_at pruned_at id (new_entry id owner window now)
  unfolding new_entry is_terminal
  new_entry-IsFresh id owner window = ground arith

  transition_entry-IsFresh :
      (id : Text) (owner : RequestOwner) (target : RequestState) (entry : RequestEntry)
      → IsFresh timeout retention expired_at pruned_at id entry
      → IsFresh timeout retention expired_at pruned_at id
          (transition_entry id owner target now entry).0
  unfolding transition_entry is_terminal
  transition_entry-IsFresh id owner target entry h = ground arith

  Acts-AreFresh :
      (uid : Option ℕ) {r s : RequestRegistry}
      → Acts uid now r s
      → AreFresh timeout retention expired_at pruned_at r
      → AreFresh timeout retention expired_at pruned_at s
  Acts-AreFresh uid =
      Acts-All (IsFresh timeout retention expired_at pruned_at) uid now
        (λ id app_id parent owner window checked. new_entry-IsFresh id owner window)
        (λ id owner target a. transition_entry-IsFresh id owner target a)

-- The clock does not run backwards within the round.
pub record IsOrdered (e : Events) : Type 0 where
  pub in_round : e.expired_at ≤ e.pruned_at
  pub at_connection : (c : Incoming) → e.accepted ≡ some c → e.pruned_at ≤ c.now

module _ (retention : Duration) (e : Events) (kept : 0 < retention) where
  -- After the two reads of the clock, before the connection.
  cleaned-AreFresh :
      (y : System)
      → 0 < y.daemon.requests.timeout
      → AreFresh y.daemon.requests.timeout retention e.expired_at e.pruned_at
          (prune_round retention e (expire_round e y)).daemon.requests
  unfolding prune_round expire_round expire_stale
  cleaned-AreFresh y live =
      let m =
        (expire_where (is_stale y.daemon.requests.timeout e.expired_at) e.expired_at
          y.daemon.requests.entries).0 in
      let r : RequestRegistry = record { entries = m; timeout = y.daemon.requests.timeout } in
      rw (requests-persist_if_any _ e.pruned_saved _, requests-persist_if_any _ e.expired_saved _)
        (All-both (IsYoung y.daemon.requests.timeout e.expired_at) (IsRecent retention e.pruned_at)
          (prune_terminal e.pruned_at retention r).0.entries
          (unfold prune_terminal in
            All-retain (IsYoung y.daemon.requests.timeout e.expired_at)
              (λ entry. not (should_remove e.pruned_at retention entry)) m
              (expire_where-IsYoung y.daemon.requests.timeout e.expired_at y.daemon.requests.entries
                live))
          (prune_terminal-IsRecent retention e.pruned_at r kept))

  -- After a round whose clock does not run backwards, no request in flight has run into its timeout
  -- at the round's first read of the clock, and no terminal one is due to be removed at the second,
  -- whatever the connection of the round asked for.
  pub round-AreFresh :
      (daemon_uid : ℕ) (y : System)
      → 0 < y.daemon.requests.timeout
      → IsOrdered e
      → AreFresh y.daemon.requests.timeout retention e.expired_at e.pruned_at
          (round daemon_uid retention e y).daemon.requests
  unfolding round accept_round
  round-AreFresh daemon_uid y live ordered = accepted e.accepted refl
    where
      accepted :
          (o : Option Incoming)
          → e.accepted ≡ o
          → AreFresh y.daemon.requests.timeout retention e.expired_at e.pruned_at
              (accept_one daemon_uid e
                (prune_round retention e (expire_round e y))
                o).daemon.requests
      accepted none h = cleaned-AreFresh y live
      accepted (some c) h =
          let z = prune_round retention e (expire_round e y) in
          rw
            (requests-finish_connection daemon_uid retention e z
              (handle_connection daemon_uid c z.daemon))
            (Acts-AreFresh y.daemon.requests.timeout retention e.expired_at e.pruned_at c.now live
              kept (le_trans ordered.in_round (ordered.at_connection c h))
              (ordered.at_connection c h) c.uid_again (handle_connection-Acts daemon_uid c z.daemon)
              (cleaned-AreFresh y live))
