-- ===== src/Daemon/Round/Durable.antt =====
-- The registry and the store across the rounds of the daemon's loop.
use garwarp.Base.{
  if-keeps, ℕ, Bool, true, Option, none, some, List, [], ◌∷◌, ◌≡◌, refl, arith, Text, ap, not,
}
use garwarp.Base.Map.{Map, retain}
use garwarp.Base.Sort.{sort_by, insert_by}
use garwarp.Ipc.Response.{ControlResponse}
use garwarp.Request.Types.{Instant, Duration, RequestEntry}
use garwarp.Request.{
  RequestRegistry, expire_stale, prune_terminal, expire_where, removed_ids, should_remove, is_stale,
}
use garwarp.Request.Invariant.{IsWf, expire_stale-IsWf, prune_terminal-IsWf}
use garwarp.Store.{store_text}
use garwarp.Daemon.State.{DaemonState, System, persist, update_health_after_persist}
use garwarp.Daemon.Connection.{Incoming, handle_connection}
use garwarp.Daemon.Connection.Acts.{handle_connection-unanswered}
use garwarp.Daemon.Connection.Safety.{handle_connection-IsWf}
use garwarp.Daemon.Round.{
  Events, with_requests, persist_if_any, expire_round, prune_round, finish_connection, accept_one,
  accept_round, round, run_loop,
}

-- The store holds the text of the registry.
abbrev pub IsSaved : System → Type 0
IsSaved y = y.store ≡ some (store_text y.daemon.requests)

-- No write fails in the round, neither of the store nor of the reply.
pub record NoneFails (e : Events) : Type 0 where
  pub expired_saved : e.expired_saved ≡ true
  pub pruned_saved : e.pruned_saved ≡ true
  pub replied : e.replied ≡ true
  pub reply_saved : e.reply_saved ≡ true

persist-IsSaved : (y : System) → IsSaved (persist true y)
unfolding persist update_health_after_persist
persist-IsSaved y = refl

expire_where-nothing :
    (due : RequestEntry → Bool) (now : Instant) (m : Map RequestEntry)
    → (expire_where due now m).1 ≡ []
    → (expire_where due now m).0 ≡ m
unfolding expire_where
expire_where-nothing due now [] h = refl
expire_where-nothing due now ((id, entry) ∷ m) h = ground (arith, expire_where-nothing due now m)

pub expire_stale-nothing :
    (now : Instant) (r : RequestRegistry) → (expire_stale now r).1 ≡ [] → (expire_stale now r).0 ≡ r
unfolding expire_stale
expire_stale-nothing now r h =
    ap (λ m. record r { entries = m })
      (expire_where-nothing (is_stale r.timeout now) now r.entries h)

removed_ids-nothing :
    (now : Instant) (retention : Duration) (m : Map RequestEntry)
    → removed_ids now retention m ≡ []
    → retain (λ entry. not (should_remove now retention entry)) m ≡ m
unfolding removed_ids retain
removed_ids-nothing now retention [] h = refl
removed_ids-nothing now retention ((id, entry) ∷ m) h =
    ground (arith, removed_ids-nothing now retention m)

sort_by-nothing : (xs : List Text) → sort_by (λ id. id) xs ≡ [] → xs ≡ []
unfolding sort_by insert_by
sort_by-nothing [] h = refl
sort_by-nothing (x ∷ xs) h = elim (insert_by-cons x (sort_by (λ id. id) xs) h) [ ]
  where
    insert_by-cons : (x : Text) (xs : List Text) → insert_by (λ id. id) x xs ≡ [] → ⊥
    insert_by-cons x [] h = ground arith
    insert_by-cons x (y ∷ ys) h = ground arith

pub prune_terminal-nothing :
    (now : Instant) (retention : Duration) (r : RequestRegistry)
    → (prune_terminal now retention r).1 ≡ []
    → (prune_terminal now retention r).0 ≡ r
unfolding prune_terminal
prune_terminal-nothing now retention r h =
    ap (λ m. record r { entries = m })
      (removed_ids-nothing now retention r.entries (sort_by-nothing _ h))

persist_if_any-IsSaved :
    (ids : List Text) (r : RequestRegistry) (y : System)
    → (ids ≡ [] → r ≡ y.daemon.requests)
    → IsSaved y
    → IsSaved (persist_if_any ids true (with_requests y r))
unfolding persist_if_any
persist_if_any-IsSaved [] r y same saved = rw (same refl) saved
persist_if_any-IsSaved (id ∷ ids) r y same saved = persist-IsSaved (with_requests y r)

pub requests-persist_if_any :
    (ids : List Text) (written : Bool) (y : System)
    → (persist_if_any ids written y).daemon.requests ≡ y.daemon.requests
unfolding persist_if_any persist update_health_after_persist
requests-persist_if_any [] written y = refl
requests-persist_if_any (id ∷ ids) written y = refl

module _ (daemon_uid : ℕ) (retention : Duration) (e : Events) where
  expire_round-IsSaved :
      (y : System) → e.expired_saved ≡ true → IsSaved y → IsSaved (expire_round e y)
  unfolding expire_round
  expire_round-IsSaved y written saved = rw written (
      persist_if_any-IsSaved (expire_stale e.expired_at y.daemon.requests).1 _ y
        (expire_stale-nothing e.expired_at y.daemon.requests) saved)

  prune_round-IsSaved :
      (y : System) → e.pruned_saved ≡ true → IsSaved y → IsSaved (prune_round retention e y)
  unfolding prune_round
  prune_round-IsSaved y written saved = rw written (
      persist_if_any-IsSaved (prune_terminal e.pruned_at retention y.daemon.requests).1 _ y
        (prune_terminal-nothing e.pruned_at retention y.daemon.requests) saved)

  finish_connection-IsSaved :
      (y : System) (p : DaemonState × Option ControlResponse)
      → e.replied ≡ true
      → e.reply_saved ≡ true
      → (p.1 ≡ none → p.0 ≡ y.daemon)
      → IsSaved y
      → IsSaved (finish_connection e y p)
  unfolding finish_connection
  finish_connection-IsSaved y (s, none) replied written same saved = rw (same refl) saved
  finish_connection-IsSaved y (s, some reply) replied written same saved =
      rw (replied, written) (persist-IsSaved (record y { daemon = s }))

  accept_round-IsSaved :
      (y : System)
      → e.replied ≡ true
      → e.reply_saved ≡ true
      → IsSaved y
      → IsSaved (accept_round daemon_uid e y)
  unfolding accept_round
  accept_round-IsSaved y replied written saved = accepted e.accepted
    where
      accepted : (o : Option Incoming) → IsSaved (accept_one daemon_uid e y o)
      accepted none = saved
      accepted (some c) =
          finish_connection-IsSaved y (handle_connection daemon_uid c y.daemon) replied written
            (handle_connection-unanswered daemon_uid c y.daemon) saved

  -- A round in which no write fails keeps the store equal to the text of the registry.
  pub round-IsSaved :
      (y : System) → NoneFails e → IsSaved y → IsSaved (round daemon_uid retention e y)
  unfolding round
  round-IsSaved y fine saved =
      accept_round-IsSaved (prune_round retention e (expire_round e y)) fine.replied
        fine.reply_saved
        (prune_round-IsSaved (expire_round e y) fine.pruned_saved
          (expire_round-IsSaved y fine.expired_saved saved))

  persisted_if_any-IsWf :
      (ids : List Text) (written : Bool) (y : System)
      → IsWf y.daemon.requests
      → IsWf (persist_if_any ids written y).daemon.requests
  persisted_if_any-IsWf ids written y wf = rw (requests-persist_if_any ids written y) wf

  expire_round-IsWf :
      (y : System) → IsWf y.daemon.requests → IsWf (expire_round e y).daemon.requests
  unfolding expire_round
  expire_round-IsWf y wf =
      persisted_if_any-IsWf _ _ _ (expire_stale-IsWf e.expired_at y.daemon.requests wf)

  prune_round-IsWf :
      (y : System) → IsWf y.daemon.requests → IsWf (prune_round retention e y).daemon.requests
  unfolding prune_round
  prune_round-IsWf y wf =
      persisted_if_any-IsWf _ _ _ (prune_terminal-IsWf e.pruned_at y.daemon.requests wf retention)

  pub requests-finish_connection :
      (y : System) (p : DaemonState × Option ControlResponse)
      → (finish_connection e y p).daemon.requests ≡ p.0.requests
  unfolding finish_connection persist update_health_after_persist
  requests-finish_connection y (s, none) = refl
  requests-finish_connection y (s, some reply) = ground arith

  accept_round-IsWf :
      (y : System) → IsWf y.daemon.requests → IsWf (accept_round daemon_uid e y).daemon.requests
  unfolding accept_round
  accept_round-IsWf y wf = accepted e.accepted
    where
      accepted : (o : Option Incoming) → IsWf (accept_one daemon_uid e y o).daemon.requests
      accepted none = wf
      accepted (some c) =
          rw (requests-finish_connection y (handle_connection daemon_uid c y.daemon))
            (handle_connection-IsWf daemon_uid c y.daemon wf)

  -- A round keeps the registry well-formed, whichever writes fail.
  pub round-IsWf :
      (y : System) → IsWf y.daemon.requests → IsWf (round daemon_uid retention e y).daemon.requests
  unfolding round
  round-IsWf y wf =
      accept_round-IsWf (prune_round retention e (expire_round e y))
        (prune_round-IsWf (expire_round e y) (expire_round-IsWf y wf))

abbrev pub NeverFails : List Events → Type 0
NeverFails [] = Unit {0}
NeverFails (e ∷ es) = NoneFails e × NeverFails es

-- However many rounds are run, the registry stays well-formed, whichever writes fail.
pub run_loop-IsWf :
    (daemon_uid : ℕ) (retention : Duration) (es : List Events) (y : System)
    → IsWf y.daemon.requests
    → IsWf (run_loop daemon_uid retention es y).daemon.requests
unfolding run_loop
run_loop-IsWf daemon_uid retention [] y wf = wf
run_loop-IsWf daemon_uid retention (e ∷ es) y wf =
    if-keeps (λ (z : System). IsWf z.daemon.requests) y.daemon.running
      (run_loop-IsWf daemon_uid retention es (round daemon_uid retention e y)
        (round-IsWf daemon_uid retention e y wf))
      wf

-- If the store holds the registry and no write fails, the store holds the registry after any
-- number of rounds, also when a round finds nothing to write.
pub run_loop-IsSaved :
    (daemon_uid : ℕ) (retention : Duration) (es : List Events) (y : System)
    → NeverFails es
    → IsSaved y
    → IsSaved (run_loop daemon_uid retention es y)
unfolding run_loop
run_loop-IsSaved daemon_uid retention [] y fine saved = saved
run_loop-IsSaved daemon_uid retention (e ∷ es) y fine saved =
    if-keeps IsSaved y.daemon.running
      (run_loop-IsSaved daemon_uid retention es (round daemon_uid retention e y) fine.1
        (round-IsSaved daemon_uid retention e y fine.0 saved))
      saved
