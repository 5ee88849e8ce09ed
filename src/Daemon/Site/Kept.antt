-- ===== src/Daemon/Site/Kept.antt =====
-- The files beside the store, through the start and the rounds of garwarp/src/daemon.rs.

use garwarp.Base.{
  cons_injective, ℕ, true, Option, none, some, List, [], ◌∷◌, ◌++◌, ◌≡◌, ◌≢◌, refl, sym, ◌∙◌, err,
  Text, codes, if-keeps,
}
use garwarp.Base.Digits.{show_radix}
use garwarp.Base.Map.{get}
use garwarp.Base.Files.{File, Directory}
use garwarp.Ipc.Response.{ControlResponse}
use garwarp.Request.Types.{Duration}
use garwarp.Request.{expire_stale, prune_terminal}
use garwarp.Store.{LoadError}
use garwarp.Store.Files.{Writing, unique_temp_name}
use garwarp.Daemon.State.{DaemonState, load_registry_with_recovery}
use garwarp.Daemon.Connection.{Incoming, handle_connection}
use garwarp.Daemon.Site.{
  Site, persist_in, store_file, quarantined_name, Starting, loaded_or_new, load_in, loaded_in,
  start_in,
}
use garwarp.Daemon.Site.Loop.{
  Happenings, with_daemon, persist_if_any_in, expire_round_in, prune_round_in, finish_connection_in,
  accept_one_in, accept_round_in, round_in, run_loop_in,
}
use garwarp.Daemon.Site.Others.{persist_in-others}
use garwarp.Daemon.Site.Started.{quarantine_request_store-IsPutAside, quarantined_name-ne}

-- What a write of the store keeps of the directory, the rounds keep.
module _ (name : Text) (Q : Directory → Type 0)
    (kept : (w : Writing) (y : Site) → Q y.files → Q (persist_in name w y).files) where
  persist_if_any_in-keeps :
      (ids : List Text) (w : Writing) (y : Site)
      → Q y.files
      → Q (persist_if_any_in name ids w y).files
  unfolding persist_if_any_in
  persist_if_any_in-keeps [] w y h = h
  persist_if_any_in-keeps (id ∷ ids) w y h = kept w y h

  finish_connection_in-keeps :
      (e : Happenings) (y : Site) (p : DaemonState × Option ControlResponse)
      → Q y.files
      → Q (finish_connection_in name e y p).files
  unfolding finish_connection_in
  finish_connection_in-keeps e y (s, none) h = h
  finish_connection_in-keeps e y (s, some reply) h =
      if-keeps (λ (z : Site). Q z.files) e.replied (kept e.reply_write (with_daemon y s) h) h

  module _ (daemon_uid : ℕ) (retention : Duration) where
    accept_one_in-keeps :
        (e : Happenings) (y : Site) (o : Option Incoming)
        → Q y.files
        → Q (accept_one_in name daemon_uid e y o).files
    unfolding accept_one_in
    accept_one_in-keeps e y none h = h
    accept_one_in-keeps e y (some c) h =
        finish_connection_in-keeps e y (handle_connection daemon_uid c y.daemon) h

    round_in-keeps :
        (e : Happenings) (y : Site) → Q y.files → Q (round_in name daemon_uid retention e y).files
    unfolding round_in accept_round_in prune_round_in expire_round_in
    round_in-keeps e y h = accept_one_in-keeps e _ e.accepted (
        persist_if_any_in-keeps (prune_terminal e.pruned_at retention _).1 e.pruned_write _ (
          persist_if_any_in-keeps (expire_stale e.expired_at y.daemon.requests).1 e.expired_write _
            h))

    pub run_loop_in-keeps :
        (es : List Happenings) (y : Site)
        → Q y.files
        → Q (run_loop_in name daemon_uid retention es y).files
    unfolding run_loop_in
    run_loop_in-keeps [] y h = h
    run_loop_in-keeps (e ∷ es) y h =
        if-keeps (λ (z : Site). Q z.files) y.daemon.running
          (run_loop_in-keeps es _ (round_in-keeps e y h)) h

-- One more character in front of a text and its end, against the text and another end.
apart : (c : ℕ) (name a b : Text) → c ∷ a ≢ b → c ∷ (name ++ a) ≢ name ++ b
apart c [] a b h = h
apart c (d ∷ name) a b h = λ e. apart c name a b h (moved e)
  where
    moved : c ∷ d ∷ (name ++ a) ≡ d ∷ (name ++ b) → c ∷ (name ++ a) ≡ name ++ b
    moved e = rw (cons_injective e).0 (cons_injective e).1

dot_apart : (rest rest' : Text) → b'.' ∷ (codes ".tmp-" ++ rest) ≢ codes ".corrupt-" ++ rest'
dot_apart rest rest' = λ e. cc (cons_injective (cons_injective e).1).0

-- The temporary file is not the one that was put aside.
unique_temp_name-apart :
    (name : Text) (w : Writing) (nanos : ℕ) → unique_temp_name name w ≢ quarantined_name name nanos
unfolding unique_temp_name quarantined_name
unique_temp_name-apart name w nanos =
    apart b'.' name _ _
      (dot_apart (show_radix 10 w.pid ++ (b'-' ∷ show_radix 10 w.nanos)) (show_radix 10 nanos))

module _ (name : Text) (nanos : ℕ) (f : File) where
  IsKept : Directory → Type 0
  IsKept d = get (quarantined_name name nanos) d ≡ some f

  persist_in-IsKept : (w : Writing) (y : Site) → IsKept y.files → IsKept (persist_in name w y).files
  unfolding IsKept
  persist_in-IsKept w y h =
      persist_in-others name (quarantined_name name nanos) w y (unique_temp_name-apart name w nanos)
        (λ e. quarantined_name-ne name nanos (sym e))
      ∙ h

  start_in-IsKept :
      (s : Starting) (timeout : Duration) (d : Directory) (x : LoadError)
      → s.renamed ≡ true
      → s.nanos ≡ nanos
      → get name d ≡ some f
      → load_registry_with_recovery
          (store_file s.readable (some f))
          timeout
          s.loaded_at
          s.recovered_at
        ≡ err x
      → IsKept (start_in name s timeout d).files
  unfolding start_in loaded_in load_in loaded_or_new
  start_in-IsKept s timeout d x allowed same there refused =
      persist_in-IsKept s.writing (loaded_in name s timeout d) (
        unfold IsKept in
        rw (there, refused, allowed, same)
          ((quarantine_request_store-IsPutAside nanos name d (get name d) refl).kept f there))

-- A store that the start cannot load and is allowed to rename is still there under its other name,
-- after any number of rounds.
pub serves-keeps :
    (name : Text) (s : Starting) (timeout retention : Duration) (d : Directory) (daemon_uid : ℕ)
    (es : List Happenings) (f : File) (x : LoadError)
    → s.renamed ≡ true
    → get name d ≡ some f
    → load_registry_with_recovery
        (store_file s.readable (some f))
        timeout
        s.loaded_at
        s.recovered_at
      ≡ err x
    → get
        (quarantined_name name s.nanos)
        (run_loop_in name daemon_uid retention es (start_in name s timeout d)).files
      ≡ some f
unfolding IsKept
serves-keeps name s timeout retention d daemon_uid es f x allowed there refused =
    run_loop_in-keeps name (IsKept name s.nanos f) (persist_in-IsKept name s.nanos f) daemon_uid
      retention es _ (start_in-IsKept name s.nanos f s timeout d x allowed refl there refused)
