-- ===== src/Daemon/Site/Started.antt =====
-- The start of the daemon of garwarp/src/daemon.rs on whatever stands at the name of its store.
use mathlib.Core.Path.{subst}
use garwarp.Base.{
  ℕ, Bool, true, false, Option, none, some, List, [], ◌∷◌, ◌++◌, ◌≡◌, ◌≢◌, refl, sym, ◌∙◌, arith,
  Result, ok, err, Text, codes, text_eq-ne, text_eq_refl, ok_injective,
}
use garwarp.Base.Digits.{show_radix}
use garwarp.Base.Map.{get, insert, remove, get-insert, get-insert_self, get-remove}
use garwarp.Base.Files.{File, text, binary, Directory, rename-there}
use garwarp.Request.Types.{Instant, Duration}
use garwarp.Request.{RequestRegistry, recover_after_restart}
use garwarp.Store.{LoadError, load_registry}
use garwarp.Store.Loaded.{IsSound, new-IsSound, load_registry-IsSound}
use garwarp.Store.Again.{load_registry-again}
use garwarp.Daemon.State.{load_registry_with_recovery}
use garwarp.Daemon.Site.{
  store_file, quarantined_name, put_aside, quarantine_request_store, Starting, loaded_or_new,
  load_in, loaded_in, start_in,
}
use garwarp.Daemon.Site.Loop.{Happenings, run_loop_in}
use garwarp.Daemon.Site.Reloads.{
  Reloads, IsSafe, Reloads-none, recover_after_restart-IsSound, persist_in-IsSafe,
  run_loop_in-IsSafe,
}

longer : (s : Text) (c : ℕ) (rest : Text) → s ++ (c ∷ rest) ≢ s
longer [] c rest = λ e. cc e
longer (d ∷ s) c rest = λ e. longer s c rest (tail e)
  where
    tail : d ∷ (s ++ (c ∷ rest)) ≡ d ∷ s → s ++ (c ∷ rest) ≡ s
    tail e = cc

pub quarantined_name-ne : (name : Text) (nanos : ℕ) → quarantined_name name nanos ≢ name
unfolding quarantined_name
quarantined_name-ne name nanos = longer name b'.' (codes "corrupt-" ++ show_radix 10 nanos)

-- What is left of a file that is put aside.
pub record IsPutAside (name : Text) (nanos : ℕ) (d d' : Directory) : Type 0 where
  pub gone : get name d' ≡ none
  pub kept : (f : File) → get name d ≡ some f → get (quarantined_name name nanos) d' ≡ some f

quarantine_request_store-moved :
    (nanos : ℕ) (name : Text) (d : Directory) (f : File)
    → get name d ≡ some f
    → (quarantine_request_store true nanos name d).0
      ≡ insert (quarantined_name name nanos) f (remove name d)
unfolding quarantine_request_store put_aside
quarantine_request_store-moved nanos name d f e =
    rw (e, rename-there name (quarantined_name name nanos) d f e) refl

pub quarantine_request_store-IsPutAside :
    (nanos : ℕ) (name : Text) (d : Directory) (o : Option File)
    → get name d ≡ o
    → IsPutAside name nanos d (quarantine_request_store true nanos name d).0
quarantine_request_store-IsPutAside nanos name d none e = record {
  gone = unfold quarantine_request_store in rw e e;
  kept = λ f e'. absurd (cc (sym e ∙ e'));
}
quarantine_request_store-IsPutAside nanos name d (some f) e =
    let q = quarantined_name name nanos in
    subst (IsPutAside name nanos d) (sym (quarantine_request_store-moved nanos name d f e))
      (record {
        gone = ground (
          arith,
          get-insert q name f (remove name d),
          text_eq-ne (quarantined_name-ne name nanos),
          get-remove name name d,
          text_eq_refl name,
        );
        kept = λ g e'. get-insert_self q f (remove name d) ∙ sym e ∙ e';
      })

store_file-Reloads :
    (readable : Bool) (o : Option File) (timeout : Duration) (now : Instant) (r : RequestRegistry)
    → load_registry (store_file readable o) timeout now ≡ ok r
    → Reloads o
unfolding store_file Reloads
store_file-Reloads readable none timeout now r e =
    λ timeout' now'. load_registry-again _ timeout timeout' now now' r e
store_file-Reloads readable (some binary) timeout now r e = unfold load_registry in absurd (cc e)
store_file-Reloads true (some (text contents)) timeout now r e =
    λ timeout' now'. load_registry-again _ timeout timeout' now now' r e
store_file-Reloads false (some (text contents)) timeout now r e =
    unfold load_registry in absurd (cc e)

-- What a start has loaded, or begun anew.
loaded_or_new-IsSafe :
    (name : Text) (s : Starting) (timeout : Duration) (d : Directory)
    (o : Result LoadError (RequestRegistry × List Text))
    → s.renamed ≡ true
    → load_registry_with_recovery
        (store_file s.readable (get name d))
        timeout
        s.loaded_at
        s.recovered_at
      ≡ o
    → let p = loaded_or_new name s timeout d o in IsSound p.1.0 × Reloads (get name p.0)
unfolding loaded_or_new
loaded_or_new-IsSafe name s timeout d (err x) allowed e = (
  new-IsSound timeout,
  rw allowed (
      subst Reloads
        (sym ((quarantine_request_store-IsPutAside s.nanos name d (get name d) refl).gone))
        Reloads-none),
)
loaded_or_new-IsSafe name s timeout d (ok (r, ids)) allowed e =
    accepted (load_registry (store_file s.readable (get name d)) timeout s.loaded_at) refl
      (unfold load_registry_with_recovery in e)
  where
    accepted :
        (l : Result LoadError RequestRegistry)
        → load_registry (store_file s.readable (get name d)) timeout s.loaded_at ≡ l
        → ◌≡◌ {A = Result LoadError (RequestRegistry × List Text)}
            (elim l [ ok r ↦ ok (recover_after_restart s.recovered_at r) | err error ↦ err error ])
            (ok (r, ids))
        → IsSound r × Reloads (get name d)
    accepted (err x) same h = absurd (cc h)
    accepted (ok r') same h = (
      subst (λ (p : RequestRegistry × List Text). IsSound p.0) (ok_injective h)
          (recover_after_restart-IsSound s.recovered_at r'
            (load_registry-IsSound _ timeout s.loaded_at r' same)),
      store_file-Reloads s.readable (get name d) timeout s.loaded_at r' same,
    )

start_in-IsSafe :
    (name : Text) (s : Starting) (timeout : Duration) (d : Directory)
    → s.renamed ≡ true
    → IsSafe name (start_in name s timeout d)
unfolding start_in loaded_in load_in
start_in-IsSafe name s timeout d allowed =
    let (sound, reloads) = loaded_or_new-IsSafe name s timeout d _ allowed refl in
    persist_in-IsSafe name s.writing _ (record { sound = sound; reloads = reloads })

-- Whatever stands at the name of the store, also text that is no store, bytes that are no text, or a
-- file that cannot be read: if the start is allowed to rename it, then after any number of rounds,
-- wherever each write of the store stops, a later start that can read the store accepts it.
pub serves-Reloads :
    (name : Text) (s : Starting) (timeout retention : Duration) (d : Directory) (daemon_uid : ℕ)
    (es : List Happenings)
    → s.renamed ≡ true
    → Reloads
        (get name (run_loop_in name daemon_uid retention es (start_in name s timeout d)).files)
serves-Reloads name s timeout retention d daemon_uid es allowed =
    (run_loop_in-IsSafe name daemon_uid retention es _
      (start_in-IsSafe name s timeout d allowed)).reloads
