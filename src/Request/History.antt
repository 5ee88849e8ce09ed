-- ===== src/Request/History.antt =====
-- The life of a request under any sequence of the registry's operations.
use garwarp.Base.{
  Bool, true, Option, none, some, List, [], ◌∷◌, ◌≡◌, ◌∙◌, refl, arith, Text, text_eq, text_eq_iff,
  if◌then◌else◌, Bool-cases, inl, inr,
}
use garwarp.Base.Map.{is_some}
use garwarp.Window.{ParentWindowContext}
use garwarp.Request.Types.{
  Instant, Duration, RequestOwner, owner_eq, RequestState, is_terminal, state_eq, RequestEntry,
  RequestRecord, expired,
}
use garwarp.Request.{
  RequestRegistry, begin_at, restore_record, is_valid_transition, transition_entry, transition_at,
  is_stale, expire_stale, recover_after_restart, prune_terminal, should_remove,
}
use garwarp.Request.Invariant.{
  IsWf, begin_at-IsWf, restore_record-IsWf, transition_at-IsWf, expire_stale-IsWf,
  recover_after_restart-IsWf, prune_terminal-IsWf,
}
use garwarp.Request.Machine.{◌⟶◌, ◌⟶*◌, expire, here, step, is_valid_transition→⟶, ⟶*-trans}
use garwarp.Request.Lookup.{
  entry_at, expire_if, entry_at-begin_at, entry_at-restore_record, entry_at-transition_at,
  entry_at-expire_stale, entry_at-recover_after_restart, entry_at-prune_terminal,
}

-- An operation of the registry with its arguments.
pub data Op : Type 0 where
  begin : Text → RequestOwner → Option ParentWindowContext → Instant → Op
  restore : RequestRecord → Instant → Op
  transition : Text → RequestOwner → RequestState → Instant → Op
  expire_old : Instant → Op
  recover : Instant → Op
  prune : Instant → Duration → Op

unfoldable pub apply : Op → RequestRegistry → RequestRegistry
apply (begin id owner parent now) r = (begin_at id owner parent now r).0
apply (restore saved now) r = (restore_record saved now r).0
apply (transition id owner target now) r = (transition_at id owner target now r).0
apply (expire_old now) r = (expire_stale now r).0
apply (recover now) r = (recover_after_restart now r).0
apply (prune now retention) r = (prune_terminal now retention r).0

unfoldable pub run : List Op → RequestRegistry → RequestRegistry
run [] r = r
run (op ∷ ops) r = run ops (apply op r)

-- Every operation, a restored record among them, keeps the registry well-formed: each id is a key
-- once, and the entry under it has that id.
pub apply-IsWf : (op : Op) (r : RequestRegistry) → IsWf r → IsWf (apply op r)
unfolding apply
apply-IsWf (begin id owner parent now) r wf = begin_at-IsWf id now r wf owner parent
apply-IsWf (restore saved now) r wf = restore_record-IsWf saved now r wf
apply-IsWf (transition id owner target now) r wf = transition_at-IsWf id now r wf owner target
apply-IsWf (expire_old now) r wf = expire_stale-IsWf now r wf
apply-IsWf (recover now) r wf = recover_after_restart-IsWf now r wf
apply-IsWf (prune now retention) r wf = prune_terminal-IsWf now r wf retention

-- Entry `b` is a later state of entry `a`.
pub record Follows (a b : RequestEntry) : Type 0 where
  pub id : b.id ≡ a.id
  pub owner : b.owner ≡ a.owner
  pub parent_window : b.parent_window ≡ a.parent_window
  pub started_at : b.started_at ≡ a.started_at
  pub path : a.state ⟶* b.state

pub Follows-refl : (a : RequestEntry) → Follows a a
Follows-refl a = record {
  id = refl;
  owner = refl;
  parent_window = refl;
  started_at = refl;
  path = here;
}

Follows-trans : {a b c : RequestEntry} → Follows a b → Follows b c → Follows a c
Follows-trans p q = record {
  id = q.id ∙ p.id;
  owner = q.owner ∙ p.owner;
  parent_window = q.parent_window ∙ p.parent_window;
  started_at = q.started_at ∙ p.started_at;
  path = ⟶*-trans p.path q.path;
}

-- One more edge, at the time `now`.
moved :
    (a : RequestEntry) (s : RequestState) (now : Instant)
    → a.state ⟶ s
    → Follows a (record a { state = s; last_updated_at = now })
moved a s now e = record {
  id = refl;
  owner = refl;
  parent_window = refl;
  started_at = refl;
  path = step e here;
}

pub transition_entry-Follows :
    (id : Text) (owner : RequestOwner) (target : RequestState) (now : Instant) (a : RequestEntry)
    → Follows a (transition_entry id owner target now a).0
unfolding transition_entry
transition_entry-Follows id owner target now a = elim (Bool-cases (owner_eq a.owner owner)) [
  | inr other ↦ rw other (Follows-refl a)
  | inl mine ↦ rw mine (elim (Bool-cases (state_eq a.state target)) [
    | inl same ↦
        rw same
          (record { id = refl; owner = refl; parent_window = refl; started_at = refl; path = here })
    | inr differs ↦ rw differs (elim (Bool-cases (is_valid_transition a.state target)) [
      | inr refused ↦ rw refused (Follows-refl a)
      | inl valid ↦ rw valid (moved a target now (is_valid_transition→⟶ a.state target valid))
    ])
  ])
]

expire_if-Follows :
    (due : RequestEntry → Bool) (now : Instant) (a : RequestEntry) → Follows a (expire_if due now a)
unfolding expire_if
expire_if-Follows due now a = elim (Bool-cases (is_terminal a.state)) [
  | inl over ↦ rw over (Follows-refl a)
  | inr live ↦ rw live (elim (Bool-cases (due a)) [
    | inl late ↦ rw late (moved a expired now (expire live))
    | inr early ↦ rw early (Follows-refl a)
  ])
]

-- What may stand at the id of entry `a` later: `a` in a later state, or nothing if `a` was over.
abbrev pub Later : RequestEntry → Option RequestEntry → Type 0
Later a none = is_terminal a.state ≡ true
Later a (some b) = Follows a b

module _ (j : Text) (a : RequestEntry) (r : RequestRegistry) (held : entry_at r j ≡ some a) where
  pub begin_at-held :
      (id : Text) (owner : RequestOwner) (parent : Option ParentWindowContext) (now : Instant)
      → entry_at (begin_at id owner parent now r).0 j ≡ some a
  begin_at-held id owner parent now =
      ground (arith, entry_at-begin_at id j owner parent now r, text_eq_iff id j)

  restore_record-held :
      (saved : RequestRecord) (now : Instant) → entry_at (restore_record saved now r).0 j ≡ some a
  restore_record-held saved now =
      ground (arith, entry_at-restore_record saved j now r, text_eq_iff saved.id j)

  pub transition_at-held :
      (id : Text) (owner : RequestOwner) (target : RequestState) (now : Instant)
      → entry_at (transition_at id owner target now r).0 j
        ≡ (if text_eq id j then some (transition_entry id owner target now a).0 else some a)
  transition_at-held id owner target now =
      ground (arith, entry_at-transition_at id j owner target now r, text_eq_iff id j)

  prune_terminal-held :
      (now : Instant) (retention : Duration)
      → IsWf r
      → entry_at (prune_terminal now retention r).0 j
        ≡ (if should_remove now retention a then none else some a)
  prune_terminal-held now retention wf =
      ground (arith, entry_at-prune_terminal now retention j r wf.distinct)

  -- One operation on a well-formed registry, whatever it is, keeps the entry's identity and moves its
  -- state along the edges of the machine; it removes the entry only in a terminal state.
  pub apply-Later : (op : Op) → IsWf r → Later a (entry_at (apply op r) j)
  unfolding apply
  apply-Later (begin id owner parent now) wf =
      rw (begin_at-held id owner parent now) (Follows-refl a)
  apply-Later (restore saved now) wf = rw (restore_record-held saved now) (Follows-refl a)
  apply-Later (transition id owner target now) wf =
      rw (transition_at-held id owner target now) (elim (Bool-cases (text_eq id j)) [
        | inl same ↦ rw same (transition_entry-Follows id owner target now a)
        | inr other ↦ rw other (Follows-refl a)
      ])
  apply-Later (expire_old now) wf =
      rw (entry_at-expire_stale now j r, held) (expire_if-Follows (is_stale r.timeout now) now a)
  apply-Later (recover now) wf =
      rw (entry_at-recover_after_restart now j r, held) (expire_if-Follows (λ _. true) now a)
  apply-Later (prune now retention) wf =
      rw (prune_terminal-held now retention wf) (elim (Bool-cases (should_remove now retention a)) [
        | inl over ↦ rw over (ground arith)
        | inr stays ↦ rw stays (Follows-refl a)
      ])

-- The id is taken after each of the operations.
abbrev pub Present : Text → List Op → RequestRegistry → Type 0
Present j [] r = Unit {0}
Present j (op ∷ ops) r = (is_some (entry_at (apply op r) j) ≡ true) × Present j ops (apply op r)

-- Under any sequence of operations on a well-formed registry that leaves the id taken all along, the entry there keeps its
-- id, its owner, its parent window and its start, and its state follows the machine.
pub run-Follows :
    (j : Text) (ops : List Op) (r : RequestRegistry) (a : RequestEntry)
    → IsWf r
    → entry_at r j ≡ some a
    → Present j ops r
    → (b : RequestEntry) × (entry_at (run ops r) j ≡ some b) × Follows a b
unfolding run
run-Follows j [] r a wf held present = (a, held, Follows-refl a)
run-Follows j (op ∷ ops) r a wf held present =
    next (λ b e. run-Follows j ops (apply op r) b (apply-IsWf op r wf) e present.1)
      (entry_at (apply op r) j) refl present.0 (apply-Later j a r held op wf)
  where
    next :
        ((b : RequestEntry)
          → entry_at (apply op r) j ≡ some b
          → (c : RequestEntry) × (entry_at (run ops (apply op r)) j ≡ some c) × Follows b c)
        → (o : Option RequestEntry) → entry_at (apply op r) j ≡ o
        → is_some o ≡ true
        → Later a o
        → (b : RequestEntry) × (entry_at (run ops (apply op r)) j ≡ some b) × Follows a b
    next rest none e h later = cc
    next rest (some b) e h later =
        let (c, found, follows) = rest b e in (c, found, Follows-trans later follows)
