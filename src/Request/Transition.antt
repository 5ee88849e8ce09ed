-- ===== src/Request/Transition.antt =====
-- When `transition_at` succeeds, and what it leaves when it does not.
use garwarp.Base.{
  Bool, true, ◌&&◌, ◌||◌, Option, none, some, ◌≡◌, ◌↔◌, ◌⊎◌, inl, inr, refl, arith, ok, err, Text,
  text_eq_iff,
}
use garwarp.Base.Map.{get, get-insert}
use garwarp.Request.Types.{
  Instant, RequestOwner, owner_eq, RequestState, state_eq, RequestEntry, RequestError,
}
use garwarp.Request.{
  RequestRegistry, is_valid_transition, transition_entry, transition_found, transition_at,
}
use garwarp.Request.Machine.{
  ◌⟶◌, is_valid_transition→⟶, ⟶→is_valid_transition, owner_eq_iff, state_eq_iff,
}
use garwarp.Request.Lookup.{entry_at}

abbrev is_accepted : RequestOwner → RequestState → RequestEntry → Bool
is_accepted owner target entry =
    owner_eq entry.owner owner
    && (state_eq entry.state target || is_valid_transition entry.state target)

transition_entry-ok :
    (id : Text) (owner : RequestOwner) (target : RequestState) (now : Instant)
    (entry : RequestEntry)
    → ((transition_entry id owner target now entry).1 ≡ ok tt)
      ↔ (is_accepted owner target entry ≡ true)
unfolding transition_entry
transition_entry-ok id owner target now entry = ground arith

and-true : (a b : Bool) → (a && b) ≡ true → (a ≡ true) × (b ≡ true)
and-true a b h = ground arith

or-true : (a b : Bool) → (a || b) ≡ true → (a ≡ true) ⊎ (b ≡ true)
or-true a b h = ground arith

both : (a : Bool) {b : Bool} → a ≡ true → b ≡ true → (a && b) ≡ true
both a p q = ground arith

either : (a : Bool) {b : Bool} → b ≡ true → (a || b) ≡ true
either a q = ground arith

is_accepted_iff :
    (owner : RequestOwner) (target : RequestState) (entry : RequestEntry)
    → (is_accepted owner target entry ≡ true)
      ↔ ((entry.owner ≡ owner) × ((entry.state ≡ target) ⊎ (entry.state ⟶ target)))
is_accepted_iff owner target entry = (
  λ h. (
    (owner_eq_iff entry.owner owner).0 (and-true _ _ h).0,
    elim (or-true _ _ (and-true _ _ h).1) [
      | inl same ↦ inl ((state_eq_iff entry.state target).0 same)
      | inr valid ↦ inr (is_valid_transition→⟶ entry.state target valid)
    ],
  ),
  λ h. both (owner_eq entry.owner owner) ((owner_eq_iff entry.owner owner).1 h.0) (elim h.1 [
    | inl same ↦ rw ((state_eq_iff entry.state target).1 same)
    | inr edge ↦ either (state_eq entry.state target) (⟶→is_valid_transition edge)
  ]),
)

module _ (id : Text) (owner : RequestOwner) (target : RequestState) (now : Instant)
    (r : RequestRegistry) where
  result-found :
      (entry : RequestEntry)
      → entry_at r id ≡ some entry
      → (transition_at id owner target now r).1 ≡ (transition_entry id owner target now entry).1
  unfolding transition_at transition_found entry_at
  result-found entry e = ground arith

  -- For an id that is taken, `transition_at` succeeds exactly for the request's owner and a target
  -- that is the request's state or the end of an edge of the machine from it.
  pub transition_at_succeeds_iff :
      (entry : RequestEntry)
      → entry_at r id ≡ some entry
      → ((transition_at id owner target now r).1 ≡ ok tt)
        ↔ ((entry.owner ≡ owner) × ((entry.state ≡ target) ⊎ (entry.state ⟶ target)))
  transition_at_succeeds_iff entry e =
      let a = transition_entry-ok id owner target now entry in
      let b = is_accepted_iff owner target entry in
      rw (result-found entry e) (λ h. b.0 (a.0 h), λ h. a.1 (b.1 h))

  refused_entry :
      (entry : RequestEntry) {e : RequestError}
      → (transition_entry id owner target now entry).1 ≡ err e
      → (transition_entry id owner target now entry).0 ≡ entry
  unfolding transition_entry
  refused_entry entry h = ground arith

  -- A refused transition changes no entry.
  pub transition_at_refused :
      (j : Text) {e : RequestError}
      → (transition_at id owner target now r).1 ≡ err e
      → entry_at (transition_at id owner target now r).0 j ≡ entry_at r j
  unfolding transition_at transition_found entry_at
  transition_at_refused j = found _ (get id r.entries) refl
    where
      found :
          (e : RequestError) (o : Option RequestEntry)
          → get id r.entries ≡ o
          → (transition_found id owner target now r o).1 ≡ err e
          → entry_at (transition_found id owner target now r o).0 j ≡ entry_at r j
      found e none g h = refl
      found e (some entry) g h = ground (
        arith,
        get-insert id j (transition_entry id owner target now entry).0 r.entries,
        refused_entry entry h,
        text_eq_iff id j,
      )
