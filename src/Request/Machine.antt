-- ===== src/Request/Machine.antt =====
-- The state machine of one request: the edges of `is_valid_transition`, as a relation.
use garwarp.Base.{true, false, Option, none, some, ◌≡◌, ◌↔◌, refl, arith, Text, text_eq_iff}
use garwarp.Request.Types.{
  RequestOwner, owner_eq, option_text_eq, RequestState, pending, awaiting_user, fulfilled,
  cancelled, failed, expired, is_terminal, state_eq,
}
use garwarp.Request.{is_valid_transition}

pub owner_eq_iff : (a b : RequestOwner) → (owner_eq a b ≡ true) ↔ (a ≡ b)
unfolding owner_eq
owner_eq_iff a b =
    ground (arith, text_eq_iff a.sender b.sender, option_text_eq_iff a.app_id b.app_id)
  where
    option_text_eq_iff : (x y : Option Text) → (option_text_eq x y ≡ true) ↔ (x ≡ y)
    option_text_eq_iff none none = ground arith
    option_text_eq_iff (some x) (some y) = ground (arith, text_eq_iff x y)
    option_text_eq_iff _ _ = ground arith

pub state_eq_iff : (a b : RequestState) → (state_eq a b ≡ true) ↔ (a ≡ b)
unfolding state_eq
state_eq_iff a b = ground arith

-- One edge of the machine.
infix 40 ◌⟶◌ ◌⟶*◌
pub data ◌⟶◌ : RequestState → RequestState → Type 0 where
  show_dialog : pending ⟶ awaiting_user
  answer : awaiting_user ⟶ fulfilled
  cancel : {s : RequestState} → is_terminal s ≡ false → s ⟶ cancelled
  fail : {s : RequestState} → is_terminal s ≡ false → s ⟶ failed
  expire : {s : RequestState} → is_terminal s ≡ false → s ⟶ expired

pub data ◌⟶*◌ : RequestState → RequestState → Type 0 where
  here : {s : RequestState} → s ⟶* s
  step : {s t u : RequestState} → s ⟶ t → t ⟶* u → s ⟶* u

ruleset edges = (show_dialog, answer, cancel, fail, expire)

pub is_valid_transition→⟶ : (s t : RequestState) → is_valid_transition s t ≡ true → s ⟶ t
unfolding is_valid_transition is_terminal
is_valid_transition→⟶ s t h = grind (arith, edges)

pub ⟶→is_valid_transition : {s t : RequestState} → s ⟶ t → is_valid_transition s t ≡ true
unfolding is_valid_transition is_terminal
⟶→is_valid_transition show_dialog = refl
⟶→is_valid_transition answer = refl
⟶→is_valid_transition (cancel {s} h) = ground arith
⟶→is_valid_transition (fail {s} h) = ground arith
⟶→is_valid_transition (expire {s} h) = ground arith

pub ⟶*-trans : {s t u : RequestState} → s ⟶* t → t ⟶* u → s ⟶* u
⟶*-trans here q = q
⟶*-trans (step e p) q = step e (⟶*-trans p q)

terminal-no_edge : {s t : RequestState} → s ⟶ t → is_terminal s ≡ true → ⊥
unfolding is_terminal
terminal-no_edge show_dialog h = cc
terminal-no_edge answer h = cc
terminal-no_edge (cancel e) h = cc
terminal-no_edge (fail e) h = cc
terminal-no_edge (expire e) h = cc

-- A terminal state is left by no path.
pub terminal-⟶* : {s t : RequestState} → s ⟶* t → is_terminal s ≡ true → t ≡ s
terminal-⟶* here h = refl
terminal-⟶* (step e p) h = absurd (terminal-no_edge e h)

-- Nothing but `awaiting_user` leads to `fulfilled`.
pub fulfilled-source : {s t : RequestState} → s ⟶ t → t ≡ fulfilled → s ≡ awaiting_user
fulfilled-source show_dialog h = cc
fulfilled-source answer h = refl
fulfilled-source (cancel e) h = cc
fulfilled-source (fail e) h = cc
fulfilled-source (expire e) h = cc
