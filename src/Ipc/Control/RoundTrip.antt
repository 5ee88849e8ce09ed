-- ===== src/Ipc/Control/RoundTrip.antt =====
-- `as_line` and `parse_line` of `ControlRequest` in garwarp-ipc/src/lib.rs, one after the other.
use garwarp.Base.Shown.{IsDark}
use garwarp.Base.{
  true, false, Option, none, some, List, [], ◌∷◌, ◌++◌, ◌≡◌, refl, ap, ◌∙◌, sym, arith, Text, codes,
  text_eq, is_dark, is_whitespace, is_word, AreWords, trim, split_whitespace, split_whitespace-trim,
  split_whitespace-join, split_whitespace-word, split_whitespace-append, split_once, all-append,
  text_eq-ne,
}
use garwarp.Base.Map.{get, insert}
use garwarp.Ipc.Target.{RequestTransitionTarget, awaiting_user, fulfilled, cancelled, failed}
use garwarp.Ipc.Target
use garwarp.Ipc.Control.{
  ControlRequest, status, stop, list_requests, inspect_request, begin_request, transition_request,
  push_field, begin_parts, transition_parts, as_line, parse_parts, parse_line,
}

abbrev pub IsDarkOption : Option Text → Type 0
IsDarkOption none = Unit
IsDarkOption (some s) = IsDark s

-- No field of the request holds whitespace.
abbrev pub IsPlain : ControlRequest → Type 0
IsPlain (inspect_request id) = IsDark id
IsPlain (begin_request id sender app_id parent_window) =
    IsDark id × IsDark sender × IsDarkOption app_id × IsDarkOption parent_window
IsPlain (transition_request id sender app_id target) =
    IsDark id × IsDark sender × IsDarkOption app_id
IsPlain _ = Unit

-- A line of several words is parsed by its words.
parse_line-words :
    (line w x : Text) (ws : List Text)
    → split_whitespace line ≡ w ∷ x ∷ ws
    → parse_line line ≡ parse_parts (w ∷ x ∷ ws)
unfolding parse_line
parse_line-words line w x ws h =
    rw
      (
        other (codes "status") status_word,
        other (codes "stop") stop_word,
        other (codes "list") list_word,
      )
      (ap parse_parts (split_whitespace-trim line ∙ h))
  where
    word : (s : Text) → is_word s ≡ true → split_whitespace s ≡ s ∷ []
    word = split_whitespace-word

    other : (s : Text) → split_whitespace s ≡ s ∷ [] → text_eq (trim line) s ≡ false
    other s one =
        text_eq-ne λ e. cc (sym (split_whitespace-trim line ∙ h) ∙ ap split_whitespace e ∙ one)

    status_word : split_whitespace (codes "status") ≡ codes "status" ∷ []
    status_word = unfold is_whitespace in word (codes "status") refl

    stop_word : split_whitespace (codes "stop") ≡ codes "stop" ∷ []
    stop_word = unfold is_whitespace in word (codes "stop") refl

    list_word : split_whitespace (codes "list") ≡ codes "list" ∷ []
    list_word = unfold is_whitespace in word (codes "list") refl

-- A key in front of a value with no whitespace is one word.
key_word : (k v : Text) → is_word k ≡ true → IsDark v → is_word (k ++ v) ≡ true
key_word [] v h d = cc
key_word (c ∷ k) v h d = ground (arith, all-append is_dark k v)

AreWords-push_field :
    (k : Text) (o : Option Text) → is_word k ≡ true → IsDarkOption o → AreWords (push_field k o)
AreWords-push_field k none h d = tt
AreWords-push_field k (some v) h d = (key_word k v h d, tt)

AreWords-append : (ws xs : List Text) → AreWords ws → AreWords xs → AreWords (ws ++ xs)
AreWords-append [] xs p q = q
AreWords-append (w ∷ ws) xs p q = (p.0, AreWords-append ws xs p.1 q)

target_word : (t : RequestTransitionTarget) → IsDark (Target.as_str t)
unfolding Target.as_str is_whitespace
target_word awaiting_user = refl
target_word fulfilled = refl
target_word cancelled = refl
target_word failed = refl

target-as_str : (t : RequestTransitionTarget) → Target.parse (Target.as_str t) ≡ some t
unfolding Target.parse Target.as_str text_eq
target-as_str awaiting_user = refl
target-as_str fulfilled = refl
target-as_str cancelled = refl
target-as_str failed = refl

-- The words of a line, read by `parse_parts`.
parse_parts-begin :
    (id sender : Text) (app_id parent_window : Option Text)
    → parse_parts (begin_parts id sender app_id parent_window)
      ≡ some (begin_request id sender app_id parent_window)
unfolding parse_parts split_once text_eq get insert
parse_parts-begin id sender none none = refl
parse_parts-begin id sender (some a) none = refl
parse_parts-begin id sender none (some p) = refl
parse_parts-begin id sender (some a) (some p) = refl

parse_parts-transition :
    (id sender : Text) (app_id : Option Text) (t : RequestTransitionTarget)
    → parse_parts (transition_parts id sender app_id t)
      ≡ some (transition_request id sender app_id t)
unfolding parse_parts split_once text_eq get insert
parse_parts-transition id sender none t = rw (target-as_str t)
parse_parts-transition id sender (some a) t = rw (target-as_str t)

pub begin-AreWords :
    (id sender : Text) (app_id parent_window : Option Text)
    → IsPlain (begin_request id sender app_id parent_window)
    → AreWords (begin_parts id sender app_id parent_window)
unfolding is_whitespace
begin-AreWords id sender app_id parent_window h = (
  refl,
  (
    key_word (codes "id=") id refl h.0,
    (
      key_word (codes "sender=") sender refl h.1,
      AreWords-append (push_field (codes "app_id=") app_id)
          (push_field (codes "parent=") parent_window)
          (AreWords-push_field (codes "app_id=") app_id refl h.2)
          (AreWords-push_field (codes "parent=") parent_window refl h.3),
    ),
  ),
)

pub transition-AreWords :
    (id sender : Text) (app_id : Option Text) (t : RequestTransitionTarget)
    → IsPlain (transition_request id sender app_id t)
    → AreWords (transition_parts id sender app_id t)
unfolding is_whitespace
transition-AreWords id sender app_id t h = (
  refl,
  (
    key_word (codes "id=") id refl h.0,
    (
      key_word (codes "sender=") sender refl h.1,
      (
        key_word (codes "state=") (Target.as_str t) refl (target_word t),
        AreWords-push_field (codes "app_id=") app_id refl h.2,
      ),
    ),
  ),
)

-- Every request whose fields hold no whitespace is printed to a line that is parsed to the same
-- request.
pub parse_line-as_line : (r : ControlRequest) → IsPlain r → parse_line (as_line r) ≡ some r
parse_line-as_line status h = unfold parse_line as_line trim is_whitespace text_eq in refl
parse_line-as_line stop h = unfold parse_line as_line trim is_whitespace text_eq in refl
parse_line-as_line list_requests h = unfold parse_line as_line trim is_whitespace text_eq in refl
parse_line-as_line (inspect_request id) h =
    parse_line-words (as_line (inspect_request id)) (codes "inspect") (codes "id=" ++ id) [] (
      unfold as_line is_whitespace in
      split_whitespace-append (codes "inspect") (codes "id=" ++ id) refl
      ∙ ap (◌∷◌ (codes "inspect"))
          (split_whitespace-word (codes "id=" ++ id) (key_word (codes "id=") id refl h)))
    ∙ unfold parse_parts split_once text_eq get insert in refl
parse_line-as_line (begin_request id sender app_id parent_window) h =
    parse_line-words (as_line (begin_request id sender app_id parent_window)) (codes "begin")
      (codes "id=" ++ id)
      ((codes "sender=" ++ sender)
        ∷ (push_field (codes "app_id=") app_id ++ push_field (codes "parent=") parent_window))
      (unfold as_line in
        split_whitespace-join (begin_parts id sender app_id parent_window)
          (begin-AreWords id sender app_id parent_window h))
    ∙ parse_parts-begin id sender app_id parent_window
parse_line-as_line (transition_request id sender app_id t) h =
    parse_line-words (as_line (transition_request id sender app_id t)) (codes "transition")
      (codes "id=" ++ id)
      ((codes "sender=" ++ sender)
        ∷ (codes "state=" ++ Target.as_str t)
        ∷ push_field (codes "app_id=") app_id)
      (unfold as_line in
        split_whitespace-join (transition_parts id sender app_id t)
          (transition-AreWords id sender app_id t h))
    ∙ parse_parts-transition id sender app_id t
