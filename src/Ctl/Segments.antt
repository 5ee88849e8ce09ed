-- ===== src/Ctl/Segments.antt =====
-- The two copies of `sender_to_handle_segment`, in garwarpctl/src/main.rs and garwarp/src/portal.rs.
use mathlib.Core.Path.{subst}
use garwarp.Validate.{is_app_id_char}
use garwarp.Validate.Dark.{is_app_id_char-dark}
use garwarp.Base.{
  ==_iff, ◌≢◌, some_injective, ℕ, Bool, true, false, ◌&&◌, ◌||◌, Option, none, some, [], ◌∷◌, ◌≡◌,
  refl, arith, ap, sym, ◌∙◌, Result, ok, err, ◌>>=◌, ensure, ok_injective, Text, text_eq,
  text_eq_refl, is_empty, all, is_dark, is_whitespace, is_ascii_alphanumeric, ◌==◌, if◌then◌else◌,
  trim, trim-dark, codes, Bool-cases, inl, inr,
}
use garwarp.Error.{PortalError, invalid_request_payload}
use garwarp.Portal.{is_segment_char, is_valid_path_segment}
use garwarp.Portal
use garwarp.Ctl
use garwarp.Ctl.{segment_of, sender_to_handle_segment}

-- What a function returns, without its error.
abbrev pub answer : {E : Type 0} → Result E Text → Option Text
answer (ok s) = some s
answer (err e) = none

module _ {E F : Type 0} where
  pick :
      (b : Bool) (r s : Result E Text) (r' s' : Result F Text)
      → answer r ≡ answer r'
      → answer s ≡ answer s'
      → answer (if b then r else s) ≡ answer (if b then r' else s')
  pick true r s r' s' p q = p
  pick false r s r' s' p q = q

  cons-answer :
      (c : ℕ) (r : Result E Text) (r' : Result F Text)
      → answer r ≡ answer r'
      → answer (r >>= λ segment. ok (c ∷ segment)) ≡ answer (r' >>= λ segment. ok (c ∷ segment))
  cons-answer c (ok s) (ok t) p = ap (λ x. some (c ∷ x)) (some_injective p)
  cons-answer c (ok s) (err e) p = cc
  cons-answer c (err e) (ok t) p = cc
  cons-answer c (err e) (err f) p = refl

-- The loops of the client and of the daemon turn the same texts to the same segments.
pub segment_of-agrees :
    (body : Text) → answer (Ctl.segment_of body) ≡ answer (Portal.segment_of body)
unfolding Ctl.segment_of Portal.segment_of
segment_of-agrees [] = refl
segment_of-agrees (c ∷ cs) =
    let rest = segment_of-agrees cs in
    pick (is_ascii_alphanumeric c) _ _ _ _
      (cons-answer c (Ctl.segment_of cs) (Portal.segment_of cs) rest)
      (pick (c == b'.' || c == b'_' || c == b'-') _ _ _ _
        (cons-answer b'_' (Ctl.segment_of cs) (Portal.segment_of cs) rest) refl)

-- What stands in a text that has a segment, and in its segment.
record IsBody (body segment : Text) : Type 0 where
  dark : all is_dark body ≡ true
  valid : all is_segment_char segment ≡ true
  filled : is_empty segment ≡ is_empty body

both : (a b : Bool) → a ≡ true → b ≡ true → (a && b) ≡ true
both a b p q = ground arith

alnum-dark :
    (c : ℕ) → is_ascii_alphanumeric c ≡ true → (is_dark c ≡ true) × (is_segment_char c ≡ true)
alnum-dark c h = (
  is_app_id_char-dark c (unfold is_app_id_char in rw h refl),
  unfold is_segment_char in rw h refl,
)

mark-dark : (c : ℕ) → (c == b'.' || c == b'_' || c == b'-') ≡ true → is_dark c ≡ true
mark-dark c h = is_app_id_char-dark c (unfold is_app_id_char in ground arith)

underscore-valid : is_segment_char b'_' ≡ true
unfolding is_segment_char is_ascii_alphanumeric
underscore-valid = refl

-- One more character in front, and what it is turned into.
grown :
    (c d : ℕ) (cs : Text) (rest : Result PortalError Text) {segment : Text}
    → is_dark c ≡ true
    → is_segment_char d ≡ true
    → ((s : Text) → rest ≡ ok s → IsBody cs s)
    → (rest >>= λ s. ok (d ∷ s)) ≡ ok segment
    → IsBody (c ∷ cs) segment
grown c d cs (err e) p q ih h = absurd (refused h)
  where
    refused : {segment : Text} → ◌≢◌ {A = Result PortalError Text} (err e) (ok segment)
    refused h = cc
grown c d cs (ok s) p q ih h =
    let b = ih s refl in
    subst (IsBody (c ∷ cs)) (ok_injective h) (record {
      dark = both (is_dark c) (all is_dark cs) p b.dark;
      valid = both (is_segment_char d) (all is_segment_char s) q b.valid;
      filled = refl;
    })

segment_of-IsBody :
    (body segment : Text) → Portal.segment_of body ≡ ok segment → IsBody body segment
unfolding Portal.segment_of
segment_of-IsBody [] segment h =
    subst (IsBody []) (ok_injective h) (record { dark = refl; valid = refl; filled = refl })
segment_of-IsBody (c ∷ cs) segment h = elim (Bool-cases (is_ascii_alphanumeric c)) [
  | inl plain ↦
      grown c c cs (Portal.segment_of cs) (alnum-dark c plain).0 (alnum-dark c plain).1
        (segment_of-IsBody cs) (rw plain at h)
  | inr other ↦ elim (Bool-cases (c == b'.' || c == b'_' || c == b'-')) [
    | inl mark ↦
        grown c b'_' cs (Portal.segment_of cs) (mark-dark c mark) underscore-valid
          (segment_of-IsBody cs) (rw mark at (rw other at h))
    | inr bad ↦ absurd (refused (rw bad at (rw other at h)))
  ]
]
  where
    refused : ◌≢◌ {A = Result PortalError Text} (err invalid_request_payload) (ok segment)
    refused h = cc

ensured : {E : Type 0} (b : Bool) (e f : E) → answer (ensure b e >>= λ u. err f) ≡ none
ensured true e f = refl
ensured false e f = refl

colon-dark : is_dark b':' ≡ true
unfolding is_whitespace
colon-dark = refl

module _ (d : ℕ) (ds : Text) where
  client-answer :
      answer (Ctl.sender_to_handle_segment (b':' ∷ d ∷ ds)) ≡ answer (Ctl.segment_of (d ∷ ds))
  unfolding Ctl.sender_to_handle_segment
  client-answer = refl

  daemon-answer :
      (o : Result PortalError Text)
      → Portal.segment_of (d ∷ ds) ≡ o
      → answer (Portal.sender_to_handle_segment (b':' ∷ d ∷ ds)) ≡ answer o
  unfolding Portal.sender_to_handle_segment is_valid_path_segment
  daemon-answer (err e) h =
      rw h (ensured (text_eq (trim (b':' ∷ d ∷ ds)) (b':' ∷ d ∷ ds)) invalid_request_payload e)
  daemon-answer (ok segment) h =
      let b = segment_of-IsBody (d ∷ ds) segment h in
      rw
        (
          h,
          trim-dark (b':' ∷ d ∷ ds) (both (is_dark b':') (all is_dark (d ∷ ds)) colon-dark b.dark),
          text_eq_refl (b':' ∷ d ∷ ds),
          b.filled,
          b.valid,
        )
        refl

-- The client's copy accepts the same senders as the daemon's function, with the same segments: its
-- missing checks never matter.
pub sender_to_handle_segment-agrees :
    (sender : Text)
    → answer (Ctl.sender_to_handle_segment sender) ≡ answer (Portal.sender_to_handle_segment sender)
sender_to_handle_segment-agrees [] =
    unfold Ctl.sender_to_handle_segment Portal.sender_to_handle_segment in
    sym (ensured (text_eq (trim []) []) invalid_request_payload invalid_request_payload)
sender_to_handle_segment-agrees (c ∷ body) = elim (Bool-cases (b':' == c)) [
  | inl colon ↦
      subst
        (λ x.
          answer (Ctl.sender_to_handle_segment (x ∷ body))
          ≡ answer (Portal.sender_to_handle_segment (x ∷ body)))
        ((==_iff b':' c).0 colon) (accepted body)
  | inr other ↦
      unfold Ctl.sender_to_handle_segment Portal.sender_to_handle_segment in
      rw other (
        sym (
          ensured (text_eq (trim (c ∷ body)) (c ∷ body)) invalid_request_payload
            invalid_request_payload))
]
  where
    accepted :
        (body : Text)
        → answer (Ctl.sender_to_handle_segment (b':' ∷ body))
          ≡ answer (Portal.sender_to_handle_segment (b':' ∷ body))
    accepted [] =
        unfold Ctl.sender_to_handle_segment Portal.sender_to_handle_segment in
        sym (
          ensured (text_eq (trim (codes ":")) (codes ":")) invalid_request_payload
            invalid_request_payload)
    accepted (d ∷ ds) =
        client-answer d ds
        ∙ segment_of-agrees (d ∷ ds)
        ∙ sym (daemon-answer d ds (Portal.segment_of (d ∷ ds)) refl)
