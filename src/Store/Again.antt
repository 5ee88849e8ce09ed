-- ===== src/Store/Again.antt =====
-- `load_registry` of garwarp/src/request_store.rs at another time, and with another timeout.
use garwarp.Base.{
  ℕ, suc, true, false, List, [], ◌∷◌, ◌≡◌, refl, sym, ap, ◌∙◌, arith, Result, ok, err, map_err,
  bind-eq-ok, map_err-eq-ok, ok_injective, Text, trim, is_empty, Bool-cases, inl, inr,
}
use garwarp.Base.Map.{insert, get-insert, contains_key}
use garwarp.Request.Types.{Instant, Duration, RequestRecord, RequestError}
use garwarp.Request.{RequestRegistry, restore_record, restored, new}
use garwarp.Store.{
  StoreFile, absent, unreadable, body, parse_record_line, lines, at_line, restore, load_line,
  load_lines, load_registry, request_error_text,
}

-- The same ids are taken.
SameKeys : RequestRegistry → RequestRegistry → Type 0
SameKeys r s = (k : Text) → contains_key k r.entries ≡ contains_key k s.entries

module _ (now now' : Instant) where
  restore-again :
      (saved : RequestRecord) (r s r' : RequestRegistry)
      → SameKeys r s
      → restore saved now r ≡ ok r'
      → (s' : RequestRegistry) × (restore saved now' s ≡ ok s') × SameKeys r' s'
  unfolding restore_record SameKeys
  restore-again saved r s r' same e = elim (Bool-cases (contains_key saved.id r.entries)) [
    | inl old ↦ absurd (refused (rw old at e))
    | inr fresh ↦
        let left : record r { entries = insert saved.id (restored saved now) r.entries } ≡ r' =
          ok_injective (rw fresh at e) in
        (
          record s { entries = insert saved.id (restored saved now') s.entries },
          rw (sym (same saved.id), fresh) refl,
          λ k. rw⁻¹ left (
              ground (
                arith,
                get-insert saved.id k (restored saved now) r.entries,
                get-insert saved.id k (restored saved now') s.entries,
                same k,
              )),
        )
  ]
    where
      refused :
          {b : RequestRegistry} {x : RequestError}
          → ◌≡◌ {A = Result RequestError RequestRegistry} (err x) (ok b)
          → ⊥
      refused h = cc

  load_line-again :
      (index : ℕ) (line : Text) (r s r' : RequestRegistry)
      → SameKeys r s
      → load_line index now line r ≡ ok r'
      → (s' : RequestRegistry) × (load_line index now' line s ≡ ok s') × SameKeys r' s'
  unfolding load_line SameKeys
  load_line-again index line r s r' same e = elim (Bool-cases (is_empty (trim line))) [
    | inl blank ↦ (
      s,
      skipped blank,
      λ k.
          ap (λ (x : RequestRegistry). contains_key k x.entries)
            (sym (ok_injective (rw blank at e)))
          ∙ same k,
    )
    | inr filled ↦
        let (saved, parsed, e1) =
          bind-eq-ok (map_err (at_line index) (parse_record_line line)) _ (rw filled at e) in
        let (s', again, same') = restore-again saved r s r' same (
          map_err-eq-ok (λ (e : RequestError). at_line index (request_error_text e))
            (restore saved now r) e1) in
        (s', accepted saved s' filled parsed again, same')
  ]
    where
      skipped : is_empty (trim line) ≡ true → load_line index now' line s ≡ ok s
      skipped blank = unfold load_line in rw blank refl

      accepted :
          (saved : RequestRecord) (s' : RequestRegistry)
          → is_empty (trim line) ≡ false
          → map_err (at_line index) (parse_record_line line) ≡ ok saved
          → restore saved now' s ≡ ok s'
          → load_line index now' line s ≡ ok s'
      accepted saved s' filled parsed again = unfold load_line in rw (filled, parsed, again) refl

  load_lines-again :
      (index : ℕ) (ls : List Text) (r s r' : RequestRegistry)
      → SameKeys r s
      → load_lines index now ls r ≡ ok r'
      → (s' : RequestRegistry) × (load_lines index now' ls s ≡ ok s')
  unfolding load_lines
  load_lines-again index [] r s r' same e = (s, refl)
  load_lines-again index (line ∷ rest) r s r' same e =
      let (r₁, first, e1) = bind-eq-ok (load_line index now line r) _ e in
      let (s₁, first', same') = load_line-again index line r s r₁ same first in
      let (s', others) = load_lines-again (suc index) rest r₁ s₁ r' same' e1 in
      (s', rw first' others)

-- Whether the store is accepted depends neither on the time nor on the timeout.
pub load_registry-again :
    (file : StoreFile) (timeout timeout' : Duration) (now now' : Instant) (r : RequestRegistry)
    → load_registry file timeout now ≡ ok r
    → (r' : RequestRegistry) × (load_registry file timeout' now' ≡ ok r')
unfolding load_registry new SameKeys
load_registry-again absent timeout timeout' now now' r e = (new timeout', refl)
load_registry-again unreadable timeout timeout' now now' r e = absurd (cc e)
load_registry-again (body text) timeout timeout' now now' r e =
    load_lines-again now now' 0 (lines text) (new timeout) (new timeout') r (λ k. refl) e
