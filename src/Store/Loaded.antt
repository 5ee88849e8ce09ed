-- ===== src/Store/Loaded.antt =====
-- What `load_registry` of garwarp/src/request_store.rs accepts, whatever the text of the store is.
use mathlib.Core.Path.{subst}
use garwarp.Base.Shown.{IsPlain, IsCell, is_plain}
use garwarp.Base.{
  ℕ, suc, Bool, true, not, Option, none, some, List, [], ◌∷◌, ◌≡◌, refl, arith, ok, ok_or, map_err,
  ensure, bind-eq-ok, ok_or-eq-ok, map_err-eq-ok, ok_injective, Text, codes, text_eq, text_eq-false,
  all, trim, is_empty, is_not, split, split_once, AllOf, split-AllOf, split_once-all, Bool-cases,
  inl, inr,
}
use garwarp.Base.Map.{Map, get, insert, contains_key}
use garwarp.Base.Map.All.{All, All-get, All-insert}
use garwarp.Window.RoundTrip.{parse_optional_parent_window-IsWide}
use garwarp.Request.Types.{
  Instant, Duration, RequestRecord, RequestError, RequestOwner, RequestState,
}
use garwarp.Request.Types
use garwarp.Request.{RequestRegistry, restore_record, restored, to_record, new}
use garwarp.Request.Invariant.{IsWf, new-IsWf, restore_record-IsWf}
use garwarp.Store.{
  StoreFile, absent, unreadable, body, is_known_field, parse_fields_onto, parse_fields,
  required_field, optional_field, dash_none, record_of_fields, parse_record_line, strip_cr,
  terminated, lines, at_line, restore, load_line, load_lines, load_registry, window_error_text,
  request_error_text,
}
use garwarp.Store.RecordLine.{IsStorable}
use garwarp.Store.RoundTrip.{IsStorableEntry}

abbrev ArePlain : Map Text → Type 0
ArePlain = All (λ key value. IsPlain value)

parse_fields_onto-ArePlain :
    (fields : Map Text) (tokens : List Text) (m : Map Text)
    → ArePlain fields
    → AllOf is_plain tokens
    → parse_fields_onto fields tokens ≡ ok m
    → ArePlain m
unfolding parse_fields_onto
parse_fields_onto-ArePlain fields [] m h t e = subst ArePlain (ok_injective e) h
parse_fields_onto-ArePlain fields (token ∷ tokens) m h t e =
    let ((key, value), cut, e1) = bind-eq-ok (ok_or (split_once b'=' token) _) _ e in
    let (u, known, e2) = bind-eq-ok (ensure (is_known_field key) _) _ e1 in
    let (v, new, e3) = bind-eq-ok (ensure (not (contains_key key fields)) _) _ e2 in
    parse_fields_onto-ArePlain (insert key value fields) tokens m
      (All-insert (λ key value. IsPlain value) key value fields
        (split_once-all is_plain b'=' token key value (ok_or-eq-ok (split_once b'=' token) _ cut)
          t.0)
        h)
      t.1 e3

dash_none-IsCell : (o : Option Text) → ((s : Text) → o ≡ some s → IsPlain s) → IsCell (dash_none o)
dash_none-IsCell none h = tt
dash_none-IsCell (some s) h = elim (Bool-cases (text_eq s (codes "-"))) [
  | inl dash ↦ rw dash tt
  | inr other ↦ rw other (h s refl, text_eq-false other)
]

record_of_fields-IsStorable :
    (fields : Map Text) (saved : RequestRecord)
    → ArePlain fields
    → record_of_fields fields ≡ ok saved
    → IsStorable saved
unfolding record_of_fields required_field optional_field
record_of_fields-IsStorable fields saved h e =
    let (id, found_id, e1) = bind-eq-ok (ok_or (get (codes "id") fields) _) _ e in
    let (sender, found_sender, e2) = bind-eq-ok (ok_or (get (codes "sender") fields) _) _ e1 in
    let (window, parsed, e3) = bind-eq-ok (map_err window_error_text _) _ e2 in
    let (state_text, found_state, e4) = bind-eq-ok (ok_or (get (codes "state") fields) _) _ e3 in
    let (state, known, e5) = bind-eq-ok (ok_or (Types.parse state_text) _) _ e4 in
    let plain = λ (key : Text) (value : Text) (e : get key fields ≡ some value).
      All-get (λ key value. IsPlain value) key fields h e in
    subst IsStorable (ok_injective e5) (record {
      id = plain (codes "id") id (ok_or-eq-ok (get (codes "id") fields) _ found_id);
      sender =
          plain (codes "sender") sender (ok_or-eq-ok (get (codes "sender") fields) _ found_sender);
      app_id = dash_none-IsCell (get (codes "app_id") fields) (plain (codes "app_id"));
      parent_window =
          parse_optional_parent_window-IsWide _ window (map_err-eq-ok window_error_text _ parsed);
    })

-- What is read from a line without a newline can be written back.
parse_record_line-IsStorable :
    (line : Text) (saved : RequestRecord)
    → all (is_not b'\n') line ≡ true
    → parse_record_line line ≡ ok saved
    → IsStorable saved
unfolding parse_record_line parse_fields
parse_record_line-IsStorable line saved h e =
    let (fields, parsed, e1) = bind-eq-ok (parse_fields_onto [] (split b'\t' line)) _ e in
    record_of_fields-IsStorable fields saved
      (parse_fields_onto-ArePlain [] (split b'\t' line) fields tt
        (split-AllOf (is_not b'\n') b'\t' line h) parsed)
      e1

strip_cr-all : (p : ℕ → Bool) (s : Text) → all p s ≡ true → all p (strip_cr s) ≡ true
strip_cr-all p [] h = refl
strip_cr-all p (c ∷ []) h = ground arith
strip_cr-all p (c ∷ d ∷ s) h = ground (arith, strip_cr-all p (d ∷ s))

terminated-AllOf : (p : ℕ → Bool) (ss : List Text) → AllOf p ss → AllOf p (terminated ss)
terminated-AllOf p [] h = tt
terminated-AllOf p (s ∷ []) h = elim (Bool-cases (is_empty s)) [
  | inl blank ↦ rw blank tt
  | inr filled ↦ rw filled (h.0, tt)
]
terminated-AllOf p (s ∷ t ∷ ss) h = (strip_cr-all p s h.0, terminated-AllOf p (t ∷ ss) h.1)

anything : (s : Text) → all (λ c. true) s ≡ true
anything [] = refl
anything (c ∷ s) = anything s

lines-AllOf : (text : Text) → AllOf (is_not b'\n') (lines text)
unfolding lines
lines-AllOf text =
    terminated-AllOf (is_not b'\n') (split b'\n' text)
      (split-AllOf (λ c. true) b'\n' text (anything text))

-- A registry that can be written and read back.
pub record IsSound (r : RequestRegistry) : Type 0 where
  pub wf : IsWf r
  pub storable : All IsStorableEntry r.entries

restore-IsSound :
    (saved : RequestRecord) (now : Instant) (r s : RequestRegistry)
    → IsStorable saved
    → IsSound r
    → restore saved now r ≡ ok s
    → IsSound s
restore-IsSound saved now r s h sound e =
    let (done, fine, same) = bind-eq-ok (restore_record saved now r).1 _ e in
    subst IsSound (ok_injective same)
      (record { wf = restore_record-IsWf saved now r sound.wf; storable = kept })
  where
    kept : All IsStorableEntry (restore_record saved now r).0.entries
    kept =
        unfold restore_record in
        elim (Bool-cases (contains_key saved.id r.entries)) [
          | inl old ↦ rw old (sound.storable)
          | inr fresh ↦ rw fresh (
              All-insert IsStorableEntry saved.id (restored saved now) r.entries
                (unfold to_record restored in h) sound.storable)
        ]

load_line-IsSound :
    (index : ℕ) (now : Instant) (line : Text) (r s : RequestRegistry)
    → all (is_not b'\n') line ≡ true
    → IsSound r
    → load_line index now line r ≡ ok s
    → IsSound s
unfolding load_line
load_line-IsSound index now line r s h sound e = elim (Bool-cases (is_empty (trim line))) [
  | inl blank ↦ subst IsSound (ok_injective (rw blank at e)) sound
  | inr filled ↦
      let (saved, parsed, e1) =
        bind-eq-ok (map_err (at_line index) (parse_record_line line)) _ (rw filled at e) in
      restore-IsSound saved now r s
        (parse_record_line-IsStorable line saved h
          (map_err-eq-ok (at_line index) (parse_record_line line) parsed))
        sound
        (map_err-eq-ok (λ (e : RequestError). at_line index (request_error_text e))
          (restore saved now r) e1)
]

load_lines-IsSound :
    (index : ℕ) (now : Instant) (ls : List Text) (r s : RequestRegistry)
    → AllOf (is_not b'\n') ls
    → IsSound r
    → load_lines index now ls r ≡ ok s
    → IsSound s
unfolding load_lines
load_lines-IsSound index now [] r s h sound e = subst IsSound (ok_injective e) sound
load_lines-IsSound index now (line ∷ rest) r s h sound e =
    let (r', first, e1) = bind-eq-ok (load_line index now line r) _ e in
    load_lines-IsSound (suc index) now rest r' s h.1
      (load_line-IsSound index now line r r' h.0 sound first) e1

pub new-IsSound : (timeout : Duration) → IsSound (new timeout)
new-IsSound timeout = record { wf = new-IsWf timeout; storable = unfold new in tt }

-- Whatever stands in the store, a registry that `load_registry` returns is well-formed, and can be
-- written and read back.
pub load_registry-IsSound :
    (file : StoreFile) (timeout : Duration) (now : Instant) (r : RequestRegistry)
    → load_registry file timeout now ≡ ok r
    → IsSound r
unfolding load_registry
load_registry-IsSound absent timeout now r e = subst IsSound (ok_injective e) (new-IsSound timeout)
load_registry-IsSound unreadable timeout now r e = absurd (cc e)
load_registry-IsSound (body text) timeout now r e =
    load_lines-IsSound 0 now (lines text) (new timeout) r (lines-AllOf text) (new-IsSound timeout) e
