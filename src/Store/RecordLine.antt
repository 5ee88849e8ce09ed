-- ===== src/Store/RecordLine.antt =====
-- `parse_record_line` of garwarp/src/request_store.rs on what `format_record_line` writes.
use garwarp.Base.Shown.{IsDark, IsPlain, IsCell, is_plain, IsDark-IsPlain}
use garwarp.Base.{
  ap, false, is_empty, ℕ, Bool, true, Option, none, some, List, [], ◌∷◌, ◌++◌, ◌≡◌, refl, arith, ok,
  Text, codes, text_eq, text_eq-ne, all, is_whitespace, split, split_once, LackAll, split-join,
  is_not, join, all_mono, all-append,
}
use garwarp.Base.Map.{get, insert}
use garwarp.Window.{ParentWindowContext, x11, parse_optional_parent_window}
use garwarp.Window
use garwarp.Window.RoundTrip.{IsWide, parse_optional_parent_window-as_str, all-as_str}
use garwarp.Request.Types.{
  RequestRecord, RequestState, pending, awaiting_user, fulfilled, cancelled, failed, expired,
  RequestOwner,
}
use garwarp.Request.Types
use garwarp.Store.{
  strip_cr, or_dash, dash_none, window_text, format_record_line, parse_record_line, parse_fields,
  parse_fields_onto, record_of_fields, required_field, optional_field,
}

-- A record whose texts hold no tab and no newline, and whose window id has 64 bits.
pub record IsStorable (saved : RequestRecord) : Type 0 where
  pub id : IsPlain saved.id
  pub sender : IsPlain saved.owner.sender
  pub app_id : IsCell saved.owner.app_id
  pub parent_window : IsWide saved.parent_window

-- The parts of a line between its tabs.
parts : RequestRecord → List Text
parts saved =
    (codes "id=" ++ saved.id)
    ∷ (codes "sender=" ++ saved.owner.sender)
    ∷ (codes "app_id=" ++ or_dash saved.owner.app_id)
    ∷ (codes "parent=" ++ window_text saved.parent_window)
    ∷ (codes "state=" ++ Types.as_str saved.state)
    ∷ []

format-join : (saved : RequestRecord) → format_record_line saved ≡ join (codes "\t") (parts saved)
unfolding format_record_line parts join
format-join saved = refl

not_tab : (c : ℕ) → is_plain c ≡ true → is_not b'\t' c ≡ true
not_tab c h = ground arith

not_newline : (c : ℕ) → is_plain c ≡ true → is_not b'\n' c ≡ true
not_newline c h = ground arith

pub state-IsDark : (s : RequestState) → IsDark (Types.as_str s)
unfolding Types.as_str is_whitespace
state-IsDark pending = refl
state-IsDark awaiting_user = refl
state-IsDark fulfilled = refl
state-IsDark cancelled = refl
state-IsDark failed = refl
state-IsDark expired = refl

read_state : (s : RequestState) → Types.parse (Types.as_str s) ≡ some s
unfolding Types.as_str Types.parse text_eq
read_state pending = refl
read_state awaiting_user = refl
read_state fulfilled = refl
read_state cancelled = refl
read_state failed = refl
read_state expired = refl

or_dash-IsPlain : (o : Option Text) → IsCell o → IsPlain (or_dash o)
or_dash-IsPlain none h = refl
or_dash-IsPlain (some s) h = h.0

window_text-IsPlain : (w : Option ParentWindowContext) → IsPlain (window_text w)
window_text-IsPlain none = refl
window_text-IsPlain (some w) = IsDark-IsPlain (Window.as_str w) (all-as_str w)

keyed-IsPlain : (k v : Text) → IsPlain k → IsPlain v → IsPlain (k ++ v)
keyed-IsPlain k v h d = all-append is_plain k v h d

AllPlain : List Text → Type 0
AllPlain [] = Unit {0}
AllPlain (s ∷ ss) = IsPlain s × AllPlain ss

parts-AllPlain : (saved : RequestRecord) → IsStorable saved → AllPlain (parts saved)
unfolding parts AllPlain
parts-AllPlain saved h = (
  keyed-IsPlain (codes "id=") saved.id refl h.id,
  (
    keyed-IsPlain (codes "sender=") saved.owner.sender refl h.sender,
    (
      keyed-IsPlain (codes "app_id=") (or_dash saved.owner.app_id) refl
          (or_dash-IsPlain saved.owner.app_id h.app_id),
      (
        keyed-IsPlain (codes "parent=") (window_text saved.parent_window) refl
            (window_text-IsPlain saved.parent_window),
        (
          keyed-IsPlain (codes "state=") (Types.as_str saved.state) refl
              (IsDark-IsPlain (Types.as_str saved.state) (state-IsDark saved.state)),
          tt,
        ),
      ),
    ),
  ),
)

AllPlain-LackAll :
    (sep : ℕ)
    → ((c : ℕ) → is_plain c ≡ true → is_not sep c ≡ true)
    → (ss : List Text) → AllPlain ss
    → LackAll sep ss
unfolding AllPlain
AllPlain-LackAll sep safe [] h = tt
AllPlain-LackAll sep safe (s ∷ ss) h =
    (all_mono is_plain (is_not sep) s safe h.0, AllPlain-LackAll sep safe ss h.1)

split-parts :
    (saved : RequestRecord)
    → IsStorable saved
    → split b'\t' (format_record_line saved) ≡ parts saved
unfolding parts
split-parts saved h =
    rw (format-join saved)
      (split-join b'\t' _ _ (AllPlain-LackAll b'\t' not_tab (parts saved) (parts-AllPlain saved h)))

all-join :
    (p : ℕ → Bool) (sep : ℕ) (ss : List Text)
    → p sep ≡ true
    → ((c : ℕ) → is_plain c ≡ true → p c ≡ true)
    → AllPlain ss
    → all p (join (sep ∷ []) ss) ≡ true
unfolding join AllPlain
all-join p sep [] h safe d = refl
all-join p sep (s ∷ []) h safe d = all_mono is_plain p s safe d.0
all-join p sep (s ∷ t ∷ ss) h safe d =
    all-append p s (sep ∷ join (sep ∷ []) (t ∷ ss)) (all_mono is_plain p s safe d.0)
      (rw h (all-join p sep (t ∷ ss) h safe d.1))

-- A text that ends in a character that `lines` does not strip.
Ends : Text → Type 0
Ends t = (strip_cr t ≡ t) × (is_empty t ≡ false)

Ends-append : (s t : Text) → Ends t → Ends (s ++ t)
unfolding Ends
Ends-append [] t h = h
Ends-append (c ∷ []) [] h = absurd (cc (h.1))
Ends-append (c ∷ []) (d ∷ t) h = (ap (◌∷◌ c) (h.0), refl)
Ends-append (c ∷ d ∷ s) t h = (ap (◌∷◌ c) ((Ends-append (d ∷ s) t h).0), refl)

state-Ends : (s : RequestState) → Ends (Types.as_str s)
unfolding Ends Types.as_str
state-Ends pending = (refl, refl)
state-Ends awaiting_user = (refl, refl)
state-Ends fulfilled = (refl, refl)
state-Ends cancelled = (refl, refl)
state-Ends failed = (refl, refl)
state-Ends expired = (refl, refl)

-- The state stands at the end of the line.
pub strip_cr-format :
    (saved : RequestRecord) → strip_cr (format_record_line saved) ≡ format_record_line saved
unfolding format_record_line Ends
strip_cr-format saved =
    (Ends-append (codes "id=") _ (
      Ends-append saved.id _ (
        Ends-append (codes "\tsender=") _ (
          Ends-append saved.owner.sender _ (
            Ends-append (codes "\tapp_id=") _ (
              Ends-append (or_dash saved.owner.app_id) _ (
                Ends-append (codes "\tparent=") _ (
                  Ends-append (window_text saved.parent_window) _
                    (Ends-append (codes "\tstate=") _ (state-Ends saved.state)))))))))).0

-- A line holds no line break.
pub all-format_record_line :
    (saved : RequestRecord)
    → IsStorable saved
    → all (is_not b'\n') (format_record_line saved) ≡ true
all-format_record_line saved h =
    rw (format-join saved)
      (all-join (is_not b'\n') b'\t' (parts saved) refl not_newline (parts-AllPlain saved h))

dash_none-or_dash : (o : Option Text) → IsCell o → dash_none (some (or_dash o)) ≡ o
unfolding text_eq
dash_none-or_dash none h = refl
dash_none-or_dash (some s) h = rw (text_eq-ne h.1) refl

read_window :
    (w : Option ParentWindowContext)
    → IsWide w
    → parse_optional_parent_window (dash_none (some (window_text w))) ≡ ok w
unfolding text_eq Window.as_str
read_window none h = unfold parse_optional_parent_window in refl
read_window (some (x11 n)) h = parse_optional_parent_window-as_str n h

-- A storable record is read back from its line.
pub parse_record_line-format :
    (saved : RequestRecord)
    → IsStorable saved
    → parse_record_line (format_record_line saved) ≡ ok saved
unfolding parse_record_line parse_fields record_of_fields parts get insert text_eq split_once
    required_field optional_field parse_fields_onto
parse_record_line-format saved h =
    rw
      (
        split-parts saved h,
        read_window saved.parent_window h.parent_window,
        dash_none-or_dash saved.owner.app_id h.app_id,
        read_state saved.state,
      )
      refl
