-- ===== src/Ctl/Wire.antt =====
-- Lines on the socket between garwarpctl/src/main.rs and garwarp/src/daemon.rs: what one side writes
-- is what the other side reads.
use garwarp.Base.{
  ℕ, ◌+◌, ◌-◌, ◌<◌, true, some, List, [], ◌∷◌, ◌++◌, ◌≡◌, refl, ap, ◌∙◌, sym, arith, Text, codes,
  all, all-append, all_mono, is_not, is_dark, is_whitespace, is_word, AreWords, line_of, join, len,
  utf8_len, trim, trim_start, trim_end, Bool-cases, inl, inr,
}
use garwarp.Ipc.Control.{
  ControlRequest, status, stop, list_requests, inspect_request, begin_request, transition_request,
  as_line, begin_parts, transition_parts,
}
use garwarp.Ipc.Control
use garwarp.Ipc.Control.RoundTrip.{IsPlain, begin-AreWords, transition-AreWords}
use garwarp.Ipc.Response.{ControlResponse, to_line}
use garwarp.Ipc.Response.RoundTrip
use garwarp.Ipc.Response.RoundTrip.{to_line-line_of, AreWords-words}
use garwarp.Daemon.Connection.{read_line}
use garwarp.Ctl.Run.{first_line}

abbrev pub IsLine : Text → Type 0
IsLine s = all (is_not b'\n') s ≡ true

no_newline : (c : ℕ) → is_dark c ≡ true → is_not b'\n' c ≡ true
unfolding is_whitespace
no_newline c h = ground arith

dark-IsLine : (s : Text) → all is_dark s ≡ true → IsLine s
dark-IsLine s = all_mono is_dark (is_not b'\n') s no_newline

word-IsLine : (w : Text) → is_word w ≡ true → IsLine w
word-IsLine w h = dark-IsLine w (ground arith)

join-IsLine : (ws : List Text) → AreWords ws → IsLine (join (b' ' ∷ []) ws)
unfolding join
join-IsLine [] h = refl
join-IsLine (w ∷ []) h = word-IsLine w h.0
join-IsLine (w ∷ x ∷ ws) h =
    all-append (is_not b'\n') w (b' ' ∷ join (b' ' ∷ []) (x ∷ ws)) (word-IsLine w h.0)
      (join-IsLine (x ∷ ws) h.1)

-- A request takes one line.
pub as_line-IsLine : (r : ControlRequest) → IsPlain r → IsLine (as_line r)
unfolding as_line
as_line-IsLine status h = refl
as_line-IsLine stop h = refl
as_line-IsLine list_requests h = refl
as_line-IsLine (inspect_request id) h =
    all-append (is_not b'\n') (codes "inspect id=") id refl (dark-IsLine id h)
as_line-IsLine (begin_request id sender app_id parent_window) h =
    join-IsLine (begin_parts id sender app_id parent_window)
      (begin-AreWords id sender app_id parent_window h)
as_line-IsLine (transition_request id sender app_id target) h =
    join-IsLine (transition_parts id sender app_id target)
      (transition-AreWords id sender app_id target h)

-- A line that fits is read whole, with its newline.
pub read_line-whole :
    (limit : ℕ) (s : Text)
    → IsLine s
    → len s < limit
    → read_line limit (s ++ b'\n' ∷ []) ≡ some (len s + 1, s ++ b'\n' ∷ [])
unfolding read_line len utf8_len
read_line-whole limit [] h fits = ground arith
read_line-whole limit (c ∷ s) h fits = ground (arith, read_line-whole (limit - utf8_len c) s)

trim_end-newline : (s : Text) → trim_end (s ++ b'\n' ∷ []) ≡ trim_end s
unfolding trim_end is_whitespace
trim_end-newline [] = refl
trim_end-newline (c ∷ s) = rw (trim_end-newline s) refl

-- The newline behind a line is trimmed.
pub trim-newline : (s : Text) → trim (s ++ b'\n' ∷ []) ≡ trim s
unfolding trim trim_start
trim-newline [] = unfold trim_end is_whitespace in refl
trim-newline (c ∷ s) = elim (Bool-cases (is_whitespace c)) [
  | inl blank ↦ rw blank (trim-newline s)
  | inr dark ↦ rw dark (trim_end-newline (c ∷ s))
]

pub parse_line-newline : (s : Text) → Control.parse_line (s ++ b'\n' ∷ []) ≡ Control.parse_line s
unfolding Control.parse_line
parse_line-newline s = rw (trim-newline s) refl

first_line-append : (w s : Text) → IsLine w → first_line (w ++ s) ≡ w ++ first_line s
unfolding first_line
first_line-append [] s h = refl
first_line-append (c ∷ w) s h = ground (arith, first_line-append w s)

first_line-space : (s : Text) → first_line (b' ' ∷ s) ≡ b' ' ∷ first_line s
unfolding first_line
first_line-space s = refl

first_line-line_of : (ws : List Text) → AreWords ws → first_line (line_of ws) ≡ line_of ws
first_line-line_of [] h = unfold first_line in refl
first_line-line_of (w ∷ []) h =
    first_line-append w (b'\n' ∷ []) (word-IsLine w h.0) ∙ ap (◌++◌ w) (unfold first_line in refl)
first_line-line_of (w ∷ x ∷ ws) h =
    first_line-append w (b' ' ∷ line_of (x ∷ ws)) (word-IsLine w h.0)
    ∙ ap (◌++◌ w)
        (first_line-space (line_of (x ∷ ws)) ∙ ap (◌∷◌ b' ') (first_line-line_of (x ∷ ws) h.1))

-- A reply takes one line.
pub first_line-to_line :
    (r : ControlResponse) → RoundTrip.IsPlain r → first_line (to_line r) ≡ to_line r
first_line-to_line r h =
    ap first_line (to_line-line_of r)
    ∙ first_line-line_of (RoundTrip.words r) (AreWords-words r h)
    ∙ sym (to_line-line_of r)
