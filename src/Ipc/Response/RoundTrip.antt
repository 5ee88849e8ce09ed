-- ===== src/Ipc/Response/RoundTrip.antt =====
-- `to_line` and `parse_line` of `ControlResponse` in garwarp-ipc/src/lib.rs, one after the other.
use garwarp.Base.Shown.{IsDark, IsShown}
use garwarp.Base.{
  ℕ, ◌≤◌, ◌<◌, true, false, Option, none, some, List, [], ◌∷◌, ◌++◌, ◌≡◌, ◌≢◌, refl, ap, ◌∙◌, sym,
  arith, Text, codes, text_eq, all, is_dark, is_empty, is_whitespace, is_word, AreWords, line_of,
  split_whitespace, split_whitespace-trim, split_whitespace-line_of, split_once, split, split-join,
  split-lack, LackAll, is_not, join, all-append, text_eq-ne, ok,
}
use garwarp.Base.Digits.{
  show_radix, digit_char, from_str_radix, from_str_radix-show_radix, all-show_radix, u16_max,
  u32_max, u64_max,
}
use garwarp.Ipc.Health.{HealthStatus, starting, healthy, degraded, stopping}
use garwarp.Ipc.Health
use garwarp.Ipc.Response.{
  StatusResponse, ControlResponse, status, ack_stopping, request_list, ack_request,
  request_snapshot, error, each_field, status_field, ack_field, list_field, snapshot_field,
  error_field, to_line, parse_words, parse_line, or_dash, list_text, any_empty, dash_none,
}

abbrev pub AreIds : List Text → Type 0
AreIds [] = Unit
AreIds (id ∷ ids) = IsDark id × (is_empty id ≡ false) × (all (is_not b',') id ≡ true) × AreIds ids

-- The replies that a line can carry: no whitespace in a text, no `-` where it stands for nothing,
-- no empty id and no comma in a list of ids, and numbers in the range of their types.
abbrev pub IsPlain : ControlResponse → Type 0
IsPlain (status s) =
    (s.protocol_version ≤ u16_max)
    × (s.in_flight_requests ≤ u64_max)
    × (s.total_requests ≤ u64_max)
    × (s.terminal_requests ≤ u64_max)
IsPlain ack_stopping = Unit
IsPlain (request_list ids) = AreIds ids × (ids ≢ codes "-" ∷ [])
IsPlain (ack_request id state) = IsDark id × IsDark state
IsPlain (request_snapshot id state sender app_id parent_window) =
    IsDark id × IsDark state × IsDark sender × IsShown app_id × IsShown parent_window
IsPlain (error code reason) = (code ≤ u32_max) × IsDark reason

abbrev decimal : ℕ → Text
decimal = show_radix 10

-- The words of a printed reply.
abbrev pub words : ControlResponse → List Text
words (status s) =
    codes "status"
    ∷ (codes "protocol=" ++ decimal s.protocol_version)
    ∷ (codes "health=" ++ Health.as_str s.health)
    ∷ (codes "in_flight=" ++ decimal s.in_flight_requests)
    ∷ (codes "total=" ++ decimal s.total_requests)
    ∷ (codes "terminal=" ++ decimal s.terminal_requests)
    ∷ []
words ack_stopping = codes "ack" ∷ codes "stopping" ∷ []
words (request_list ids) = codes "list" ∷ (codes "ids=" ++ list_text ids) ∷ []
words (ack_request id state) =
    codes "ack" ∷ codes "request" ∷ (codes "id=" ++ id) ∷ (codes "state=" ++ state) ∷ []
words (request_snapshot id state sender app_id parent_window) =
    codes "snapshot"
    ∷ (codes "id=" ++ id)
    ∷ (codes "state=" ++ state)
    ∷ (codes "sender=" ++ sender)
    ∷ (codes "app_id=" ++ or_dash app_id)
    ∷ (codes "parent=" ++ or_dash parent_window)
    ∷ []
words (error code reason) =
    codes "error" ∷ (codes "code=" ++ decimal code) ∷ (codes "reason=" ++ reason) ∷ []

pub to_line-line_of : (r : ControlResponse) → to_line r ≡ line_of (words r)
unfolding to_line
to_line-line_of (status s) = refl
to_line-line_of ack_stopping = refl
to_line-line_of (request_list ids) = refl
to_line-line_of (ack_request id state) = refl
to_line-line_of (request_snapshot id state sender app_id parent_window) = refl
to_line-line_of (error code reason) = refl

decimal-IsDark : (n : ℕ) → IsDark (decimal n)
decimal-IsDark n = all-show_radix is_dark digit 10 n (omega arith) (omega arith)
  where
    digit : (d : ℕ) → d < 16 → is_dark (digit_char d) ≡ true
    digit d h = unfold is_whitespace in ground arith

read_decimal : (max n : ℕ) → n ≤ max → from_str_radix max 10 (decimal n) ≡ some n
read_decimal max n h = from_str_radix-show_radix max 10 n (omega arith) (omega arith) h

health-IsDark : (h : HealthStatus) → IsDark (Health.as_str h)
unfolding Health.as_str is_whitespace
health-IsDark starting = refl
health-IsDark healthy = refl
health-IsDark degraded = refl
health-IsDark stopping = refl

read_health : (h : HealthStatus) → Health.parse (Health.as_str h) ≡ some h
unfolding Health.as_str Health.parse text_eq
read_health starting = refl
read_health healthy = refl
read_health degraded = refl
read_health stopping = refl

-- A key in front of a value with no whitespace is one word.
key_word : (k v : Text) → is_word k ≡ true → IsDark v → is_word (k ++ v) ≡ true
key_word [] v h d = cc
key_word (c ∷ k) v h d = ground (arith, all-append is_dark k v)

or_dash-IsDark : (o : Option Text) → IsShown o → IsDark (or_dash o)
or_dash-IsDark none h = unfold is_whitespace in refl
or_dash-IsDark (some s) h = h.0

join-IsDark : (ids : List Text) → AreIds ids → IsDark (join (codes ",") ids)
unfolding join is_whitespace
join-IsDark [] h = refl
join-IsDark (id ∷ []) h = h.0
join-IsDark (id ∷ x ∷ r) h =
    all-append is_dark id (b',' ∷ join (codes ",") (x ∷ r)) h.0
      (both_dark (join (codes ",") (x ∷ r)) (join-IsDark (x ∷ r) h.3))
  where
    both_dark : (s : Text) → IsDark s → IsDark (b',' ∷ s)
    both_dark s d = d

list_text-IsDark : (ids : List Text) → AreIds ids → IsDark (list_text ids)
list_text-IsDark [] h = unfold is_whitespace in refl
list_text-IsDark (id ∷ ids) h = join-IsDark (id ∷ ids) h

LackAll-ids : (ids : List Text) → AreIds ids → LackAll b',' ids
LackAll-ids [] h = tt
LackAll-ids (id ∷ ids) h = (h.2, LackAll-ids ids h.3)

any_empty-ids : (ids : List Text) → AreIds ids → any_empty ids ≡ false
any_empty-ids [] h = refl
any_empty-ids (id ∷ ids) h = rw (h.1) (any_empty-ids ids h.3)

split-list_text :
    (id : Text) (ids : List Text) → AreIds (id ∷ ids) → split b',' (list_text (id ∷ ids)) ≡ id ∷ ids
split-list_text id ids h = split-join b',' id ids (LackAll-ids (id ∷ ids) h)

list_text-ne_dash :
    (id : Text) (ids : List Text)
    → AreIds (id ∷ ids)
    → id ∷ ids ≢ codes "-" ∷ []
    → text_eq (list_text (id ∷ ids)) (codes "-") ≡ false
list_text-ne_dash id ids h ne =
    text_eq-ne λ e.
      ne (sym (split-list_text id ids h) ∙ ap (split b',') e ∙ split-lack b',' (codes "-") refl)

pub AreWords-words : (r : ControlResponse) → IsPlain r → AreWords (words r)
unfolding is_whitespace
AreWords-words (status s) h = (
  refl,
  (
    key_word (codes "protocol=") (decimal s.protocol_version) refl
        (decimal-IsDark s.protocol_version),
    (
      key_word (codes "health=") (Health.as_str s.health) refl (health-IsDark s.health),
      (
        key_word (codes "in_flight=") (decimal s.in_flight_requests) refl
            (decimal-IsDark s.in_flight_requests),
        (
          key_word (codes "total=") (decimal s.total_requests) refl
              (decimal-IsDark s.total_requests),
          (
            key_word (codes "terminal=") (decimal s.terminal_requests) refl
                (decimal-IsDark s.terminal_requests),
            tt,
          ),
        ),
      ),
    ),
  ),
)
AreWords-words ack_stopping h = (refl, (refl, tt))
AreWords-words (request_list ids) h =
    (refl, (key_word (codes "ids=") (list_text ids) refl (list_text-IsDark ids h.0), tt))
AreWords-words (ack_request id state) h = (
  refl,
  (refl, (key_word (codes "id=") id refl h.0, (key_word (codes "state=") state refl h.1, tt))),
)
AreWords-words (request_snapshot id state sender app_id parent_window) h = (
  refl,
  (
    key_word (codes "id=") id refl h.0,
    (
      key_word (codes "state=") state refl h.1,
      (
        key_word (codes "sender=") sender refl h.2,
        (
          key_word (codes "app_id=") (or_dash app_id) refl (or_dash-IsDark app_id h.3),
          (
            key_word (codes "parent=") (or_dash parent_window) refl
                (or_dash-IsDark parent_window h.4),
            tt,
          ),
        ),
      ),
    ),
  ),
)
AreWords-words (error code reason) h = (
  refl,
  (
    key_word (codes "code=") (decimal code) refl (decimal-IsDark code),
    (key_word (codes "reason=") reason refl h.1, tt),
  ),
)

parse_words-status :
    (s : StatusResponse) → IsPlain (status s) → parse_words (words (status s)) ≡ ok (status s)
unfolding parse_words each_field status_field split_once text_eq
parse_words-status s h = rw (
  read_decimal u16_max s.protocol_version h.0,
  read_health s.health,
  read_decimal u64_max s.in_flight_requests h.1,
  read_decimal u64_max s.total_requests h.2,
  read_decimal u64_max s.terminal_requests h.3,
)

parse_words-list :
    (ids : List Text)
    → IsPlain (request_list ids)
    → parse_words (words (request_list ids)) ≡ ok (request_list ids)
unfolding parse_words each_field list_field split_once text_eq
parse_words-list [] h = refl
parse_words-list (id ∷ ids) h =
    rw (list_text-ne_dash id ids h.0 h.1, split-list_text id ids h.0, any_empty-ids (id ∷ ids) h.0)

dash_none-or_dash : (o : Option Text) → IsShown o → dash_none (or_dash o) ≡ o
dash_none-or_dash none h = unfold text_eq in refl
dash_none-or_dash (some s) h = rw (text_eq-ne h.1)

parse_words-snapshot :
    (id state sender : Text) (app_id parent_window : Option Text)
    → IsShown app_id
    → IsShown parent_window
    → parse_words (words (request_snapshot id state sender app_id parent_window))
      ≡ ok (request_snapshot id state sender app_id parent_window)
unfolding parse_words each_field snapshot_field split_once text_eq
parse_words-snapshot id state sender app_id parent_window a p =
    ap (λ q. ok (request_snapshot id state sender q.0 q.1))
      (pair (dash_none-or_dash app_id a) (dash_none-or_dash parent_window p))
  where
    pair :
        {x y u v : Option Text} → x ≡ y → u ≡ v → ◌≡◌ {A = Option Text × Option Text} (x, u) (y, v)
    pair e f i = (e i, f i)

parse_words-words : (r : ControlResponse) → IsPlain r → parse_words (words r) ≡ ok r
parse_words-words (status s) h = parse_words-status s h
parse_words-words ack_stopping h = unfold parse_words text_eq in refl
parse_words-words (request_list ids) h = parse_words-list ids h
parse_words-words (ack_request id state) h =
    unfold parse_words each_field ack_field split_once text_eq in refl
parse_words-words (request_snapshot id state sender app_id parent_window) h =
    parse_words-snapshot id state sender app_id parent_window h.3 h.4
parse_words-words (error code reason) h =
    unfold parse_words each_field error_field split_once text_eq in
    rw (read_decimal u32_max code h.0)

split-to_line : (r : ControlResponse) → IsPlain r → split_whitespace (to_line r) ≡ words r
split-to_line r h =
    ap split_whitespace (to_line-line_of r) ∙ by_words (words r) (AreWords-words r h) (nonempty r)
  where
    by_words : (ws : List Text) → AreWords ws → ws ≢ [] → split_whitespace (line_of ws) ≡ ws
    by_words [] h ne = absurd (ne refl)
    by_words (w ∷ ws) h ne = split_whitespace-line_of w ws h

    nonempty : (r : ControlResponse) → words r ≢ []
    nonempty (status s) e = cc
    nonempty ack_stopping e = cc
    nonempty (request_list ids) e = cc
    nonempty (ack_request id state) e = cc
    nonempty (request_snapshot id state sender app_id parent_window) e = cc
    nonempty (error code reason) e = cc

-- Every reply that a line can carry is printed to a line that is parsed to the same reply.
pub parse_line-to_line : (r : ControlResponse) → IsPlain r → parse_line (to_line r) ≡ ok r
unfolding parse_line
parse_line-to_line r h =
    ap parse_words (split_whitespace-trim (to_line r) ∙ split-to_line r h) ∙ parse_words-words r h

-- The list of one request with the id `-` is printed as the empty list, and parsed as such.
pub list_of_dash : parse_line (to_line (request_list (codes "-" ∷ []))) ≡ ok (request_list [])
list_of_dash = ap parse_line (same_line) ∙ parse_line-to_line (request_list []) (tt, λ e. cc e)
  where
    same_line : to_line (request_list (codes "-" ∷ [])) ≡ to_line (request_list [])
    same_line = unfold to_line join in refl
