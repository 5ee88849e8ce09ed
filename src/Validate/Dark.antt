-- ===== src/Validate/Dark.antt =====
-- Whitespace and dashes in the identities that garwarp/src/validate.rs accepts.
use garwarp.Base.Shown.{IsDark, IsShown}
use garwarp.Base.{
  ℕ, ◌≤◌, Bool, true, ◌&&◌, Option, none, some, [], ◌∷◌, ◌≡◌, ◌≢◌, arith, ok, Text, codes, all,
  all_mono, is_ascii_alphanumeric, is_whitespace, is_dark, has_char,
}
use garwarp.Validate.{
  is_id_char, is_app_id_char, is_valid_request_id, is_valid_sender, is_valid_app_id,
  validate_request_id, validate_app_id, validate_request_identity,
}

dark_between : (c : ℕ) → b'-' ≤ c → c ≤ b'z' → is_dark c ≡ true
unfolding is_whitespace
dark_between c h k = ground arith

id_char_bounds : (c : ℕ) → is_id_char c ≡ true → (b'-' ≤ c) × (c ≤ b'z')
unfolding is_id_char is_ascii_alphanumeric
id_char_bounds c h = ground arith

app_id_char_bounds : (c : ℕ) → is_app_id_char c ≡ true → (b'-' ≤ c) × (c ≤ b'z')
unfolding is_app_id_char is_ascii_alphanumeric
app_id_char_bounds c h = ground arith

pub is_id_char-dark : (c : ℕ) → is_id_char c ≡ true → is_dark c ≡ true
is_id_char-dark c h = let b = id_char_bounds c h in dark_between c b.0 b.1

pub is_app_id_char-dark : (c : ℕ) → is_app_id_char c ≡ true → is_dark c ≡ true
is_app_id_char-dark c h = let b = app_id_char_bounds c h in dark_between c b.0 b.1

and_right : (a b : Bool) → (a && b) ≡ true → b ≡ true
and_right a b h = ground arith

and_left : (a b : Bool) → (a && b) ≡ true → a ≡ true
and_left a b h = ground arith

dashed : (s : Text) → has_char b'.' s ≡ true → s ≢ codes "-"
dashed [] h e = cc
dashed (c ∷ s) h e = ground arith

pub request_id-dark : (id : Text) → validate_request_id id ≡ ok tt → all is_dark id ≡ true
unfolding validate_request_id is_valid_request_id
request_id-dark id h = all_mono is_id_char is_dark id is_id_char-dark (ground arith)

sender-dark : (sender : Text) → is_valid_sender sender ≡ true → all is_dark sender ≡ true
unfolding is_valid_sender
sender-dark sender h = all_mono is_id_char is_dark sender is_id_char-dark (ground arith)

app_id-dark :
    (value : Text) → is_valid_app_id value ≡ true → (all is_dark value ≡ true) × (value ≢ codes "-")
unfolding is_valid_app_id
app_id-dark value h = (
  all_mono is_app_id_char is_dark value is_app_id_char-dark (ground arith),
  dashed value (ground arith),
)

-- An accepted identity holds no whitespace, and its application id is not a dash.
pub validate_request_identity-IsDark :
    (id sender : Text) (app_id : Option Text)
    → validate_request_identity id sender app_id ≡ ok tt
    → IsDark id × IsDark sender × IsShown app_id
unfolding validate_request_identity validate_app_id
validate_request_identity-IsDark id sender none h =
    (request_id-dark id (ground arith), sender-dark sender (ground arith), tt)
validate_request_identity-IsDark id sender (some value) h = (
  request_id-dark id (ground arith),
  sender-dark sender (ground arith),
  app_id-dark value (ground arith),
)
