-- ===== src/Portal/Separation.antt =====
-- What a request id that `derive_request_id` of garwarp/src/portal.rs returns says of its caller.
use garwarp.Base.{
  ensure-ok, ok_injective, some_injective, ℕ, Bool, true, false, not, ◌&&◌, Option, none, some, ◌∷◌,
  ◌++◌, ◌≡◌, arith, ap, sym, ◌∙◌, ok, bind-eq-ok, ensure, Text, text_eq, is_empty, all, all_mono,
  is_not, is_ascii_alphanumeric, split_once, split_once-append, trim, strip_prefix, ok_or, codes,
}
use mathlib.Core.Path.{subst}
use garwarp.Validate.{validate_request_id}
use garwarp.Portal.{
  RequestHandle, is_segment_char, is_valid_path_segment, segment_of, sender_to_handle_segment,
  derive_request_id, request_id_prefix,
}

pub not_colon : (c : ℕ) → is_segment_char c ≡ true → is_not b':' c ≡ true
unfolding is_segment_char is_ascii_alphanumeric
not_colon c h = ground arith

and_right : (a b : Bool) → (a && b) ≡ true → b ≡ true
and_right a b h = ground arith

segment_checked :
    (sender : Text) {segment : Text}
    → sender_to_handle_segment sender ≡ ok segment
    → (not (is_empty segment) && all is_segment_char segment) ≡ true
unfolding sender_to_handle_segment is_valid_path_segment
segment_checked sender h =
    let (u, h0, h1) = bind-eq-ok (ensure (text_eq (trim sender) sender) _) _ h in
    let (body, h2, h3) = bind-eq-ok (ok_or (strip_prefix (codes ":") sender) _) _ h1 in
    let (v, h4, h5) = bind-eq-ok (ensure (not (is_empty body)) _) _ h3 in
    let (segment, h6, h7) = bind-eq-ok (segment_of body) _ h5 in
    let (w, h8, h9) =
      bind-eq-ok (ensure (not (is_empty segment) && all is_segment_char segment) _) _ h7 in
    subst (λ s. (not (is_empty s) && all is_segment_char s) ≡ true) (ok_injective h9)
      (ensure-ok _ _ h8)

-- A segment that is returned is a valid part of a path.
pub sender_to_handle_segment-valid :
    (sender : Text) {segment : Text}
    → sender_to_handle_segment sender ≡ ok segment
    → all is_segment_char segment ≡ true
sender_to_handle_segment-valid sender {segment} h =
    and_right (not (is_empty segment)) (all is_segment_char segment) (segment_checked sender h)

pub sender_to_handle_segment-filled :
    (sender : Text) {segment : Text}
    → sender_to_handle_segment sender ≡ ok segment
    → is_empty segment ≡ false
sender_to_handle_segment-filled sender {segment} h = ground (arith, segment_checked sender h)

-- What a derived id is made of.
abbrev pub id_text : Text → Text → Text
id_text segment token = request_id_prefix ++ (segment ++ (b':' ∷ token))

derive_request_id-shape :
    (sender : Text) (handle : RequestHandle) {id : Text}
    → derive_request_id sender handle ≡ ok id
    → (segment : Text) × (sender_to_handle_segment sender ≡ ok segment)
      × (id ≡ id_text segment handle.token)
unfolding derive_request_id
derive_request_id-shape sender handle h =
    let (segment, h0, h1) = bind-eq-ok (sender_to_handle_segment sender) _ h in
    let (u, h2, h3) = bind-eq-ok (ensure (text_eq segment handle.sender_segment) _) _ h1 in
    let (v, h4, h5) = bind-eq-ok (validate_request_id _) _ h3 in
    (segment, h0, sym (ok_injective h5))

-- The part of an id that names its caller.
segment_in : Text → Option (Text × Text)
segment_in (r ∷ e ∷ q ∷ colon ∷ rest) = split_once b':' rest
segment_in _ = none

segment_in-id_text :
    (segment token : Text)
    → all is_segment_char segment ≡ true
    → segment_in (id_text segment token) ≡ some (segment, token)
unfolding segment_in
segment_in-id_text segment token h =
    split_once-append b':' segment token
      (all_mono is_segment_char (is_not b':') segment not_colon h)

-- If two calls derive the same id, they come from senders with the same segment, and their handles
-- end in the same token.
pub derive_request_id-separates :
    (a b : Text) (handle handle' : RequestHandle) {id : Text}
    → derive_request_id a handle ≡ ok id
    → derive_request_id b handle' ≡ ok id
    → (sender_to_handle_segment a ≡ sender_to_handle_segment b) × (handle.token ≡ handle'.token)
derive_request_id-separates a b handle handle' h k =
    let (s, s_of, s_id) = derive_request_id-shape a handle h in
    let (t, t_of, t_id) = derive_request_id-shape b handle' k in
    let same =
      sym (segment_in-id_text s handle.token (sender_to_handle_segment-valid a s_of))
      ∙ ap segment_in (sym s_id ∙ t_id)
      ∙ segment_in-id_text t handle'.token (sender_to_handle_segment-valid b t_of) in
    let pair = some_injective same in
    (
      s_of ∙ ap ok (ap (λ (p : Text × Text). p.0) pair) ∙ sym t_of,
      ap (λ (p : Text × Text). p.1) pair,
    )
