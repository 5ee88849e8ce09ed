-- ===== src/Ctl/Smoke/Identity.antt =====
-- The request ids that garwarp/src/portal.rs derives from the handles of the smoke test.
use garwarp.Base.{
  ℕ, ◌+◌, ◌≤◌, true, false, some, [], ◌∷◌, ◌++◌, Result, ok, err, ◌≡◌, refl, sym, ◌∙◌, ap, arith,
  Text, codes, text_eq_refl, trim-dark, split, split-append, split-lack, is_not, is_dark,
  is_whitespace, is_empty, is_ascii_alphanumeric, all, all-append, all_mono, len, utf8_len,
  len-append, leb, some_injective,
}
use garwarp.Validate.{is_id_char, is_valid_request_id, validate_request_id}
use garwarp.Validate.Dark.{is_id_char-dark}
use garwarp.Portal.{
  request_handle_prefix, request_id_prefix, RequestHandle, is_segment_char, is_valid_path_segment,
  handle_of_parts, parse_request_handle, derive_request_id, derive_request_id_from_handle,
}
use garwarp.Portal
use garwarp.Portal.Separation.{
  sender_to_handle_segment-valid, sender_to_handle_segment-filled, id_text,
}
use garwarp.Ctl
use garwarp.Ctl.Segments.{answer, sender_to_handle_segment-agrees}
use garwarp.Ctl.Smoke.{backend_object_path}

-- The path that `request_handle` builds.
abbrev pub path_of : Text → Text → Text
path_of segment token = backend_object_path ++ (codes "/request/" ++ (segment ++ (b'/' ∷ token)))

answer-ok : {E : Type 0} (r : Result E Text) (s : Text) → answer r ≡ some s → r ≡ ok s
answer-ok (ok t) s h = ap ok (some_injective h)
answer-ok (err e) s h = cc

-- The daemon derives the client's segment.
pub daemon_segment :
    (sender segment : Text)
    → Ctl.sender_to_handle_segment sender ≡ ok segment
    → Portal.sender_to_handle_segment sender ≡ ok segment
daemon_segment sender segment h =
    answer-ok (Portal.sender_to_handle_segment sender) segment
      (sym (sender_to_handle_segment-agrees sender) ∙ ap answer h)

segment_char-id : (c : ℕ) → is_segment_char c ≡ true → is_id_char c ≡ true
unfolding is_segment_char is_id_char
segment_char-id c h = ground arith

segment_char-slash : (c : ℕ) → is_segment_char c ≡ true → is_not b'/' c ≡ true
unfolding is_segment_char is_ascii_alphanumeric
segment_char-slash c h = ground arith

-- A part of a path, not empty.
pub record IsSegment (s : Text) : Type 0 where
  pub valid : all is_segment_char s ≡ true
  pub filled : is_empty s ≡ false

segment-dark : (s : Text) → IsSegment s → all is_dark s ≡ true
segment-dark s h =
    all_mono is_id_char is_dark s is_id_char-dark
      (all_mono is_segment_char is_id_char s segment_char-id h.valid)

module _ (sender segment token : Text) (named : Ctl.sender_to_handle_segment sender ≡ ok segment)
    (part : IsSegment token) where
  sender_part : IsSegment segment
  sender_part = record {
    valid = sender_to_handle_segment-valid sender (daemon_segment sender segment named);
    filled = sender_to_handle_segment-filled sender (daemon_segment sender segment named);
  }

  path_of-dark : all is_dark (path_of segment token) ≡ true
  path_of-dark =
      all-append is_dark backend_object_path (codes "/request/" ++ (segment ++ (b'/' ∷ token)))
        (unfold is_whitespace in refl)
        (all-append is_dark (codes "/request/") (segment ++ (b'/' ∷ token))
          (unfold is_whitespace in refl)
          (all-append is_dark segment (b'/' ∷ token) (segment-dark segment sender_part)
            (unfold is_whitespace in segment-dark token part)))

  split-path : split b'/' (segment ++ (b'/' ∷ token)) ≡ segment ∷ token ∷ []
  split-path =
      split-append b'/' segment token
        (all_mono is_segment_char (is_not b'/') segment segment_char-slash sender_part.valid)
      ∙ ap (◌∷◌ segment) (
          split-lack b'/' token
            (all_mono is_segment_char (is_not b'/') token segment_char-slash part.valid))

  parse_request_handle-path :
      parse_request_handle (path_of segment token)
      ≡ ok (record { sender_segment = segment; token = token })
  unfolding parse_request_handle handle_of_parts is_valid_path_segment
  parse_request_handle-path =
      rw
        (
          trim-dark (path_of segment token) path_of-dark,
          text_eq_refl (path_of segment token),
          split-path,
          sender_part.filled,
          part.filled,
          sender_part.valid,
          part.valid,
        )
        refl

  module _ (short : len segment + len token ≤ 123) where
    pub id_text-valid : validate_request_id (id_text segment token) ≡ ok tt
    unfolding validate_request_id is_valid_request_id is_ascii_alphanumeric
    id_text-valid = rw (fits, chars) refl
      where
        fits : leb (len (id_text segment token)) 128 ≡ true
        fits = ground (
          arith,
          len-append request_id_prefix (segment ++ (b':' ∷ token)),
          len-append segment (b':' ∷ token),
          ends,
          heads,
        )
          where
            heads : len request_id_prefix ≡ 4
            heads = unfold len utf8_len in refl

            ends : len (b':' ∷ token) ≡ 1 + len token
            ends = unfold len utf8_len in refl

        chars : all is_id_char (id_text segment token) ≡ true
        chars =
            all-append is_id_char request_id_prefix (segment ++ (b':' ∷ token))
              (unfold is_id_char is_ascii_alphanumeric in refl)
              (all-append is_id_char segment (b':' ∷ token)
                (all_mono is_segment_char is_id_char segment segment_char-id sender_part.valid)
                (unfold is_id_char in
                  all_mono is_segment_char is_id_char token segment_char-id part.valid))

    -- The daemon derives the id of the request from the path of the client.
    pub derive_request_id_from_handle-path :
        derive_request_id_from_handle sender (path_of segment token) ≡ ok (id_text segment token)
    unfolding derive_request_id_from_handle derive_request_id
    derive_request_id_from_handle-path =
        rw
          (
            parse_request_handle-path,
            daemon_segment sender segment named,
            text_eq_refl segment,
            id_text-valid,
          )
          refl
