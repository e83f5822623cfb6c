-- ===== src/Api/Cursor.antt =====
-- The cursors of the pages stand for the ids of objects, one for each.
use onyx_ifem.Prelude.{
  ◌≡◌, refl, sym, ap, ◌∙◌, subst, ◌↔◌, Bool, true, false, not, ◌||◌, String, ltb, ◌==◌, eq_of_==,
  ==_refl, arith,
}
use onyx_ifem.Json.{utf16_length}
use onyx_ifem.Contracts.Errors.{ok, >>=-eq-ok, throw_if-eq-ok, ok-injective}
use onyx_ifem.Contracts.Checks.{uuid}
use onyx_ifem.Api.Query.{Base64Url, encode_cursor, decode_cursor, check_uuid, is_cursor}

not-eq-false : (b : Bool) → not b ≡ false → b ≡ true
not-eq-false true h = refl
not-eq-false false h = cc

-- The message of a failed check is no part of a check that succeeds.
check_uuid-name :
    (value name other : String) → check_uuid value name ≡ ok tt → check_uuid value other ≡ ok tt
unfolding uuid
check_uuid-name value name other h = ground (arith, h)

module _ (base64url : Base64Url) (id : String)
    (decodes : base64url.decode (base64url.encode id) ≡ id)
    (in_alphabet : is_cursor (base64url.encode id) ≡ true)
    (is_short : ltb 128 (utf16_length (base64url.encode id)) ≡ false) where
  open base64url use {encode, decode}

  read_back :
      (cursor : String)
      → encode_cursor base64url id ≡ ok cursor
      → decode_cursor base64url cursor ≡ ok id
  unfolding encode_cursor decode_cursor
  read_back cursor h =
      let (_, valid, h1) = >>=-eq-ok (check_uuid id "cursor object id") _ h in
      subst (λ c. decode_cursor base64url c ≡ ok id) (ok-injective h1)
        (rw
          (
            decode_cursor,
            is_short,
            in_alphabet,
            decodes,
            ==_refl (encode id),
            check_uuid-name id "cursor object id" "cursor" valid,
          )
          refl)

written_back :
    (base64url : Base64Url) (id cursor : String)
    → decode_cursor base64url cursor ≡ ok id
    → encode_cursor base64url id ≡ ok cursor
unfolding decode_cursor encode_cursor
written_back base64url id cursor h =
    let (_, h1) = throw_if-eq-ok (ltb 128 (utf16_length cursor) || not (is_cursor cursor)) _ _ h in
    let (same, h2) =
      throw_if-eq-ok (not (base64url.encode (base64url.decode cursor) == cursor)) _ _ h1 in
    let (_, valid, h3) = >>=-eq-ok (check_uuid (base64url.decode cursor) "cursor") _ h2 in
    let is_id : base64url.decode cursor ≡ id = ok-injective h3 in
    let is_cursor_ : base64url.encode (base64url.decode cursor) ≡ cursor =
      eq_of_== (base64url.encode (base64url.decode cursor)) cursor (not-eq-false _ same) in
    rw
      (
        encode_cursor,
        check_uuid-name id "cursor" "cursor object id"
            (ap (λ x. check_uuid x "cursor") (sym is_id) ∙ valid),
      )
      (ap ok (ap base64url.encode (sym is_id) ∙ is_cursor_))

-- A cursor is what `encodeCursor` makes of an object id exactly if `decodeCursor` reads that id from it: each id
-- has one cursor, every cursor that is accepted is the one of its id, and no other text is accepted for it;
-- given that the id's base64url is a text of that alphabet of at most 128 characters, and decodes to the id.
pub decode_cursor-encode_cursor :
    (base64url : Base64Url) (id : String)
    → base64url.decode (base64url.encode id) ≡ id
    → is_cursor (base64url.encode id) ≡ true
    → ltb 128 (utf16_length (base64url.encode id)) ≡ false
    → (cursor : String)
    → (encode_cursor base64url id ≡ ok cursor) ↔ (decode_cursor base64url cursor ≡ ok id)
decode_cursor-encode_cursor base64url id decodes in_alphabet is_short cursor =
    (read_back base64url id decodes in_alphabet is_short cursor, written_back base64url id cursor)
