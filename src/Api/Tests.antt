-- ===== src/Api/Tests.antt =====
-- A request for a page, the cursor of its last object, and the theorems at them, with a coding of texts that is
-- the identity in place of base64url.
use onyx_ifem.Prelude.{◌≡◌, refl, true, false, some, String, [], ◌∷◌, ltb}
use onyx_ifem.Json.{utf16_length}
use onyx_ifem.Contracts.Errors.{ok, err, onyx, invalid_argument}
use onyx_ifem.Api.Query.{
  Base64Url, Parameters, encode_cursor, decode_cursor, is_cursor, read_collection_query,
  all_base64url, is_canonical,
}
use onyx_ifem.Api.Cursor.{decode_cursor-encode_cursor}
use onyx_ifem.Api.Bounds.{IsCollectionQuery, read_query-bounds}

abbrev plain : Base64Url
plain = record { encode = λ s. s; decode = λ s. s }

abbrev mission_id : String
mission_id = "018f1c2a-7b3d-7abc-8def-000000000001"

abbrev organization_id : String
organization_id = "018f1c2a-7b3d-7abc-8def-0000000000aa"

abbrev params : Parameters
params = ("organization_id", organization_id) ∷ ("limit", "20") ∷ ("cursor", mission_id) ∷ []

decode_short :
    decode_cursor plain "abc" ≡ err (onyx invalid_argument "cursor must be a canonical UUIDv7")
unfolding decode_cursor
decode_short = refl

leading_zero : is_canonical (b'0' ∷ b'7' ∷ []) ≡ false
unfolding is_canonical
leading_zero = refl

mission_in_alphabet : is_cursor mission_id ≡ true
unfolding all_base64url
mission_in_alphabet = refl

mission_is_short : ltb 128 (utf16_length mission_id) ≡ false
unfolding utf16_length
mission_is_short = refl

encode_mission_id : encode_cursor plain mission_id ≡ ok mission_id
unfolding encode_cursor
encode_mission_id = refl

read_page :
    read_collection_query plain params
    ≡ ok (record { organization_id = organization_id; after_id = some mission_id; limit = 20 })
unfolding read_collection_query
read_page = refl

decode_cursor-encode_cursor_example : decode_cursor plain mission_id ≡ ok mission_id
decode_cursor-encode_cursor_example =
    (decode_cursor-encode_cursor plain mission_id refl mission_in_alphabet mission_is_short
        mission_id).0
      encode_mission_id

read_query-bounds_example :
    IsCollectionQuery
      (record { organization_id = organization_id; after_id = some mission_id; limit = 20 })
read_query-bounds_example = (read_query-bounds plain params).0 _ read_page
