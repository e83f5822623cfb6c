-- ===== src/HttpBody/Tests.antt =====
-- A body in two chunks, with a quoted charset; headers that are refused; and the theorem at that body.
use onyx_ifem.Prelude.{◌≡◌, refl, none, some, [], ◌∷◌, List, ℕ}
use onyx_ifem.Json.{Json, codes}
use onyx_ifem.Contracts.Errors.{ok, err, onyx, invalid_argument, ◌>>=◌, ◌>>◌}
use onyx_ifem.HttpBody.{
  Decoder, Headers, single, repeated, says, equal, trim_start, trim_end, split, at_equals, unquote,
  drop_quote, check_parameters, check_media_type, validate_json_request_headers, concat,
  read_chunks, value_of, read_json_body,
}
use onyx_ifem.HttpBody.Limit.{limited, read_json_body-limited}

abbrev decoder : Decoder
decoder = record { decode_utf8 = λ bytes. some "null"; parse = λ s. some Json.null }

abbrev json_headers : Headers
json_headers = record {
  content_encoding = none;
  content_type = some (single (codes "Application/JSON; charset=\"UTF-8\""));
}

abbrev chunks : List (List ℕ)
chunks = (110 ∷ 117 ∷ []) ∷ (108 ∷ 108 ∷ []) ∷ []

calls : Unit {0}
unfolding says equal trim_start trim_end split at_equals unquote drop_quote check_parameters
    check_media_type validate_json_request_headers concat read_chunks value_of read_json_body
calls = tt

read : read_json_body decoder json_headers chunks ≡ ok Json.null
unfolding calls
read = refl

two_charsets :
    validate_json_request_headers (record json_headers {
      content_type = some (single (codes "application/json;charset=utf-8;charset=utf-8"));
    })
    ≡ err (onyx invalid_argument "content-type permits only one UTF-8 charset parameter")
unfolding calls
two_charsets = refl

compressed :
    validate_json_request_headers
      (record json_headers { content_encoding = some (single (codes "gzip")) })
    ≡ err (onyx invalid_argument "content-encoding must be identity")
unfolding calls
compressed = refl

sent_twice :
    validate_json_request_headers (record json_headers { content_type = some (repeated []) })
    ≡ err (onyx invalid_argument "content-type must not be repeated")
unfolding calls
sent_twice = refl

read_json_body-limited_example :
    read_json_body decoder json_headers chunks
    ≡ (validate_json_request_headers json_headers >> (limited (concat chunks) >>= value_of decoder))
read_json_body-limited_example = read_json_body-limited decoder json_headers chunks
