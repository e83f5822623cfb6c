-- ===== src/HttpBody.antt =====
-- src/infrastructure/http/json-body.ts: the JSON body of a request. The headers and the bytes are lists of numbers
-- (a header is Latin-1), the chunks that the stream gives are an input, and the decoder of UTF-8 and `JSON.parse`
-- are parameters.
pub mod Limit
mod Tests
use onyx_ifem.Prelude.{
  ℕ, suc, ◌+◌, Bool, true, false, not, ◌&&◌, ◌||◌, Option, none, some, String, List, [], ◌∷◌, ◌++◌,
  ltb, leb, eqb, if◌then◌else◌, length, map,
}
use onyx_ifem.Json.{Json, codes}
use onyx_ifem.Contracts.Errors.{
  Result, ok, err, onyx, invalid_argument, ◌>>=◌, ◌>>◌, throw_if, or_throw,
}

-- `new TextDecoder("utf-8", {fatal: true})` and `JSON.parse`, without a result where they throw.
pub record Decoder : Type 0 where
  pub decode_utf8 : List ℕ → Option String
  pub parse : String → Option Json

-- A header that is sent once, or more often.
pub data HeaderValue : Type 0 where
  single : List ℕ → HeaderValue
  repeated : List (List ℕ) → HeaderValue

pub record Headers : Type 0 where
  pub content_encoding : Option HeaderValue
  pub content_type : Option HeaderValue

abbrev pub max_json_bytes : ℕ
max_json_bytes = 1048576

abbrev refuse_if : Bool → String → Result (Unit {0})
refuse_if c message = throw_if c (onyx invalid_argument message)

unfoldable pub equal : List ℕ → List ℕ → Bool
equal [] [] = true
equal (c ∷ cs) (d ∷ ds) = eqb c d && equal cs ds
equal _ _ = false

-- `cs.toLowerCase() === text`, for an ASCII text in lower case.
abbrev lower : ℕ → ℕ
lower c = if leb b'A' c && leb c b'Z' then c + 32 else c

unfoldable pub says : List ℕ → String → Bool
unfolding equal
says cs text = equal (map lower cs) (codes text)

abbrev is_space : ℕ → Bool
is_space c = (leb 9 c && leb c 13) || (eqb c 32 || eqb c 160)

unfoldable pub trim_start : List ℕ → List ℕ
trim_start [] = []
trim_start (c ∷ cs) = let rest = trim_start cs in if is_space c then rest else c ∷ cs

-- A character before a text without spaces at its end.
abbrev before_trimmed : ℕ → List ℕ → List ℕ
before_trimmed c [] = if is_space c then [] else c ∷ []
before_trimmed c (d ∷ ds) = c ∷ d ∷ ds

unfoldable pub trim_end : List ℕ → List ℕ
trim_end [] = []
trim_end (c ∷ cs) = before_trimmed c (trim_end cs)

abbrev pub trim : List ℕ → List ℕ
trim cs = trim_end (trim_start cs)

-- A character before the parts of the rest.
abbrev before_parts : ℕ → List (List ℕ) → List (List ℕ)
before_parts c [] = (c ∷ []) ∷ []
before_parts c (part ∷ parts) = (c ∷ part) ∷ parts

-- `split(";")`
unfoldable pub split : List ℕ → List (List ℕ)
split [] = [] ∷ []
split (c ∷ cs) = let rest = split cs in if eqb c b';' then [] ∷ rest else before_parts c rest

abbrev before_name : ℕ → Option (List ℕ × List ℕ) → Option (List ℕ × List ℕ)
before_name c none = none
before_name c (some (name, value)) = some (c ∷ name, value)

-- What stands before and after the first `=`.
unfoldable pub at_equals : List ℕ → Option (List ℕ × List ℕ)
at_equals [] = none
at_equals (c ∷ cs) =
    let rest = at_equals cs in if eqb c b'=' then some ([], cs) else before_name c rest

-- All but the last character, if that is a quotation mark.
unfoldable pub drop_quote : List ℕ → Option (List ℕ)
drop_quote [] = none
drop_quote (c ∷ []) = if eqb c 34 then some [] else none
drop_quote (c ∷ d ∷ cs) = elim (drop_quote (d ∷ cs)) [ none ↦ none | some ds ↦ some (c ∷ ds) ]

-- A value between quotation marks is what stands between them.
unfoldable pub unquote : List ℕ → List ℕ
unfolding drop_quote
unquote [] = []
unquote (c ∷ cs) =
    if eqb c 34 then elim (drop_quote cs) [ none ↦ c ∷ cs | some ds ↦ ds ] else c ∷ cs

-- `singleHeader`
abbrev pub single_header : Option HeaderValue → String → Result (Option (List ℕ))
single_header none message = ok none
single_header (some (single cs)) message = ok (some cs)
single_header (some (repeated _)) message = err (onyx invalid_argument message)

-- A name before `=` that is not empty, and the value.
abbrev pub named : Option (List ℕ × List ℕ) → Option (List ℕ × List ℕ)
named none = none
named (some ([], value)) = none
named (some (c ∷ name, value)) = some (c ∷ name, value)

-- The loop over the parameters of the content type.
unfoldable pub check_parameters : (charset_seen : Bool) → List (List ℕ) → Result (Unit {0})
unfolding at_equals says unquote trim_start trim_end
check_parameters charset_seen [] = ok tt
check_parameters charset_seen (parameter ∷ parameters) = do
  (name, value) ←
      or_throw (named (at_equals parameter))
        (onyx invalid_argument "content-type parameters are invalid")
  refuse_if
      (not (says (trim name) "charset")
        || charset_seen
        || not (says (unquote (trim value)) "utf-8"))
      "content-type permits only one UTF-8 charset parameter"
  check_parameters true parameters

abbrev is_encoded : Option (List ℕ) → Bool
is_encoded none = false
is_encoded (some encoding) = not (says (trim encoding) "identity")

-- `if (!contentType)`
abbrev present : Option (List ℕ) → Option (List ℕ)
present (some (c ∷ cs)) = some (c ∷ cs)
present _ = none

unfoldable pub check_media_type : List (List ℕ) → Result (Unit {0})
unfolding says check_parameters
check_media_type [] = err (onyx invalid_argument "content-type must be application/json")
check_media_type (media_type ∷ parameters) = do
  refuse_if (not (says media_type "application/json")) "content-type must be application/json"
  check_parameters false parameters

unfoldable pub validate_json_request_headers : Headers → Result (Unit {0})
unfolding says trim_start trim_end split check_media_type
validate_json_request_headers headers = do
  encoding ← single_header headers.content_encoding "content-encoding must not be repeated"
  refuse_if (is_encoded encoding) "content-encoding must be identity"
  sent ← single_header headers.content_type "content-type must not be repeated"
  content_type ←
      or_throw (present sent) (onyx invalid_argument "content-type application/json is required")
  check_media_type (map trim (split content_type))

-- `Buffer.concat`
unfoldable pub concat : List (List ℕ) → List ℕ
concat [] = []
concat (chunk ∷ chunks) = chunk ++ concat chunks

-- The loop over the stream, with the count of the bytes and the chunks that are kept.
unfoldable pub read_chunks : List (List ℕ) → ℕ → List (List ℕ) → Result (List ℕ)
unfolding concat
read_chunks [] count kept = ok (concat kept)
read_chunks (chunk ∷ chunks) count kept = do
  refuse_if (ltb max_json_bytes (count + length chunk)) "command envelope exceeds 1 MiB"
  read_chunks chunks (count + length chunk) (kept ++ chunk ∷ [])

-- What the bytes of a body stand for.
unfoldable pub value_of : Decoder → List ℕ → Result Json
value_of decoder bytes = do
  text ←
      or_throw (decoder.decode_utf8 bytes)
        (onyx invalid_argument "request body must be valid UTF-8")
  or_throw (decoder.parse text) (onyx invalid_argument "request body must be valid JSON")

unfoldable pub read_json_body : Decoder → Headers → List (List ℕ) → Result Json
unfolding validate_json_request_headers read_chunks value_of
read_json_body decoder headers chunks = do
  validate_json_request_headers headers
  bytes ← read_chunks chunks 0 []
  value_of decoder bytes
