-- ===== src/Api/Query.antt =====
-- src/api/query.ts: the parameters of a request. `url.searchParams` is the list of its entries; the base64url
-- coding of node's Buffer is a parameter.
use onyx_ifem.Prelude.{
  ℕ, ◌+◌, ◌*◌, ◌-◌, Bool, true, false, not, ◌&&◌, ◌||◌, Option, none, some, String, List, [], ◌∷◌,
  ltb, leb, eqb, ◌==◌, if◌then◌else◌, includes, length,
}
use Prim.Native.String.{◌++◌ as ◌<>◌}
use onyx_ifem.Json.{Json, codes, utf16_length}
use onyx_ifem.Contracts.Errors.{Result, ok, onyx, invalid_argument, ◌>>=◌, ◌>>◌, throw_if, or_throw}
use onyx_ifem.Contracts.Checks.{uuid, is_digit}

abbrev pub Parameters : Type 0
Parameters = List (String × String)

-- `Buffer.from(text, "utf8").toString("base64url")`, and `Buffer.from(text, "base64url").toString("utf8")`.
pub record Base64Url : Type 0 where
  pub encode : String → String
  pub decode : String → String

pub record CollectionQuery : Type 0 where
  pub organization_id : String
  pub after_id : Option String
  pub limit : ℕ

pub record HistoryQuery : Type 0 where
  pub organization_id : String
  pub after_version : ℕ
  pub limit : ℕ

abbrev invalid_if : Bool → String → Result (Unit {0})
invalid_if c message = throw_if c (onyx invalid_argument message)

-- `uuid(value, name)` of a text.
abbrev pub check_uuid : String → String → Result (Unit {0})
check_uuid value name = uuid (some (Json.text value)) name

-- A parameter whose name is not allowed.
unfoldable pub has_unknown : List String → Parameters → Bool
has_unknown allowed [] = false
has_unknown allowed ((name, _) ∷ params) = not (includes allowed name) || has_unknown allowed params

-- `url.searchParams.getAll(name)`
unfoldable pub get_all : String → Parameters → List String
get_all name [] = []
get_all name ((other, value) ∷ params) =
    let rest = get_all name params in if other == name then value ∷ rest else rest

unfoldable pub at_most_once : List String → Parameters → Result (Unit {0})
unfolding get_all
at_most_once [] params = ok tt
at_most_once (name ∷ names) params = do
  invalid_if (ltb 1 (length (get_all name params))) (name <> " must appear at most once")
  at_most_once names params

unfoldable pub assert_only_parameters : Parameters → List String → Result (Unit {0})
unfolding has_unknown at_most_once
assert_only_parameters params allowed = do
  invalid_if (has_unknown allowed params) "query contains unknown parameters"
  at_most_once allowed params

-- `url.searchParams.get(name)`
unfoldable pub optional_parameter : String → Parameters → Option String
optional_parameter name [] = none
optional_parameter name ((other, value) ∷ params) =
    if other == name then some value else optional_parameter name params

unfoldable pub required_uuid : Parameters → String → Result String
unfolding optional_parameter uuid
required_uuid params name = do
  value ← or_throw (optional_parameter name params) (onyx invalid_argument (name <> " is required"))
  check_uuid value name
  ok value

unfoldable all_digits : List ℕ → Bool
all_digits [] = true
all_digits (c ∷ cs) = is_digit c && all_digits cs

-- `/^(0|[1-9]\d*)$/`
unfoldable pub is_canonical : List ℕ → Bool
unfolding all_digits
is_canonical [] = false
is_canonical (c ∷ []) = is_digit c
is_canonical (c ∷ cs) = (is_digit c && not (eqb c b'0')) && all_digits cs

-- The decimal number that a text of digits is, after the digits before it. `Number` rounds one beyond the safe
-- integers, which is out of every bound; here it is exact.
unfoldable pub number_from : ℕ → List ℕ → ℕ
number_from n [] = n
number_from n (c ∷ cs) = number_from (10 * n + (c - b'0')) cs

-- The message leaves out the two bounds, and that of unknown parameters leaves out their names.
unfoldable pub bounded_integer : Parameters → String → (fallback minimum maximum : ℕ) → Result ℕ
unfolding optional_parameter is_canonical number_from
bounded_integer params name fallback minimum maximum = elim (optional_parameter name params) [
  | none ↦ ok fallback
  | some raw ↦ do
    invalid_if (not (is_canonical (codes raw))) (name <> " must be a canonical integer")
    let value = number_from 0 (codes raw)
    invalid_if (ltb value minimum || ltb maximum value) (name <> " must be an integer in its range")
    ok value
]

abbrev pub max_safe_integer : ℕ
max_safe_integer = 9007199254740991

-- `[A-Za-z0-9_-]`
abbrev pub is_base64url : ℕ → Bool
is_base64url c =
    (is_digit c || (leb b'A' c && leb c b'Z'))
    || ((leb b'a' c && leb c b'z') || (eqb c b'_' || eqb c b'-'))

-- `/^[A-Za-z0-9_-]+$/`
unfoldable pub all_base64url : List ℕ → Bool
all_base64url [] = true
all_base64url (c ∷ cs) = is_base64url c && all_base64url cs

abbrev pub is_cursor : String → Bool
is_cursor s = not (s == "") && all_base64url (codes s)

module _ (base64url : Base64Url) where
  open base64url use {encode, decode}

  unfoldable pub encode_cursor : String → Result String
  unfolding uuid
  encode_cursor object_id = do check_uuid object_id "cursor object id"; ok (encode object_id)

  unfoldable pub decode_cursor : String → Result String
  unfolding uuid utf16_length all_base64url
  decode_cursor cursor = do
    invalid_if (ltb 128 (utf16_length cursor) || not (is_cursor cursor)) "cursor is invalid"
    let decoded = decode cursor
    invalid_if (not (encode decoded == cursor)) "cursor is invalid"
    check_uuid decoded "cursor"
    ok decoded

  unfoldable pub after_of : Option String → Result (Option String)
  unfolding decode_cursor
  after_of none = ok none
  after_of (some cursor) = do after ← decode_cursor cursor; ok (some after)

  unfoldable pub read_collection_query : Parameters → Result CollectionQuery
  unfolding assert_only_parameters required_uuid optional_parameter after_of bounded_integer
  read_collection_query params = do
    assert_only_parameters params ("organization_id" ∷ "cursor" ∷ "limit" ∷ [])
    organization_id ← required_uuid params "organization_id"
    after_id ← after_of (optional_parameter "cursor" params)
    limit ← bounded_integer params "limit" 100 1 1000
    ok (record { organization_id = organization_id; after_id = after_id; limit = limit })

unfoldable pub read_item_query : Parameters → String → Result String
unfolding assert_only_parameters uuid required_uuid
read_item_query params object_id = do
  assert_only_parameters params ("organization_id" ∷ [])
  check_uuid object_id "id"
  required_uuid params "organization_id"

unfoldable pub read_history_query : Parameters → String → Result HistoryQuery
unfolding assert_only_parameters uuid required_uuid bounded_integer
read_history_query params object_id = do
  assert_only_parameters params ("organization_id" ∷ "after_version" ∷ "limit" ∷ [])
  check_uuid object_id "id"
  organization_id ← required_uuid params "organization_id"
  after_version ← bounded_integer params "after_version" 0 0 max_safe_integer
  limit ← bounded_integer params "limit" 100 1 1000
  ok (record { organization_id = organization_id; after_version = after_version; limit = limit })
