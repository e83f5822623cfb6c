-- ===== src/Contracts/Checks.antt =====
-- src/contracts/validation.ts, lines 4 to 107: the checks of single values, over JSON values that may
-- be undefined (`none`). The regular expressions are lists of character classes.
use onyx_ifem.Prelude.{
  ℕ, zero, suc, Bool, true, false, not, ◌&&◌, ◌||◌, Option, none, some, String, List, [], ◌∷◌, ◌++◌,
  ltb, leb, eqb, if◌then◌else◌, includes, is_none,
}
use Prim.Native.String.{◌++◌ as ◌<>◌}
use onyx_ifem.Json.{Json, Fields, Host, done, field, keys, get, utf16_length, codes}
use onyx_ifem.Contracts.Errors.{Result, ok, err, onyx, invalid_argument, ◌>>=◌, ◌>>◌, throw_if}

-- A pattern is one class for each character, anchored at both ends.
unfoldable pub matches : List (ℕ → Bool) → List ℕ → Bool
matches [] [] = true
matches (p ∷ ps) (c ∷ cs) = p c && matches ps cs
matches _ _ = false

abbrev pub times : ℕ → (ℕ → Bool) → List (ℕ → Bool)
times zero p = []
times (suc n) p = p ∷ times n p

abbrev pub is_digit : ℕ → Bool
is_digit c = leb b'0' c && leb c b'9'

-- `[0-9a-f]`
abbrev pub is_hex : ℕ → Bool
is_hex c = is_digit c || (leb b'a' c && leb c b'f')

-- `[89ab]`
abbrev pub is_variant : ℕ → Bool
is_variant c = (leb b'8' c && leb c b'9') || (leb b'a' c && leb c b'b')

-- `UUID_V7`
abbrev pub uuid_v7_pattern : List (ℕ → Bool)
uuid_v7_pattern =
    times 8 is_hex
    ++ (eqb b'-' ∷ times 4 is_hex
        ++ (eqb b'-' ∷ eqb b'7' ∷ times 3 is_hex
            ++ (eqb b'-' ∷ is_variant ∷ times 3 is_hex ++ (eqb b'-' ∷ times 12 is_hex))))

-- `UTC_INSTANT`
abbrev pub utc_instant_pattern : List (ℕ → Bool)
utc_instant_pattern =
    times 4 is_digit
    ++ (eqb b'-' ∷ times 2 is_digit
        ++ (eqb b'-' ∷ times 2 is_digit
            ++ (eqb b'T' ∷ times 2 is_digit
                ++ (eqb b':' ∷ times 2 is_digit
                    ++ (eqb b':' ∷ times 2 is_digit
                        ++ (eqb b'.' ∷ times 6 is_digit ++ (eqb b'Z' ∷ [])))))))

-- `SHA_256`
abbrev pub sha_256_pattern : List (ℕ → Bool)
sha_256_pattern = times 64 is_hex

unfoldable pub test : List (ℕ → Bool) → String → Bool
unfolding matches
test pattern s = matches pattern (codes s)

abbrev pub fail {ℓ} : {A : Type ℓ} → String → Result A
fail message = err (onyx invalid_argument message)

abbrev pub fail_if : Bool → String → Result (Unit {0})
fail_if c message = throw_if c (onyx invalid_argument message)

unfoldable pub object : Option Json → String → Result Fields
object (some (Json.object fs)) name = ok fs
object _ name = fail (name <> " must be an object")

unfoldable pub has_unknown_keys : List String → List String → Bool
has_unknown_keys allowed [] = false
has_unknown_keys allowed (k ∷ ks) = not (includes allowed k) || has_unknown_keys allowed ks

unfoldable pub exact_keys : Fields → List String → String → Result (Unit {0})
unfolding has_unknown_keys
exact_keys value allowed name =
    fail_if (has_unknown_keys allowed (keys value)) (name <> " contains unknown fields")

unfoldable pub uuid : Option Json → String → Result (Unit {0})
unfolding test
uuid (some (Json.text s)) name =
    fail_if (not (test uuid_v7_pattern s)) (name <> " must be a canonical UUIDv7")
uuid _ name = fail (name <> " must be a canonical UUIDv7")

-- The bound that the message repeats is left out of it.
unfoldable pub text : Option Json → String → Option ℕ → Result (Unit {0})
unfolding utf16_length
text (some (Json.text s)) name none =
    fail_if (ltb (utf16_length s) 1) (name <> " must contain 1 or more characters")
text (some (Json.text s)) name (some limit) =
    fail_if (ltb (utf16_length s) 1 || ltb limit (utf16_length s))
      (name <> " must contain 1 to the allowed number of characters")
text _ name limit = fail (name <> " must contain 1 or more characters")

-- `if (value !== undefined) check(value)`
abbrev pub when_defined : Option Json → (Option Json → Result (Unit {0})) → Result (Unit {0})
when_defined none check = ok tt
when_defined (some v) check = check (some v)

unfoldable pub domain_object_ref : Option Json → String → Result Fields
unfolding object exact_keys uuid text
domain_object_ref value name = do
  reference ← object value name
  exact_keys reference ("aggregate_type" ∷ "object_id" ∷ []) name
  text (get "aggregate_type" reference) (name <> ".aggregate_type") none
  uuid (get "object_id" reference) (name <> ".object_id")
  ok reference

unfoldable pub non_negative_integer : Option Json → String → Result (Unit {0})
non_negative_integer (some (Json.natural n)) name = ok tt
non_negative_integer _ name = fail (name <> " must be a non-negative integer")

unfoldable pub instant : Host → Option Json → String → Result (Unit {0})
unfolding test
instant host (some (Json.text s)) name =
    fail_if (not (test utc_instant_pattern s) || is_none (host.date_parse s))
      (name <> " must be a canonical UTC instant")
instant host _ name = fail (name <> " must be a canonical UTC instant")

-- `set.has(value)` for a set of texts.
abbrev pub has_text : List String → Option Json → Bool
has_text allowed (some (Json.text s)) = includes allowed s
has_text allowed _ = false

unfoldable pub actor_context : Option Json → Result (Unit {0})
unfolding object exact_keys uuid
actor_context value = do
  actor ← object value "actor_context"
  exact_keys actor ("principal_id" ∷ "actor_type" ∷ "device_id" ∷ "membership_id" ∷ [])
      "actor_context"
  uuid (get "principal_id" actor) "actor_context.principal_id"
  fail_if (not (has_text ("USER" ∷ "SERVICE" ∷ "DEVICE" ∷ []) (get "actor_type" actor)))
      "actor_context.actor_type is invalid"
  when_defined (get "device_id" actor) (λ v. uuid v "actor_context.device_id")
  when_defined (get "membership_id" actor) (λ v. uuid v "actor_context.membership_id")

unfoldable pub counters : Fields → Result (Unit {0})
counters done = ok tt
counters (field replica (Json.natural n) fs) =
    let rest = counters fs in
    if ltb n 1 then fail ("vector_clock." <> replica <> " must be a positive integer") else rest
counters (field replica _ fs) = fail ("vector_clock." <> replica <> " must be a positive integer")

unfoldable pub vector_clock : Option Json → Result (Unit {0})
unfolding object counters
vector_clock value = do counters (← object value "vector_clock")
