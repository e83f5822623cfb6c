-- ===== src/Services/Envelopes.antt =====
-- src/contracts/envelopes.ts: commands and events, and the reading of their fields.
use onyx_ifem.Prelude.{ℕ, suc, Bool, false, not, Option, none, some, String, List, [], leb, eqb}
use onyx_ifem.Json.{Json, Fields, done, get, items, with_key}
use onyx_ifem.Contracts.Validation.{texts}

-- A validated command; `value` is the input itself.
pub record CommandEnvelope : Type 0 where
  pub value : Json
  pub fields : Fields
  pub payload : Fields

-- An event, with the two of its fields that the repository reads.
pub record EventEnvelope : Type 0 where
  pub event_id : String
  pub aggregate_version : ℕ
  pub value : Json

-- What one call takes from the clock and the random bytes: the time at its check of the authority, counted
-- as `Host.date_parse` counts, and `utcInstant` and `uuidV7` at its publication.
pub record Moment : Type 0 where
  pub authorized_at : ℕ
  pub occurred_at : String
  pub event_id : String

-- Reading a field whose presence and type the validation has checked.
abbrev pub text_of : Option Json → String
text_of (some (Json.text s)) = s
text_of _ = ""

abbrev pub natural_of : Option Json → ℕ
natural_of (some (Json.natural n)) = n
natural_of _ = 0

abbrev pub fields_of : Option Json → Fields
fields_of (some (Json.object fs)) = fs
fields_of _ = done

abbrev pub texts_of : Option Json → List String
texts_of (some (Json.array vs)) = texts (items vs)
texts_of _ = []

abbrev pub json_of : Option Json → Json
json_of (some v) = v
json_of none = Json.null

-- An optional field.
abbrev pub optional_text : Option Json → Option String
optional_text (some (Json.text s)) = some s
optional_text _ = none

abbrev pub optional_natural : Option Json → Option ℕ
optional_natural (some (Json.natural n)) = some n
optional_natural _ = none

-- `command.payload[name]`
abbrev pub at : String → CommandEnvelope → String
at name c = text_of (get name c.payload)

abbrev pub authority : CommandEnvelope → Fields
authority c = fields_of (get "authority_proof" c.fields)

abbrev pub operation_id : CommandEnvelope → String
operation_id c = text_of (get "operation_id" c.fields)

abbrev pub organization_id : CommandEnvelope → String
organization_id c = text_of (get "organization_id" c.fields)

abbrev pub is_expired : Option ℕ → ℕ → Bool
is_expired none now = false
is_expired (some expires) now = leb expires now

-- `expected !== undefined && expected !== actual`
abbrev pub differs : Option ℕ → ℕ → Bool
differs none actual = false
differs (some expected) actual = not (eqb expected actual)

-- `#advanceClock`
abbrev pub advance_clock : String → Fields → Fields
advance_clock replica clock =
    with_key replica (Json.natural (suc (natural_of (get replica clock)))) clock
