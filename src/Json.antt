-- ===== src/Json.antt =====
-- JavaScript values as JSON writes them, with the property access that the code uses, and
-- src/shared/canonical-json.ts. A number is a natural, a negative integer -(n + 1), or a number that is
-- no integer, by its text. An object lists its own enumerable keys, each once.
use onyx_ifem.Prelude.{
  ℕ, ◌+◌, Bool, Option, none, some, String, List, [], ◌∷◌, ltb, ◌==◌, if◌then◌else◌,
}
use Prim.Native.Char.{code}

mutual
  pub data Json : Type 0 where
    null : Json
    boolean : Bool → Json
    natural : ℕ → Json
    negative : ℕ → Json
    fraction : String → Json
    text : String → Json
    array : Items → Json
    object : Fields → Json

  pub data Items : Type 0 where
    nil : Items
    item : Json → Items → Items

  pub data Fields : Type 0 where
    done : Fields
    field : String → Json → Fields → Fields

abbrev pub items : Items → List Json
items nil = []
items (item v vs) = v ∷ items vs

-- `Object.keys`
abbrev pub keys : Fields → List String
keys done = []
keys (field k v fs) = k ∷ keys fs

-- `Object.entries`
abbrev pub entries : Fields → List (String × Json)
entries done = []
entries (field k v fs) = (k, v) ∷ entries fs

-- `value[key]`: `none` is `undefined`.
abbrev pub get : String → Fields → Option Json
get k done = none
get k (field j v fs) = if j == k then some v else get k fs

-- `const {key: _, ...rest} = value`
abbrev pub without : String → Fields → Fields
without k done = done
without k (field j v fs) = if j == k then fs else field j v (without k fs)

-- `{...value, [key]: v}`
abbrev pub with_key : String → Json → Fields → Fields
with_key k v done = field k v done
with_key k v (field j w fs) = if j == k then field j v fs else field j w (with_key k v fs)

-- `value.length` of a text: its UTF-16 code units.
unfoldable pub utf16_length : String → ℕ
utf16_length String.[] = 0
utf16_length (String.◌∷◌ c s) = (if ltb (code c) 65536 then 1 else 2) + utf16_length s

-- The code points of a text.
abbrev pub codes : String → List ℕ
codes String.[] = []
codes (String.◌∷◌ c s) = code c ∷ codes s

-- What the code takes from the JavaScript runtime and from node:crypto: `JSON.stringify`, the
-- comparison `localeCompare(…) <= 0`, `createHash("sha256")` in hex, and `Date.parse` in milliseconds
-- from the beginning of the year 0000 (`none` is NaN).
pub record Host : Type 0 where
  pub stringify : Json → String
  pub locale_le : String → String → Bool
  pub digest : String → String
  pub date_parse : String → Option ℕ

module _ (host : Host) where
  open host use {stringify, locale_le, digest}

  unfoldable pub insert_sorted : String → Json → Fields → Fields
  insert_sorted k v done = field k v done
  insert_sorted k v (field j w fs) =
      if locale_le k j then field k v (field j w fs) else field j w (insert_sorted k v fs)

  unfoldable mutual
    unfolding insert_sorted

    pub normalize : Json → Json
    normalize (array vs) = array (normalize_items vs)
    normalize (object fs) = object (normalize_fields fs)
    normalize null = null
    normalize (boolean b) = boolean b
    normalize (natural n) = natural n
    normalize (negative n) = negative n
    normalize (fraction s) = fraction s
    normalize (text s) = text s

    pub normalize_items : Items → Items
    normalize_items nil = nil
    normalize_items (item v vs) = item (normalize v) (normalize_items vs)

    pub normalize_fields : Fields → Fields
    normalize_fields done = done
    normalize_fields (field k v fs) = insert_sorted k (normalize v) (normalize_fields fs)

  unfoldable pub canonical_json : Json → String
  canonical_json v = stringify (normalize v)

  unfoldable pub sha256 : Json → String
  unfolding canonical_json
  sha256 v = digest (canonical_json v)
