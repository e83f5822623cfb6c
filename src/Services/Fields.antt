-- ===== src/Services/Fields.antt =====
-- The optional fields of a stored entity: an absent one has no key.
use onyx_ifem.Prelude.{
  ◌≡◌, refl, ap, false, Option, none, some, String, List, [], ◌∷◌, ◌==◌, ==_refl,
}
use onyx_ifem.Json.{Json, Items, nil, item, items, Fields, field, get}
use onyx_ifem.Services.Envelopes.{optional_text}
use onyx_ifem.Contracts.Validation.{texts}

abbrev pub with_optional : String → Option Json → Fields → Fields
with_optional k none fs = fs
with_optional k (some v) fs = field k v fs

abbrev pub as_text : Option String → Option Json
as_text none = none
as_text (some s) = some (Json.text s)

pub optional_text-as_text : (o : Option String) → optional_text (as_text o) ≡ o
optional_text-as_text none = refl
optional_text-as_text (some s) = refl

pub get_other :
    (k j : String) (o : Option Json) (fs : Fields)
    → (j == k) ≡ false
    → get k (with_optional j o fs) ≡ get k fs
get_other k j none fs h = refl
get_other k j (some v) fs h = rw h refl

pub get_own :
    (k : String) (o : Option Json) (fs : Fields)
    → get k fs ≡ none
    → get k (with_optional k o fs) ≡ o
get_own k none fs h = h
get_own k (some v) fs h = rw (==_refl k) refl

-- An array of texts.
abbrev pub text_items : List String → Items
text_items [] = nil
text_items (s ∷ ss) = item (Json.text s) (text_items ss)

pub texts-text_items : (ss : List String) → texts (items (text_items ss)) ≡ ss
texts-text_items [] = refl
texts-text_items (s ∷ ss) = ap (λ ts. s ∷ ts) (texts-text_items ss)
