-- ===== src/Services/Emitted.antt =====
-- The events that a service publishes, as the store reads them back.
use onyx_ifem.Prelude.{
  ◌≡◌, refl, sym, ap, ◌∙◌, Bool, true, false, not, ◌||◌, Option, none, some, String, [], ◌∷◌,
  includes, eq_of_==, ==_refl, arith, inl, inr,
}
use onyx_ifem.Json.{Json, Fields, Host, get}
use onyx_ifem.Contracts.Errors.{ok, >>=-eq-ok, throw_if-eq-ok, Result-cases}
use onyx_ifem.Contracts.Checks.{object, exact_keys, uuid}
use onyx_ifem.Contracts.Validation.{
  is_the_text, is_the_number, event_keys, validate_event_envelope, assert_emitted_event, each_field,
}
use onyx_ifem.Sqlite.StoredEvent.{
  Profile, property, StoredEventExpectation, lookup_profile, executable_event_profiles,
  check_stored, stored_event,
}
use onyx_ifem.Services.Envelopes.{
  CommandEnvelope, EventEnvelope, Moment, text_of, natural_of, fields_of, json_of, operation_id,
}
use onyx_ifem.Services.Store.{Repository}
use onyx_ifem.Services.Calls.{Aggregate, Head, event_of}

-- An event as it is read from JSON.
abbrev pub event_from : Json → EventEnvelope
event_from v = record {
  event_id = text_of (get "event_id" (fields_of (some v)));
  aggregate_version = natural_of (get "aggregate_version" (fields_of (some v)));
  value = v;
}

-- An event of an operation that meets the contract of its type, one of the context's.
pub record IsEmitted (host : Host) (known : Profile) (event : EventEnvelope) (o : String)
    : Type 0 where
  pub event_type : String
  pub is_known : includes known.event_types event_type ≡ true
  pub is_valid : assert_emitted_event host event.value event_type known.aggregate_type ≡ ok tt
  pub of_operation : property "operation_id" (some event.value) ≡ some (Json.text o)
  pub is_read : event_from event.value ≡ event

pub is_the_text-eq :
    (v : Option Json) (t : String) → is_the_text v t ≡ true → v ≡ some (Json.text t)
is_the_text-eq (some (Json.text s)) t h = ap (λ x. some (Json.text x)) (eq_of_== s t h)
is_the_text-eq v t h = cc

some-injective : {x y : Json} → some x ≡ some y → x ≡ y
some-injective h = cc

uuid-text :
    (v : Option Json) (name : String)
    → uuid v name ≡ ok tt
    → (s : String) × (v ≡ some (Json.text s))
unfolding uuid
uuid-text (some (Json.text s)) name h = (s, refl)
uuid-text v name h = cc

or_false : (a b : Bool) → (not a || b) ≡ false → a ≡ true
or_false true b h = refl
or_false false b h = cc

module _ (host : Host) where
  -- An event that the envelope's check returns is of its type, with a text as its operation id.
  validate_event_envelope-eq-ok :
      (fs : Fields) (event_type aggregate_type : String) (gs : Fields)
      → validate_event_envelope host (Json.object fs) event_type aggregate_type ≡ ok gs
      → (get "event_type" fs ≡ some (Json.text event_type))
        × ((o : String) × (get "operation_id" fs ≡ some (Json.text o)))
  unfolding validate_event_envelope object
  validate_event_envelope-eq-ok fs event_type aggregate_type gs h =
      let (_, _, h1) = >>=-eq-ok (exact_keys fs event_keys "event") _ h in
      let (typed, h2) =
        throw_if-eq-ok
          (not (is_the_text (get "event_type" fs) event_type)
            || not (is_the_number (get "schema_version" fs) 1))
          _ _ h1 in
      let (_, e3, _) =
        >>=-eq-ok
          (each_field ("event_id" ∷ "organization_id" ∷ "operation_id" ∷ "correlation_id" ∷ []) fs
            uuid)
          _ h2 in
      let (_, _, h4) = >>=-eq-ok (uuid (get "event_id" fs) "event_id") _ e3 in
      let (_, _, h5) = >>=-eq-ok (uuid (get "organization_id" fs) "organization_id") _ h4 in
      let (_, e6, _) = >>=-eq-ok (uuid (get "operation_id" fs) "operation_id") _ h5 in
      (
        is_the_text-eq (get "event_type" fs) event_type (or_false _ _ typed),
        uuid-text (get "operation_id" fs) "operation_id" e6,
      )

  assert_emitted_event-eq-ok :
      (v : Json) (event_type aggregate_type : String)
      → assert_emitted_event host v event_type aggregate_type ≡ ok tt
      → (fs : Fields) × (validate_event_envelope host v event_type aggregate_type ≡ ok fs)
  unfolding assert_emitted_event
  assert_emitted_event-eq-ok v event_type aggregate_type h =
      elim (Result-cases (validate_event_envelope host v event_type aggregate_type)) [
        | inl (e, failed) ↦ absurd (ground (arith, h, failed))
        | inr (fs, valid) ↦ (fs, valid)
      ]

text_of-json_of : (v : Option Json) (o : String) → json_of v ≡ Json.text o → text_of v ≡ o
text_of-json_of (some (Json.text s)) o h = cc
text_of-json_of (some v) o h = cc
text_of-json_of none o h = cc

module _ {Entity S : Type 0} (host : Host) (replica : String) (aggregate : Aggregate Entity)
    (repository : Repository Entity S) (known : Profile)
    (same_type : aggregate.aggregate_type ≡ known.aggregate_type) where
  -- What `#publish` has checked of the event that it makes.
  pub event_of-IsEmitted :
      (event_type : String) (c : CommandEnvelope) (h : Head) (payload : Json) (moment : Moment)
      → includes known.event_types event_type ≡ true
      → assert_emitted_event host
          ((event_of host replica aggregate repository event_type c h payload moment).value)
          event_type
          aggregate.aggregate_type
        ≡ ok tt
      → IsEmitted host known
          (event_of host replica aggregate repository event_type c h payload moment)
          (operation_id c)
  event_of-IsEmitted event_type c h payload moment in_profile valid =
      let event = event_of host replica aggregate repository event_type c h payload moment in
      let (fs, checked) =
        assert_emitted_event-eq-ok host event.value event_type aggregate.aggregate_type valid in
      let (_, (o, is_o)) =
        validate_event_envelope-eq-ok host (fields_of (some event.value)) event_type
          aggregate.aggregate_type fs checked in
      record {
        event_type = event_type;
        is_known = in_profile;
        is_valid = ap (assert_emitted_event host event.value event_type) (sym same_type) ∙ valid;
        of_operation =
            is_o
            ∙ ap (λ x. some (Json.text x))
                (sym (text_of-json_of (get "operation_id" c.fields) o (some-injective is_o)));
        is_read = refl;
      }

property-event_type :
    (host : Host) (v : Json) (event_type aggregate_type : String) (fs : Fields)
    → validate_event_envelope host v event_type aggregate_type ≡ ok fs
    → property "event_type" (some v) ≡ some (Json.text event_type)
unfolding validate_event_envelope object
property-event_type host (Json.object gs) event_type aggregate_type fs h =
    (validate_event_envelope-eq-ok host gs event_type aggregate_type fs h).0
property-event_type host v event_type aggregate_type fs h = cc

abbrev read_again : String → String → StoredEventExpectation
read_again context o = record {
  context = context;
  aggregate_id = none;
  aggregate_version = none;
  organization_id = none;
  event_id = none;
  event_type = none;
  operation_id = some o;
}

check_stored-IsEmitted :
    (host : Host) (known : Profile) (context : String) (event : EventEnvelope) (o : String)
    → IsEmitted host known event o
    → check_stored host known (read_again context o) event.value ≡ ok tt
unfolding check_stored
check_stored-IsEmitted host known context event o e =
    let (fs, valid) =
      assert_emitted_event-eq-ok host event.value e.event_type known.aggregate_type e.is_valid in
    let typed : property "event_type" (some event.value) ≡ some (Json.text e.event_type) =
      property-event_type host event.value e.event_type known.aggregate_type fs valid in
    rw (typed, e.is_known, valid, e.of_operation, ==_refl o) refl

-- The store returns such an event as it is.
pub stored_event-IsEmitted :
    (host : Host) (known : Profile) (context : String) (event : EventEnvelope) (o : String)
    → lookup_profile context executable_event_profiles ≡ some known
    → IsEmitted host known event o
    → stored_event host event.value (read_again context o) ≡ ok event.value
unfolding stored_event
stored_event-IsEmitted host known context event o found e =
    rw (found, stored_event, check_stored-IsEmitted host known context event o e) refl
