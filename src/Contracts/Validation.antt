-- ===== src/Contracts/Validation.antt =====
-- src/contracts/validation.ts, lines 109 to 175: the envelopes of commands and events.
use onyx_ifem.Prelude.{
  ℕ, Bool, true, false, not, ◌||◌, Option, none, some, String, List, [], ◌∷◌, ltb, eqb, ◌==◌,
  includes,
}
use Prim.Native.String.{◌++◌ as ◌<>◌}
use onyx_ifem.Json.{Json, Items, Fields, Host, items, get, without, utf16_length, sha256}
use onyx_ifem.Contracts.Errors.{Result, ok, err, failure, ◌>>=◌, ◌>>◌}
use onyx_ifem.Contracts.Checks.{
  fail_if, fail, object, exact_keys, uuid, text, when_defined, domain_object_ref,
  non_negative_integer, instant, actor_context, vector_clock, sha_256_pattern, test,
}

abbrev pub command_keys : List String
command_keys =
    "command_id" ∷ "operation_id" ∷ "command_type" ∷ "schema_version" ∷ "organization_id" ∷ "target"
    ∷ "expected_version" ∷ "expected_lifecycle_epoch" ∷ "expected_authority_epoch" ∷ "actor_context"
    ∷ "authority_proof" ∷ "issued_at" ∷ "vector_clock" ∷ "correlation_id" ∷ "causation_id"
    ∷ "payload" ∷ []

abbrev pub event_keys : List String
event_keys =
    "event_id" ∷ "event_type" ∷ "schema_version" ∷ "organization_id" ∷ "aggregate"
    ∷ "aggregate_version" ∷ "lifecycle_epoch" ∷ "authority_epoch" ∷ "operation_id" ∷ "actor_context"
    ∷ "occurred_at" ∷ "recorded_at" ∷ "vector_clock" ∷ "correlation_id" ∷ "causation_id" ∷ "audit"
    ∷ "payload" ∷ []

-- `value === text`
abbrev pub is_the_text : Option Json → String → Bool
is_the_text (some (Json.text s)) t = s == t
is_the_text _ t = false

-- `value === number`
abbrev pub is_the_number : Option Json → ℕ → Bool
is_the_number (some (Json.natural n)) m = eqb n m
is_the_number _ m = false

-- `for (const field of names) check(value[field], field)`
abbrev pub each_field :
    List String → Fields → (Option Json → String → Result (Unit {0})) → Result (Unit {0})
each_field [] value check = ok tt
each_field (name ∷ names) value check = check (get name value) name >> each_field names value check

-- A scope entry that is no text, or an empty one.
unfoldable pub has_empty_scope : List Json → Bool
unfolding utf16_length
has_empty_scope [] = false
has_empty_scope (Json.text s ∷ vs) = ltb (utf16_length s) 1 || has_empty_scope vs
has_empty_scope (_ ∷ vs) = true

abbrev pub texts : List Json → List String
texts [] = []
texts (Json.text s ∷ vs) = s ∷ texts vs
texts (_ ∷ vs) = texts vs

-- `new Set(scope).size !== scope.length`, for texts.
unfoldable pub has_repeats : List String → Bool
has_repeats [] = false
has_repeats (s ∷ ss) = includes ss s || has_repeats ss

unfoldable pub scope_list : Option Json → Result (Unit {0})
unfolding has_empty_scope has_repeats
scope_list (some (Json.array (Items.item v vs))) = do
  fail_if (has_empty_scope (v ∷ items vs)) "authority_proof.scope entries must not be empty"
  fail_if (has_repeats (texts (v ∷ items vs))) "authority_proof.scope entries must be unique"
scope_list _ = fail "authority_proof.scope must not be empty"

-- `typeof digest === "string" && SHA_256.test(digest)`
abbrev pub is_digest : Option Json → Bool
is_digest (some (Json.text s)) = test sha_256_pattern s
is_digest _ = false

module _ (host : Host) where
  unfoldable pub authority_proof : Option Json → Result (Unit {0})
  unfolding object exact_keys text scope_list instant non_negative_integer
  authority_proof value = do
    proof ← object value "authority_proof"
    exact_keys proof ("proof_ref" ∷ "scope" ∷ "expires_at" ∷ "authority_epoch" ∷ [])
        "authority_proof"
    text (get "proof_ref" proof) "authority_proof.proof_ref" none
    scope_list (get "scope" proof)
    instant host (get "expires_at" proof) "authority_proof.expires_at"
    non_negative_integer (get "authority_epoch" proof) "authority_proof.authority_epoch"

  unfoldable pub validate_command_envelope : Json → String → String → Result Fields
  validate_command_envelope value command_type aggregate_type = do
    command ← object (some value) "command"
    exact_keys command command_keys "command"
    fail_if
        (not (is_the_text (get "command_type" command) command_type)
          || not (is_the_number (get "schema_version" command) 1))
        "unsupported command type or schema version"
    each_field ("command_id" ∷ "operation_id" ∷ "organization_id" ∷ "correlation_id" ∷ []) command
        uuid
    when_defined (get "causation_id" command) (λ v. uuid v "causation_id")
    each_field ("expected_version" ∷ "expected_lifecycle_epoch" ∷ "expected_authority_epoch" ∷ [])
        command (λ v name. when_defined v (λ w. non_negative_integer w name))
    target ← domain_object_ref (get "target" command) "target"
    fail_if (not (is_the_text (get "aggregate_type" target) aggregate_type))
        ("target.aggregate_type must be " <> aggregate_type)
    actor_context (get "actor_context" command)
    authority_proof (get "authority_proof" command)
    instant host (get "issued_at" command) "issued_at"
    vector_clock (get "vector_clock" command)
    payload ← object (get "payload" command) "payload"
    ok command

  -- The provenance and the digest of an event, which is the digest of the event without its audit.
  unfoldable pub audit_metadata : Fields → Result (Unit {0})
  unfolding object exact_keys text test
  audit_metadata event = do
    audit ← object (get "audit" event) "audit"
    exact_keys audit ("provenance" ∷ "integrity_digest" ∷ []) "audit"
    text (get "provenance" audit) "audit.provenance" none
    fail_if (not (is_digest (get "integrity_digest" audit)))
        "audit.integrity_digest must be a lowercase SHA-256 digest"
    fail_if
        (not (
          is_the_text (get "integrity_digest" audit)
            (sha256 host (Json.object (without "audit" event)))))
        "audit.integrity_digest does not match event content"

  unfoldable pub validate_event_envelope : Json → String → String → Result Fields
  unfolding domain_object_ref audit_metadata
  validate_event_envelope value event_type aggregate_type = do
    event ← object (some value) "event"
    exact_keys event event_keys "event"
    fail_if
        (not (is_the_text (get "event_type" event) event_type)
          || not (is_the_number (get "schema_version" event) 1))
        "unsupported event type or schema version"
    each_field ("event_id" ∷ "organization_id" ∷ "operation_id" ∷ "correlation_id" ∷ []) event uuid
    when_defined (get "causation_id" event) (λ v. uuid v "causation_id")
    aggregate ← domain_object_ref (get "aggregate" event) "aggregate"
    fail_if (not (is_the_text (get "aggregate_type" aggregate) aggregate_type))
        ("aggregate.aggregate_type must be " <> aggregate_type)
    each_field ("aggregate_version" ∷ "lifecycle_epoch" ∷ "authority_epoch" ∷ []) event
        non_negative_integer
    actor_context (get "actor_context" event)
    instant host (get "occurred_at" event) "occurred_at"
    instant host (get "recorded_at" event) "recorded_at"
    vector_clock (get "vector_clock" event)
    audit_metadata event
    payload ← object (get "payload" event) "payload"
    ok event

  -- Any failure is wrapped in a plain `Error`.
  unfoldable pub assert_emitted_event : Json → String → String → Result (Unit {0})
  assert_emitted_event value event_type aggregate_type =
      elim (validate_event_envelope value event_type aggregate_type) [
        | ok _ ↦ ok tt
        | err _ ↦
            err (failure ("emitted " <> event_type <> " event violates the canonical contract"))
      ]
