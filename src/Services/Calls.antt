-- ===== src/Services/Calls.antt =====
-- src/*/service.ts: the steps that the calls of every service are made of. All commands begin with the
-- validation of the input and the replay of an operation that is recorded.
use onyx_ifem.Prelude.{
  ◌≡◌, refl, ℕ, Bool, not, ◌||◌, Option, none, some, String, ltb, ◌==◌, if◌then◌else◌, includes,
}
use Prim.Native.String.{◌++◌ as ◌<>◌}
use onyx_ifem.Json.{Json, Fields, field, done, Host, get, with_key, sha256}
use onyx_ifem.Contracts.Errors.{
  Result, ok, err, onyx, invalid_argument, version_conflict, not_found, lifecycle_epoch_mismatch,
  authority_epoch_mismatch, authority_proof_invalid, idempotency_key_reuse, ◌>>=◌, ◌>>◌, throw_if,
}
use onyx_ifem.Contracts.Validation.{assert_emitted_event}
use onyx_ifem.Services.Envelopes.{
  CommandEnvelope, EventEnvelope, Moment, text_of, fields_of, texts_of, json_of, optional_natural,
  authority, operation_id, is_expired, differs, advance_clock,
}
use onyx_ifem.Services.Store.{Repository, OperationRecord}

-- What every entity has, and the type of its aggregate.
pub record Head : Type 0 where
  pub object_id : String
  pub version : ℕ
  pub lifecycle_epoch : ℕ
  pub authority_epoch : ℕ

pub record Aggregate (Entity : Type 0) : Type 0 where
  pub aggregate_type : String
  pub head : Entity → Head

-- `#authorize`
unfoldable pub authorize : Host → (scope : String) → CommandEnvelope → Moment → Result (Unit {0})
authorize host scope c moment =
    throw_if
      (not (includes (texts_of (get "scope" (authority c))) scope)
        || is_expired (host.date_parse (text_of (get "expires_at" (authority c))))
            moment.authorized_at)
      (onyx authority_proof_invalid (scope <> " authority is missing or expired"))

-- The version and the epochs that a command may expect of the entity that it has found.
unfoldable pub check_expected : CommandEnvelope → Head → Result (Unit {0})
check_expected c h = do
  throw_if (differs (optional_natural (get "expected_version" c.fields)) h.version)
      (onyx version_conflict "expected_version does not match")
  throw_if (differs (optional_natural (get "expected_lifecycle_epoch" c.fields)) h.lifecycle_epoch)
      (onyx lifecycle_epoch_mismatch "expected_lifecycle_epoch does not match")
  throw_if (differs (optional_natural (get "expected_authority_epoch" c.fields)) h.authority_epoch)
      (onyx authority_epoch_mismatch "expected_authority_epoch does not match")

module _ {Entity S : Type 0} (host : Host) (replica : String) (aggregate : Aggregate Entity)
    (repository : Repository Entity S) where
  open aggregate use {aggregate_type, head}
  open repository use {find_operation, commit}

  -- The event without its audit.
  abbrev pub event_fields :
      (event_type : String) → CommandEnvelope → Head → (payload : Json) → Moment → Fields
  event_fields event_type c h payload moment = field "event_id" (Json.text moment.event_id) (
      field "event_type" (Json.text event_type) (
        field "schema_version" (Json.natural 1) (
          field "organization_id" (json_of (get "organization_id" c.fields)) (
            field "aggregate"
              (Json.object (
                field "aggregate_type" (Json.text aggregate_type)
                  (field "object_id" (Json.text h.object_id) done)))
              (field "aggregate_version" (Json.natural h.version) (
                field "lifecycle_epoch" (Json.natural h.lifecycle_epoch) (
                  field "authority_epoch" (Json.natural h.authority_epoch) (
                    field "operation_id" (json_of (get "operation_id" c.fields)) (
                      field "actor_context" (json_of (get "actor_context" c.fields)) (
                        field "occurred_at" (Json.text moment.occurred_at) (
                          field "recorded_at" (Json.text moment.occurred_at) (
                            field "vector_clock"
                              (Json.object
                                (advance_clock replica (fields_of (get "vector_clock" c.fields))))
                              (field "correlation_id" (json_of (get "correlation_id" c.fields)) (
                                field "causation_id" (json_of (get "command_id" c.fields))
                                  (field "payload" payload done)))))))))))))))

  abbrev pub with_audit : CommandEnvelope → Fields → Json
  with_audit c event = Json.object (
      with_key "audit"
        (Json.object (
          field "provenance" (Json.text (text_of (get "command_type" c.fields) <> "@1"))
            (field "integrity_digest" (Json.text (sha256 host (Json.object event))) done)))
        event)

  abbrev pub event_of :
      (event_type : String) → CommandEnvelope → Head → (payload : Json) → Moment → EventEnvelope
  event_of event_type c h payload moment = record {
    event_id = moment.event_id;
    aggregate_version = h.version;
    value = with_audit c (event_fields event_type c h payload moment);
  }

  abbrev pub record_of : CommandEnvelope → EventEnvelope → OperationRecord
  record_of c event = record { fingerprint = sha256 host c.value; event = event }

  -- `#publish`
  unfoldable pub publish :
      (event_type : String)
      → CommandEnvelope
      → Entity
      → (payload : Json) → (create : Bool) → Moment
      → S
      → Result (EventEnvelope × S)
  publish event_type c m payload create moment s = do
    let event = event_of event_type c (head m) payload moment
    assert_emitted_event host event.value event_type aggregate_type
    s' ← commit m event (operation_id c) (record_of c event) create s
    ok (event, s')

  -- `#replay`
  unfoldable pub replay : CommandEnvelope → Option OperationRecord → Result (Option EventEnvelope)
  replay c none = ok none
  replay c (some prior) = do
    throw_if (not (prior.fingerprint == sha256 host c.value))
        (onyx idempotency_key_reuse "operation_id was reused with a different command")
    ok (some prior.event)

  module _ (validate : Json → Result CommandEnvelope)
      (perform : CommandEnvelope → Moment → S → Result (EventEnvelope × S)) where
    -- A validated command: an event that is replayed, or the command's own work.
    unfoldable pub answer :
        CommandEnvelope → Moment → S → Option EventEnvelope → Result (EventEnvelope × S)
    answer c moment s (some event) = ok (event, s)
    answer c moment s none = perform c moment s

    unfoldable pub handle : Json → Moment → S → Result (EventEnvelope × S)
    unfolding replay answer
    handle input moment s = do
      c ← validate input
      prior ← find_operation (operation_id c) s
      replayed ← replay c prior
      answer c moment s replayed

-- The entity of an organization: to another organization it is not there.
abbrev pub found_in {ℓ} :
    {Entity : Type ℓ}
    → (owner_of : Entity → String) → (name : String) → (organization : String) → Option Entity
    → Result Entity
found_in owner_of name organization none = err (onyx not_found (name <> " not found"))
found_in owner_of name organization (some m) =
    if (owner_of m == organization) then ok m else err (onyx not_found (name <> " not found"))

-- The bounds of `getHistory`.
abbrev pub check_history : (limit : ℕ) → Result (Unit {0})
check_history limit =
    throw_if (ltb limit 1 || ltb 1000 limit) (onyx invalid_argument "history bounds are invalid")

-- What a call leaves: one that fails changes nothing.
abbrev pub state_after {ℓ} : {S : Type ℓ} → S → Result (EventEnvelope × S) → S
state_after s (err _) = s
state_after s (ok (_, s')) = s'

-- What holds before a call, and after it if it succeeds, holds in any case.
pub after_ok {ℓ κ} :
    {S : Type ℓ} (P : S → Type κ) (s : S) (answer : Result (EventEnvelope × S))
    → P s
    → ((event : EventEnvelope) (s' : S) → answer ≡ ok (event, s') → P s')
    → P (state_after s answer)
after_ok P s (err e) before h = before
after_ok P s (ok (event, s')) before h = h event s' refl
