-- ===== src/Services/Samples.antt =====
-- Test data that the services' tests share: a runtime with fixed answers, and a command envelope.
use onyx_ifem.Prelude.{ℕ, true, some, String}
use onyx_ifem.Json.{Json, Fields, field, done, item, nil, Host}
use onyx_ifem.Services.Envelopes.{CommandEnvelope, Moment}

abbrev pub fixed_host : Host
fixed_host = record {
  stringify = λ _. "{}";
  locale_le = λ _ _. true;
  digest = λ _. "0000000000000000000000000000000000000000000000000000000000000000";
  date_parse = λ _. some 1000;
}

abbrev pub id1 : String
id1 = "018f1c2a-7b3d-7abc-8def-000000000001"

abbrev pub id2 : String
id2 = "018f1c2a-7b3d-7abc-8def-000000000002"

abbrev pub id3 : String
id3 = "018f1c2a-7b3d-7abc-8def-000000000003"

abbrev pub noon : String
noon = "2026-07-29T12:00:00.000000Z"

abbrev pub moment : Moment
moment = record { authorized_at = 10; occurred_at = noon; event_id = id2 }

-- A command of the organization `id2` on the object `id1`, under the operation `id2`.
abbrev pub envelope :
    (command_type : String)
    → (aggregate_type : String) → (scope : String) → (version : ℕ) → (payload : Fields) → Fields
envelope command_type aggregate_type scope version payload = field "command_id" (Json.text id1) (
    field "operation_id" (Json.text id2) (
      field "command_type" (Json.text command_type) (
        field "schema_version" (Json.natural 1) (
          field "organization_id" (Json.text id2) (
            field "target"
              (Json.object (
                field "aggregate_type" (Json.text aggregate_type)
                  (field "object_id" (Json.text id1) done)))
              (field "expected_version" (Json.natural version) (
                field "actor_context"
                  (Json.object (
                    field "principal_id" (Json.text id1)
                      (field "actor_type" (Json.text "USER") done)))
                  (field "authority_proof"
                    (Json.object (
                      field "proof_ref" (Json.text "proof") (
                        field "scope" (Json.array (item (Json.text scope) nil)) (
                          field "expires_at" (Json.text noon)
                            (field "authority_epoch" (Json.natural 0) done)))))
                    (field "issued_at" (Json.text noon) (
                      field "vector_clock" (Json.object (field "replica" (Json.natural 3) done)) (
                        field "correlation_id" (Json.text id1)
                          (field "payload" (Json.object payload) done))))))))))))

abbrev pub command :
    (command_type : String)
    → (aggregate_type : String) → (scope : String) → (version : ℕ) → (payload : Fields)
    → CommandEnvelope
command command_type aggregate_type scope version payload = record {
  value = Json.object (envelope command_type aggregate_type scope version payload);
  fields = envelope command_type aggregate_type scope version payload;
  payload = payload;
}
