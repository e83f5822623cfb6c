-- ===== src/Reporting/Payloads.antt =====
-- src/reporting-evidence/validation.ts: the payload of each command.
use onyx_ifem.Prelude.{true, ℕ, not, Option, none, some, String, List, [], ◌∷◌, ◌==◌}
use Prim.Native.String.{◌++◌ as ◌<>◌}
use onyx_ifem.Json.{Json, Items, Fields, Host, get}
use onyx_ifem.Contracts.Errors.{Result, ok, ◌>>=◌, ◌>>◌}
use onyx_ifem.Contracts.Checks.{
  fail_if, object, exact_keys, uuid, text, when_defined, domain_object_ref, sha_256_pattern, test,
}
use onyx_ifem.Contracts.Validation.{validate_command_envelope}
use onyx_ifem.Services.Envelopes.{CommandEnvelope, text_of, fields_of}
use onyx_ifem.Reporting.Types.{
  ReportingCommandType, create_report, add_evidence, verify_evidence, reject_evidence,
  submit_report, approve_report, reject_report, archive_report, type_name,
}

-- `payload`, once `command.payload` is an object.
unfoldable pub report_payload : Fields → Fields → List String → Result (Unit {0})
unfolding exact_keys uuid
report_payload command body keys = do
  exact_keys body keys "payload"
  uuid (get "report_id" body) "payload.report_id"
  fail_if
      (not (
        text_of (get "object_id" (fields_of (get "target" command)))
        == text_of (get "report_id" body)))
      "target object must match payload report_id"

-- `text(body[name], "payload." + name, limit)`
abbrev text_field : Fields → String → ℕ → Result (Unit {0})
text_field body name limit = text (get name body) ("payload." <> name) (some limit)

abbrev id_field : Fields → String → Result (Unit {0})
id_field body name = uuid (get name body) ("payload." <> name)

-- The text that a regular expression tests of a value that is no text: an array is its elements between commas,
-- so that one with one element is that element. No other value is written as a digest.
unfoldable pub tested_text : Json → String
tested_text (Json.text s) = s
tested_text (Json.array (Items.item v Items.nil)) = tested_text v
tested_text _ = ""

unfoldable pub content_hash : Option Json → Result (Unit {0})
unfolding tested_text test
content_hash none = fail_if true "payload.content_hash must be a lowercase SHA-256 digest"
content_hash (some v) =
    fail_if (not (test sha_256_pattern (tested_text v)))
      "payload.content_hash must be a lowercase SHA-256 digest"

unfoldable pub validate_report_payload : ReportingCommandType → Fields → Fields → Result (Unit {0})
unfolding report_payload uuid text domain_object_ref content_hash
validate_report_payload create_report c p = do
  report_payload c p ("report_id" ∷ "report_type" ∷ "subject_ref" ∷ "author_id" ∷ "title" ∷ [])
  id_field p "author_id"
  text_field p "report_type" 100
  text_field p "title" 200
  subject ← domain_object_ref (get "subject_ref" p) "payload.subject_ref"
  ok tt
validate_report_payload add_evidence c p = do
  report_payload c p
      ("report_id" ∷ "evidence_id" ∷ "evidence_type" ∷ "uri" ∷ "content_hash" ∷ "description" ∷ [])
  id_field p "evidence_id"
  text_field p "evidence_type" 100
  text_field p "uri" 2000
  content_hash (get "content_hash" p)
  when_defined (get "description" p) (λ v. text v "payload.description" (some 4000))
validate_report_payload verify_evidence c p = do
  report_payload c p ("report_id" ∷ "evidence_id" ∷ "verification_note" ∷ [])
  id_field p "evidence_id"
  text_field p "verification_note" 4000
validate_report_payload reject_evidence c p = do
  report_payload c p ("report_id" ∷ "evidence_id" ∷ "reason_code" ∷ "reason" ∷ [])
  id_field p "evidence_id"
  text_field p "reason_code" 200
  text_field p "reason" 4000
validate_report_payload submit_report c p = do
  report_payload c p ("report_id" ∷ "submission_note" ∷ [])
  text_field p "submission_note" 4000
validate_report_payload approve_report c p = do
  report_payload c p ("report_id" ∷ "approval_note" ∷ [])
  text_field p "approval_note" 4000
validate_report_payload reject_report c p = do
  report_payload c p ("report_id" ∷ "reason_code" ∷ "reason" ∷ [])
  text_field p "reason_code" 200
  text_field p "reason" 4000
validate_report_payload archive_report c p = do
  report_payload c p ("report_id" ∷ "retention_policy_id" ∷ [])
  id_field p "retention_policy_id"

-- `validateReportingCommand` for a command of a known type.
unfoldable pub validate_reporting_command :
    Host → ReportingCommandType → Json → Result CommandEnvelope
unfolding validate_report_payload
validate_reporting_command host type value = do
  command ← validate_command_envelope host value (type_name type) "Report"
  payload ← object (get "payload" command) "payload"
  validate_report_payload type command payload
  ok (record { value = value; fields = command; payload = payload })
