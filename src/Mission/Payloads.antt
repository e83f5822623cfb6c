-- ===== src/Mission/Payloads.antt =====
-- src/mission/validation.ts: the payload of each command.
use onyx_ifem.Prelude.{ℕ, not, Option, none, some, String, List, [], ◌∷◌, is_none, ◌==◌}
use Prim.Native.String.{◌++◌ as ◌<>◌}
use onyx_ifem.Json.{Json, Fields, Host, get}
use onyx_ifem.Contracts.Errors.{Result, ok, ◌>>=◌, ◌>>◌}
use onyx_ifem.Contracts.Checks.{fail_if, object, exact_keys, uuid, text, when_defined}
use onyx_ifem.Contracts.Validation.{validate_command_envelope}
use onyx_ifem.Services.Envelopes.{CommandEnvelope, text_of, fields_of}
use onyx_ifem.Mission.Types.{
  CommandType, create_mission, create_blueprint_revision, submit_blueprint, activate_mission,
  pause_mission, resume_mission, operational_halt_mission, restart_mission, close_mission,
  cancel_mission, archive_mission, type_name,
}

-- `validateMissionTarget`
unfoldable pub validate_mission_target : Fields → Fields → Result (Unit {0})
unfolding uuid
validate_mission_target command payload = do
  uuid (get "mission_id" payload) "payload.mission_id"
  fail_if
      (not (
        text_of (get "object_id" (fields_of (get "target" command)))
        == text_of (get "mission_id" payload)))
      "target object must match payload mission_id"

-- `exactKeys` and the target, which every payload begins with.
abbrev payload_of : Fields → Fields → List String → Result (Unit {0})
payload_of command payload allowed = do
  exact_keys payload allowed "payload"
  validate_mission_target command payload

abbrev optional_uuid : Fields → String → Result (Unit {0})
optional_uuid payload name = when_defined (get name payload) (λ v. uuid v ("payload." <> name))

-- `validateReasonCommand` after the envelope.
abbrev reason_payload : Fields → Fields → Option ℕ → Result (Unit {0})
reason_payload command payload limit = do
  payload_of command payload ("mission_id" ∷ "reason_code" ∷ "reason" ∷ [])
  text (get "reason_code" payload) "payload.reason_code" none
  text (get "reason" payload) "payload.reason" limit

unfoldable pub validate_payload : CommandType → Fields → Fields → Result (Unit {0})
unfolding validate_mission_target exact_keys uuid text object
validate_payload create_mission c p = do
  payload_of c p
      ("mission_id" ∷ "objective" ∷ "owner_id" ∷ "settings" ∷ "title" ∷ "initial_blueprint_id" ∷ [])
  uuid (get "owner_id" p) "payload.owner_id"
  text (get "objective" p) "payload.objective" (some 4000)
  settings ← object (get "settings" p) "payload.settings"
  when_defined (get "title" p) (λ v. text v "payload.title" (some 200))
  optional_uuid p "initial_blueprint_id"
validate_payload create_blueprint_revision c p = do
  payload_of c p
      ("mission_id" ∷ "revision_id" ∷ "content" ∷ "change_summary" ∷ "base_revision_id" ∷ [])
  uuid (get "revision_id" p) "payload.revision_id"
  fail_if (is_none (get "content" p)) "payload.content is required"
  text (get "change_summary" p) "payload.change_summary" (some 2000)
  optional_uuid p "base_revision_id"
validate_payload submit_blueprint c p = do
  payload_of c p ("mission_id" ∷ "revision_id" ∷ "required_approval_policy_id" ∷ [])
  uuid (get "revision_id" p) "payload.revision_id"
  optional_uuid p "required_approval_policy_id"
validate_payload activate_mission c p = do
  payload_of c p ("mission_id" ∷ "approved_revision_id" ∷ "timeline_id" ∷ "approval_id" ∷ [])
  uuid (get "approved_revision_id" p) "payload.approved_revision_id"
  uuid (get "timeline_id" p) "payload.timeline_id"
  optional_uuid p "approval_id"
validate_payload pause_mission c p = reason_payload c p (some 2000)
validate_payload cancel_mission c p = reason_payload c p none
validate_payload operational_halt_mission c p = do
  payload_of c p ("mission_id" ∷ "reason_code" ∷ "reason" ∷ "incident_id" ∷ [])
  text (get "reason_code" p) "payload.reason_code" (some 200)
  text (get "reason" p) "payload.reason" (some 2000)
  optional_uuid p "incident_id"
validate_payload restart_mission c p = do
  payload_of c p ("mission_id" ∷ "restart_note" ∷ "timeline_id" ∷ [])
  text (get "restart_note" p) "payload.restart_note" (some 2000)
  optional_uuid p "timeline_id"
validate_payload close_mission c p = do
  payload_of c p ("mission_id" ∷ "outcome_code" ∷ "outcome_summary" ∷ [])
  text (get "outcome_code" p) "payload.outcome_code" (some 200)
  text (get "outcome_summary" p) "payload.outcome_summary" (some 4000)
validate_payload resume_mission c p = do
  payload_of c p ("mission_id" ∷ "resume_note" ∷ [])
  text (get "resume_note" p) "payload.resume_note" (some 2000)
validate_payload archive_mission c p = do
  payload_of c p ("mission_id" ∷ "retention_policy_id" ∷ [])
  uuid (get "retention_policy_id" p) "payload.retention_policy_id"

-- The function `validate…Command` of a type.
unfoldable pub validate_mission_command : Host → CommandType → Json → Result CommandEnvelope
unfolding validate_payload
validate_mission_command host type value = do
  command ← validate_command_envelope host value (type_name type) "Mission"
  payload ← object (get "payload" command) "payload"
  validate_payload type command payload
  ok (record { value = value; fields = command; payload = payload })
