-- ===== src/Work/Payloads.antt =====
-- src/work/validation.ts: the payload of each command.
use onyx_ifem.Prelude.{ℕ, not, Option, none, some, String, List, [], ◌∷◌, ◌==◌, ltb, length}
use Prim.Native.String.{◌++◌ as ◌<>◌}
use onyx_ifem.Json.{Json, Fields, Host, get, items, utf16_length}
use onyx_ifem.Contracts.Errors.{Result, ok, ◌>>=◌, ◌>>◌}
use onyx_ifem.Contracts.Checks.{fail_if, fail, object, exact_keys, uuid, text, when_defined}
use onyx_ifem.Contracts.Validation.{validate_command_envelope}
use onyx_ifem.Services.Envelopes.{CommandEnvelope, text_of, fields_of}
use onyx_ifem.Work.Types.{
  WorkCommandType, create_task, assign_owner, change_priority, add_dependency, start_task,
  pause_task, block_task, submit_completion, approve_task, reopen_task, close_task, cancel_task,
  type_name,
}

-- `taskPayload`
unfoldable pub task_payload : Fields → Fields → List String → Result (Unit {0})
unfolding exact_keys uuid
task_payload command payload allowed = do
  exact_keys payload allowed "payload"
  uuid (get "task_id" payload) "payload.task_id"
  fail_if
      (not (
        text_of (get "object_id" (fields_of (get "target" command)))
        == text_of (get "task_id" payload)))
      "target object must match payload task_id"

-- `text(payload[name], "payload." + name, limit)`
abbrev text_field : Fields → String → ℕ → Result (Unit {0})
text_field payload name limit = text (get name payload) ("payload." <> name) (some limit)

abbrev optional_field : Fields → String → ℕ → Result (Unit {0})
optional_field payload name limit =
    when_defined (get name payload) (λ v. text v ("payload." <> name) (some limit))

unfoldable pub description : Option Json → Result (Unit {0})
unfolding utf16_length
description (some (Json.text s)) =
    fail_if (ltb 8000 (utf16_length s)) "payload.description must contain at most 8000 characters"
description _ = fail "payload.description must contain at most 8000 characters"

-- The message leaves out the index.
abbrev each_uuid : List Json → Result (Unit {0})
each_uuid [] = ok tt
each_uuid (v ∷ vs) = uuid (some v) "payload.evidence_refs[]" >> each_uuid vs

unfoldable pub evidence_refs : Option Json → Result (Unit {0})
unfolding uuid
evidence_refs none = ok tt
evidence_refs (some (Json.array vs)) = do
  fail_if (ltb 100 (length (items vs)))
      "payload.evidence_refs must be an array of at most 100 UUIDs"
  each_uuid (items vs)
evidence_refs (some _) = fail "payload.evidence_refs must be an array of at most 100 UUIDs"

unfoldable pub validate_task_payload : WorkCommandType → Fields → Fields → Result (Unit {0})
unfolding task_payload uuid text object description evidence_refs
validate_task_payload create_task c p = do
  task_payload c p (
      "task_id" ∷ "mission_id" ∷ "title" ∷ "description" ∷ "owner_id" ∷ "priority" ∷ "due_date_ref"
      ∷ "estimate" ∷ [])
  uuid (get "mission_id" p) "payload.mission_id"
  uuid (get "owner_id" p) "payload.owner_id"
  text_field p "title" 200
  description (get "description" p)
  text_field p "priority" 100
  when_defined (get "due_date_ref" p) (λ v. object v "payload.due_date_ref" >>= λ _. ok tt)
  when_defined (get "estimate" p) (λ v. object v "payload.estimate" >>= λ _. ok tt)
validate_task_payload assign_owner c p = do
  task_payload c p ("task_id" ∷ "owner_id" ∷ "assignment_note" ∷ [])
  uuid (get "owner_id" p) "payload.owner_id"
  optional_field p "assignment_note" 2000
validate_task_payload change_priority c p = do
  task_payload c p ("task_id" ∷ "priority" ∷ "reason" ∷ [])
  text_field p "priority" 100
  optional_field p "reason" 2000
validate_task_payload add_dependency c p = do
  task_payload c p ("task_id" ∷ "dependency_task_id" ∷ [])
  uuid (get "dependency_task_id" p) "payload.dependency_task_id"
validate_task_payload start_task c p = do
  task_payload c p ("task_id" ∷ "start_note" ∷ [])
  optional_field p "start_note" 2000
validate_task_payload pause_task c p = do
  task_payload c p ("task_id" ∷ "reason_code" ∷ "reason" ∷ [])
  text_field p "reason_code" 200
  text_field p "reason" 2000
validate_task_payload block_task c p = do
  task_payload c p ("task_id" ∷ "blocker_code" ∷ "blocker_description" ∷ [])
  text_field p "blocker_code" 200
  text_field p "blocker_description" 4000
validate_task_payload submit_completion c p = do
  task_payload c p ("task_id" ∷ "completion_summary" ∷ "evidence_refs" ∷ [])
  text_field p "completion_summary" 8000
  evidence_refs (get "evidence_refs" p)
validate_task_payload approve_task c p = do
  task_payload c p ("task_id" ∷ "approval_note" ∷ [])
  text_field p "approval_note" 4000
validate_task_payload reopen_task c p = do
  task_payload c p ("task_id" ∷ "reason" ∷ [])
  text_field p "reason" 4000
validate_task_payload close_task c p = do
  task_payload c p ("task_id" ∷ "closure_note" ∷ [])
  text_field p "closure_note" 4000
validate_task_payload cancel_task c p = do
  task_payload c p ("task_id" ∷ "reason_code" ∷ "reason" ∷ [])
  text_field p "reason_code" 200
  text_field p "reason" 4000

-- `validateWorkCommand` for a command of a known type.
unfoldable pub validate_work_command : Host → WorkCommandType → Json → Result CommandEnvelope
unfolding validate_task_payload
validate_work_command host type value = do
  command ← validate_command_envelope host value (type_name type) "Task"
  payload ← object (get "payload" command) "payload"
  validate_task_payload type command payload
  ok (record { value = value; fields = command; payload = payload })
