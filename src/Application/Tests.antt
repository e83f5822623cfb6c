-- ===== src/Application/Tests.antt =====
-- A mission is created and then a task of it, from an empty store; and the theorem at these requests.
use onyx_ifem.Prelude.{◌≡◌, refl, some, String, [], ◌∷◌, arith, List}
use onyx_ifem.Json.{Json, field, done, sha256, utf16_length}
use onyx_ifem.Contracts.Errors.{ok, err, onyx, not_found}
use onyx_ifem.Contracts.Checks.{
  object, exact_keys, has_unknown_keys, uuid, text, domain_object_ref, non_negative_integer,
  instant, actor_context, counters, vector_clock, test, matches,
}
use onyx_ifem.Contracts.Validation.{
  has_empty_scope, has_repeats, scope_list, authority_proof, validate_command_envelope,
  audit_metadata, validate_event_envelope, assert_emitted_event,
}
use onyx_ifem.Sqlite.Table.{first, update, count}
use onyx_ifem.Sqlite.Keys.{any}
use onyx_ifem.Sqlite.Instants.{Instant}
use onyx_ifem.Sqlite.StoredEvent.{stored_event, check_stored, executable_event_profiles}
use onyx_ifem.Sqlite.Store as Database
use onyx_ifem.Sqlite.Store.{
  Store, write_aggregate, insert_event, insert_operation, insert_outbox, get_state, get_aggregate,
  get_operation, get_operation_row,
}
use onyx_ifem.Sqlite.Store.History.{IsConsistent}
use onyx_ifem.Services.Envelopes.{CommandEnvelope}
use onyx_ifem.Services.Calls
use onyx_ifem.Services.Calls.{authorize, check_expected, replay, answer, state_after}
use onyx_ifem.Services.Samples.{fixed_host, id1, id3, moment, command}
use onyx_ifem.Mission.Payloads.{validate_mission_target, validate_payload, validate_mission_command}
use onyx_ifem.Mission.Durable.{encode_mission, decode_mission}
use onyx_ifem.Mission.Service as Missions
use onyx_ifem.Mission.Service.{get_mission}
use onyx_ifem.Work.Payloads.{
  task_payload, description, evidence_refs, validate_task_payload, validate_work_command,
}
use onyx_ifem.Work.Commands.{new_task}
use onyx_ifem.Work.Durable.{encode_task, decode_task}
use onyx_ifem.Work.Service as Work
use onyx_ifem.Application.{Request, mission, work, tasks, require_mission, answer_request, run}
use onyx_ifem.Application.Whole.{IsWhole, run-IsWhole}

abbrev create_mission : Request
create_mission =
    mission
      ((command "CreateMission" "Mission" "mission:create" 0 (
        field "mission_id" (Json.text id1) (
          field "objective" (Json.text "objective")
            (field "owner_id" (Json.text id3) (field "settings" (Json.object done) done))))).value)
      moment

abbrev create_task : CommandEnvelope
create_task = command "CreateTask" "Task" "work:create" 0 (
    field "task_id" (Json.text id1) (
      field "mission_id" (Json.text id1) (
        field "title" (Json.text "title") (
          field "description" (Json.text "")
            (field "owner_id" (Json.text id3) (field "priority" (Json.text "high") done))))))

abbrev requests : List Request
requests = create_mission ∷ work create_task.value (record moment { event_id = id3 }) ∷ []

abbrev empty : Store
empty = record { aggregates = []; events = []; operations = []; outbox = [] }

abbrev at_zero : String → Instant
at_zero _ = 0

writes : Unit {0}
unfolding get_state get_aggregate first any
writes = tt

empty-IsConsistent : IsConsistent empty
unfolding writes
empty-IsConsistent = record {
  unique_aggregates = tt;
  unique_versions = tt;
  unique_ids = tt;
  unique_messages = tt;
  gapless = λ c i n. ground arith;
  published = λ e. refl;
}

empty-IsWhole : IsWhole fixed_host at_zero 0 empty
unfolding writes
empty-IsWhole = record {
  is_consistent = empty-IsConsistent;
  all_keyed = λ i m h. cc;
  all_linked = λ i t h. cc;
  all_housed = λ i t h. cc;
}

run-IsWhole_example : IsWhole fixed_host at_zero 0 (run fixed_host at_zero 0 requests empty)
run-IsWhole_example = run-IsWhole fixed_host at_zero 0 requests empty empty-IsWhole

calls : Unit {0}
unfolding writes object exact_keys has_unknown_keys uuid text domain_object_ref non_negative_integer
    instant actor_context counters vector_clock test matches has_empty_scope has_repeats scope_list
    authority_proof validate_command_envelope audit_metadata validate_event_envelope
    assert_emitted_event update count Database.commit write_aggregate insert_event insert_operation
    insert_outbox get_operation get_operation_row stored_event check_stored
    executable_event_profiles validate_mission_target validate_payload validate_mission_command
    encode_mission decode_mission encode_task decode_task Missions.publish Missions.create_new
    Missions.perform Missions.handle Missions.execute get_mission task_payload description
    evidence_refs validate_task_payload validate_work_command Work.publish Work.create_new
    Work.perform Work.handle Work.execute authorize check_expected Calls.publish replay answer
    Calls.handle require_mission answer_request run utf16_length sha256
calls = tt

task_is_there :
    (tasks fixed_host at_zero 0).find id1 (run fixed_host at_zero 0 requests empty)
    ≡ ok (some (new_task create_task))
unfolding calls
task_is_there = refl

-- Without its mission the task is refused.
task_without_mission :
    answer_request fixed_host at_zero 0 (work create_task.value moment) empty
    ≡ err (onyx not_found "mission not found")
unfolding calls
task_without_mission = refl
