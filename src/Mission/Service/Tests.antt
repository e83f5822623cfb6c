-- ===== src/Mission/Service/Tests.antt =====
-- A pause of an active mission in the repository in memory, and the theorems at that command.
use onyx_ifem.Prelude.{◌≡◌, refl, true, false, none, some, String, [], ◌∷◌, if◌then◌else◌, ◌==◌}
use onyx_ifem.Json.{Json, Fields, field, done, item, nil, Host, sha256, get, utf16_length}
use onyx_ifem.Contracts.Errors.{ok, err, onyx, idempotency_key_reuse, not_found}
use onyx_ifem.Contracts.Checks.{
  object, exact_keys, has_unknown_keys, uuid, text, domain_object_ref, non_negative_integer,
  instant, actor_context, counters, vector_clock, test, matches,
}
use onyx_ifem.Contracts.Validation.{
  has_empty_scope, has_repeats, scope_list, authority_proof, validate_command_envelope,
  audit_metadata, validate_event_envelope, assert_emitted_event,
}
use onyx_ifem.Sqlite.Table.{first}
use onyx_ifem.Services.Envelopes.{
  CommandEnvelope, EventEnvelope, Moment, optional_natural, at, operation_id, organization_id,
  differs,
}
use onyx_ifem.Mission.Types.{Mission, active, paused, pause_mission}
use onyx_ifem.Mission.Payloads.{validate_mission_target, validate_payload, validate_mission_command}
use onyx_ifem.Mission.Commands.{change, event_payload}
use onyx_ifem.Services.Store.{
  InMemory, in_memory, in_memory-IsRecording, commit_entity, map_get, map_set,
}
use onyx_ifem.Sqlite.StoredEvent.{mission_profile}
use onyx_ifem.Services.Emitted.{IsEmitted}
use onyx_ifem.Services.Calls
use onyx_ifem.Services.Calls.{authorize, check_expected, replay, answer, event_of}
use onyx_ifem.Mission.Repository.{mission_entry, mission_aggregate}
use onyx_ifem.Mission.Service.{
  check_loaded, publish, mutate, create_new, perform, handle, execute, get_mission,
}
use onyx_ifem.Services.Replay.{Answered, run_calls}
use onyx_ifem.Services.Samples.{command}
use onyx_ifem.Mission.Service.Replay.{handle-handle}
use onyx_ifem.Mission.Service.Life.{IsStep, mutate-IsStep}
use onyx_ifem.Mission.Service.Plans.{IsPlanned, mutate-IsPlanned}

abbrev fixed_host : Host
fixed_host = record {
  stringify = λ _. "{}";
  locale_le = λ _ _. true;
  digest = λ _. "0000000000000000000000000000000000000000000000000000000000000000";
  date_parse = λ _. some 1000;
}

abbrev id1 : String
id1 = "018f1c2a-7b3d-7abc-8def-000000000001"

abbrev id2 : String
id2 = "018f1c2a-7b3d-7abc-8def-000000000002"

abbrev noon : String
noon = "2026-07-29T12:00:00.000000Z"

abbrev payload : Fields
payload =
    field "mission_id" (Json.text id1)
      (field "reason_code" (Json.text "CHECK") (field "reason" (Json.text "a check") done))

abbrev pause_fields : Fields
pause_fields = field "command_id" (Json.text id1) (
    field "operation_id" (Json.text id2) (
      field "command_type" (Json.text "PauseMission") (
        field "schema_version" (Json.natural 1) (
          field "organization_id" (Json.text id2) (
            field "target"
              (Json.object (
                field "aggregate_type" (Json.text "Mission")
                  (field "object_id" (Json.text id1) done)))
              (field "expected_version" (Json.natural 4) (
                field "actor_context"
                  (Json.object (
                    field "principal_id" (Json.text id1)
                      (field "actor_type" (Json.text "USER") done)))
                  (field "authority_proof"
                    (Json.object (
                      field "proof_ref" (Json.text "proof") (
                        field "scope" (Json.array (item (Json.text "mission:pause") nil)) (
                          field "expires_at" (Json.text noon)
                            (field "authority_epoch" (Json.natural 0) done)))))
                    (field "issued_at" (Json.text noon) (
                      field "vector_clock" (Json.object (field "replica" (Json.natural 3) done)) (
                        field "correlation_id" (Json.text id1)
                          (field "payload" (Json.object payload) done))))))))))))

abbrev pause : CommandEnvelope
pause = record { value = Json.object pause_fields; fields = pause_fields; payload = payload }

abbrev running : Mission
running = record {
  mission_id = id1;
  organization_id = id2;
  owner_id = id1;
  objective = "run";
  title = none;
  initial_blueprint_id = none;
  settings = Json.object done;
  status = active;
  version = 4;
  lifecycle_epoch = 0;
  authority_epoch = 0;
  active_blueprint_revision_id = some id2;
  submitted_blueprint_revision_id = some id2;
  timeline_id = some id2;
  revisions =
      record {
        revision_id = id2;
        base_revision_id = none;
        content = Json.null;
        change_summary = "first";
      }
      ∷ [];
}

abbrev store : InMemory Mission
store = record { entities = (id1, running) ∷ []; events = []; operations = [] }

abbrev moment : Moment
moment = record { authorized_at = 10; occurred_at = noon; event_id = id2 }

abbrev paused_mission : Mission
paused_mission = record running { status = paused; version = 5 }

abbrev event : EventEnvelope
event =
    event_of fixed_host "replica" mission_aggregate (in_memory fixed_host mission_entry)
      "MissionPaused" pause (mission_aggregate.head paused_mission)
      (event_payload pause_mission pause paused_mission) moment

abbrev paused_store : InMemory Mission
paused_store = record {
  entities = (id1, paused_mission) ∷ [];
  events = (id1, event ∷ []) ∷ [];
  operations = (id2, record { fingerprint = sha256 fixed_host pause.value; event = event }) ∷ [];
}

calls : Unit {0}
unfolding object exact_keys has_unknown_keys uuid text domain_object_ref non_negative_integer
    instant actor_context counters vector_clock test matches has_empty_scope has_repeats scope_list
    authority_proof validate_command_envelope audit_metadata validate_event_envelope
    assert_emitted_event first validate_mission_target validate_payload validate_mission_command
    commit_entity map_get map_set change authorize check_expected check_loaded Calls.publish publish
    mutate create_new perform replay answer Calls.handle handle execute get_mission utf16_length
    sha256
calls = tt

valid : validate_mission_command fixed_host pause_mission pause.value ≡ ok pause
unfolding calls
valid = refl

mutated :
    mutate fixed_host "replica"
      (in_memory fixed_host mission_entry)
      pause_mission
      pause
      moment
      store
    ≡ ok (event, paused_store)
unfolding calls
mutated = refl

handled :
    handle fixed_host "replica"
      (in_memory fixed_host mission_entry)
      pause_mission
      pause.value
      moment
      store
    ≡ ok (event, paused_store)
unfolding calls
handled = refl

executed :
    execute fixed_host "replica" (in_memory fixed_host mission_entry) pause.value moment store
    ≡ ok (event, paused_store)
unfolding calls
executed = refl

unknown_mission :
    get_mission fixed_host "replica" (in_memory fixed_host mission_entry) id1 id1 store
    ≡ err (onyx not_found "mission not found")
unfolding calls
unknown_mission = refl

abbrev resume : CommandEnvelope
resume =
    command "ResumeMission" "Mission" "mission:resume" 5
      (field "mission_id" (Json.text id1) (field "resume_note" (Json.text "go") done))

abbrev again : InMemory Mission
again =
    run_calls fixed_host "replica" mission_aggregate (in_memory fixed_host mission_entry)
      (execute fixed_host "replica" (in_memory fixed_host mission_entry))
      ((resume.value, moment) ∷ []) paused_store

handle-handle_example :
    Answered fixed_host "replica" mission_aggregate
      (in_memory fixed_host mission_entry)
      pause
      event
      again
    × (handle fixed_host "replica"
          (in_memory fixed_host mission_entry)
          pause_mission
          pause.value
          moment
          again
        ≡ (if (sha256 fixed_host pause.value == sha256 fixed_host pause.value)
            then ok (event, again)
            else err
                (onyx idempotency_key_reuse "operation_id was reused with a different command")))
handle-handle_example =
    handle-handle fixed_host "replica" (in_memory fixed_host mission_entry)
      (in_memory-IsRecording fixed_host mission_entry (IsEmitted fixed_host mission_profile))
      pause_mission pause_mission pause.value pause.value pause pause moment moment
      ((resume.value, moment) ∷ []) store paused_store event valid handled valid refl

mutate-IsStep_example :
    (m : Mission) × (m' : Mission) × ((in_memory fixed_host mission_entry).find
        (at "mission_id" pause)
        store
      ≡ ok (some m))
    × (m.organization_id ≡ organization_id pause)
    × (differs (optional_natural (get "expected_version" pause.fields)) m.version ≡ false)
    × IsStep pause_mission m m'
    × (event.aggregate_version ≡ m'.version)
    × ((in_memory fixed_host mission_entry).commit m' event
          (operation_id pause)
          (record { fingerprint = sha256 fixed_host pause.value; event = event })
          false
          store
        ≡ ok paused_store)
mutate-IsStep_example =
    mutate-IsStep fixed_host "replica" (in_memory fixed_host mission_entry) pause_mission pause
      moment store paused_store event mutated

find_running :
    (in_memory fixed_host mission_entry).find (at "mission_id" pause) store ≡ ok (some running)
unfolding calls
find_running = refl

running-IsPlanned : IsPlanned running
unfolding calls
running-IsPlanned = record { awaiting = refl; running = refl }

mutate-IsPlanned_example :
    (m' : Mission) × IsPlanned m'
    × ((in_memory fixed_host mission_entry).commit m' event
          (operation_id pause)
          (record { fingerprint = sha256 fixed_host pause.value; event = event })
          false
          store
        ≡ ok paused_store)
mutate-IsPlanned_example =
    mutate-IsPlanned fixed_host "replica" (in_memory fixed_host mission_entry) pause_mission pause
      moment store paused_store event running find_running running-IsPlanned mutated
