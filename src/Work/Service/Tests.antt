-- ===== src/Work/Service/Tests.antt =====
-- A task that takes a dependency in the repository in memory, and the theorems at that command.
use onyx_ifem.Prelude.{
  List, Bool-cases, inl, inr, ◌≡◌, refl, none, String, [], ◌∷◌, if◌then◌else◌, ◌==◌,
}
use onyx_ifem.Json.{Json, field, done, sha256, utf16_length}
use onyx_ifem.Contracts.Errors.{Result, ok, err, onyx, idempotency_key_reuse, invalid_argument}
use onyx_ifem.Contracts.Checks.{
  object, exact_keys, has_unknown_keys, uuid, text, domain_object_ref, non_negative_integer,
  instant, actor_context, counters, vector_clock, test, matches,
}
use onyx_ifem.Contracts.Validation.{
  has_empty_scope, has_repeats, scope_list, authority_proof, validate_command_envelope,
  audit_metadata, validate_event_envelope, assert_emitted_event,
}
use onyx_ifem.Services.Envelopes.{CommandEnvelope, EventEnvelope}
use onyx_ifem.Services.Store.{InMemory, in_memory-IsRecording, commit_entity, map_get, map_set}
use onyx_ifem.Sqlite.StoredEvent.{task_profile}
use onyx_ifem.Services.Emitted.{IsEmitted}
use onyx_ifem.Services.Calls
use onyx_ifem.Services.Calls.{authorize, check_expected, replay, answer, event_of}
use onyx_ifem.Services.Samples.{fixed_host, id1, id2, id3, moment, command}
use onyx_ifem.Work.Types.{
  Task, draft, add_dependency, in_memory_tasks, task_entry, task_aggregate, WorkRepository,
}
use onyx_ifem.Work.Payloads.{
  task_payload, description, evidence_refs, validate_task_payload, validate_work_command,
}
use onyx_ifem.Work.Commands.{change, depend_on, says}
use onyx_ifem.Work.Service.{
  check_loaded, publish, mutate, create_new, link, perform, handle, execute, get_task,
}
use onyx_ifem.Services.Replay.{Answered, run_calls}
use onyx_ifem.Work.Service.Replay.{handle_twice}
use onyx_ifem.Work.Service.Commits.{Commits, Edited, perform-Commits}
use onyx_ifem.Work.Service.Links.{Lookup, AllLinked, IsLinked, Puts, put-AllLinked}
use onyx_ifem.Services.Keyed.{in_memory-IsKeyed}
use onyx_ifem.Work.Service.Graph.{IsSound, run, run-IsSound}

abbrev depend : CommandEnvelope
depend =
    command "AddDependency" "Task" "work:dependency:add" 1
      (field "task_id" (Json.text id1) (field "dependency_task_id" (Json.text id3) done))

abbrev task : String → Task
task i = record {
  task_id = i;
  organization_id = id2;
  mission_id = id2;
  title = "title";
  description = "";
  owner_id = id1;
  priority = "high";
  due_date_ref = none;
  estimate = none;
  status = draft;
  version = 1;
  lifecycle_epoch = 0;
  authority_epoch = 0;
  dependency_task_ids = [];
}

abbrev store : InMemory Task
store = record { entities = (id1, task id1) ∷ (id3, task id3) ∷ []; events = []; operations = [] }

abbrev no_check : String → String → InMemory Task → Result (Unit {0})
no_check organization mission s = ok tt

abbrev tasks : WorkRepository (InMemory Task)
tasks = in_memory_tasks fixed_host

abbrev dependent : Task
dependent = record (task id1) { version = 2; dependency_task_ids = id3 ∷ [] }

abbrev event : EventEnvelope
event =
    event_of fixed_host "replica" task_aggregate tasks "TaskDependencyAdded" depend
      (task_aggregate.head dependent) (says "dependency_task_id" id3) moment

abbrev next_store : InMemory Task
next_store = record {
  entities = (id1, dependent) ∷ (id3, task id3) ∷ [];
  events = (id1, event ∷ []) ∷ [];
  operations = (id2, record { fingerprint = sha256 fixed_host depend.value; event = event }) ∷ [];
}

calls : Unit {0}
unfolding object exact_keys has_unknown_keys uuid text domain_object_ref non_negative_integer
    instant actor_context counters vector_clock test matches has_empty_scope has_repeats scope_list
    authority_proof validate_command_envelope audit_metadata validate_event_envelope
    assert_emitted_event task_payload description evidence_refs validate_task_payload
    validate_work_command commit_entity map_get map_set change depend_on authorize check_expected
    check_loaded Calls.publish publish mutate create_new link perform replay answer Calls.handle
    handle execute get_task utf16_length sha256
calls = tt

valid : validate_work_command fixed_host add_dependency depend.value ≡ ok depend
unfolding calls
valid = refl

performed :
    perform fixed_host "replica" no_check tasks add_dependency depend moment store
    ≡ ok (event, next_store)
unfolding calls
performed = refl

handled :
    handle fixed_host "replica" no_check tasks add_dependency depend.value moment store
    ≡ ok (event, next_store)
unfolding calls
handled = refl

executed :
    execute fixed_host "replica" no_check tasks depend.value moment store ≡ ok (event, next_store)
unfolding calls
executed = refl

unknown_type :
    execute fixed_host "replica" no_check tasks
      ((command "PaintTask" "Task" "work:paint" 1 done).value)
      moment
      store
    ≡ err (onyx invalid_argument "command is not implemented")
unfolding calls
unknown_type = refl

abbrev start : CommandEnvelope
start =
    command "StartTask" "Task" "work:start" 1
      (field "task_id" (Json.text id1) (field "start_note" (Json.text "go") done))

abbrev later : InMemory Task
later =
    run_calls fixed_host "replica" task_aggregate tasks
      (execute fixed_host "replica" no_check tasks) ((start.value, moment) ∷ []) next_store

handle_twice_example :
    Answered fixed_host "replica" task_aggregate tasks depend event later
    × (handle fixed_host "replica" no_check tasks add_dependency depend.value moment later ≡ (
        if (sha256 fixed_host depend.value == sha256 fixed_host depend.value)
        then ok (event, later)
        else err (onyx idempotency_key_reuse "operation_id was reused with a different command")))
handle_twice_example =
    handle_twice fixed_host "replica" no_check tasks
      (in_memory-IsRecording fixed_host task_entry (IsEmitted fixed_host task_profile))
      add_dependency add_dependency depend.value depend.value depend depend moment moment
      ((start.value, moment) ∷ []) store next_store event valid handled valid refl

perform-Commits_example :
    Commits fixed_host "replica" no_check tasks add_dependency
      (Edited fixed_host "replica" no_check tasks add_dependency depend store)
      depend
      store
      event
      next_store
perform-Commits_example =
    perform-Commits fixed_host "replica" no_check tasks add_dependency depend moment store
      next_store event refl performed

free-IsLinked : (lookup : Lookup) (i : String) → IsLinked lookup i (task i)
unfolding has_repeats
free-IsLinked lookup i = record {
  is_key = refl;
  not_self = refl;
  distinct = refl;
  linked = λ d h. cc;
}

abbrev lookup_of : List (String × Task) → Lookup
lookup_of ts i = ok (map_get i ts)

put_first :
    (i : String) (ts : List (String × Task))
    → Puts i (task i) (lookup_of ts) (lookup_of ((i, task i) ∷ ts))
unfolding map_get
put_first i ts d = elim (Bool-cases (i == d)) [ inl e ↦ rw e refl | inr e ↦ rw e refl ]

store-AllLinked : AllLinked (lookup_of store.entities)
unfolding map_get
store-AllLinked =
    put-AllLinked (lookup_of ((id3, task id3) ∷ [])) (lookup_of store.entities) id1 (task id1)
      (put_first id1 ((id3, task id3) ∷ [])) (λ u h. cc) (free-IsLinked _ id1)
      (put-AllLinked (lookup_of []) (lookup_of ((id3, task id3) ∷ [])) id3 (task id3)
        (put_first id3 []) (λ u h. cc) (free-IsLinked _ id3) (λ i t h. cc))

store-IsSound :
    IsSound
      (λ _. Unit {0})
      fixed_host
      "replica"
      no_check
      tasks
      (in_memory-IsRecording fixed_host task_entry (IsEmitted fixed_host task_profile))
      (in_memory-IsKeyed fixed_host task_entry task_aggregate)
      store
store-IsSound = record { is_valid = tt; all_linked = store-AllLinked }

run-IsSound_example :
    IsSound
      (λ _. Unit {0})
      fixed_host
      "replica"
      no_check
      tasks
      (in_memory-IsRecording fixed_host task_entry (IsEmitted fixed_host task_profile))
      (in_memory-IsKeyed fixed_host task_entry task_aggregate)
      (run
        (λ _. Unit {0})
        fixed_host
        "replica"
        no_check
        tasks
        (in_memory-IsRecording fixed_host task_entry (IsEmitted fixed_host task_profile))
        (in_memory-IsKeyed fixed_host task_entry task_aggregate)
        ((depend.value, moment) ∷ [])
        store)
run-IsSound_example =
    run-IsSound (λ _. Unit {0}) fixed_host "replica" no_check tasks
      (in_memory-IsRecording fixed_host task_entry (IsEmitted fixed_host task_profile))
      (in_memory-IsKeyed fixed_host task_entry task_aggregate) ((depend.value, moment) ∷ []) store
      store-IsSound
