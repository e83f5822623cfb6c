-- ===== src/Reporting/Service/Tests.antt =====
-- A report that is submitted with verified evidence, and the theorem at that command; and evidence whose digest
-- stands in an array.
use onyx_ifem.Prelude.{◌≡◌, refl, some, none, false, [], ◌∷◌, String}
use onyx_ifem.Json.{Json, field, done, item, nil, sha256, utf16_length}
use onyx_ifem.Contracts.Errors.{Result, ok, err, onyx, invalid_argument, invalid_state_transition}
use onyx_ifem.Contracts.Checks.{
  object, exact_keys, has_unknown_keys, uuid, text, domain_object_ref, non_negative_integer,
  instant, actor_context, counters, vector_clock, test, matches,
}
use onyx_ifem.Contracts.Validation.{
  has_empty_scope, has_repeats, scope_list, authority_proof, validate_command_envelope,
  audit_metadata, validate_event_envelope, assert_emitted_event,
}
use onyx_ifem.Services.Envelopes.{CommandEnvelope, EventEnvelope}
use onyx_ifem.Services.Store.{InMemory, commit_entity, map_get, map_set}
use onyx_ifem.Services.Calls
use onyx_ifem.Services.Calls.{authorize, check_expected, replay, answer, event_of}
use onyx_ifem.Services.Samples.{fixed_host, id1, id2, id3, moment, command}
use onyx_ifem.Reporting.Types.{
  EvidenceStatus, added, verified, Report, draft, submitted, submit_report, in_memory_reports,
  report_aggregate, ReportingRepository,
}
use onyx_ifem.Reporting.Payloads.{
  report_payload, tested_text, content_hash, validate_report_payload, validate_reporting_command,
}
use onyx_ifem.Reporting.Commands.{has_evidence, set_status, some_verified, change}
use onyx_ifem.Reporting.Service.{
  check_loaded, publish, mutate, create_new, perform, handle, execute, create, get_report,
}
use onyx_ifem.Reporting.Service.Life.{IsSupported}
use onyx_ifem.Reporting.Service.Commits.{Commits, perform-Becomes, perform-IsSupported}

abbrev digest : String
digest = "00000000000000000000000000000000000000000000000000000000000000ff"

abbrev submit : CommandEnvelope
submit =
    command "SubmitReport" "Report" "reporting-evidence:submit" 1
      (field "report_id" (Json.text id1) (field "submission_note" (Json.text "done") done))

abbrev report : EvidenceStatus → Report
report status = record {
  report_id = id1;
  organization_id = id2;
  report_type = "type";
  subject_ref = Json.object done;
  author_id = id1;
  title = "title";
  version = 1;
  status = draft;
  lifecycle_epoch = 0;
  authority_epoch = 0;
  evidence =
      record {
        evidence_id = id3;
        evidence_type = "photo";
        uri = "file:1";
        content_hash = Json.text digest;
        description = none;
        status = status;
      }
      ∷ [];
}

abbrev store : EvidenceStatus → InMemory Report
store status = record { entities = (id1, report status) ∷ []; events = []; operations = [] }

abbrev no_check : String → Json → InMemory Report → Result (Unit {0})
no_check organization subject s = ok tt

abbrev reports : ReportingRepository (InMemory Report)
reports = in_memory_reports fixed_host

abbrev ready : Report
ready = record (report verified) { version = 2; status = submitted }

abbrev event : EventEnvelope
event =
    event_of fixed_host "replica" report_aggregate reports "ReportSubmitted" submit
      (report_aggregate.head ready) (Json.object (field "new_status" (Json.text "SUBMITTED") done))
      moment

abbrev next_store : InMemory Report
next_store = record {
  entities = (id1, ready) ∷ [];
  events = (id1, event ∷ []) ∷ [];
  operations = (id2, record { fingerprint = sha256 fixed_host submit.value; event = event }) ∷ [];
}

calls : Unit {0}
unfolding object exact_keys has_unknown_keys uuid text domain_object_ref non_negative_integer
    instant actor_context counters vector_clock test matches has_empty_scope has_repeats scope_list
    authority_proof validate_command_envelope audit_metadata validate_event_envelope
    assert_emitted_event report_payload tested_text content_hash validate_report_payload
    validate_reporting_command commit_entity map_get map_set has_evidence set_status some_verified
    change authorize check_expected check_loaded Calls.publish publish mutate create_new perform
    replay answer Calls.handle handle execute create get_report utf16_length sha256
calls = tt

performed :
    perform fixed_host "replica" no_check reports submit_report submit moment (store verified)
    ≡ ok (event, next_store)
unfolding calls
performed = refl

executed :
    execute fixed_host "replica" no_check reports submit.value moment (store verified)
    ≡ ok (event, next_store)
unfolding calls
executed = refl

unverified :
    execute fixed_host "replica" no_check reports submit.value moment (store added)
    ≡ err (onyx invalid_state_transition "at least one verified evidence item is required")
unfolding calls
unverified = refl

not_a_creation :
    create fixed_host "replica" no_check reports submit.value moment (store verified)
    ≡ err (onyx invalid_argument "CreateReport is required")
unfolding calls
not_a_creation = refl

-- The digest is tested as a text, so that an array of one digest passes.
array_of_digest : content_hash (some (Json.array (item (Json.text digest) nil))) ≡ ok tt
unfolding calls
array_of_digest = refl

perform-Becomes_example :
    Commits fixed_host "replica" no_check reports submit_report submit
      (store verified)
      event
      next_store
perform-Becomes_example =
    perform-Becomes fixed_host "replica" no_check reports submit_report submit moment
      (store verified) next_store event performed

found : reports.find id1 (store verified) ≡ ok (some (report verified))
unfolding calls
found = refl

perform-IsSupported_example :
    (r : Report) × IsSupported r
    × (reports.commit r event id2
          (record { fingerprint = sha256 fixed_host submit.value; event = event })
          false
          (store verified)
        ≡ ok next_store)
perform-IsSupported_example =
    perform-IsSupported fixed_host "replica" no_check reports submit_report submit moment
      (store verified) next_store event (some (report verified)) found refl performed
