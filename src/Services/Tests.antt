-- ===== src/Services/Tests.antt =====
-- The repository of the missions on the SQLite store, and the theorems of the durable repositories at it.
use onyx_ifem.Prelude.{◌≡◌, refl, true, none, [], arith, String, if◌then◌else◌, ◌==◌, some, ◌∷◌}
use onyx_ifem.Json.{Json, done}
use onyx_ifem.Contracts.Errors.{ok}
use onyx_ifem.Sqlite.Table.{first}
use onyx_ifem.Sqlite.Keys.{any}
use onyx_ifem.Sqlite.Instants.{Instant}
use onyx_ifem.Sqlite.StoredEvent.{mission_profile, lookup_profile, executable_event_profiles}
use onyx_ifem.Sqlite.Store.{
  Store, get_aggregate, commit, write_aggregate, insert_event, insert_operation, insert_outbox,
  aggregate_row, event_row, operation_row, outbox_row,
}
use onyx_ifem.Sqlite.Store.History.{IsConsistent}
use onyx_ifem.Services.Envelopes.{EventEnvelope}
use onyx_ifem.Services.Store.{OperationRecord, Repository, IsRecording}
use onyx_ifem.Services.Emitted.{IsEmitted}
use onyx_ifem.Services.Durable.{durable, commit_record, find-commit, durable-IsRecording}
use onyx_ifem.Services.Samples.{fixed_host, id1, id2, id3}
use onyx_ifem.Mission.Types.{Mission, draft}
use onyx_ifem.Mission.Repository.{mission_entry, mission_aggregate}
use onyx_ifem.Mission.Durable.{mission_codec}

abbrev empty : Store
empty = record { aggregates = []; events = []; operations = []; outbox = [] }

abbrev at_zero : String → Instant
at_zero _ = 0

abbrev planned : Mission
planned = record {
  mission_id = id1;
  organization_id = id2;
  owner_id = id1;
  objective = "run";
  title = none;
  initial_blueprint_id = none;
  settings = Json.object done;
  status = draft;
  version = 1;
  lifecycle_epoch = 0;
  authority_epoch = 0;
  active_blueprint_revision_id = none;
  submitted_blueprint_revision_id = none;
  timeline_id = none;
  revisions = [];
}

abbrev event : EventEnvelope
event = record { event_id = id3; aggregate_version = 1; value = Json.object done }

abbrev operation : OperationRecord
operation = record { fingerprint = "f"; event = event }

abbrev missions : Repository Mission Store
missions = durable fixed_host at_zero 0 "mission" mission_entry mission_aggregate mission_codec

abbrev created : Store
created =
    let r =
      commit_record fixed_host at_zero 0 "mission" mission_entry mission_aggregate mission_codec
        planned event id2 operation true in
    record {
      aggregates = aggregate_row r ∷ [];
      events = event_row r ∷ [];
      operations = operation_row r ∷ [];
      outbox = outbox_row at_zero 0 r ∷ [];
    }

writes : Unit {0}
unfolding get_aggregate first any commit write_aggregate insert_event insert_operation insert_outbox
writes = tt

empty-IsConsistent : IsConsistent empty
unfolding writes
empty-IsConsistent = record {
  unique_aggregates = tt;
  unique_versions = tt;
  unique_ids = tt;
  unique_messages = tt;
  gapless = λ c i n. ground arith;
  published = λ e. refl;
}

create_it : missions.commit planned event id2 operation true empty ≡ ok created
unfolding writes
create_it = refl

find-commit_example :
    missions.find id1 created
    ≡ (if (id1 == id1) then ok (some planned) else missions.find id1 empty)
find-commit_example =
    find-commit fixed_host at_zero 0 "mission" mission_entry mission_aggregate mission_codec planned
      event id2 operation true empty created id1 empty-IsConsistent create_it

has_profile : lookup_profile "mission" executable_event_profiles ≡ some mission_profile
unfolding executable_event_profiles
has_profile = refl

durable-IsRecording_example : IsRecording (IsEmitted fixed_host mission_profile) missions
durable-IsRecording_example =
    durable-IsRecording fixed_host at_zero 0 "mission" mission_entry mission_aggregate mission_codec
      mission_profile has_profile
