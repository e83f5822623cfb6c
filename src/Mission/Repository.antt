-- ===== src/Mission/Repository.antt =====
-- src/mission/repository.ts: missions in a repository.
use onyx_ifem.Services.Store.{Repository, Entry}
use onyx_ifem.Services.Calls.{Aggregate}
use onyx_ifem.Mission.Types.{Mission}

-- `MissionRepository`, over a state `S`.
abbrev pub MissionRepository : Type 0 → Type 0
MissionRepository S = Repository Mission S

-- What `InMemoryMissionRepository` knows of a mission.
abbrev pub mission_entry : Entry Mission
mission_entry = record {
  name = "mission";
  id_of = λ m. m.mission_id;
  owner_of = λ m. m.organization_id;
}

-- What the events of a mission tell of it.
abbrev pub mission_aggregate : Aggregate Mission
mission_aggregate = record {
  aggregate_type = "Mission";
  head = λ m. record {
    object_id = m.mission_id;
    version = m.version;
    lifecycle_epoch = m.lifecycle_epoch;
    authority_epoch = m.authority_epoch;
  };
}
