-- ===== src/Mission/Types.antt =====
-- src/mission/types.ts: a mission, its blueprint revisions, and its commands.
use onyx_ifem.Prelude.{ℕ, Option, String, List}
use onyx_ifem.Json.{Json}

pub data MissionStatus : Type 0 where
  draft planning awaiting_approval active paused halted review closed archived cancelled :
      MissionStatus

abbrev pub status_name : MissionStatus → String
status_name draft = "DRAFT"
status_name planning = "PLANNING"
status_name awaiting_approval = "AWAITING_APPROVAL"
status_name active = "ACTIVE"
status_name paused = "PAUSED"
status_name halted = "HALTED"
status_name review = "REVIEW"
status_name closed = "CLOSED"
status_name archived = "ARCHIVED"
status_name cancelled = "CANCELLED"

pub record BlueprintRevision : Type 0 where
  pub revision_id : String
  pub base_revision_id : Option String
  pub content : Json
  pub change_summary : String

-- `revisions` lists the entries of the record, the key being the `revision_id` of its value.
pub record Mission : Type 0 where
  pub mission_id : String
  pub organization_id : String
  pub owner_id : String
  pub objective : String
  pub title : Option String
  pub initial_blueprint_id : Option String
  pub settings : Json
  pub status : MissionStatus
  pub version : ℕ
  pub lifecycle_epoch : ℕ
  pub authority_epoch : ℕ
  pub active_blueprint_revision_id : Option String
  pub submitted_blueprint_revision_id : Option String
  pub timeline_id : Option String
  pub revisions : List BlueprintRevision

pub data CommandType : Type 0 where
  create_mission create_blueprint_revision submit_blueprint activate_mission pause_mission :
      CommandType
  resume_mission operational_halt_mission restart_mission close_mission cancel_mission : CommandType
  archive_mission : CommandType

abbrev pub type_name : CommandType → String
type_name create_mission = "CreateMission"
type_name create_blueprint_revision = "CreateBlueprintRevision"
type_name submit_blueprint = "SubmitBlueprint"
type_name activate_mission = "ActivateMission"
type_name pause_mission = "PauseMission"
type_name resume_mission = "ResumeMission"
type_name operational_halt_mission = "OperationalHaltMission"
type_name restart_mission = "RestartMission"
type_name close_mission = "CloseMission"
type_name cancel_mission = "CancelMission"
type_name archive_mission = "ArchiveMission"

-- `MissionView` and `toMissionView`
pub record MissionView : Type 0 where
  pub mission_id : String
  pub organization_id : String
  pub objective : String
  pub owner_id : String
  pub status : MissionStatus
  pub version : ℕ
  pub lifecycle_epoch : ℕ
  pub authority_epoch : ℕ
  pub title : Option String
  pub active_blueprint_revision_id : Option String
  pub timeline_id : Option String

abbrev pub to_mission_view : Mission → MissionView
to_mission_view m = record {
  mission_id = m.mission_id;
  organization_id = m.organization_id;
  objective = m.objective;
  owner_id = m.owner_id;
  status = m.status;
  version = m.version;
  lifecycle_epoch = m.lifecycle_epoch;
  authority_epoch = m.authority_epoch;
  title = m.title;
  active_blueprint_revision_id = m.active_blueprint_revision_id;
  timeline_id = m.timeline_id;
}
