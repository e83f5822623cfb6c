-- ===== src/Mission/Commands.antt =====
-- src/mission/service.ts: what each command asks for, does to the mission, and publishes.
use onyx_ifem.Prelude.{
  suc, Bool, false, not, ◌&&◌, ◌||◌, Option, none, some, String, List, [], ◌∷◌, ◌++◌, ◌==◌,
  if◌then◌else◌, is_some,
}
use onyx_ifem.Json.{Json, field, done, get}
use onyx_ifem.Contracts.Errors.{
  Result, ok, onyx, invalid_argument, version_conflict, ◌>>◌, throw_if,
}
use onyx_ifem.Sqlite.Table.{first}
use onyx_ifem.Services.Envelopes.{
  CommandEnvelope, text_of, natural_of, json_of, optional_text, at, authority,
}
use onyx_ifem.Mission.Types.{
  Mission, MissionStatus, draft, planning, awaiting_approval, active, paused, halted, review,
  closed, archived, cancelled, status_name, BlueprintRevision, CommandType, create_mission,
  create_blueprint_revision, submit_blueprint, activate_mission, pause_mission, resume_mission,
  operational_halt_mission, restart_mission, close_mission, cancel_mission, archive_mission,
  type_name,
}

abbrev pub is_revision : String → BlueprintRevision → Bool
is_revision i r = r.revision_id == i

-- `mission.revisions[id]` is there.
abbrev pub has_revision : String → Mission → Bool
has_revision i m = is_some (first (is_revision i) m.revisions)

-- `base_revision_id && !mission.revisions[base_revision_id]`
abbrev pub lacks_base : Option String → Mission → Bool
lacks_base none m = false
lacks_base (some i) m = not (i == "") && not (has_revision i m)

abbrev pub is_submitted : Option String → String → Bool
is_submitted none i = false
is_submitted (some s) i = s == i

-- The states that `#loadForMutation` is called with.
abbrev pub allowed_from : CommandType → List MissionStatus
allowed_from create_mission = []
allowed_from create_blueprint_revision = draft ∷ planning ∷ []
allowed_from submit_blueprint = draft ∷ planning ∷ []
allowed_from activate_mission = awaiting_approval ∷ []
allowed_from pause_mission = active ∷ []
allowed_from resume_mission = paused ∷ []
allowed_from operational_halt_mission = active ∷ paused ∷ []
allowed_from restart_mission = halted ∷ []
allowed_from close_mission = active ∷ paused ∷ halted ∷ review ∷ []
allowed_from cancel_mission =
    draft ∷ planning ∷ awaiting_approval ∷ active ∷ paused ∷ halted ∷ review ∷ []
allowed_from archive_mission = closed ∷ cancelled ∷ []

-- `allowed.includes(mission.status)`, by the names of the states.
abbrev pub includes_status : List MissionStatus → MissionStatus → Bool
includes_status [] s = false
includes_status (t ∷ ts) s = (status_name t == status_name s) || includes_status ts s

-- The scope that each command asks for.
abbrev pub scope_of : CommandType → String
scope_of create_mission = "mission:create"
scope_of create_blueprint_revision = "mission:blueprint:create"
scope_of submit_blueprint = "mission:blueprint:submit"
scope_of activate_mission = "mission:activate"
scope_of pause_mission = "mission:pause"
scope_of resume_mission = "mission:resume"
scope_of operational_halt_mission = "mission:halt"
scope_of restart_mission = "mission:restart"
scope_of close_mission = "mission:close"
scope_of cancel_mission = "mission:cancel"
scope_of archive_mission = "mission:archive"

-- The type of the event that each command publishes.
abbrev pub event_type_of : CommandType → String
event_type_of create_mission = "MissionCreated"
event_type_of create_blueprint_revision = "MissionBlueprintRevisionCreated"
event_type_of submit_blueprint = "MissionBlueprintSubmitted"
event_type_of activate_mission = "MissionActivated"
event_type_of pause_mission = "MissionPaused"
event_type_of resume_mission = "MissionResumed"
event_type_of operational_halt_mission = "MissionOperationallyHalted"
event_type_of restart_mission = "MissionRestarted"
event_type_of close_mission = "MissionClosed"
event_type_of cancel_mission = "MissionCancelled"
event_type_of archive_mission = "MissionArchived"

abbrev pub step_to : MissionStatus → Mission → Mission
step_to status m = record m { status = status; version = suc m.version }

-- The end of a period of the mission's life, which starts a new epoch.
abbrev pub end_epoch : MissionStatus → Mission → Mission
end_epoch status m = record m {
  status = status;
  version = suc m.version;
  lifecycle_epoch = suc m.lifecycle_epoch;
}

-- What each command does to the mission that it has loaded; `createMission` loads none.
unfoldable pub change : CommandType → CommandEnvelope → Mission → Result Mission
unfolding first
change create_mission c m = ok m
change create_blueprint_revision c m = do
  throw_if (has_revision (at "revision_id" c) m)
      (onyx version_conflict "blueprint revision already exists")
  throw_if (lacks_base (optional_text (get "base_revision_id" c.payload)) m)
      (onyx invalid_argument "base blueprint revision does not exist")
  ok (record (step_to planning m) {
    revisions =
        m.revisions
        ++ record {
          revision_id = at "revision_id" c;
          base_revision_id = optional_text (get "base_revision_id" c.payload);
          content = json_of (get "content" c.payload);
          change_summary = at "change_summary" c;
        }
          ∷ [];
  })
change submit_blueprint c m = do
  throw_if (not (has_revision (at "revision_id" c) m))
      (onyx invalid_argument "blueprint revision does not exist")
  ok (record (step_to awaiting_approval m) {
    submitted_blueprint_revision_id = some (at "revision_id" c);
  })
change activate_mission c m = do
  throw_if (not (is_submitted m.submitted_blueprint_revision_id (at "approved_revision_id" c)))
      (onyx invalid_argument "approved revision must match the submitted revision")
  ok (record (step_to active m) {
    active_blueprint_revision_id = some (at "approved_revision_id" c);
    timeline_id = some (at "timeline_id" c);
  })
change pause_mission c m = ok (step_to paused m)
change resume_mission c m = ok (step_to active m)
change operational_halt_mission c m = ok (step_to halted m)
change restart_mission c m = ok (record (end_epoch active m) {
  timeline_id =
      if is_some (get "timeline_id" c.payload) then some (at "timeline_id" c) else m.timeline_id;
})
change close_mission c m = ok (end_epoch closed m)
change cancel_mission c m = ok (end_epoch cancelled m)
change archive_mission c m = ok (step_to archived m)

-- The mission that `createMission` makes.
abbrev pub new_mission : CommandEnvelope → Mission
new_mission c = record {
  mission_id = at "mission_id" c;
  organization_id = text_of (get "organization_id" c.fields);
  owner_id = at "owner_id" c;
  objective = at "objective" c;
  title = optional_text (get "title" c.payload);
  initial_blueprint_id = optional_text (get "initial_blueprint_id" c.payload);
  settings = json_of (get "settings" c.payload);
  status = draft;
  version = 1;
  lifecycle_epoch = 0;
  authority_epoch = natural_of (get "authority_epoch" (authority c));
  active_blueprint_revision_id = none;
  submitted_blueprint_revision_id = none;
  timeline_id = none;
  revisions = [];
}

-- The payload of the event: the command's own, or the new state.
abbrev pub event_payload : CommandType → CommandEnvelope → Mission → Json
event_payload create_mission c m = Json.object c.payload
event_payload create_blueprint_revision c m = Json.object c.payload
event_payload submit_blueprint c m = Json.object c.payload
event_payload _ c m = Json.object (field "new_status" (Json.text (status_name m.status)) done)

-- The cases of the switch in `execute`.
abbrev types_in : List CommandType → String → Option CommandType
types_in [] s = none
types_in (type ∷ types) s = if type_name type == s then some type else types_in types s

abbrev pub type_of : String → Option CommandType
type_of = types_in (
    create_mission ∷ create_blueprint_revision ∷ submit_blueprint ∷ activate_mission ∷ pause_mission
    ∷ resume_mission ∷ operational_halt_mission ∷ restart_mission ∷ close_mission ∷ cancel_mission
    ∷ archive_mission ∷ [])
