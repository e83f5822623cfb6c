-- ===== src/Mission/Service.antt =====
-- src/mission/service.ts: the service's calls. All commands begin alike, with the validation of the input and
-- the replay of an operation that is recorded; `perform` is what each does then.
pub mod Replay
pub mod Life
pub mod Plans
mod Tests
use onyx_ifem.Prelude.{
  ℕ, suc, ◌+◌, Bool, true, false, not, ◌&&◌, ◌||◌, Option, none, some, String, List, [], ◌∷◌, ◌++◌,
  map, ltb, leb, eqb, ◌==◌, if◌then◌else◌, is_none, is_some, includes, or_else,
}
use Prim.Native.String.{◌++◌ as ◌<>◌}
use onyx_ifem.Json.{Json, Fields, field, done, Host, get, with_key, sha256}
use onyx_ifem.Contracts.Errors.{
  Result, ok, err, onyx, invalid_argument, version_conflict, not_found, organization_mismatch,
  lifecycle_epoch_mismatch, authority_epoch_mismatch, invalid_state_transition,
  authority_proof_invalid, idempotency_key_reuse, ◌>>=◌, ◌>>◌, throw_if,
}
use onyx_ifem.Contracts.Validation.{assert_emitted_event}
use onyx_ifem.Sqlite.Table.{first}
use onyx_ifem.Services.Envelopes.{
  CommandEnvelope, EventEnvelope, Moment, text_of, natural_of, fields_of, texts_of, json_of,
  optional_text, optional_natural, at, authority, operation_id, organization_id, is_expired,
  differs, advance_clock,
}
use onyx_ifem.Mission.Types.{
  Mission, MissionStatus, draft, planning, awaiting_approval, active, paused, halted, review,
  closed, archived, cancelled, status_name, BlueprintRevision, CommandType, create_mission,
  create_blueprint_revision, submit_blueprint, activate_mission, pause_mission, resume_mission,
  operational_halt_mission, restart_mission, close_mission, cancel_mission, archive_mission,
  type_name, MissionView, to_mission_view,
}
use onyx_ifem.Mission.Payloads.{validate_mission_command}
use onyx_ifem.Services.Calls
use onyx_ifem.Services.Calls.{authorize, check_expected, check_history, found_in}
use onyx_ifem.Mission.Repository.{MissionRepository, mission_aggregate}
use onyx_ifem.Mission.Commands.{
  allowed_from, includes_status, scope_of, event_type_of, change, new_mission, event_payload,
  type_of,
}

module _ {S : Type 0} (host : Host) (replica : String) (repository : MissionRepository S) where
  open repository use {find}

  -- The checks of `#loadForMutation` on the mission that it has found.
  unfoldable pub check_loaded : CommandType → CommandEnvelope → Option Mission → Result Mission
  unfolding check_expected
  check_loaded type c none = err (onyx not_found "mission not found")
  check_loaded type c (some m) = do
    throw_if (not (m.organization_id == organization_id c))
        (onyx organization_mismatch "mission belongs to another organization")
    check_expected c (mission_aggregate.head m)
    throw_if (not (includes_status (allowed_from type) m.status)) (
        onyx invalid_state_transition
          (type_name type <> (" is not valid from " <> status_name m.status)))
    ok m

  -- `#publish`
  unfoldable pub publish :
      CommandType
      → CommandEnvelope
      → Mission
      → (create : Bool) → Moment
      → S
      → Result (EventEnvelope × S)
  unfolding Calls.publish
  publish type c m =
      Calls.publish host replica mission_aggregate repository (event_type_of type) c m
        (event_payload type c m)

  -- `#loadForMutation`, the change and `#publish`, of every command but the first.
  unfoldable pub mutate : CommandType → CommandEnvelope → Moment → S → Result (EventEnvelope × S)
  unfolding authorize check_loaded publish
  mutate type c moment s = do
    authorize host (scope_of type) c moment
    found ← find (at "mission_id" c) s
    mission ← check_loaded type c found
    mission' ← change type c mission
    publish type c mission' false moment s

  -- `createMission` after its replay.
  unfoldable pub create_new : CommandEnvelope → Moment → S → Result (EventEnvelope × S)
  unfolding authorize publish
  create_new c moment s = do
    authorize host (scope_of create_mission) c moment
    throw_if (differs (optional_natural (get "expected_version" c.fields)) 0)
        (onyx version_conflict "a new mission must expect version 0")
    found ← find (at "mission_id" c) s
    throw_if (is_some found) (onyx version_conflict "mission already exists")
    publish create_mission c (new_mission c) true moment s

  unfoldable pub perform : CommandType → CommandEnvelope → Moment → S → Result (EventEnvelope × S)
  unfolding create_new mutate
  perform create_mission c moment s = create_new c moment s
  perform type c moment s = mutate type c moment s

  -- The call of one type: `createMission`, `pauseMission` and so on.
  unfoldable pub handle : CommandType → Json → Moment → S → Result (EventEnvelope × S)
  unfolding Calls.handle
  handle type =
      Calls.handle host replica mission_aggregate repository (validate_mission_command host type)
        (perform type)

  -- The type that `execute` switches on.
  abbrev pub command_type : Json → Option CommandType
  command_type (Json.object fs) = type_of (text_of (get "command_type" fs))
  command_type _ = none

  unfoldable pub execute : Json → Moment → S → Result (EventEnvelope × S)
  unfolding handle
  execute input moment s = elim (command_type input) [
    | some type ↦ handle type input moment s
    | none ↦
        err (onyx invalid_argument "command is not implemented or does not have a frozen payload")
  ]

  -- `getMission`
  unfoldable pub get_mission : String → String → S → Result MissionView
  get_mission organization i s = do
    found ← find i s
    m ← found_in (λ x. x.organization_id) "mission" organization found
    ok (to_mission_view m)

  -- `listMissions`
  unfoldable pub list_views : String → Option String → ℕ → S → Result (List MissionView)
  list_views organization after limit s = do
    missions ← repository.list organization after limit s
    ok (map to_mission_view missions)

  unfoldable pub get_history : String → String → ℕ → ℕ → S → Result (List EventEnvelope)
  unfolding get_mission
  get_history organization i after limit s = do
    view ← get_mission organization i s
    check_history limit
    repository.history i after limit s
