-- ===== src/Mission/Service/Replay.antt =====
-- A command that is sent again is answered as it was the first time.
use onyx_ifem.Prelude.{
  ◌≡◌, refl, includes, ◌==◌, is_some, if◌then◌else◌, Bool, true, false, String, List, Option-cases,
  inl, inr, arith,
}
use onyx_ifem.Json.{Json, Host, sha256, get}
use onyx_ifem.Contracts.Errors.{
  ok, err, >>=-eq-ok, throw_if, onyx, version_conflict, idempotency_key_reuse,
}
use onyx_ifem.Sqlite.StoredEvent.{mission_profile}
use onyx_ifem.Services.Envelopes.{
  CommandEnvelope, EventEnvelope, Moment, at, operation_id, optional_natural, differs,
}
use onyx_ifem.Services.Store.{IsRecording, KeepsOperations}
use onyx_ifem.Services.Calls.{authorize}
use onyx_ifem.Services.Replay.{
  Answered, Recorded, Records, handle-Answered, handle-KeepsOperations, handle_again, run_calls,
  run_calls-KeepsOperations,
}
use onyx_ifem.Services.Emitted.{IsEmitted}
use onyx_ifem.Services.Publication.{publish-Recorded}
use onyx_ifem.Mission.Types.{
  CommandType, create_mission, create_blueprint_revision, submit_blueprint, activate_mission,
  pause_mission, resume_mission, operational_halt_mission, restart_mission, close_mission,
  cancel_mission, archive_mission, Mission,
}
use onyx_ifem.Mission.Commands.{event_type_of, change, new_mission, scope_of, event_payload}
use onyx_ifem.Mission.Payloads.{validate_mission_command}
use onyx_ifem.Mission.Repository.{MissionRepository, mission_aggregate}
use onyx_ifem.Mission.Service.{
  execute, command_type, handle, perform, publish, mutate, create_new, check_loaded,
}

in_profile : (type : CommandType) → includes mission_profile.event_types (event_type_of type) ≡ true
in_profile create_mission = refl
in_profile create_blueprint_revision = refl
in_profile submit_blueprint = refl
in_profile activate_mission = refl
in_profile pause_mission = refl
in_profile resume_mission = refl
in_profile operational_halt_mission = refl
in_profile restart_mission = refl
in_profile close_mission = refl
in_profile cancel_mission = refl
in_profile archive_mission = refl

module _ {S : Type 0} (host : Host) (replica : String) (repository : MissionRepository S)
    (recording : IsRecording (IsEmitted host mission_profile) repository) where
  published :
      (type : CommandType) (c : CommandEnvelope) (m : Mission) (create : Bool) (moment : Moment)
      (s s' : S) (event : EventEnvelope)
      → publish host replica repository type c m create moment s ≡ ok (event, s')
      → Recorded host replica mission_aggregate repository c event s s'
  unfolding publish
  published type c m create moment s s' event h =
      publish-Recorded host replica mission_aggregate repository mission_profile refl recording
        (event_type_of type) c m (event_payload type c m) create moment s s' event (in_profile type)
        h

  mutate-Records :
      (type : CommandType)
      → Records host replica mission_aggregate repository (mutate host replica repository type)
  unfolding mutate
  mutate-Records type c moment s s' event h =
      let (_, _, h1) = >>=-eq-ok (authorize host (scope_of type) c moment) _ h in
      let (found, _, h2) = >>=-eq-ok (repository.find (at "mission_id" c) s) _ h1 in
      let (m, _, h3) = >>=-eq-ok (check_loaded host replica repository type c found) _ h2 in
      let (m', _, h4) = >>=-eq-ok (change type c m) _ h3 in
      published type c m' false moment s s' event h4

  create_new-Records :
      Records host replica mission_aggregate repository (create_new host replica repository)
  unfolding create_new
  create_new-Records c moment s s' event h =
      let (_, _, h1) = >>=-eq-ok (authorize host (scope_of create_mission) c moment) _ h in
      let (_, _, h2) =
        >>=-eq-ok
          (throw_if (differs (optional_natural (get "expected_version" c.fields)) 0)
            (onyx version_conflict "a new mission must expect version 0"))
          _ h1 in
      let (found, _, h3) = >>=-eq-ok (repository.find (at "mission_id" c) s) _ h2 in
      let (_, _, h4) =
        >>=-eq-ok (throw_if (is_some found) (onyx version_conflict "mission already exists")) _
          h3 in
      published create_mission c (new_mission c) true moment s s' event h4

  pub perform-Records :
      (type : CommandType)
      → Records host replica mission_aggregate repository (perform host replica repository type)
  unfolding perform
  perform-Records create_mission c moment s s' event h = create_new-Records c moment s s' event h
  perform-Records type c moment s s' event h = mutate-Records type c moment s s' event h

  execute-KeepsOperations :
      (input : Json) (moment : Moment) (s s' : S) (event : EventEnvelope)
      → execute host replica repository input moment s ≡ ok (event, s')
      → KeepsOperations repository s s'
  unfolding execute handle
  execute-KeepsOperations input moment s s' event h =
      elim (Option-cases (command_type host replica repository input)) [
        | inl unknown ↦ absurd (ground (arith, (rw (unknown, execute) at h)))
        | inr (type, known) ↦
            handle-KeepsOperations host replica mission_aggregate repository
              (validate_mission_command host type) (perform host replica repository type)
              (perform-Records type) input moment s s' event (rw (known, execute) at h)
      ]

  -- A command that has succeeded has recorded its operation, with its fingerprint and its event, and the record stays
  -- whatever inputs the service executes after it. After any of them, every valid command with the same operation
  -- id leaves the state: if it has the fingerprint of the first, it is answered with the first one's event, and if
  -- not, it fails with IDEMPOTENCY_KEY_REUSE.
  pub handle-handle :
      (type type' : CommandType) (input input' : Json) (c c' : CommandEnvelope)
      (moment later : Moment) (between : List (Json × Moment)) (s s' : S) (event : EventEnvelope)
      → validate_mission_command host type input ≡ ok c
      → handle host replica repository type input moment s ≡ ok (event, s')
      → validate_mission_command host type' input' ≡ ok c'
      → operation_id c' ≡ operation_id c
      → let t =
          run_calls host replica mission_aggregate repository
            (execute host replica repository)
            between
            s' in
        Answered host replica mission_aggregate repository c event t
        × (handle host replica repository type' input' later t ≡ (
            if (sha256 host c.value == sha256 host c'.value)
            then ok (event, t)
            else err
                (onyx idempotency_key_reuse "operation_id was reused with a different command")))
  unfolding handle
  handle-handle type type' input input' c c' moment later between s s' event valid h valid' same =
      let t =
        run_calls host replica mission_aggregate repository (execute host replica repository)
          between s' in
      let answered : Answered host replica mission_aggregate repository c event t =
        run_calls-KeepsOperations host replica mission_aggregate repository
          (execute host replica repository) execute-KeepsOperations between s' (operation_id c) _
          (handle-Answered host replica mission_aggregate repository
            (validate_mission_command host type) (perform host replica repository type)
            (perform-Records type) input c moment s s' event valid h) in
      (
        answered,
        handle_again host replica mission_aggregate repository (validate_mission_command host type')
            (perform host replica repository type') input' c c' later t event answered valid' same,
      )
