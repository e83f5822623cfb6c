-- ===== src/Work/Service/Replay.antt =====
-- A command that is sent again is answered as it was the first time.
use onyx_ifem.Prelude.{
  ◌≡◌, refl, includes, ◌==◌, is_some, if◌then◌else◌, Bool, true, false, String, List, Option-cases,
  inl, inr,
}
use onyx_ifem.Json.{Json, Host, sha256, get}
use onyx_ifem.Contracts.Errors.{
  Result, ok, err, >>=-eq-ok, throw_if-eq-ok, onyx, idempotency_key_reuse,
}
use onyx_ifem.Sqlite.StoredEvent.{task_profile}
use onyx_ifem.Services.Envelopes.{
  CommandEnvelope, EventEnvelope, Moment, at, operation_id, optional_natural, differs,
  organization_id,
}
use onyx_ifem.Services.Store.{IsRecording, KeepsOperations}
use onyx_ifem.Services.Calls.{authorize, found_in}
use onyx_ifem.Services.Replay.{
  Answered, Recorded, Records, handle-Answered, handle-KeepsOperations, handle_again, run_calls,
  run_calls-KeepsOperations,
}
use onyx_ifem.Services.Emitted.{IsEmitted}
use onyx_ifem.Services.Publication.{publish-Recorded}
use onyx_ifem.Work.Types.{
  WorkCommandType, create_task, assign_owner, change_priority, add_dependency, start_task,
  pause_task, block_task, submit_completion, approve_task, reopen_task, close_task, cancel_task,
  Task, WorkRepository, task_aggregate,
}
use onyx_ifem.Work.Commands.{event_type_of, change, new_task, scope_of, depend_on, type_of}
use onyx_ifem.Contracts.Validation.{validate_command_envelope}
use onyx_ifem.Work.Payloads.{validate_work_command}
use onyx_ifem.Work.Service.{
  execute, command_type, handle, perform, publish, mutate, create_new, link, check_loaded,
  next_version,
}

in_profile :
    (type : WorkCommandType) → includes task_profile.event_types (event_type_of type) ≡ true
in_profile create_task = refl
in_profile assign_owner = refl
in_profile change_priority = refl
in_profile add_dependency = refl
in_profile start_task = refl
in_profile pause_task = refl
in_profile block_task = refl
in_profile submit_completion = refl
in_profile approve_task = refl
in_profile reopen_task = refl
in_profile close_task = refl
in_profile cancel_task = refl

module _ {S : Type 0} (host : Host) (replica : String)
    (require_mission : String → String → S → Result (Unit {0})) (repository : WorkRepository S)
    (recording : IsRecording (IsEmitted host task_profile) repository) where
  open repository use {find}

  published :
      (type : WorkCommandType) (c : CommandEnvelope) (t : Task) (payload : Json) (create : Bool)
      (moment : Moment) (s s' : S) (event : EventEnvelope)
      → publish host replica require_mission repository type c t payload create moment s
        ≡ ok (event, s')
      → Recorded host replica task_aggregate repository c event s s'
  unfolding publish
  published type c t payload create moment s s' event h =
      publish-Recorded host replica task_aggregate repository task_profile refl recording
        (event_type_of type) c t payload create moment s s' event (in_profile type) h

  mutate-Records :
      (type : WorkCommandType) (change_ : Task → Result (Task × Json))
      → Records host replica task_aggregate repository
          (mutate host replica require_mission repository type change_)
  unfolding mutate
  mutate-Records type change_ c moment s s' event h =
      let (_, _, h1) = >>=-eq-ok (authorize host (scope_of type) c moment) _ h in
      let (found, _, h2) = >>=-eq-ok (find (at "task_id" c) s) _ h1 in
      let (t, _, h3) =
        >>=-eq-ok (check_loaded host replica require_mission repository type c found) _ h2 in
      let ((t', payload), _, h4) = >>=-eq-ok (change_ t) _ h3 in
      published type c (next_version t') payload false moment s s' event h4

  create_new-Records :
      Records host replica task_aggregate repository
        (create_new host replica require_mission repository)
  unfolding create_new
  create_new-Records c moment s s' event h =
      let (_, _, h1) = >>=-eq-ok (authorize host (scope_of create_task) c moment) _ h in
      let (_, h2) =
        throw_if-eq-ok (differs (optional_natural (get "expected_version" c.fields)) 0) _ _ h1 in
      let (found, _, h3) = >>=-eq-ok (find (at "task_id" c) s) _ h2 in
      let (_, h4) = throw_if-eq-ok (is_some found) _ _ h3 in
      let (_, _, h5) = >>=-eq-ok (require_mission (organization_id c) (at "mission_id" c) s) _ h4 in
      published create_task c (new_task c) (Json.object c.payload) true moment s s' event h5

  link-Records :
      Records host replica task_aggregate repository (link host replica require_mission repository)
  unfolding link
  link-Records c moment s s' event h =
      let (_, h1) = throw_if-eq-ok (at "task_id" c == at "dependency_task_id" c) _ _ h in
      let (found, _, h2) = >>=-eq-ok (find (at "dependency_task_id" c) s) _ h1 in
      let (dependency, _, h3) =
        >>=-eq-ok (found_in (λ t. t.organization_id) "dependency task" (organization_id c) found) _
          h2 in
      mutate-Records add_dependency (depend_on dependency) c moment s s' event h3

  pub perform-Records :
      (type : WorkCommandType)
      → Records host replica task_aggregate repository
          (perform host replica require_mission repository type)
  unfolding perform
  perform-Records create_task c moment s s' event h = create_new-Records c moment s s' event h
  perform-Records add_dependency c moment s s' event h = link-Records c moment s s' event h
  perform-Records type c moment s s' event h =
      mutate-Records type (λ t. ok (change type c t)) c moment s s' event h

  execute-KeepsOperations :
      (input : Json) (moment : Moment) (s s' : S) (event : EventEnvelope)
      → execute host replica require_mission repository input moment s ≡ ok (event, s')
      → KeepsOperations repository s s'
  unfolding execute handle
  execute-KeepsOperations input moment s s' event h =
      elim (Option-cases (type_of (command_type input))) [
        | inl unknown ↦
            let (_, _, k) =
              >>=-eq-ok (validate_command_envelope host input (command_type input) "Task") _
                (rw (unknown, execute) at h) in
            cc
        | inr (type, known) ↦
            handle-KeepsOperations host replica task_aggregate repository
              (validate_work_command host type)
              (perform host replica require_mission repository type) (perform-Records type) input
              moment s s' event (rw (known, execute) at h)
      ]

  -- A command on tasks that has succeeded has recorded its operation, with its fingerprint and its event, and the record stays
  -- whatever inputs the service executes after it. After any of them, every valid command with the same operation
  -- id leaves the state: if it has the fingerprint of the first, it is answered with the first one's event, and if
  -- not, it fails with IDEMPOTENCY_KEY_REUSE.
  pub handle_twice :
      (type type' : WorkCommandType) (input input' : Json) (c c' : CommandEnvelope)
      (moment later : Moment) (between : List (Json × Moment)) (s s' : S) (event : EventEnvelope)
      → validate_work_command host type input ≡ ok c
      → handle host replica require_mission repository type input moment s ≡ ok (event, s')
      → validate_work_command host type' input' ≡ ok c'
      → operation_id c' ≡ operation_id c
      → let t =
          run_calls host replica task_aggregate repository
            (execute host replica require_mission repository)
            between
            s' in
        Answered host replica task_aggregate repository c event t
        × (handle host replica require_mission repository type' input' later t ≡ (
            if (sha256 host c.value == sha256 host c'.value)
            then ok (event, t)
            else err
                (onyx idempotency_key_reuse "operation_id was reused with a different command")))
  unfolding handle
  handle_twice type type' input input' c c' moment later between s s' event valid h valid' same =
      let t =
        run_calls host replica task_aggregate repository
          (execute host replica require_mission repository) between s' in
      let answered : Answered host replica task_aggregate repository c event t =
        run_calls-KeepsOperations host replica task_aggregate repository
          (execute host replica require_mission repository) execute-KeepsOperations between s'
          (operation_id c) _
          (handle-Answered host replica task_aggregate repository (validate_work_command host type)
            (perform host replica require_mission repository type) (perform-Records type) input c
            moment s s' event valid h) in
      (
        answered,
        handle_again host replica task_aggregate repository (validate_work_command host type')
            (perform host replica require_mission repository type') input' c c' later t event
            answered valid' same,
      )
