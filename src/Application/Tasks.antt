-- ===== src/Application/Tasks.antt =====
-- What a task command that succeeds has committed to the store.
use onyx_ifem.Prelude.{
  ◌≡◌, refl, sym, ap, ◌∙◌, Bool, true, false, some, String, ◌⊎◌, inl, inr, ℕ, Option-cases,
}
use onyx_ifem.Json.{Json, Host, sha256}
use onyx_ifem.Contracts.Errors.{ok, >>=-eq-ok}
use onyx_ifem.Contracts.Validation.{validate_command_envelope}
use onyx_ifem.Sqlite.Instants.{Instant}
use onyx_ifem.Sqlite.StoredEvent.{task_profile, executable_event_profiles}
use onyx_ifem.Sqlite.Store.{Store}
use onyx_ifem.Services.Envelopes.{
  CommandEnvelope, EventEnvelope, Moment, at, operation_id, organization_id,
}
use onyx_ifem.Services.Store.{OperationRecord, IsRecording}
use onyx_ifem.Services.Emitted.{IsEmitted}
use onyx_ifem.Services.Replay.{handle-eq-ok}
use onyx_ifem.Services.Durable.{durable-IsRecording}
use onyx_ifem.Mission.Types.{Mission}
use onyx_ifem.Mission.Service.{get_mission}
use onyx_ifem.Mission.Service.Life.{get_mission-eq-ok}
use onyx_ifem.Work.Types.{Task, WorkCommandType, create_task, task_entry, task_aggregate}
use onyx_ifem.Work.Commands.{type_of, new_task}
use onyx_ifem.Work.Payloads.{validate_work_command}
use onyx_ifem.Work.Durable.{task_codec}
use onyx_ifem.Work.Service.{execute, handle, perform, command_type, next_version}
use onyx_ifem.Work.Service.Replay.{perform-Records}
use onyx_ifem.Work.Service.Life.{is_creation}
use onyx_ifem.Work.Service.Commits.{perform-Commits, create_new-eq-ok, Edited-same}
use onyx_ifem.Application.{missions, tasks, require_mission}

pub tasks-IsRecording :
    (host : Host) (place : String → Instant) (now : ℕ)
    → IsRecording (IsEmitted host task_profile) (tasks host place now)
unfolding executable_event_profiles
tasks-IsRecording host place now =
    durable-IsRecording host place now "work" task_entry task_aggregate task_codec task_profile refl

module _ (host : Host) (place : String → Instant) (now : ℕ) where
  -- The mission of a task is there, in the task's organization.
  abbrev pub IsHoused : Task → Store → Type 0
  IsHoused t s =
      (m : Mission) × ((missions host place now).find t.mission_id s ≡ ok (some m))
      × (m.organization_id ≡ t.organization_id)

  abbrev pub AllHoused : Store → Type 0
  AllHoused s =
      (i : String) (t : Task) → (tasks host place now).find i s ≡ ok (some t) → IsHoused t s

  -- A commit of a task whose mission is there.
  abbrev pub CommitsTask : Store → Store → Type 0
  CommitsTask s s' =
      (t : Task) × (event : EventEnvelope) × (o : String) × (operation : OperationRecord)
      × (create : Bool) × ((tasks host place now).commit t event o operation create s ≡ ok s')
      × IsHoused t s

  require_mission-eq-ok :
      (organization i : String) (s : Store)
      → require_mission host place now organization i s ≡ ok tt
      → (m : Mission) × ((missions host place now).find i s ≡ ok (some m))
        × (m.organization_id ≡ organization)
  unfolding require_mission
  require_mission-eq-ok organization i s h =
      let (view, e, _) =
        >>=-eq-ok (get_mission host "mission-api" (missions host place now) organization i s) _ h in
      get_mission-eq-ok host "mission-api" (missions host place now) organization i s view e

  update-CommitsTask :
      (type : WorkCommandType) (c : CommandEnvelope) (moment : Moment) (s s' : Store)
      (event : EventEnvelope)
      → is_creation type ≡ false
      → AllHoused s
      → perform host "work-api"
          (require_mission host place now)
          (tasks host place now)
          type
          c
          moment
          s
        ≡ ok (event, s')
      → CommitsTask s s'
  update-CommitsTask type c moment s s' event old housed h =
      let (t, t', there, _, _, _, edited, _, committed) =
        perform-Commits host "work-api" (require_mission host place now) (tasks host place now) type
          c moment s s' event old h in
      let (mission, organization) =
        Edited-same host "work-api" (require_mission host place now) (tasks host place now) type c s
          t t' edited in
      let (m, found, mine) = housed (at "task_id" c) t there in
      (
        next_version t',
        event,
        operation_id c,
        record { fingerprint = sha256 host c.value; event = event },
        false,
        committed,
        (m, ap (λ i. (missions host place now).find i s) mission ∙ found, mine ∙ sym organization),
      )

  perform-CommitsTask :
      (type : WorkCommandType) (c : CommandEnvelope) (moment : Moment) (s s' : Store)
      (event : EventEnvelope)
      → AllHoused s
      → perform host "work-api"
          (require_mission host place now)
          (tasks host place now)
          type
          c
          moment
          s
        ≡ ok (event, s')
      → CommitsTask s s'
  unfolding perform
  perform-CommitsTask create_task c moment s s' event housed h =
      let (_, required, _, committed) =
        create_new-eq-ok host "work-api" (require_mission host place now) (tasks host place now) c
          moment s s' event h in
      (
        new_task c,
        event,
        operation_id c,
        record { fingerprint = sha256 host c.value; event = event },
        true,
        committed,
        require_mission-eq-ok (organization_id c) (at "mission_id" c) s required,
      )
  perform-CommitsTask type c moment s s' event housed h =
      update-CommitsTask type c moment s s' event refl housed h

  -- A request to the tasks that succeeds leaves the store or has committed a task whose mission is there.
  pub execute-CommitsTask :
      (input : Json) (moment : Moment) (s s' : Store) (event : EventEnvelope)
      → AllHoused s
      → execute host "work-api"
          (require_mission host place now)
          (tasks host place now)
          input
          moment
          s
        ≡ ok (event, s')
      → (s' ≡ s) ⊎ CommitsTask s s'
  unfolding execute handle
  execute-CommitsTask input moment s s' event housed h =
      elim (Option-cases (type_of (command_type input))) [
        | inl unknown ↦
            let (_, _, k) =
              >>=-eq-ok (validate_command_envelope host input (command_type input) "Task") _
                (rw (unknown, execute) at h) in
            cc
        | inr (type, known) ↦
            elim (handle-eq-ok host "work-api" task_aggregate (tasks host place now)
              (validate_work_command host type)
              (perform host "work-api" (require_mission host place now) (tasks host place now) type)
              (perform-Records host "work-api" (require_mission host place now)
                (tasks host place now) (tasks-IsRecording host place now) type)
              input moment s s' event (rw (known, execute) at h)) [
                | inl same ↦ inl same
                | inr (c, done_) ↦ inr (perform-CommitsTask type c moment s s' event housed done_)
              ]
      ]
