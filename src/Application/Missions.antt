-- ===== src/Application/Missions.antt =====
-- What a mission command that succeeds has committed to the store.
use onyx_ifem.Prelude.{
  ◌≡◌, refl, sym, ap, ◌∙◌, Bool, true, false, none, some, String, ◌⊎◌, inl, inr, ℕ, Option-cases,
}
use onyx_ifem.Json.{Json, Host, sha256}
use onyx_ifem.Contracts.Errors.{ok, ok-injective}
use onyx_ifem.Sqlite.Instants.{Instant}
use onyx_ifem.Sqlite.StoredEvent.{mission_profile, executable_event_profiles}
use onyx_ifem.Sqlite.Store.{Store}
use onyx_ifem.Services.Envelopes.{operation_id, CommandEnvelope, EventEnvelope, Moment, at}
use onyx_ifem.Services.Store.{OperationRecord, IsRecording}
use onyx_ifem.Services.Emitted.{IsEmitted}
use onyx_ifem.Services.Replay.{handle-eq-ok}
use onyx_ifem.Services.Durable.{durable-IsRecording}
use onyx_ifem.Mission.Types.{Mission, CommandType, create_mission}
use onyx_ifem.Mission.Commands.{new_mission}
use onyx_ifem.Mission.Payloads.{validate_mission_command}
use onyx_ifem.Mission.Repository.{mission_entry, mission_aggregate}
use onyx_ifem.Mission.Durable.{mission_codec}
use onyx_ifem.Mission.Service.{execute, handle, perform, mutate, create_new, command_type}
use onyx_ifem.Mission.Service.Replay.{perform-Records}
use onyx_ifem.Mission.Service.Life.{mutate-IsStep, create_new-eq-ok}
use onyx_ifem.Application.{missions}

some-injective : {x y : Mission} → some x ≡ some y → x ≡ y
some-injective h = cc

missions-IsRecording :
    (host : Host) (place : String → Instant) (now : ℕ)
    → IsRecording (IsEmitted host mission_profile) (missions host place now)
unfolding executable_event_profiles
missions-IsRecording host place now =
    durable-IsRecording host place now "mission" mission_entry mission_aggregate mission_codec
      mission_profile refl

module _ (host : Host) (place : String → Instant) (now : ℕ) where
  -- Every mission stands under its id.
  abbrev pub AllKeyed : Store → Type 0
  AllKeyed s =
      (i : String) (m : Mission)
      → (missions host place now).find i s ≡ ok (some m)
      → m.mission_id ≡ i

  -- A commit of a mission that stays in the organization of the one that it replaces.
  abbrev pub CommitsMission : Store → Store → Type 0
  CommitsMission s s' =
      (m : Mission) × (event : EventEnvelope) × (o : String) × (operation : OperationRecord)
      × (create : Bool) × ((missions host place now).commit m event o operation create s ≡ ok s')
      × (event.aggregate_version ≡ m.version)
      × (create ≡ true → m.version ≡ 1)
      × ((k : Mission)
          → (missions host place now).find m.mission_id s ≡ ok (some k)
          → m.organization_id ≡ k.organization_id)

  mutate-CommitsMission :
      (type : CommandType) (c : CommandEnvelope) (moment : Moment) (s s' : Store)
      (event : EventEnvelope)
      → AllKeyed s
      → mutate host "mission-api" (missions host place now) type c moment s ≡ ok (event, s')
      → CommitsMission s s'
  mutate-CommitsMission type c moment s s' event keyed h =
      let (m, m', found, _, _, step, version, committed) =
        mutate-IsStep host "mission-api" (missions host place now) type c moment s s' event h in
      let key : m'.mission_id ≡ at "mission_id" c = step.same_mission ∙ keyed _ m found in
      (
        m',
        event,
        operation_id c,
        record { fingerprint = sha256 host c.value; event = event },
        false,
        committed,
        version,
        λ e. cc,
        λ k there.
            let same : some m ≡ some k =
              ok-injective
                (sym found ∙ ap (λ i. (missions host place now).find i s) (sym key) ∙ there) in
            step.same_organization ∙ ap (λ x. x.organization_id) (some-injective same),
      )

  create_new-CommitsMission :
      (c : CommandEnvelope) (moment : Moment) (s s' : Store) (event : EventEnvelope)
      → create_new host "mission-api" (missions host place now) c moment s ≡ ok (event, s')
      → CommitsMission s s'
  create_new-CommitsMission c moment s s' event h =
      let (absent, version, committed) =
        create_new-eq-ok host "mission-api" (missions host place now) c moment s s' event h in
      (
        new_mission c,
        event,
        operation_id c,
        record { fingerprint = sha256 host c.value; event = event },
        true,
        committed,
        version,
        λ _. refl,
        λ k there. let clash : some k ≡ none = ok-injective (sym there ∙ absent) in cc,
      )

  perform-CommitsMission :
      (type : CommandType) (c : CommandEnvelope) (moment : Moment) (s s' : Store)
      (event : EventEnvelope)
      → AllKeyed s
      → perform host "mission-api" (missions host place now) type c moment s ≡ ok (event, s')
      → CommitsMission s s'
  unfolding perform
  perform-CommitsMission create_mission c moment s s' event keyed h =
      create_new-CommitsMission c moment s s' event h
  perform-CommitsMission type c moment s s' event keyed h =
      mutate-CommitsMission type c moment s s' event keyed h

  -- A request to the missions that succeeds leaves the store or has committed a mission.
  pub execute-CommitsMission :
      (input : Json) (moment : Moment) (s s' : Store) (event : EventEnvelope)
      → AllKeyed s
      → execute host "mission-api" (missions host place now) input moment s ≡ ok (event, s')
      → (s' ≡ s) ⊎ CommitsMission s s'
  unfolding execute handle
  execute-CommitsMission input moment s s' event keyed h =
      elim (Option-cases (command_type host "mission-api" (missions host place now) input)) [
        | inl unknown ↦ let k = (rw (unknown, execute) at h) in cc
        | inr (type, known) ↦
            elim (handle-eq-ok host "mission-api" mission_aggregate (missions host place now)
              (validate_mission_command host type)
              (perform host "mission-api" (missions host place now) type)
              (perform-Records host "mission-api" (missions host place now)
                (missions-IsRecording host place now) type)
              input moment s s' event (rw (known, execute) at h)) [
                | inl same ↦ inl same
                | inr (c, done_) ↦ inr (perform-CommitsMission type c moment s s' event keyed done_)
              ]
      ]
