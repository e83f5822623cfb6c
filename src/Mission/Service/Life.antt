-- ===== src/Mission/Service/Life.antt =====
-- The life of a mission: the diagram of its states, and what a command that succeeds has made of the mission
-- that it found.
use onyx_ifem.Prelude.{
  is_some, suc, ◌≡◌, refl, sym, ap, ◌∙◌, subst, Bool, true, false, not, Option, none, some, String,
  arith, ◌==◌, if◌then◌else◌, eq_of_==,
}
use onyx_ifem.Json.{Host, sha256, get}
use onyx_ifem.Contracts.Errors.{ok, >>=-eq-ok, throw_if-eq-ok, ok-injective}
use onyx_ifem.Services.Envelopes.{
  CommandEnvelope, EventEnvelope, Moment, optional_natural, at, authority, operation_id,
  organization_id, differs,
}
use onyx_ifem.Mission.Types.{
  MissionView, CommandType, create_mission, create_blueprint_revision, submit_blueprint,
  activate_mission, pause_mission, resume_mission, operational_halt_mission, restart_mission,
  close_mission, cancel_mission, archive_mission, Mission, MissionStatus, draft, planning,
  awaiting_approval, active, paused, halted, review, closed, archived, cancelled,
}
use onyx_ifem.Mission.Commands.{
  new_mission, event_type_of, scope_of, event_payload, change, allowed_from, includes_status,
}
use onyx_ifem.Services.Calls.{found_in, authorize, check_expected}
use onyx_ifem.Services.Publication.{found_in-eq-ok, publish-eq-ok, check_expected-version}
use onyx_ifem.Mission.Repository.{MissionRepository, mission_aggregate}
use onyx_ifem.Mission.Service.{get_mission, create_new, mutate, publish, check_loaded}

-- The diagram: which command leads from which state to which.
pub data Leads : MissionStatus → CommandType → MissionStatus → Type 0 where
  plans : Leads draft create_blueprint_revision planning
  plans_more : Leads planning create_blueprint_revision planning
  submits_draft : Leads draft submit_blueprint awaiting_approval
  submits : Leads planning submit_blueprint awaiting_approval
  activates : Leads awaiting_approval activate_mission active
  pauses : Leads active pause_mission paused
  resumes : Leads paused resume_mission active
  halts : Leads active operational_halt_mission halted
  halts_paused : Leads paused operational_halt_mission halted
  restarts : Leads halted restart_mission active
  closes : Leads active close_mission closed
  closes_paused : Leads paused close_mission closed
  closes_halted : Leads halted close_mission closed
  closes_reviewed : Leads review close_mission closed
  cancels_draft : Leads draft cancel_mission cancelled
  cancels_plan : Leads planning cancel_mission cancelled
  cancels_submitted : Leads awaiting_approval cancel_mission cancelled
  cancels : Leads active cancel_mission cancelled
  cancels_paused : Leads paused cancel_mission cancelled
  cancels_halted : Leads halted cancel_mission cancelled
  cancels_reviewed : Leads review cancel_mission cancelled
  archives : Leads closed archive_mission archived
  archives_cancelled : Leads cancelled archive_mission archived

abbrev target_of : CommandType → MissionStatus
target_of create_mission = draft
target_of create_blueprint_revision = planning
target_of submit_blueprint = awaiting_approval
target_of activate_mission = active
target_of pause_mission = paused
target_of resume_mission = active
target_of operational_halt_mission = halted
target_of restart_mission = active
target_of close_mission = closed
target_of cancel_mission = cancelled
target_of archive_mission = archived

Leads-target_of :
    (type : CommandType) (s : MissionStatus)
    → includes_status (allowed_from type) s ≡ true
    → Leads s type (target_of type)
Leads-target_of create_blueprint_revision draft h = plans
Leads-target_of create_blueprint_revision planning h = plans_more
Leads-target_of submit_blueprint draft h = submits_draft
Leads-target_of submit_blueprint planning h = submits
Leads-target_of activate_mission awaiting_approval h = activates
Leads-target_of pause_mission active h = pauses
Leads-target_of resume_mission paused h = resumes
Leads-target_of operational_halt_mission active h = halts
Leads-target_of operational_halt_mission paused h = halts_paused
Leads-target_of restart_mission halted h = restarts
Leads-target_of close_mission active h = closes
Leads-target_of close_mission paused h = closes_paused
Leads-target_of close_mission halted h = closes_halted
Leads-target_of close_mission review h = closes_reviewed
Leads-target_of cancel_mission draft h = cancels_draft
Leads-target_of cancel_mission planning h = cancels_plan
Leads-target_of cancel_mission awaiting_approval h = cancels_submitted
Leads-target_of cancel_mission active h = cancels
Leads-target_of cancel_mission paused h = cancels_paused
Leads-target_of cancel_mission halted h = cancels_halted
Leads-target_of cancel_mission review h = cancels_reviewed
Leads-target_of archive_mission closed h = archives
Leads-target_of archive_mission cancelled h = archives_cancelled
Leads-target_of type s h = cc

-- The commands that end a period of a mission's life.
abbrev pub ends_epoch : CommandType → Bool
ends_epoch restart_mission = true
ends_epoch close_mission = true
ends_epoch cancel_mission = true
ends_epoch _ = false

-- One step of a mission's life.
pub record IsStep (type : CommandType) (m m' : Mission) : Type 0 where
  pub leads : Leads m.status type m'.status
  pub next_version : m'.version ≡ suc m.version
  pub next_epoch :
      m'.lifecycle_epoch ≡ (if ends_epoch type then suc m.lifecycle_epoch else m.lifecycle_epoch)
  pub same_mission : m'.mission_id ≡ m.mission_id
  pub same_organization : m'.organization_id ≡ m.organization_id
  pub same_authority : m'.authority_epoch ≡ m.authority_epoch

-- What `change` keeps and sets, apart from the revisions.
abbrev Changed : CommandType → Mission → Mission → Type 0
Changed type m m' =
    (m'.status ≡ target_of type)
    × (m'.version ≡ suc m.version)
    × (m'.lifecycle_epoch ≡ (if ends_epoch type then suc m.lifecycle_epoch else m.lifecycle_epoch))
    × (m'.mission_id ≡ m.mission_id)
    × (m'.organization_id ≡ m.organization_id)
    × (m'.authority_epoch ≡ m.authority_epoch)

by_equation :
    (type : CommandType) (m : Mission) {m' k : Mission}
    → Changed type m k
    → k ≡ m'
    → Changed type m m'
by_equation type m c e = subst (Changed type m) e c

change-Changed :
    (type : CommandType) (c : CommandEnvelope) (m m' : Mission)
    → includes_status (allowed_from type) m.status ≡ true
    → change type c m ≡ ok m'
    → Changed type m m'
unfolding change
change-Changed create_mission c m m' a h = cc
change-Changed create_blueprint_revision c m m' a h = ground (arith, h)
change-Changed submit_blueprint c m m' a h = ground (arith, h)
change-Changed activate_mission c m m' a h = ground (arith, h)
change-Changed type c m m' a h =
    by_equation type m (refl, refl, refl, refl, refl, refl) (ok-injective h)

change-IsStep :
    (type : CommandType) (c : CommandEnvelope) (m m' : Mission)
    → includes_status (allowed_from type) m.status ≡ true
    → change type c m ≡ ok m'
    → IsStep type m m'
change-IsStep type c m m' a h =
    let (to, version, epoch, mission, organization, authority) = change-Changed type c m m' a h in
    record {
      leads = subst (Leads m.status type) (sym to) (Leads-target_of type m.status a);
      next_version = version;
      next_epoch = epoch;
      same_mission = mission;
      same_organization = organization;
      same_authority = authority;
    }

not-eq-false : (b : Bool) → not b ≡ false → b ≡ true
not-eq-false true h = refl
not-eq-false false h = cc

none_of : (found : Option Mission) → is_some found ≡ false → found ≡ none
none_of none h = refl
none_of (some m) h = cc

module _ {S : Type 0} (host : Host) (replica : String) (repository : MissionRepository S) where
  open repository use {find, commit}

  pub check_loaded-eq-ok :
      (type : CommandType) (c : CommandEnvelope) (found : Option Mission) (m : Mission)
      → check_loaded host replica repository type c found ≡ ok m
      → (found ≡ some m)
        × ((m.organization_id == organization_id c) ≡ true)
        × (differs (optional_natural (get "expected_version" c.fields)) m.version ≡ false)
        × (includes_status (allowed_from type) m.status ≡ true)
  unfolding check_loaded
  check_loaded-eq-ok type c none m h = cc
  check_loaded-eq-ok type c (some k) m h =
      let (o, h1) = throw_if-eq-ok (not (k.organization_id == organization_id c)) _ _ h in
      let (_, e, h2) = >>=-eq-ok (check_expected c (mission_aggregate.head k)) _ h1 in
      let v = check_expected-version c (mission_aggregate.head k) e in
      let (a, h3) = throw_if-eq-ok (not (includes_status (allowed_from type) k.status)) _ _ h2 in
      let same : k ≡ m = ok-injective h3 in
      subst
        (λ x.
          (some k ≡ some x)
          × ((x.organization_id == organization_id c) ≡ true)
          × (differs (optional_natural (get "expected_version" c.fields)) x.version ≡ false)
          × (includes_status (allowed_from type) x.status ≡ true))
        same (refl, not-eq-false _ o, v, not-eq-false _ a)

  pub get_mission-eq-ok :
      (organization i : String) (s : S) (view : MissionView)
      → get_mission host replica repository organization i s ≡ ok view
      → (m : Mission) × (find i s ≡ ok (some m)) × (m.organization_id ≡ organization)
  unfolding get_mission
  get_mission-eq-ok organization i s view h =
      let (found, e1, h1) = >>=-eq-ok (find i s) _ h in
      let (m, e2, _) =
        >>=-eq-ok (found_in (λ x. x.organization_id) "mission" organization found) _ h1 in
      let (there, mine) =
        found_in-eq-ok (λ x. x.organization_id) "mission" organization found m e2 in
      (m, e1 ∙ ap ok there, mine)

  -- A creation has found no mission, and commits the new one.
  pub create_new-eq-ok :
      (c : CommandEnvelope) (moment : Moment) (s s' : S) (event : EventEnvelope)
      → create_new host replica repository c moment s ≡ ok (event, s')
      → (find (at "mission_id" c) s ≡ ok none)
        × (event.aggregate_version ≡ 1)
        × (commit
              (new_mission c)
              event
              (operation_id c)
              (record { fingerprint = sha256 host c.value; event = event })
              true
              s
            ≡ ok s')
  unfolding create_new publish
  create_new-eq-ok c moment s s' event h =
      let (_, _, h1) = >>=-eq-ok (authorize host (scope_of create_mission) c moment) _ h in
      let (_, h2) =
        throw_if-eq-ok (differs (optional_natural (get "expected_version" c.fields)) 0) _ _ h1 in
      let (found, e3, h3) = >>=-eq-ok (find (at "mission_id" c) s) _ h2 in
      let (absent, h4) = throw_if-eq-ok (is_some found) _ _ h3 in
      let (version, committed) =
        publish-eq-ok host replica mission_aggregate repository (event_type_of create_mission) c
          (new_mission c) (event_payload create_mission c (new_mission c)) true moment s s' event
          h4 in
      (e3 ∙ ap ok (none_of found absent), version, committed)

  -- A command on a mission that succeeds has found the mission, of the command's organization and at the
  -- version that the command expects if it expects one, and has committed one step of the mission's life: a
  -- transition of the diagram, the next version, and the next lifecycle epoch exactly if the command
  -- restarts, closes or cancels; with an event of that version, under the command's operation id and
  -- fingerprint. The identity, the organization and the authority epoch stay.
  pub mutate-IsStep :
      (type : CommandType) (c : CommandEnvelope) (moment : Moment) (s s' : S)
      (event : EventEnvelope)
      → mutate host replica repository type c moment s ≡ ok (event, s')
      → (m : Mission) × (m' : Mission) × (find (at "mission_id" c) s ≡ ok (some m))
        × (m.organization_id ≡ organization_id c)
        × (differs (optional_natural (get "expected_version" c.fields)) m.version ≡ false)
        × IsStep type m m'
        × (event.aggregate_version ≡ m'.version)
        × (commit m' event
              (operation_id c)
              (record { fingerprint = sha256 host c.value; event = event })
              false
              s
            ≡ ok s')
  unfolding mutate publish
  mutate-IsStep type c moment s s' event h =
      let (_, _, h1) = >>=-eq-ok (authorize host (scope_of type) c moment) _ h in
      let (found, e1, h2) = >>=-eq-ok (find (at "mission_id" c) s) _ h1 in
      let (m, e2, h3) = >>=-eq-ok (check_loaded host replica repository type c found) _ h2 in
      let (m', e3, h4) = >>=-eq-ok (change type c m) _ h3 in
      let (there, organization, version, allowed) = check_loaded-eq-ok type c found m e2 in
      let (at_version, committed) =
        publish-eq-ok host replica mission_aggregate repository (event_type_of type) c m'
          (event_payload type c m') false moment s s' event h4 in
      (
        m,
        m',
        e1 ∙ ap ok there,
        eq_of_== m.organization_id (organization_id c) organization,
        version,
        change-IsStep type c m m' allowed e3,
        at_version,
        committed,
      )
