-- ===== src/Mission/Service/Plans.antt =====
-- What a mission in progress has: an approved blueprint revision and a timeline.
use onyx_ifem.Prelude.{
  ◌≡◌, refl, sym, ◌∙◌, subst, Bool, true, false, not, ◌&&◌, ◌||◌, Option, none, some, String, List,
  arith, if◌then◌else◌, eq_of_==, is_some, Bool-cases, inl, inr, Option-cases,
}
use onyx_ifem.Json.{Host, sha256, get}
use onyx_ifem.Contracts.Errors.{ok, >>=-eq-ok, ok-injective}
use onyx_ifem.Sqlite.Table.{first}
use onyx_ifem.Services.Envelopes.{CommandEnvelope, EventEnvelope, Moment, at, operation_id}
use onyx_ifem.Mission.Types.{
  CommandType, create_mission, create_blueprint_revision, submit_blueprint, activate_mission,
  pause_mission, resume_mission, operational_halt_mission, restart_mission, Mission, MissionStatus,
  awaiting_approval, active, paused, halted, BlueprintRevision,
}
use onyx_ifem.Mission.Commands.{
  event_type_of, scope_of, event_payload, change, allowed_from, includes_status, has_revision,
  is_revision, is_submitted, step_to,
}
use onyx_ifem.Services.Calls.{authorize}
use onyx_ifem.Services.Publication.{publish-eq-ok}
use onyx_ifem.Mission.Repository.{MissionRepository, mission_aggregate}
use onyx_ifem.Mission.Service.{mutate, publish, check_loaded}
use onyx_ifem.Mission.Service.Life.{check_loaded-eq-ok}

abbrev pub is_awaiting : MissionStatus → Bool
is_awaiting awaiting_approval = true
is_awaiting _ = false

abbrev pub is_running : MissionStatus → Bool
is_running active = true
is_running paused = true
is_running halted = true
is_running _ = false

abbrev has_some : Option String → List BlueprintRevision → Bool
has_some none rs = false
has_some (some i) rs = is_some (first (is_revision i) rs)

abbrev pub has_active : Mission → Bool
has_active m = has_some m.active_blueprint_revision_id m.revisions

abbrev pub has_submitted : Mission → Bool
has_submitted m = has_some m.submitted_blueprint_revision_id m.revisions

-- A mission that awaits approval has submitted one of its revisions, and one that is active, paused or
-- halted has one of its revisions active, and a timeline.
pub record IsPlanned (m : Mission) : Type 0 where
  pub awaiting : (not (is_awaiting m.status) || has_submitted m) ≡ true
  pub running : (not (is_running m.status) || (has_active m && is_some m.timeline_id)) ≡ true

abbrev is_continuing : CommandType → Bool
is_continuing pause_mission = true
is_continuing resume_mission = true
is_continuing operational_halt_mission = true
is_continuing restart_mission = true
is_continuing _ = false

from_running :
    (type : CommandType) (s : MissionStatus)
    → is_continuing type ≡ true
    → includes_status (allowed_from type) s ≡ true
    → is_running s ≡ true
from_running pause_mission active k h = refl
from_running resume_mission paused k h = refl
from_running operational_halt_mission active k h = refl
from_running operational_halt_mission paused k h = refl
from_running restart_mission halted k h = refl
from_running type s k h = cc

-- A running mission has its active revision and its timeline.
plan_of_running :
    (m : Mission)
    → is_running m.status ≡ true
    → IsPlanned m
    → (has_active m ≡ true) × (is_some m.timeline_id ≡ true)
plan_of_running m r v = elim (Bool-cases (has_active m)) [
  | inl there ↦ elim (Bool-cases (is_some m.timeline_id)) [
    | inl timed ↦ (there, timed)
    | inr untimed ↦ let clash : false ≡ true = (rw (r, there, untimed) at v.running) in cc
  ]
  | inr missing ↦ let clash : false ≡ true = (rw (r, missing) at v.running) in cc
]

restart_timeline :
    (given : Bool) (t : String) (old : Option String)
    → is_some old ≡ true
    → is_some (if given then some t else old) ≡ true
restart_timeline true t old h = refl
restart_timeline false t old h = h

awaiting_status :
    (s : MissionStatus)
    → includes_status (allowed_from activate_mission) s ≡ true
    → is_awaiting s ≡ true
awaiting_status awaiting_approval h = refl
awaiting_status s h = cc

activate-eq-ok :
    (c : CommandEnvelope) (m m' : Mission)
    → change activate_mission c m ≡ ok m'
    → (is_submitted m.submitted_blueprint_revision_id (at "approved_revision_id" c) ≡ true)
      × (record (step_to active m) {
        active_blueprint_revision_id = some (at "approved_revision_id" c);
        timeline_id = some (at "timeline_id" c);
      }
          ≡ m')
unfolding change
activate-eq-ok c m m' h =
    elim (Bool-cases
      (is_submitted m.submitted_blueprint_revision_id (at "approved_revision_id" c))) [
        | inl submitted ↦ (submitted, ok-injective (rw submitted at h))
        | inr other ↦ absurd (ground (arith, h, other))
      ]

-- The approved revision is the one that was submitted, which is one of the mission's.
submitted_there :
    (c : CommandEnvelope) (m : Mission)
    → is_awaiting m.status ≡ true
    → IsPlanned m
    → is_submitted m.submitted_blueprint_revision_id (at "approved_revision_id" c) ≡ true
    → has_revision (at "approved_revision_id" c) m ≡ true
submitted_there c m waiting v submitted = elim (Option-cases m.submitted_blueprint_revision_id) [
  | inl missing ↦ let clash : false ≡ true = (rw missing at submitted) in cc
  | inr (i, found) ↦
      let same : i ≡ at "approved_revision_id" c =
        eq_of_== i (at "approved_revision_id" c) (rw found at submitted) in
      let there : has_revision i m ≡ true = (rw (waiting, found) at v.awaiting) in
      subst (λ k. has_revision k m ≡ true) same there
]

change-IsPlanned :
    (type : CommandType) (c : CommandEnvelope) (m m' : Mission)
    → includes_status (allowed_from type) m.status ≡ true
    → change type c m ≡ ok m'
    → IsPlanned m
    → IsPlanned m'
unfolding change
change-IsPlanned create_mission c m m' a h v = cc
change-IsPlanned create_blueprint_revision c m m' a h v = record {
  awaiting = ground (arith, h);
  running = ground (arith, h);
}
change-IsPlanned submit_blueprint c m m' a h v = record {
  awaiting = ground (arith, h);
  running = ground (arith, h);
}
change-IsPlanned activate_mission c m m' a h v =
    let (submitted, same) = activate-eq-ok c m m' h in
    subst IsPlanned same (record {
      awaiting = refl;
      running = rw (submitted_there c m (awaiting_status m.status a) v submitted) refl;
    })
change-IsPlanned pause_mission c m m' a h v =
    let (there, timed) = plan_of_running m (from_running pause_mission m.status refl a) v in
    subst IsPlanned (ok-injective h) (record { awaiting = refl; running = rw (there, timed) refl })
change-IsPlanned resume_mission c m m' a h v =
    let (there, timed) = plan_of_running m (from_running resume_mission m.status refl a) v in
    subst IsPlanned (ok-injective h) (record { awaiting = refl; running = rw (there, timed) refl })
change-IsPlanned operational_halt_mission c m m' a h v =
    let (there, timed) =
      plan_of_running m (from_running operational_halt_mission m.status refl a) v in
    subst IsPlanned (ok-injective h) (record { awaiting = refl; running = rw (there, timed) refl })
change-IsPlanned restart_mission c m m' a h v =
    let (there, timed) = plan_of_running m (from_running restart_mission m.status refl a) v in
    let still =
      restart_timeline (is_some (get "timeline_id" c.payload)) (at "timeline_id" c) m.timeline_id
        timed in
    subst IsPlanned (ok-injective h) (record { awaiting = refl; running = rw (there, still) refl })
change-IsPlanned type c m m' a h v =
    subst IsPlanned (ok-injective h) (record { awaiting = refl; running = refl })

some-injective : {A : Type 0} {x y : A} → some x ≡ some y → x ≡ y
some-injective h = cc

module _ {S : Type 0} (host : Host) (replica : String) (repository : MissionRepository S) where
  open repository use {find, commit}

  -- A command on a planned mission that succeeds commits a planned mission: no command brings a mission to
  -- ACTIVE, PAUSED or HALTED without an active revision that is one of its own and a timeline, or to
  -- AWAITING_APPROVAL without a submitted revision that is one of its own, and none takes them away there.
  pub mutate-IsPlanned :
      (type : CommandType) (c : CommandEnvelope) (moment : Moment) (s s' : S)
      (event : EventEnvelope) (m : Mission)
      → find (at "mission_id" c) s ≡ ok (some m)
      → IsPlanned m
      → mutate host replica repository type c moment s ≡ ok (event, s')
      → (m' : Mission) × IsPlanned m'
        × (commit m' event
              (operation_id c)
              (record { fingerprint = sha256 host c.value; event = event })
              false
              s
            ≡ ok s')
  unfolding mutate publish
  mutate-IsPlanned type c moment s s' event m there v h =
      let (_, _, h1) = >>=-eq-ok (authorize host (scope_of type) c moment) _ h in
      let (found, e1, h2) = >>=-eq-ok (find (at "mission_id" c) s) _ h1 in
      let (k, e2, h3) = >>=-eq-ok (check_loaded host replica repository type c found) _ h2 in
      let (m', e3, h4) = >>=-eq-ok (change type c k) _ h3 in
      let (is_k, _, _, allowed) = check_loaded-eq-ok host replica repository type c found k e2 in
      let same : m ≡ k = some-injective (ok-injective (sym there ∙ e1) ∙ is_k) in
      let (_, committed) =
        publish-eq-ok host replica mission_aggregate repository (event_type_of type) c m'
          (event_payload type c m') false moment s s' event h4 in
      (m', change-IsPlanned type c k m' allowed e3 (subst IsPlanned same v), committed)
