-- ===== src/Application.antt =====
-- src/api/application.ts: the services of the missions and of the tasks on one SQLite store, as the application
-- puts them together when it has a database. A request names the service that `#commands` sends it to.
pub mod Missions
pub mod Tasks
pub mod Whole
mod Tests
use onyx_ifem.Prelude.{ℕ, Option, none, some, String, List, [], ◌∷◌}
use onyx_ifem.Json.{Json, Host}
use onyx_ifem.Contracts.Errors.{Result, ok, ◌>>=◌}
use onyx_ifem.Sqlite.Instants.{Instant}
use onyx_ifem.Sqlite.Store.{Store}
use onyx_ifem.Services.Envelopes.{EventEnvelope, Moment}
use onyx_ifem.Services.Calls.{state_after}
use onyx_ifem.Mission.Types.{Mission}
use onyx_ifem.Mission.Repository.{MissionRepository}
use onyx_ifem.Mission.Durable.{sqlite_missions}
use onyx_ifem.Mission.Service
use onyx_ifem.Mission.Service.{get_mission}
use onyx_ifem.Work.Types.{Task, WorkRepository}
use onyx_ifem.Work.Durable.{sqlite_tasks}
use onyx_ifem.Work.Service as Work

pub data Request : Type 0 where
  mission work : Json → Moment → Request

module _ (host : Host) (place : String → Instant) (now : ℕ) where
  abbrev pub missions : MissionRepository Store
  missions = sqlite_missions host place now

  abbrev pub tasks : WorkRepository Store
  tasks = sqlite_tasks host place now

  -- `requireMission` of the work service.
  unfoldable pub require_mission : String → String → Store → Result (Unit {0})
  require_mission organization i s = do
    view ← get_mission host "mission-api" missions organization i s
    ok tt

  unfoldable pub answer_request : Request → Store → Result (EventEnvelope × Store)
  unfolding require_mission
  answer_request (mission input moment) s =
      Service.execute host "mission-api" missions input moment s
  answer_request (work input moment) s =
      Work.execute host "work-api" require_mission tasks input moment s

  -- The requests, one after another.
  unfoldable pub run : List Request → Store → Store
  unfolding answer_request
  run [] s = s
  run (r ∷ rs) s = run rs (state_after s (answer_request r s))
