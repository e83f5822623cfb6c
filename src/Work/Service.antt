-- ===== src/Work/Service.antt =====
-- src/work/service.ts: the service's calls. `requireMission`, which asks the mission service, is a parameter.
pub mod Replay
pub mod Life
pub mod Commits
pub mod Links
pub mod Graph
mod Tests
use onyx_ifem.Prelude.{
  ℕ, suc, Bool, true, false, not, Option, none, some, String, List, map, ◌==◌, if◌then◌else◌,
  is_some,
}
use Prim.Native.String.{◌++◌ as ◌<>◌}
use onyx_ifem.Json.{Json, Host, get}
use onyx_ifem.Contracts.Errors.{
  Result, ok, err, onyx, invalid_argument, version_conflict, not_found, invalid_state_transition,
  ◌>>=◌, ◌>>◌, throw_if,
}
use onyx_ifem.Contracts.Checks.{fail}
use onyx_ifem.Contracts.Validation.{validate_command_envelope}
use onyx_ifem.Services.Envelopes.{
  CommandEnvelope, EventEnvelope, Moment, text_of, optional_natural, at, organization_id, differs,
}
use onyx_ifem.Services.Calls
use onyx_ifem.Services.Calls.{authorize, check_expected, check_history, found_in}
use onyx_ifem.Work.Types.{
  Task, status_name, WorkCommandType, create_task, add_dependency, type_name, TaskView,
  to_task_view, WorkRepository, task_aggregate,
}
use onyx_ifem.Work.Payloads.{validate_work_command}
use onyx_ifem.Work.Commands.{
  scope_of, allowed_from, includes_status, event_type_of, depend_on, change, new_task, type_of,
}

-- `task.version += 1`, at the end of `#mutate`.
abbrev pub next_version : Task → Task
next_version t = record t { version = suc t.version }

-- `value?.command_type`, a text; any other value is of no type.
abbrev pub command_type : Json → String
command_type (Json.object fs) = text_of (get "command_type" fs)
command_type _ = ""

module _ {S : Type 0} (host : Host) (replica : String)
    (require_mission : String → String → S → Result (Unit {0}))
    (repository : WorkRepository S) where
  open repository use {find}

  -- `!task || task.organizationId !== organizationId`
  abbrev pub owned : String → Option Task → Result Task
  owned = found_in (λ t. t.organization_id) "task"

  -- The checks of `#load` on the task that it has found, which has the fields of the type `Task`: the defaults
  -- (`??=`) of a task that lacks some of them are left out.
  unfoldable pub check_loaded : WorkCommandType → CommandEnvelope → Option Task → Result Task
  unfolding check_expected
  check_loaded type c found = do
    t ← owned (organization_id c) found
    check_expected c (task_aggregate.head t)
    throw_if (not (includes_status (allowed_from type) t.status)) (
        onyx invalid_state_transition
          (type_name type <> (" is not valid from " <> status_name t.status)))
    ok t

  -- `#publish`
  unfoldable pub publish :
      WorkCommandType
      → CommandEnvelope
      → Task
      → (payload : Json) → (create : Bool) → Moment
      → S
      → Result (EventEnvelope × S)
  unfolding Calls.publish
  publish type c t payload create moment s =
      Calls.publish host replica task_aggregate repository (event_type_of type) c t payload create
        moment s

  -- `#load`, the change and `#publish`.
  unfoldable pub mutate :
      WorkCommandType
      → (Task → Result (Task × Json))
      → CommandEnvelope
      → Moment
      → S
      → Result (EventEnvelope × S)
  unfolding authorize check_loaded publish
  mutate type change_ c moment s = do
    authorize host (scope_of type) c moment
    found ← find (at "task_id" c) s
    t ← check_loaded type c found
    changed ← change_ t
    publish type c (next_version (changed.0)) (changed.1) false moment s

  -- `#createTask`
  unfoldable pub create_new : CommandEnvelope → Moment → S → Result (EventEnvelope × S)
  unfolding authorize publish
  create_new c moment s = do
    authorize host (scope_of create_task) c moment
    throw_if (differs (optional_natural (get "expected_version" c.fields)) 0)
        (onyx version_conflict "a new task must expect version 0")
    found ← find (at "task_id" c) s
    throw_if (is_some found) (onyx version_conflict "task already exists")
    require_mission (organization_id c) (at "mission_id" c) s
    publish create_task c (new_task c) (Json.object c.payload) true moment s

  -- The case AddDependency of `execute`.
  unfoldable pub link : CommandEnvelope → Moment → S → Result (EventEnvelope × S)
  unfolding mutate depend_on
  link c moment s = do
    throw_if (at "task_id" c == at "dependency_task_id" c)
        (onyx invalid_argument "a task cannot depend on itself")
    found ← find (at "dependency_task_id" c) s
    dependency ← found_in (λ t. t.organization_id) "dependency task" (organization_id c) found
    mutate add_dependency (depend_on dependency) c moment s

  unfoldable pub perform :
      WorkCommandType → CommandEnvelope → Moment → S → Result (EventEnvelope × S)
  unfolding create_new link mutate
  perform create_task c moment s = create_new c moment s
  perform add_dependency c moment s = link c moment s
  perform type c moment s = mutate type (λ t. ok (change type c t)) c moment s

  -- A command of one type, replay included.
  unfoldable pub handle : WorkCommandType → Json → Moment → S → Result (EventEnvelope × S)
  unfolding Calls.handle
  handle type =
      Calls.handle host replica task_aggregate repository (validate_work_command host type)
        (perform type)

  -- A command of an unknown type fails after the checks of its envelope.
  unfoldable pub execute : Json → Moment → S → Result (EventEnvelope × S)
  unfolding handle
  execute input moment s = elim (type_of (command_type input)) [
    | some type ↦ handle type input moment s
    | none ↦ validate_command_envelope host input (command_type input) "Task" >>= λ _.
        fail "command is not implemented"
  ]

  -- `createTask`: a valid command of another type is refused.
  unfoldable pub create : Json → Moment → S → Result (EventEnvelope × S)
  unfolding handle
  create input moment s = elim (type_of (command_type input)) [
    | some create_task ↦ handle create_task input moment s
    | some type ↦ validate_work_command host type input >>= λ _.
        err (onyx invalid_argument "CreateTask is required")
    | none ↦ validate_command_envelope host input (command_type input) "Task" >>= λ _.
        fail "command is not implemented"
  ]

  -- `getTask`
  unfoldable pub get_task : String → String → S → Result TaskView
  get_task organization i s = do found ← find i s; t ← owned organization found; ok (to_task_view t)

  -- `listTasks`
  unfoldable pub list_tasks : String → Option String → ℕ → S → Result (List TaskView)
  list_tasks organization after limit s = do
    tasks ← repository.list organization after limit s
    ok (map to_task_view tasks)

  unfoldable pub get_history : String → String → ℕ → ℕ → S → Result (List EventEnvelope)
  unfolding get_task
  get_history organization i after limit s = do
    view ← get_task organization i s
    check_history limit
    repository.history i after limit s
