-- ===== src/Work/Commands.antt =====
-- src/work/service.ts: what each command asks for, does to the task, and publishes.
use onyx_ifem.Prelude.{
  suc, Bool, false, not, ◌||◌, Option, none, some, String, List, [], ◌∷◌, ◌++◌, ◌==◌, if◌then◌else◌,
  includes,
}
use onyx_ifem.Json.{Json, field, done, get}
use onyx_ifem.Contracts.Errors.{
  Result, ok, onyx, version_conflict, organization_mismatch, ◌>>◌, throw_if,
}
use onyx_ifem.Services.Envelopes.{CommandEnvelope, natural_of, at, authority, organization_id}
use onyx_ifem.Work.Types.{
  Task, TaskStatus, draft, ready, active, paused, blocked, submitted, approved, closed, cancelled,
  status_name, WorkCommandType, create_task, assign_owner, change_priority, add_dependency,
  start_task, pause_task, block_task, submit_completion, approve_task, reopen_task, close_task,
  cancel_task, type_name,
}

-- The scope that each command asks for.
abbrev pub scope_of : WorkCommandType → String
scope_of create_task = "work:create"
scope_of assign_owner = "work:owner:assign"
scope_of change_priority = "work:priority:change"
scope_of add_dependency = "work:dependency:add"
scope_of start_task = "work:start"
scope_of pause_task = "work:pause"
scope_of block_task = "work:block"
scope_of submit_completion = "work:completion:submit"
scope_of approve_task = "work:approve"
scope_of reopen_task = "work:reopen"
scope_of close_task = "work:close"
scope_of cancel_task = "work:cancel"

-- The states that `#mutate` and `#transition` are called with.
abbrev pub allowed_from : WorkCommandType → List TaskStatus
allowed_from create_task = []
allowed_from assign_owner = draft ∷ ready ∷ active ∷ paused ∷ blocked ∷ []
allowed_from change_priority = draft ∷ ready ∷ active ∷ paused ∷ blocked ∷ submitted ∷ []
allowed_from add_dependency = draft ∷ ready ∷ []
allowed_from start_task = draft ∷ ready ∷ paused ∷ blocked ∷ []
allowed_from pause_task = active ∷ []
allowed_from block_task = ready ∷ active ∷ paused ∷ []
allowed_from submit_completion = active ∷ []
allowed_from approve_task = submitted ∷ []
allowed_from reopen_task = submitted ∷ approved ∷ closed ∷ []
allowed_from close_task = approved ∷ []
allowed_from cancel_task = draft ∷ ready ∷ active ∷ paused ∷ blocked ∷ submitted ∷ approved ∷ []

-- `allowed.includes(task.status)`, by the names of the states.
abbrev pub includes_status : List TaskStatus → TaskStatus → Bool
includes_status [] s = false
includes_status (t ∷ ts) s = (status_name t == status_name s) || includes_status ts s

-- The type of the event that each command publishes.
abbrev pub event_type_of : WorkCommandType → String
event_type_of create_task = "TaskCreated"
event_type_of assign_owner = "TaskOwnerAssigned"
event_type_of change_priority = "TaskPriorityChanged"
event_type_of add_dependency = "TaskDependencyAdded"
event_type_of start_task = "TaskStarted"
event_type_of pause_task = "TaskPaused"
event_type_of block_task = "TaskBlocked"
event_type_of submit_completion = "TaskCompletionSubmitted"
event_type_of approve_task = "TaskApproved"
event_type_of reopen_task = "TaskReopened"
event_type_of close_task = "TaskClosed"
event_type_of cancel_task = "TaskCancelled"

-- A payload of one text.
abbrev pub says : String → String → Json
says name value = Json.object (field name (Json.text value) done)

-- The change that `#transition` makes, with and without a new lifecycle epoch.
abbrev pub transition : TaskStatus → Task → Task × Json
transition status t = (record t { status = status }, says "new_status" (status_name status))

abbrev pub transition_epoch : TaskStatus → Task → Task × Json
transition_epoch status t = (
  record t { status = status; lifecycle_epoch = suc t.lifecycle_epoch },
  says "new_status" (status_name status),
)

-- The change of AddDependency, once the dependency is found.
unfoldable pub depend_on : Task → Task → Result (Task × Json)
depend_on dependency t = do
  throw_if (not (t.mission_id == dependency.mission_id))
      (onyx organization_mismatch "dependency must belong to the same mission")
  throw_if (includes t.dependency_task_ids dependency.task_id)
      (onyx version_conflict "dependency already exists")
  ok (
    record t { dependency_task_ids = t.dependency_task_ids ++ dependency.task_id ∷ [] },
    says "dependency_task_id" dependency.task_id,
  )

-- The change of every other command on a task, and its payload. `createTask` changes none.
unfoldable pub change : WorkCommandType → CommandEnvelope → Task → Task × Json
change create_task c t = (t, Json.object c.payload)
change add_dependency c t = (t, Json.object c.payload)
change assign_owner c t =
    (record t { owner_id = at "owner_id" c }, says "owner_id" (at "owner_id" c))
change change_priority c t =
    (record t { priority = at "priority" c }, says "priority" (at "priority" c))
change start_task c t = transition active t
change pause_task c t = transition paused t
change block_task c t = transition blocked t
change submit_completion c t = transition submitted t
change approve_task c t = transition approved t
change reopen_task c t = transition_epoch active t
change close_task c t = transition_epoch closed t
change cancel_task c t = transition_epoch cancelled t

-- The task that `#createTask` makes.
abbrev pub new_task : CommandEnvelope → Task
new_task c = record {
  task_id = at "task_id" c;
  organization_id = organization_id c;
  mission_id = at "mission_id" c;
  title = at "title" c;
  description = at "description" c;
  owner_id = at "owner_id" c;
  priority = at "priority" c;
  due_date_ref = get "due_date_ref" c.payload;
  estimate = get "estimate" c.payload;
  status = draft;
  version = 1;
  lifecycle_epoch = 0;
  authority_epoch = natural_of (get "authority_epoch" (authority c));
  dependency_task_ids = [];
}

-- The cases of the switch in `execute`.
abbrev types_in : List WorkCommandType → String → Option WorkCommandType
types_in [] s = none
types_in (type ∷ types) s = if type_name type == s then some type else types_in types s

abbrev pub type_of : String → Option WorkCommandType
type_of = types_in (
    create_task ∷ assign_owner ∷ change_priority ∷ add_dependency ∷ start_task ∷ pause_task
    ∷ block_task ∷ submit_completion ∷ approve_task ∷ reopen_task ∷ close_task ∷ cancel_task ∷ [])
