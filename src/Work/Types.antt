-- ===== src/Work/Types.antt =====
-- src/work/types.ts and src/work/repository.ts: a task, its commands, and tasks in a repository. Every task
-- has its epochs and its list of dependencies; `??=` gives them to one that was stored without.
use onyx_ifem.Prelude.{ℕ, Option, String, List}
use onyx_ifem.Json.{Json, Host}
use onyx_ifem.Services.Store.{Repository, Entry, InMemory, in_memory}
use onyx_ifem.Services.Calls.{Aggregate}

pub data TaskStatus : Type 0 where
  draft ready active paused blocked submitted approved closed cancelled : TaskStatus

abbrev pub status_name : TaskStatus → String
status_name draft = "DRAFT"
status_name ready = "READY"
status_name active = "ACTIVE"
status_name paused = "PAUSED"
status_name blocked = "BLOCKED"
status_name submitted = "SUBMITTED"
status_name approved = "APPROVED"
status_name closed = "CLOSED"
status_name cancelled = "CANCELLED"

pub record Task : Type 0 where
  pub task_id : String
  pub organization_id : String
  pub mission_id : String
  pub title : String
  pub description : String
  pub owner_id : String
  pub priority : String
  pub due_date_ref : Option Json
  pub estimate : Option Json
  pub status : TaskStatus
  pub version : ℕ
  pub lifecycle_epoch : ℕ
  pub authority_epoch : ℕ
  pub dependency_task_ids : List String

-- The types of `WorkCommand`.
pub data WorkCommandType : Type 0 where
  create_task assign_owner change_priority add_dependency start_task pause_task : WorkCommandType
  block_task submit_completion approve_task reopen_task close_task cancel_task : WorkCommandType

abbrev pub type_name : WorkCommandType → String
type_name create_task = "CreateTask"
type_name assign_owner = "AssignOwner"
type_name change_priority = "ChangePriority"
type_name add_dependency = "AddDependency"
type_name start_task = "StartTask"
type_name pause_task = "PauseTask"
type_name block_task = "BlockTask"
type_name submit_completion = "SubmitCompletion"
type_name approve_task = "ApproveTask"
type_name reopen_task = "ReopenTask"
type_name close_task = "CloseTask"
type_name cancel_task = "CancelTask"

pub record TaskView : Type 0 where
  pub task_id : String
  pub organization_id : String
  pub mission_id : String
  pub title : String
  pub description : String
  pub owner_id : String
  pub priority : String
  pub status : TaskStatus
  pub version : ℕ
  pub lifecycle_epoch : ℕ
  pub authority_epoch : ℕ
  pub dependency_task_ids : List String

abbrev pub to_task_view : Task → TaskView
to_task_view t = record {
  task_id = t.task_id;
  organization_id = t.organization_id;
  mission_id = t.mission_id;
  title = t.title;
  description = t.description;
  owner_id = t.owner_id;
  priority = t.priority;
  status = t.status;
  version = t.version;
  lifecycle_epoch = t.lifecycle_epoch;
  authority_epoch = t.authority_epoch;
  dependency_task_ids = t.dependency_task_ids;
}

-- `WorkRepository`, over a state `S`.
abbrev pub WorkRepository : Type 0 → Type 0
WorkRepository S = Repository Task S

-- What `InMemoryWorkRepository` knows of a task.
abbrev pub task_entry : Entry Task
task_entry = record { name = "task"; id_of = λ t. t.task_id; owner_of = λ t. t.organization_id }

-- `InMemoryWorkRepository`
abbrev pub in_memory_tasks : Host → WorkRepository (InMemory Task)
in_memory_tasks host = in_memory host task_entry

-- What the events of a task tell of it.
abbrev pub task_aggregate : Aggregate Task
task_aggregate = record {
  aggregate_type = "Task";
  head = λ t. record {
    object_id = t.task_id;
    version = t.version;
    lifecycle_epoch = t.lifecycle_epoch;
    authority_epoch = t.authority_epoch;
  };
}
