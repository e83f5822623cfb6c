-- ===== src/Work/Durable.antt =====
-- src/work/sqlite-repository.ts: the tasks in the SQLite store. The keys of a stored task are those of the
-- record `Task`; their order, which nothing reads, puts the optional ones at the end.
use onyx_ifem.Prelude.{ℕ, ◌≡◌, refl, ◌∙◌, Option, some, String, List, [], ◌∷◌, ◌==◌, if◌then◌else◌}
use onyx_ifem.Json.{Json, Host, Fields, field, done, get}
use onyx_ifem.Sqlite.Instants.{Instant}
use onyx_ifem.Sqlite.Store.{Store}
use onyx_ifem.Services.Envelopes.{text_of, natural_of, fields_of, texts_of}
use onyx_ifem.Services.Fields.{with_optional, get_other, get_own, text_items, texts-text_items}
use onyx_ifem.Services.Durable.{Codec, durable}
use onyx_ifem.Work.Types.{
  Task, TaskStatus, draft, ready, active, paused, blocked, submitted, approved, closed, cancelled,
  status_name, WorkRepository, task_entry, task_aggregate,
}

abbrev statuses : List TaskStatus
statuses =
    draft ∷ ready ∷ active ∷ paused ∷ blocked ∷ submitted ∷ approved ∷ closed ∷ cancelled ∷ []

abbrev status_in : List TaskStatus → String → TaskStatus
status_in [] s = draft
status_in (t ∷ ts) s = if status_name t == s then t else status_in ts s

status_in-status_name : (t : TaskStatus) → status_in statuses (status_name t) ≡ t
status_in-status_name draft = refl
status_in-status_name ready = refl
status_in-status_name active = refl
status_in-status_name paused = refl
status_in-status_name blocked = refl
status_in-status_name submitted = refl
status_in-status_name approved = refl
status_in-status_name closed = refl
status_in-status_name cancelled = refl

-- The optional fields of a task.
unfoldable optional_fields : (due_date_ref estimate : Option Json) → Fields
optional_fields due_date_ref estimate =
    with_optional "dueDateRef" due_date_ref (with_optional "estimate" estimate done)

unfoldable pub encode_task : Task → Json
unfolding optional_fields
encode_task t = Json.object (
    field "taskId" (Json.text t.task_id) (
      field "organizationId" (Json.text t.organization_id) (
        field "missionId" (Json.text t.mission_id) (
          field "title" (Json.text t.title) (
            field "description" (Json.text t.description) (
              field "ownerId" (Json.text t.owner_id) (
                field "priority" (Json.text t.priority) (
                  field "status" (Json.text (status_name t.status)) (
                    field "version" (Json.natural t.version) (
                      field "lifecycleEpoch" (Json.natural t.lifecycle_epoch) (
                        field "authorityEpoch" (Json.natural t.authority_epoch) (
                          field "dependencyTaskIds" (Json.array (text_items t.dependency_task_ids))
                            (optional_fields t.due_date_ref t.estimate)))))))))))))

unfoldable pub decode_task : Json → Task
decode_task v =
    let fs = fields_of (some v) in
    record {
      task_id = text_of (get "taskId" fs);
      organization_id = text_of (get "organizationId" fs);
      mission_id = text_of (get "missionId" fs);
      title = text_of (get "title" fs);
      description = text_of (get "description" fs);
      owner_id = text_of (get "ownerId" fs);
      priority = text_of (get "priority" fs);
      due_date_ref = get "dueDateRef" fs;
      estimate = get "estimate" fs;
      status = status_in statuses (text_of (get "status" fs));
      version = natural_of (get "version" fs);
      lifecycle_epoch = natural_of (get "lifecycleEpoch" fs);
      authority_epoch = natural_of (get "authorityEpoch" fs);
      dependency_task_ids = texts_of (get "dependencyTaskIds" fs);
    }

due_date_read :
    (due_date_ref estimate : Option Json)
    → get "dueDateRef" (optional_fields due_date_ref estimate) ≡ due_date_ref
unfolding optional_fields
due_date_read due_date_ref estimate =
    get_own "dueDateRef" due_date_ref _ (get_other "dueDateRef" "estimate" estimate done refl)

estimate_read :
    (due_date_ref estimate : Option Json)
    → get "estimate" (optional_fields due_date_ref estimate) ≡ estimate
unfolding optional_fields
estimate_read due_date_ref estimate =
    get_other "estimate" "dueDateRef" due_date_ref _ refl ∙ get_own "estimate" estimate done refl

-- A task is read as it was written.
pub decode_task-encode_task : (t : Task) → decode_task (encode_task t) ≡ t
unfolding decode_task encode_task
decode_task-encode_task t =
    rw
      (
        due_date_read t.due_date_ref t.estimate,
        estimate_read t.due_date_ref t.estimate,
        status_in-status_name t.status,
        texts-text_items t.dependency_task_ids,
      )
      refl

abbrev pub task_codec : Codec Task
task_codec = record {
  encode = encode_task;
  decode = decode_task;
  decode_encode = decode_task-encode_task;
}

-- `SqliteWorkRepository`
abbrev pub sqlite_tasks : Host → (String → Instant) → ℕ → WorkRepository Store
sqlite_tasks host place now = durable host place now "work" task_entry task_aggregate task_codec
