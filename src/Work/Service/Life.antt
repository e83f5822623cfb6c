-- ===== src/Work/Service/Life.antt =====
-- The life of a task: the diagram of its states, and the steps that the changes are.
use onyx_ifem.Prelude.{
  suc, ◌≡◌, refl, ap, subst, Bool, true, false, not, String, List, [], ◌∷◌, ◌++◌, ◌==◌,
  if◌then◌else◌, eq_of_==, includes,
}
use onyx_ifem.Json.{Json}
use onyx_ifem.Contracts.Errors.{ok, throw_if-eq-ok, ok-injective}
use onyx_ifem.Services.Envelopes.{CommandEnvelope}
use onyx_ifem.Work.Types.{
  WorkCommandType, create_task, assign_owner, change_priority, add_dependency, start_task,
  pause_task, block_task, submit_completion, approve_task, reopen_task, close_task, cancel_task,
  Task, TaskStatus, draft, ready, active, paused, blocked, submitted, approved, closed, cancelled,
}
use onyx_ifem.Work.Commands.{change, depend_on, allowed_from, includes_status}

-- The states in which a task can be edited.
pub data IsOpen : TaskStatus → Type 0 where
  draft_open : IsOpen draft
  ready_open : IsOpen ready
  active_open : IsOpen active
  paused_open : IsOpen paused
  blocked_open : IsOpen blocked

-- The diagram: which command leads from which state to which. The last five constructors are the commands
-- that edit a task and leave its state.
pub data Leads : TaskStatus → WorkCommandType → TaskStatus → Type 0 where
  starts : Leads draft start_task active
  starts_ready : Leads ready start_task active
  resumes : Leads paused start_task active
  unblocks : Leads blocked start_task active
  pauses : Leads active pause_task paused
  blocks_ready : Leads ready block_task blocked
  blocks : Leads active block_task blocked
  blocks_paused : Leads paused block_task blocked
  submits : Leads active submit_completion submitted
  approves : Leads submitted approve_task approved
  reopens_submitted : Leads submitted reopen_task active
  reopens_approved : Leads approved reopen_task active
  reopens : Leads closed reopen_task active
  closes : Leads approved close_task closed
  cancels_draft : Leads draft cancel_task cancelled
  cancels_ready : Leads ready cancel_task cancelled
  cancels : Leads active cancel_task cancelled
  cancels_paused : Leads paused cancel_task cancelled
  cancels_blocked : Leads blocked cancel_task cancelled
  cancels_submitted : Leads submitted cancel_task cancelled
  cancels_approved : Leads approved cancel_task cancelled
  depends : Leads draft add_dependency draft
  depends_ready : Leads ready add_dependency ready
  assigns : {s : TaskStatus} → IsOpen s → Leads s assign_owner s
  ranks : {s : TaskStatus} → IsOpen s → Leads s change_priority s
  ranks_submitted : Leads submitted change_priority submitted

abbrev pub target_of : WorkCommandType → TaskStatus → TaskStatus
target_of start_task s = active
target_of pause_task s = paused
target_of block_task s = blocked
target_of submit_completion s = submitted
target_of approve_task s = approved
target_of reopen_task s = active
target_of close_task s = closed
target_of cancel_task s = cancelled
target_of _ s = s

pub Leads-target_of :
    (type : WorkCommandType) (s : TaskStatus)
    → includes_status (allowed_from type) s ≡ true
    → Leads s type (target_of type s)
Leads-target_of assign_owner draft h = assigns draft_open
Leads-target_of assign_owner ready h = assigns ready_open
Leads-target_of assign_owner active h = assigns active_open
Leads-target_of assign_owner paused h = assigns paused_open
Leads-target_of assign_owner blocked h = assigns blocked_open
Leads-target_of change_priority draft h = ranks draft_open
Leads-target_of change_priority ready h = ranks ready_open
Leads-target_of change_priority active h = ranks active_open
Leads-target_of change_priority paused h = ranks paused_open
Leads-target_of change_priority blocked h = ranks blocked_open
Leads-target_of change_priority submitted h = ranks_submitted
Leads-target_of add_dependency draft h = depends
Leads-target_of add_dependency ready h = depends_ready
Leads-target_of start_task draft h = starts
Leads-target_of start_task ready h = starts_ready
Leads-target_of start_task paused h = resumes
Leads-target_of start_task blocked h = unblocks
Leads-target_of pause_task active h = pauses
Leads-target_of block_task ready h = blocks_ready
Leads-target_of block_task active h = blocks
Leads-target_of block_task paused h = blocks_paused
Leads-target_of submit_completion active h = submits
Leads-target_of approve_task submitted h = approves
Leads-target_of reopen_task submitted h = reopens_submitted
Leads-target_of reopen_task approved h = reopens_approved
Leads-target_of reopen_task closed h = reopens
Leads-target_of close_task approved h = closes
Leads-target_of cancel_task draft h = cancels_draft
Leads-target_of cancel_task ready h = cancels_ready
Leads-target_of cancel_task active h = cancels
Leads-target_of cancel_task paused h = cancels_paused
Leads-target_of cancel_task blocked h = cancels_blocked
Leads-target_of cancel_task submitted h = cancels_submitted
Leads-target_of cancel_task approved h = cancels_approved
Leads-target_of type s h = cc

-- The commands that end a period of a task's life.
abbrev pub ends_epoch : WorkCommandType → Bool
ends_epoch reopen_task = true
ends_epoch close_task = true
ends_epoch cancel_task = true
ends_epoch _ = false

-- What a change keeps and sets.
pub record IsChange (type : WorkCommandType) (more : List String) (t t' : Task) : Type 0 where
  pub status : t'.status ≡ target_of type t.status
  pub version : t'.version ≡ t.version
  pub epoch :
      t'.lifecycle_epoch ≡ (if ends_epoch type then suc t.lifecycle_epoch else t.lifecycle_epoch)
  pub same_task : t'.task_id ≡ t.task_id
  pub same_organization : t'.organization_id ≡ t.organization_id
  pub same_mission : t'.mission_id ≡ t.mission_id
  pub same_authority : t'.authority_epoch ≡ t.authority_epoch
  pub dependencies : t'.dependency_task_ids ≡ t.dependency_task_ids ++ more

pub append_nothing : (xs : List String) → xs ≡ xs ++ []
append_nothing [] = refl
append_nothing (x ∷ xs) = ap (λ ys. x ∷ ys) (append_nothing xs)

abbrev pub is_creation : WorkCommandType → Bool
is_creation create_task = true
is_creation _ = false

abbrev pub is_plain : WorkCommandType → Bool
is_plain create_task = false
is_plain add_dependency = false
is_plain _ = true

pub change-IsChange :
    (type : WorkCommandType) (c : CommandEnvelope) (t : Task)
    → is_plain type ≡ true
    → IsChange type [] t ((change type c t).0)
unfolding change
change-IsChange create_task c t plain = cc
change-IsChange add_dependency c t plain = cc
change-IsChange type c t plain = record {
  status = refl;
  version = refl;
  epoch = refl;
  same_task = refl;
  same_organization = refl;
  same_mission = refl;
  same_authority = refl;
  dependencies = append_nothing t.dependency_task_ids;
}

pub not-eq-false : (b : Bool) → not b ≡ false → b ≡ true
not-eq-false true h = refl
not-eq-false false h = cc

-- A dependency that a task takes: of its mission, and new to it.
pub record IsLink (d t t' : Task) : Type 0 where
  pub same_mission : t.mission_id ≡ d.mission_id
  pub is_new : includes t.dependency_task_ids d.task_id ≡ false
  pub changes : IsChange add_dependency (d.task_id ∷ []) t t'

pub depend_on-IsLink :
    (dependency t t' : Task) (payload : Json)
    → depend_on dependency t ≡ ok (t', payload)
    → IsLink dependency t t'
unfolding depend_on
depend_on-IsLink dependency t t' payload h =
    let (same, h1) = throw_if-eq-ok (not (t.mission_id == dependency.mission_id)) _ _ h in
    let (fresh, h2) = throw_if-eq-ok (includes t.dependency_task_ids dependency.task_id) _ _ h1 in
    record {
      same_mission = eq_of_== t.mission_id dependency.mission_id (not-eq-false _ same);
      is_new = fresh;
      changes =
          subst (IsChange add_dependency (dependency.task_id ∷ []) t)
            (ap (λ x. x.0) (ok-injective h2))
            (record {
              status = refl;
              version = refl;
              epoch = refl;
              same_task = refl;
              same_organization = refl;
              same_mission = refl;
              same_authority = refl;
              dependencies = refl;
            });
    }
