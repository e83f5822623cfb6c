-- ===== src/Work/Service/Graph.antt =====
-- The dependencies stay sound through every sequence of commands, on a repository whose lookups are keyed.
use onyx_ifem.Prelude.{
  if◌then◌else◌, ◌≡◌, refl, sym, ap, ◌∙◌, subst, Bool, true, false, ◌||◌, some, none, String, List,
  [], ◌∷◌, ◌==◌, ◌⊎◌, eq_of_==, inl, inr, includes, ==_comm, Option-cases,
}
use onyx_ifem.Json.{Json, Host}
use onyx_ifem.Contracts.Errors.{Result, ok, >>=-eq-ok, ok-injective}
use onyx_ifem.Contracts.Validation.{has_repeats, validate_command_envelope}
use onyx_ifem.Services.Envelopes.{CommandEnvelope, EventEnvelope, Moment, at, organization_id}
use onyx_ifem.Services.Calls.{state_after, after_ok}
use onyx_ifem.Services.Store.{IsRecording, OperationRecord}
use onyx_ifem.Services.Keyed.{IsKeyed}
use onyx_ifem.Services.Replay.{handle-eq-ok}
use onyx_ifem.Sqlite.StoredEvent.{task_profile}
use onyx_ifem.Services.Emitted.{IsEmitted}
use onyx_ifem.Work.Types.{
  Task, WorkCommandType, create_task, add_dependency, task_entry, task_aggregate, WorkRepository,
}
use onyx_ifem.Work.Commands.{type_of, new_task}
use onyx_ifem.Work.Payloads.{validate_work_command}
use onyx_ifem.Work.Service.{handle, perform, create_new, execute, command_type, next_version}
use onyx_ifem.Work.Service.Replay.{perform-Records}
use onyx_ifem.Work.Service.Life.{IsLink, is_creation, append_nothing}
use onyx_ifem.Work.Service.Commits.{create_new-eq-ok, Edited, perform-Commits}
use onyx_ifem.Work.Service.Links.{
  Lookup, IsLinked, AllLinked, Keeps, put-AllLinked, includes-append, has_repeats-append,
  some-injective,
}

-- A task whose dependencies stay.
same-IsLinked :
    (lookup : Lookup) (i : String) (t t' : Task)
    → t'.task_id ≡ t.task_id
    → t'.organization_id ≡ t.organization_id
    → t'.mission_id ≡ t.mission_id
    → t'.dependency_task_ids ≡ t.dependency_task_ids
    → IsLinked lookup i t
    → IsLinked lookup i t'
same-IsLinked lookup i t t' key organization mission deps l = record {
  is_key = key ∙ l.is_key;
  not_self = ap (λ ds. includes ds i) deps ∙ l.not_self;
  distinct = ap has_repeats deps ∙ l.distinct;
  linked = λ d h.
      let (u, there, m, o) = l.linked d (sym (ap (λ ds. includes ds d) deps) ∙ h) in
      (u, there, m ∙ sym mission, o ∙ sym organization);
}

or_either : (a b : Bool) → (a || b) ≡ true → (a ≡ true) ⊎ (b ≡ true)
or_either true b h = inl refl
or_either false b h = inr h

-- A task that takes another one.
more-IsLinked :
    (lookup : Lookup) (i : String) (t t' d : Task)
    → lookup d.task_id ≡ ok (some d)
    → (d.task_id == i) ≡ false
    → d.organization_id ≡ t.organization_id
    → IsLink d t t'
    → IsLinked lookup i t
    → IsLinked lookup i t'
more-IsLinked lookup i t t' d there other organization link l =
    let deps = link.changes.dependencies in
    record {
      is_key = link.changes.same_task ∙ l.is_key;
      not_self =
          ap (λ ds. includes ds i) deps
          ∙ includes-append t.dependency_task_ids d.task_id i
          ∙ rw (l.not_self, other) refl;
      distinct =
          ap has_repeats deps
          ∙ has_repeats-append t.dependency_task_ids d.task_id
          ∙ rw (l.distinct, link.is_new) refl;
      linked = λ e h.
          elim (or_either (includes t.dependency_task_ids e) (d.task_id == e) (
            sym (ap (λ ds. includes ds e) deps ∙ includes-append t.dependency_task_ids d.task_id e)
            ∙ h)) [
              | inl old ↦
                  let (u, found, m, o) = l.linked e old in
                  (
                    u,
                    found,
                    m ∙ sym link.changes.same_mission,
                    o ∙ sym link.changes.same_organization,
                  )
              | inr new ↦ (
                d,
                ap lookup (sym (eq_of_== d.task_id e new)) ∙ there,
                sym link.same_mission ∙ sym link.changes.same_mission,
                organization ∙ sym link.changes.same_organization,
              )
            ];
    }

-- A new task has no dependency.
new_task-IsLinked :
    (lookup : Lookup) (c : CommandEnvelope) → IsLinked lookup (at "task_id" c) (new_task c)
unfolding has_repeats
new_task-IsLinked lookup c = record {
  is_key = refl;
  not_self = refl;
  distinct = refl;
  linked = λ d h. cc;
}

module _ {S : Type 0} (IsValid : S → Type 0) (host : Host) (replica : String)
    (require_mission : String → String → S → Result (Unit {0})) (repository : WorkRepository S)
    (recording : IsRecording (IsEmitted host task_profile) repository)
    (keyed : IsKeyed task_entry task_aggregate IsValid repository) where
  open repository use {find}

  -- The tasks of a state.
  abbrev pub lookup_in : S → Lookup
  lookup_in s i = find i s

  -- A state of the repository's own law in which every task is linked.
  pub record IsSound (s : S) : Type 0 where
    pub is_valid : IsValid s
    pub all_linked : AllLinked (lookup_in s)

  -- The edits of `perform-Commits` keep a task linked.
  Edited-IsLinked :
      (type : WorkCommandType) (c : CommandEnvelope) (s : S) (t t' : Task)
      → is_creation type ≡ false
      → AllLinked (lookup_in s)
      → find (at "task_id" c) s ≡ ok (some t)
      → t.organization_id ≡ organization_id c
      → Edited host replica require_mission repository type c s t t'
      → IsLinked (lookup_in s) (at "task_id" c) t'
        × (t'.mission_id ≡ t.mission_id)
        × (t'.organization_id ≡ t.organization_id)
  Edited-IsLinked create_task c s t t' old all there mine e = cc
  Edited-IsLinked add_dependency c s t t' old all there mine e =
      let (d, other, found, theirs, link) = e in
      let is_there = all (at "dependency_task_id" c) d found in
      let key : d.task_id ≡ at "dependency_task_id" c = is_there.is_key in
      (
        more-IsLinked (lookup_in s) (at "task_id" c) t t' d (ap (lookup_in s) key ∙ found)
            (ap (λ k. k == at "task_id" c) key
              ∙ ==_comm (at "dependency_task_id" c) (at "task_id" c)
              ∙ other)
            (theirs ∙ sym mine) link (all (at "task_id" c) t there),
        link.changes.same_mission,
        link.changes.same_organization,
      )
  Edited-IsLinked type c s t t' old all there mine e = (
    same-IsLinked (lookup_in s) (at "task_id" c) t t' e.same_task e.same_organization e.same_mission
        (e.dependencies ∙ sym (append_nothing t.dependency_task_ids))
        (all (at "task_id" c) t there),
    e.same_mission,
    e.same_organization,
  )

  -- A commit of a linked task at the place of its id.
  commit-IsSound :
      (i : String) (t : Task) (event : EventEnvelope) (o : String) (operation : OperationRecord)
      (create : Bool) (s s' : S)
      → IsSound s
      → event.aggregate_version ≡ t.version
      → (create ≡ true → t.version ≡ 1)
      → IsLinked (lookup_in s) i t
      → Keeps (lookup_in s) i t
      → repository.commit t event o operation create s ≡ ok s'
      → IsSound s'
  commit-IsSound i t event o operation create s s' sound version first_version l keeps h = record {
    is_valid = keyed.keeps t event o operation create s s' sound.is_valid version first_version h;
    all_linked =
        put-AllLinked (lookup_in s) (lookup_in s') i t
          (λ d.
            keyed.finds t event o operation create s s' d sound.is_valid h
            ∙ ap (λ k. if (k == d) then ok (some t) else find d s) l.is_key)
          keeps l sound.all_linked;
  }

  update-IsSound :
      (type : WorkCommandType) (c : CommandEnvelope) (moment : Moment) (s s' : S)
      (event : EventEnvelope)
      → is_creation type ≡ false
      → perform host replica require_mission repository type c moment s ≡ ok (event, s')
      → IsSound s
      → IsSound s'
  update-IsSound type c moment s s' event old h sound =
      let (t, t', there, mine, _, _, edited, version, committed) =
        perform-Commits host replica require_mission repository type c moment s s' event old h in
      let (l, mission, organization) =
        Edited-IsLinked type c s t t' old sound.all_linked there mine edited in
      let next : IsLinked (lookup_in s) (at "task_id" c) (next_version t') =
        same-IsLinked (lookup_in s) (at "task_id" c) t' (next_version t') refl refl refl refl l in
      let keeps : Keeps (lookup_in s) (at "task_id" c) (next_version t') = λ u is_u.
        let same : t ≡ u = some-injective (ok-injective (sym there ∙ is_u)) in
        (mission ∙ ap (λ x. x.mission_id) same, organization ∙ ap (λ x. x.organization_id) same) in
      commit-IsSound (at "task_id" c) (next_version t') event _ _ false s s' sound version (λ e. cc)
        next keeps committed

  create-IsSound :
      (c : CommandEnvelope) (moment : Moment) (s s' : S) (event : EventEnvelope)
      → create_new host replica require_mission repository c moment s ≡ ok (event, s')
      → IsSound s
      → IsSound s'
  create-IsSound c moment s s' event h sound =
      let (absent, _, version, committed) =
        create_new-eq-ok host replica require_mission repository c moment s s' event h in
      let keeps : Keeps (lookup_in s) (at "task_id" c) (new_task c) =
        λ u is_u. let clash : some u ≡ none = ok-injective (sym is_u ∙ absent) in cc in
      commit-IsSound (at "task_id" c) (new_task c) event _ _ true s s' sound version (λ _. refl)
        (new_task-IsLinked (lookup_in s) c) keeps committed

  perform-IsSound :
      (type : WorkCommandType) (c : CommandEnvelope) (moment : Moment) (s s' : S)
      (event : EventEnvelope)
      → perform host replica require_mission repository type c moment s ≡ ok (event, s')
      → IsSound s
      → IsSound s'
  unfolding perform
  perform-IsSound create_task c moment s s' event h sound =
      create-IsSound c moment s s' event h sound
  perform-IsSound type c moment s s' event h sound =
      update-IsSound type c moment s s' event refl h sound

  handle-IsSound :
      (type : WorkCommandType) (input : Json) (moment : Moment) (s s' : S) (event : EventEnvelope)
      → handle host replica require_mission repository type input moment s ≡ ok (event, s')
      → IsSound s
      → IsSound s'
  unfolding handle
  handle-IsSound type input moment s s' event h sound =
      elim (handle-eq-ok host replica task_aggregate repository (validate_work_command host type)
        (perform host replica require_mission repository type)
        (perform-Records host replica require_mission repository recording type) input moment s s'
        event h) [
          | inl same ↦ subst IsSound (sym same) sound
          | inr (c, done_) ↦ perform-IsSound type c moment s s' event done_ sound
        ]

  pub execute-IsSound :
      (input : Json) (moment : Moment) (s s' : S) (event : EventEnvelope)
      → execute host replica require_mission repository input moment s ≡ ok (event, s')
      → IsSound s
      → IsSound s'
  unfolding execute
  execute-IsSound input moment s s' event h sound =
      elim (Option-cases (type_of (command_type input))) [
        | inl unknown ↦
            let (_, _, k) =
              >>=-eq-ok (validate_command_envelope host input (command_type input) "Task") _
                (rw (unknown, execute) at h) in
            cc
        | inr (type, known) ↦
            handle-IsSound type input moment s s' event (rw (known, execute) at h) sound
      ]

  -- The inputs of `execute`, one after another.
  unfoldable pub run : List (Json × Moment) → S → S
  run [] s = s
  run ((input, moment) ∷ calls) s =
      run calls (state_after s (execute host replica require_mission repository input moment s))

  -- Whatever inputs are executed one after another, from a state in which the repository's own invariant holds
  -- and every task is linked, so they are afterwards: every task stands under its id, does not depend on itself,
  -- has no dependency twice, and each of its dependencies is a task that is there, in its mission and
  -- organization. The repository records the operations of the events that meet their contract, its lookups are
  -- those of a map, and its commits keep its own invariant.
  pub run-IsSound : (calls : List (Json × Moment)) (s : S) → IsSound s → IsSound (run calls s)
  unfolding run
  run-IsSound [] s sound = sound
  run-IsSound ((input, moment) ∷ calls) s sound =
      let answer = execute host replica require_mission repository input moment s in
      run-IsSound calls (state_after s answer) (
        after_ok IsSound s answer sound
          (λ event s' h. execute-IsSound input moment s s' event h sound))
