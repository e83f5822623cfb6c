-- ===== src/Work/Service/Commits.antt =====
-- What a command that succeeds has found, made of it, and committed.
use onyx_ifem.Prelude.{
  is_some, suc, ◌≡◌, refl, ap, ◌∙◌, subst, true, false, not, Option, none, some, String, [], ◌==◌,
}
use onyx_ifem.Json.{Json, Host, sha256, get}
use onyx_ifem.Contracts.Errors.{Result, ok, >>=-eq-ok, throw_if-eq-ok, ok-injective}
use onyx_ifem.Services.Envelopes.{
  CommandEnvelope, EventEnvelope, Moment, at, operation_id, organization_id, optional_natural,
  differs,
}
use onyx_ifem.Services.Calls.{authorize, check_expected, found_in}
use onyx_ifem.Services.Publication.{found_in-eq-ok, publish-eq-ok, check_expected-version}
use onyx_ifem.Work.Types.{
  WorkCommandType, create_task, add_dependency, Task, WorkRepository, task_aggregate,
}
use onyx_ifem.Work.Commands.{
  new_task, event_type_of, scope_of, change, depend_on, allowed_from, includes_status,
}
use onyx_ifem.Work.Service.{
  create_new, perform, mutate, link, publish, check_loaded, next_version, owned,
}
use onyx_ifem.Work.Service.Life.{
  IsChange, IsLink, Leads, Leads-target_of, change-IsChange, depend_on-IsLink, is_creation,
  is_plain, not-eq-false, target_of,
}

none_of : (found : Option Task) → is_some found ≡ false → found ≡ none
none_of none h = refl
none_of (some t) h = cc

module _ {S : Type 0} (host : Host) (replica : String)
    (require_mission : String → String → S → Result (Unit {0}))
    (repository : WorkRepository S) where
  open repository use {find, commit}

  check_loaded-eq-ok :
      (type : WorkCommandType) (c : CommandEnvelope) (found : Option Task) (t : Task)
      → check_loaded host replica require_mission repository type c found ≡ ok t
      → (found ≡ some t)
        × (t.organization_id ≡ organization_id c)
        × (differs (optional_natural (get "expected_version" c.fields)) t.version ≡ false)
        × (includes_status (allowed_from type) t.status ≡ true)
  unfolding check_loaded
  check_loaded-eq-ok type c found t h =
      let (k, e, h1) =
        >>=-eq-ok (owned host replica require_mission repository (organization_id c) found) _ h in
      let (_, e2, h2) = >>=-eq-ok (check_expected c (task_aggregate.head k)) _ h1 in
      let (a, h3) = throw_if-eq-ok (not (includes_status (allowed_from type) k.status)) _ _ h2 in
      let same : k ≡ t = ok-injective h3 in
      let (there, mine) =
        found_in-eq-ok (λ x. x.organization_id) "task" (organization_id c) found k e in
      subst
        (λ x.
          (found ≡ some x)
          × (x.organization_id ≡ organization_id c)
          × (differs (optional_natural (get "expected_version" c.fields)) x.version ≡ false)
          × (includes_status (allowed_from type) x.status ≡ true))
        same (there, mine, check_expected-version c (task_aggregate.head k) e2, not-eq-false _ a)

  -- What a command has found, changed and committed.
  abbrev pub Commits :
      WorkCommandType → (Task → Task → Type 0) → CommandEnvelope → S → EventEnvelope → S → Type 0
  Commits type Change c s event s' =
      (t : Task) × (t' : Task) × (find (at "task_id" c) s ≡ ok (some t))
      × (t.organization_id ≡ organization_id c)
      × (differs (optional_natural (get "expected_version" c.fields)) t.version ≡ false)
      × Leads t.status type (target_of type t.status)
      × Change t t'
      × (event.aggregate_version ≡ suc t'.version)
      × (commit (next_version t') event (operation_id c)
            (record { fingerprint = sha256 host c.value; event = event }) false s
          ≡ ok s')

  -- A creation has found the mission but no task, and commits the new task.
  pub create_new-eq-ok :
      (c : CommandEnvelope) (moment : Moment) (s s' : S) (event : EventEnvelope)
      → create_new host replica require_mission repository c moment s ≡ ok (event, s')
      → (find (at "task_id" c) s ≡ ok none)
        × (require_mission (organization_id c) (at "mission_id" c) s ≡ ok tt)
        × (event.aggregate_version ≡ 1)
        × (commit
              (new_task c)
              event
              (operation_id c)
              (record { fingerprint = sha256 host c.value; event = event })
              true
              s
            ≡ ok s')
  unfolding create_new publish
  create_new-eq-ok c moment s s' event h =
      let (_, _, h1) = >>=-eq-ok (authorize host (scope_of create_task) c moment) _ h in
      let (_, h2) =
        throw_if-eq-ok (differs (optional_natural (get "expected_version" c.fields)) 0) _ _ h1 in
      let (found, e3, h3) = >>=-eq-ok (find (at "task_id" c) s) _ h2 in
      let (absent, h4) = throw_if-eq-ok (is_some found) _ _ h3 in
      let (_, e5, h5) =
        >>=-eq-ok (require_mission (organization_id c) (at "mission_id" c) s) _ h4 in
      let (version, committed) =
        publish-eq-ok host replica task_aggregate repository (event_type_of create_task) c
          (new_task c) (Json.object c.payload) true moment s s' event h5 in
      (e3 ∙ ap ok (none_of found absent), e5, version, committed)

  mutate-Commits :
      (type : WorkCommandType) (change_ : Task → Result (Task × Json)) (c : CommandEnvelope)
      (moment : Moment) (s s' : S) (event : EventEnvelope)
      → mutate host replica require_mission repository type change_ c moment s ≡ ok (event, s')
      → Commits type (λ t t'. (payload : Json) × (change_ t ≡ ok (t', payload))) c s event s'
  unfolding mutate publish
  mutate-Commits type change_ c moment s s' event h =
      let (_, _, h1) = >>=-eq-ok (authorize host (scope_of type) c moment) _ h in
      let (found, e1, h2) = >>=-eq-ok (find (at "task_id" c) s) _ h1 in
      let (t, e2, h3) =
        >>=-eq-ok (check_loaded host replica require_mission repository type c found) _ h2 in
      let ((t', payload), e3, h4) = >>=-eq-ok (change_ t) _ h3 in
      let (there, mine, version, allowed) = check_loaded-eq-ok type c found t e2 in
      let (at_version, committed) =
        publish-eq-ok host replica task_aggregate repository (event_type_of type) c
          (next_version t') payload false moment s s' event h4 in
      (
        t,
        t',
        e1 ∙ ap ok there,
        mine,
        version,
        Leads-target_of type t.status allowed,
        (payload, e3),
        at_version,
        committed,
      )

  -- What a command makes of the task: AddDependency adds another task, which it has found in the
  -- organization and in the task's mission, and which is no dependency yet; every other command changes
  -- the state or one field.
  abbrev pub Edited : WorkCommandType → CommandEnvelope → S → Task → Task → Type 0
  Edited add_dependency c s t t' =
      (d : Task) × ((at "task_id" c == at "dependency_task_id" c) ≡ false)
      × (find (at "dependency_task_id" c) s ≡ ok (some d))
      × (d.organization_id ≡ organization_id c)
      × IsLink d t t'
  Edited type c s t t' = IsChange type [] t t'

  -- Every edit leaves the mission and the organization.
  pub Edited-same :
      (type : WorkCommandType) (c : CommandEnvelope) (s : S) (t t' : Task)
      → Edited type c s t t'
      → (t'.mission_id ≡ t.mission_id) × (t'.organization_id ≡ t.organization_id)
  Edited-same add_dependency c s t t' (d, _, _, _, link) =
      (link.changes.same_mission, link.changes.same_organization)
  Edited-same type c s t t' e = (e.same_mission, e.same_organization)

  link-Commits :
      (c : CommandEnvelope) (moment : Moment) (s s' : S) (event : EventEnvelope)
      → link host replica require_mission repository c moment s ≡ ok (event, s')
      → Commits add_dependency (Edited add_dependency c s) c s event s'
  unfolding link
  link-Commits c moment s s' event h =
      let (other, h1) = throw_if-eq-ok (at "task_id" c == at "dependency_task_id" c) _ _ h in
      let (found, e1, h2) = >>=-eq-ok (find (at "dependency_task_id" c) s) _ h1 in
      let (d, e2, h3) =
        >>=-eq-ok (found_in (λ t. t.organization_id) "dependency task" (organization_id c) found) _
          h2 in
      let (there, mine) =
        found_in-eq-ok (λ x. x.organization_id) "dependency task" (organization_id c) found d e2 in
      let (t, t', e, o, v, l, (payload, changed), at_version, committed) =
        mutate-Commits add_dependency (depend_on d) c moment s s' event h3 in
      let linked = depend_on-IsLink d t t' payload changed in
      (t, t', e, o, v, l, (d, other, e1 ∙ ap ok there, mine, linked), at_version, committed)

  plain-Commits :
      (type : WorkCommandType) (c : CommandEnvelope) (moment : Moment) (s s' : S)
      (event : EventEnvelope)
      → is_plain type ≡ true
      → mutate host replica require_mission repository type (λ t. ok (change type c t)) c moment s
        ≡ ok (event, s')
      → Commits type (IsChange type []) c s event s'
  plain-Commits type c moment s s' event plain h =
      let (t, t', e, o, v, l, (payload, changed), at_version, committed) =
        mutate-Commits type (λ x. ok (change type c x)) c moment s s' event h in
      let step =
        subst (IsChange type [] t) (ap (λ x. x.0) (ok-injective changed))
          (change-IsChange type c t plain) in
      (t, t', e, o, v, l, step, at_version, committed)

  -- A command on a task that succeeds, that is every command but CreateTask, has found the task, of the
  -- command's organization and at the version that the command expects if it expects one, in a state from
  -- which the diagram leads on, and commits the task with the state that the diagram leads to, the next
  -- version, and the next lifecycle epoch exactly if it reopens, closes or cancels; with an event of that
  -- version, under the command's operation id and fingerprint. The task's identity, organization, mission
  -- and authority epoch stay, and its dependencies too, except that AddDependency adds a task other than the
  -- one that the command names, which it has found in the organization and in the same mission, and which
  -- was no dependency yet.
  pub perform-Commits :
      (type : WorkCommandType) (c : CommandEnvelope) (moment : Moment) (s s' : S)
      (event : EventEnvelope)
      → is_creation type ≡ false
      → perform host replica require_mission repository type c moment s ≡ ok (event, s')
      → Commits type (Edited type c s) c s event s'
  unfolding perform
  perform-Commits create_task c moment s s' event old h = cc
  perform-Commits add_dependency c moment s s' event old h = link-Commits c moment s s' event h
  perform-Commits type c moment s s' event old h = plain-Commits type c moment s s' event refl h
