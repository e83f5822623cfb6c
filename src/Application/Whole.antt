-- ===== src/Application/Whole.antt =====
-- What every sequence of requests keeps of the store: its tables fit together, every task is linked to tasks
-- of its own mission, and the mission of every task is there.
use onyx_ifem.Prelude.{
  ◌≡◌, refl, sym, ap, ◌∙◌, subst, Option, some, String, List, [], ◌∷◌, ◌==◌, ℕ, eq_of_==,
  Bool-cases, inl, inr, if◌then◌else◌,
}
use mathlib.Core.Path.{fun_ext}
use onyx_ifem.Json.{Json, Host}
use onyx_ifem.Contracts.Errors.{Result, ok, ok-injective}
use onyx_ifem.Sqlite.Instants.{Instant}
use onyx_ifem.Sqlite.Store.{Store}
use onyx_ifem.Sqlite.Store.History.{IsConsistent}
use onyx_ifem.Services.Envelopes.{EventEnvelope, Moment}
use onyx_ifem.Services.Calls.{state_after, after_ok}
use onyx_ifem.Services.Durable.{get_state-commit, decoded}
use onyx_ifem.Services.Keyed.{IsKeyed, durable-IsKeyed}
use onyx_ifem.Mission.Types.{Mission}
use onyx_ifem.Mission.Repository.{mission_entry, mission_aggregate}
use onyx_ifem.Mission.Durable.{mission_codec}
use onyx_ifem.Mission.Service as Missions
use onyx_ifem.Work.Types.{Task, task_entry, task_aggregate}
use onyx_ifem.Work.Durable.{task_codec}
use onyx_ifem.Work.Service as Work
use onyx_ifem.Work.Service.Links.{AllLinked}
use onyx_ifem.Work.Service.Graph.{execute-IsSound}
use onyx_ifem.Application.{
  Request, mission, work, missions, tasks, require_mission, answer_request, run,
}
use onyx_ifem.Application.Missions.{AllKeyed, CommitsMission, execute-CommitsMission}
use onyx_ifem.Application.Tasks.{
  IsHoused, AllHoused, CommitsTask, execute-CommitsTask, tasks-IsRecording,
}

some-injective : {A : Type 0} {x y : A} → some x ≡ some y → x ≡ y
some-injective h = cc

module _ (host : Host) (place : String → Instant) (now : ℕ) where
  abbrev find_mission : Store → String → Result (Option Mission)
  find_mission s i = (missions host place now).find i s

  abbrev pub find_task : Store → String → Result (Option Task)
  find_task s i = (tasks host place now).find i s

  pub record IsWhole (s : Store) : Type 0 where
    pub is_consistent : IsConsistent s
    pub all_keyed : AllKeyed host place now s
    pub all_linked : AllLinked (find_task s)
    pub all_housed : AllHoused host place now s

  missions-IsKeyed : IsKeyed mission_entry mission_aggregate IsConsistent (missions host place now)
  missions-IsKeyed =
      durable-IsKeyed host mission_entry mission_aggregate place now "mission" mission_codec

  tasks-IsKeyed : IsKeyed task_entry task_aggregate IsConsistent (tasks host place now)
  tasks-IsKeyed = durable-IsKeyed host task_entry task_aggregate place now "work" task_codec

  abbrev Puts : Store → Store → Mission → Type 0
  Puts s s' m =
      (i : String)
      → find_mission s' i ≡ (if (m.mission_id == i) then ok (some m) else find_mission s i)

  put-AllKeyed :
      (s s' : Store) (m : Mission)
      → Puts s s' m
      → AllKeyed host place now s
      → AllKeyed host place now s'
  put-AllKeyed s s' m puts keyed i k there = elim (Bool-cases (m.mission_id == i)) [
    | inl own ↦
        let same : ok (some m) ≡ ok (some k) = sym (puts i ∙ rw own refl) ∙ there in
        subst (λ x. x.mission_id ≡ i) (some-injective (ok-injective same))
          (eq_of_== m.mission_id i own)
    | inr other ↦ keyed i k (sym (puts i ∙ rw other refl) ∙ there)
  ]

  put-IsHoused :
      (s s' : Store) (m : Mission) (t : Task)
      → Puts s s' m
      → ((k : Mission)
          → find_mission s m.mission_id ≡ ok (some k)
          → m.organization_id ≡ k.organization_id)
      → IsHoused host place now t s
      → IsHoused host place now t s'
  put-IsHoused s s' m t puts stays (k, there, mine) =
      elim (Bool-cases (m.mission_id == t.mission_id)) [
        | inl own ↦
            let key = eq_of_== m.mission_id t.mission_id own in
            (m, puts t.mission_id ∙ rw own refl, stays k (ap (find_mission s) key ∙ there) ∙ mine)
        | inr other ↦ (k, puts t.mission_id ∙ rw other there, mine)
      ]

  -- A mission that is put under its id houses the tasks of the one that it replaces.
  mission-IsWhole : (s s' : Store) → IsWhole s → CommitsMission host place now s s' → IsWhole s'
  mission-IsWhole s s' w (m, event, o, operation, create, h, version, first_version, stays) =
      let same_tasks : (i : String) → find_task s' i ≡ find_task s i = λ i.
        ap (λ v. ok (decoded host place now "work" task_entry task_aggregate task_codec v))
          (get_state-commit host place now "mission" mission_entry mission_aggregate mission_codec m
            event o operation create s s' "work" i w.is_consistent refl h) in
      let puts : Puts s s' m =
        λ i. missions-IsKeyed.finds m event o operation create s s' i w.is_consistent h in
      record {
        is_consistent =
            missions-IsKeyed.keeps m event o operation create s s' w.is_consistent version
              first_version h;
        all_keyed = put-AllKeyed s s' m puts w.all_keyed;
        all_linked = subst AllLinked (sym (fun_ext same_tasks)) w.all_linked;
        all_housed = λ i t there.
            put-IsHoused s s' m t puts stays (w.all_housed i t (sym (same_tasks i) ∙ there));
      }

  -- A commit of a task leaves the missions.
  same_missions :
      (s s' : Store)
      → IsWhole s
      → CommitsTask host place now s s'
      → (i : String) → find_mission s' i ≡ find_mission s i
  same_missions s s' w (t, event, o, operation, create, h, housed) i =
      ap
        (λ v. ok (decoded host place now "mission" mission_entry mission_aggregate mission_codec v))
        (get_state-commit host place now "work" task_entry task_aggregate task_codec t event o
          operation create s s' "mission" i w.is_consistent refl h)

  still-IsHoused :
      (s s' : Store) (t : Task)
      → ((i : String) → find_mission s' i ≡ find_mission s i)
      → IsHoused host place now t s
      → IsHoused host place now t s'
  still-IsHoused s s' t same (m, there, mine) = (m, same t.mission_id ∙ there, mine)

  task-AllHoused :
      (s s' : Store) → IsWhole s → CommitsTask host place now s s' → AllHoused host place now s'
  task-AllHoused s s' w committed i u there =
      let (t, event, o, operation, create, h, housed) = committed in
      let same = same_missions s s' w committed in
      let puts = tasks-IsKeyed.finds t event o operation create s s' i w.is_consistent h in
      elim (Bool-cases (t.task_id == i)) [
        | inl own ↦
            let is_t : ok (some t) ≡ ok (some u) = sym (puts ∙ rw own refl) ∙ there in
            subst (λ x. IsHoused host place now x s') (some-injective (ok-injective is_t))
              (still-IsHoused s s' t same housed)
        | inr other ↦
            still-IsHoused s s' u same (w.all_housed i u (sym (puts ∙ rw other refl) ∙ there))
      ]

  mission_request :
      (input : Json) (moment : Moment) (s s' : Store) (event : EventEnvelope)
      → Missions.execute host "mission-api" (missions host place now) input moment s
        ≡ ok (event, s')
      → IsWhole s
      → IsWhole s'
  mission_request input moment s s' event h w =
      elim (execute-CommitsMission host place now input moment s s' event w.all_keyed h) [
        | inl same ↦ subst IsWhole (sym same) w
        | inr committed ↦ mission-IsWhole s s' w committed
      ]

  work_request :
      (input : Json) (moment : Moment) (s s' : Store) (event : EventEnvelope)
      → Work.execute host "work-api"
          (require_mission host place now)
          (tasks host place now)
          input
          moment
          s
        ≡ ok (event, s')
      → IsWhole s
      → IsWhole s'
  work_request input moment s s' event h w =
      elim (execute-CommitsTask host place now input moment s s' event w.all_housed h) [
        | inl same ↦ subst IsWhole (sym same) w
        | inr committed ↦
            let sound =
              execute-IsSound IsConsistent host "work-api" (require_mission host place now)
                (tasks host place now) (tasks-IsRecording host place now) tasks-IsKeyed input moment
                s s' event h (record { is_valid = w.is_consistent; all_linked = w.all_linked }) in
            let same = same_missions s s' w committed in
            record {
              is_consistent = sound.is_valid;
              all_keyed = λ i m there. w.all_keyed i m (sym (same i) ∙ there);
              all_linked = sound.all_linked;
              all_housed = task-AllHoused s s' w committed;
            }
      ]

  request-IsWhole :
      (r : Request) (s s' : Store) (event : EventEnvelope)
      → answer_request host place now r s ≡ ok (event, s')
      → IsWhole s
      → IsWhole s'
  unfolding answer_request
  request-IsWhole (mission input moment) s s' event h w =
      mission_request input moment s s' event h w
  request-IsWhole (work input moment) s s' event h w = work_request input moment s s' event h w

  -- Whatever requests are answered one after another by the services of the missions and of the tasks on one
  -- SQLite store that is whole, the store is whole afterwards: it is consistent, that is each version of an
  -- aggregate has its one event and each event its row in the outbox; every mission stands under its id; every
  -- task stands under its id, and depends on other tasks of its mission and organization, each once; and the
  -- mission of every task is there, in the task's organization.
  pub run-IsWhole : (rs : List Request) (s : Store) → IsWhole s → IsWhole (run host place now rs s)
  unfolding run
  run-IsWhole [] s w = w
  run-IsWhole (r ∷ rs) s w =
      let answer = answer_request host place now r s in
      run-IsWhole rs (state_after s answer)
        (after_ok IsWhole s answer w (λ event s' h. request-IsWhole r s s' event h w))
