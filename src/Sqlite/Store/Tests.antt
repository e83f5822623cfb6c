-- ===== src/Sqlite/Store/Tests.antt =====
-- Commits at concrete stores, and the theorems at inputs that meet their hypotheses.
use onyx_ifem.Prelude.{
  ◌≡◌, refl, true, false, ◌&&◌, some, String, [], ◌∷◌, arith, if◌then◌else◌, ◌==◌, inl,
}
use onyx_ifem.Json.{Json, done}
use onyx_ifem.Contracts.Errors.{ok, err, Fault, failure}
use onyx_ifem.Sqlite.Table.{first, update, count}
use onyx_ifem.Sqlite.Keys.{any}
use onyx_ifem.Sqlite.Instants.{Instant}
use onyx_ifem.Sqlite.Store.{
  Store, CommitRecord, commit, write_aggregate, insert_event, insert_operation, insert_outbox,
  get_state, get_aggregate, get_operation_row, operation_row, aggregate_row, event_row, outbox_row,
}
use onyx_ifem.Sqlite.Store.Writes.{is_own}
use onyx_ifem.Sqlite.Store.History.{
  IsConsistent, version_of, commit-IsConsistent, commit-commit, commit_lem,
}

abbrev empty : Store
empty = record { aggregates = []; events = []; operations = []; outbox = [] }

abbrev at_zero : String → Instant
at_zero _ = 0

abbrev creation : CommitRecord
creation = record {
  context = "work";
  aggregate_id = "a";
  organization_id = "org";
  version = 1;
  state = Json.null;
  event_id = "e1";
  event_version = 1;
  event = Json.object done;
  operation_id = "o1";
  fingerprint = "f";
  create = true;
}

abbrev created : Store
created = record {
  aggregates = aggregate_row creation ∷ [];
  events = event_row creation ∷ [];
  operations = operation_row creation ∷ [];
  outbox = outbox_row at_zero 5 creation ∷ [];
}

abbrev second : String → CommitRecord
second e = record creation {
  version = 2;
  event_version = 2;
  event_id = e;
  operation_id = e;
  create = false;
}

writes : Unit {0}
unfolding commit write_aggregate insert_event insert_operation insert_outbox get_state get_aggregate
    get_operation_row first update count any
writes = tt

create_it : commit at_zero 5 creation empty ≡ ok created
unfolding writes
create_it = refl

empty-IsConsistent : IsConsistent empty
unfolding writes
empty-IsConsistent = record {
  unique_aggregates = tt;
  unique_versions = tt;
  unique_ids = tt;
  unique_messages = tt;
  gapless = λ c i n. ground arith;
  published = λ e. refl;
}

created-IsConsistent : IsConsistent created
created-IsConsistent =
    commit-IsConsistent at_zero 5 creation empty created empty-IsConsistent refl (λ _. refl)
      create_it

commit-IsConsistent_example : IsConsistent created
commit-IsConsistent_example =
    commit-IsConsistent at_zero 5 creation empty created empty-IsConsistent refl (λ _. refl)
      create_it

abbrev updated : Store
updated = record {
  aggregates = record (aggregate_row creation) { version = 2 } ∷ [];
  events = event_row creation ∷ event_row (second "e2") ∷ [];
  operations = operation_row creation ∷ operation_row (second "e2") ∷ [];
  outbox = outbox_row at_zero 5 creation ∷ outbox_row at_zero 6 (second "e2") ∷ [];
}

update_it : commit at_zero 6 (second "e2") created ≡ ok updated
unfolding writes
update_it = refl

commit-commit_example : (e : Fault) × (commit at_zero 7 (second "e3") updated ≡ err e)
commit-commit_example =
    commit-commit at_zero at_zero 6 7 (second "e2") (second "e3") created updated
      created-IsConsistent update_it (inl (refl, refl, refl))

commit_lem_example :
    ((c i : String)
      → (get_state c i updated
          ≡ (if is_own (second "e2") c i then some Json.null else get_state c i created))
        × (version_of (get_aggregate c i updated.aggregates) ≡ (
            if is_own (second "e2") c i
            then 2
            else version_of (get_aggregate c i created.aggregates))))
    × ((c o : String)
        → get_operation_row c o updated.operations ≡ (
            if ("work" == c && "e2" == o)
            then some (operation_row (second "e2"))
            else get_operation_row c o created.operations))
commit_lem_example =
    commit_lem at_zero 6 (second "e2") created updated created-IsConsistent update_it

null_event :
    commit at_zero 5 (record creation { event = Json.null }) empty
    ≡ err (failure "Cannot read properties of null (reading 'event_type')")
unfolding writes
null_event = refl
