-- ===== src/Sqlite/Store.antt =====
-- The store of database.ts: aggregates, events, operations and the outbox, the queries on them, and
-- `commit`, which writes all four in one transaction. Each PRIMARY KEY, UNIQUE, CHECK and FOREIGN KEY that
-- the schema states is a test of the INSERT; a violation throws, and the transaction is rolled back.
pub mod Writes
pub mod History
mod Tests
use onyx_ifem.Prelude.{
  ℕ, suc, Bool, true, false, not, ◌&&◌, Option, none, some, String, List, [], ◌∷◌, ◌++◌, map, ltb,
  leb, eqb, ◌==◌, if◌then◌else◌, take,
}
use Prim.Native.Nat.{Ordering}
use Prim.Native.String.{compare}
use onyx_ifem.Json.{Json, Host, get}
use onyx_ifem.Contracts.Errors.{Result, ok, failure, ◌>>=◌, ◌>>◌, throw_if}
use onyx_ifem.Sqlite.Table.{select, first, update, count, order_by}
use onyx_ifem.Sqlite.Keys.{any}
use onyx_ifem.Sqlite.Instants.{Instant, iso}
use onyx_ifem.Sqlite.StoredEvent.{stored_event}
use onyx_ifem.Sqlite.Outbox.{Outbox, OutboxRow, has_event_id}

pub record AggregateRow : Type 0 where
  pub context : String
  pub aggregate_id : String
  pub organization_id : String
  pub version : ℕ
  pub state_json : Json

pub record EventRow : Type 0 where
  pub context : String
  pub aggregate_id : String
  pub aggregate_version : ℕ
  pub event_id : String
  pub event_json : Json

pub record OperationRow : Type 0 where
  pub context : String
  pub operation_id : String
  pub fingerprint : String
  pub event_json : Json

pub record Store : Type 0 where
  pub aggregates : List AggregateRow
  pub events : List EventRow
  pub operations : List OperationRow
  pub outbox : Outbox

-- `context = ? AND aggregate_id = ?`
abbrev pub is_aggregate : String → String → AggregateRow → Bool
is_aggregate c i r = r.context == c && r.aggregate_id == i

-- `context = ? AND aggregate_id = ? AND aggregate_version = ?`, the key of the events.
abbrev pub is_event : String → String → ℕ → EventRow → Bool
is_event c i n r = (r.context == c && r.aggregate_id == i) && eqb r.aggregate_version n

abbrev pub is_event_id : String → EventRow → Bool
is_event_id e r = r.event_id == e

-- `context = ? AND operation_id = ?`
abbrev pub is_operation : String → String → OperationRow → Bool
is_operation c o r = r.context == c && r.operation_id == o

unfoldable pub get_aggregate : String → String → List AggregateRow → Option AggregateRow
get_aggregate c i rows = first (is_aggregate c i) rows

unfoldable pub get_operation_row : String → String → List OperationRow → Option OperationRow
get_operation_row c o rows = first (is_operation c o) rows

abbrev pub state_of : Option AggregateRow → Option Json
state_of none = none
state_of (some r) = some r.state_json

-- `getState`
unfoldable pub get_state : String → String → Store → Option Json
get_state c i s = state_of (get_aggregate c i s.aggregates)

abbrev is_lt : Ordering → Bool
is_lt Ordering.lt = true
is_lt Ordering.eq = false
is_lt Ordering.gt = false

-- `? IS NULL OR aggregate_id > ?`
abbrev is_after : Option String → String → Bool
is_after none i = true
is_after (some a) i = is_lt (compare a i)

-- `listStates`
unfoldable pub list_states : String → String → Option String → ℕ → Store → List Json
list_states c organization after limit s =
    map (λ r. r.state_json)
      (take limit (
        order_by (λ (a b : AggregateRow). not (is_lt (compare b.aggregate_id a.aggregate_id)))
          (select
            (λ r.
              (r.context == c && r.organization_id == organization)
              && is_after after r.aggregate_id)
            s.aggregates)))

abbrev text_value : Option Json → Option String
text_value (some (Json.text t)) = some t
text_value _ = none

-- The value of a property if the event is an object and the property a text.
abbrev pub text_property : String → Json → Option String
text_property name (Json.object fs) = text_value (get name fs)
text_property name _ = none

pub record CommitRecord : Type 0 where
  pub context : String
  pub aggregate_id : String
  pub organization_id : String
  pub version : ℕ
  pub state : Json
  pub event_id : String
  pub event_version : ℕ
  pub event : Json
  pub operation_id : String
  pub fingerprint : String
  pub create : Bool

abbrev constraint : Bool → Result (Unit {0})
constraint violated = throw_if violated (failure "constraint failed")

abbrev pub aggregate_row : CommitRecord → AggregateRow
aggregate_row r = record {
  context = r.context;
  aggregate_id = r.aggregate_id;
  organization_id = r.organization_id;
  version = r.version;
  state_json = r.state;
}

-- The INSERT of a new aggregate, or the UPDATE that its old version guards.
abbrev pub is_previous : CommitRecord → AggregateRow → Bool
is_previous r a = is_aggregate r.context r.aggregate_id a && eqb (suc a.version) r.version

abbrev pub revise : CommitRecord → AggregateRow → AggregateRow
revise r a = record a {
  organization_id = r.organization_id;
  version = r.version;
  state_json = r.state;
}

unfoldable pub write_aggregate : CommitRecord → List AggregateRow → Result (List AggregateRow)
write_aggregate r rows =
    if r.create
    then (do
      constraint (ltb r.version 1)
      constraint (any (is_aggregate r.context r.aggregate_id) rows)
      ok (rows ++ aggregate_row r ∷ []))
    else (do
      throw_if (not (eqb (count (is_previous r) rows) 1))
          (failure "aggregate version changed before commit")
      ok (update (is_previous r) (revise r) rows))

abbrev pub event_row : CommitRecord → EventRow
event_row r = record {
  context = r.context;
  aggregate_id = r.aggregate_id;
  aggregate_version = r.event_version;
  event_id = r.event_id;
  event_json = r.event;
}

unfoldable pub insert_event : CommitRecord → List EventRow → Result (List EventRow)
insert_event r rows = do
  constraint (ltb r.event_version 1)
  constraint (any (is_event r.context r.aggregate_id r.event_version) rows)
  constraint (any (is_event_id r.event_id) rows)
  ok (rows ++ event_row r ∷ [])

abbrev pub operation_row : CommitRecord → OperationRow
operation_row r = record {
  context = r.context;
  operation_id = r.operation_id;
  fingerprint = r.fingerprint;
  event_json = r.event;
}

unfoldable pub insert_operation : CommitRecord → List OperationRow → Result (List OperationRow)
insert_operation r rows = do
  constraint (any (is_operation r.context r.operation_id) rows)
  ok (rows ++ operation_row r ∷ [])

-- `or_text o t` is `o ?? t`.
abbrev or_text : Option String → String → String
or_text none t = t
or_text (some s) t = s

abbrev or_now : Option String → (String → Instant) → ℕ → Instant
or_now none place now = iso now
or_now (some s) place now = place s

-- `place` gives the place of a `recorded_at` in the order of the stored texts.
abbrev pub outbox_row : (String → Instant) → ℕ → CommitRecord → OutboxRow
outbox_row place now r = record {
  event_id = r.event_id;
  context = r.context;
  aggregate_id = r.aggregate_id;
  aggregate_version = r.event_version;
  organization_id = r.organization_id;
  event_type = or_text (text_property "event_type" r.event) "UnknownEvent";
  event_json = r.event;
  attempt_count = 0;
  available_at = or_now (text_property "recorded_at" r.event) place now;
  lease_owner = none;
  lease_expires_at = none;
  delivered_at = none;
  dead_lettered_at = none;
  last_error = none;
}

abbrev pub is_null : Json → Bool
is_null Json.null = true
is_null _ = false

-- A property of `null` throws a TypeError; one of any other value that is no object is undefined.
unfoldable pub insert_outbox : (String → Instant) → ℕ → CommitRecord → Outbox → Result Outbox
insert_outbox place now r rows = do
  throw_if (is_null r.event) (failure "Cannot read properties of null (reading 'event_type')")
  constraint (any (has_event_id r.event_id) rows)
  ok (rows ++ outbox_row place now r ∷ [])

-- One transaction. The foreign keys hold of the rows that it has just written.
unfoldable pub commit : (String → Instant) → ℕ → CommitRecord → Store → Result Store
unfolding write_aggregate insert_event insert_operation insert_outbox
commit place now r s = do
  aggregates ← write_aggregate r s.aggregates
  events ← insert_event r s.events
  operations ← insert_operation r s.operations
  outbox ← insert_outbox place now r s.outbox
  ok (record { aggregates = aggregates; events = events; operations = operations; outbox = outbox })

module _ (host : Host) where
  unfoldable pub stored_events : List EventRow → Result (List Json)
  stored_events [] = ok []
  stored_events (r ∷ rs) = do
    event ← stored_event host r.event_json (record {
      context = r.context;
      aggregate_id = some r.aggregate_id;
      aggregate_version = some r.aggregate_version;
      organization_id = none;
      event_id = some r.event_id;
      event_type = none;
      operation_id = none;
    })
    ok (event ∷ (← stored_events rs))

  -- `getEvents`
  unfoldable pub get_events : String → String → ℕ → ℕ → Store → Result (List Json)
  get_events c i after limit s = stored_events (
      take limit (
        order_by (λ (a b : EventRow). leb a.aggregate_version b.aggregate_version)
          (select (λ r. (r.context == c && r.aggregate_id == i) && ltb after r.aggregate_version)
            s.events)))

  -- `getOperation`
  unfoldable pub get_operation : String → String → Store → Result (Option (String × Json))
  get_operation c o s = elim (get_operation_row c o s.operations) [
    | none ↦ ok none
    | some r ↦ do
      event ← stored_event host r.event_json (record {
        context = c;
        aggregate_id = none;
        aggregate_version = none;
        organization_id = none;
        event_id = none;
        event_type = none;
        operation_id = some o;
      })
      ok (some (r.fingerprint, event))
  ]
