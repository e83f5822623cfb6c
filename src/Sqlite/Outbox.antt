-- ===== src/Sqlite/Outbox.antt =====
-- The outbox of database.ts: the rows of `onyx_outbox`, `claimOutbox`, `acknowledgeOutbox` and
-- `rejectOutbox`. A method takes the table and returns the table after it; a transaction that throws is
-- rolled back, so it returns no table and the caller keeps the old one.

pub mod Lookup
pub mod Steps
pub mod Moves
pub mod Outcomes
pub mod Retry
mod Tests
pub mod Claim
pub mod Safety
use onyx_ifem.Prelude.{
  ℕ, suc, ◌+◌, Bool, true, false, not, ◌&&◌, ◌||◌, Option, none, some, String, List, [], ◌∷◌, map,
  ltb, leb, eqb, ◌==◌, if◌then◌else◌, is_none, is_text, take,
}
use Prim.Native.Char.{code}
use Prim.Native.Nat.{Ordering, ◌-◌}
use Prim.Native.String.{compare}
use onyx_ifem.Json.{Json, Host}
use onyx_ifem.Contracts.Errors.{Result, ok, failure, ◌>>=◌, ◌>>◌, throw_if, or_throw}
use onyx_ifem.Sqlite.Table.{select, first, update, count, order_by}
use onyx_ifem.Sqlite.Instants.{Instant, iso, check_date, max_time}
use onyx_ifem.Sqlite.StoredEvent.{stored_event, StoredEventExpectation}

pub record OutboxRow : Type 0 where
  pub event_id : String
  pub context : String
  pub aggregate_id : String
  pub aggregate_version : ℕ
  pub organization_id : String
  pub event_type : String
  pub event_json : Json
  pub attempt_count : ℕ
  pub available_at : Instant
  pub lease_owner : Option String
  pub lease_expires_at : Option Instant
  pub delivered_at : Option Instant
  pub dead_lettered_at : Option Instant
  pub last_error : Option String

-- `OutboxMessage`: the row, with the absent fields left out and the event read from its text.
abbrev pub OutboxMessage : Type 0
OutboxMessage = OutboxRow

abbrev pub Outbox : Type 0
Outbox = List OutboxRow

-- `delivered_at IS NULL AND dead_lettered_at IS NULL`
abbrev pub is_open : OutboxRow → Bool
is_open r = is_none r.delivered_at && is_none r.dead_lettered_at

-- `lease_expires_at IS NULL OR lease_expires_at <= ?`
abbrev pub has_no_lease : Option Instant → Instant → Bool
has_no_lease none now = true
has_no_lease (some expires) now = leb expires now

-- The WHERE clause of the claim.
abbrev pub is_ready : Instant → OutboxRow → Bool
is_ready now r = is_open r && (leb r.available_at now && has_no_lease r.lease_expires_at now)

-- `event_id = ?`
abbrev pub has_event_id : String → OutboxRow → Bool
has_event_id e r = r.event_id == e

-- The WHERE clause of `acknowledgeOutbox` and of the lookup in `rejectOutbox`.
abbrev pub is_leased_to : String → String → OutboxRow → Bool
is_leased_to e worker r = has_event_id e r && (is_text r.lease_owner worker && is_open r)

-- One key of an ORDER BY, then the next.
abbrev then_by : Ordering → Bool → Bool
then_by Ordering.lt rest = true
then_by Ordering.eq rest = rest
then_by Ordering.gt rest = false

-- `ORDER BY available_at, context, aggregate_id, aggregate_version, event_id`
abbrev pub claim_order : OutboxRow → OutboxRow → Bool
claim_order r s = then_by (Prim.Native.Nat.compare r.available_at s.available_at) (
    then_by (compare r.context s.context) (
      then_by (compare r.aggregate_id s.aggregate_id) (
        then_by (Prim.Native.Nat.compare r.aggregate_version s.aggregate_version)
          (then_by (compare r.event_id s.event_id) true))))

-- The UPDATE of one claimed row.
abbrev pub lease : String → Instant → OutboxRow → OutboxRow
lease worker expires r = record r {
  lease_owner = some worker;
  lease_expires_at = some expires;
  attempt_count = suc r.attempt_count;
}

-- `for (const row of rows) claim.run(worker, expires, row.event_id)`
unfoldable pub lease_all : String → Instant → List OutboxRow → Outbox → Outbox
lease_all worker expires [] t = t
lease_all worker expires (r ∷ rs) t =
    lease_all worker expires rs (update (has_event_id r.event_id) (lease worker expires) t)

pub record ClaimOutboxOptions : Type 0 where
  pub worker_id : String
  pub now : ℕ
  pub lease_duration_ms : ℕ
  pub limit : ℕ

-- `new Date(now + duration).toISOString()`
abbrev pub lease_end : ClaimOutboxOptions → Instant
lease_end o = iso (o.now + o.lease_duration_ms)

-- The rows that a claim takes.
unfoldable pub claimable : ClaimOutboxOptions → Outbox → List OutboxRow
claimable o t = take o.limit (order_by claim_order (select (is_ready (iso o.now)) t))

-- What `toOutboxMessage` expects of the stored event.
abbrev pub row_expectation : OutboxRow → StoredEventExpectation
row_expectation r = record {
  context = r.context;
  aggregate_id = some r.aggregate_id;
  aggregate_version = some r.aggregate_version;
  organization_id = some r.organization_id;
  event_id = some r.event_id;
  event_type = some r.event_type;
  operation_id = none;
}

module _ (host : Host) where
  -- A message is its row, with the event checked.
  unfoldable pub to_outbox_message : OutboxRow → Result OutboxMessage
  to_outbox_message r = do
    event ← stored_event host r.event_json (row_expectation r)
    ok (record r { event_json = event })

  unfoldable pub to_outbox_messages : List OutboxRow → Result (List OutboxMessage)
  to_outbox_messages [] = ok []
  to_outbox_messages (r ∷ rs) = do ok ((← to_outbox_message r) ∷ (← to_outbox_messages rs))

  -- The messages with their new leases, and the table.
  unfoldable pub claim_outbox : ClaimOutboxOptions → Outbox → Result (List OutboxMessage × Outbox)
  claim_outbox o t = do
    throw_if (o.worker_id == "" || (ltb o.limit 1 || ltb 1000 o.limit))
        (failure "invalid outbox claim options")
    throw_if (ltb o.lease_duration_ms 1)
        (failure "outbox lease duration must be a positive integer")
    check_date (o.now + o.lease_duration_ms)
    messages ← to_outbox_messages (claimable o t)
    ok (
      map (lease o.worker_id (lease_end o)) messages,
      lease_all o.worker_id (lease_end o) (claimable o t) t,
    )

unfoldable pub get_outbox_row : String → Outbox → Option OutboxRow
get_outbox_row e t = first (has_event_id e) t

abbrev pub deliver : Instant → OutboxRow → OutboxRow
deliver at r = record r {
  delivered_at = some at;
  lease_owner = none;
  lease_expires_at = none;
  last_error = none;
}

-- `result.changes !== 1` throws after the UPDATE, which then has changed no row: the key is unique.
unfoldable pub acknowledge_outbox : String → String → ℕ → Outbox → Result Outbox
acknowledge_outbox e worker delivered_at t = do
  throw_if (not (eqb (count (is_leased_to e worker) t) 1))
      (failure "outbox message is not leased by this worker")
  ok (update (is_leased_to e worker) (deliver (iso delivered_at)) t)

pub data Disposition : Type 0 where
  retry dead_letter : Disposition

-- `error.slice(0, 2048)` as it is stored: a pair of code units cut in half becomes U+FFFD.
unfoldable pub slice_units : ℕ → String → String
slice_units n String.[] = String.[]
slice_units ℕ.zero (String.◌∷◌ c s) = String.[]
slice_units (suc n) (String.◌∷◌ c s) =
    let short = String.◌∷◌ c (slice_units n s) in
    let long = String.◌∷◌ c (slice_units (n - 1) s) in
    if ltb (code c) 65536 then short else if eqb n 0 then "�" else long

abbrev pub bury : Instant → String → OutboxRow → OutboxRow
bury at error r = record r {
  dead_lettered_at = some at;
  lease_owner = none;
  lease_expires_at = none;
  last_error = some error;
}

abbrev pub postpone : Instant → String → OutboxRow → OutboxRow
postpone at error r = record r {
  available_at = at;
  lease_owner = none;
  lease_expires_at = none;
  last_error = some error;
}

-- `event_id = ? AND lease_owner = ?`, the WHERE clause of the two writes of `rejectOutbox`.
abbrev pub is_owned_by : String → String → OutboxRow → Bool
is_owned_by e worker r = has_event_id e r && is_text r.lease_owner worker

unfoldable pub reject_outbox :
    String → String → String → ℕ → ℕ → ℕ → Outbox → Result (Disposition × Outbox)
unfolding slice_units
reject_outbox e worker error failed_at retry_at max_attempts t = do
  throw_if (ltb max_attempts 1) (failure "maxAttempts must be a positive integer")
  row ←
      or_throw (first (is_leased_to e worker) t)
        (failure "outbox message is not leased by this worker")
  let last_error = slice_units 2048 error
  throw_if (not (leb max_attempts row.attempt_count) && ltb max_time retry_at)
      (failure "Invalid time value")
  ok (
      if leb max_attempts row.attempt_count
      then (dead_letter, update (is_owned_by e worker) (bury (iso failed_at) last_error) t)
      else (retry, update (is_owned_by e worker) (postpone (iso retry_at) last_error) t))
