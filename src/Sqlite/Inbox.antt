-- ===== src/Sqlite/Inbox.antt =====
-- The inbox of database.ts: the receipts of consumed events, one for each consumer and event, and the
-- calls `getInboxReceipt`, `claimInbox`, `completeInbox` and `releaseInbox`.
pub mod Steps
pub mod Rows
pub mod Histories
pub mod Safety
use onyx_ifem.Prelude.{
  ℕ, suc, ◌+◌, Bool, true, false, not, ◌&&◌, ◌||◌, Option, none, some, String, List, [], ◌∷◌, ◌++◌,
  ltb, eqb, ◌==◌, if◌then◌else◌, is_none, is_text,
}
use onyx_ifem.Contracts.Errors.{Result, ok, err, failure, ◌>>=◌, ◌>>◌, throw_if}
use onyx_ifem.Sqlite.Table.{first, update, count}
use onyx_ifem.Sqlite.Instants.{Instant, iso, check_date}
use onyx_ifem.Sqlite.Outbox.{slice_units}

-- A row of onyx_inbox, with NULL as `none`.
pub record InboxRow : Type 0 where
  pub consumer_name : String
  pub event_id : String
  pub fingerprint : String
  pub attempt_count : ℕ
  pub received_at : Instant
  pub lease_owner : Option String
  pub lease_expires_at : Option Instant
  pub completed_at : Option Instant
  pub last_error : Option String

-- `InboxReceipt`, the row with the absent fields left out, and `toInboxReceipt`.
abbrev pub InboxReceipt : Type 0
InboxReceipt = InboxRow

abbrev pub to_inbox_receipt : InboxRow → InboxReceipt
to_inbox_receipt r = r

abbrev pub Inbox : Type 0
Inbox = List InboxRow

pub record ClaimInboxOptions : Type 0 where
  pub consumer_name : String
  pub event_id : String
  pub fingerprint : String
  pub worker_id : String
  pub now : ℕ
  pub lease_duration_ms : ℕ

pub data InboxClaim : Type 0 where
  acquired duplicate busy : InboxReceipt → InboxClaim

-- `consumer_name = ? AND event_id = ?`
abbrev pub is_receipt : String → String → InboxRow → Bool
is_receipt c e r = r.consumer_name == c && r.event_id == e

-- `… AND lease_owner = ? AND completed_at IS NULL`
abbrev pub is_held : String → String → String → InboxRow → Bool
is_held c e worker r = (is_receipt c e r && is_text r.lease_owner worker) && is_none r.completed_at

-- `lease_expires_at !== null && lease_expires_at > now`
abbrev pub is_later : Option Instant → Instant → Bool
is_later none now = false
is_later (some t) now = ltb now t

-- `getInboxReceipt`
unfoldable pub get_inbox_receipt : String → String → Inbox → Option InboxReceipt
get_inbox_receipt c e t = first (is_receipt c e) t

abbrev pub inbox_lease_end : ClaimInboxOptions → Instant
inbox_lease_end o = iso (o.now + o.lease_duration_ms)

-- The INSERT's row.
abbrev pub received : ClaimInboxOptions → InboxRow
received o = record {
  consumer_name = o.consumer_name;
  event_id = o.event_id;
  fingerprint = o.fingerprint;
  attempt_count = 1;
  received_at = iso o.now;
  lease_owner = some o.worker_id;
  lease_expires_at = some (inbox_lease_end o);
  completed_at = none;
  last_error = none;
}

-- The UPDATE of a row that is claimed again.
abbrev pub acquire : ClaimInboxOptions → InboxRow → InboxRow
acquire o r = record r {
  lease_owner = some o.worker_id;
  lease_expires_at = some (inbox_lease_end o);
  attempt_count = suc r.attempt_count;
}

abbrev pub has_blank : ClaimInboxOptions → Bool
has_blank o =
    ((o.consumer_name == "" || o.event_id == "") || o.fingerprint == "") || o.worker_id == ""

-- The claim of an event that has a row.
unfoldable pub claim_again : ClaimInboxOptions → InboxRow → Inbox → Result (InboxClaim × Inbox)
claim_again o existing t =
    if not (existing.fingerprint == o.fingerprint)
    then err (failure "inbox event fingerprint mismatch")
    else if not (is_none existing.completed_at)
    then ok (duplicate (to_inbox_receipt existing), t)
    else if is_later existing.lease_expires_at (iso o.now)
    then ok (busy (to_inbox_receipt existing), t)
    else ok (
      acquired (to_inbox_receipt (acquire o existing)),
      update (is_receipt o.consumer_name o.event_id) (acquire o) t,
    )

-- The transaction's body after its SELECT.
unfoldable pub claim_stored :
    ClaimInboxOptions → Option InboxRow → Inbox → Result (InboxClaim × Inbox)
unfolding claim_again
claim_stored o none t = ok (acquired (received o), t ++ received o ∷ [])
claim_stored o (some existing) t = claim_again o existing t

unfoldable pub claim_inbox : ClaimInboxOptions → Inbox → Result (InboxClaim × Inbox)
unfolding claim_stored
claim_inbox o t = do
  throw_if (has_blank o)
      (failure "inbox consumer, event, fingerprint, and worker identifiers are required")
  throw_if (ltb o.lease_duration_ms 1) (failure "inbox lease duration must be a positive integer")
  check_date (o.now + o.lease_duration_ms)
  claim_stored o (first (is_receipt o.consumer_name o.event_id) t) t

abbrev pub complete : Instant → InboxRow → InboxRow
complete at r = record r {
  completed_at = some at;
  lease_owner = none;
  lease_expires_at = none;
  last_error = none;
}

abbrev pub release : String → InboxRow → InboxRow
release error r = record r { lease_owner = none; lease_expires_at = none; last_error = some error }

-- An UPDATE of one row that throws if it has changed none.
unfoldable pub update_held : String → String → String → (InboxRow → InboxRow) → Inbox → Result Inbox
update_held c e worker f t =
    if eqb (count (is_held c e worker) t) 1
    then ok (update (is_held c e worker) f t)
    else err (failure "inbox event is not leased by this worker")

unfoldable pub complete_inbox : String → String → String → ℕ → Inbox → Result Inbox
unfolding update_held
complete_inbox c e worker completed_at t = update_held c e worker (complete (iso completed_at)) t

unfoldable pub release_inbox : String → String → String → String → Inbox → Result Inbox
unfolding update_held
release_inbox c e worker error t = update_held c e worker (release (slice_units 2048 error)) t
