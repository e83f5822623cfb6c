-- ===== src/Sqlite/Readiness/Tests.antt =====
-- The snapshot of a table with one message in each state.
use onyx_ifem.Prelude.{◌+◌, ◌≡◌, refl, ◌⊎◌, true, none, some, String, List, [], ◌∷◌, length, min}
use onyx_ifem.Json.{Json, Host}
use onyx_ifem.Contracts.Errors.{ok, err, Fault}
use onyx_ifem.Sqlite.Table.{count, select, order_by, update}
use onyx_ifem.Sqlite.Instants.{iso, recorded}
use onyx_ifem.Sqlite.StoredEvent.{stored_event, executable_event_profiles}
use onyx_ifem.Sqlite.Outbox.{
  OutboxRow, Outbox, lease, deliver, bury, ClaimOutboxOptions, claim_outbox, claimable, lease_all,
  to_outbox_message, to_outbox_messages,
}
use onyx_ifem.Sqlite.Inbox.{InboxRow, Inbox, complete}
use onyx_ifem.Sqlite.Readiness.{readiness, oldest}
use onyx_ifem.Sqlite.Readiness.Standing.{
  readiness_lem, standing_so, receipts_standing_so, delivered, dead_lettered, leased, due,
  scheduled, completed, processing, retryable,
}

abbrev plain_host : Host
plain_host = record {
  stringify = λ _. "";
  locale_le = λ _ _. true;
  digest = λ s. s;
  date_parse = λ _. none;
}

abbrev named : String → OutboxRow
named e = record {
  event_id = e;
  context = "demo";
  aggregate_id = "a";
  aggregate_version = 1;
  organization_id = "org";
  event_type = "Demo";
  event_json = Json.null;
  attempt_count = 0;
  available_at = recorded 5;
  lease_owner = none;
  lease_expires_at = none;
  delivered_at = none;
  dead_lettered_at = none;
  last_error = none;
}

abbrev fresh : OutboxRow
fresh = named "e1"

abbrev table : Outbox
table =
    fresh
    ∷ lease "w" (iso 90) (named "e2")
    ∷ deliver (iso 8) (named "e3")
    ∷ bury (iso 9) "no" (named "e4")
    ∷ []

abbrev receipt : InboxRow
receipt = record {
  consumer_name = "mail";
  event_id = "e1";
  fingerprint = "f";
  attempt_count = 1;
  received_at = iso 1;
  lease_owner = some "w";
  lease_expires_at = some (iso 60);
  completed_at = none;
  last_error = none;
}

abbrev receipts : Inbox
receipts = receipt ∷ complete (iso 7) receipt ∷ []

counts : readiness 50 table receipts ≡ record {
  outbox = record {
    pending = 2;
    ready = 1;
    leased = 1;
    delivered = 1;
    dead_lettered = 1;
    oldest_pending_at = some (recorded 5);
  };
  inbox = record { processing = 1; retryable = 0; completed = 1; failed = 0 };
}
unfolding readiness oldest count
counts = refl

-- Worker `x` takes the one message that is ready.
abbrev options : ClaimOutboxOptions
options = record { worker_id = "x"; now = 50; lease_duration_ms = 10; limit = 5 }

claim_takes_ready :
    claim_outbox plain_host options table
    ≡ ok (
      lease "x" (iso 60) fresh ∷ [],
      lease "x" (iso 60) fresh
          ∷ lease "w" (iso 90) (named "e2")
          ∷ deliver (iso 8) (named "e3")
          ∷ bury (iso 9) "no" (named "e4")
          ∷ [],
    )
unfolding claim_outbox claimable select order_by lease_all update to_outbox_message
    to_outbox_messages stored_event executable_event_profiles
claim_takes_ready = refl

readiness_lem_example :
    ((readiness 50 table receipts).outbox.ready ≡ standing_so due (iso 50) table)
    × ((readiness 50 table receipts).outbox.leased ≡ standing_so leased (iso 50) table)
    × ((readiness 50 table receipts).outbox.delivered ≡ standing_so delivered (iso 50) table)
    × ((readiness 50 table receipts).outbox.dead_lettered
        ≡ standing_so dead_lettered (iso 50) table)
    × ((readiness 50 table receipts).outbox.pending
        ≡ standing_so due (iso 50) table
          + (standing_so leased (iso 50) table + standing_so scheduled (iso 50) table))
    × ((readiness 50 table receipts).inbox.completed
        ≡ receipts_standing_so completed (iso 50) receipts)
    × ((readiness 50 table receipts).inbox.processing
        ≡ receipts_standing_so processing (iso 50) receipts)
    × ((readiness 50 table receipts).inbox.retryable
        ≡ receipts_standing_so retryable (iso 50) receipts)
    × (((fault : Fault) × (claim_outbox plain_host options table ≡ err fault))
        ⊎ ((ms : List OutboxRow) × (t' : Outbox) × (claim_outbox plain_host options table
              ≡ ok (ms, t'))
            × (length ms ≡ min 5 (readiness 50 table receipts).outbox.ready)))
readiness_lem_example = readiness_lem plain_host table receipts options (
  record { not_both = refl; lease_paired = refl },
  (
    record { not_both = refl; lease_paired = refl },
    (
      record { not_both = refl; lease_paired = refl },
      (record { not_both = refl; lease_paired = refl }, tt),
    ),
  ),
)
