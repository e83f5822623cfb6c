-- ===== src/Processor.antt =====
-- src/infrastructure/inbox/processor.ts: an event is handled once for each consumer. What happens while
-- `handle` is awaited is an input: its `Handling` says which calls of the inbox other workers make in the
-- meantime, whether the promise is rejected and with what `errorMessage`, and the time after it.
pub mod Claims
pub mod Outcomes
pub mod Once
mod Tests
use onyx_ifem.Prelude.{
  ℕ, Option, none, some, String, List, [], ◌∷◌, ltb, ◌==◌, if◌then◌else◌, or_else,
}
use onyx_ifem.Json.{Json, Host, sha256}
use onyx_ifem.Contracts.Errors.{Result, ok, err, Fault, failure, ◌>>=◌, ◌>>◌, throw_if}
use onyx_ifem.Sqlite.Inbox.{
  Inbox, ClaimInboxOptions, InboxClaim, acquired, duplicate, busy, claim_inbox, complete_inbox,
  release_inbox,
}
use onyx_ifem.Sqlite.Inbox.Steps.{InboxCall, run}
use onyx_ifem.Dispatcher.{error_message}

pub record InboxEvent : Type 0 where
  pub event_id : String
  pub value : Json

pub record Handling : Type 0 where
  pub meanwhile : List InboxCall
  pub thrown : Option String
  pub finished_at : ℕ

pub record InboxProcessor : Type 0 where
  pub consumer_name : String
  pub worker_id : String
  pub handle : InboxEvent → Handling
  pub lease_duration_ms : ℕ

-- The constructor's checks; `lease` is the option, 30 seconds where it is absent.
unfoldable pub create_processor :
    String → String → (InboxEvent → Handling) → Option ℕ → Result InboxProcessor
create_processor consumer worker handle lease = do
  throw_if (consumer == "") (failure "inbox consumerName is required")
  throw_if (worker == "") (failure "inbox workerId is required")
  let duration = or_else lease 30000
  throw_if (ltb duration 1) (failure "inbox leaseDurationMs must be a positive integer")
  ok (record {
    consumer_name = consumer;
    worker_id = worker;
    handle = handle;
    lease_duration_ms = duration;
  })

-- What `process` returns, or the `errorMessage` of what it throws.
pub data ProcessOutcome : Type 0 where
  processed already_done in_progress : ProcessOutcome
  throws : String → ProcessOutcome

module _ (host : Host) (p : InboxProcessor) where
  abbrev pub inbox_options : InboxEvent → ℕ → ClaimInboxOptions
  inbox_options event now = record {
    consumer_name = p.consumer_name;
    event_id = event.event_id;
    fingerprint = sha256 host event.value;
    worker_id = p.worker_id;
    now = now;
    lease_duration_ms = p.lease_duration_ms;
  }

  -- The `catch`: the receipt is released, and the error thrown again unless the release throws.
  unfoldable pub abandon : InboxEvent → String → Inbox → ProcessOutcome × Inbox
  abandon event error t = elim (release_inbox p.consumer_name event.event_id p.worker_id error t) [
    | ok t' ↦ (throws error, t')
    | err fault ↦ (throws (error_message fault), t)
  ]

  -- After the handler: a completion that throws is caught as a failure of the handler is.
  unfoldable pub conclude :
      InboxEvent → (thrown : Option String) → (finished_at : ℕ) → Inbox → ProcessOutcome × Inbox
  conclude event (some error) finished_at t = abandon event error t
  conclude event none finished_at t =
      elim (complete_inbox p.consumer_name event.event_id p.worker_id finished_at t) [
        | ok t' ↦ (processed, t')
        | err fault ↦ abandon event (error_message fault) t
      ]

  unfoldable pub after_claim : InboxEvent → InboxClaim → Inbox → ProcessOutcome × Inbox
  after_claim event (duplicate r) t = (already_done, t)
  after_claim event (busy r) t = (in_progress, t)
  after_claim event (acquired r) t =
      let handling = p.handle event in
      conclude event handling.thrown handling.finished_at (run t handling.meanwhile)

  unfoldable pub process : InboxEvent → ℕ → Inbox → ProcessOutcome × Inbox
  process event now t =
      if (event.event_id == "")
      then (throws "Error: inbox event_id is required", t)
      else elim (claim_inbox (inbox_options event now) t) [
        | ok (claim, t') ↦ after_claim event claim t'
        | err fault ↦ (throws (error_message fault), t)
      ]
