-- ===== src/Dispatcher.antt =====
-- src/infrastructure/outbox/dispatcher.ts: one batch of deliveries. What happens while `publish` is awaited
-- is an input: for each message its `Delivery` says which calls of the store other workers make in the
-- meantime, whether the promise is rejected and with what message, and the time after it.
pub mod Trace
pub mod Progress
mod Tests
use onyx_ifem.Prelude.{
  ℕ, suc, ◌+◌, ◌*◌, ◌-◌, ◌^◌, min, Option, none, some, String, List, [], ◌∷◌, ltb, ◌==◌,
  if◌then◌else◌, length,
}
use Prim.Native.String.{◌++◌ as ◌<>◌}
use onyx_ifem.Json.{Host}
use onyx_ifem.Contracts.Errors.{Result, ok, err, Fault, onyx, failure, ◌>>=◌, ◌>>◌, throw_if}
use onyx_ifem.Sqlite.Outbox.{
  OutboxRow, Outbox, ClaimOutboxOptions, claim_outbox, acknowledge_outbox, reject_outbox,
  Disposition, retry, dead_letter,
}
use onyx_ifem.Sqlite.Outbox.Steps.{OutboxCall, run}

pub record Delivery : Type 0 where
  pub meanwhile : List OutboxCall
  pub thrown : Option String
  pub finished_at : ℕ

pub record OutboxDispatcher : Type 0 where
  pub worker_id : String
  pub publish : OutboxRow → Delivery
  pub batch_size : ℕ
  pub lease_duration_ms : ℕ
  pub max_attempts : ℕ
  pub retry_delay_ms : ℕ → ℕ

-- `positiveInteger`, on a natural number.
unfoldable pub positive_integer : ℕ → String → ℕ → Result ℕ
positive_integer value name maximum =
    if ltb value 1
    then err (failure (name <> " must be a positive integer"))
    else if ltb maximum value
    then err (failure (name <> " must be a positive integer"))
    else ok value

abbrev pub max_safe_integer : ℕ
max_safe_integer = 2 ^ 53 - 1

-- The default of `retryDelayMs`.
unfoldable pub default_retry_delay : ℕ → ℕ
default_retry_delay attempt = min 60000 (1000 * 2 ^ (attempt - 1))

-- The constructor's checks.
unfoldable pub create : OutboxDispatcher → Result OutboxDispatcher
unfolding positive_integer
create options = do
  throw_if (options.worker_id == "") (failure "outbox workerId is required")
  batch_size ← positive_integer options.batch_size "batchSize" 1000
  lease_duration_ms ← positive_integer options.lease_duration_ms "leaseDurationMs" max_safe_integer
  max_attempts ← positive_integer options.max_attempts "maxAttempts" max_safe_integer
  ok (record options {
    batch_size = batch_size;
    lease_duration_ms = lease_duration_ms;
    max_attempts = max_attempts;
  })

pub record DispatchResult : Type 0 where
  pub claimed : ℕ
  pub delivered : ℕ
  pub retried : ℕ
  pub dead_lettered : ℕ

-- `errorMessage` of a thrown error.
abbrev pub error_message : Fault → String
error_message (failure message) = "Error: " <> message
error_message (onyx code message) = "OnyxError: " <> message

abbrev pub tally : Disposition → DispatchResult → DispatchResult
tally retry result = record result { retried = suc result.retried }
tally dead_letter result = record result { dead_lettered = suc result.dead_lettered }

module _ (host : Host) (d : OutboxDispatcher) where
  -- The body of the `catch`: what it throws ends the batch.
  unfoldable pub give_back : OutboxRow → String → ℕ → Outbox → Result (Disposition × Outbox)
  give_back message error failed_at t = do
    delay ← positive_integer (d.retry_delay_ms message.attempt_count) "retry delay" max_safe_integer
    reject_outbox message.event_id d.worker_id error failed_at (failed_at + delay) d.max_attempts t

  unfoldable pub handle_failure :
      OutboxRow → String → ℕ → DispatchResult → Outbox → Result DispatchResult × Outbox
  handle_failure message error failed_at result t = elim (give_back message error failed_at t) [
    | ok (disposition, t') ↦ (ok (tally disposition result), t')
    | err fault ↦ (err fault, t)
  ]

  -- After the publication: an acknowledgement that throws is caught as a failed publication is.
  unfoldable pub settle :
      OutboxRow → Delivery → DispatchResult → Outbox → Result DispatchResult × Outbox
  settle message delivery result t = elim delivery.thrown [
    | some error ↦ handle_failure message error delivery.finished_at result t
    | none ↦ elim (acknowledge_outbox message.event_id d.worker_id delivery.finished_at t) [
      | ok t' ↦ (ok (record result { delivered = suc result.delivered }), t')
      | err fault ↦ handle_failure message (error_message fault) delivery.finished_at result t
    ]
  ]

  -- The loop over the claimed messages; a throw ends it and keeps what has been written.
  unfoldable pub deliver_all :
      List OutboxRow → DispatchResult → Outbox → Result DispatchResult × Outbox
  deliver_all [] result t = (ok result, t)
  deliver_all (message ∷ messages) result t =
      let delivery = d.publish message in
      let (settled, t') = settle message delivery result (run host t delivery.meanwhile) in
      elim settled [ ok result' ↦ deliver_all messages result' t' | err fault ↦ (err fault, t') ]

  abbrev pub claim_options : ℕ → ClaimOutboxOptions
  claim_options now = record {
    worker_id = d.worker_id;
    now = now;
    lease_duration_ms = d.lease_duration_ms;
    limit = d.batch_size;
  }

  abbrev pub started : List OutboxRow → DispatchResult
  started messages = record {
    claimed = length messages;
    delivered = 0;
    retried = 0;
    dead_lettered = 0;
  }

  unfoldable pub run_once : ℕ → Outbox → Result DispatchResult × Outbox
  run_once now t = elim (claim_outbox host (claim_options now) t) [
    | ok (messages, t') ↦ deliver_all messages (started messages) t'
    | err fault ↦ (err fault, t)
  ]
