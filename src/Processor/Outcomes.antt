-- ===== src/Processor/Outcomes.antt =====
-- What a processor's call comes to: an event whose lease is not disturbed is completed or released.
use onyx_ifem.Prelude.{ℕ, ◌≡◌, refl, false, Option, none, some, String, ◌==◌, All}
use onyx_ifem.Json.{Host}
use onyx_ifem.Contracts.Errors.{ok}
use onyx_ifem.Sqlite.Instants.{iso}
use onyx_ifem.Sqlite.Outbox.{slice_units}
use onyx_ifem.Sqlite.Inbox.{
  InboxRow, Inbox, acquired, get_inbox_receipt, claim_inbox, complete, release, complete_inbox,
  release_inbox, inbox_lease_end,
}
use onyx_ifem.Sqlite.Inbox.Steps.{run, HasUniqueReceipts}
use onyx_ifem.Sqlite.Inbox.Safety.{IsOutside, run-held}
use onyx_ifem.Processor.{
  InboxEvent, InboxProcessor, ProcessOutcome, processed, throws, inbox_options, abandon, conclude,
  after_claim, process,
}
use onyx_ifem.Processor.Claims.{claim_inbox-acquired, claim_inbox-Unique}

-- What the handler's end makes of the call, and of the receipt.
abbrev pub outcome_of : Option String → ProcessOutcome
outcome_of none = processed
outcome_of (some error) = throws error

abbrev pub left_by : Option String → ℕ → InboxRow → InboxRow
left_by none finished_at r = complete (iso finished_at) r
left_by (some error) finished_at r = release (slice_units 2048 error) r

module _ (host : Host) (p : InboxProcessor) where
  conclude_held :
      (event : InboxEvent) (thrown : Option String) (at : ℕ) (t : Inbox) (r : InboxRow)
      → ((t' : Inbox) × (complete_inbox p.consumer_name event.event_id p.worker_id at t ≡ ok t')
          × (get_inbox_receipt p.consumer_name event.event_id t' ≡ some (complete (iso at) r)))
      → ((error : String)
          → (t' : Inbox) × (release_inbox p.consumer_name event.event_id p.worker_id error t
              ≡ ok t')
            × (get_inbox_receipt p.consumer_name event.event_id t'
                ≡ some (release (slice_units 2048 error) r)))
      → (t' : Inbox) × (conclude host p event thrown at t ≡ (outcome_of thrown, t'))
        × (get_inbox_receipt p.consumer_name event.event_id t' ≡ some (left_by thrown at r))
  unfolding conclude abandon
  conclude_held event none at t r (t', done, receipt) releases_it =
      (t', rw (done, conclude) refl, receipt)
  conclude_held event (some error) at t r _ releases_it =
      let (t', done, receipt) = releases_it error in
      (t', rw (done, conclude, abandon) refl, receipt)

  -- In a table with one row for each key, an event with an id that the processor acquires, and whose receipt only calls from outside meet while it is
  -- handled, is processed if the handler returns, and its receipt is completed then; if the handler
  -- throws, the call throws the same error, and the receipt is released with that error.
  pub process-acquired :
      (event : InboxEvent) (now : ℕ) (t t' : Inbox) (r : InboxRow)
      → HasUniqueReceipts t
      → (event.event_id == "") ≡ false
      → claim_inbox (inbox_options host p event now) t ≡ ok (acquired r, t')
      → All
          (IsOutside p.consumer_name event.event_id p.worker_id
            (inbox_lease_end (inbox_options host p event now)))
          (p.handle event).meanwhile
      → (t'' : Inbox) × (process host p event now t ≡ (outcome_of (p.handle event).thrown, t''))
        × (get_inbox_receipt p.consumer_name event.event_id t''
            ≡ some (left_by (p.handle event).thrown (p.handle event).finished_at r))
  unfolding process after_claim
  process-acquired event now t t' r u named claimed outside =
      let (found, (same, held, running)) =
        claim_inbox-acquired (inbox_options host p event now) t t' r claimed in
      let u' = claim_inbox-Unique (inbox_options host p event now) t t' (acquired r) claimed u in
      let (_, completes_it, releases_it) =
        run-held p.consumer_name event.event_id p.worker_id (p.handle event).meanwhile t' r
          (inbox_lease_end (inbox_options host p event now)) u' found held running outside in
      let (t'', ended, receipt) =
        conclude_held event (p.handle event).thrown (p.handle event).finished_at
          (run t' (p.handle event).meanwhile) r (completes_it (p.handle event).finished_at)
          releases_it in
      (t'', rw (named, claimed) ended, receipt)
