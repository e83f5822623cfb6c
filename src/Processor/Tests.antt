-- ===== src/Processor/Tests.antt =====
-- The inbox and its processor at concrete receipts: runs, and the theorems at inputs that meet their
-- hypotheses.
use onyx_ifem.Prelude.{
  ℕ, ◌≡◌, refl, true, none, some, String, List, [], ◌∷◌, arith, if◌then◌else◌, ◌==◌, ◌+◌, ltb,
}
use onyx_ifem.Json.{Json, Host, sha256}
use onyx_ifem.Contracts.Errors.{ok, err, failure}
use onyx_ifem.Sqlite.Table.{first, update, count}
use onyx_ifem.Sqlite.Instants.{iso, max_time}
use onyx_ifem.Sqlite.Outbox.{slice_units}
use onyx_ifem.Sqlite.Inbox.{
  InboxRow, Inbox, ClaimInboxOptions, acquired, duplicate, claim_inbox, claim_stored, claim_again,
  complete_inbox, release_inbox, update_held, get_inbox_receipt, received, complete, release,
}
use onyx_ifem.Sqlite.Inbox.Steps.{InboxCall, claims, completes, releases, step, run, row_step}
use onyx_ifem.Sqlite.Inbox.Rows.{step-get_inbox_receipt}
use onyx_ifem.Sqlite.Inbox.Safety.{run-completed, run-held, run-Follows, Follows}
use onyx_ifem.Processor.{
  InboxEvent, InboxProcessor, processed, already_done, inbox_options, process, after_claim,
  conclude, abandon,
}
use onyx_ifem.Processor.Outcomes.{process-acquired, left_by, outcome_of}
use onyx_ifem.Processor.Once.{process-process}

abbrev quiet_host : Host
quiet_host = record {
  stringify = λ _. "{}";
  locale_le = λ _ _. true;
  digest = λ s. s;
  date_parse = λ _. none;
}

abbrev options : String → ℕ → ClaimInboxOptions
options worker now = record {
  consumer_name = "mail";
  event_id = "e1";
  fingerprint = "f";
  worker_id = worker;
  now = now;
  lease_duration_ms = 50;
}

abbrev held : InboxRow
held = received (options "w" 10)

abbrev done_row : InboxRow
done_row = complete (iso 20) held

-- The other worker's calls while `w` holds the receipt until 60.
abbrev others : List InboxCall
others = claims (options "v" 40) ∷ completes "mail" "e1" "v" 41 ∷ releases "mail" "e2" "w" "no" ∷ []

runs : Unit {0}
unfolding step run claim_inbox claim_stored claim_again complete_inbox release_inbox update_held
    get_inbox_receipt first update count slice_units sha256 process after_claim conclude abandon
runs = tt

taken_over :
    get_inbox_receipt "mail" "e1" (run (held ∷ []) (claims (options "v" 60) ∷ []))
    ≡ some (record held {
      lease_owner = some "v";
      lease_expires_at = some (iso 110);
      attempt_count = 2;
    })
unfolding runs
taken_over = refl

step-get_inbox_receipt_example :
    get_inbox_receipt "mail" "e1" (step (held ∷ []) (completes "mail" "e1" "w" 20))
    ≡ row_step "mail" "e1"
        (completes "mail" "e1" "w" 20)
        (get_inbox_receipt "mail" "e1" (held ∷ []))
step-get_inbox_receipt_example =
    step-get_inbox_receipt "mail" "e1" (completes "mail" "e1" "w" 20) (held ∷ []) (tt, tt)

find_held : get_inbox_receipt "mail" "e1" (held ∷ []) ≡ some held
unfolding runs
find_held = refl

find_done : get_inbox_receipt "mail" "e1" (done_row ∷ []) ≡ some done_row
unfolding runs
find_done = refl

run-completed_example :
    (get_inbox_receipt "mail" "e1" (run (done_row ∷ []) others) ≡ some done_row)
    × (claim_inbox (options "v" 99) (run (done_row ∷ []) others) ≡ (
        if (ltb max_time (99 + (options "v" 99).lease_duration_ms))
        then err (failure "Invalid time value")
        else if (done_row.fingerprint == (options "v" 99).fingerprint)
        then ok (duplicate done_row, run (done_row ∷ []) others)
        else err (failure "inbox event fingerprint mismatch")))
run-completed_example =
    run-completed "mail" "e1" others (done_row ∷ []) done_row (iso 20) (options "v" 99) (tt, tt)
      find_done refl refl refl refl (omega arith)

run-held_example :
    (get_inbox_receipt "mail" "e1" (run (held ∷ []) others) ≡ some held)
    × ((at : ℕ)
        → (t' : Inbox) × (complete_inbox "mail" "e1" "w" at (run (held ∷ []) others) ≡ ok t')
          × (get_inbox_receipt "mail" "e1" t' ≡ some (complete (iso at) held)))
    × ((error : String)
        → (t' : Inbox) × (release_inbox "mail" "e1" "w" error (run (held ∷ []) others) ≡ ok t')
          × (get_inbox_receipt "mail" "e1" t' ≡ some (release (slice_units 2048 error) held)))
run-held_example =
    run-held "mail" "e1" "w" others (held ∷ []) held (iso 60) (tt, tt) find_held refl refl
      (omega arith, (refl, (refl, tt)))

run-Follows_example :
    (s : InboxRow) × (get_inbox_receipt "mail" "e1" (run (held ∷ []) others) ≡ some s)
    × Follows held s
run-Follows_example = run-Follows "mail" "e1" others (held ∷ []) held (tt, tt) find_held

abbrev mailer : String → InboxProcessor
mailer worker = record {
  consumer_name = "mail";
  worker_id = worker;
  handle =
      λ _. record { meanwhile = claims (options "v" 40) ∷ []; thrown = none; finished_at = 20 };
  lease_duration_ms = 50;
}

abbrev event : InboxEvent
event = record { event_id = "e1"; value = Json.null }

abbrev first_receipt : InboxRow
first_receipt = received (inbox_options quiet_host (mailer "w") event 10)

claim_first :
    claim_inbox (inbox_options quiet_host (mailer "w") event 10) []
    ≡ ok (acquired first_receipt, first_receipt ∷ [])
unfolding runs
claim_first = refl

process_first :
    process quiet_host (mailer "w") event 10 [] ≡ (processed, complete (iso 20) first_receipt ∷ [])
unfolding runs
process_first = refl

process-acquired_example :
    (t'' : Inbox) × (process quiet_host (mailer "w") event 10 [] ≡ (outcome_of none, t''))
    × (get_inbox_receipt "mail" "e1" t'' ≡ some (left_by none 20 first_receipt))
process-acquired_example =
    process-acquired quiet_host (mailer "w") event 10 [] (first_receipt ∷ []) first_receipt tt refl
      claim_first (omega arith, tt)

process-process_example :
    process quiet_host (mailer "v") event 70 (run (complete (iso 20) first_receipt ∷ []) others)
    ≡ (already_done, run (complete (iso 20) first_receipt ∷ []) others)
unfolding runs
process-process_example =
    process-process quiet_host (mailer "w") (mailer "v") event 10 70 others []
      (complete (iso 20) first_receipt ∷ []) tt refl refl refl (omega arith) (omega arith)
      process_first
