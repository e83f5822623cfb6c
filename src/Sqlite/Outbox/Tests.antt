-- ===== src/Sqlite/Outbox/Tests.antt =====
-- The outbox at concrete tables: runs of the calls, and the theorems at inputs that meet their hypotheses.
use mathlib.Core.Option
use onyx_ifem.Prelude.{
  ℕ, ◌≡◌, refl, ◌≢◌, true, false, none, some, String, [], ◌∷◌, arith, All, length, ◌≤◌,
  if◌then◌else◌, eq_iff,
}
use onyx_ifem.Json.{Json, Host}
use onyx_ifem.Contracts.Errors.{ok}
use onyx_ifem.Sqlite.Table.{select, first, update, count, order_by}
use onyx_ifem.Sqlite.Keys.{any}
use onyx_ifem.Sqlite.Instants.{iso, recorded}
use onyx_ifem.Sqlite.StoredEvent.{stored_event, executable_event_profiles}
use onyx_ifem.Sqlite.Outbox.{
  OutboxRow, Outbox, has_event_id, is_leased_to, deliver, lease, claimable, lease_all,
  ClaimOutboxOptions, claim_outbox, to_outbox_message, to_outbox_messages, get_outbox_row,
  acknowledge_outbox, reject_outbox, slice_units, retry,
}
use onyx_ifem.Sqlite.Outbox.Lookup.{HasUniqueEvents}
use onyx_ifem.Sqlite.Outbox.Steps.{claims, acknowledges, rejects, step, run}
use onyx_ifem.Sqlite.Outbox.Moves.{Moved, step-Moved}
use onyx_ifem.Sqlite.Outbox.Safety.{
  IsValidRow, SameMessage, run-SameMessage, run-settled, run-leased,
}
use onyx_ifem.Sqlite.Outbox.Claim.{IsClaimed, claim_outbox-IsClaimed}
use onyx_ifem.Sqlite.Outbox.Outcomes.{
  acknowledge_outbox_lem, reject_outbox_lem, not_leased, rejected,
}
use onyx_ifem.Sqlite.Outbox.Retry.{claim_outbox-reject_outbox}

-- A host whose digests are empty and that parses no date; the contexts below have no profile.
abbrev plain_host : Host
plain_host = record {
  stringify = λ _. "";
  locale_le = λ _ _. true;
  digest = λ s. s;
  date_parse = λ _. none;
}

abbrev queued : String → ℕ → OutboxRow
queued e at = record {
  event_id = e;
  context = "demo";
  aggregate_id = "a";
  aggregate_version = 1;
  organization_id = "org";
  event_type = "Demo";
  event_json = Json.null;
  attempt_count = 0;
  available_at = recorded at;
  lease_owner = none;
  lease_expires_at = none;
  delivered_at = none;
  dead_lettered_at = none;
  last_error = none;
}

abbrev claim_at : String → ℕ → ClaimOutboxOptions
claim_at worker now = record { worker_id = worker; now = now; lease_duration_ms = 50; limit = 1 }

abbrev table : Outbox
table = queued "e2" 20 ∷ queued "e1" 10 ∷ []

-- `e1` after worker w has claimed it at 30.
abbrev leased_row : OutboxRow
leased_row = lease "w" (iso 80) (queued "e1" 10)

abbrev leased_table : Outbox
leased_table = queued "e2" 20 ∷ leased_row ∷ []

outbox : Unit {0}
unfolding claim_outbox claimable select order_by lease_all update to_outbox_message
    to_outbox_messages stored_event executable_event_profiles get_outbox_row first count
    acknowledge_outbox reject_outbox step run any slice_units
outbox = tt

-- The oldest available message goes out.
claim_oldest : claim_outbox plain_host (claim_at "w" 30) table ≡ ok (leased_row ∷ [], leased_table)
unfolding outbox
claim_oldest = refl

acknowledge_leased :
    acknowledge_outbox "e1" "w" 60 leased_table
    ≡ ok (queued "e2" 20 ∷ deliver (iso 60) leased_row ∷ [])
unfolding outbox
acknowledge_leased = refl

acknowledge_stranger : acknowledge_outbox "e1" "v" 60 leased_table ≡ not_leased
unfolding outbox
acknowledge_stranger = refl

table-HasUniqueEvents : HasUniqueEvents table
table-HasUniqueEvents = ((refl, tt), (tt, tt))

leased_table-HasUniqueEvents : HasUniqueEvents leased_table
leased_table-HasUniqueEvents = ((refl, tt), (tt, tt))

step-Moved_example :
    Moved "e1"
      (queued "e1" 10)
      (claims (claim_at "w" 30))
      (step plain_host table (claims (claim_at "w" 30)))
unfolding outbox
step-Moved_example =
    step-Moved plain_host "e1" table (queued "e1" 10) (claims (claim_at "w" 30))
      table-HasUniqueEvents refl

run-SameMessage_example :
    (s : OutboxRow) × (get_outbox_row "e1"
        (run plain_host table (claims (claim_at "w" 30) ∷ rejects "e1" "w" "late" 40 90 3 ∷ []))
      ≡ some s)
    × (SameMessage (queued "e1" 10) s × IsValidRow s)
unfolding outbox
run-SameMessage_example =
    run-SameMessage plain_host "e1" table (queued "e1" 10)
      (claims (claim_at "w" 30) ∷ rejects "e1" "w" "late" 40 90 3 ∷ []) table-HasUniqueEvents refl
      (record { not_both = refl; lease_paired = refl })

run-settled_example :
    get_outbox_row "e1" (
      run plain_host
        (deliver 5 leased_row ∷ [])
        (claims (claim_at "w" 30) ∷ acknowledges "e1" "w" 7 ∷ []))
    ≡ some (deliver 5 leased_row)
unfolding outbox
run-settled_example =
    run-settled plain_host "e1" (deliver 5 leased_row ∷ []) (deliver 5 leased_row)
      (claims (claim_at "w" 30) ∷ acknowledges "e1" "w" 7 ∷ []) (tt, tt) refl refl

run-leased_example :
    get_outbox_row "e1"
      (run plain_host leased_table (claims (claim_at "v" 60) ∷ acknowledges "e1" "v" 61 ∷ []))
    ≡ some leased_row
unfolding outbox
run-leased_example =
    run-leased plain_host "e1" "w" (iso 80) leased_table leased_row
      (claims (claim_at "v" 60) ∷ acknowledges "e1" "v" 61 ∷ []) leased_table-HasUniqueEvents refl
      refl refl (omega arith, (v_is_not_w, tt))
  where
    v_is_not_w : ◌≢◌ {A = String} "v" "w"
    v_is_not_w = ground (arith, eq_iff "v" "w")

claim_outbox-IsClaimed_example :
    (length (leased_row ∷ []) ≤ 1)
    × All (IsClaimed (claim_at "w" 30) table leased_table) (leased_row ∷ [])
    × ((e : String)
        → get_outbox_row e leased_table ≡ (
            if any (has_event_id e) (leased_row ∷ [])
            then Option.map (lease "w" (iso 80)) (get_outbox_row e table)
            else get_outbox_row e table))
claim_outbox-IsClaimed_example =
    claim_outbox-IsClaimed plain_host (claim_at "w" 30) table table-HasUniqueEvents claim_oldest

acknowledge_outbox_lem_example :
    (acknowledge_outbox "e1" "w" 60 leased_table
      ≡ ok (update (is_leased_to "e1" "w") (deliver (iso 60)) leased_table))
    × (get_outbox_row "e1" (update (is_leased_to "e1" "w") (deliver (iso 60)) leased_table)
        ≡ some (deliver (iso 60) leased_row))
unfolding outbox
acknowledge_outbox_lem_example =
    acknowledge_outbox_lem "e1" "w" 60 leased_table leased_row leased_table-HasUniqueEvents refl

reject_outbox_lem_example :
    (reject_outbox "e1" "w" "late" 60 90 3 leased_table
      ≡ ok (retry, rejected "e1" "w" "late" 60 90 3 1 leased_table))
    × (get_outbox_row "e1" (rejected "e1" "w" "late" 60 90 3 1 leased_table)
        ≡ some (record (queued "e1" 10) {
          available_at = iso 90;
          attempt_count = 1;
          last_error = some "late";
        }))
unfolding outbox
reject_outbox_lem_example =
    reject_outbox_lem "e1" "w" "late" 60 90 3 leased_table leased_row (omega arith)
      leased_table-HasUniqueEvents refl

reject_late :
    reject_outbox "e1" "w" "late" 60 90 3 leased_table
    ≡ ok (retry, rejected "e1" "w" "late" 60 90 3 1 leased_table)
unfolding outbox
reject_late = refl

-- Worker v then gets the other message.
claim_next :
    claim_outbox plain_host (claim_at "v" 61) (rejected "e1" "w" "late" 60 90 3 1 leased_table)
    ≡ ok (
      lease "v" (iso 111) (queued "e2" 20) ∷ [],
      lease_all "v"
          (iso 111)
          (queued "e2" 20 ∷ [])
          (rejected "e1" "w" "late" 60 90 3 1 leased_table),
    )
unfolding outbox
claim_next = refl

claim_outbox-reject_outbox_example :
    any (has_event_id "e1") (lease "v" (iso 111) (queued "e2" 20) ∷ []) ≡ false
unfolding get_outbox_row first
claim_outbox-reject_outbox_example =
    claim_outbox-reject_outbox plain_host "e1" "w" "late" 60 90 3 leased_table leased_row
      (claim_at "v" 61) leased_table-HasUniqueEvents refl reject_late claim_next (omega arith)
