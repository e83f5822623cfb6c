-- ===== src/Sqlite/Outbox/Retry.antt =====
-- A rejection followed by a claim.
use onyx_ifem.Prelude.{
  ℕ, ◌≤◌, ◌<◌, ◌≡◌, ap, ◌∙◌, true, false, some, String, List, arith, leb, if◌then◌else◌, inl, inr,
  Bool-cases, subst,
}
use onyx_ifem.Json.{Host}
use onyx_ifem.Contracts.Errors.{ok}
use onyx_ifem.Sqlite.Keys.{any}
use onyx_ifem.Sqlite.Instants.{iso}
use onyx_ifem.Sqlite.Outbox.{
  OutboxRow, Outbox, has_event_id, is_ready, is_leased_to, is_owned_by, bury, postpone, slice_units,
  get_outbox_row, reject_outbox, Disposition, claim_outbox, ClaimOutboxOptions, claimable,
  lease_end,
}
use onyx_ifem.Sqlite.Outbox.Lookup.{HasUniqueEvents}
use onyx_ifem.Sqlite.Outbox.Steps.{rejects, step, reject_outbox-table}
use onyx_ifem.Sqlite.Outbox.Moves.{claimed-ready}
use onyx_ifem.Sqlite.Outbox.Claim.{claim_outbox-messages, any-lease}
use onyx_ifem.Sqlite.Outbox.Safety.{step-HasUniqueEvents}
use onyx_ifem.Sqlite.Outbox.Outcomes.{first-leased, rejected, reject_outbox_lem}

module _ (host : Host) (e worker error : String) (failed_at retry_at max_attempts : ℕ) (t : Outbox)
    (r : OutboxRow) (t' : Outbox) (d : Disposition) (u : HasUniqueEvents t)
    (h : get_outbox_row e t ≡ some r)
    (done : reject_outbox e worker error failed_at retry_at max_attempts t ≡ ok (d, t')) where
  table_after : HasUniqueEvents t'
  table_after =
      subst HasUniqueEvents same
        (step-HasUniqueEvents host t (rejects e worker error failed_at retry_at max_attempts) u)
    where
      same : step host t (rejects e worker error failed_at retry_at max_attempts) ≡ t'
      same = unfold step in rw done

  was_leased : is_leased_to e worker r ≡ true
  was_leased =
      let (row, found, table) =
        reject_outbox-table e worker error failed_at retry_at max_attempts t done in
      ground (arith, found, first-leased e worker t r u h)

  same_table : t' ≡ rejected e worker error failed_at retry_at max_attempts r.attempt_count t
  same_table =
      let (row, found, table) =
        reject_outbox-table e worker error failed_at retry_at max_attempts t done in
      let same : row ≡ r = ground (arith, found, first-leased e worker t r u h, was_leased) in
      table
      ∙ ap (λ q. rejected e worker error failed_at retry_at max_attempts q.attempt_count t) same

  some_attempt : 1 ≤ max_attempts
  unfolding reject_outbox
  some_attempt = ground (arith, done)

  row_after :
      get_outbox_row e t'
      ≡ some (
          if leb max_attempts r.attempt_count
          then bury (iso failed_at) (slice_units 2048 error) r
          else postpone (iso retry_at) (slice_units 2048 error) r)
  row_after =
      ap (get_outbox_row e) same_table
      ∙ (reject_outbox_lem e worker error failed_at retry_at max_attempts t r some_attempt u h).1
      ∙ rw owned
    where
      owned : is_owned_by e worker r ≡ true
      owned = ground (arith, was_leased)

  not_ready :
      (now : ℕ)
      → now < retry_at
      → is_ready (iso now) (
          if leb max_attempts r.attempt_count
          then bury (iso failed_at) (slice_units 2048 error) r
          else postpone (iso retry_at) (slice_units 2048 error) r)
        ≡ false
  not_ready now early = ground arith

-- After its rejection a message is not handed out by a claim before the retry instant, whether it was
-- put off or dead-lettered.
pub claim_outbox-reject_outbox :
    (host : Host) (e worker error : String) (failed_at retry_at max_attempts : ℕ) (t : Outbox)
    (r : OutboxRow) (o : ClaimOutboxOptions) {d : Disposition} {t' t2 : Outbox}
    {ms : List OutboxRow}
    → HasUniqueEvents t
    → get_outbox_row e t ≡ some r
    → reject_outbox e worker error failed_at retry_at max_attempts t ≡ ok (d, t')
    → claim_outbox host o t' ≡ ok (ms, t2)
    → o.now < retry_at
    → any (has_event_id e) ms ≡ false
claim_outbox-reject_outbox host e worker error failed_at retry_at max_attempts t r o {d} {t'} {t2}
      {ms} u h done claimed early =
    let (messages, table) = claim_outbox-messages host o t' claimed in
    rw messages (
      any-lease e o.worker_id (lease_end o) (claimable o t')
      ∙ elim (Bool-cases (any (has_event_id e) (claimable o t'))) [
        | inr miss ↦ miss
        | inl hit ↦ absurd (ground (arith, ready hit, asleep))
      ])
  where
    ready :
        any (has_event_id e) (claimable o t') ≡ true
        → is_ready (iso o.now) (
            if leb max_attempts r.attempt_count
            then bury (iso failed_at) (slice_units 2048 error) r
            else postpone (iso retry_at) (slice_units 2048 error) r)
          ≡ true
    ready hit =
        claimed-ready e t' _
          (table_after host e worker error failed_at retry_at max_attempts t r t' d u h done)
          (row_after host e worker error failed_at retry_at max_attempts t r t' d u h done) o hit

    asleep :
        is_ready (iso o.now) (
          if leb max_attempts r.attempt_count
          then bury (iso failed_at) (slice_units 2048 error) r
          else postpone (iso retry_at) (slice_units 2048 error) r)
        ≡ false
    asleep =
        not_ready host e worker error failed_at retry_at max_attempts t r t' d u h done o.now early
