-- ===== src/Sqlite/Outbox/Steps.antt =====
-- The outbox as a machine: a call of any worker is a step of the table, and each step of the table is a
-- move of each message's own row.
use onyx_ifem.Prelude.{
  ℕ, ◌≤◌, ◌<◌, ◌≡◌, true, some, String, List, [], ◌∷◌, arith, leb, if◌then◌else◌, Option-cases, inl,
  inr,
}
use onyx_ifem.Json.{Host}
use onyx_ifem.Contracts.Errors.{Result, ok, err}
use onyx_ifem.Sqlite.Table.{first, update}
use onyx_ifem.Sqlite.Instants.{iso}
use onyx_ifem.Sqlite.Outbox.{
  OutboxRow, Outbox, is_ready, is_leased_to, is_owned_by, lease, lease_end, lease_all,
  ClaimOutboxOptions, claimable, claim_outbox, deliver, acknowledge_outbox, bury, postpone,
  reject_outbox, slice_units, Disposition,
}

pub data OutboxCall : Type 0 where
  claims : ClaimOutboxOptions → OutboxCall
  acknowledges : (event worker : String) (delivered_at : ℕ) → OutboxCall
  rejects : (event worker error : String) (failed_at retry_at max_attempts : ℕ) → OutboxCall

-- A call that throws leaves the table as it was.
abbrev after {ℓ} : {A : Type ℓ} → Outbox → (A → Outbox) → Result A → Outbox
after t table (ok a) = table a
after t table (err _) = t

module _ (host : Host) where
  unfoldable pub step : Outbox → OutboxCall → Outbox
  step t (claims o) = after t (λ r. r.1) (claim_outbox host o t)
  step t (acknowledges e worker at) = after t (λ r. r) (acknowledge_outbox e worker at t)
  step t (rejects e worker error failed_at retry_at max_attempts) =
      after t (λ r. r.1) (reject_outbox e worker error failed_at retry_at max_attempts t)

  unfoldable pub run : Outbox → List OutboxCall → Outbox
  run t [] = t
  run t (c ∷ cs) = run (step t c) cs

-- What a call may do to the row of one message.
pub data Move (r s : OutboxRow) : OutboxCall → Type 0 where
  stays : {c : OutboxCall} → s ≡ r → Move r s c
  leases :
      {o : ClaimOutboxOptions}
      → is_ready (iso o.now) r ≡ true
      → s ≡ lease o.worker_id (lease_end o) r
      → Move r s (claims o)
  delivers :
      {e worker : String} {at : ℕ}
      → is_leased_to e worker r ≡ true
      → s ≡ deliver (iso at) r
      → Move r s (acknowledges e worker at)
  buries :
      {e worker error : String} {failed_at retry_at max_attempts : ℕ}
      → is_leased_to e worker r ≡ true
      → max_attempts ≤ r.attempt_count
      → s ≡ bury (iso failed_at) (slice_units 2048 error) r
      → Move r s (rejects e worker error failed_at retry_at max_attempts)
  postpones :
      {e worker error : String} {failed_at retry_at max_attempts : ℕ}
      → is_leased_to e worker r ≡ true
      → r.attempt_count < max_attempts
      → s ≡ postpone (iso retry_at) (slice_units 2048 error) r
      → Move r s (rejects e worker error failed_at retry_at max_attempts)

-- The table that a successful call leaves.
pub claim_outbox-table :
    (host : Host) (o : ClaimOutboxOptions) (t : Outbox) {ms : List OutboxRow} {t' : Outbox}
    → claim_outbox host o t ≡ ok (ms, t')
    → t' ≡ lease_all o.worker_id (lease_end o) (claimable o t) t
unfolding claim_outbox
claim_outbox-table host o t h = ground arith

pub acknowledge_outbox-table :
    (k worker : String) (at : ℕ) (t : Outbox) {t' : Outbox}
    → acknowledge_outbox k worker at t ≡ ok t'
    → t' ≡ update (is_leased_to k worker) (deliver (iso at)) t
unfolding acknowledge_outbox
acknowledge_outbox-table k worker at t h = ground arith

pub reject_outbox-table :
    (k worker error : String) (failed_at retry_at max_attempts : ℕ) (t : Outbox) {d : Disposition}
    {t' : Outbox}
    → reject_outbox k worker error failed_at retry_at max_attempts t ≡ ok (d, t')
    → let last_error = slice_units 2048 error in
      (row : OutboxRow) × (first (is_leased_to k worker) t ≡ some row)
      × (t' ≡ (
          if leb max_attempts row.attempt_count
          then update (is_owned_by k worker) (bury (iso failed_at) last_error) t
          else update (is_owned_by k worker) (postpone (iso retry_at) last_error) t))
unfolding reject_outbox
reject_outbox-table k worker error failed_at retry_at max_attempts t h =
    elim (Option-cases (first (is_leased_to k worker) t)) [
      | inl missing ↦ absurd (ground (arith, missing))
      | inr (row, found) ↦ (row, found, ground (arith, found))
    ]
