-- ===== src/Processor/Once.antt =====
-- A processed event is never handled again.
use onyx_ifem.Prelude.{
  ℕ, ◌≤◌, ◌≡◌, refl, sym, ap, ◌∙◌, subst, true, false, Option, none, some, String, List, arith,
  ◌==◌, inl, inr, Bool-cases, eq_iff, ◌+◌, ltb,
}
use onyx_ifem.Json.{Host, sha256}
use onyx_ifem.Contracts.Errors.{ok, Result-cases}
use onyx_ifem.Sqlite.Table.{first, update, count, first-update}
use onyx_ifem.Sqlite.Keys.{first-of_count}
use onyx_ifem.Sqlite.Instants.{Instant, iso, max_time}
use onyx_ifem.Sqlite.Inbox.{
  InboxRow, Inbox, InboxClaim, duplicate, busy, acquired, is_receipt, is_held, get_inbox_receipt,
  has_blank, claim_inbox, complete, update_held, complete_inbox, release_inbox,
}
use onyx_ifem.Sqlite.Inbox.Steps.{
  InboxCall, completes, after, step, run, same_receipt, HasUniqueReceipts,
}
use onyx_ifem.Sqlite.Inbox.Rows.{is_held_of, is_receipt-apart}
use onyx_ifem.Sqlite.Inbox.Histories.{run-HasUniqueReceipts, step-HasUniqueReceipts}
use onyx_ifem.Sqlite.Inbox.Safety.{run-Follows, run-completed}
use onyx_ifem.Processor.{
  InboxEvent, InboxProcessor, processed, already_done, inbox_options, abandon, conclude,
  after_claim, process,
}
use onyx_ifem.Processor.Claims.{claim_inbox-acquired, claim_inbox-Unique}

complete_inbox-held :
    (c e worker : String) (at : ℕ) (t t' : Inbox)
    → HasUniqueReceipts t
    → complete_inbox c e worker at t ≡ ok t'
    → (r : InboxRow) × (get_inbox_receipt c e t ≡ some r)
      × (get_inbox_receipt c e t' ≡ some (complete (iso at) r))
unfolding complete_inbox update_held get_inbox_receipt
complete_inbox-held c e worker at t t' u h =
    let (one, rows) : (count (is_held c e worker) t ≡ 1)
        × (update (is_held c e worker) (complete (iso at)) t ≡ t') =
      ground (arith, h) in
    let (r, found, held) =
      first-of_count same_receipt (is_receipt c e) (is_held c e worker) t (is_held_of c e worker)
        (is_receipt-apart c e) u one in
    (
      r,
      found,
      ap (first (is_receipt c e)) (sym rows)
          ∙ first-update (is_receipt c e) (is_held c e worker) (complete (iso at)) t (λ x. refl)
          ∙ rw (found, held) refl,
    )

complete_inbox-Unique :
    (c e worker : String) (at : ℕ) (t t' : Inbox)
    → HasUniqueReceipts t
    → complete_inbox c e worker at t ≡ ok t'
    → HasUniqueReceipts t'
unfolding step
complete_inbox-Unique c e worker at t t' u h =
    let same : step t (completes c e worker at) ≡ t' = ap (after t (λ x. x)) h in
    subst HasUniqueReceipts same (step-HasUniqueReceipts (completes c e worker at) t u)

-- What a call that returns `processed` has done.
abbrev pub IsProcessed : InboxProcessor → InboxEvent → String → Inbox → Type 0
IsProcessed p event fingerprint t =
    (r : InboxRow) × (at : Instant) × (get_inbox_receipt p.consumer_name event.event_id t ≡ some r)
    × (r.completed_at ≡ some at)
    × (r.fingerprint ≡ fingerprint)

some-injective : {A : Type 0} {x y : A} → some x ≡ some y → x ≡ y
some-injective h = cc

module _ (host : Host) (p : InboxProcessor) where
  abandon-throws :
      (event : InboxEvent) (error : String) (t t' : Inbox)
      → abandon host p event error t ≡ (processed, t')
      → ⊥
  unfolding abandon
  abandon-throws event error t t' h =
      elim (Result-cases (release_inbox p.consumer_name event.event_id p.worker_id error t)) [
        | inl (fault, failed) ↦ ground (arith, h, failed)
        | inr (released, done) ↦ ground (arith, h, done)
      ]

  conclude-processed :
      (event : InboxEvent) (thrown : Option String) (at : ℕ) (t t' : Inbox)
      → conclude host p event thrown at t ≡ (processed, t')
      → complete_inbox p.consumer_name event.event_id p.worker_id at t ≡ ok t'
  unfolding conclude
  conclude-processed event (some error) at t t' h = absurd (abandon-throws event error t t' h)
  conclude-processed event none at t t' h =
      elim (Result-cases (complete_inbox p.consumer_name event.event_id p.worker_id at t)) [
        | inl (fault, failed) ↦ absurd (abandon-throws event _ t t' (rw (failed, conclude) at h))
        | inr (t'', done) ↦ done ∙ ap (λ x. ok (x.1)) (rw (done, conclude) at h)
      ]

module _ (host : Host) (p : InboxProcessor) where
  after_claim-processed :
      (event : InboxEvent) (claim : InboxClaim) (t t' : Inbox)
      → after_claim host p event claim t ≡ (processed, t')
      → (r : InboxRow) × (claim ≡ acquired r)
        × (complete_inbox p.consumer_name event.event_id p.worker_id
              (p.handle event).finished_at
              (run t (p.handle event).meanwhile)
            ≡ ok t')
  unfolding after_claim
  after_claim-processed event (duplicate r) t t' h = absurd (ground (arith, h))
  after_claim-processed event (busy r) t t' h = absurd (ground (arith, h))
  after_claim-processed event (acquired r) t t' h = (
    r,
    refl,
    conclude-processed host p event (p.handle event).thrown (p.handle event).finished_at _ t' h,
  )

  process-processed :
      (event : InboxEvent) (now : ℕ) (t t' : Inbox)
      → process host p event now t ≡ (processed, t')
      → (claim : InboxClaim) × (t1 : Inbox) × ((event.event_id == "") ≡ false)
        × (claim_inbox (inbox_options host p event now) t ≡ ok (claim, t1))
        × (after_claim host p event claim t1 ≡ (processed, t'))
  unfolding process
  process-processed event now t t' h = elim (Bool-cases (event.event_id == "")) [
    | inl blank ↦ absurd (ground (arith, h, blank))
    | inr named ↦ elim (Result-cases (claim_inbox (inbox_options host p event now) t)) [
      | inl (fault, failed) ↦ absurd (ground (arith, h, named, failed))
      | inr ((claim, t1), claimed) ↦ (claim, t1, named, claimed, (rw (named, claimed) at h))
    ]
  ]

  -- A call that returns `processed` leaves a completed receipt with the fingerprint of the event.
  process-IsProcessed :
      (event : InboxEvent) (now : ℕ) (t t' : Inbox)
      → HasUniqueReceipts t
      → process host p event now t ≡ (processed, t')
      → IsProcessed p event (sha256 host event.value) t' × HasUniqueReceipts t'
  process-IsProcessed event now t t' u h =
      let o = inbox_options host p event now in
      let calls = (p.handle event).meanwhile in
      let (claim, t1, named, claimed, ended) = process-processed event now t t' h in
      let (r, is_acquired, done) = after_claim-processed event claim t1 t' ended in
      let claimed' : claim_inbox o t ≡ ok (acquired r, t1) =
        claimed ∙ ap (λ x. ok (x, t1)) is_acquired in
      let (found, (same, _, _)) = claim_inbox-acquired o t t1 r claimed' in
      let u1 = claim_inbox-Unique o t t1 (acquired r) claimed' u in
      let u2 = run-HasUniqueReceipts calls t1 u1 in
      let (s, there, (kept, _, _)) =
        run-Follows p.consumer_name event.event_id calls t1 r u1 found in
      let (s', there', receipt) =
        complete_inbox-held p.consumer_name event.event_id p.worker_id (p.handle event).finished_at
          (run t1 calls) t' u2 done in
      let same_row : s ≡ s' = some-injective (sym there ∙ there') in
      (
        (
          complete (iso (p.handle event).finished_at) s',
          iso (p.handle event).finished_at,
          receipt,
          refl,
          ap (λ x. x.fingerprint) (sym same_row) ∙ kept ∙ same,
        ),
        complete_inbox-Unique p.consumer_name event.event_id p.worker_id
            (p.handle event).finished_at (run t1 calls) t' u2 done,
      )

-- Once a call of one processor on a table with one row for each key has returned `processed`, then after
-- every history of calls of any workers a call for the same event by any processor of the same consumer,
-- with a worker id, a non-empty fingerprint and a positive lease that ends by the last date, returns `duplicate` and writes nothing:
-- no handler of the consumer runs for the event again.
pub process-process :
    (host : Host) (p q : InboxProcessor) (event : InboxEvent) (now later : ℕ)
    (calls : List InboxCall) (t t' : Inbox)
    → HasUniqueReceipts t
    → q.consumer_name ≡ p.consumer_name
    → (event.event_id == "") ≡ false
    → has_blank (inbox_options host q event later) ≡ false
    → 1 ≤ q.lease_duration_ms
    → later + q.lease_duration_ms ≤ max_time
    → process host p event now t ≡ (processed, t')
    → process host q event later (run t' calls) ≡ (already_done, run t' calls)
unfolding process after_claim
process-process host p q event now later calls t t' u same_consumer named filled lasting fits h =
    let ((r, at, found, done, same), u') = process-IsProcessed host p event now t t' u h in
    let (_, claimed) =
      run-completed p.consumer_name event.event_id calls t' r at (inbox_options host q event later)
        u' found done same_consumer refl filled lasting in
    let match : (r.fingerprint == sha256 host event.value) ≡ true =
      ground (arith, same, eq_iff r.fingerprint (sha256 host event.value)) in
    let valid : ltb max_time (later + q.lease_duration_ms) ≡ false = ground (arith, fits) in
    rw (named, claimed, valid, match) refl
