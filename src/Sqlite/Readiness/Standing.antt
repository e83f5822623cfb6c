-- ===== src/Sqlite/Readiness/Standing.antt =====
-- The state of each message and receipt at an instant, by the source's columns; what the snapshot counts.
use onyx_ifem.Prelude.{
  ℕ, zero, suc, ◌+◌, ◌≡◌, refl, ap, ◌∙◌, Bool, true, false, not, ◌&&◌, Option, none, some, List, [],
  ◌∷◌, ltb, leb, is_none, min, arith, All, length, length-map, map, take, if◌then◌else◌, Bool-cases,
  ◌⊎◌, inl, inr,
}
use onyx_ifem.Json.{Host}
use onyx_ifem.Contracts.Errors.{ok, err, Fault, Result-cases}
use onyx_ifem.Sqlite.Table.{count, select, order_by, insert_by}
use onyx_ifem.Sqlite.Instants.{Instant, iso}
use onyx_ifem.Sqlite.Outbox.{
  OutboxRow, Outbox, is_open, is_ready, ClaimOutboxOptions, claimable, claim_outbox, lease_end,
  lease, claim_order,
}
use onyx_ifem.Sqlite.Outbox.Safety.{IsValidRow}
use onyx_ifem.Sqlite.Outbox.Claim.{claim_outbox-messages}
use onyx_ifem.Sqlite.Inbox.{InboxRow, Inbox}
use onyx_ifem.Sqlite.Readiness.{readiness, is_leased_open, is_processing, is_retryable}

pub data Standing : Type 0 where
  delivered dead_lettered leased due scheduled : Standing

-- A message that nobody holds is due from `available_at` on.
abbrev waits : Instant → Instant → Standing
waits available_at now = if leb available_at now then due else scheduled

-- Of `delivered_at`, `dead_lettered_at`, the end of the lease and `available_at`.
abbrev standing : Option Instant → Option Instant → Option Instant → Instant → Instant → Standing
standing (some _) b l a now = delivered
standing none (some _) l a now = dead_lettered
standing none none (some expires) a now = if ltb now expires then leased else waits a now
standing none none none a now = waits a now

abbrev pub standing_of : Instant → OutboxRow → Standing
standing_of now r = standing r.delivered_at r.dead_lettered_at r.lease_expires_at r.available_at now

abbrev is_same : Standing → Standing → Bool
is_same delivered delivered = true
is_same dead_lettered dead_lettered = true
is_same leased leased = true
is_same due due = true
is_same scheduled scheduled = true
is_same _ _ = false

-- How many messages stand in this way.
abbrev pub standing_so : Standing → Instant → Outbox → ℕ
standing_so s now rows = count (is_same s) (map (standing_of now) rows)

pub data ReceiptStanding : Type 0 where
  completed processing retryable : ReceiptStanding

-- Of `completed_at` and the end of the lease.
abbrev receipt_standing : Option Instant → Option Instant → Instant → ReceiptStanding
receipt_standing (some _) l now = completed
receipt_standing none (some expires) now = if ltb now expires then processing else retryable
receipt_standing none none now = retryable

abbrev pub receipt_standing_of : Instant → InboxRow → ReceiptStanding
receipt_standing_of now r = receipt_standing r.completed_at r.lease_expires_at now

abbrev is_same_receipt : ReceiptStanding → ReceiptStanding → Bool
is_same_receipt completed completed = true
is_same_receipt processing processing = true
is_same_receipt retryable retryable = true
is_same_receipt _ _ = false

abbrev pub receipts_standing_so : ReceiptStanding → Instant → Inbox → ℕ
receipts_standing_so s now rows = count (is_same_receipt s) (map (receipt_standing_of now) rows)

count-map {ℓ κ ν} :
    {A : Type ℓ} {B : Type κ} (P : A → Type ν) (f : A → B) (p : A → Bool) (q : B → Bool)
    → ((x : A) → P x → p x ≡ q (f x))
    → (xs : List A) → All P xs
    → count p xs ≡ count q (map f xs)
unfolding count
count-map P f p q same [] h = refl
count-map P f p q same (x ∷ xs) (here, there) = rw (same x here, count-map P f p q same xs there)

abbrev is_pending : Standing → Bool
is_pending s = not (is_same delivered s) && not (is_same dead_lettered s)

module _ (now : Instant) (r : OutboxRow) where
  is_ready-due : is_ready now r ≡ is_same due (standing_of now r)
  is_ready-due = ground arith

  is_leased_open-leased : is_leased_open now r ≡ is_same leased (standing_of now r)
  is_leased_open-leased = ground arith

  delivered_at-delivered : not (is_none r.delivered_at) ≡ is_same delivered (standing_of now r)
  delivered_at-delivered = ground arith

  dead_lettered_at-dead_lettered :
      IsValidRow r → not (is_none r.dead_lettered_at) ≡ is_same dead_lettered (standing_of now r)
  dead_lettered_at-dead_lettered v = ground (arith, v.not_both)

  is_open-pending : is_open r ≡ is_pending (standing_of now r)
  is_open-pending = ground arith

module _ (now : Instant) (r : InboxRow) where
  completed_at-completed :
      not (is_none r.completed_at) ≡ is_same_receipt completed (receipt_standing_of now r)
  completed_at-completed = ground arith

  is_processing-processing :
      is_processing now r ≡ is_same_receipt processing (receipt_standing_of now r)
  is_processing-processing = ground arith

  is_retryable-retryable :
      is_retryable now r ≡ is_same_receipt retryable (receipt_standing_of now r)
  is_retryable-retryable = ground arith

pending_sum :
    (ss : List Standing)
    → count is_pending ss
      ≡ count (is_same due) ss + (count (is_same leased) ss + count (is_same scheduled) ss)
unfolding count
pending_sum [] = refl
pending_sum (delivered ∷ ss) = pending_sum ss
pending_sum (dead_lettered ∷ ss) = pending_sum ss
pending_sum (leased ∷ ss) = omega (arith, pending_sum ss)
pending_sum (due ∷ ss) = omega (arith, pending_sum ss)
pending_sum (scheduled ∷ ss) = omega (arith, pending_sum ss)

All-unit {ℓ} : {A : Type ℓ} (xs : List A) → All (λ _. Unit {0}) xs
All-unit [] = tt
All-unit (x ∷ xs) = (tt, All-unit xs)

module _ {ℓ} {A : Type ℓ} where
  length-select : (p : A → Bool) (xs : List A) → length (select p xs) ≡ count p xs
  unfolding select count
  length-select p [] = refl
  length-select p (x ∷ xs) = elim (Bool-cases (p x)) [
    | inl e ↦ rw e (ap suc (length-select p xs))
    | inr e ↦ rw e (length-select p xs)
  ]

  length-insert_by :
      (le : A → A → Bool) (x : A) (xs : List A) → length (insert_by le x xs) ≡ suc (length xs)
  unfolding insert_by
  length-insert_by le x [] = refl
  length-insert_by le x (y ∷ ys) = elim (Bool-cases (le x y)) [
    | inl e ↦ rw e refl
    | inr e ↦ rw e (ap suc (length-insert_by le x ys))
  ]

  length-order_by : (le : A → A → Bool) (xs : List A) → length (order_by le xs) ≡ length xs
  unfolding order_by
  length-order_by le [] = refl
  length-order_by le (x ∷ xs) =
      length-insert_by le x (order_by le xs) ∙ ap suc (length-order_by le xs)

  length-take : (n : ℕ) (xs : List A) → length (take n xs) ≡ min n (length xs)
  length-take zero xs = omega arith
  length-take (suc n) [] = omega arith
  length-take (suc n) (x ∷ xs) = omega (arith, length-take n xs)

length-claimable :
    (o : ClaimOutboxOptions) (t : Outbox)
    → length (claimable o t) ≡ min o.limit (count (is_ready (iso o.now)) t)
unfolding claimable
length-claimable o t =
    let chosen = select (is_ready (iso o.now)) t in
    omega (
      arith,
      length-take o.limit (order_by claim_order chosen),
      length-order_by claim_order chosen,
      length-select (is_ready (iso o.now)) t,
    )

claim_takes :
    (host : Host) (outbox : Outbox) (o : ClaimOutboxOptions)
    → ((fault : Fault) × (claim_outbox host o outbox ≡ err fault))
      ⊎ ((ms : List OutboxRow) × (t' : Outbox) × (claim_outbox host o outbox ≡ ok (ms, t'))
          × (length ms ≡ min o.limit (count (is_ready (iso o.now)) outbox)))
claim_takes host outbox o = elim (Result-cases (claim_outbox host o outbox)) [
  | inl thrown ↦ inl thrown
  | inr ((ms, t'), claimed) ↦ inr (
    ms,
    t',
    claimed,
    ap length (claim_outbox-messages host o outbox claimed).0
        ∙ (length-map (claimable o outbox) (lease o.worker_id (lease_end o))
            ∙ length-claimable o outbox),
  )
]

-- The counts of the snapshot, that of the failed receipts left aside, are the messages and the receipts by
-- their standing: a message is delivered, dead-lettered, leased while its lease lasts, or else due from
-- `available_at` on and scheduled before; a receipt is completed, processing while its lease lasts, or else
-- retryable. A message is pending when it is due, leased or scheduled. A claim at the snapshot's instant throws,
-- or takes as many messages as are ready, up to its limit. The messages meet the CHECK of their table.
pub readiness_lem :
    (host : Host) (outbox : Outbox) (inbox : Inbox) (o : ClaimOutboxOptions)
    → All IsValidRow outbox
    → ((readiness o.now outbox inbox).outbox.ready ≡ standing_so due (iso o.now) outbox)
      × ((readiness o.now outbox inbox).outbox.leased ≡ standing_so leased (iso o.now) outbox)
      × ((readiness o.now outbox inbox).outbox.delivered ≡ standing_so delivered (iso o.now) outbox)
      × ((readiness o.now outbox inbox).outbox.dead_lettered
          ≡ standing_so dead_lettered (iso o.now) outbox)
      × ((readiness o.now outbox inbox).outbox.pending
          ≡ standing_so due (iso o.now) outbox
            + (standing_so leased (iso o.now) outbox + standing_so scheduled (iso o.now) outbox))
      × ((readiness o.now outbox inbox).inbox.completed
          ≡ receipts_standing_so completed (iso o.now) inbox)
      × ((readiness o.now outbox inbox).inbox.processing
          ≡ receipts_standing_so processing (iso o.now) inbox)
      × ((readiness o.now outbox inbox).inbox.retryable
          ≡ receipts_standing_so retryable (iso o.now) inbox)
      × (((fault : Fault) × (claim_outbox host o outbox ≡ err fault))
          ⊎ ((ms : List OutboxRow) × (t' : Outbox) × (claim_outbox host o outbox ≡ ok (ms, t'))
              × (length ms ≡ min o.limit (readiness o.now outbox inbox).outbox.ready)))
unfolding readiness
readiness_lem host outbox inbox o valid =
    let now = iso o.now in
    let each = All-unit outbox in
    let each_receipt = All-unit inbox in
    (
      count-map _ (standing_of now) _ (is_same due) (λ r _. is_ready-due now r) outbox each,
      count-map _ (standing_of now) _ (is_same leased) (λ r _. is_leased_open-leased now r) outbox
          each,
      count-map _ (standing_of now) _ (is_same delivered) (λ r _. delivered_at-delivered now r)
          outbox each,
      count-map _ (standing_of now) _ (is_same dead_lettered)
          (λ r v. dead_lettered_at-dead_lettered now r v) outbox valid,
      count-map _ (standing_of now) _ is_pending (λ r _. is_open-pending now r) outbox each
          ∙ pending_sum (map (standing_of now) outbox),
      count-map _ (receipt_standing_of now) _ (is_same_receipt completed)
          (λ r _. completed_at-completed now r) inbox each_receipt,
      count-map _ (receipt_standing_of now) _ (is_same_receipt processing)
          (λ r _. is_processing-processing now r) inbox each_receipt,
      count-map _ (receipt_standing_of now) _ (is_same_receipt retryable)
          (λ r _. is_retryable-retryable now r) inbox each_receipt,
      claim_takes host outbox o,
    )
