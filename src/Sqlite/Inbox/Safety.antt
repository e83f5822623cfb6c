-- ===== src/Sqlite/Inbox/Safety.antt =====
-- What no history of calls does to a receipt: change a completed one, take one whose lease runs, or forget
-- the fingerprint of the event.
use onyx_ifem.Prelude.{
  ℕ, ◌≤◌, ◌<◌, ◌≡◌, refl, ap, ◌∙◌, true, false, ◌&&◌, some, String, List, [], ◌∷◌, arith, ◌==◌,
  if◌then◌else◌, All, inl, inr, Bool-cases, Option-cases, eq_iff, ◌+◌, ltb,
}
use onyx_ifem.Contracts.Errors.{ok, err, failure}
use onyx_ifem.Sqlite.Table.{first, update, first-update}
use onyx_ifem.Sqlite.Instants.{Instant, iso, max_time}
use onyx_ifem.Sqlite.Outbox.{slice_units}
use onyx_ifem.Sqlite.Inbox.{
  InboxRow, Inbox, ClaimInboxOptions, duplicate, is_receipt, is_held, get_inbox_receipt, acquire,
  has_blank, claim_again, claim_stored, claim_inbox, complete, release, update_held, complete_inbox,
  release_inbox,
}
use onyx_ifem.Sqlite.Inbox.Steps.{
  InboxCall, claims, completes, releases, run, same_receipt, HasUniqueReceipts, is_left_by,
  row_step, row_run,
}
use onyx_ifem.Sqlite.Inbox.Rows.{count_of_member, is_held-apart}
use onyx_ifem.Sqlite.Inbox.Histories.{run-get_inbox_receipt, run-HasUniqueReceipts}

completed_stays :
    (c e : String) (call : InboxCall) (r : InboxRow) (at : Instant)
    → r.completed_at ≡ some at
    → row_step c e call (some r) ≡ some r
completed_stays c e (claims o) r at done = ground (arith, done)
completed_stays c e (completes c' e' worker t) r at done = ground (arith, done)
completed_stays c e (releases c' e' worker error) r at done = ground (arith, done)

run_row-completed :
    (c e : String) (calls : List InboxCall) (r : InboxRow) (at : Instant)
    → r.completed_at ≡ some at
    → row_run c e calls (some r) ≡ some r
run_row-completed c e [] r at done = refl
run_row-completed c e (call ∷ calls) r at done =
    ap (row_run c e calls) (completed_stays c e call r at done)
    ∙ run_row-completed c e calls r at done

-- A call by another worker, or of another key, or a claim before the lease ends.
abbrev pub IsOutside : String → String → String → Instant → InboxCall → Type 0
IsOutside c e worker end_ (claims o) = iso o.now < end_
IsOutside c e worker end_ (completes c' e' worker' at) =
    ((c' == c && e' == e) && worker' == worker) ≡ false
IsOutside c e worker end_ (releases c' e' worker' error) =
    ((c' == c && e' == e) && worker' == worker) ≡ false

not_held :
    (c e worker c' e' w : String) (r : InboxRow)
    → is_held c e worker r ≡ true
    → ((c' == c && e' == e) && w == worker) ≡ false
    → is_held c' e' w r ≡ false
not_held c e worker c' e' w r held outside = elim (Option-cases r.lease_owner) [
  | inl free ↦ ground (arith, held, free)
  | inr (s, owned) ↦ ground (
    arith,
    held,
    outside,
    owned,
    eq_iff s worker,
    eq_iff s w,
    eq_iff w worker,
    eq_iff r.consumer_name c,
    eq_iff r.consumer_name c',
    eq_iff c' c,
    eq_iff r.event_id e,
    eq_iff r.event_id e',
    eq_iff e' e,
  )
]

held_stays :
    (c e worker : String) (end_ : Instant) (call : InboxCall) (r : InboxRow)
    → is_held c e worker r ≡ true
    → r.lease_expires_at ≡ some end_
    → IsOutside c e worker end_ call
    → row_step c e call (some r) ≡ some r
held_stays c e worker end_ (claims o) r held running outside = ground (arith, running, outside)
held_stays c e worker end_ (completes c' e' w at) r held running outside =
    rw (not_held c e worker c' e' w r held outside) refl
held_stays c e worker end_ (releases c' e' w error) r held running outside =
    rw (not_held c e worker c' e' w r held outside) refl

run_row-held :
    (c e worker : String) (end_ : Instant) (calls : List InboxCall) (r : InboxRow)
    → is_held c e worker r ≡ true
    → r.lease_expires_at ≡ some end_
    → All (IsOutside c e worker end_) calls
    → row_run c e calls (some r) ≡ some r
run_row-held c e worker end_ [] r held running outside = refl
run_row-held c e worker end_ (call ∷ calls) r held running (here, there) =
    ap (row_run c e calls) (held_stays c e worker end_ call r held running here)
    ∙ run_row-held c e worker end_ calls r held running there

-- In a table with one row for each key, once an event is completed for a consumer, no history of calls of any
-- workers changes its receipt; and after each such history a claim of the event with no blank field and a
-- positive lease, by any worker and at any time, gets `duplicate` with that
-- receipt if the event has the same fingerprint, and throws if it has another or if the lease would end beyond
-- the last date, and writes nothing.
pub run-completed :
    (c e : String) (calls : List InboxCall) (t : Inbox) (r : InboxRow) (at : Instant)
    (o : ClaimInboxOptions)
    → HasUniqueReceipts t
    → get_inbox_receipt c e t ≡ some r
    → r.completed_at ≡ some at
    → o.consumer_name ≡ c
    → o.event_id ≡ e
    → has_blank o ≡ false
    → 1 ≤ o.lease_duration_ms
    → (get_inbox_receipt c e (run t calls) ≡ some r)
      × (claim_inbox o (run t calls) ≡ (
          if (ltb max_time (o.now + o.lease_duration_ms))
          then err (failure "Invalid time value")
          else if (r.fingerprint == o.fingerprint)
          then ok (duplicate r, run t calls)
          else err (failure "inbox event fingerprint mismatch")))
unfolding claim_inbox claim_stored claim_again get_inbox_receipt
run-completed c e calls t r at o u found done ec ee filled lasting =
    let same : first (is_receipt c e) (run t calls) ≡ some r =
      run-get_inbox_receipt c e calls t u
      ∙ ap (row_run c e calls) found
      ∙ run_row-completed c e calls r at done in
    let there : first (is_receipt o.consumer_name o.event_id) (run t calls) ≡ some r =
      ap (λ k. first (is_receipt k o.event_id) (run t calls)) ec
      ∙ ap (λ k. first (is_receipt c k) (run t calls)) ee
      ∙ same in
    (
      same,
      elim (Bool-cases (ltb max_time (o.now + o.lease_duration_ms))) [
        | inl beyond ↦ rw there (ground (arith, filled, lasting, beyond))
        | inr fits ↦ rw (there, fits) (ground (arith, filled, lasting, done, fits))
      ],
    )

update_held-ok :
    (c e worker : String) (f : InboxRow → InboxRow) (t : Inbox) (r : InboxRow)
    → ((x : InboxRow) → is_receipt c e (f x) ≡ is_receipt c e x)
    → HasUniqueReceipts t
    → get_inbox_receipt c e t ≡ some r
    → is_held c e worker r ≡ true
    → (t' : Inbox) × (update_held c e worker f t ≡ ok t') × (get_inbox_receipt c e t' ≡ some (f r))
unfolding update_held get_inbox_receipt
update_held-ok c e worker f t r keep u found held =
    let one =
      count_of_member same_receipt (is_receipt c e) (is_held c e worker) t
        (is_held-apart c e worker) u found held in
    (
      update (is_held c e worker) f t,
      rw one refl,
      first-update (is_receipt c e) (is_held c e worker) f t keep ∙ rw (found, held) refl,
    )

-- In a table with one row for each key, while a worker holds the receipt of an event and its lease runs, no history of calls from outside (other
-- workers' completions and releases, calls of other keys, and claims before the end of the lease) changes
-- the receipt; after each such history the worker's completion and its release both succeed, and leave the
-- completed and the released receipt.
pub run-held :
    (c e worker : String) (calls : List InboxCall) (t : Inbox) (r : InboxRow) (end_ : Instant)
    → HasUniqueReceipts t
    → get_inbox_receipt c e t ≡ some r
    → is_held c e worker r ≡ true
    → r.lease_expires_at ≡ some end_
    → All (IsOutside c e worker end_) calls
    → (get_inbox_receipt c e (run t calls) ≡ some r)
      × ((at : ℕ)
          → (t' : Inbox) × (complete_inbox c e worker at (run t calls) ≡ ok t')
            × (get_inbox_receipt c e t' ≡ some (complete (iso at) r)))
      × ((error : String)
          → (t' : Inbox) × (release_inbox c e worker error (run t calls) ≡ ok t')
            × (get_inbox_receipt c e t' ≡ some (release (slice_units 2048 error) r)))
unfolding complete_inbox release_inbox
run-held c e worker calls t r end_ u found held running outside =
    let same : get_inbox_receipt c e (run t calls) ≡ some r =
      run-get_inbox_receipt c e calls t u
      ∙ ap (row_run c e calls) found
      ∙ run_row-held c e worker end_ calls r held running outside in
    let u' = run-HasUniqueReceipts calls t u in
    (
      same,
      λ at. update_held-ok c e worker (complete (iso at)) (run t calls) r (λ x. refl) u' same held,
      λ error.
          update_held-ok c e worker (release (slice_units 2048 error)) (run t calls) r (λ x. refl)
            u' same held,
    )

-- What stays of a receipt: its event's fingerprint and the time it was received; its attempts only grow.
abbrev pub Follows : InboxRow → InboxRow → Type 0
Follows r s =
    (s.fingerprint ≡ r.fingerprint)
    × (s.received_at ≡ r.received_at)
    × (r.attempt_count ≤ s.attempt_count)

Follows-trans : (r s u : InboxRow) → Follows r s → Follows s u → Follows r u
Follows-trans r s u (f, e, n) (f', e', n') = (f' ∙ f, e' ∙ e, omega (arith, n, n'))

row_step-Follows :
    (c e : String) (call : InboxCall) (r : InboxRow)
    → (s : InboxRow) × (row_step c e call (some r) ≡ some s) × Follows r s
row_step-Follows c e (claims o) r = elim (Bool-cases (o.consumer_name == c && o.event_id == e)) [
  | inl own ↦ elim (Bool-cases (is_left_by o r)) [
    | inl left ↦ (r, rw (own, left) refl, (refl, refl, omega arith))
    | inr taken ↦ (acquire o r, rw (own, taken) refl, (refl, refl, omega arith))
  ]
  | inr other ↦ (r, rw other refl, (refl, refl, omega arith))
]
row_step-Follows c e (completes c' e' w at) r = elim (Bool-cases (is_held c' e' w r)) [
  | inl held ↦ (complete (iso at) r, rw held refl, (refl, refl, omega arith))
  | inr other ↦ (r, rw other refl, (refl, refl, omega arith))
]
row_step-Follows c e (releases c' e' w error) r = elim (Bool-cases (is_held c' e' w r)) [
  | inl held ↦ (release (slice_units 2048 error) r, rw held refl, (refl, refl, omega arith))
  | inr other ↦ (r, rw other refl, (refl, refl, omega arith))
]

run_row-Follows :
    (c e : String) (calls : List InboxCall) (r : InboxRow)
    → (s : InboxRow) × (row_run c e calls (some r) ≡ some s) × Follows r s
run_row-Follows c e [] r = (r, refl, (refl, refl, omega arith))
run_row-Follows c e (call ∷ calls) r =
    let (s, stepped, follows) = row_step-Follows c e call r in
    let (u, ran, follows') = run_row-Follows c e calls s in
    (u, ap (row_run c e calls) stepped ∙ ran, Follows-trans r s u follows follows')

-- In a table with one row for each key, no history of calls removes a receipt or changes the fingerprint or the time it was received with, and
-- its count of attempts never falls.
pub run-Follows :
    (c e : String) (calls : List InboxCall) (t : Inbox) (r : InboxRow)
    → HasUniqueReceipts t
    → get_inbox_receipt c e t ≡ some r
    → (s : InboxRow) × (get_inbox_receipt c e (run t calls) ≡ some s) × Follows r s
run-Follows c e calls t r u found =
    let (s, ran, follows) = run_row-Follows c e calls r in
    (s, run-get_inbox_receipt c e calls t u ∙ ap (row_run c e calls) found ∙ ran, follows)
