-- ===== src/Sqlite/Outbox/Moves.antt =====
-- Each call of a worker makes a move of each message's own row: the table refines, message by message, the
-- small machine `Move`.
use mathlib.Core.Option
use onyx_ifem.Prelude.{
  ℕ, ◌≡◌, refl, ◌∙◌, ap, Bool, true, false, some, String, arith, ◌==◌, leb, if◌then◌else◌, All-both,
  Bool-cases, inl, inr, eq_iff, subst,
}
use onyx_ifem.Json.{Host}
use onyx_ifem.Contracts.Errors.{Result-cases}
use onyx_ifem.Sqlite.Table.{first, update, first-update, first-some, All-first}
use onyx_ifem.Sqlite.Keys.{any, any-All}
use onyx_ifem.Sqlite.Instants.{iso}
use onyx_ifem.Sqlite.Outbox.{
  OutboxRow, Outbox, has_event_id, is_ready, is_leased_to, is_owned_by, lease, lease_end, lease_all,
  ClaimOutboxOptions, claimable, claim_outbox, get_outbox_row, deliver, acknowledge_outbox, bury,
  postpone, reject_outbox, slice_units,
}
use onyx_ifem.Sqlite.Outbox.Lookup.{
  HasUniqueEvents, Unique-claimable, claimable-ready, claimable-All, get-event, get-only,
  get-lease_all,
}
use onyx_ifem.Sqlite.Outbox.Steps.{
  OutboxCall, claims, acknowledges, rejects, step, Move, stays, leases, delivers, buries, postpones,
  claim_outbox-table, acknowledge_outbox-table, reject_outbox-table,
}

-- The message of event `e`, whose row was `r`, has made a move of the call `c`.
abbrev pub Moved : String → OutboxRow → OutboxCall → Outbox → Type 0
Moved e r c t' = (s : OutboxRow) × (get_outbox_row e t' ≡ some s) × Move r s c

module _ (e : String) (t : Outbox) (r : OutboxRow) (u : HasUniqueEvents t)
    (h : get_outbox_row e t ≡ some r) where
  pub claimed-ready :
      (o : ClaimOutboxOptions)
      → any (has_event_id e) (claimable o t) ≡ true
      → is_ready (iso o.now) r ≡ true
  claimed-ready o hit =
      let (a, here, (ready, same)) =
        any-All (λ s. (is_ready (iso o.now) s ≡ true) × (has_event_id e s ≡ true → s ≡ r))
          (has_event_id e) (claimable o t) hit
          (All-both _ _ (claimable o t) (claimable-ready o t)
            (claimable-All _ o t (get-only e t u h))) in
      subst (λ s. is_ready (iso o.now) s ≡ true) (same here) ready

  claimed-Moves :
      (o : ClaimOutboxOptions)
      → Moved e r (claims o) (lease_all o.worker_id (lease_end o) (claimable o t) t)
  claimed-Moves o = elim (Bool-cases (any (has_event_id e) (claimable o t))) [
    | inl hit ↦
        (lease o.worker_id (lease_end o) r, got ∙ rw (hit, h), leases (claimed-ready o hit) refl)
    | inr miss ↦ (r, got ∙ rw (miss, h), stays refl)
  ]
    where
      got : get_outbox_row e (lease_all o.worker_id (lease_end o) (claimable o t) t) ≡ (
          if any (has_event_id e) (claimable o t)
          then Option.map (lease o.worker_id (lease_end o)) (get_outbox_row e t)
          else get_outbox_row e t)
      got = get-lease_all e o.worker_id (lease_end o) (claimable o t) t (Unique-claimable o t u)

  -- An UPDATE of the rows that a test picks, by a function that keeps the event id.
  pub get-update_where :
      (q : OutboxRow → Bool) (f : OutboxRow → OutboxRow)
      → ((s : OutboxRow) → (f s).event_id ≡ s.event_id)
      → get_outbox_row e (update q f t) ≡ some (if q r then f r else r)
  unfolding get_outbox_row
  get-update_where q f keep =
      first-update (has_event_id e) q f t (λ s. ap (λ i. i == e) (keep s)) ∙ rw h

  acknowledged-Moves :
      (k worker : String) (at : ℕ)
      → Moved e r (acknowledges k worker at) (update (is_leased_to k worker) (deliver (iso at)) t)
  acknowledged-Moves k worker at = elim (Bool-cases (is_leased_to k worker r)) [
    | inl hit ↦ (deliver (iso at) r, got ∙ rw hit, delivers hit refl)
    | inr miss ↦ (r, got ∙ rw miss, stays refl)
  ]
    where
      got :
          get_outbox_row e (update (is_leased_to k worker) (deliver (iso at)) t)
          ≡ some (if is_leased_to k worker r then deliver (iso at) r else r)
      got = get-update_where (is_leased_to k worker) (deliver (iso at)) (λ s. refl)

  -- The row that `rejectOutbox` reads is the row that it writes.
  rejected-row :
      (k worker : String) (row : OutboxRow)
      → first (is_leased_to k worker) t ≡ some row
      → is_owned_by k worker r ≡ true
      → row ≡ r
  rejected-row k worker row found owned =
      All-first _ (is_leased_to k worker) t found (get-only e t u h) (
        ground (
          arith,
          first-some (is_leased_to k worker) t found,
          get-event e t h,
          eq_iff row.event_id k,
          eq_iff r.event_id k,
          eq_iff row.event_id e,
          eq_iff r.event_id e,
        ))

  rejected-Moves :
      (k worker error : String) (failed_at retry_at max_attempts : ℕ) (row : OutboxRow)
      → first (is_leased_to k worker) t ≡ some row
      → let last_error = slice_units 2048 error in
        Moved e r (rejects k worker error failed_at retry_at max_attempts) (
          if leb max_attempts row.attempt_count
          then update (is_owned_by k worker) (bury (iso failed_at) last_error) t
          else update (is_owned_by k worker) (postpone (iso retry_at) last_error) t)
  rejected-Moves k worker error failed_at retry_at max_attempts row found =
      elim (Bool-cases (is_owned_by k worker r)) [
        | inr miss ↦ (r, rw (untouched miss), stays refl)
        | inl owned ↦ written owned (rejected-row k worker row found owned)
      ]
    where
      buried : OutboxRow → OutboxRow
      buried = bury (iso failed_at) (slice_units 2048 error)

      postponed : OutboxRow → OutboxRow
      postponed = postpone (iso retry_at) (slice_units 2048 error)

      table : Outbox
      table =
          if leb max_attempts row.attempt_count
          then update (is_owned_by k worker) buried t
          else update (is_owned_by k worker) postponed t

      got :
          get_outbox_row e table
          ≡ some (
              if is_owned_by k worker r
              then (if leb max_attempts row.attempt_count then buried r else postponed r)
              else r)
      got = elim (Bool-cases (leb max_attempts row.attempt_count)) [
        | inl dead ↦ rw dead (get-update_where (is_owned_by k worker) buried (λ s. refl))
        | inr alive ↦ rw alive (get-update_where (is_owned_by k worker) postponed (λ s. refl))
      ]

      untouched : is_owned_by k worker r ≡ false → get_outbox_row e table ≡ some r
      untouched miss = got ∙ rw miss

      written :
          is_owned_by k worker r ≡ true
          → row ≡ r
          → Moved e r (rejects k worker error failed_at retry_at max_attempts) table
      written owned same = elim (Bool-cases (leb max_attempts row.attempt_count)) [
        | inl dead ↦ (buried r, got ∙ rw (owned, dead), buries leased (ground (arith, same)) refl)
        | inr alive ↦
            (postponed r, got ∙ rw (owned, alive), postpones leased (ground (arith, same)) refl)
      ]
        where
          leased : is_leased_to k worker r ≡ true
          leased =
              subst (λ s. is_leased_to k worker s ≡ true) same
                (first-some (is_leased_to k worker) t found)

-- Whatever call any worker makes, the row of a message makes one of the moves that the call allows.
pub step-Moved :
    (host : Host) (e : String) (t : Outbox) (r : OutboxRow) (c : OutboxCall)
    → HasUniqueEvents t
    → get_outbox_row e t ≡ some r
    → Moved e r c (step host t c)
unfolding step
step-Moved host e t r (claims o) u h = elim (Result-cases (claim_outbox host o t)) [
  | inl (fault, thrown) ↦ rw (thrown, step) (r, h, stays refl)
  | inr ((ms, t'), done) ↦
      rw (done, step) (rw (claim_outbox-table host o t done) (claimed-Moves e t r u h o))
]
step-Moved host e t r (acknowledges k worker at) u h =
    elim (Result-cases (acknowledge_outbox k worker at t)) [
      | inl (fault, thrown) ↦ rw (thrown, step) (r, h, stays refl)
      | inr (t', done) ↦
          rw (done, step)
            (rw (acknowledge_outbox-table k worker at t done)
              (acknowledged-Moves e t r u h k worker at))
    ]
step-Moved host e t r (rejects k worker error failed_at retry_at max_attempts) u h =
    elim (Result-cases (reject_outbox k worker error failed_at retry_at max_attempts t)) [
      | inl (fault, thrown) ↦ rw (thrown, step) (r, h, stays refl)
      | inr ((d, t'), done) ↦
          let (row, found, table) =
            reject_outbox-table k worker error failed_at retry_at max_attempts t done in
          rw (done, step)
            (rw table
              (rejected-Moves e t r u h k worker error failed_at retry_at max_attempts row found))
    ]
