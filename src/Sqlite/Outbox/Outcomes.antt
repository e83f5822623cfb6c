-- ===== src/Sqlite/Outbox/Outcomes.antt =====
-- How an acknowledgement and a rejection end, for a message that is in the table.
use onyx_ifem.Prelude.{
  ℕ, ◌≤◌, ◌≡◌, refl, true, false, not, ◌&&◌, ltb, none, some, String, [], ◌∷◌, arith, ◌==◌, leb,
  if◌then◌else◌, All, All-map, eq_iff, inl, inr, Bool-cases,
}
use onyx_ifem.Contracts.Errors.{Result, ok, err, failure}
use onyx_ifem.Sqlite.Table.{update, first, count}
use onyx_ifem.Sqlite.Keys.{count_of_All, first_of_All}
use onyx_ifem.Sqlite.Instants.{iso, max_time}
use onyx_ifem.Sqlite.Outbox.{
  OutboxRow, Outbox, has_event_id, is_leased_to, is_owned_by, deliver, bury, postpone, slice_units,
  get_outbox_row, acknowledge_outbox, reject_outbox, retry, dead_letter,
}
use onyx_ifem.Sqlite.Outbox.Lookup.{HasUniqueEvents}
use onyx_ifem.Sqlite.Outbox.Moves.{get-update_where}

module _ (e worker : String) where
  not_leased_of_other :
      (k : String) (t : Outbox)
      → (k == e) ≡ true
      → All (λ s. has_event_id k s ≡ false) t
      → All (λ s. is_leased_to e worker s ≡ false) t
  not_leased_of_other k t same =
      All-map t (λ s other.
        ground (arith, other, same, eq_iff k e, eq_iff s.event_id k, eq_iff s.event_id e))

  -- The rows that the WHERE clause picks are the row of the event, if that is leased, and no other.
  count-leased :
      (t : Outbox) (r : OutboxRow)
      → HasUniqueEvents t
      → get_outbox_row e t ≡ some r
      → count (is_leased_to e worker) t ≡ (if is_leased_to e worker r then 1 else 0)
  unfolding count get_outbox_row first
  count-leased [] r u h = ground arith
  count-leased (x ∷ t) r (fresh, u) h = elim (Bool-cases (has_event_id e x)) [
    | inl hit ↦ ground (
      arith,
      hit,
      count_of_All (is_leased_to e worker) t (not_leased_of_other x.event_id t hit fresh),
    )
    | inr miss ↦ ground (arith, miss, count-leased t r u)
  ]

  pub first-leased :
      (t : Outbox) (r : OutboxRow)
      → HasUniqueEvents t
      → get_outbox_row e t ≡ some r
      → first (is_leased_to e worker) t ≡ (if is_leased_to e worker r then some r else none)
  unfolding get_outbox_row first
  first-leased [] r u h = ground arith
  first-leased (x ∷ t) r (fresh, u) h = elim (Bool-cases (has_event_id e x)) [
    | inl hit ↦ ground (
      arith,
      hit,
      first_of_All (is_leased_to e worker) t (not_leased_of_other x.event_id t hit fresh),
    )
    | inr miss ↦ ground (arith, miss, first-leased t r u)
  ]

abbrev pub not_leased : {A : Type 0} → Result A
not_leased = err (failure "outbox message is not leased by this worker")

-- An acknowledgement succeeds exactly for the worker that owns an open message, and then marks its row
-- delivered and clears the lease; any other throws.
pub acknowledge_outbox_lem :
    (e worker : String) (at : ℕ) (t : Outbox) (r : OutboxRow)
    → HasUniqueEvents t
    → get_outbox_row e t ≡ some r
    → (acknowledge_outbox e worker at t ≡ (
        if is_leased_to e worker r
        then ok (update (is_leased_to e worker) (deliver (iso at)) t)
        else not_leased))
      × (get_outbox_row e (update (is_leased_to e worker) (deliver (iso at)) t)
          ≡ some (if is_leased_to e worker r then deliver (iso at) r else r))
unfolding acknowledge_outbox
acknowledge_outbox_lem e worker at t r u h = (
  elim (Bool-cases (is_leased_to e worker r)) [
    | inl yes' ↦ ground (arith, count-leased e worker t r u h, yes')
    | inr no' ↦ ground (arith, count-leased e worker t r u h, no')
  ],
  get-update_where e t r u h (is_leased_to e worker) (deliver (iso at)) (λ _. refl),
)

-- The table that a rejection writes.
abbrev pub rejected :
    (e worker error : String) (failed_at retry_at max_attempts attempts : ℕ) → Outbox → Outbox
rejected e worker error failed_at retry_at max_attempts attempts t =
    if leb max_attempts attempts
    then update (is_owned_by e worker) (bury (iso failed_at) (slice_units 2048 error)) t
    else update (is_owned_by e worker) (postpone (iso retry_at) (slice_units 2048 error)) t

owned_of_leased :
    (e worker : String) (r : OutboxRow)
    → is_leased_to e worker r ≡ true
    → is_owned_by e worker r ≡ true
owned_of_leased e worker r h = ground arith

-- With at least one attempt allowed, a rejection succeeds exactly for the worker that owns an open
-- message; any other throws. The message is dead-lettered if its attempts have reached the maximum, and
-- else is put off until the retry instant, and the call throws if that is beyond the last date; either way its
-- lease is cleared and the error kept.
pub reject_outbox_lem :
    (e worker error : String) (failed_at retry_at max_attempts : ℕ) (t : Outbox) (r : OutboxRow)
    → 1 ≤ max_attempts
    → HasUniqueEvents t
    → get_outbox_row e t ≡ some r
    → let t' = rejected e worker error failed_at retry_at max_attempts r.attempt_count t in
      (reject_outbox e worker error failed_at retry_at max_attempts t ≡ (
        if is_leased_to e worker r
        then (if (not (leb max_attempts r.attempt_count) && ltb max_time retry_at)
            then err (failure "Invalid time value")
            else ok (if leb max_attempts r.attempt_count then dead_letter else retry, t'))
        else not_leased))
      × (get_outbox_row e t'
          ≡ some (
              if is_owned_by e worker r
              then (if leb max_attempts r.attempt_count
                  then bury (iso failed_at) (slice_units 2048 error) r
                  else postpone (iso retry_at) (slice_units 2048 error) r)
              else r))
unfolding reject_outbox
reject_outbox_lem e worker error failed_at retry_at max_attempts t r m u h = (
  elim (Bool-cases (is_leased_to e worker r)) [
    | inl yes' ↦ ground (arith, first-leased e worker t r u h, yes')
    | inr no' ↦ ground (arith, first-leased e worker t r u h, no')
  ],
  elim (Bool-cases (leb max_attempts r.attempt_count)) [
    | inl dead ↦ rw dead (get-update_where e t r u h (is_owned_by e worker) _ (λ _. refl))
    | inr alive ↦ rw alive (get-update_where e t r u h (is_owned_by e worker) _ (λ _. refl))
  ],
)
