-- ===== src/Dispatcher/Progress.antt =====
-- A batch that runs within its lease ends: every claimed message is acknowledged or rejected, and is counted
-- once.
use onyx_ifem.Prelude.{
  ℕ, suc, ◌+◌, ◌≤◌, ◌≡◌, refl, ap, ◌∙◌, subst, Bool, true, false, some, String, List, [], ◌∷◌,
  arith, Bool-cases, Option-cases, inl, inr, ◌⊎◌, length, All, All-map, All-both, ◌==◌, ==_refl,
  leb, is_none, if◌then◌else◌,
}
use onyx_ifem.Json.{Host}
use onyx_ifem.Contracts.Errors.{ok}
use onyx_ifem.Sqlite.Table.{update}
use onyx_ifem.Sqlite.Instants.{Instant, iso, max_time}
use onyx_ifem.Sqlite.Outbox.{
  OutboxRow, Outbox, get_outbox_row, is_open, is_leased_to, is_owned_by, deliver, claim_outbox,
  retry, dead_letter, lease_end, ClaimOutboxOptions,
}
use onyx_ifem.Sqlite.Outbox.Lookup.{same_event, HasUniqueEvents}
use onyx_ifem.Sqlite.Outbox.Steps.{OutboxCall, claims, step, run}
use onyx_ifem.Sqlite.Outbox.Moves.{get-update_where}
use onyx_ifem.Sqlite.Outbox.Safety.{
  step-HasUniqueEvents, run-leased, run-HasUniqueEvents, run-settled, Foreign,
  update-HasUniqueEvents,
}
use onyx_ifem.Sqlite.Outbox.Claim.{IsClaimed, claim_outbox-IsClaimed, claim_outbox-HasUniqueEvents}
use onyx_ifem.Sqlite.Outbox.Outcomes.{acknowledge_outbox_lem, reject_outbox_lem, rejected}
use onyx_ifem.Dispatcher.Trace.{deliver_all-Delivers}
use onyx_ifem.Dispatcher.{
  Delivery, OutboxDispatcher, DispatchResult, positive_integer, max_safe_integer, tally, give_back,
  handle_failure, settle, deliver_all, run_once, claim_options, started,
}

-- How many messages a result counts.
abbrev pub handled : DispatchResult → ℕ
handled r = r.delivered + (r.retried + r.dead_lettered)

module _ (worker : String) (expires : Instant) where
  -- The message is stored as it was handed out: open, and leased to the worker.
  pub record IsHeld (t : Outbox) (m : OutboxRow) : Type 0 where
    pub stored : get_outbox_row m.event_id t ≡ some m
    pub owner : m.lease_owner ≡ some worker
    pub until : m.lease_expires_at ≡ some expires
    pub unsettled : is_open m ≡ true

  run-IsHeld :
      (host : Host) (t : Outbox) (cs : List OutboxCall) (m : OutboxRow)
      → HasUniqueEvents t
      → All (Foreign worker expires) cs
      → IsHeld t m
      → IsHeld (run host t cs) m
  run-IsHeld host t cs m u f h = record {
    stored = run-leased host m.event_id worker expires t m cs u h.stored h.owner h.until f;
    owner = h.owner;
    until = h.until;
    unsettled = h.unsettled;
  }

  -- A write to the row of one message leaves every other message held.
  update-IsHeld :
      (q : OutboxRow → Bool) (f : OutboxRow → OutboxRow) (t : Outbox) (k : OutboxRow)
      → HasUniqueEvents t
      → ((s : OutboxRow) → (f s).event_id ≡ s.event_id)
      → ((s : OutboxRow) → (s.event_id == k.event_id) ≡ false → q s ≡ false)
      → (m : OutboxRow) → same_event k m ≡ false
      → IsHeld t m
      → IsHeld (update q f t) m
  update-IsHeld q f t k u keep other m miss h = record {
    stored = get-update_where m.event_id t m u h.stored q f keep ∙ rw (other m miss);
    owner = h.owner;
    until = h.until;
    unsettled = h.unsettled;
  }

  held-is_leased_to :
      (t : Outbox) (m : OutboxRow) → IsHeld t m → is_leased_to m.event_id worker m ≡ true
  held-is_leased_to t m h = ground (arith, ==_refl m.event_id, ==_refl worker, h.owner, h.unsettled)

-- The retry delay of a message passes the dispatcher's check, and ends at a date when it starts at `at`.
abbrev pub HasDelayAt : OutboxDispatcher → OutboxRow → ℕ → Type 0
HasDelayAt d m at =
    (1 ≤ d.retry_delay_ms m.attempt_count)
    × (d.retry_delay_ms m.attempt_count ≤ max_safe_integer)
    × (at + d.retry_delay_ms m.attempt_count ≤ max_time)

abbrev pub HasDelay : OutboxDispatcher → OutboxRow → Type 0
HasDelay d m = HasDelayAt d m (d.publish m).finished_at

-- The message is delivered in the table, or its publication failed.
abbrev pub IsHandled : OutboxDispatcher → Outbox → OutboxRow → Type 0
IsHandled d t m =
    ((x : String) × ((d.publish m).thrown ≡ some x))
    ⊎ ((s : OutboxRow) × (get_outbox_row m.event_id t ≡ some s) × (is_none s.delivered_at ≡ false))

-- While the message is published, other workers claim before the instant, or make calls of their own.
abbrev pub IsUndisturbed : OutboxDispatcher → Instant → OutboxRow → Type 0
IsUndisturbed d expires m = All (Foreign d.worker_id expires) (d.publish m).meanwhile

module _ (host : Host) (d : OutboxDispatcher) (expires : Instant)
    (attempts : 1 ≤ d.max_attempts) where
  -- What settling one held message has done.
  record Progressed (m : OutboxRow) (r : DispatchResult) (t : Outbox) (r' : DispatchResult)
      (t' : Outbox) : Type 0 where
    unique : HasUniqueEvents t'
    counted : handled r' ≡ suc (handled r)
    claimed : r'.claimed ≡ r.claimed
    others :
        (m' : OutboxRow)
        → same_event m m' ≡ false
        → IsHeld d.worker_id expires t m'
        → IsHeld d.worker_id expires t' m'

  written-Progressed :
      (m : OutboxRow) (r r' : DispatchResult) (t : Outbox) (q : OutboxRow → Bool)
      (f : OutboxRow → OutboxRow)
      → HasUniqueEvents t
      → ((s : OutboxRow) → (f s).event_id ≡ s.event_id)
      → ((s : OutboxRow) → (s.event_id == m.event_id) ≡ false → q s ≡ false)
      → handled r' ≡ suc (handled r)
      → r'.claimed ≡ r.claimed
      → Progressed m r t r' (update q f t)
  written-Progressed m r r' t q f u keep other counted claimed = record {
    unique = update-HasUniqueEvents q f t keep u;
    counted = counted;
    claimed = claimed;
    others = update-IsHeld d.worker_id expires q f t m u keep other;
  }

  rejected-Progressed :
      (m : OutboxRow) (error : String) (failed_at retry_at : ℕ) (r : DispatchResult) (t : Outbox)
      → HasUniqueEvents t
      → Progressed m r t
          (tally (if leb d.max_attempts m.attempt_count then dead_letter else retry) r)
          (rejected m.event_id d.worker_id error failed_at retry_at d.max_attempts m.attempt_count
            t)
  rejected-Progressed m error failed_at retry_at r t u =
      elim (Bool-cases (leb d.max_attempts m.attempt_count)) [
        | inl dead ↦ rw dead (
            written-Progressed m r _ t (is_owned_by m.event_id d.worker_id) _ u (λ _. refl)
              (λ s miss. rw miss) (omega arith) refl)
        | inr alive ↦ rw alive (
            written-Progressed m r _ t (is_owned_by m.event_id d.worker_id) _ u (λ _. refl)
              (λ s miss. rw miss) (omega arith) refl)
      ]

  give_back-Progressed :
      (m : OutboxRow) (error : String) (at : ℕ) (r : DispatchResult) (t : Outbox)
      → HasUniqueEvents t
      → IsHeld d.worker_id expires t m
      → HasDelayAt d m at
      → (r' : DispatchResult) × (t' : Outbox) × (handle_failure host d m error at r t ≡ (ok r', t'))
        × Progressed m r t r' t'
  unfolding handle_failure give_back positive_integer
  give_back-Progressed m error at r t u h delay = (
    tally (if leb d.max_attempts m.attempt_count then dead_letter else retry) r,
    rejected m.event_id d.worker_id error at (at + d.retry_delay_ms m.attempt_count) d.max_attempts
        m.attempt_count t,
    ground (
      arith,
      delay,
      (reject_outbox_lem m.event_id d.worker_id error at (at + d.retry_delay_ms m.attempt_count)
          d.max_attempts t m attempts u h.stored).0,
      held-is_leased_to d.worker_id expires t m h,
    ),
    rejected-Progressed m error at (at + d.retry_delay_ms m.attempt_count) r t u,
  )

  settle-Progressed :
      (m : OutboxRow) (delivery : Delivery) (r : DispatchResult) (t : Outbox)
      → HasUniqueEvents t
      → IsHeld d.worker_id expires t m
      → HasDelayAt d m delivery.finished_at
      → (r' : DispatchResult) × (t' : Outbox) × (settle host d m delivery r t ≡ (ok r', t'))
        × Progressed m r t r' t'
        × (((x : String) × (delivery.thrown ≡ some x))
            ⊎ ((s : OutboxRow) × (get_outbox_row m.event_id t' ≡ some s)
                × (is_none s.delivered_at ≡ false)))
  unfolding settle
  settle-Progressed m delivery r t u h delay = elim (Option-cases delivery.thrown) [
    | inr (error, e) ↦
        let (r', t', same, progress) =
          give_back-Progressed m error delivery.finished_at r t u h delay in
        (r', t', ground (arith, e, same), progress, inl (error, e))
    | inl e ↦
        let (done, row) =
          acknowledge_outbox_lem m.event_id d.worker_id delivery.finished_at t m u h.stored in
        let leased = held-is_leased_to d.worker_id expires t m h in
        (
          record r { delivered = suc r.delivered },
          update (is_leased_to m.event_id d.worker_id) (deliver (iso delivery.finished_at)) t,
          ground (arith, e, done, leased),
          written-Progressed m r _ t (is_leased_to m.event_id d.worker_id) _ u (λ _. refl)
              (λ s miss. rw miss) (omega arith) refl,
          inr (deliver (iso delivery.finished_at) m, row ∙ rw leased, refl),
        )
  ]

  -- A delivered message stays so to the end of the batch.
  later-IsHandled :
      (m : OutboxRow) (ms : List OutboxRow) (r : DispatchResult) (t : Outbox)
      → HasUniqueEvents t
      → IsHandled d t m
      → IsHandled d (deliver_all host d ms r t).1 m
  later-IsHandled m ms r t u (inl failed) = inl failed
  later-IsHandled m ms r t u (inr (s, stored, delivered)) =
      let (cs, _, same) = deliver_all-Delivers host d ms r t in
      inr (
        s,
        ap (get_outbox_row m.event_id) same
            ∙ run-settled host m.event_id t s cs u stored (ground (arith, delivered)),
        delivered,
      )

  deliver_all_completes :
      (ms : List OutboxRow) (r : DispatchResult) (t : Outbox)
      → HasUniqueEvents t
      → HasUniqueEvents ms
      → All (IsHeld d.worker_id expires t) ms
      → All (HasDelay d) ms
      → All (IsUndisturbed d expires) ms
      → (r' : DispatchResult) × (t' : Outbox) × (deliver_all host d ms r t ≡ (ok r', t'))
        × (handled r' ≡ handled r + length ms)
        × (r'.claimed ≡ r.claimed)
        × All (IsHandled d t') ms
  unfolding deliver_all
  deliver_all_completes [] r t u v h delay quiet = (r, t, refl, omega arith, refl, tt)
  deliver_all_completes (m ∷ ms) r t u (fresh, v) (held, h) (delay, delays) (quiet, quiets) =
      let t0 = run host t (d.publish m).meanwhile in
      let u0 = run-HasUniqueEvents host t (d.publish m).meanwhile u in
      let (r1, t1, settled, p, outcome) =
        settle-Progressed m (d.publish m) r t0 u0
          (run-IsHeld d.worker_id expires host t (d.publish m).meanwhile m u quiet held) delay in
      let still =
        All-map ms
          (λ m' (other, was).
            p.others m' other
              (run-IsHeld d.worker_id expires host t (d.publish m).meanwhile m' u quiet was))
          (All-both _ _ ms fresh h) in
      let (r2, t2, rest, counted, claimed, handled_rest) =
        deliver_all_completes ms r1 t1 p.unique v still delays quiets in
      (
        r2,
        t2,
        ground (arith, settled, rest),
        omega (arith, counted, p.counted),
        claimed ∙ p.claimed,
        (
          subst (λ x. IsHandled d x.1 m) rest (later-IsHandled m ms r1 t1 p.unique outcome),
          handled_rest,
        ),
      )

-- A claimed message is held by the dispatcher until the end of its lease.
claimed-IsHeld :
    (host : Host) (d : OutboxDispatcher) (now : ℕ) (t t' : Outbox) (m : OutboxRow)
    → IsClaimed (claim_options host d now) t t' m
    → IsHeld d.worker_id (lease_end (claim_options host d now)) t' m
claimed-IsHeld host d now t t' m c = record {
  stored = c.stored;
  owner = ground (arith, c.leased);
  until = ground (arith, c.leased);
  unsettled = ground (arith, c.leased, c.ready);
}

claimed-table :
    (host : Host) (o : ClaimOutboxOptions) (t : Outbox) {ms : List OutboxRow} {t' : Outbox}
    → HasUniqueEvents t
    → claim_outbox host o t ≡ ok (ms, t')
    → HasUniqueEvents t'
unfolding step
claimed-table host o t {ms} {t'} u done =
    subst HasUniqueEvents (rw done) (step-HasUniqueEvents host t (claims o) u)

-- If the retry delays are valid and end by the last date, and what other workers do while a publication is awaited are claims
-- before the end of the lease and calls about messages under their own names, then a batch whose claim
-- succeeds ends without a throw. Its counts of delivered, retried and dead-lettered messages add up to
-- the number claimed, and each message is delivered in the table unless its publication failed.
pub run_once_completes :
    (host : Host) (d : OutboxDispatcher) (now : ℕ) (t : Outbox) {ms : List OutboxRow} {t' : Outbox}
    → HasUniqueEvents t
    → 1 ≤ d.max_attempts
    → claim_outbox host (claim_options host d now) t ≡ ok (ms, t')
    → All (HasDelay d) ms
    → All (IsUndisturbed d (lease_end (claim_options host d now))) ms
    → (r : DispatchResult) × (t2 : Outbox) × (run_once host d now t ≡ (ok r, t2))
      × (r.delivered + (r.retried + r.dead_lettered) ≡ r.claimed)
      × (r.claimed ≡ length ms)
      × All (IsHandled d t2) ms
unfolding run_once
run_once_completes host d now t {ms} {t'} u attempts done delays quiet =
    let o = claim_options host d now in
    let (few, claimed, rows) = claim_outbox-IsClaimed host o t u done in
    let held = All-map ms (λ m c. claimed-IsHeld host d now t t' m c) claimed in
    let (r, t2, same, counted, kept, outcomes) =
      deliver_all_completes host d (lease_end o) attempts ms (started host d ms) t'
        (claimed-table host o t u done) (claim_outbox-HasUniqueEvents host o t u done) held delays
        quiet in
    (r, t2, ground (arith, done, same), omega (arith, counted, kept), kept, outcomes)
