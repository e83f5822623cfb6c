-- ===== src/Sqlite/Outbox/Safety.antt =====
-- What holds of a message through any history of calls: the key and the CHECK constraints of `onyx_outbox`,
-- the fields that no call touches, the end states, and the protection that a lease gives.
use onyx_ifem.Prelude.{
  ◌≤◌, ◌<◌, ◌≡◌, refl, ap, ◌∙◌, ◌≢◌, Bool, true, false, some, String, List, [], ◌∷◌, ◌++◌, arith,
  leb, if◌then◌else◌, ◌==◌, All, is_none, is_some, ◌&&◌, eq_iff, inl, inr,
}
use onyx_ifem.Json.{Host}
use onyx_ifem.Contracts.Errors.{Result-cases}
use onyx_ifem.Sqlite.Table.{update}
use onyx_ifem.Sqlite.Keys.{Unique-update}
use onyx_ifem.Sqlite.Instants.{Instant, iso}
use onyx_ifem.Sqlite.Outbox.{
  OutboxRow, Outbox, has_event_id, is_open, is_leased_to, is_owned_by, lease, lease_all, lease_end,
  deliver, bury, postpone, slice_units, get_outbox_row, claimable, claim_outbox, acknowledge_outbox,
  reject_outbox,
}
use onyx_ifem.Sqlite.Outbox.Lookup.{same_event, HasUniqueEvents}
use onyx_ifem.Sqlite.Outbox.Steps.{
  OutboxCall, claims, acknowledges, rejects, step, run, Move, stays, leases, delivers, buries,
  postpones, claim_outbox-table, acknowledge_outbox-table, reject_outbox-table,
}
use onyx_ifem.Sqlite.Outbox.Moves.{step-Moved}

pub update-HasUniqueEvents :
    (p : OutboxRow → Bool) (f : OutboxRow → OutboxRow) (t : Outbox)
    → ((r : OutboxRow) → (f r).event_id ≡ r.event_id)
    → HasUniqueEvents t
    → HasUniqueEvents (update p f t)
update-HasUniqueEvents p f t keep u =
    Unique-update same_event p f t (λ x y i. y.event_id == keep x i)
      (λ x y i. keep y i == x.event_id) u

lease_all-HasUniqueEvents :
    (worker : String) (expires : Instant) (rs t : List OutboxRow)
    → HasUniqueEvents t
    → HasUniqueEvents (lease_all worker expires rs t)
unfolding lease_all
lease_all-HasUniqueEvents worker expires [] t u = u
lease_all-HasUniqueEvents worker expires (r ∷ rs) t u =
    lease_all-HasUniqueEvents worker expires rs _
      (update-HasUniqueEvents (has_event_id r.event_id) (lease worker expires) t (λ _. refl) u)

pub step-HasUniqueEvents :
    (host : Host) (t : Outbox) (c : OutboxCall)
    → HasUniqueEvents t
    → HasUniqueEvents (step host t c)
unfolding step
step-HasUniqueEvents host t (claims o) u = elim (Result-cases (claim_outbox host o t)) [
  | inl (fault, thrown) ↦ rw (thrown, step) u
  | inr ((ms, t'), done) ↦
      rw (done, step)
        (rw (claim_outbox-table host o t done)
          (lease_all-HasUniqueEvents o.worker_id (lease_end o) (claimable o t) t u))
]
step-HasUniqueEvents host t (acknowledges k worker at) u =
    elim (Result-cases (acknowledge_outbox k worker at t)) [
      | inl (fault, thrown) ↦ rw (thrown, step) u
      | inr (t', done) ↦
          rw (done, step)
            (rw (acknowledge_outbox-table k worker at t done)
              (update-HasUniqueEvents (is_leased_to k worker) (deliver (iso at)) t (λ _. refl) u))
    ]
step-HasUniqueEvents host t (rejects k worker error failed_at retry_at max_attempts) u =
    elim (Result-cases (reject_outbox k worker error failed_at retry_at max_attempts t)) [
      | inl (fault, thrown) ↦ rw (thrown, step) u
      | inr ((d, t'), done) ↦
          let (row, found, table) =
            reject_outbox-table k worker error failed_at retry_at max_attempts t done in
          rw (done, step) (rw table (either (leb max_attempts row.attempt_count)))
    ]
  where
    either :
        (b : Bool)
        → HasUniqueEvents (
            if b
            then update (is_owned_by k worker) (bury (iso failed_at) (slice_units 2048 error)) t
            else update (is_owned_by k worker) (postpone (iso retry_at) (slice_units 2048 error)) t)
    either true = update-HasUniqueEvents (is_owned_by k worker) _ t (λ _. refl) u
    either false = update-HasUniqueEvents (is_owned_by k worker) _ t (λ _. refl) u

pub run-HasUniqueEvents :
    (host : Host) (t : Outbox) (cs : List OutboxCall)
    → HasUniqueEvents t
    → HasUniqueEvents (run host t cs)
unfolding run
run-HasUniqueEvents host t [] u = u
run-HasUniqueEvents host t (c ∷ cs) u =
    run-HasUniqueEvents host (step host t c) cs (step-HasUniqueEvents host t c u)

pub run-append :
    (host : Host) (t : Outbox) (cs ds : List OutboxCall)
    → run host t (cs ++ ds) ≡ run host (run host t cs) ds
unfolding run
run-append host t [] ds = refl
run-append host t (c ∷ cs) ds = run-append host (step host t c) cs ds

-- What every allowed move keeps of a row, a history of allowed calls keeps.
pub run_keeps {ℓ κ} :
    (host : Host) (e : String) (P : OutboxRow → Type ℓ) (Allowed : OutboxCall → Type κ)
    → ((r s : OutboxRow) (c : OutboxCall) → Allowed c → Move r s c → P r → P s)
    → (t : Outbox) (r : OutboxRow) (cs : List OutboxCall) → All Allowed cs
    → HasUniqueEvents t
    → get_outbox_row e t ≡ some r
    → P r
    → (s : OutboxRow) × (get_outbox_row e (run host t cs) ≡ some s) × P s
unfolding run
run_keeps host e P Allowed keep t r [] a u h p = (r, h, p)
run_keeps host e P Allowed keep t r (c ∷ cs) (a, as') u h p =
    let (s, got, move) = step-Moved host e t r c u h in
    run_keeps host e P Allowed keep (step host t c) s cs as' (step-HasUniqueEvents host t c u) got
      (keep r s c a move p)

abbrev Anything : OutboxCall → Type 0
Anything _ = Unit

anything : (cs : List OutboxCall) → All Anything cs
anything [] = tt
anything (c ∷ cs) = (tt, anything cs)

-- The two CHECK constraints of the table.
pub record IsValidRow (r : OutboxRow) : Type 0 where
  pub not_both : (is_some r.delivered_at && is_some r.dead_lettered_at) ≡ false
  pub lease_paired : is_none r.lease_owner ≡ is_none r.lease_expires_at

-- The columns that identify a message and hold its event.
pub record SameMessage (r s : OutboxRow) : Type 0 where
  pub event_id : s.event_id ≡ r.event_id
  pub context : s.context ≡ r.context
  pub aggregate_id : s.aggregate_id ≡ r.aggregate_id
  pub aggregate_version : s.aggregate_version ≡ r.aggregate_version
  pub organization_id : s.organization_id ≡ r.organization_id
  pub event_type : s.event_type ≡ r.event_type
  pub event_json : s.event_json ≡ r.event_json
  pub attempts : r.attempt_count ≤ s.attempt_count

Move-IsValidRow :
    (r s : OutboxRow) (c : OutboxCall) → Anything c → Move r s c → IsValidRow r → IsValidRow s
Move-IsValidRow r s c a (stays e) v = ground (arith, e)
Move-IsValidRow r s _ a (leases ready e) v = ground (arith, e, ready)
Move-IsValidRow r s _ a (delivers leased e) v = ground (arith, e, leased)
Move-IsValidRow r s _ a (buries leased h e) v = ground (arith, e, leased)
Move-IsValidRow r s _ a (postpones leased h e) v = ground (arith, e, leased)

Move-SameMessage :
    (r0 r s : OutboxRow) (c : OutboxCall) → Move r s c → SameMessage r0 r → SameMessage r0 s
Move-SameMessage r0 r s c (stays e) v = ground (arith, e)
Move-SameMessage r0 r s _ (leases ready e) v = ground (arith, e)
Move-SameMessage r0 r s _ (delivers leased e) v = ground (arith, e)
Move-SameMessage r0 r s _ (buries leased h e) v = ground (arith, e)
Move-SameMessage r0 r s _ (postpones leased h e) v = ground (arith, e)

-- Through any history of calls of any workers a message is never lost: its row stays in the table, with
-- the same identity and event, its attempts never fall, and the two CHECK constraints hold of it.
pub run-SameMessage :
    (host : Host) (e : String) (t : Outbox) (r : OutboxRow) (cs : List OutboxCall)
    → HasUniqueEvents t
    → get_outbox_row e t ≡ some r
    → IsValidRow r
    → (s : OutboxRow) × (get_outbox_row e (run host t cs) ≡ some s)
      × (SameMessage r s × IsValidRow s)
run-SameMessage host e t r cs u h v =
    run_keeps host e (λ s. SameMessage r s × IsValidRow s) Anything
      (λ x y c a m p. (Move-SameMessage r x y c m p.0, Move-IsValidRow x y c a m p.1)) t r cs
      (anything cs) u h (ground arith, v)

Move-settled : (r s : OutboxRow) (c : OutboxCall) → is_open r ≡ false → Move r s c → s ≡ r
Move-settled r s c h (stays e) = e
Move-settled r s _ h (leases ready e) = ground (arith, ready, h)
Move-settled r s _ h (delivers leased e) = ground (arith, leased, h)
Move-settled r s _ h (buries leased k e) = ground (arith, leased, h)
Move-settled r s _ h (postpones leased k e) = ground (arith, leased, h)

-- A message that is delivered or dead-lettered keeps its row through any history: it is not claimed,
-- acknowledged, rejected or buried again.
pub run-settled :
    (host : Host) (e : String) (t : Outbox) (r : OutboxRow) (cs : List OutboxCall)
    → HasUniqueEvents t
    → get_outbox_row e t ≡ some r
    → is_open r ≡ false
    → get_outbox_row e (run host t cs) ≡ some r
run-settled host e t r cs u h closed =
    let (s, got, same) =
      run_keeps host e (λ s. s ≡ r) Anything
        (λ x y c a m p. Move-settled x y c (ap is_open p ∙ closed) m ∙ p) t r cs (anything cs) u h
        refl in
    got ∙ ap some same

-- A call that cannot touch what `worker` has leased until `expires`: a claim before that instant, or an
-- acknowledgement or rejection by another worker.
abbrev pub Foreign : String → Instant → OutboxCall → Type 0
Foreign worker expires (claims o) = iso o.now < expires
Foreign worker expires (acknowledges _ other _) = other ≢ worker
Foreign worker expires (rejects _ other _ _ _ _) = other ≢ worker

Move-leased :
    (worker : String) (expires : Instant) (r s : OutboxRow) (c : OutboxCall)
    → r.lease_owner ≡ some worker
    → r.lease_expires_at ≡ some expires
    → Foreign worker expires c
    → Move r s c
    → s ≡ r
Move-leased worker expires r s c o x f (stays e) = e
Move-leased worker expires r s _ o x f (leases ready e) = absurd (ground (arith, ready, o, x))
Move-leased worker expires r s _ o x f (delivers {worker = other} leased e) =
    absurd (ground (arith, leased, o, eq_iff worker other))
Move-leased worker expires r s _ o x f (buries {worker = other} leased k e) =
    absurd (ground (arith, leased, o, eq_iff worker other))
Move-leased worker expires r s _ o x f (postpones {worker = other} leased k e) =
    absurd (ground (arith, leased, o, eq_iff worker other))

-- While a lease lasts, no history of claims before its end and of calls by other workers changes the row
-- of the leased message: nobody else delivers it, rejects it or takes it over.
pub run-leased :
    (host : Host) (e worker : String) (expires : Instant) (t : Outbox) (r : OutboxRow)
    (cs : List OutboxCall)
    → HasUniqueEvents t
    → get_outbox_row e t ≡ some r
    → r.lease_owner ≡ some worker
    → r.lease_expires_at ≡ some expires
    → All (Foreign worker expires) cs
    → get_outbox_row e (run host t cs) ≡ some r
run-leased host e worker expires t r cs u h o x f =
    let (s, got, same) =
      run_keeps host e (λ s. s ≡ r) (Foreign worker expires)
        (λ y z c a m p.
          Move-leased worker expires y z c (ap (λ i. i.lease_owner) p ∙ o)
            (ap (λ i. i.lease_expires_at) p ∙ x) a m
          ∙ p)
        t r cs f u h refl in
    got ∙ ap some same
