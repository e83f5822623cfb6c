-- ===== src/Sqlite/Outbox/Claim.antt =====
-- What `claimOutbox` takes and hands out.
use mathlib.Core.Option
use onyx_ifem.Prelude.{
  ◌≤◌, ◌≡◌, refl, ◌∙◌, true, false, some, ◌⊎◌, String, List, [], ◌∷◌, map, arith, if◌then◌else◌,
  length, length-map, All, All-both, All-map, length-take-le, ==_refl, ==_comm, inl, inr,
  Option-cases,
}
use onyx_ifem.Json.{Json, Host}
use onyx_ifem.Contracts.Errors.{Result, ok, err, Fault}
use onyx_ifem.Sqlite.Table.{first}
use onyx_ifem.Sqlite.Keys.{any}
use onyx_ifem.Sqlite.Instants.{Instant, iso}
use onyx_ifem.Sqlite.StoredEvent.{
  stored_event, returned, check_stored, lookup_profile, executable_event_profiles,
  StoredEventExpectation,
}
use onyx_ifem.Sqlite.Outbox.{
  OutboxRow, Outbox, has_event_id, is_ready, lease, lease_all, lease_end, get_outbox_row,
  ClaimOutboxOptions, claimable, claim_outbox, row_expectation, to_outbox_message,
  to_outbox_messages,
}
use onyx_ifem.Sqlite.Outbox.Lookup.{
  same_event, HasUniqueEvents, Unique-claimable, claimable-ready, claimable-All, get-lease_all,
}

-- The value `a` itself, or a throw.
abbrev SameOrThrown : {A : Type 0} → A → Result A → Type 0
SameOrThrown a m = (m ≡ ok a) ⊎ ((e : Fault) × (m ≡ err e))

returned-same : (v : Json) (m : Result (Unit {0})) → SameOrThrown v (returned v m)
returned-same v (ok _) = inl refl
returned-same v (err _) = inr (_, refl)

-- A checked event is the stored one.
stored_event-same :
    (host : Host) (v : Json) (x : StoredEventExpectation) → SameOrThrown v (stored_event host v x)
unfolding stored_event
stored_event-same host v x =
    elim (Option-cases (lookup_profile x.context executable_event_profiles)) [
      | inl e ↦ inl (rw (e, stored_event))
      | inr (known, e) ↦ rw (e, stored_event) (returned-same v (check_stored host known x v))
    ]

to_outbox_message-same : (host : Host) (r : OutboxRow) → SameOrThrown r (to_outbox_message host r)
unfolding to_outbox_message
to_outbox_message-same host r = elim (stored_event-same host r.event_json (row_expectation r)) [
  | inl e ↦ inl (rw e)
  | inr (f, e) ↦ inr (f, rw e)
]

to_outbox_messages-same :
    (host : Host) (rs : List OutboxRow) → SameOrThrown rs (to_outbox_messages host rs)
unfolding to_outbox_messages
to_outbox_messages-same host [] = inl refl
to_outbox_messages-same host (r ∷ rs) = elim (to_outbox_message-same host r) [
  | inr (f, e) ↦ inr (f, rw e)
  | inl e ↦ elim (to_outbox_messages-same host rs) [
    | inr (f, e') ↦ inr (f, rw (e, e'))
    | inl e' ↦ inl (rw (e, e'))
  ]
]

-- The messages of a claim are the claimed rows as the table now has them.
pub claim_outbox-messages :
    (host : Host) (o : ClaimOutboxOptions) (t : Outbox) {ms : List OutboxRow} {t' : Outbox}
    → claim_outbox host o t ≡ ok (ms, t')
    → (ms ≡ map (lease o.worker_id (lease_end o)) (claimable o t))
      × (t' ≡ lease_all o.worker_id (lease_end o) (claimable o t) t)
unfolding claim_outbox
claim_outbox-messages host o t {ms} {t'} h =
    ground (arith, to_outbox_messages-same host (claimable o t))

get_self : (t : Outbox) → HasUniqueEvents t → All (λ r. get_outbox_row r.event_id t ≡ some r) t
unfolding get_outbox_row first
get_self [] u = tt
get_self (x ∷ t) (fresh, u) = (
  rw (==_refl x.event_id),
  All-map t (λ y (other, found). rw (==_comm x.event_id y.event_id) (rw other found))
      (All-both _ _ t fresh (get_self t u)),
)

any_self : (rs : List OutboxRow) → All (λ r. any (has_event_id r.event_id) rs ≡ true) rs
unfolding any
any_self [] = tt
any_self (r ∷ rs) =
    (rw (==_refl r.event_id), All-map rs (λ s found. ground (arith, found)) (any_self rs))

pub any-lease :
    (e worker : String) (expires : Instant) (rs : List OutboxRow)
    → any (has_event_id e) (map (lease worker expires) rs) ≡ any (has_event_id e) rs
unfolding any
any-lease e worker expires [] = refl
any-lease e worker expires (r ∷ rs) = rw (any-lease e worker expires rs)

All-map-lease {κ} :
    (P : OutboxRow → Type κ) (worker : String) (expires : Instant) (rs : List OutboxRow)
    → All (λ r. P (lease worker expires r)) rs
    → All P (map (lease worker expires) rs)
All-map-lease P worker expires [] h = tt
All-map-lease P worker expires (r ∷ rs) (p, h) = (p, All-map-lease P worker expires rs h)

-- A message that a claim hands out: its row was ready and now holds the claim's lease, with one more
-- attempt; the message is that row.
pub record IsClaimed (o : ClaimOutboxOptions) (t t' : Outbox) (m : OutboxRow) : Type 0 where
  pub before : OutboxRow
  pub was : get_outbox_row m.event_id t ≡ some before
  pub ready : is_ready (iso o.now) before ≡ true
  pub leased : m ≡ lease o.worker_id (lease_end o) before
  pub stored : get_outbox_row m.event_id t' ≡ some m

claimable-IsClaimed :
    (o : ClaimOutboxOptions) (t : Outbox)
    → HasUniqueEvents t
    → All
        (λ r.
          IsClaimed o t
            (lease_all o.worker_id (lease_end o) (claimable o t) t)
            (lease o.worker_id (lease_end o) r))
        (claimable o t)
claimable-IsClaimed o t u =
    All-map (claimable o t)
      (λ r ((ready, found), listed). record {
        before = r;
        was = found;
        ready = ready;
        leased = refl;
        stored =
            get-lease_all r.event_id o.worker_id (lease_end o) (claimable o t) t
              (Unique-claimable o t u)
            ∙ rw (listed, found);
      })
      (All-both _ _ (claimable o t)
        (All-both _ _ (claimable o t) (claimable-ready o t) (claimable-All _ o t (get_self t u)))
        (any_self (claimable o t)))

length-claimable-le : (o : ClaimOutboxOptions) (t : Outbox) → length (claimable o t) ≤ o.limit
unfolding claimable
length-claimable-le o t = length-take-le o.limit _

-- A claim that succeeds hands out at most `limit` messages. Each was ready and is stored as it is handed
-- out, leased to the worker until the end of the lease. The row of an event is leased, once, if the event
-- is among the messages, and is as before if not.
pub claim_outbox-IsClaimed :
    (host : Host) (o : ClaimOutboxOptions) (t : Outbox) {ms : List OutboxRow} {t' : Outbox}
    → HasUniqueEvents t
    → claim_outbox host o t ≡ ok (ms, t')
    → (length ms ≤ o.limit)
      × All (IsClaimed o t t') ms
      × ((e : String)
          → get_outbox_row e t' ≡ (
              if any (has_event_id e) ms
              then Option.map (lease o.worker_id (lease_end o)) (get_outbox_row e t)
              else get_outbox_row e t))
claim_outbox-IsClaimed host o t {ms} {t'} u h =
    let (messages, table) = claim_outbox-messages host o t h in
    rw (messages, table)
      (
        omega (
          arith,
          length-map (claimable o t) (lease o.worker_id (lease_end o)),
          length-claimable-le o t,
        ),
        All-map-lease (IsClaimed o t _) o.worker_id (lease_end o) (claimable o t)
            (claimable-IsClaimed o t u),
        λ e.
            get-lease_all e o.worker_id (lease_end o) (claimable o t) t (Unique-claimable o t u)
            ∙ rw (any-lease e o.worker_id (lease_end o) (claimable o t)),
      )

fresh-lease :
    (r : OutboxRow) (worker : String) (expires : Instant) (rs : List OutboxRow)
    → All (λ s. same_event r s ≡ false) rs
    → All (λ s. same_event r s ≡ false) (map (lease worker expires) rs)
fresh-lease r worker expires [] h = tt
fresh-lease r worker expires (s ∷ rs) (here, there) = (here, fresh-lease r worker expires rs there)

Unique-lease :
    (worker : String) (expires : Instant) (rs : List OutboxRow)
    → HasUniqueEvents rs
    → HasUniqueEvents (map (lease worker expires) rs)
Unique-lease worker expires [] u = tt
Unique-lease worker expires (r ∷ rs) (fresh, u) =
    (fresh-lease r worker expires rs fresh, Unique-lease worker expires rs u)

pub claim_outbox-HasUniqueEvents :
    (host : Host) (o : ClaimOutboxOptions) (t : Outbox) {ms : List OutboxRow} {t' : Outbox}
    → HasUniqueEvents t
    → claim_outbox host o t ≡ ok (ms, t')
    → HasUniqueEvents ms
claim_outbox-HasUniqueEvents host o t u h =
    rw (claim_outbox-messages host o t h).0
      (Unique-lease o.worker_id (lease_end o) (claimable o t) (Unique-claimable o t u))
