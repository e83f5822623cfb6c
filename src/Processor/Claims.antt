-- ===== src/Processor/Claims.antt =====
-- What a claim of the inbox that acquires has found and written.
use onyx_ifem.Prelude.{
  ◌+◌, ◌≡◌, refl, sym, ap, ◌∙◌, subst, true, none, some, [], ◌∷◌, ◌++◌, arith, ltb, inl, inr,
  Option-cases, eq_iff, ==_refl,
}
use onyx_ifem.Contracts.Errors.{Result, ok, throw_if-eq-ok}
use onyx_ifem.Sqlite.Instants.{max_time}
use onyx_ifem.Sqlite.Table.{first, update, first-some, first-update}
use onyx_ifem.Sqlite.Keys.{first-insert, first-none, any-false}
use onyx_ifem.Sqlite.Inbox.{
  InboxRow, Inbox, ClaimInboxOptions, InboxClaim, acquired, is_receipt, is_held, get_inbox_receipt,
  received, acquire, has_blank, claim_again, claim_stored, claim_inbox, inbox_lease_end,
}
use onyx_ifem.Sqlite.Inbox.Steps.{claims, after, step, HasUniqueReceipts}
use onyx_ifem.Sqlite.Inbox.Histories.{step-HasUniqueReceipts}

-- The receipt that a claim has acquired.
abbrev pub IsAcquired : ClaimInboxOptions → InboxRow → Type 0
IsAcquired o r =
    (r.fingerprint ≡ o.fingerprint)
    × (is_held o.consumer_name o.event_id o.worker_id r ≡ true)
    × (r.lease_expires_at ≡ some (inbox_lease_end o))

received-IsAcquired : (o : ClaimInboxOptions) → IsAcquired o (received o)
received-IsAcquired o =
    (refl, ground (arith, ==_refl o.consumer_name, ==_refl o.event_id, ==_refl o.worker_id), refl)

acquire-IsAcquired :
    (o : ClaimInboxOptions) (r : InboxRow)
    → is_receipt o.consumer_name o.event_id r ≡ true
    → r.completed_at ≡ none
    → r.fingerprint ≡ o.fingerprint
    → IsAcquired o (acquire o r)
acquire-IsAcquired o r own running same =
    (same, ground (arith, own, running, ==_refl o.worker_id), refl)

claim_again-acquired :
    (o : ClaimInboxOptions) (existing r : InboxRow) (t t' : Inbox)
    → claim_again o existing t ≡ ok (acquired r, t')
    → (existing.fingerprint ≡ o.fingerprint)
      × (existing.completed_at ≡ none)
      × (acquire o existing ≡ r)
      × (update (is_receipt o.consumer_name o.event_id) (acquire o) t ≡ t')
unfolding claim_again
claim_again-acquired o existing r t t' h =
    ground (arith, h, eq_iff existing.fingerprint o.fingerprint)

claim_inbox-eq-ok :
    (o : ClaimInboxOptions) (t : Inbox) {x : InboxClaim × Inbox}
    → claim_inbox o t ≡ ok x
    → claim_stored o (first (is_receipt o.consumer_name o.event_id) t) t ≡ ok x
unfolding claim_inbox
claim_inbox-eq-ok o t h =
    let (_, h1) = throw_if-eq-ok (has_blank o) _ _ h in
    let (_, h2) = throw_if-eq-ok (ltb o.lease_duration_ms 1) _ _ h1 in
    (throw_if-eq-ok (ltb max_time (o.now + o.lease_duration_ms)) _ _ h2).1

first_claim :
    (o : ClaimInboxOptions) (t : Inbox) {claim : InboxClaim} {t' : Inbox}
    → first (is_receipt o.consumer_name o.event_id) t ≡ none
    → claim_inbox o t ≡ ok (claim, t')
    → (acquired (received o) ≡ claim) × (t ++ received o ∷ [] ≡ t')
unfolding claim_stored
first_claim o t {claim} {t'} missing h =
    let same : Path (Result (InboxClaim × Inbox)) (ok (acquired (received o), t ++ received o ∷ []))
        (ok (claim, t')) =
      ap (λ r. claim_stored o r t) (sym missing) ∙ claim_inbox-eq-ok o t h in
    (cc, cc)

second_claim :
    (o : ClaimInboxOptions) (t : Inbox) (existing : InboxRow) {claim : InboxClaim} {t' : Inbox}
    → first (is_receipt o.consumer_name o.event_id) t ≡ some existing
    → claim_inbox o t ≡ ok (claim, t')
    → claim_again o existing t ≡ ok (claim, t')
unfolding claim_stored
second_claim o t existing found h =
    ap (λ r. claim_stored o r t) (sym found) ∙ claim_inbox-eq-ok o t h

pub claim_inbox-acquired :
    (o : ClaimInboxOptions) (t t' : Inbox) (r : InboxRow)
    → claim_inbox o t ≡ ok (acquired r, t')
    → (get_inbox_receipt o.consumer_name o.event_id t' ≡ some r) × IsAcquired o r
unfolding get_inbox_receipt
claim_inbox-acquired o t t' r h =
    elim (Option-cases (first (is_receipt o.consumer_name o.event_id) t)) [
      | inl missing ↦
          let (same, rows) = first_claim o t missing h in
          let same_row : received o ≡ r = (cc) in
          let absent =
            any-false (is_receipt o.consumer_name o.event_id) t (first-none _ t missing) in
          let own : is_receipt o.consumer_name o.event_id (received o) ≡ true =
            ground (arith, ==_refl o.consumer_name, ==_refl o.event_id) in
          (
            ap (first (is_receipt o.consumer_name o.event_id)) (sym rows)
                ∙ first-insert (is_receipt o.consumer_name o.event_id) t (received o) (λ _. absent)
                ∙ rw own (ap some same_row),
            subst (IsAcquired o) same_row (received-IsAcquired o),
          )
      | inr (existing, found) ↦
          let (same, running, same_row, rows) =
            claim_again-acquired o existing r t t' (second_claim o t existing found h) in
          let own = first-some (is_receipt o.consumer_name o.event_id) t found in
          (
            ap (first (is_receipt o.consumer_name o.event_id)) (sym rows)
                ∙ first-update (is_receipt o.consumer_name o.event_id)
                    (is_receipt o.consumer_name o.event_id) (acquire o) t (λ x. refl)
                ∙ rw (found, own) (ap some same_row),
            subst (IsAcquired o) same_row (acquire-IsAcquired o existing own running same),
          )
    ]

-- A claim that acquires keeps one receipt for each key.
pub claim_inbox-Unique :
    (o : ClaimInboxOptions) (t t' : Inbox) (claim : InboxClaim)
    → claim_inbox o t ≡ ok (claim, t')
    → HasUniqueReceipts t
    → HasUniqueReceipts t'
unfolding step
claim_inbox-Unique o t t' claim h u =
    let same : step t (claims o) ≡ t' = ap (after t (λ x. x.1)) h in
    subst HasUniqueReceipts same (step-HasUniqueReceipts (claims o) t u)
