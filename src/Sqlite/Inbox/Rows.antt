-- ===== src/Sqlite/Inbox/Rows.antt =====
-- The inbox as a map from consumer and event to a receipt: each call of the table is a step of the receipt
-- of one key.
use mathlib.Core.Option
use onyx_ifem.Prelude.{
  suc, ◌≡◌, refl, sym, ap, ◌∙◌, Bool, true, false, ◌&&◌, Option, none, some, String, List, [], ◌∷◌,
  ◌++◌, arith, ◌==◌, eqb, if◌then◌else◌, All-map, inl, inr, Bool-cases, Option-cases, eq_iff,
}
use onyx_ifem.Sqlite.Keys.{Unique, count_of_All, first-insert, first-none, any-false}
use onyx_ifem.Sqlite.Table.{first, update, count, first-update, first-some}
use onyx_ifem.Sqlite.Instants.{iso}
use onyx_ifem.Sqlite.Outbox.{slice_units}
use onyx_ifem.Sqlite.Inbox.{
  InboxRow, Inbox, ClaimInboxOptions, is_receipt, is_held, get_inbox_receipt, received, acquire,
  claim_again, claim_stored, claim_inbox, complete, release, update_held, complete_inbox,
  release_inbox,
}
use onyx_ifem.Sqlite.Inbox.Steps.{
  is_refused, InboxCall, claims, completes, releases, after, step, same_receipt, HasUniqueReceipts,
  is_left_by, claim_row, change_held, row_step,
}

pub count_of_member :
    {A : Type 0} (same : A → A → Bool) (p q : A → Bool) (xs : List A) {r : A}
    → ((x y : A) → q x ≡ true → same x y ≡ false → q y ≡ false)
    → Unique same xs
    → first p xs ≡ some r
    → q r ≡ true
    → count q xs ≡ 1
unfolding first count
count_of_member same p q [] apart u found fits = cc
count_of_member same p q (x ∷ xs) {r} apart (fresh, u) found fits = elim (Bool-cases (q x)) [
  | inl hit ↦ rw hit (ap suc (count_of_All q xs (All-map xs (λ y k. apart x y hit k) fresh)))
  | inr miss ↦ elim (Bool-cases (p x)) [
    | inl here ↦
        let same_row : some x ≡ some r = (rw here at found) in ground (arith, same_row, fits, miss)
    | inr there ↦ rw miss (count_of_member same p q xs apart u (rw there at found) fits)
  ]
]

pub is_held-apart :
    (c e worker : String) (x y : InboxRow)
    → is_held c e worker x ≡ true
    → same_receipt x y ≡ false
    → is_held c e worker y ≡ false
is_held-apart c e worker x y h k = ground (
  arith,
  h,
  k,
  eq_iff x.consumer_name c,
  eq_iff x.event_id e,
  eq_iff y.consumer_name c,
  eq_iff y.event_id e,
  eq_iff y.consumer_name x.consumer_name,
  eq_iff y.event_id x.event_id,
)

pub is_held_of :
    (c e worker : String) (x : InboxRow) → is_held c e worker x ≡ true → is_receipt c e x ≡ true
is_held_of c e worker x h = ground (arith, h)

pub is_receipt-apart :
    (c e : String) (x y : InboxRow)
    → is_receipt c e x ≡ true
    → same_receipt x y ≡ false
    → is_receipt c e y ≡ false
is_receipt-apart c e x y h k = ground (
  arith,
  h,
  k,
  eq_iff x.consumer_name c,
  eq_iff x.event_id e,
  eq_iff y.consumer_name c,
  eq_iff y.event_id e,
  eq_iff y.consumer_name x.consumer_name,
  eq_iff y.event_id x.event_id,
)

update_held-get :
    (c e c' e' worker : String) (f : InboxRow → InboxRow) (t : Inbox)
    → ((r : InboxRow) → is_receipt c e (f r) ≡ is_receipt c e r)
    → HasUniqueReceipts t
    → get_inbox_receipt c e (after t (λ r. r) (update_held c' e' worker f t))
      ≡ change_held c' e' worker f (get_inbox_receipt c e t)
unfolding get_inbox_receipt update_held
update_held-get c e c' e' worker f t keep u =
    elim (Bool-cases (eqb (count (is_held c' e' worker) t) 1)) [
      | inl one ↦ rw one (first-update (is_receipt c e) (is_held c' e' worker) f t keep)
      | inr none_or_more ↦ elim (Option-cases (first (is_receipt c e) t)) [
        | inl missing ↦ rw (none_or_more, missing) refl
        | inr (r, found) ↦ elim (Bool-cases (is_held c' e' worker r)) [
          | inl held ↦
              let one =
                count_of_member same_receipt (is_receipt c e) (is_held c' e' worker) t
                  (is_held-apart c' e' worker) u found held in
              ground (arith, one, none_or_more)
          | inr other ↦ rw (none_or_more, found, other) refl
        ]
      ]
    ]

-- The table after a claim that has found the row.
abbrev pub claim_table : ClaimInboxOptions → Option InboxRow → Inbox → Inbox
claim_table o none t = if is_refused o then t else t ++ received o ∷ []
claim_table o (some r) t =
    if is_left_by o r then t else update (is_receipt o.consumer_name o.event_id) (acquire o) t

pub step-claims :
    (o : ClaimInboxOptions) (t : Inbox)
    → step t (claims o) ≡ claim_table o (first (is_receipt o.consumer_name o.event_id) t) t
unfolding step claim_inbox claim_stored claim_again
step-claims o t = elim (Option-cases (first (is_receipt o.consumer_name o.event_id) t)) [
  | inl missing ↦ rw missing (ground arith)
  | inr (r, found) ↦ rw found (ground arith)
]

at_own_key :
    (c e : String) (o : ClaimInboxOptions) (t : Inbox)
    → (o.consumer_name == c && o.event_id == e) ≡ true
    → first (is_receipt c e) t ≡ first (is_receipt o.consumer_name o.event_id) t
at_own_key c e o t own =
    let (ec, ee) : (o.consumer_name ≡ c) × (o.event_id ≡ e) =
      ground (arith, own, eq_iff o.consumer_name c, eq_iff o.event_id e) in
    sym (ap (λ k. first (is_receipt k o.event_id) t) ec ∙ ap (λ k. first (is_receipt c k) t) ee)

acquired_own :
    (o : ClaimInboxOptions) (r : InboxRow) (t : Inbox)
    → first (is_receipt o.consumer_name o.event_id) t ≡ some r
    → is_receipt o.consumer_name o.event_id r ≡ true
acquired_own o r t found = first-some (is_receipt o.consumer_name o.event_id) t found

untouched :
    (c e : String) (o : ClaimInboxOptions) (t : Inbox)
    → (o.consumer_name == c && o.event_id == e) ≡ false
    → Option.map
        (λ r. if is_receipt o.consumer_name o.event_id r then acquire o r else r)
        (first (is_receipt c e) t)
      ≡ first (is_receipt c e) t
untouched c e o t other = elim (Option-cases (first (is_receipt c e) t)) [
  | inl missing ↦ rw missing refl
  | inr (r, found) ↦
      let apart : is_receipt o.consumer_name o.event_id r ≡ false = ground (
        arith,
        other,
        first-some (is_receipt c e) t found,
        eq_iff r.consumer_name c,
        eq_iff r.event_id e,
        eq_iff o.consumer_name c,
        eq_iff o.event_id e,
        eq_iff r.consumer_name o.consumer_name,
        eq_iff r.event_id o.event_id,
      ) in
      rw (found, apart) refl
]

-- A claim whose key has no row.
claim_table-none :
    (c e : String) (o : ClaimInboxOptions) (t : Inbox)
    → first (is_receipt o.consumer_name o.event_id) t ≡ none
    → first (is_receipt c e) (claim_table o none t) ≡ (
        if (o.consumer_name == c && o.event_id == e)
        then claim_row o none
        else first (is_receipt c e) t)
claim_table-none c e o t missing =
    let here = at_own_key c e o t in
    let added =
      first-insert (is_receipt c e) t (received o)
        (λ own. any-false (is_receipt c e) t (first-none _ t (here own ∙ missing))) in
    ground (arith, added, here, missing)

claim_table-some :
    (c e : String) (o : ClaimInboxOptions) (t : Inbox) (r : InboxRow)
    → first (is_receipt o.consumer_name o.event_id) t ≡ some r
    → first (is_receipt c e) (claim_table o (some r) t) ≡ (
        if (o.consumer_name == c && o.event_id == e)
        then claim_row o (some r)
        else first (is_receipt c e) t)
claim_table-some c e o t r found =
    let here = at_own_key c e o t in
    let changed =
      first-update (is_receipt c e) (is_receipt o.consumer_name o.event_id) (acquire o) t
        (λ x. refl) in
    elim (Bool-cases (o.consumer_name == c && o.event_id == e)) [
      | inl own ↦ ground (arith, own, acquired_own o r t found, changed, here own, found)
      | inr other ↦ ground (arith, other, changed ∙ untouched c e o t other)
    ]

own_row :
    (c e : String) (o : ClaimInboxOptions) (t : Inbox) (r : Option InboxRow)
    → first (is_receipt o.consumer_name o.event_id) t ≡ r
    → (if (o.consumer_name == c && o.event_id == e)
        then claim_row o r
        else first (is_receipt c e) t)
      ≡ row_step c e (claims o) (first (is_receipt c e) t)
own_row c e o t r found = elim (Bool-cases (o.consumer_name == c && o.event_id == e)) [
  | inl own ↦
      let here : first (is_receipt c e) t ≡ r = at_own_key c e o t own ∙ found in
      rw (own, here) refl
  | inr other ↦ rw other refl
]

-- In a table with one row for each key, a call changes the receipt of a key as the step of that one receipt
-- says, whatever the call and the key: a claim inserts, takes or leaves it, and a completion or a release
-- changes it if the worker holds it.
pub step-get_inbox_receipt :
    (c e : String) (call : InboxCall) (t : Inbox)
    → HasUniqueReceipts t
    → get_inbox_receipt c e (step t call) ≡ row_step c e call (get_inbox_receipt c e t)
unfolding get_inbox_receipt step complete_inbox release_inbox
step-get_inbox_receipt c e (claims o) t u =
    ap (first (is_receipt c e)) (step-claims o t)
    ∙ elim (Option-cases (first (is_receipt o.consumer_name o.event_id) t)) [
      | inl missing ↦
          ap (λ x. first (is_receipt c e) (claim_table o x t)) missing
          ∙ claim_table-none c e o t missing
          ∙ own_row c e o t none missing
      | inr (r, found) ↦
          ap (λ x. first (is_receipt c e) (claim_table o x t)) found
          ∙ claim_table-some c e o t r found
          ∙ own_row c e o t (some r) found
    ]
step-get_inbox_receipt c e (completes c' e' worker at) t u =
    update_held-get c e c' e' worker (complete (iso at)) t (λ r. refl) u
step-get_inbox_receipt c e (releases c' e' worker error) t u =
    update_held-get c e c' e' worker (release (slice_units 2048 error)) t (λ r. refl) u
