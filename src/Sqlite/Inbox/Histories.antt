-- ===== src/Sqlite/Inbox/Histories.antt =====
-- Histories of calls of the inbox keep the key of the table, and run each receipt by itself.
use onyx_ifem.Prelude.{
  ◌≡◌, refl, sym, ap, subst, ◌∙◌, false, Option, none, some, String, List, [], ◌∷◌, arith, eqb,
  All-map, inl, inr, Bool-cases, eq_iff,
}
use onyx_ifem.Sqlite.Keys.{Unique-update, Unique-insert, first-none}
use onyx_ifem.Sqlite.Table.{first, count}
use onyx_ifem.Sqlite.Instants.{iso}
use onyx_ifem.Sqlite.Outbox.{slice_units}
use onyx_ifem.Sqlite.Inbox.{
  InboxRow, Inbox, ClaimInboxOptions, is_receipt, is_held, get_inbox_receipt, received, acquire,
  complete, release, update_held, complete_inbox, release_inbox,
}
use onyx_ifem.Sqlite.Inbox.Steps.{
  is_refused, InboxCall, claims, completes, releases, after, step, run, same_receipt,
  HasUniqueReceipts, is_left_by, row_run,
}
use onyx_ifem.Sqlite.Inbox.Rows.{claim_table, step-claims, step-get_inbox_receipt}

key_comm :
    (x y : InboxRow) → is_receipt x.consumer_name x.event_id y ≡ false → same_receipt y x ≡ false
key_comm x y h = ground (
  arith,
  h,
  eq_iff x.consumer_name y.consumer_name,
  eq_iff x.event_id y.event_id,
  eq_iff y.consumer_name x.consumer_name,
  eq_iff y.event_id x.event_id,
)

claim_table-Unique :
    (o : ClaimInboxOptions) (t : Inbox) (r : Option InboxRow)
    → first (is_receipt o.consumer_name o.event_id) t ≡ r
    → HasUniqueReceipts t
    → HasUniqueReceipts (claim_table o r t)
claim_table-Unique o t none missing u = elim (Bool-cases (is_refused o)) [
  | inl refused ↦ rw refused u
  | inr accepted ↦ rw accepted (
      Unique-insert same_receipt t (received o)
        (All-map t (λ x k. key_comm (received o) x k) (first-none _ t missing)) u)
]
claim_table-Unique o t (some r) found u = elim (Bool-cases (is_left_by o r)) [
  | inl left ↦ rw left u
  | inr taken ↦ rw taken (
      Unique-update same_receipt (is_receipt o.consumer_name o.event_id) (acquire o) t (λ x y. refl)
        (λ x y. refl) u)
]

update_held-Unique :
    (c e worker : String) (f : InboxRow → InboxRow) (t : Inbox)
    → ((x y : InboxRow) → same_receipt (f x) y ≡ same_receipt x y)
    → ((x y : InboxRow) → same_receipt x (f y) ≡ same_receipt x y)
    → HasUniqueReceipts t
    → HasUniqueReceipts (after t (λ r. r) (update_held c e worker f t))
unfolding update_held
update_held-Unique c e worker f t left right u =
    elim (Bool-cases (eqb (count (is_held c e worker) t) 1)) [
      | inl one ↦ rw one (Unique-update same_receipt (is_held c e worker) f t left right u)
      | inr none_or_more ↦ rw none_or_more u
    ]

pub step-HasUniqueReceipts :
    (call : InboxCall) (t : Inbox) → HasUniqueReceipts t → HasUniqueReceipts (step t call)
unfolding step complete_inbox release_inbox
step-HasUniqueReceipts (claims o) t u =
    subst HasUniqueReceipts (sym (step-claims o t)) (claim_table-Unique o t _ refl u)
step-HasUniqueReceipts (completes c e worker at) t u =
    update_held-Unique c e worker (complete (iso at)) t (λ x y. refl) (λ x y. refl) u
step-HasUniqueReceipts (releases c e worker error) t u =
    update_held-Unique c e worker (release (slice_units 2048 error)) t (λ x y. refl) (λ x y. refl) u

-- So a history of calls changes each receipt by itself.
pub run-get_inbox_receipt :
    (c e : String) (calls : List InboxCall) (t : Inbox)
    → HasUniqueReceipts t
    → get_inbox_receipt c e (run t calls) ≡ row_run c e calls (get_inbox_receipt c e t)
unfolding run
run-get_inbox_receipt c e [] t u = refl
run-get_inbox_receipt c e (call ∷ calls) t u =
    run-get_inbox_receipt c e calls (step t call) (step-HasUniqueReceipts call t u)
    ∙ ap (row_run c e calls) (step-get_inbox_receipt c e call t u)

pub run-HasUniqueReceipts :
    (calls : List InboxCall) (t : Inbox) → HasUniqueReceipts t → HasUniqueReceipts (run t calls)
unfolding run
run-HasUniqueReceipts [] t u = u
run-HasUniqueReceipts (call ∷ calls) t u =
    run-HasUniqueReceipts calls (step t call) (step-HasUniqueReceipts call t u)
