-- ===== src/Sqlite/Outbox/Lookup.antt =====
-- What the outbox's statements do to the row of one event, in a table whose event ids are unique.
use mathlib.Core.Option
use onyx_ifem.Prelude.{
  ◌≡◌, refl, Bool, true, false, some, String, List, [], ◌∷◌, arith, ◌==◌, if◌then◌else◌, All,
  All-map, All-take, ==_refl, ==_comm, eq_of_==, Bool-cases, inl, inr, eq_iff, subst,
}
use onyx_ifem.Sqlite.Table.{first, update, first-some, All-select, All-order_by, select-All}
use onyx_ifem.Sqlite.Keys.{any, any-false, Unique, Unique-select, Unique-take, Unique-order_by}
use onyx_ifem.Sqlite.Instants.{Instant, iso}
use onyx_ifem.Sqlite.Outbox.{
  OutboxRow, Outbox, has_event_id, is_ready, claim_order, lease, lease_all, ClaimOutboxOptions,
  claimable, get_outbox_row,
}

abbrev pub same_event : OutboxRow → OutboxRow → Bool
same_event r s = has_event_id r.event_id s

abbrev pub HasUniqueEvents : Outbox → Type 0
HasUniqueEvents = Unique same_event

pub Unique-claimable :
    (o : ClaimOutboxOptions) (t : Outbox) → HasUniqueEvents t → HasUniqueEvents (claimable o t)
unfolding claimable
Unique-claimable o t u = Unique-take same_event o.limit _ (
    Unique-order_by same_event (λ r s. ==_comm s.event_id r.event_id) claim_order _
      (Unique-select same_event (is_ready (iso o.now)) t u))

pub claimable-ready :
    (o : ClaimOutboxOptions) (t : Outbox) → All (λ r. is_ready (iso o.now) r ≡ true) (claimable o t)
unfolding claimable
claimable-ready o t =
    All-take _ o.limit _ (All-order_by _ claim_order _ (select-All (is_ready (iso o.now)) t))

-- What holds of all rows holds of the claimed ones.
pub claimable-All {κ} :
    (P : OutboxRow → Type κ) (o : ClaimOutboxOptions) (t : Outbox) → All P t → All P (claimable o t)
unfolding claimable
claimable-All P o t h =
    All-take P o.limit _ (All-order_by P claim_order _ (All-select P (is_ready (iso o.now)) t h))

pub get-event :
    (e : String) (t : Outbox) {r : OutboxRow}
    → get_outbox_row e t ≡ some r
    → has_event_id e r ≡ true
unfolding get_outbox_row
get-event e t h = first-some (has_event_id e) t h

-- The row that a lookup finds is the only one with its event id.
pub get-only :
    (e : String) (t : Outbox) {r : OutboxRow}
    → HasUniqueEvents t
    → get_outbox_row e t ≡ some r
    → All (λ s. has_event_id e s ≡ true → s ≡ r) t
unfolding get_outbox_row first
get-only e [] u h = tt
get-only e (x ∷ t) {r} (fresh, u) h = elim (Bool-cases (has_event_id e x)) [
  | inl hit ↦ (λ _. (ground arith), All-map t (λ s other k. absurd (clash s hit other k)) fresh)
  | inr miss ↦ (λ k. cc, get-only e t u (rw miss at h))
]
  where
    clash :
        (s : OutboxRow)
        → has_event_id e x ≡ true
        → has_event_id x.event_id s ≡ false
        → has_event_id e s ≡ true
        → ⊥
    clash s a b c = ground (arith, eq_of_== x.event_id e, eq_of_== s.event_id e, ==_refl e)

-- An update of one event's row by a function that keeps the event id.
pub get-update :
    (e k : String) (f : OutboxRow → OutboxRow) (t : Outbox)
    → ((r : OutboxRow) → (f r).event_id ≡ r.event_id)
    → get_outbox_row e (update (has_event_id k) f t)
      ≡ (if k == e then Option.map f (get_outbox_row e t) else get_outbox_row e t)
unfolding get_outbox_row first update
get-update e k f [] h = ground arith
get-update e k f (x ∷ t) h = ground (
  arith,
  h x,
  eq_iff k e,
  eq_iff x.event_id k,
  eq_iff x.event_id e,
  eq_iff (f x).event_id e,
  get-update e k f t h,
)

not_any_of_fresh :
    (e k : String) (rs : List OutboxRow)
    → (k == e) ≡ true
    → All (λ s. has_event_id k s ≡ false) rs
    → any (has_event_id e) rs ≡ false
not_any_of_fresh e k rs h fresh =
    any-false (has_event_id e) rs
      (All-map rs (λ s other. subst (λ x. (s.event_id == x) ≡ false) (eq_of_== k e h) other) fresh)

-- A lease goes to the rows of the claimed events, once to each.
pub get-lease_all :
    (e worker : String) (expires : Instant) (rs t : List OutboxRow)
    → HasUniqueEvents rs
    → get_outbox_row e (lease_all worker expires rs t) ≡ (
        if any (has_event_id e) rs
        then Option.map (lease worker expires) (get_outbox_row e t)
        else get_outbox_row e t)
unfolding lease_all any
get-lease_all e worker expires [] t u = refl
get-lease_all e worker expires (r ∷ rs) t (fresh, u) = ground (
  arith,
  get-lease_all e worker expires rs (update (has_event_id r.event_id) (lease worker expires) t) u,
  get-update e r.event_id (lease worker expires) t (λ _. refl),
  not_any_of_fresh e r.event_id rs,
)
