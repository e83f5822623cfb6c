-- ===== src/Sqlite/Store/Writes.antt =====
-- What the four writes of a commit do to the lookups by key.
use onyx_ifem.Prelude.{
  ℕ, suc, ◌≤◌, ◌≡◌, refl, sym, ◌∙◌, subst, Bool, true, false, ◌&&◌, Option, none, some, String,
  List, [], ◌∷◌, ◌++◌, arith, ◌==◌, if◌then◌else◌, All-append, eq_iff, inl, inr, Bool-cases,
  Option-cases,
}
use onyx_ifem.Contracts.Errors.{Result, ok, err, ◌>>=◌}
use onyx_ifem.Sqlite.Instants.{Instant}
use onyx_ifem.Sqlite.Outbox.{Outbox, has_event_id}
use onyx_ifem.Sqlite.Table.{update, first, count, first-update, first-some}
use onyx_ifem.Sqlite.Keys.{any, any-false-All, first_of_All, first-of_count, Unique, Unique-update}
use onyx_ifem.Sqlite.Store.{
  AggregateRow, EventRow, OperationRow, Store, CommitRecord, is_aggregate, is_event, is_event_id,
  is_operation, get_aggregate, aggregate_row, is_previous, revise, write_aggregate, event_row,
  insert_event, operation_row, insert_operation, outbox_row, insert_outbox, commit,
}

abbrev pub same_aggregate : AggregateRow → AggregateRow → Bool
same_aggregate a b = is_aggregate a.context a.aggregate_id b

abbrev pub HasUniqueAggregates : List AggregateRow → Type 0
HasUniqueAggregates = Unique same_aggregate

-- The commit's own aggregate.
abbrev pub is_own : CommitRecord → String → String → Bool
is_own r c i = r.context == c && r.aggregate_id == i

-- The aggregate that the commit leaves: the new one, or the old one revised.
abbrev pub written : CommitRecord → Option AggregateRow → AggregateRow
written r none = aggregate_row r
written r (some a) = revise r a

-- The version before the commit, which it found.
abbrev pub IsBase : CommitRecord → Option AggregateRow → Type 0
IsBase r none = (r.create ≡ true) × (1 ≤ r.version)
IsBase r (some a) = (r.create ≡ false) × (suc a.version ≡ r.version)

create-get :
    (r : CommitRecord) (c i : String) (rows : List AggregateRow)
    → any (is_aggregate r.context r.aggregate_id) rows ≡ false
    → get_aggregate c i (rows ++ aggregate_row r ∷ [])
      ≡ (if is_own r c i then some (aggregate_row r) else get_aggregate c i rows)
unfolding get_aggregate first any
create-get r c i [] h = ground arith
create-get r c i (x ∷ rows) h = ground (
  arith,
  h,
  create-get r c i rows,
  eq_iff x.context c,
  eq_iff x.aggregate_id i,
  eq_iff r.context c,
  eq_iff r.aggregate_id i,
  eq_iff x.context r.context,
  eq_iff x.aggregate_id r.aggregate_id,
)

pub own_keys :
    (r : CommitRecord) (c i : String) → is_own r c i ≡ true → (r.context ≡ c) × (r.aggregate_id ≡ i)
own_keys r c i h = ground (arith, h, eq_iff r.context c, eq_iff r.aggregate_id i)

-- A row that is revised is the commit's own.
own_of_previous :
    (r : CommitRecord) (c i : String) (x : AggregateRow)
    → is_aggregate c i x ≡ true
    → is_previous r x ≡ true
    → is_own r c i ≡ true
own_of_previous r c i x h k = ground (
  arith,
  h,
  k,
  eq_iff x.context c,
  eq_iff x.aggregate_id i,
  eq_iff r.context c,
  eq_iff r.aggregate_id i,
  eq_iff x.context r.context,
  eq_iff x.aggregate_id r.aggregate_id,
)

update-get :
    (r : CommitRecord) (c i : String) (rows : List AggregateRow) (a : AggregateRow)
    → get_aggregate r.context r.aggregate_id rows ≡ some a
    → is_previous r a ≡ true
    → get_aggregate c i (update (is_previous r) (revise r) rows)
      ≡ (if is_own r c i then some (revise r a) else get_aggregate c i rows)
unfolding get_aggregate
update-get r c i rows a found fits =
    first-update (is_aggregate c i) (is_previous r) (revise r) rows (λ x. refl)
    ∙ elim (Bool-cases (is_own r c i)) [
      | inl own ↦
          let (ec, ei) = own_keys r c i own in
          let here : first (is_aggregate c i) rows ≡ some a =
            subst (λ k. first (is_aggregate k i) rows ≡ some a) ec
              (subst (λ k. first (is_aggregate r.context k) rows ≡ some a) ei found) in
          rw (here, own, fits)
      | inr other ↦ elim (Option-cases (first (is_aggregate c i) rows)) [
        | inl missing ↦ rw (missing, other)
        | inr (x, there) ↦
            rw (there, other)
              (ground
                (arith, own_of_previous r c i x (first-some (is_aggregate c i) rows there), other))
      ]
    ]

own_of_is_previous :
    (r : CommitRecord) (x : AggregateRow)
    → is_previous r x ≡ true
    → is_aggregate r.context r.aggregate_id x ≡ true
own_of_is_previous r x h = ground (arith, h)

is_aggregate-apart :
    (r : CommitRecord) (x y : AggregateRow)
    → is_aggregate r.context r.aggregate_id x ≡ true
    → same_aggregate x y ≡ false
    → is_aggregate r.context r.aggregate_id y ≡ false
is_aggregate-apart r x y h k = ground (
  arith,
  h,
  k,
  eq_iff x.context r.context,
  eq_iff x.aggregate_id r.aggregate_id,
  eq_iff y.context r.context,
  eq_iff y.aggregate_id r.aggregate_id,
  eq_iff y.context x.context,
  eq_iff y.aggregate_id x.aggregate_id,
)

create-eq-ok :
    (r : CommitRecord) (rows : List AggregateRow) {rows' : List AggregateRow}
    → r.create ≡ true
    → write_aggregate r rows ≡ ok rows'
    → (1 ≤ r.version)
      × (any (is_aggregate r.context r.aggregate_id) rows ≡ false)
      × (rows ++ aggregate_row r ∷ [] ≡ rows')
unfolding write_aggregate
create-eq-ok r rows new h = ground (arith, new, h)

update-eq-ok :
    (r : CommitRecord) (rows : List AggregateRow) {rows' : List AggregateRow}
    → r.create ≡ false
    → write_aggregate r rows ≡ ok rows'
    → (count (is_previous r) rows ≡ 1) × (update (is_previous r) (revise r) rows ≡ rows')
unfolding write_aggregate
update-eq-ok r rows old h = ground (arith, old, h)

-- A write of the aggregate that succeeds found the version before it, and changes the row of its own key
-- and no other.
pub write_aggregate-get :
    (r : CommitRecord) (rows : List AggregateRow) {rows' : List AggregateRow}
    → HasUniqueAggregates rows
    → write_aggregate r rows ≡ ok rows'
    → IsBase r (get_aggregate r.context r.aggregate_id rows)
      × ((c i : String)
          → get_aggregate c i rows' ≡ (
              if is_own r c i
              then some (written r (get_aggregate r.context r.aggregate_id rows))
              else get_aggregate c i rows))
unfolding get_aggregate
write_aggregate-get r rows {rows'} u h = elim (Bool-cases r.create) [
  | inl new ↦
      let (positive, fresh, same) = create-eq-ok r rows new h in
      let missing : get_aggregate r.context r.aggregate_id rows ≡ none =
        first_of_All _ rows (any-false-All _ rows fresh) in
      rw (missing, sym same) ((new, positive), λ c i. create-get r c i rows fresh)
  | inr old ↦
      let (one, same) = update-eq-ok r rows old h in
      let (a, found, fits) =
        first-of_count same_aggregate (is_aggregate r.context r.aggregate_id) (is_previous r) rows
          (own_of_is_previous r) (is_aggregate-apart r) u one in
      let there : get_aggregate r.context r.aggregate_id rows ≡ some a = found in
      rw (there, sym same) ((old, ground (arith, fits)), λ c i. update-get r c i rows a there fits)
]

create-Unique :
    (r : CommitRecord) (rows : List AggregateRow)
    → any (is_aggregate r.context r.aggregate_id) rows ≡ false
    → HasUniqueAggregates rows
    → HasUniqueAggregates (rows ++ aggregate_row r ∷ [])
unfolding any
create-Unique r [] h u = (tt, tt)
create-Unique r (x ∷ rows) h (fresh, u) = (
  All-append _ rows (aggregate_row r ∷ []) fresh (
    ground (
      arith,
      h,
      eq_iff r.context x.context,
      eq_iff r.aggregate_id x.aggregate_id,
      eq_iff x.context r.context,
      eq_iff x.aggregate_id r.aggregate_id,
    ),
    tt,
  ),
  create-Unique r rows (ground (arith, h)) u,
)

pub write_aggregate-Unique :
    (r : CommitRecord) (rows : List AggregateRow) {rows' : List AggregateRow}
    → HasUniqueAggregates rows
    → write_aggregate r rows ≡ ok rows'
    → HasUniqueAggregates rows'
write_aggregate-Unique r rows {rows'} u h = elim (Bool-cases r.create) [
  | inl new ↦
      let (_, fresh, same) = create-eq-ok r rows new h in
      subst HasUniqueAggregates same (create-Unique r rows fresh u)
  | inr old ↦
      let (_, same) = update-eq-ok r rows old h in
      subst HasUniqueAggregates same
        (Unique-update same_aggregate (is_previous r) (revise r) rows (λ x y. refl) (λ x y. refl) u)
]

pub insert_event-eq-ok :
    (r : CommitRecord) (rows : List EventRow) {rows' : List EventRow}
    → insert_event r rows ≡ ok rows'
    → (1 ≤ r.event_version)
      × (any (is_event r.context r.aggregate_id r.event_version) rows ≡ false)
      × (any (is_event_id r.event_id) rows ≡ false)
      × (rows ++ event_row r ∷ [] ≡ rows')
unfolding insert_event
insert_event-eq-ok r rows h = ground (arith, h)

pub insert_operation-eq-ok :
    (r : CommitRecord) (rows : List OperationRow) {rows' : List OperationRow}
    → insert_operation r rows ≡ ok rows'
    → (any (is_operation r.context r.operation_id) rows ≡ false)
      × (rows ++ operation_row r ∷ [] ≡ rows')
unfolding insert_operation
insert_operation-eq-ok r rows h = ground (arith, h)

pub insert_outbox-eq-ok :
    (place : String → Instant) (now : ℕ) (r : CommitRecord) (rows : Outbox) {rows' : Outbox}
    → insert_outbox place now r rows ≡ ok rows'
    → (any (has_event_id r.event_id) rows ≡ false) × (rows ++ outbox_row place now r ∷ [] ≡ rows')
unfolding insert_outbox
insert_outbox-eq-ok place now r rows h = ground (arith, h)

-- A chain of four results that succeeds.
four-eq-ok :
    (m : Result (List AggregateRow)) (n : Result (List EventRow)) (o : Result (List OperationRow))
    (q : Result Outbox) (s' : Store)
    → (m >>= λ aggregates. n >>= λ events. o >>= λ operations. q >>= λ outbox. ok (record {
      aggregates = aggregates;
      events = events;
      operations = operations;
      outbox = outbox;
    }))
      ≡ ok s'
    → (m ≡ ok s'.aggregates) × (n ≡ ok s'.events) × (o ≡ ok s'.operations) × (q ≡ ok s'.outbox)
four-eq-ok (err e) n o q s' h = cc
four-eq-ok (ok a) (err e) o q s' h = cc
four-eq-ok (ok a) (ok b) (err e) q s' h = cc
four-eq-ok (ok a) (ok b) (ok c) (err e) s' h = cc
four-eq-ok (ok a) (ok b) (ok c) (ok d) s' h = (cc, cc, cc, cc)

-- What the four writes of a commit that succeeds are.
pub commit-eq-ok :
    (place : String → Instant) (now : ℕ) (r : CommitRecord) (s s' : Store)
    → commit place now r s ≡ ok s'
    → (write_aggregate r s.aggregates ≡ ok s'.aggregates)
      × (insert_event r s.events ≡ ok s'.events)
      × (insert_operation r s.operations ≡ ok s'.operations)
      × (insert_outbox place now r s.outbox ≡ ok s'.outbox)
unfolding commit
commit-eq-ok place now r s s' h =
    four-eq-ok (write_aggregate r s.aggregates) (insert_event r s.events)
      (insert_operation r s.operations) (insert_outbox place now r s.outbox) s' h
