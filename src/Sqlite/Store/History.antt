-- ===== src/Sqlite/Store/History.antt =====
-- What a commit keeps of the store: every aggregate has one event for each of its versions and no other,
-- and every event has its one row in the outbox.
use onyx_ifem.Prelude.{
  ℕ, suc, ◌≡◌, refl, sym, ap, ◌∙◌, subst, Bool, true, false, ◌&&◌, ◌||◌, Option, none, some, String,
  List, [], ◌∷◌, ◌++◌, arith, ◌==◌, leb, eqb, if◌then◌else◌, All-map, ==_comm, inl, inr, ◌⊎◌,
  eq_iff,
}
use onyx_ifem.Contracts.Errors.{ok, err, Fault, Result-cases}
use onyx_ifem.Sqlite.Keys.{any, any-append, any-false-All, first-insert, Unique, Unique-insert}
use onyx_ifem.Sqlite.Outbox.Lookup.{same_event, HasUniqueEvents}
use onyx_ifem.Sqlite.Table.{first}
use onyx_ifem.Sqlite.Instants.{Instant}
use onyx_ifem.Sqlite.Outbox.{Outbox, has_event_id}
use onyx_ifem.Sqlite.Store.{
  AggregateRow, EventRow, OperationRow, Store, insert_outbox, insert_event, CommitRecord, is_event,
  is_event_id, is_operation, get_aggregate, get_operation_row, operation_row, event_row, outbox_row,
  get_state, state_of, commit,
}
use onyx_ifem.Sqlite.Store.Writes.{
  HasUniqueAggregates, is_own, own_keys, written, IsBase, write_aggregate-get,
  write_aggregate-Unique, insert_event-eq-ok, insert_operation-eq-ok, insert_outbox-eq-ok,
  commit-eq-ok,
}

abbrev pub version_of : Option AggregateRow → ℕ
version_of none = 0
version_of (some a) = a.version

-- The event of a version is there exactly if the aggregate has reached that version.
abbrev pub IsGapless : Store → Type 0
IsGapless s =
    (c i : String) (n : ℕ)
    → any (is_event c i n) s.events
      ≡ (leb 1 n && leb n (version_of (get_aggregate c i s.aggregates)))

-- The outbox has a row for the events that are recorded and for no other.
abbrev pub IsPublished : Store → Type 0
IsPublished s = (e : String) → any (is_event_id e) s.events ≡ any (has_event_id e) s.outbox

abbrev same_version : EventRow → EventRow → Bool
same_version x y = is_event x.context x.aggregate_id x.aggregate_version y

abbrev same_event_id : EventRow → EventRow → Bool
same_event_id x y = is_event_id x.event_id y

-- No two events are of one version of an aggregate, and no two have one id.
abbrev pub HasUniqueVersions : List EventRow → Type 0
HasUniqueVersions = Unique same_version

abbrev pub HasUniqueIds : List EventRow → Type 0
HasUniqueIds = Unique same_event_id

pub record IsConsistent (s : Store) : Type 0 where
  pub unique_aggregates : HasUniqueAggregates s.aggregates
  pub unique_versions : HasUniqueVersions s.events
  pub unique_ids : HasUniqueIds s.events
  pub unique_messages : HasUniqueEvents s.outbox
  pub gapless : IsGapless s
  pub published : IsPublished s

-- One more version of one aggregate.
next_version :
    (r : CommitRecord) (base : Option AggregateRow)
    → IsBase r base
    → (r.create ≡ true → r.version ≡ 1)
    → (version_of (some (written r base)) ≡ r.version) × (r.version ≡ suc (version_of base))
next_version r none h first_version = (refl, first_version h.0)
next_version r (some a) h first_version = (refl, sym h.1)

gapless_step :
    (n v : ℕ) (a : AggregateRow) (o : Option AggregateRow) (own : Bool)
    → a.version ≡ v
    → (own ≡ true → v ≡ suc (version_of o))
    → ((leb 1 n && leb n (version_of o)) || ((own && eqb v n) || false))
      ≡ (leb 1 n && leb n (version_of (if own then some a else o)))
gapless_step n v a o true e h = ground (arith, e, h refl)
gapless_step n v a o false e h = ground (arith, e)

-- The event of a commit carries its version.
keep-IsGapless :
    (place : String → Instant) (now : ℕ) (r : CommitRecord) (s s' : Store)
    → commit place now r s ≡ ok s'
    → r.event_version ≡ r.version
    → (r.create ≡ true → r.version ≡ 1)
    → HasUniqueAggregates s.aggregates
    → IsGapless s
    → IsGapless s'
unfolding any
keep-IsGapless place now r s s' h same_version first_version u gapless c i n =
    let (h1, h2, _, _) = commit-eq-ok place now r s s' h in
    let (base, get) = write_aggregate-get r s.aggregates u h1 in
    let (_, _, _, rows) = insert_event-eq-ok r s.events h2 in
    let old = get_aggregate r.context r.aggregate_id s.aggregates in
    let (new_version, next) = next_version r old base first_version in
    ap (any (is_event c i n)) (sym rows)
    ∙ any-append (is_event c i n) s.events (event_row r ∷ [])
    ∙ rw (gapless c i n, get c i, same_version)
        (gapless_step n r.version (written r old) (get_aggregate c i s.aggregates) (is_own r c i)
          new_version
          (λ own.
            let (ec, ei) = own_keys r c i own in
            next
            ∙ ap (λ o. suc (version_of o))
                (ap (λ k. get_aggregate k r.aggregate_id s.aggregates) ec
                  ∙ ap (λ k. get_aggregate c k s.aggregates) ei)))

event-Unique :
    (r : CommitRecord) (rows : List EventRow) {rows' : List EventRow}
    → insert_event r rows ≡ ok rows'
    → HasUniqueVersions rows
    → HasUniqueIds rows
    → HasUniqueVersions rows' × HasUniqueIds rows'
event-Unique r rows h versions ids =
    let (_, fresh, fresh_id, same) = insert_event-eq-ok r rows h in
    (
      subst HasUniqueVersions same (
          Unique-insert same_version rows (event_row r)
            (All-map rows
              (λ y other. ground (
                arith,
                other,
                eq_iff r.context y.context,
                eq_iff y.context r.context,
                eq_iff r.aggregate_id y.aggregate_id,
                eq_iff y.aggregate_id r.aggregate_id,
              ))
              (any-false-All (is_event r.context r.aggregate_id r.event_version) rows fresh))
            versions),
      subst HasUniqueIds same (
          Unique-insert same_event_id rows (event_row r)
            (All-map rows (λ y other. ==_comm r.event_id y.event_id ∙ other)
              (any-false-All (is_event_id r.event_id) rows fresh_id))
            ids),
    )

outbox-Unique :
    (place : String → Instant) (now : ℕ) (r : CommitRecord) (rows : Outbox) {rows' : Outbox}
    → insert_outbox place now r rows ≡ ok rows'
    → HasUniqueEvents rows
    → HasUniqueEvents rows'
outbox-Unique place now r rows h u =
    let (fresh, same) = insert_outbox-eq-ok place now r rows h in
    subst HasUniqueEvents same (
      Unique-insert same_event rows (outbox_row place now r)
        (All-map rows (λ y other. ==_comm r.event_id y.event_id ∙ other)
          (any-false-All (has_event_id r.event_id) rows fresh))
        u)

-- A commit that succeeds, of an event at the version of the aggregate, and of version 1 where it creates
-- the aggregate, keeps the store consistent: no version of an aggregate is without its event or has two,
-- no event is without its row in the outbox or has two, no two events have one id, and no aggregate has two
-- rows.
pub commit-IsConsistent :
    (place : String → Instant) (now : ℕ) (r : CommitRecord) (s s' : Store)
    → IsConsistent s
    → r.event_version ≡ r.version
    → (r.create ≡ true → r.version ≡ 1)
    → commit place now r s ≡ ok s'
    → IsConsistent s'
unfolding any
commit-IsConsistent place now r s s' c same_version first_version h =
    let (h1, h2, _, h4) = commit-eq-ok place now r s s' h in
    let (_, _, _, events) = insert_event-eq-ok r s.events h2 in
    let (_, outbox) = insert_outbox-eq-ok place now r s.outbox h4 in
    record {
      unique_aggregates = write_aggregate-Unique r s.aggregates c.unique_aggregates h1;
      unique_versions = (event-Unique r s.events h2 c.unique_versions c.unique_ids).0;
      unique_ids = (event-Unique r s.events h2 c.unique_versions c.unique_ids).1;
      unique_messages = outbox-Unique place now r s.outbox h4 c.unique_messages;
      gapless =
          keep-IsGapless place now r s s' h same_version first_version c.unique_aggregates
            c.gapless;
      published = λ e.
          ap (any (is_event_id e)) (sym events)
          ∙ any-append (is_event_id e) s.events (event_row r ∷ [])
          ∙ rw (c.published e) refl
          ∙ sym (any-append (has_event_id e) s.outbox (outbox_row place now r ∷ []))
          ∙ ap (any (has_event_id e)) outbox;
    }

-- What two commits share that only one of them may write: a version of an aggregate, an operation, or an
-- event.
abbrev pub Clashes : CommitRecord → CommitRecord → Type 0
Clashes r q =
    ((r.context ≡ q.context) × (r.aggregate_id ≡ q.aggregate_id) × (r.version ≡ q.version))
    ⊎ ((r.context ≡ q.context) × (r.operation_id ≡ q.operation_id))
    ⊎ (r.event_id ≡ q.event_id)

true_is_not_false : true ≡ false → ⊥
true_is_not_false h = cc

last_hit :
    {A : Type 0} (p : A → Bool) (rows : List A) (x : A) → p x ≡ true → any p (rows ++ x ∷ []) ≡ true
unfolding any
last_hit p rows x h = any-append p rows (x ∷ []) ∙ ground (arith, h)

own_if :
    {A : Type 0} (r : CommitRecord) (c i : String) (x y : A)
    → r.context ≡ c
    → r.aggregate_id ≡ i
    → (if is_own r c i then x else y) ≡ x
own_if r c i x y ec ei = ground (arith, ec, ei, eq_iff r.context c, eq_iff r.aggregate_id i)

stale_base :
    (r q : CommitRecord) (base : Option AggregateRow)
    → IsBase r base
    → IsBase q (some (written r base))
    → r.version ≡ q.version
    → ⊥
stale_base r q none h k e = omega (arith, k.1, e)
stale_base r q (some a) h k e = omega (arith, k.1, e)

no_second :
    (place later : String → Instant) (now then_ : ℕ) (r q : CommitRecord) (s s' s'' : Store)
    → HasUniqueAggregates s.aggregates
    → commit place now r s ≡ ok s'
    → commit later then_ q s' ≡ ok s''
    → Clashes r q
    → ⊥
no_second place later now then_ r q s s' s'' u h k (inl (ec, ei, ev)) =
    let (h1, _, _, _) = commit-eq-ok place now r s s' h in
    let (k1, _, _, _) = commit-eq-ok later then_ q s' s'' k in
    let (base, get) = write_aggregate-get r s.aggregates u h1 in
    let (base', _) =
      write_aggregate-get q s'.aggregates (write_aggregate-Unique r s.aggregates u h1) k1 in
    let old = get_aggregate r.context r.aggregate_id s.aggregates in
    let there : get_aggregate q.context q.aggregate_id s'.aggregates ≡ some (written r old) =
      get q.context q.aggregate_id ∙ own_if r q.context q.aggregate_id _ _ ec ei in
    stale_base r q old base (subst (IsBase q) there base') ev
no_second place later now then_ r q s s' s'' u h k (inr (inl (ec, eo))) =
    let (_, _, h3, _) = commit-eq-ok place now r s s' h in
    let (_, _, k3, _) = commit-eq-ok later then_ q s' s'' k in
    let (_, rows) = insert_operation-eq-ok r s.operations h3 in
    let (fresh, _) = insert_operation-eq-ok q s'.operations k3 in
    true_is_not_false (
      sym (
        last_hit (is_operation q.context q.operation_id) s.operations (operation_row r) (
          ground (arith, ec, eo, eq_iff r.context q.context, eq_iff r.operation_id q.operation_id)))
      ∙ ap (any (is_operation q.context q.operation_id)) rows
      ∙ fresh)
no_second place later now then_ r q s s' s'' u h k (inr (inr ee)) =
    let (_, h2, _, _) = commit-eq-ok place now r s s' h in
    let (_, k2, _, _) = commit-eq-ok later then_ q s' s'' k in
    let (_, _, _, rows) = insert_event-eq-ok r s.events h2 in
    let (_, _, fresh, _) = insert_event-eq-ok q s'.events k2 in
    true_is_not_false (
      sym (
        last_hit (is_event_id q.event_id) s.events (event_row r)
          (ground (arith, ee, eq_iff r.event_id q.event_id)))
      ∙ ap (any (is_event_id q.event_id)) rows
      ∙ fresh)

-- After a commit to a consistent store, another commit throws if the two share a version of an aggregate, an
-- operation or an event. So of two writers that read the same version only one succeeds.
pub commit-commit :
    (place later : String → Instant) (now then_ : ℕ) (r q : CommitRecord) (s s' : Store)
    → IsConsistent s
    → commit place now r s ≡ ok s'
    → Clashes r q
    → (e : Fault) × (commit later then_ q s' ≡ err e)
commit-commit place later now then_ r q s s' c h clash =
    elim (Result-cases (commit later then_ q s')) [
      | inl failed ↦ failed
      | inr (s'', k) ↦
          absurd (no_second place later now then_ r q s s' s'' c.unique_aggregates h k clash)
    ]

state_of_if :
    (r : CommitRecord) (old other : Option AggregateRow) (own : Bool)
    → state_of (if own then some (written r old) else other)
      ≡ (if own then some r.state else state_of other)
state_of_if r none other true = refl
state_of_if r (some a) other true = refl
state_of_if r old other false = refl

version_of-written :
    (r : CommitRecord) (old : Option AggregateRow)
    → IsBase r old
    → version_of (some (written r old)) ≡ r.version
version_of-written r none h = refl
version_of-written r (some a) h = refl

version_of_if :
    (r : CommitRecord) (old other : Option AggregateRow) (own : Bool)
    → version_of (some (written r old)) ≡ r.version
    → version_of (if own then some (written r old) else other)
      ≡ (if own then r.version else version_of other)
version_of_if r old other true e = e
version_of_if r old other false e = refl

operation_fresh :
    (r : CommitRecord) (c o : String) (rows : List OperationRow)
    → any (is_operation r.context r.operation_id) rows ≡ false
    → (r.context == c && r.operation_id == o) ≡ true
    → any (is_operation c o) rows ≡ false
operation_fresh r c o rows h e =
    let (ec, eo) : (r.context ≡ c) × (r.operation_id ≡ o) =
      ground (arith, e, eq_iff r.context c, eq_iff r.operation_id o) in
    ap (λ k. any (is_operation k o) rows) (sym ec)
    ∙ ap (λ k. any (is_operation r.context k) rows) (sym eo)
    ∙ h

-- What every lookup by key gives after a commit to a consistent store that succeeds: the commit's own aggregate has the new state
-- and version, its own operation is recorded with its fingerprint and event, and every other aggregate and
-- operation is as before.
pub commit_lem :
    (place : String → Instant) (now : ℕ) (r : CommitRecord) (s s' : Store)
    → IsConsistent s
    → commit place now r s ≡ ok s'
    → ((c i : String)
        → (get_state c i s' ≡ (if is_own r c i then some r.state else get_state c i s))
          × (version_of (get_aggregate c i s'.aggregates)
              ≡ (if is_own r c i then r.version else version_of (get_aggregate c i s.aggregates))))
      × ((c o : String)
          → get_operation_row c o s'.operations ≡ (
              if (r.context == c && r.operation_id == o)
              then some (operation_row r)
              else get_operation_row c o s.operations))
unfolding get_state get_operation_row
commit_lem place now r s s' k h =
    let (h1, _, h3, _) = commit-eq-ok place now r s s' h in
    let (base, get) = write_aggregate-get r s.aggregates k.unique_aggregates h1 in
    let (fresh, rows) = insert_operation-eq-ok r s.operations h3 in
    let old = get_aggregate r.context r.aggregate_id s.aggregates in
    let new_version = version_of-written r old base in
    (
      λ c i. (
        ap state_of (get c i) ∙ state_of_if r old (get_aggregate c i s.aggregates) (is_own r c i),
        ap version_of (get c i)
            ∙ version_of_if r old (get_aggregate c i s.aggregates) (is_own r c i) new_version,
      ),
      λ c o.
          ap (first (is_operation c o)) (sym rows)
          ∙ first-insert (is_operation c o) s.operations (operation_row r)
              (operation_fresh r c o s.operations fresh),
    )
