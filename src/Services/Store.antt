-- ===== src/Services/Store.antt =====
-- src/*/repository.ts: what a service asks of its repository, and the repository in memory. A
-- `structuredClone` is the value itself.
use onyx_ifem.Prelude.{
  ℕ, Bool, true, false, not, ◌&&◌, ◌≡◌, refl, ap, ◌∙◌, Option, none, some, String, List, [], ◌∷◌,
  ◌++◌, ltb, ◌==◌, if◌then◌else◌, take, is_some, ==_refl, arith, eq_iff, sym, Bool-cases, inl, inr,
  eq_of_==,
}
use Prim.Native.Nat.{Ordering}
use Prim.Native.String.{compare, ◌++◌ as ◌<>◌}
use onyx_ifem.Json.{Host}
use onyx_ifem.Contracts.Errors.{Result, ok, failure, ◌>>◌, throw_if, throw_if-eq-ok, ok-injective}
use onyx_ifem.Sqlite.Table.{select, order_by}
use onyx_ifem.Services.Envelopes.{EventEnvelope}

pub record OperationRecord : Type 0 where
  pub fingerprint : String
  pub event : EventEnvelope

-- A repository of entities, over a state `S` that only `commit` changes.
pub record Repository (Entity S : Type 0) : Type 0 where
  pub find : String → S → Result (Option Entity)
  pub list : String → Option String → ℕ → S → Result (List Entity)
  pub history : String → ℕ → ℕ → S → Result (List EventEnvelope)
  pub find_operation : String → S → Result (Option OperationRecord)
  pub commit : Entity → EventEnvelope → String → OperationRecord → Bool → S → Result S

-- Every operation that is found in a state is found unchanged in another.
abbrev pub KeepsOperations : {Entity S : Type 0} → Repository Entity S → S → S → Type 0
KeepsOperations r s s' =
    (o : String) (operation : OperationRecord)
    → r.find_operation o s ≡ ok (some operation)
    → r.find_operation o s' ≡ ok (some operation)

-- What the services rely on: a commit records its operation, for the events that they emit, and keeps the
-- operations that are recorded.
pub record IsRecording {Entity S : Type 0} (Emits : EventEnvelope → String → Type 0)
    (r : Repository Entity S) : Type 0 where
  pub recorded :
      (m : Entity) (event : EventEnvelope) (o : String) (fingerprint : String) (create : Bool)
      (s s' : S)
      → Emits event o
      → r.commit m event o (record { fingerprint = fingerprint; event = event }) create s ≡ ok s'
      → r.find_operation o s' ≡ ok (some (record { fingerprint = fingerprint; event = event }))
  pub keeps_operations :
      (m : Entity) (event : EventEnvelope) (o : String) (operation : OperationRecord)
      (create : Bool) (s s' : S)
      → r.commit m event o operation create s ≡ ok s'
      → KeepsOperations r s s'

-- The maps as lists of entries, in insertion order.
pub record InMemory (Entity : Type 0) : Type 0 where
  pub entities : List (String × Entity)
  pub events : List (String × List EventEnvelope)
  pub operations : List (String × OperationRecord)

module _ {A : Type 0} where
  -- `map.get(key)`
  unfoldable pub map_get : String → List (String × A) → Option A
  map_get k [] = none
  map_get k ((j, v) ∷ kvs) = if j == k then some v else map_get k kvs

  -- `map.set(key, value)`
  unfoldable pub map_set : String → A → List (String × A) → List (String × A)
  map_set k v [] = (k, v) ∷ []
  map_set k v ((j, w) ∷ kvs) = if j == k then (j, v) ∷ kvs else (j, w) ∷ map_set k v kvs

  pub map_get-map_set :
      (k j : String) (v : A) (kvs : List (String × A))
      → map_get j (map_set k v kvs) ≡ (if k == j then some v else map_get j kvs)
  unfolding map_get map_set
  map_get-map_set k j v [] = refl
  map_get-map_set k j v ((i, w) ∷ kvs) =
      ground (arith, map_get-map_set k j v kvs, eq_iff i k, eq_iff i j, eq_iff k j)

  -- `map.values()`
  abbrev pub values : List (String × A) → List A
  values [] = []
  values ((_, m) ∷ kvs) = m ∷ values kvs

abbrev is_gt : Ordering → Bool
is_gt Ordering.lt = false
is_gt Ordering.eq = false
is_gt Ordering.gt = true

-- `afterId === undefined || id > afterId`
abbrev pub is_after : Option String → String → Bool
is_after none i = true
is_after (some a) i = is_gt (compare i a)

abbrev or_empty {ℓ} : {A : Type ℓ} → Option (List A) → List A
or_empty none = []
or_empty (some xs) = xs

exactly :
    (create there : Bool)
    → (create && there) ≡ false
    → (not create && not there) ≡ false
    → there ≡ not create
exactly create there h k = ground (arith, h, k)

-- An entity's name in the messages, its id and its organization.
pub record Entry (Entity : Type 0) : Type 0 where
  pub name : String
  pub id_of : Entity → String
  pub owner_of : Entity → String

module _ {Entity : Type 0} (host : Host) (entry : Entry Entity) where
  open entry use {name, id_of, owner_of}

  unfoldable pub list_entities : String → Option String → ℕ → InMemory Entity → List Entity
  list_entities organization after limit s = take limit (
      order_by (λ (a b : Entity). host.locale_le (id_of a) (id_of b))
        (select (λ m. owner_of m == organization && is_after after (id_of m)) (values s.entities)))

  unfoldable pub history_of : String → ℕ → ℕ → InMemory Entity → List EventEnvelope
  history_of i after limit s =
      take limit (select (λ e. ltb after e.aggregate_version) (or_empty (map_get i s.events)))

  unfoldable pub commit_entity :
      Entity
      → EventEnvelope
      → String
      → OperationRecord
      → (create : Bool) → InMemory Entity
      → Result (InMemory Entity)
  commit_entity m event o operation create s = do
    throw_if (create && is_some (map_get (id_of m) s.entities))
        (failure (name <> " already exists during commit"))
    throw_if (not create && not (is_some (map_get (id_of m) s.entities)))
        (failure (name <> " does not exist during commit"))
    throw_if (is_some (map_get o s.operations)) (failure "operation already exists during commit")
    ok (record {
      entities = map_set (id_of m) m s.entities;
      events = map_set (id_of m) (or_empty (map_get (id_of m) s.events) ++ event ∷ []) s.events;
      operations = map_set o operation s.operations;
    })

  -- The repository in memory.
  abbrev pub in_memory : Repository Entity (InMemory Entity)
  in_memory = record {
    find = λ i s. ok (map_get i s.entities);
    list = λ organization after limit s. ok (list_entities organization after limit s);
    history = λ i after limit s. ok (history_of i after limit s);
    find_operation = λ o s. ok (map_get o s.operations);
    commit = commit_entity;
  }

  in_memory-recorded :
      (m : Entity) (event : EventEnvelope) (o : String) (operation : OperationRecord)
      (create : Bool) (s s' : InMemory Entity)
      → commit_entity m event o operation create s ≡ ok s'
      → map_get o s'.operations ≡ some operation
  unfolding commit_entity
  in_memory-recorded m event o operation create s s' h =
      let same : map_set o operation s.operations ≡ s'.operations = ground (arith, h) in
      ap (map_get o) (sym same) ∙ map_get-map_set o o operation s.operations ∙ rw (==_refl o) refl

  in_memory-keeps :
      (m : Entity) (event : EventEnvelope) (o : String) (operation : OperationRecord)
      (create : Bool) (s s' : InMemory Entity)
      → commit_entity m event o operation create s ≡ ok s'
      → KeepsOperations in_memory s s'
  unfolding commit_entity
  in_memory-keeps m event o operation create s s' h other prior found =
      let there = is_some (map_get (id_of m) s.entities) in
      let (_, h1) = throw_if-eq-ok (create && there) _ _ h in
      let (_, h2) = throw_if-eq-ok (not create && not there) _ _ h1 in
      let (fresh, h3) = throw_if-eq-ok (is_some (map_get o s.operations)) _ _ h2 in
      let stays : map_get other s.operations ≡ some prior = ok-injective found in
      ap (λ x. ok (map_get other x.operations)) (sym (ok-injective h3))
      ∙ ap ok (map_get-map_set o other operation s.operations)
      ∙ elim (Bool-cases (o == other)) [
        | inl same ↦
            let clash : true ≡ false =
              ap is_some (sym stays)
              ∙ ap (λ k. is_some (map_get k s.operations)) (sym (eq_of_== o other same))
              ∙ fresh in
            cc
        | inr apart ↦ rw apart (ap ok stays)
      ]

  pub in_memory-IsRecording :
      (Emits : EventEnvelope → String → Type 0) → IsRecording Emits in_memory
  in_memory-IsRecording Emits = record {
    recorded = λ m event o fingerprint create s s' _ h. ap ok (
        in_memory-recorded m event o (record { fingerprint = fingerprint; event = event }) create s
          s' h);
    keeps_operations = in_memory-keeps;
  }

  -- The entities after a commit.
  pub commit_entity-eq-ok :
      (m : Entity) (event : EventEnvelope) (o : String) (operation : OperationRecord)
      (create : Bool) (s s' : InMemory Entity)
      → commit_entity m event o operation create s ≡ ok s'
      → (is_some (map_get (id_of m) s.entities) ≡ not create)
        × (s'.entities ≡ map_set (id_of m) m s.entities)
  unfolding commit_entity
  commit_entity-eq-ok m event o operation create s s' h =
      let there = is_some (map_get (id_of m) s.entities) in
      let (e1, h1) = throw_if-eq-ok (create && there) _ _ h in
      let (e2, h2) = throw_if-eq-ok (not create && not there) _ _ h1 in
      let (_, h3) = throw_if-eq-ok (is_some (map_get o s.operations)) _ _ h2 in
      (exactly create there e1 e2, ap (λ x. x.entities) (sym (ok-injective h3)))
