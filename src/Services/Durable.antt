-- ===== src/Services/Durable.antt =====
-- src/*/sqlite-repository.ts: the repositories on the SQLite store. The repositories of the contexts differ in
-- the name of the context alone. A state is stored as the JSON of its entity, which a `Codec` writes and reads.
use onyx_ifem.Prelude.{
  ℕ, ◌≡◌, refl, sym, ap, ◌∙◌, Bool, true, false, ◌&&◌, Option, none, some, String, map,
  Option-cases, inl, inr, ◌==◌, ==_refl, if◌then◌else◌,
}
use onyx_ifem.Json.{Json, Host}
use onyx_ifem.Contracts.Errors.{ok, ◌>>=◌}
use onyx_ifem.Sqlite.Table.{first}
use onyx_ifem.Sqlite.Instants.{Instant}
use onyx_ifem.Sqlite.StoredEvent.{Profile, lookup_profile, executable_event_profiles}
use onyx_ifem.Sqlite.Store
use onyx_ifem.Sqlite.Store.{
  Store, CommitRecord, OperationRow, get_state, list_states, get_events, get_operation,
  get_operation_row, operation_row, is_operation,
}
use onyx_ifem.Sqlite.Store.Writes.{commit-eq-ok, insert_operation-eq-ok}
use onyx_ifem.Sqlite.Store.History.{IsConsistent, commit_lem}
use onyx_ifem.Sqlite.Keys.{first-insert, first-kept}
use onyx_ifem.Services.Envelopes.{EventEnvelope}
use onyx_ifem.Services.Store.{Repository, OperationRecord, IsRecording, KeepsOperations, Entry}
use onyx_ifem.Services.Calls.{Aggregate}
use onyx_ifem.Services.Emitted.{IsEmitted, event_from, stored_event-IsEmitted}

-- `JSON.stringify` of an entity and `JSON.parse` as one, on the values that the texts are of.
pub record Codec (Entity : Type 0) : Type 0 where
  pub encode : Entity → Json
  pub decode : Json → Entity
  pub decode_encode : (m : Entity) → decode (encode m) ≡ m

module _ {Entity : Type 0} (host : Host) (place : String → Instant) (now : ℕ) (context : String)
    (entry : Entry Entity) (aggregate : Aggregate Entity) (codec : Codec Entity) where
  open codec use {encode, decode}

  abbrev pub decoded : Option Json → Option Entity
  decoded none = none
  decoded (some v) = some (decode v)

  abbrev pub operation_from : Option (String × Json) → Option OperationRecord
  operation_from none = none
  operation_from (some (fingerprint, event)) =
      some (record { fingerprint = fingerprint; event = event_from event })

  abbrev pub commit_record :
      Entity → EventEnvelope → String → OperationRecord → (create : Bool) → CommitRecord
  commit_record m event o operation create = record {
    context = context;
    aggregate_id = entry.id_of m;
    organization_id = entry.owner_of m;
    version = (aggregate.head m).version;
    state = encode m;
    event_id = event.event_id;
    event_version = event.aggregate_version;
    event = event.value;
    operation_id = o;
    fingerprint = operation.fingerprint;
    create = create;
  }

  -- The repository on the store.
  abbrev pub durable : Repository Entity Store
  durable = record {
    find = λ i s. ok (decoded (get_state context i s));
    list = λ organization after limit s.
        ok (map decode (list_states context organization after limit s));
    history = λ i after limit s.
        get_events host context i after limit s >>= λ events. ok (map event_from events);
    find_operation = λ o s. get_operation host context o s >>= λ found. ok (operation_from found);
    commit = λ m event o operation create s.
        Store.commit place now (commit_record m event o operation create) s;
  }

  committed_operation :
      (r : CommitRecord) (s s' : Store)
      → Store.commit place now r s ≡ ok s'
      → get_operation_row r.context r.operation_id s'.operations ≡ some (operation_row r)
  unfolding get_operation_row
  committed_operation r s s' h =
      let (_, _, h3, _) = commit-eq-ok place now r s s' h in
      let (fresh, rows) = insert_operation-eq-ok r s.operations h3 in
      ap (first (is_operation r.context r.operation_id)) (sym rows)
      ∙ first-insert (is_operation r.context r.operation_id) s.operations (operation_row r)
          (λ _. fresh)
      ∙ rw (==_refl r.context, ==_refl r.operation_id) refl

  -- An operation's row stays the first of its key.
  kept_row :
      (r : CommitRecord) (s s' : Store) (o : String) (row : OperationRow)
      → Store.commit place now r s ≡ ok s'
      → get_operation_row context o s.operations ≡ some row
      → get_operation_row context o s'.operations ≡ some row
  unfolding get_operation_row
  kept_row r s s' o row h there =
      let (_, _, h3, _) = commit-eq-ok place now r s s' h in
      let (_, rows) = insert_operation-eq-ok r s.operations h3 in
      ap (first (is_operation context o)) (sym rows)
      ∙ first-kept (is_operation context o) s.operations (operation_row r) there

  durable-keeps :
      (m : Entity) (event : EventEnvelope) (o : String) (operation : OperationRecord)
      (create : Bool) (s s' : Store)
      → durable.commit m event o operation create s ≡ ok s'
      → KeepsOperations durable s s'
  unfolding get_operation
  durable-keeps m event o operation create s s' h other prior found =
      elim (Option-cases (get_operation_row context other s.operations)) [
        | inl missing ↦
            let clash : ok none ≡ ok (some prior) = (rw (get_operation, missing) at found) in cc
        | inr (row, there) ↦
            let r = commit_record m event o operation create in
            let still = kept_row r s s' other row h there in
            rw (get_operation, still) (rw (get_operation, there) at found)
      ]

  module _ (known : Profile)
      (has_profile : lookup_profile context executable_event_profiles ≡ some known) where
    -- A commit to the store of an event of a context that has a profile, which meets the contract of one of the
    -- profile's types and is of the operation, is found again under the operation: the store returns the
    -- fingerprint and the event, unchanged. Every operation that the store returned before is returned after it.
    pub durable-IsRecording : IsRecording (IsEmitted host known) durable
    unfolding get_operation
    durable-IsRecording = record {
      recorded = λ m event o fingerprint create s s' emitted h.
          let operation : OperationRecord = record { fingerprint = fingerprint; event = event } in
          let r = commit_record m event o operation create in
          let there : get_operation_row context o s'.operations ≡ some (operation_row r) =
            committed_operation r s s' h in
          rw
            (
              get_operation,
              there,
              stored_event-IsEmitted host known context event o has_profile emitted,
              emitted.is_read,
            )
            refl;
      keeps_operations = durable-keeps;
    }

  chosen :
      (m : Entity) (old : Option Json) (own : Bool)
      → ok (decoded (if ((context == context) && own) then some (encode m) else old))
        ≡ (if own then ok (some m) else ok (decoded old))
  chosen m old true = rw (==_refl context) (ap (λ x. ok (some x)) (codec.decode_encode m))
  chosen m old false = rw (==_refl context) refl

  -- After a commit to a consistent store that succeeds, the entity is found under its id as it was committed, and
  -- under every other id of its context what was found before, given that a stored entity is read as it was
  -- written.
  pub find-commit :
      (m : Entity) (event : EventEnvelope) (o : String) (operation : OperationRecord)
      (create : Bool) (s s' : Store) (i : String)
      → IsConsistent s
      → durable.commit m event o operation create s ≡ ok s'
      → durable.find i s' ≡ (if (entry.id_of m == i) then ok (some m) else durable.find i s)
  find-commit m event o operation create s s' i c h =
      let r = commit_record m event o operation create in
      let (gets, _) = commit_lem place now r s s' c h in
      ap (λ x. ok (decoded x)) ((gets context i).0)
      ∙ chosen m (get_state context i s) (entry.id_of m == i)

  -- The entities of another context stay.
  pub get_state-commit :
      (m : Entity) (event : EventEnvelope) (o : String) (operation : OperationRecord)
      (create : Bool) (s s' : Store) (other i : String)
      → IsConsistent s
      → (context == other) ≡ false
      → durable.commit m event o operation create s ≡ ok s'
      → get_state other i s' ≡ get_state other i s
  get_state-commit m event o operation create s s' other i c apart h =
      let r = commit_record m event o operation create in
      let (gets, _) = commit_lem place now r s s' c h in (gets other i).0 ∙ rw apart refl
