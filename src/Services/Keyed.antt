-- ===== src/Services/Keyed.antt =====
-- What the services rely on of a repository's lookups: the law of a map, for states that the commits of the
-- service keep valid. Both repositories meet it.
use onyx_ifem.Prelude.{
  ℕ, ◌≡◌, refl, ap, ◌∙◌, Bool, true, false, some, Option, String, ◌==◌, if◌then◌else◌,
}
use onyx_ifem.Json.{Host}
use onyx_ifem.Contracts.Errors.{ok}
use onyx_ifem.Sqlite.Instants.{Instant}
use onyx_ifem.Sqlite.Store.History.{IsConsistent, commit-IsConsistent}
use onyx_ifem.Services.Envelopes.{EventEnvelope}
use onyx_ifem.Services.Store.{
  Repository, OperationRecord, Entry, in_memory, map_get, map_get-map_set, commit_entity-eq-ok,
}
use onyx_ifem.Services.Calls.{Aggregate}
use onyx_ifem.Services.Durable.{Codec, durable, commit_record, find-commit}

pub record IsKeyed {Entity S : Type 0} (entry : Entry Entity) (aggregate : Aggregate Entity)
    (IsValid : S → Type 0) (r : Repository Entity S) : Type 0 where
  -- A commit of an event at the entity's version, which is 1 at first.
  pub keeps :
      (m : Entity) (event : EventEnvelope) (o : String) (operation : OperationRecord)
      (create : Bool) (s s' : S)
      → IsValid s
      → event.aggregate_version ≡ (aggregate.head m).version
      → (create ≡ true → (aggregate.head m).version ≡ 1)
      → r.commit m event o operation create s ≡ ok s'
      → IsValid s'
  pub finds :
      (m : Entity) (event : EventEnvelope) (o : String) (operation : OperationRecord)
      (create : Bool) (s s' : S) (i : String)
      → IsValid s
      → r.commit m event o operation create s ≡ ok s'
      → r.find i s' ≡ (if (entry.id_of m == i) then ok (some m) else r.find i s)

module _ {Entity : Type 0} (host : Host) (entry : Entry Entity) (aggregate : Aggregate Entity) where
  chosen :
      (own : Bool) (m : Entity) (old : Option Entity)
      → ok (if own then some m else old) ≡ (if own then ok (some m) else ok old)
  chosen true m old = refl
  chosen false m old = refl

  pub in_memory-IsKeyed : IsKeyed entry aggregate (λ _. Unit {0}) (in_memory host entry)
  in_memory-IsKeyed = record {
    keeps = λ m event o operation create s s' _ _ _ _. tt;
    finds = λ m event o operation create s s' i _ h.
        let (_, after) = commit_entity-eq-ok host entry m event o operation create s s' h in
        ap (λ es. ok (map_get i es)) after
        ∙ ap ok (map_get-map_set (entry.id_of m) i m s.entities)
        ∙ chosen (entry.id_of m == i) m (map_get i s.entities);
  }

  module _ (place : String → Instant) (now : ℕ) (context : String) (codec : Codec Entity) where
    pub durable-IsKeyed :
        IsKeyed entry aggregate IsConsistent (durable host place now context entry aggregate codec)
    durable-IsKeyed = record {
      keeps = λ m event o operation create s s' valid version first_version h.
          commit-IsConsistent place now
            (commit_record host place now context entry aggregate codec m event o operation create)
            s s' valid version first_version h;
      finds = λ m event o operation create s s' i valid h.
          find-commit host place now context entry aggregate codec m event o operation create s s' i
            valid h;
    }
