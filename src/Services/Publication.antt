-- ===== src/Services/Publication.antt =====
-- What a publication that succeeds has committed.
use onyx_ifem.Prelude.{
  refl, Option, some, none, eq_of_==, ◌==◌, Bool-cases, inl, inr, arith, ◌≡◌, sym, ap, ◌∙◌, Bool,
  false, true, String, includes, subst,
}
use onyx_ifem.Json.{Json, Host, sha256, get}
use onyx_ifem.Contracts.Errors.{ok, >>=-eq-ok, throw_if-eq-ok, ok-injective}
use onyx_ifem.Contracts.Validation.{assert_emitted_event}
use onyx_ifem.Services.Envelopes.{
  CommandEnvelope, EventEnvelope, Moment, operation_id, optional_natural, differs,
}
use onyx_ifem.Services.Store.{Repository, IsRecording}
use onyx_ifem.Services.Calls.{
  found_in, Aggregate, Head, check_expected, publish, event_of, record_of,
}
use onyx_ifem.Sqlite.StoredEvent.{Profile}
use onyx_ifem.Services.Emitted.{IsEmitted, event_of-IsEmitted}
use onyx_ifem.Services.Replay.{Recorded}

pub check_expected-version :
    (c : CommandEnvelope) (h : Head)
    → check_expected c h ≡ ok tt
    → differs (optional_natural (get "expected_version" c.fields)) h.version ≡ false
unfolding check_expected
check_expected-version c h e =
    (throw_if-eq-ok (differs (optional_natural (get "expected_version" c.fields)) h.version) _ _
      e).0

pub found_in-eq-ok :
    {Entity : Type 0} (owner_of : Entity → String) (name organization : String)
    (found : Option Entity) (m : Entity)
    → found_in owner_of name organization found ≡ ok m
    → (found ≡ some m) × (owner_of m ≡ organization)
found_in-eq-ok owner_of name organization none m h = cc
found_in-eq-ok owner_of name organization (some k) m h =
    elim (Bool-cases (owner_of k == organization)) [
      | inl there ↦
          let same : k ≡ m = ok-injective (rw there at h) in
          subst (λ x. (some k ≡ some x) × (owner_of x ≡ organization)) same
            (refl, eq_of_== (owner_of k) organization there)
      | inr other ↦ absurd (ground (arith, h, other))
    ]

module _ {Entity S : Type 0} (host : Host) (replica : String) (aggregate : Aggregate Entity)
    (repository : Repository Entity S) where
  open aggregate use {head}
  open repository use {find_operation, commit}

  -- The event is at the entity's version, and is committed with it under the command's operation.
  pub publish-eq-ok :
      (event_type : String) (c : CommandEnvelope) (m : Entity) (payload : Json) (create : Bool)
      (moment : Moment) (s s' : S) (event : EventEnvelope)
      → publish host replica aggregate repository event_type c m payload create moment s
        ≡ ok (event, s')
      → (event.aggregate_version ≡ (head m).version)
        × (commit m event
              (operation_id c)
              (record { fingerprint = sha256 host c.value; event = event })
              create
              s
            ≡ ok s')
  unfolding publish
  publish-eq-ok event_type c m payload create moment s s' event h =
      let made = event_of host replica aggregate repository event_type c (head m) payload moment in
      let (_, _, h1) =
        >>=-eq-ok (assert_emitted_event host made.value event_type aggregate.aggregate_type) _ h in
      let (s'', e2, h2) =
        >>=-eq-ok
          (commit m made (operation_id c) (record_of host replica aggregate repository c made)
            create s)
          _ h1 in
      let same_event : made ≡ event = ap (λ x. x.0) (ok-injective h2) in
      (
        ap (λ e. e.aggregate_version) (sym same_event),
        ap
              (λ e.
                commit m e (operation_id c)
                  (record { fingerprint = sha256 host c.value; event = e }) create s)
              (sym same_event)
            ∙ e2
            ∙ ap (λ x. ok (x.1)) (ok-injective h2),
      )

  module _ (known : Profile) (same_type : aggregate.aggregate_type ≡ known.aggregate_type)
      (recording : IsRecording (IsEmitted host known) repository) where
    -- A publication of one of the context's types records its operation, and keeps the others.
    pub publish-Recorded :
        (event_type : String) (c : CommandEnvelope) (m : Entity) (payload : Json) (create : Bool)
        (moment : Moment) (s s' : S) (event : EventEnvelope)
        → includes known.event_types event_type ≡ true
        → publish host replica aggregate repository event_type c m payload create moment s
          ≡ ok (event, s')
        → Recorded host replica aggregate repository c event s s'
    unfolding publish
    publish-Recorded event_type c m payload create moment s s' event in_profile h =
        let made =
          event_of host replica aggregate repository event_type c (head m) payload moment in
        let (_, e1, h1) =
          >>=-eq-ok (assert_emitted_event host made.value event_type aggregate.aggregate_type) _
            h in
        let (s'', e2, h2) =
          >>=-eq-ok
            (commit m made (operation_id c) (record_of host replica aggregate repository c made)
              create s)
            _ h1 in
        let emitted =
          event_of-IsEmitted host replica aggregate repository known same_type event_type c (head m)
            payload moment in_profile e1 in
        subst (λ x. Recorded host replica aggregate repository c (x.0) s (x.1)) (ok-injective h2)
          (
            recording.recorded m made (operation_id c) (sha256 host c.value) create s s'' emitted
                e2,
            recording.keeps_operations m made (operation_id c) _ create s s'' e2,
          )
