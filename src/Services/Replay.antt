-- ===== src/Services/Replay.antt =====
-- A command that is sent again is answered as it was the first time, whatever service it is sent to.
use onyx_ifem.Prelude.{
  ◌≡◌, refl, sym, ap, subst, eq_of_==, ◌∙◌, Option, none, some, arith, ◌==◌, inl, inr, Bool-cases,
  if◌then◌else◌, String, ◌⊎◌, Option-cases, List, [], ◌∷◌,
}
use onyx_ifem.Json.{Json, Host, sha256}
use onyx_ifem.Contracts.Errors.{
  Result, ok, err, >>=-eq-ok, ok-injective, onyx, idempotency_key_reuse,
}
use onyx_ifem.Services.Envelopes.{CommandEnvelope, EventEnvelope, Moment, operation_id}
use onyx_ifem.Services.Store.{Repository, OperationRecord, KeepsOperations}
use onyx_ifem.Services.Calls.{Aggregate, replay, answer, handle, record_of, state_after, after_ok}

module _ {Entity S : Type 0} (host : Host) (replica : String) (aggregate : Aggregate Entity)
    (repository : Repository Entity S) where
  open repository use {find_operation}

  -- The operation that a command has recorded.
  abbrev pub Answered : CommandEnvelope → EventEnvelope → S → Type 0
  Answered c event s =
      find_operation (operation_id c) s
      ≡ ok (some (record { fingerprint = sha256 host c.value; event = event }))

  -- The operation is recorded, and every one that was stays.
  abbrev pub Recorded : CommandEnvelope → EventEnvelope → S → S → Type 0
  Recorded c event s s' = Answered c event s' × KeepsOperations repository s s'

  -- A command's work records the operation when it succeeds.
  abbrev pub Records : (CommandEnvelope → Moment → S → Result (EventEnvelope × S)) → Type 0
  Records perform =
      (c : CommandEnvelope) (moment : Moment) (s s' : S) (event : EventEnvelope)
      → perform c moment s ≡ ok (event, s')
      → Recorded c event s s'

  module _ (validate : Json → Result CommandEnvelope)
      (perform : CommandEnvelope → Moment → S → Result (EventEnvelope × S))
      (records : Records perform) where
    replay-Answered :
        (c : CommandEnvelope) (moment : Moment) (s s' : S) (event : EventEnvelope)
        (prior : Option OperationRecord) (replayed : Option EventEnvelope)
        → find_operation (operation_id c) s ≡ ok prior
        → replay host replica aggregate repository c prior ≡ ok replayed
        → answer host replica aggregate repository validate perform c moment s replayed
          ≡ ok (event, s')
        → Answered c event s'
    unfolding replay answer
    replay-Answered c moment s s' event none (some e) found h k = absurd (ground (arith, h))
    replay-Answered c moment s s' event none none found h k = (records c moment s s' event k).0
    replay-Answered c moment s s' event (some prior) replayed found h k =
        elim (Bool-cases (prior.fingerprint == sha256 host c.value)) [
          | inl same ↦
              let is_prior : some prior.event ≡ replayed = ok-injective (rw same at h) in
              let answered : (prior.event, s) ≡ (event, s') = ok-injective (
                ap (answer host replica aggregate repository validate perform c moment s) is_prior
                ∙ k) in
              ap (find_operation (operation_id c)) (sym (ap (λ x. x.1) answered))
              ∙ found
              ∙ ap (λ f. ok (some (record { fingerprint = f; event = prior.event })))
                  (eq_of_== prior.fingerprint (sha256 host c.value) same)
              ∙ ap (λ e. ok (some (record { fingerprint = sha256 host c.value; event = e })))
                  (ap (λ x. x.0) answered)
          | inr other ↦ absurd (ground (arith, h, other))
        ]

    pub handle-Answered :
        (input : Json) (c : CommandEnvelope) (moment : Moment) (s s' : S) (event : EventEnvelope)
        → validate input ≡ ok c
        → handle host replica aggregate repository validate perform input moment s ≡ ok (event, s')
        → Answered c event s'
    unfolding handle
    handle-Answered input c moment s s' event valid h =
        let (c', e, h1) = >>=-eq-ok (validate input) _ h in
        let (prior, found, h2) = >>=-eq-ok (find_operation (operation_id c') s) _ h1 in
        let (replayed, answered, h3) =
          >>=-eq-ok (replay host replica aggregate repository c' prior) _ h2 in
        subst (λ x. Answered x event s') (ok-injective (sym e ∙ valid))
          (replay-Answered c' moment s s' event prior replayed found answered h3)

    -- A call that succeeds leaves the state, or has done the command's work.
    pub handle-eq-ok :
        (input : Json) (moment : Moment) (s s' : S) (event : EventEnvelope)
        → handle host replica aggregate repository validate perform input moment s ≡ ok (event, s')
        → (s' ≡ s) ⊎ ((c : CommandEnvelope) × (perform c moment s ≡ ok (event, s')))
    unfolding handle answer
    handle-eq-ok input moment s s' event h =
        let (c, _, h1) = >>=-eq-ok (validate input) _ h in
        let (prior, _, h2) = >>=-eq-ok (find_operation (operation_id c) s) _ h1 in
        let (replayed, _, h3) = >>=-eq-ok (replay host replica aggregate repository c prior) _ h2 in
        elim (Option-cases replayed) [
          | inl nothing ↦ inr (c, rw nothing at h3)
          | inr (e, again) ↦
              let same : (e, s) ≡ (event, s') = ok-injective (rw again at h3) in
              inl (sym (ap (λ x. x.1) same))
        ]

    pub handle-KeepsOperations :
        (input : Json) (moment : Moment) (s s' : S) (event : EventEnvelope)
        → handle host replica aggregate repository validate perform input moment s ≡ ok (event, s')
        → KeepsOperations repository s s'
    handle-KeepsOperations input moment s s' event h =
        elim (handle-eq-ok input moment s s' event h) [
          | inl same ↦ subst (KeepsOperations repository s) (sym same) (λ o prior found. found)
          | inr (c, done) ↦ (records c moment s s' event done).1
        ]

  -- An operation that is recorded, called again.
  pub handle_again :
      (validate : Json → Result CommandEnvelope)
      (perform : CommandEnvelope → Moment → S → Result (EventEnvelope × S)) (input : Json)
      (c c' : CommandEnvelope) (later : Moment) (s : S) (event : EventEnvelope)
      → Answered c event s
      → validate input ≡ ok c'
      → operation_id c' ≡ operation_id c
      → handle host replica aggregate repository validate perform input later s ≡ (
          if (sha256 host c.value == sha256 host c'.value)
          then ok (event, s)
          else err (onyx idempotency_key_reuse "operation_id was reused with a different command"))
  unfolding handle replay answer
  handle_again validate perform input c c' later s event answered valid same =
      let found : find_operation (operation_id c') s
          ≡ ok (some (record_of host replica aggregate repository c event)) =
        ap (λ o. find_operation o s) same ∙ answered in
      elim (Bool-cases (sha256 host c.value == sha256 host c'.value)) [
        | inl match ↦ rw (valid, found, match) refl
        | inr other ↦ rw (valid, found, other) refl
      ]

  module _ (call : Json → Moment → S → Result (EventEnvelope × S)) where
    -- Calls one after another; one that fails changes nothing.
    abbrev pub run_calls : List (Json × Moment) → S → S
    run_calls [] s = s
    run_calls ((input, moment) ∷ calls) s = run_calls calls (state_after s (call input moment s))

    pub run_calls-KeepsOperations :
        ((input : Json) (moment : Moment) (s s' : S) (event : EventEnvelope)
          → call input moment s ≡ ok (event, s')
          → KeepsOperations repository s s')
        → (calls : List (Json × Moment)) (s : S) → KeepsOperations repository s (run_calls calls s)
    run_calls-KeepsOperations keeps [] s o prior found = found
    run_calls-KeepsOperations keeps ((input, moment) ∷ calls) s o prior found =
        run_calls-KeepsOperations keeps calls (state_after s (call input moment s)) o prior (
          after_ok (λ t. find_operation o t ≡ ok (some prior)) s (call input moment s) found
            (λ event s' h. keeps input moment s s' event h o prior found))
