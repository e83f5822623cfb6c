-- ===== src/Dispatcher/Trace.antt =====
-- The calls of the store that a batch makes, in their order; so what holds of every history of calls holds of it.
use onyx_ifem.Prelude.{
  ℕ, suc, ◌+◌, ◌≡◌, ◌⊎◌, refl, sym, ap, ◌∙◌, Bool, true, false, none, some, String, List, [], ◌∷◌,
  ◌++◌, arith, Option-cases, inl, inr, subst,
}
use onyx_ifem.Json.{Host}
use onyx_ifem.Contracts.Errors.{Result, ok, err, Fault, Result-cases}
use onyx_ifem.Sqlite.Outbox.{
  OutboxRow, Outbox, acknowledge_outbox, reject_outbox, claim_outbox, Disposition,
}
use onyx_ifem.Sqlite.Outbox.Steps.{OutboxCall, claims, acknowledges, rejects, step, run}
use onyx_ifem.Sqlite.Outbox.Safety.{run-append}
use onyx_ifem.Dispatcher.{
  OutboxDispatcher, DispatchResult, positive_integer, max_safe_integer, error_message, give_back,
  handle_failure, settle, deliver_all, run_once, claim_options, started, tally,
}

module _ (host : Host) (d : OutboxDispatcher) where
  -- The rejection of a message whose publication failed.
  abbrev pub rejection : OutboxRow → String → (delay : ℕ) → OutboxCall
  rejection m error delay =
      rejects m.event_id d.worker_id error (d.publish m).finished_at
        ((d.publish m).finished_at + delay) d.max_attempts

  abbrev pub acknowledgement : OutboxRow → OutboxCall
  acknowledgement m = acknowledges m.event_id d.worker_id (d.publish m).finished_at

  -- What gives a message back: its rejection, which goes through or throws, or nothing where the retry delay is
  -- not valid. The last argument tells whether the batch goes on.
  pub data GivesBack (m : OutboxRow) (error : String) (t : Outbox)
      : List OutboxCall → Bool → Type 0 where
    rejected :
        {delay : ℕ} {answer : Disposition × Outbox}
        → positive_integer (d.retry_delay_ms m.attempt_count) "retry delay" max_safe_integer
          ≡ ok delay
        → reject_outbox m.event_id d.worker_id error
            (d.publish m).finished_at
            ((d.publish m).finished_at + delay)
            d.max_attempts
            t
          ≡ ok answer
        → GivesBack m error t (rejection m error delay ∷ []) true
    not_rejected :
        {delay : ℕ} {fault : Fault}
        → positive_integer (d.retry_delay_ms m.attempt_count) "retry delay" max_safe_integer
          ≡ ok delay
        → reject_outbox m.event_id d.worker_id error
            (d.publish m).finished_at
            ((d.publish m).finished_at + delay)
            d.max_attempts
            t
          ≡ err fault
        → GivesBack m error t (rejection m error delay ∷ []) false
    no_delay :
        {fault : Fault}
        → positive_integer (d.retry_delay_ms m.attempt_count) "retry delay" max_safe_integer
          ≡ err fault
        → GivesBack m error t [] false

  -- The calls for one message after its publication: its acknowledgement if that did not fail, and what gives it
  -- back if it did, or if the acknowledgement throws.
  pub data Settles (m : OutboxRow) (t : Outbox) : List OutboxCall → Bool → Type 0 where
    acknowledged :
        {t' : Outbox}
        → (d.publish m).thrown ≡ none
        → acknowledge_outbox m.event_id d.worker_id (d.publish m).finished_at t ≡ ok t'
        → Settles m t (acknowledgement m ∷ []) true
    not_acknowledged :
        {fault : Fault} {cs : List OutboxCall} {goes_on : Bool}
        → (d.publish m).thrown ≡ none
        → acknowledge_outbox m.event_id d.worker_id (d.publish m).finished_at t ≡ err fault
        → GivesBack m (error_message fault) t cs goes_on
        → Settles m t (acknowledgement m ∷ cs) goes_on
    failed :
        {error : String} {cs : List OutboxCall} {goes_on : Bool}
        → (d.publish m).thrown ≡ some error
        → GivesBack m error t cs goes_on
        → Settles m t cs goes_on

  -- The calls of the loop over the claimed messages from a table: for each message in turn what other workers
  -- call while it is published, then its own; a throw ends them.
  pub data Delivers : List OutboxRow → Outbox → List OutboxCall → Bool → Type 0 where
    ends : {t : Outbox} → Delivers [] t [] true
    goes_on :
        {m : OutboxRow} {ms : List OutboxRow} {t : Outbox} {cs ds : List OutboxCall} {whole : Bool}
        → Settles m (run host t (d.publish m).meanwhile) cs true
        → Delivers ms (run host (run host t (d.publish m).meanwhile) cs) ds whole
        → Delivers (m ∷ ms) t ((d.publish m).meanwhile ++ (cs ++ ds)) whole
    throws :
        {m : OutboxRow} {ms : List OutboxRow} {t : Outbox} {cs : List OutboxCall}
        → Settles m (run host t (d.publish m).meanwhile) cs false
        → Delivers (m ∷ ms) t ((d.publish m).meanwhile ++ cs) false

  abbrev pub is_ok : {A : Type 0} → Result A → Bool
  is_ok (ok a) = true
  is_ok (err e) = false

  -- An answer of the dispatcher that the calls `cs` from a table explain.
  abbrev pub Explains :
      (List OutboxCall → Bool → Type 0) → Outbox → Result DispatchResult × Outbox → Type 0
  Explains Calls t answer =
      (cs : List OutboxCall) × Calls cs (is_ok answer.0) × (answer.1 ≡ run host t cs)

  handle_failure-GivesBack :
      (m : OutboxRow) (error : String) (result : DispatchResult) (t : Outbox)
      → Explains
          (GivesBack m error t)
          t
          (handle_failure host d m error (d.publish m).finished_at result t)
  unfolding handle_failure give_back run step
  handle_failure-GivesBack m error result t =
      let at = (d.publish m).finished_at in
      elim (Result-cases
        (positive_integer (d.retry_delay_ms m.attempt_count) "retry delay" max_safe_integer)) [
          | inl (fault, e) ↦
              let same : (err fault, t) ≡ handle_failure host d m error at result t =
                ground (arith, e) in
              subst (Explains (GivesBack m error t) t) same ([], no_delay e, refl)
          | inr (delay, e) ↦
              elim (Result-cases
                (reject_outbox m.event_id d.worker_id error at (at + delay) d.max_attempts t)) [
                  | inl (fault, thrown) ↦
                      let same : (err fault, t) ≡ handle_failure host d m error at result t =
                        ground (arith, e, thrown) in
                      subst (Explains (GivesBack m error t) t) same (
                        rejection m error delay ∷ [],
                        not_rejected e thrown,
                        ground (arith, thrown),
                      )
                  | inr ((disposition, t'), done) ↦
                      let same : (ok (tally disposition result), t')
                          ≡ handle_failure host d m error at result t =
                        ground (arith, e, done) in
                      subst (Explains (GivesBack m error t) t) same
                        (rejection m error delay ∷ [], rejected e done, ground (arith, done))
                ]
        ]

  settle-Settles :
      (m : OutboxRow) (result : DispatchResult) (t : Outbox)
      → Explains (Settles m t) t (settle host d m (d.publish m) result t)
  unfolding settle run step
  settle-Settles m result t =
      let at = (d.publish m).finished_at in
      elim (Option-cases (d.publish m).thrown) [
        | inr (error, e) ↦
            let (cs, gives_back, table) = handle_failure-GivesBack m error result t in
            let same : handle_failure host d m error at result t
                ≡ settle host d m (d.publish m) result t =
              ground (arith, e) in
            subst (Explains (Settles m t) t) same (cs, failed e gives_back, table)
        | inl e ↦ elim (Result-cases (acknowledge_outbox m.event_id d.worker_id at t)) [
          | inr (t', done) ↦
              let same : (ok (record result { delivered = suc result.delivered }), t')
                  ≡ settle host d m (d.publish m) result t =
                ground (arith, e, done) in
              subst (Explains (Settles m t) t) same
                (acknowledgement m ∷ [], acknowledged e done, ground (arith, done))
          | inl (fault, thrown) ↦
              let (cs, gives_back, table) =
                handle_failure-GivesBack m (error_message fault) result t in
              let same : handle_failure host d m (error_message fault) at result t
                  ≡ settle host d m (d.publish m) result t =
                ground (arith, e, thrown) in
              let unmoved : run host t cs ≡ run host t (acknowledgement m ∷ cs) =
                ground (arith, thrown) in
              subst (Explains (Settles m t) t) same
                (acknowledgement m ∷ cs, not_acknowledged e thrown gives_back, table ∙ unmoved)
        ]
      ]

  pub deliver_all-Delivers :
      (ms : List OutboxRow) (result : DispatchResult) (t : Outbox)
      → Explains (Delivers ms t) t (deliver_all host d ms result t)
  unfolding deliver_all run
  deliver_all-Delivers [] result t = ([], ends, refl)
  deliver_all-Delivers (m ∷ ms) result t =
      let others = (d.publish m).meanwhile in
      let t0 = run host t others in
      let settled = settle host d m (d.publish m) result t0 in
      let (cs, settles, table) = settle-Settles m result t0 in
      elim (Result-cases settled.0) [
        | inl (fault, e) ↦
            let same : (err fault, settled.1) ≡ deliver_all host d (m ∷ ms) result t =
              ground (arith, e) in
            let stopped : Settles m t0 cs false =
              subst (λ a. Settles m t0 cs (is_ok a)) e settles in
            subst (Explains (Delivers (m ∷ ms) t) t) same
              (others ++ cs, throws stopped, table ∙ sym (run-append host t others cs))
        | inr (result', e) ↦
            let (ds, delivers, rest) = deliver_all-Delivers ms result' settled.1 in
            let same : deliver_all host d ms result' settled.1
                ≡ deliver_all host d (m ∷ ms) result t =
              ground (arith, e) in
            let went_on : Settles m t0 cs true = subst (λ a. Settles m t0 cs (is_ok a)) e settles in
            let whole = is_ok (deliver_all host d ms result' settled.1).0 in
            subst (Explains (Delivers (m ∷ ms) t) t) same (
              others ++ (cs ++ ds),
              goes_on went_on (subst (λ x. Delivers ms x ds whole) table delivers),
              rest
                  ∙ ap (λ x. run host x ds) table
                  ∙ sym (run-append host t0 cs ds)
                  ∙ sym (run-append host t others (cs ++ ds)),
            )
      ]

  -- What a batch does to the table, whatever the publications do. If its claim throws, so does the batch, and it
  -- writes nothing. If not, its calls are, after the claim, those of the messages in the claim's order: first what
  -- other workers call while the message is published; then, if the publication succeeded, its acknowledgement, and
  -- if that throws or the publication failed, its rejection at the retry delay with the error. The batch ends early,
  -- with a throw, exactly at a message whose retry delay is not valid or whose rejection throws.
  pub run_once-Delivers :
      (now : ℕ) (t : Outbox)
      → ((fault : Fault) × (claim_outbox host (claim_options host d now) t ≡ err fault)
          × (run_once host d now t ≡ (err fault, t)))
        ⊎ ((ms : List OutboxRow) × (t' : Outbox) × (cs : List OutboxCall) × (claim_outbox host
                (claim_options host d now)
                t
              ≡ ok (ms, t'))
            × Delivers ms t' cs (is_ok (run_once host d now t).0)
            × ((run_once host d now t).1 ≡ run host t (claims (claim_options host d now) ∷ cs)))
  unfolding run_once run step
  run_once-Delivers now t = elim (Result-cases (claim_outbox host (claim_options host d now) t)) [
    | inl (fault, thrown) ↦ inl (fault, thrown, ground (arith, thrown))
    | inr ((ms, t'), done) ↦
        let (cs, delivers, table) = deliver_all-Delivers ms (started host d ms) t' in
        let same : deliver_all host d ms (started host d ms) t' ≡ run_once host d now t =
          ground (arith, done) in
        let claimed : run host t' cs ≡ run host t (claims (claim_options host d now) ∷ cs) =
          ground (arith, done) in
        inr (
          ms,
          t',
          cs,
          done,
          subst (λ a. Delivers ms t' cs (is_ok a.0)) same delivers,
          ap (λ a. a.1) (sym same) ∙ table ∙ claimed,
        )
  ]
