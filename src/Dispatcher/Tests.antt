-- ===== src/Dispatcher/Tests.antt =====
-- A batch of two messages: one is delivered, the publication of the other fails, while another worker calls.
use onyx_ifem.Prelude.{
  ℕ, ◌≡◌, refl, ◌≢◌, ◌+◌, ◌⊎◌, true, none, some, String, List, [], ◌∷◌, arith, All, length,
  if◌then◌else◌, ◌==◌, eq_iff,
}
use onyx_ifem.Json.{Json, Host}
use onyx_ifem.Contracts.Errors.{ok, err, Fault}
use onyx_ifem.Sqlite.Table.{select, first, update, count, order_by}
use onyx_ifem.Sqlite.Instants.{iso, recorded}
use onyx_ifem.Sqlite.StoredEvent.{stored_event, executable_event_profiles}
use onyx_ifem.Sqlite.Outbox.{
  OutboxRow, Outbox, lease, claimable, lease_all, claim_outbox, to_outbox_message,
  to_outbox_messages, get_outbox_row, acknowledge_outbox, reject_outbox, slice_units,
}
use onyx_ifem.Sqlite.Outbox.Steps.{OutboxCall, acknowledges, claims, step, run}
use onyx_ifem.Dispatcher.{
  Delivery, OutboxDispatcher, DispatchResult, positive_integer, default_retry_delay, give_back,
  handle_failure, settle, deliver_all, run_once, claim_options,
}
use onyx_ifem.Dispatcher.Trace.{Delivers, is_ok, run_once-Delivers}
use onyx_ifem.Dispatcher.Progress.{IsHandled, run_once_completes}

abbrev quiet_host : Host
quiet_host = record {
  stringify = λ _. "";
  locale_le = λ _ _. true;
  digest = λ s. s;
  date_parse = λ _. none;
}

abbrev waiting : String → ℕ → OutboxRow
waiting e at = record {
  event_id = e;
  context = "demo";
  aggregate_id = "a";
  aggregate_version = 1;
  organization_id = "org";
  event_type = "Demo";
  event_json = Json.null;
  attempt_count = 0;
  available_at = recorded at;
  lease_owner = none;
  lease_expires_at = none;
  delivered_at = none;
  dead_lettered_at = none;
  last_error = none;
}

-- The publication of `e2` fails; during each, worker v claims early and tries to acknowledge.
abbrev publish_demo : OutboxRow → Delivery
publish_demo m = record {
  meanwhile =
      claims (record { worker_id = "v"; now = 40; lease_duration_ms = 9; limit = 5 })
      ∷ acknowledges m.event_id "v" 41
      ∷ [];
  thrown = if m.event_id == "e2" then some "refused" else none;
  finished_at = 50;
}

abbrev dispatcher : OutboxDispatcher
dispatcher = record {
  worker_id = "w";
  publish = publish_demo;
  batch_size = 10;
  lease_duration_ms = 100;
  max_attempts = 3;
  retry_delay_ms = λ _. 1000;
}

abbrev queue : Outbox
queue = waiting "e1" 10 ∷ waiting "e2" 20 ∷ []

batch : Unit {0}
unfolding run_once deliver_all settle handle_failure give_back positive_integer claim_outbox
    claimable select order_by lease_all update to_outbox_message to_outbox_messages stored_event
    executable_event_profiles get_outbox_row first count acknowledge_outbox reject_outbox step run
    slice_units default_retry_delay
batch = tt

batch_counts :
    (run_once quiet_host dispatcher 30 queue).0
    ≡ ok (record { claimed = 2; delivered = 1; retried = 1; dead_lettered = 0 })
unfolding batch
batch_counts = refl

delays_double : default_retry_delay 4 ≡ 8000
unfolding batch
delays_double = refl

abbrev claimed : List OutboxRow
claimed = lease "w" (iso 130) (waiting "e1" 10) ∷ lease "w" (iso 130) (waiting "e2" 20) ∷ []

v_is_not_w : ◌≢◌ {A = String} "v" "w"
v_is_not_w = ground (arith, eq_iff "v" "w")

claim_queue :
    claim_outbox quiet_host (claim_options quiet_host dispatcher 30) queue ≡ ok (claimed, claimed)
unfolding batch
claim_queue = refl

run_once_completes_example :
    (r : DispatchResult) × (t2 : Outbox) × (run_once quiet_host dispatcher 30 queue ≡ (ok r, t2))
    × (r.delivered + (r.retried + r.dead_lettered) ≡ r.claimed)
    × (r.claimed ≡ length claimed)
    × All (IsHandled dispatcher t2) claimed
run_once_completes_example =
    run_once_completes quiet_host dispatcher 30 queue ((refl, tt), (tt, tt)) (omega arith)
      claim_queue
      ((omega arith, omega arith, omega arith), ((omega arith, omega arith, omega arith), tt))
      ((omega arith, (v_is_not_w, tt)), ((omega arith, (v_is_not_w, tt)), tt))

run_once-Delivers_example :
    ((fault : Fault) × (claim_outbox quiet_host (claim_options quiet_host dispatcher 30) queue
        ≡ err fault)
      × (run_once quiet_host dispatcher 30 queue ≡ (err fault, queue)))
    ⊎ ((ms : List OutboxRow) × (t' : Outbox) × (cs : List OutboxCall) × (claim_outbox quiet_host
            (claim_options quiet_host dispatcher 30)
            queue
          ≡ ok (ms, t'))
        × Delivers quiet_host dispatcher ms t' cs
            (is_ok quiet_host dispatcher (run_once quiet_host dispatcher 30 queue).0)
        × ((run_once quiet_host dispatcher 30 queue).1
            ≡ run quiet_host queue (claims (claim_options quiet_host dispatcher 30) ∷ cs)))
run_once-Delivers_example = run_once-Delivers quiet_host dispatcher 30 queue
