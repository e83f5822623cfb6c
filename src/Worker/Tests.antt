-- ===== src/Worker/Tests.antt =====
-- A worker that dispatches, fails, and is stopped while it waits; and the theorem at these turns.
use onyx_ifem.Prelude.{◌≡◌, refl, true, false, [], ◌∷◌, ◌++◌, map, none}
use onyx_ifem.Contracts.Errors.{ok, err, failure}
use onyx_ifem.Worker.{OutboxWorker, Round, going, ended, finish, loop, new_worker, start}
use onyx_ifem.Worker.Stopping.{loop-start, wait_of}

abbrev worker : OutboxWorker
worker = record {
  poll_interval_ms = 1000;
  error_delay_ms = 5000;
  running = false;
  stopping = false;
}

-- A batch that throws, with callbacks that throw.
abbrev broken : Round
broken = record {
  dispatched = err (failure "database is locked");
  on_batch = ok tt;
  on_error = err (failure "log is full");
  stops_running = false;
  stops_waiting = false;
}

abbrev last : Round
last = record {
  dispatched = ok (record { claimed = 0; delivered = 0; retried = 0; dead_lettered = 0 });
  on_batch = err (failure "log is full");
  on_error = ok tt;
  stops_running = false;
  stops_waiting = true;
}

made : new_worker none none ≡ ok worker
unfolding new_worker
made = refl

loop-start_example :
    (w' : OutboxWorker) × (start worker ≡ ok w')
    × (loop (broken ∷ []) w' ≡ going (map (wait_of worker) (broken ∷ [])) w')
    × (loop ((broken ∷ []) ++ last ∷ broken ∷ []) w'
        ≡ ended (map (wait_of worker) (broken ∷ []) ++ wait_of worker last ∷ []) (finish worker))
    × (start (finish worker) ≡ ok w')
loop-start_example = loop-start worker (broken ∷ []) last (broken ∷ []) refl (refl, tt) refl
