-- ===== src/Worker.antt =====
-- src/infrastructure/outbox/worker.ts: the loop that dispatches one batch after another until it is stopped.
-- What the dispatcher answers, whether a callback throws, and when `stop` is called are inputs, one `Round` for
-- each turn of the loop.
pub mod Stopping
mod Tests
use onyx_ifem.Prelude.{
  ℕ, Bool, true, false, not, ◌&&◌, ◌||◌, Option, none, some, List, [], ◌∷◌, String, ltb, or_else,
  if◌then◌else◌,
}
use Prim.Native.String.{◌++◌ as ◌<>◌}
use onyx_ifem.Contracts.Errors.{Result, ok, err, Fault, failure, ◌>>=◌, ◌>>◌, throw_if}
use onyx_ifem.Dispatcher.{DispatchResult}

pub record OutboxWorker : Type 0 where
  pub poll_interval_ms : ℕ
  pub error_delay_ms : ℕ
  pub running : Bool
  pub stopping : Bool

-- `positiveInteger`; the maximum is a text in the message.
unfoldable positive_integer : ℕ → (maximum : ℕ) → (message : String) → Result ℕ
positive_integer value maximum message = do
  throw_if (ltb value 1 || ltb maximum value) (failure message)
  ok value

-- The constructor.
unfoldable pub new_worker : Option ℕ → Option ℕ → Result OutboxWorker
unfolding positive_integer
new_worker poll error = do
  poll_interval_ms ←
      positive_integer (or_else poll 1000) 60000
        "pollIntervalMs must be an integer from 1 through 60000"
  error_delay_ms ←
      positive_integer (or_else error 5000) 300000
        "errorDelayMs must be an integer from 1 through 300000"
  ok (record {
    poll_interval_ms = poll_interval_ms;
    error_delay_ms = error_delay_ms;
    running = false;
    stopping = false;
  })

-- `start` before its loop.
unfoldable pub start : OutboxWorker → Result OutboxWorker
start w = do
  throw_if w.running (failure "outbox worker is already running")
  ok (record w { running = true; stopping = false })

-- `stop` before it awaits the loop.
unfoldable pub stop : OutboxWorker → OutboxWorker
stop w = if w.running then record w { stopping = true } else w

-- One turn: what `runOnce` returns or throws, what the callbacks throw, and whether `stop` is called while the
-- dispatcher runs or while the loop waits.
pub record Round : Type 0 where
  pub dispatched : Result DispatchResult
  pub on_batch : Result (Unit {0})
  pub on_error : Result (Unit {0})
  pub stops_running : Bool
  pub stops_waiting : Bool

-- `#notifyError`: what the callback throws is dropped.
unfoldable pub notify_error : Round → Result (Unit {0})
notify_error round = elim round.on_error [ ok _ ↦ ok tt | err _ ↦ ok tt ]

-- `#notifyBatch`
unfoldable pub notify_batch : Round → Result (Unit {0})
unfolding notify_error
notify_batch round = elim round.on_batch [ ok _ ↦ ok tt | err _ ↦ notify_error round ]

-- The body of the `try`: the delay after a batch.
unfoldable pub attempt : OutboxWorker → Round → Result ℕ
unfolding notify_batch
attempt w round = do
  result ← round.dispatched
  notify_batch round
  ok (if ltb 0 result.claimed then 0 else w.poll_interval_ms)

-- The `catch`.
unfoldable pub delay_of : OutboxWorker → Round → Result ℕ
unfolding attempt notify_error
delay_of w round = elim (attempt w round) [
  | ok delay ↦ ok delay
  | err _ ↦ notify_error round >> ok w.error_delay_ms
]

-- `stop` if it is called.
abbrev pub stop_if : Bool → OutboxWorker → OutboxWorker
stop_if called w = if called then stop w else w

-- `if (!this.#stopping && delay > 0) await this.#wait(delay)`: the time that is waited at most, and the worker.
unfoldable pub pause : ℕ → Round → OutboxWorker → ℕ × OutboxWorker
unfolding stop
pause delay round w =
    if not w.stopping && ltb 0 delay then (delay, stop_if round.stops_waiting w) else (0, w)

-- The body of the `while`: the wait, and the worker.
unfoldable pub turn : OutboxWorker → Round → Result (ℕ × OutboxWorker)
unfolding delay_of pause stop
turn w round = do delay ← delay_of w round; ok (pause delay round (stop_if round.stops_running w))

-- The `finally`.
abbrev pub finish : OutboxWorker → OutboxWorker
finish w = record w { running = false; stopping = false }

-- How far the loop has come: it waits for its next batch, or it has ended, by itself or by what was thrown.
pub data Loop : Type 0 where
  going ended : (waits : List ℕ) → OutboxWorker → Loop
  failed : Fault → OutboxWorker → Loop

abbrev pub after_wait : ℕ → Loop → Loop
after_wait wait (going waits w) = going (wait ∷ waits) w
after_wait wait (ended waits w) = ended (wait ∷ waits) w
after_wait wait (failed e w) = failed e w

-- `#run` for the rounds of a list, with the waits of its turns. The `while` is tested before every turn.
unfoldable pub loop : List Round → OutboxWorker → Loop
unfolding turn
loop [] w = if w.stopping then ended [] (finish w) else going [] w
loop (round ∷ rounds) w = elim w.stopping [
  | true ↦ ended [] (finish w)
  | false ↦ elim (turn w round) [
    | err e ↦ failed e (finish w)
    | ok (wait, w') ↦ after_wait wait (loop rounds w')
  ]
]
