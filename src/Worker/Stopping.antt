-- ===== src/Worker/Stopping.antt =====
-- The loop goes on until it is stopped, whatever the dispatcher and the callbacks throw, and then it ends.
use onyx_ifem.Prelude.{
  ℕ, ◌≡◌, refl, sym, ap, ◌∙◌, Bool, true, false, ◌&&◌, ◌||◌, List, [], ◌∷◌, ◌++◌, map, All, ltb,
  if◌then◌else◌, arith,
}
use onyx_ifem.Contracts.Errors.{Result, ok, err}
use onyx_ifem.Dispatcher.{DispatchResult}
use onyx_ifem.Worker.{
  OutboxWorker, Round, going, ended, after_wait, finish, loop, turn, delay_of, attempt,
  notify_batch, notify_error, pause, stop, stop_if, start,
}

-- The delay after a batch: none if it has claimed messages, the longer one if it has thrown.
abbrev delay_for : (poll error : ℕ) → Result DispatchResult → ℕ
delay_for poll error (err e) = error
delay_for poll error (ok result) = if ltb 0 result.claimed then 0 else poll

abbrev pub wait_after : OutboxWorker → Round → ℕ
wait_after w round = delay_for w.poll_interval_ms w.error_delay_ms round.dispatched

-- Whether `stop` is called in a turn: while the dispatcher runs, or while the loop waits, if it does.
abbrev pub is_stopped : OutboxWorker → Round → Bool
is_stopped w round = round.stops_running || (round.stops_waiting && ltb 0 (wait_after w round))

delay_of_lem :
    (w : OutboxWorker) (dispatched : Result DispatchResult) (on_batch on_error : Result (Unit {0}))
    (running waiting : Bool)
    → delay_of w (record {
      dispatched = dispatched;
      on_batch = on_batch;
      on_error = on_error;
      stops_running = running;
      stops_waiting = waiting;
    })
      ≡ ok (delay_for w.poll_interval_ms w.error_delay_ms dispatched)
unfolding delay_of attempt notify_batch notify_error
delay_of_lem w (err e) b (ok u) r s = refl
delay_of_lem w (err e) b (err f) r s = refl
delay_of_lem w (ok d) (ok u) o r s = refl
delay_of_lem w (ok d) (err e) (ok u) r s = refl
delay_of_lem w (ok d) (err e) (err f) r s = refl

-- The worker of a loop that runs: not stopped, or stopped in its last turn.
abbrev pub looping : Bool → OutboxWorker → OutboxWorker
looping stopped w = record w { running = true; stopping = stopped }

no_wait : (d : ℕ) → ltb 0 d ≡ false → d ≡ 0
no_wait d h = ground (arith, h)

pause_lem :
    (w : OutboxWorker) (delay : ℕ) (round : Round) (running waiting positive : Bool)
    → round.stops_waiting ≡ waiting
    → ltb 0 delay ≡ positive
    → pause delay round (stop_if running (looping false w))
      ≡ (if running then 0 else delay, looping (running || (waiting && positive)) w)
unfolding pause stop
pause_lem w delay round true waiting positive e h = refl
pause_lem w delay round false true true e h = rw (e, h) refl
pause_lem w delay round false false true e h = rw (e, h) refl
pause_lem w delay round false true false e h =
    rw h (ap (λ d. (d, looping false w)) (sym (no_wait delay h)))
pause_lem w delay round false false false e h =
    rw h (ap (λ d. (d, looping false w)) (sym (no_wait delay h)))

-- How long a turn waits at most.
abbrev pub wait_of : OutboxWorker → Round → ℕ
wait_of w round = if round.stops_running then 0 else wait_after w round

turn_lem :
    (w : OutboxWorker) (round : Round)
    → turn (looping false w) round ≡ ok (wait_of w round, looping (is_stopped w round) w)
unfolding turn
turn_lem w round =
    rw
      (delay_of_lem (looping false w) round.dispatched round.on_batch round.on_error
        round.stops_running round.stops_waiting)
      (ap ok (
        pause_lem w (wait_after w round) round round.stops_running round.stops_waiting
          (ltb 0 (wait_after w round)) refl refl))

-- A turn that is not stopped, and one that is.
loop_on :
    (w : OutboxWorker) (round : Round) (rounds : List Round)
    → is_stopped w round ≡ false
    → loop (round ∷ rounds) (looping false w)
      ≡ after_wait (wait_of w round) (loop rounds (looping false w))
unfolding loop
loop_on w round rounds h = rw (loop, turn_lem w round, h) refl

loop_out :
    (w : OutboxWorker) (rounds : List Round) → loop rounds (looping true w) ≡ ended [] (finish w)
unfolding loop
loop_out w [] = refl
loop_out w (round ∷ rounds) = refl

loop_stop :
    (w : OutboxWorker) (round : Round) (rounds : List Round)
    → is_stopped w round ≡ true
    → loop (round ∷ rounds) (looping false w) ≡ ended (wait_of w round ∷ []) (finish w)
unfolding loop
loop_stop w round rounds h = rw (loop, turn_lem w round, h, loop_out w rounds) refl

loop_before :
    (w : OutboxWorker) (rounds : List Round)
    → All (λ r. is_stopped w r ≡ false) rounds
    → loop rounds (looping false w) ≡ going (map (wait_of w) rounds) (looping false w)
unfolding loop
loop_before w [] h = refl
loop_before w (round ∷ rounds) (fresh, h) =
    loop_on w round rounds fresh ∙ ap (after_wait (wait_of w round)) (loop_before w rounds h)

loop_ends :
    (w : OutboxWorker) (before : List Round) (round : Round) (later : List Round)
    → All (λ r. is_stopped w r ≡ false) before
    → is_stopped w round ≡ true
    → loop (before ++ round ∷ later) (looping false w)
      ≡ ended (map (wait_of w) before ++ wait_of w round ∷ []) (finish w)
loop_ends w [] round later h k = loop_stop w round later k
loop_ends w (r ∷ before) round later (fresh, h) k =
    loop_on w r (before ++ round ∷ later) fresh
    ∙ ap (after_wait (wait_of w r)) (loop_ends w before round later h k)

-- A worker that is not running starts, and its loop takes one turn after another for as long as `stop` is not
-- called, whatever the dispatcher and the callbacks throw; at the first turn in which `stop` is called, while the
-- dispatcher runs or while the loop waits, it ends after that turn and takes none of the later ones, and the
-- worker can be started again. A turn waits for the poll interval after a batch that claimed nothing, not at all
-- after one that claimed messages or when stopped before, and for the error delay after a batch that threw.
pub loop-start :
    (w : OutboxWorker) (before : List Round) (round : Round) (later : List Round)
    → w.running ≡ false
    → All (λ r. is_stopped w r ≡ false) before
    → is_stopped w round ≡ true
    → (w' : OutboxWorker) × (start w ≡ ok w')
      × (loop before w' ≡ going (map (wait_of w) before) w')
      × (loop (before ++ round ∷ later) w'
          ≡ ended (map (wait_of w) before ++ wait_of w round ∷ []) (finish w))
      × (start (finish w) ≡ ok w')
unfolding start
loop-start w before round later idle h k = (
  looping false w,
  rw idle refl,
  loop_before w before h,
  loop_ends w before round later h k,
  refl,
)
