-- ===== src/Admission/Tests.antt =====
-- A gate of two requests.
use onyx_ifem.Prelude.{List, ◌≡◌, refl, true, false, [], ◌∷◌, arith}
use onyx_ifem.Sqlite.Table.{count}
use onyx_ifem.Admission.{
  ConcurrencyGate, enter, release, admit, is_released, mark_released, RateLimitDecision,
}
use onyx_ifem.Admission.Gate.{
  GateCall, admits, releases, step, run, IsBounded, in_progress, run-IsBounded,
}

abbrev gate : ConcurrencyGate
gate = record { maximum = 2; active = 0; released = [] }

abbrev within : RateLimitDecision
within = record { allowed = true; remaining = 5; retry_after_seconds = 0 }

abbrev calls : List GateCall
calls = admits within ∷ admits within ∷ admits within ∷ releases 0 ∷ releases 0 ∷ admits within ∷ []

twice_released :
    run gate calls ≡ record { maximum = 2; active = 2; released = true ∷ false ∷ false ∷ [] }
unfolding run step admit enter release is_released mark_released
twice_released = refl

gate-IsBounded : IsBounded gate
unfolding in_progress count
gate-IsBounded = record { exact = refl; bounded = omega arith }

run-IsBounded_example : IsBounded (run gate calls)
run-IsBounded_example = run-IsBounded calls gate gate-IsBounded
