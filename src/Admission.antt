-- ===== src/Admission.antt =====
-- src/infrastructure/http/admission.ts: the gate on concurrent requests, and the controller's decision, which
-- takes the rate limiter's decision as an input.
pub mod Gate
mod Tests
use onyx_ifem.Prelude.{
  ℕ, suc, ◌-◌, Bool, true, false, ◌&&◌, ◌||◌, Option, none, some, String, List, [], ◌∷◌, ◌++◌, ltb,
  leb, ◌==◌, includes, if◌then◌else◌, length,
}
use onyx_ifem.Contracts.Errors.{
  Result, ok, err, failure, OnyxErrorCode, rate_limited, dependency_unavailable,
}

-- `isAdmissionExempt`
unfoldable pub is_admission_exempt : Option String → String → Bool
is_admission_exempt none path = false
is_admission_exempt (some m) path =
    (m == "GET") && includes ("/healthz" ∷ "/readyz" ∷ "/metrics" ∷ []) path

-- The gate, with the `released` flag of each function that `enter` has returned, in their order.
pub record ConcurrencyGate : Type 0 where
  pub maximum : ℕ
  pub active : ℕ
  pub released : List Bool

-- The constructor, with `positiveInteger`.
unfoldable pub new_gate : ℕ → Result ConcurrencyGate
new_gate maximum =
    if ltb maximum 1 || ltb 1000000 maximum
    then err (failure "maximum concurrency must be an integer from 1 through 1000000")
    else ok (record { maximum = maximum; active = 0; released = [] })

-- `enter`: the number of the function that it returns, and the gate.
unfoldable pub enter : ConcurrencyGate → Option ℕ × ConcurrencyGate
enter g = if leb g.maximum g.active then (none, g) else (
  some (length g.released),
  record g { active = suc g.active; released = g.released ++ false ∷ [] },
)

-- The flag of one function, which is `true` where there is none.
unfoldable pub is_released : ℕ → List Bool → Bool
is_released i [] = true
is_released ℕ.zero (b ∷ bs) = b
is_released (suc i) (b ∷ bs) = is_released i bs

unfoldable pub mark_released : ℕ → List Bool → List Bool
mark_released i [] = []
mark_released ℕ.zero (b ∷ bs) = true ∷ bs
mark_released (suc i) (b ∷ bs) = b ∷ mark_released i bs

-- A call of the function of a number.
unfoldable pub release : ℕ → ConcurrencyGate → ConcurrencyGate
unfolding is_released mark_released
release i g =
    if is_released i g.released
    then g
    else record g { active = g.active - 1; released = mark_released i g.released }

pub record RateLimitDecision : Type 0 where
  pub allowed : Bool
  pub remaining : ℕ
  pub retry_after_seconds : ℕ

pub data AdmissionDecision : Type 0 where
  accepted : (remaining release : ℕ) → AdmissionDecision
  rejected : (code : OnyxErrorCode) (retry_after_seconds remaining : ℕ) → AdmissionDecision

-- `admit` after the limiter's decision.
unfoldable pub admit : RateLimitDecision → ConcurrencyGate → AdmissionDecision × ConcurrencyGate
unfolding enter
admit rate g =
    if rate.allowed
    then (let (entered, g') = enter g in
        elim entered [
          | none ↦ (rejected dependency_unavailable 1 rate.remaining, g')
          | some i ↦ (accepted rate.remaining i, g')
        ])
    else (rejected rate_limited rate.retry_after_seconds 0, g)
