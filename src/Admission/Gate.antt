-- ===== src/Admission/Gate.antt =====
-- The gate under any sequence of requests and releases.
use onyx_ifem.Prelude.{
  ℕ, suc, ◌≤◌, ◌≡◌, refl, sym, ap, ◌∙◌, Bool, false, not, List, [], ◌∷◌, ◌++◌, leb, if◌then◌else◌,
  arith, Bool-cases, inl, inr,
}
use onyx_ifem.Sqlite.Table.{count}
use onyx_ifem.Admission.{
  ConcurrencyGate, enter, is_released, mark_released, release, RateLimitDecision, admit,
}

pub data GateCall : Type 0 where
  admits : RateLimitDecision → GateCall
  releases : ℕ → GateCall

unfoldable pub step : ConcurrencyGate → GateCall → ConcurrencyGate
step g (admits rate) = (admit rate g).1
step g (releases i) = release i g

unfoldable pub run : ConcurrencyGate → List GateCall → ConcurrencyGate
run g [] = g
run g (c ∷ cs) = run (step g c) cs

-- The requests that are in progress: those that no call has released.
unfoldable pub in_progress : List Bool → ℕ
in_progress flags = count not flags

pub record IsBounded (g : ConcurrencyGate) : Type 0 where
  pub exact : g.active ≡ in_progress g.released
  pub bounded : g.active ≤ g.maximum

count-enter : (flags : List Bool) → count not (flags ++ false ∷ []) ≡ suc (count not flags)
unfolding count
count-enter [] = refl
count-enter (b ∷ flags) = ground (arith, count-enter flags)

count-mark_released :
    (i : ℕ) (flags : List Bool)
    → is_released i flags ≡ false
    → suc (count not (mark_released i flags)) ≡ count not flags
unfolding count is_released mark_released
count-mark_released i [] h = cc
count-mark_released ℕ.zero (b ∷ flags) h = ground (arith, h)
count-mark_released (suc i) (b ∷ flags) h = ground (arith, count-mark_released i flags h)

enter-IsBounded : (g : ConcurrencyGate) → IsBounded g → IsBounded (enter g).1
unfolding enter in_progress
enter-IsBounded g v = elim (Bool-cases (leb g.maximum g.active)) [
  | inl full ↦ rw full v
  | inr free ↦ rw free (record {
    exact = ap suc v.exact ∙ sym (count-enter g.released);
    bounded = ground (arith, free);
  })
]

admit-gate :
    (rate : RateLimitDecision) (g : ConcurrencyGate)
    → (admit rate g).1 ≡ (if rate.allowed then (enter g).1 else g)
unfolding admit enter
admit-gate rate g = ground arith

step-IsBounded : (g : ConcurrencyGate) (c : GateCall) → IsBounded g → IsBounded (step g c)
unfolding step release in_progress
step-IsBounded g (admits rate) v = elim (Bool-cases rate.allowed) [
  | inl allowed ↦ rw (admit-gate rate g, allowed) (enter-IsBounded g v)
  | inr refused ↦ rw (admit-gate rate g, refused) v
]
step-IsBounded g (releases i) v = elim (Bool-cases (is_released i g.released)) [
  | inl done ↦ rw done v
  | inr busy ↦
      let one = count-mark_released i g.released busy in
      rw busy (record { exact = omega (arith, one, v.exact); bounded = omega (arith, v.bounded) })
]

-- From a gate that counts exactly, under any sequence of admissions and releases, a release called twice or out of order included, the gate
-- counts exactly the admitted requests that are not released, and never more than its maximum.
pub run-IsBounded : (cs : List GateCall) (g : ConcurrencyGate) → IsBounded g → IsBounded (run g cs)
unfolding run
run-IsBounded [] g v = v
run-IsBounded (c ∷ cs) g v = run-IsBounded cs (step g c) (step-IsBounded g c v)
