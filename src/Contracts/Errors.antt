-- ===== src/Contracts/Errors.antt =====
-- src/contracts/errors.ts: the error codes with their HTTP statuses, and what a call can end with.
-- A thrown `OnyxError` is `onyx`, any other thrown `Error` is `failure`; both keep the message. The
-- `details` of an `OnyxError` are left out.
use onyx_ifem.Prelude.{ℕ, Bool, true, false, Option, none, some, String, ◌≡◌, refl, ◌⊎◌, inl, inr}

pub data OnyxErrorCode : Type 0 where
  invalid_argument authentication_required authority_proof_invalid : OnyxErrorCode
  organization_mismatch not_found version_conflict : OnyxErrorCode
  lifecycle_epoch_mismatch authority_epoch_mismatch invalid_state_transition : OnyxErrorCode
  idempotency_key_reuse rate_limited dependency_unavailable : OnyxErrorCode
  deadline_exceeded internal_error : OnyxErrorCode

-- The table `HTTP_STATUS`.
unfoldable pub http_status : OnyxErrorCode → ℕ
http_status invalid_argument = 400
http_status authentication_required = 401
http_status authority_proof_invalid = 403
http_status organization_mismatch = 403
http_status not_found = 404
http_status version_conflict = 409
http_status lifecycle_epoch_mismatch = 409
http_status authority_epoch_mismatch = 409
http_status invalid_state_transition = 409
http_status idempotency_key_reuse = 422
http_status rate_limited = 429
http_status dependency_unavailable = 503
http_status deadline_exceeded = 504
http_status internal_error = 500

pub data Fault : Type 0 where
  onyx : OnyxErrorCode → String → Fault
  failure : String → Fault

-- The outcome of a call: a value, or what it throws.
pub data Result {ℓ} (Value : Type ℓ) : Type ℓ where
  err : (thrown : Fault) → Result Value
  ok : (value : Value) → Result Value

-- `if (c) throw e`
abbrev pub throw_if : Bool → Fault → Result (Unit {0})
throw_if true e = err e
throw_if false e = ok tt

abbrev pub or_throw {ℓ} : {A : Type ℓ} → Option A → Fault → Result A
or_throw none e = err e
or_throw (some a) e = ok a

infixl 5 ◌>>=◌
-- A statement after another: a throw ends the call.
abbrev pub ◌>>=◌ {ℓ κ} :
    {Value : Type ℓ} {Next : Type κ} → Result Value → (next : Value → Result Next) → Result Next
err thrown >>= next = err thrown
ok value >>= next = next value

infixl 5 ◌>>◌
abbrev pub ◌>>◌ {κ} : {Next : Type κ} → Result (Unit {0}) → Result Next → Result Next
check >> next = check >>= λ _. next

module _ {ℓ κ} {Value : Type ℓ} {Next : Type κ} where
  pub >>=-eq-ok :
      (call : Result Value) (next : Value → Result Next) {b : Next}
      → (call >>= next) ≡ ok b
      → (value : Value) × (call ≡ ok value) × (next value ≡ ok b)
  >>=-eq-ok (err thrown) next h = cc
  >>=-eq-ok (ok value) next h = (value, refl, h)

pub throw_if-eq-ok {ℓ} :
    {B : Type ℓ} (c : Bool) (e : Fault) (k : Result B) {b : B}
    → (throw_if c e >> k) ≡ ok b
    → (c ≡ false) × (k ≡ ok b)
throw_if-eq-ok true e k h = cc
throw_if-eq-ok false e k h = (refl, h)

pub Result-cases {ℓ} :
    {A : Type ℓ} (m : Result A) → ((e : Fault) × (m ≡ err e)) ⊎ ((a : A) × (m ≡ ok a))
Result-cases (ok a) = inr (a, refl)
Result-cases (err e) = inl (e, refl)

pub ok-injective {ℓ} : {A : Type ℓ} {x y : A} → ok x ≡ ok y → x ≡ y
ok-injective h = cc
