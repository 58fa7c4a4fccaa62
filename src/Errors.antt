-- ===== src/Errors.antt =====
-- The error codes of both programs (programs/taskforest/src/errors.rs and
-- programs/taskforest-payments/src/errors.rs), the refusals of the framework and of the runtime
-- that the instruction handlers can meet, and the result of a fallible step.
use mathlib.Core.Path.{subst}
use taskforest_protocol.Prelude.{◌≡◌, refl, Bool, true, false, Option, none, some}

pub data TaskForestError : Type 0 where
  invalid_reward : TaskForestError
  invalid_deadline : TaskForestError
  wrong_status : TaskForestError
  unauthorized : TaskForestError
  invalid_stake : TaskForestError
  insufficient_stake : TaskForestError
  invalid_claimer : TaskForestError
  deadline_passed : TaskForestError
  deadline_not_passed : TaskForestError
  invalid_verdict : TaskForestError
  missing_proof : TaskForestError
  review_period_active : TaskForestError
  insufficient_escrow : TaskForestError
  uri_too_long : TaskForestError
  not_auto_match : TaskForestError
  insufficient_escrow_for_sub_job : TaskForestError
  sub_job_exceeds_escrow : TaskForestError
  dispute_window_active : TaskForestError
  dispute_window_expired : TaskForestError
  dispute_stake_too_low : TaskForestError
  invalid_dispute_status : TaskForestError
  already_voted : TaskForestError
  quorum_not_reached : TaskForestError
  not_panel_verifier : TaskForestError
  invalid_verification_mode : TaskForestError
  tee_not_verified : TaskForestError
  invalid_attestation : TaskForestError
  invalid_attestation_signature : TaskForestError
  attestation_expired : TaskForestError
  attestation_mismatch : TaskForestError
  invalid_validator : TaskForestError

pub data PaymentsError : Type 0 where
  unauthorized : PaymentsError
  escrow_not_active : PaymentsError
  invalid_attestation : PaymentsError
  invalid_attestation_signature : PaymentsError
  attestation_too_large : PaymentsError
  attestation_expired : PaymentsError
  attestation_mismatch : PaymentsError
  invalid_validator : PaymentsError
  settlement_exceeds_deposit : PaymentsError
  compression_failed : PaymentsError
  budget_exceeded : PaymentsError
  escrow_not_delegated : PaymentsError
  caller_not_authorized : PaymentsError

-- An instruction ends in an error of its program, in a refusal of the account checks that the
-- framework makes before a handler runs, in a failed call of another program, or in a panic
-- (the release profile has overflow checks).
pub data Error : Type 0 where
  task_forest : TaskForestError → Error
  payments : PaymentsError → Error
  account_not_signer : Error
  account_not_initialized : Error
  account_owned_by_wrong_program : Error
  account_in_use : Error
  constraint_seeds : Error
  constraint_raw : Error
  constraint_has_one : Error
  not_enough_keys : Error
  call_failed : Error
  panicked : Error

-- `Result<T>` of the framework.
pub data Result {ℓ} (T : Type ℓ) : Type ℓ where
  err : Error → Result T
  ok : T → Result T

-- `require!(condition, error)`
abbrev pub require : Bool → Error → Result (Unit {0})
require true e = ok tt
require false e = err e

-- `?`: the first error ends the handler.
infixl 5 ◌>>=◌
abbrev pub ◌>>=◌ {ℓ κ} : {T : Type ℓ} {U : Type κ} → Result T → (T → Result U) → Result U
err e >>= handler = err e
ok t >>= handler = handler t

-- The same after a guard.
infixl 5 ◌>>◌
abbrev pub ◌>>◌ {κ} : {U : Type κ} → Result (Unit {0}) → Result U → Result U
checked >> rest = checked >>= λ u. rest

-- `option.ok_or(error)?`
abbrev pub ok_or {ℓ} : {A : Type ℓ} → Option A → Error → Result A
ok_or none e = err e
ok_or (some a) e = ok a

-- A condition on the value of a step that succeeds.
abbrev pub Ensures {ℓ κ} : {A : Type ℓ} → (A → Type κ) → Result A → Type κ
Ensures P (ok a) = P a
Ensures P (err e) = Unit

abbrev pub is_ok {ℓ} : {A : Type ℓ} → Result A → Bool
is_ok (ok a) = true
is_ok (err e) = false

-- A chain of two steps ensures what the second does wherever the first succeeds.
pub Ensures-bind {ℓ κ} :
    {A B : Type ℓ} (P : B → Type κ) (m : Result A) (f : A → Result B)
    → ((a : A) → m ≡ ok a → Ensures P (f a))
    → Ensures P (m >>= f)
Ensures-bind P (ok a) f h = h a refl
Ensures-bind P (err e) f h = tt

-- A guard that passes leaves its condition behind.
pub Ensures-require {ℓ κ} :
    {B : Type ℓ} (P : B → Type κ) (b : Bool) (e : Error) (k : Result B)
    → (b ≡ true → Ensures P k)
    → Ensures P (require b e >> k)
Ensures-require P true e k h = h refl
Ensures-require P false e k h = tt

pub Ensures-elim {ℓ κ} :
    {A : Type ℓ} (P : A → Type κ) {r : Result A} {a : A} → r ≡ ok a → Ensures P r → P a
Ensures-elim P e h = subst (Ensures P) e h

pub Ensures-map {ℓ κ} :
    {A : Type ℓ} (P Q : A → Type κ) (r : Result A)
    → ((a : A) → P a → Q a)
    → Ensures P r
    → Ensures Q r
Ensures-map P Q (ok a) f h = f a h
Ensures-map P Q (err e) f h = tt
