-- ===== src/Error.antt =====
-- The errors of src/error.rs and src/threshold.rs, and the result monad of the handlers. What a
-- library error carries (a text, the operands of an overflow) is left out. A trap of the virtual
-- machine (a panic, an arithmetic overflow under `overflow-checks`, a failed `unwrap`) is `panic`.
use cw_streamswap.Base.{
  ℕ, ◌-◌, ◌≡◌, ◌⊎◌, inl, inr, refl, Bool, true, false, ltb, if◌then◌else◌, Option, none, some,
}

pub data ThresholdError : Type 0 where
  std : ThresholdError
  threshold_not_reached : ThresholdError
  threshold_reached : ThresholdError
  threshold_not_set : ThresholdError
  threshold_zero : ThresholdError

pub data ContractError : Type 0 where
  std overflow payment infallible divide_by_zero_error : ContractError
  threshold_error : ThresholdError → ContractError
  conversion_overflow_error : ContractError
  cannot_migrate : ℕ → ContractError
  no_distribution unauthorized invalid_exit_fee_percent no_funds_sent : ContractError
  in_denom_is_not_accepted same_denom_on_each_side zero_out_supply : ContractError
  stream_out_supply_funds_required : ContractError
  withdraw_amount_exceeds_balance : ℕ → ContractError
  invalid_withdraw_amount invalid_funds : ContractError
  decrease_amount_exceeds : ℕ → ContractError
  wait_unbonding no_bond stream_not_ended stream_is_started update_position : ContractError
  stream_duration_too_short stream_duration_too_long stream_starts_too_soon : ContractError
  stream_invalid_start_time stream_invalid_end_time stream_creation_fee_required : ContractError
  stream_ended stream_not_started invalid_decimals stream_paused : ContractError
  stream_already_paused stream_not_paused stream_not_cancelled stream_is_cancelled : ContractError
  stream_killswitch_active stream_already_finalized stream_name_too_short : ContractError
  stream_name_too_long invalid_stream_name stream_url_too_short stream_url_too_long : ContractError
  invalid_stream_url invalid_stream_creation_fee invalid_stream_exit_fee : ContractError
  panic : ContractError

pub data Result {ℓ} (A : Type ℓ) : Type ℓ where
  ok : A → Result A
  err : ContractError → Result A

-- `if c { return Err(e) }`
abbrev pub fail_if : Bool → ContractError → Result (Unit {0})
fail_if true error = err error
fail_if false error = ok tt

-- `?`: the first error ends the handler.
infixl 5 ◌>>=◌
abbrev pub ◌>>=◌ {ℓ κ} : {A : Type ℓ} {B : Type κ} (r : Result A) → (A → Result B) → Result B
err error >>= next = err error
ok value >>= next = next value

infixl 5 ◌>>◌
abbrev pub ◌>>◌ {ℓ} : {B : Type ℓ} → Result (Unit {0}) → Result B → Result B
check >> next = check >>= λ done. next

-- `x?` for a library call that has failed with an error of this kind, and `unwrap` or an operator
-- that panics.
abbrev pub or_fail {ℓ} : {A : Type ℓ} → Option A → ContractError → Result A
or_fail (some a) e = ok a
or_fail none e = err e

abbrev pub unwrap {ℓ} : {A : Type ℓ} → Option A → Result A
unwrap (some a) = ok a
unwrap none = err panic

-- `Result<A, ThresholdError>`, and what `?` makes of it.
pub data Checked {ℓ} (A : Type ℓ) : Type ℓ where
  pass : A → Checked A
  fail : ThresholdError → Checked A

abbrev pub or_threshold {ℓ} : {A : Type ℓ} → Checked A → Result A
or_threshold (pass a) = ok a
or_threshold (fail e) = err (threshold_error e)

-- If the call succeeds, its value has the property.
abbrev pub Ensures {ℓ} : {A : Type ℓ} → (A → Type 0) → Result A → Type 0
Ensures P (ok a) = P a
Ensures P (err e) = Unit

-- `a - b` on u64: the build has `overflow-checks`.
abbrev pub sub_u64 : ℕ → ℕ → Result ℕ
sub_u64 a b = if ltb a b then err panic else ok (a - b)

-- The call succeeds, and its value has the property.
abbrev pub Returns {ℓ} : {A : Type ℓ} → (A → Type 0) → Result A → Type 0
Returns P (ok a) = P a
Returns P (err e) = ⊥

pub Result-cases {ℓ} :
    {A : Type ℓ} (r : Result A) → ((a : A) × (r ≡ ok a)) ⊎ ((e : ContractError) × (r ≡ err e))
Result-cases (ok a) = inl (a, refl)
Result-cases (err e) = inr (e, refl)

-- What a successful call does, and that the call succeeds.
pub both {ℓ} :
    {A : Type ℓ} (P : A → Type 0) (r : Result A)
    → Ensures P r
    → Returns (λ _. Unit {0}) r
    → Returns P r
both P (ok a) e h = e
both P (err x) e h = h

-- What a call ensures, of the value that it has returned.
pub of_Ensures {ℓ} :
    {A : Type ℓ} (P : A → Type 0) (r : Result A) {a : A} → Ensures P r → r ≡ ok a → P a
of_Ensures P r h e = rw e at h

-- To follow a call that a handler makes by what it returns.
module _ {ℓ κ} {A : Type ℓ} {G : Type κ} where
  pub by_result :
      (r : Result A) → ((e : ContractError) → r ≡ err e → G) → ((a : A) → r ≡ ok a → G) → G
  by_result (ok a) f g = g a refl
  by_result (err e) f g = f e refl

  pub by_option : (o : Option A) → (o ≡ none → G) → ((a : A) → o ≡ some a → G) → G
  by_option none f g = f refl
  by_option (some a) f g = g a refl

-- The call fails.
abbrev pub Refused {ℓ} : {A : Type ℓ} → Result A → Type 0
Refused (ok a) = ⊥
Refused (err e) = Unit
