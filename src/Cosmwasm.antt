-- ===== src/Cosmwasm.antt =====
-- What the contract takes from cosmwasm-std, cw-utils and cw2 (crates that are not part of the
-- repository): operations on integers and decimals, the text of a decimal, the host's address
-- check and the payment check. They are fields of a record that every definition takes as its
-- argument `c`; `Cosmwasm.Documented` states what their documentation promises.
-- A Uint128, Uint256 or Timestamp (in nanoseconds) is its value; a Decimal or Decimal256 is its
-- number of atomics, 18 of them after the point. Addresses and denominations are texts that are
-- only compared, so each text is a number here. `none` is the call's only error, or its panic.
pub mod Documented
use cw_streamswap.Base.{ℕ, ◌^◌, Option, List}

-- The bounds of the machine integers, and 10 ^ 18, the atomics of the decimal 1.
unfoldable pub u64_limit : ℕ
u64_limit = 2 ^ 64

unfoldable pub u128_limit : ℕ
u128_limit = 2 ^ 128

unfoldable pub u256_limit : ℕ
u256_limit = 2 ^ 256

unfoldable pub fractional : ℕ
fractional = 10 ^ 18

unfoldable pub nanos_per_second : ℕ
nanos_per_second = 10 ^ 9

pub record Coin : Type 0 where
  pub denom : ℕ
  pub amount : ℕ

pub record MessageInfo : Type 0 where
  pub sender : ℕ
  pub funds : List Coin

pub record Num : Type 0 where
  -- Uint256: the checked operations, and the operators that panic
  pub checked_add : ℕ → ℕ → Option ℕ
  pub checked_sub : ℕ → ℕ → Option ℕ
  pub checked_mul : ℕ → ℕ → Option ℕ
  pub checked_div : ℕ → ℕ → Option ℕ
  pub add : ℕ → ℕ → Option ℕ
  pub sub : ℕ → ℕ → Option ℕ
  pub mul : ℕ → ℕ → Option ℕ
  pub div : ℕ → ℕ → Option ℕ
  pub multiply_ratio : ℕ → ℕ → ℕ → Option ℕ
  -- Uint128::try_from a Uint256, which reading its printed form back amounts to
  pub to_uint128 : ℕ → Option ℕ
  -- Decimal
  pub decimal_from_ratio : ℕ → ℕ → Option ℕ
  pub decimal_denominator : ℕ
  -- Decimal256; `floor` is `d * Uint256::one()`
  pub decimal256_one : ℕ
  pub decimal256_from_ratio : ℕ → ℕ → Option ℕ
  pub decimal256_checked_add : ℕ → ℕ → Option ℕ
  pub decimal256_checked_sub : ℕ → ℕ → Option ℕ
  pub decimal256_checked_mul : ℕ → ℕ → Option ℕ
  pub decimal256_floor : ℕ → ℕ
  -- Timestamp
  pub seconds : ℕ → ℕ
  pub plus_nanos : ℕ → ℕ → Option ℕ

pub record DecimalText : Type 0 where
  -- Decimal256's `to_string` and `from_str`, on code points
  pub to_string : ℕ → List ℕ
  pub from_str : List ℕ → Option ℕ

pub record Api : Type 0 where
  pub addr_validate : ℕ → Option ℕ
  pub maybe_addr : Option ℕ → Option (Option ℕ)
  pub must_pay : MessageInfo → ℕ → Option ℕ

pub record Cosmwasm : Type 0 where
  pub num : Num
  pub text : DecimalText
  pub api : Api
