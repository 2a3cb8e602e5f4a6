-- ===== src/Contract/Finish/Total.antt =====
-- When the payments of finalizing and exiting (src/contract.rs) succeed.
use cw_streamswap.Base.{ℕ, ◌+◌, ◌-◌, ◌*◌, ◌^◌, ◌≤◌, ◌<◌, ◌≡◌, arith}
use cw_streamswap.Base.Division.{mul-div-le, div-one, mul_mono}
use cw_streamswap.Error.{ok, Returns, both}
use cw_streamswap.Cosmwasm.{u128_limit, u256_limit, fractional, Cosmwasm}
use cw_streamswap.Cosmwasm.Documented.{Documented, Documented-eq}
use cw_streamswap.State.{Config, Stream, Position}
use cw_streamswap.Contract.Finish.{fee_of, finalize_messages, exit_messages}
use cw_streamswap.Contract.Finish.Fees.{
  fee, sent_in_all, sent, when, fee_atomics, finalize_messages_sum, exit_messages_sum,
}

-- The fee on an amount that a coin can hold.
fee_of-eq :
    (c : Cosmwasm)
    → Documented c
    → (amount percent : ℕ) → amount < u128_limit
    → percent ≤ fractional
    → (fee_of c amount percent ≡ ok (fee amount percent)) × (fee amount percent ≤ amount)
unfolding fee_of u128_limit u256_limit fractional
fee_of-eq c d = rw (Documented-eq c d) (λ amount percent small part. ground (
  arith,
  fee_atomics amount percent,
  div-one (amount * 10 ^ 18),
  mul-div-le amount percent (10 ^ 18),
  mul_mono percent (10 ^ 18) amount,
))

finalize_succeeds :
    (c : Cosmwasm)
    → Documented c
    → (config : Config) (treasury : ℕ) (s : Stream) → s.spent_in < u128_limit
    → s.out_supply < u128_limit
    → s.out_remaining ≤ s.out_supply
    → s.stream_exit_fee_percent ≤ fractional
    → Returns (λ _. Unit {0}) (finalize_messages c config treasury s)
unfolding finalize_messages
finalize_succeeds c d config treasury s spent supply remaining percent =
    let f = fee_of-eq c d s.spent_in s.stream_exit_fee_percent spent percent in
    simp f.0 (
      ground (
        arith,
        f.1,
        d.num.checked_sub s.spent_in (fee s.spent_in s.stream_exit_fee_percent),
        d.num.to_uint128 (fee s.spent_in s.stream_exit_fee_percent),
        d.num.to_uint128 (s.spent_in - fee s.spent_in s.stream_exit_fee_percent),
        d.num.to_uint128 s.out_remaining,
        d.num.checked_sub s.out_supply s.out_remaining,
      ))

-- The payments of finalizing succeed for a stream whose amounts a coin can hold, with a fee of at
-- most one, and add up to what was spent, the creation fee and the out tokens that are left.
pub finalize_messages-Returns :
    (c : Cosmwasm)
    → Documented c
    → (config : Config) (treasury : ℕ) (s : Stream) (denom : ℕ) → s.spent_in < u128_limit
    → s.out_supply < u128_limit
    → s.out_remaining ≤ s.out_supply
    → s.stream_exit_fee_percent ≤ fractional
    → Returns
        (λ messages.
          sent_in_all denom messages
          ≡ when s.in_denom denom s.spent_in
            + when s.stream_creation_denom denom s.stream_creation_fee
            + when s.out_denom denom s.out_remaining)
        (finalize_messages c config treasury s)
finalize_messages-Returns c d config treasury s denom spent supply remaining percent =
    both _ _ (finalize_messages_sum c d config treasury s denom)
      (finalize_succeeds c d config treasury s spent supply remaining percent)

exit_succeeds :
    (c : Cosmwasm)
    → Documented c
    → (target : ℕ) (s : Stream) (p : Position) → p.spent < u128_limit
    → p.purchased < u128_limit
    → p.in_balance < u128_limit
    → p.shares ≤ s.shares
    → s.stream_exit_fee_percent ≤ fractional
    → Returns (λ _. Unit {0}) (exit_messages c target s p)
unfolding exit_messages
exit_succeeds c d target s p spent purchased balance shares percent =
    let f = fee_of-eq c d p.spent s.stream_exit_fee_percent spent percent in
    simp f.0 (
      ground (
        arith,
        f.1,
        d.num.checked_sub p.spent (fee p.spent s.stream_exit_fee_percent),
        d.num.to_uint128 p.purchased,
        d.num.to_uint128 p.in_balance,
        d.num.checked_sub s.shares p.shares,
      ))

-- The payments of an exit succeed for a position whose amounts a coin can hold, with no more shares
-- than its stream and a fee of at most one: its whole purchase and balance go to its address, and
-- the stream keeps the other shares.
pub exit_messages-Returns :
    (c : Cosmwasm)
    → Documented c
    → (target : ℕ) (s : Stream) (p : Position) (denom : ℕ) → p.spent < u128_limit
    → p.purchased < u128_limit
    → p.in_balance < u128_limit
    → p.shares ≤ s.shares
    → s.stream_exit_fee_percent ≤ fractional
    → Returns
        (λ (shares, messages).
          (shares + p.shares ≡ s.shares)
          × (sent target denom messages
              ≡ when s.out_denom denom p.purchased + when s.in_denom denom p.in_balance)
          × (sent_in_all denom messages ≡ sent target denom messages))
        (exit_messages c target s p)
exit_messages-Returns c d target s p denom spent purchased balance shares percent =
    both _ _ (exit_messages_sum c d target s p denom)
      (exit_succeeds c d target s p spent purchased balance shares percent)
