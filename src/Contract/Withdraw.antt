-- ===== src/Contract/Withdraw.antt =====
-- src/contract.rs: taking unspent in tokens back out, while the stream runs and before it starts.
pub mod Amounts
pub mod Total
use cw_streamswap.Base.{nat_key, pair_key, ℕ, true, Option, [], ◌∷◌, ltb, leb, ◌==◌, if◌then◌else◌}
use cw_streamswap.Error.{ContractError, Result, ok, ◌>>=◌, ◌>>◌, fail_if, or_fail}
use cw_streamswap.Cosmwasm.{MessageInfo, Cosmwasm}
use cw_streamswap.Dict.{load}
use cw_streamswap.State.{
  Stream, Position, Storage, unwrap_or, compute_shares_amount, is_killswitch_active,
}
use cw_streamswap.Handler.{Outcome, save_stream, save_position, target_of, check_access}
use cw_streamswap.Contract.Stream.{update_stream}
use cw_streamswap.Contract.Position.{sync_position}

-- The shares that a withdrawal burns: all of them for the whole balance.
unfoldable pub burnt_shares : Cosmwasm → Stream → Position → ℕ → Result ℕ
burnt_shares c stream position withdraw_amount =
    if withdraw_amount == position.in_balance
    then ok position.shares
    else compute_shares_amount c stream withdraw_amount true

-- What the three withdrawals do once the position is up to date: the amount, and what they save.
unfoldable pub take_out : Cosmwasm → Option ℕ → Stream → Position → Result (ℕ × Stream × Position)
take_out c cap stream position = do
  let withdraw_amount = unwrap_or cap position.in_balance
  fail_if (ltb position.in_balance withdraw_amount)
      (ContractError.withdraw_amount_exceeds_balance withdraw_amount)
  fail_if (withdraw_amount == 0) ContractError.invalid_withdraw_amount
  shares_amount ← burnt_shares c stream position withdraw_amount
  in_supply ← or_fail (c.num.checked_sub stream.in_supply withdraw_amount) ContractError.overflow
  shares ← or_fail (c.num.checked_sub stream.shares shares_amount) ContractError.overflow
  in_balance ←
      or_fail (c.num.checked_sub position.in_balance withdraw_amount) ContractError.overflow
  position_shares ← or_fail (c.num.checked_sub position.shares shares_amount) ContractError.overflow
  ok (
    withdraw_amount,
    record stream { in_supply = in_supply; shares = shares },
    record position { in_balance = in_balance; shares = position_shares },
  )

unfoldable pub execute_withdraw :
    Cosmwasm → ℕ → MessageInfo → ℕ → Stream → Option ℕ → Option ℕ → Storage → Outcome
execute_withdraw c now info stream_id stream cap operator_target store = do
  fail_if (is_killswitch_active stream) ContractError.stream_killswitch_active
  fail_if (leb stream.end_time now) ContractError.stream_ended
  target ← target_of c info operator_target
  position ← load store.positions (stream_id, target)
  check_access info position.owner position.operator
  (_, _, stream') ← update_stream c now stream
  (_, _, position') ← sync_position c stream' position
  (withdraw_amount, stream'', position'') ← take_out c cap stream' position'
  amount ← or_fail (c.num.to_uint128 withdraw_amount) ContractError.conversion_overflow_error
  ok (
    record { to_address = target; denom = stream''.in_denom; amount = amount } ∷ [],
    save_position (save_stream store stream_id stream'') stream_id position''.owner position'',
  )

unfoldable pub execute_withdraw_pending :
    Cosmwasm → MessageInfo → ℕ → Stream → Option ℕ → Option ℕ → Storage → Outcome
execute_withdraw_pending c info stream_id stream cap operator_target store = do
  target ← target_of c info operator_target
  position ← load store.positions (stream_id, target)
  check_access info position.owner position.operator
  (withdraw_amount, stream', position') ← take_out c cap stream position
  amount ← or_fail (c.num.to_uint128 withdraw_amount) ContractError.conversion_overflow_error
  ok (
    record { to_address = target; denom = stream'.in_denom; amount = amount } ∷ [],
    save_position (save_stream store stream_id stream') stream_id position'.owner position',
  )
