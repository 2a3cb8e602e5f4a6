-- ===== src/Contract/Position.antt =====
-- src/contract.rs: what a position has bought and spent, and its operator.
pub mod Accounting
pub mod Total
use cw_streamswap.Base.{nat_key, pair_key, ℕ, Option, [], ◌==◌, if◌then◌else◌}
use cw_streamswap.Error.{ContractError, Result, ok, ◌>>=◌, ◌>>◌, fail_if, or_fail, unwrap}
use cw_streamswap.Cosmwasm.{MessageInfo, Cosmwasm}
use cw_streamswap.Dict.{load}
use cw_streamswap.Helpers.{get_decimals}
use cw_streamswap.State.{Position, Stream, Storage, is_paused}
use cw_streamswap.Handler.{
  Outcome, load_stream, save_stream, save_position, target_of, check_access,
}
use cw_streamswap.Contract.Stream.{update_stream}

-- The out tokens bought (a Decimal256) since the position's index.
unfoldable pub purchase : Cosmwasm → ℕ → Position → Result ℕ
purchase c index_diff position = do
  shares ← unwrap (c.num.decimal256_from_ratio position.shares 1)
  bought ← or_fail (c.num.decimal256_checked_mul shares index_diff) ContractError.overflow
  or_fail (c.num.decimal256_checked_add bought position.pending_purchase) ContractError.overflow

-- The in tokens that the position's shares still stand for.
unfoldable pub remaining_in : Cosmwasm → ℕ → ℕ → Position → Result ℕ
remaining_in c stream_shares stream_in_supply position = do
  product ← or_fail (c.num.checked_mul stream_in_supply position.shares) ContractError.overflow
  or_fail (c.num.checked_div product stream_shares) ContractError.divide_by_zero_error

-- The branch of `update_position` for a stream that has shares.
unfoldable pub settle : Cosmwasm → ℕ → ℕ → ℕ → Position → Result (ℕ × ℕ × Position)
settle c index_diff stream_shares stream_in_supply position = do
  purchased ← purchase c index_diff position
  decimals ← get_decimals c purchased
  in_remaining ← remaining_in c stream_shares stream_in_supply position
  spent ← or_fail (c.num.checked_sub position.in_balance in_remaining) ContractError.overflow
  all_spent ← or_fail (c.num.checked_add position.spent spent) ContractError.overflow
  let whole = c.num.decimal256_floor purchased
  all_purchased ← or_fail (c.num.checked_add position.purchased whole) ContractError.overflow
  ok (
    whole,
    spent,
    record position {
      spent = all_spent;
      in_balance = in_remaining;
      pending_purchase = decimals;
      purchased = all_purchased;
    },
  )

-- The whole out tokens purchased, the in tokens spent and the position after the update.
unfoldable pub update_position : Cosmwasm → ℕ → ℕ → ℕ → ℕ → Position → Result (ℕ × ℕ × Position)
update_position c stream_dist_index stream_shares stream_last_updated stream_in_supply position = do
  index_diff ←
      or_fail (c.num.decimal256_checked_sub stream_dist_index position.index) ContractError.overflow
  (purchased, spent, position') ←
      if stream_shares == 0
      then ok (0, 0, position)
      else settle c index_diff stream_shares stream_in_supply position
  ok (
    purchased,
    spent,
    record position' { index = stream_dist_index; last_updated = stream_last_updated },
  )

-- `update_position` at the stream's own fields, as every handler calls it.
abbrev pub sync_position : Cosmwasm → Stream → Position → Result (ℕ × ℕ × Position)
sync_position c stream position =
    update_position c stream.dist_index stream.shares stream.last_updated stream.in_supply position

unfoldable pub execute_update_position :
    Cosmwasm → ℕ → MessageInfo → ℕ → Option ℕ → Storage → Outcome
execute_update_position c now info stream_id operator_target store = do
  target ← target_of c info operator_target
  position ← load store.positions (stream_id, target)
  check_access info position.owner position.operator
  stream ← load_stream store stream_id
  fail_if (is_paused stream) ContractError.stream_paused
  (_, _, stream') ← update_stream c now stream
  (_, _, position') ← sync_position c stream' position
  ok ([], save_position (save_stream store stream_id stream') stream_id position'.owner position')

unfoldable pub execute_update_operator : Cosmwasm → MessageInfo → ℕ → Option ℕ → Storage → Outcome
execute_update_operator c info stream_id operator store = do
  position ← load store.positions (stream_id, info.sender)
  operator' ← or_fail (c.api.maybe_addr operator) ContractError.std
  ok ([], save_position store stream_id info.sender (record position { operator = operator' }))
