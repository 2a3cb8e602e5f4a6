-- ===== src/Contract/Finish.antt =====
-- src/contract.rs: after the end, the treasury finalizes the stream and each position exits.
pub mod Fees
pub mod Once
pub mod Total
use cw_streamswap.Base.{
  nat_key, pair_key, ℕ, not, Option, [], List, ◌∷◌, ◌++◌, ltb, leb, ◌==◌, if◌then◌else◌,
}
use cw_streamswap.Error.{
  ContractError, Result, ok, ◌>>=◌, ◌>>◌, fail_if, or_fail, or_threshold, unwrap,
}
use cw_streamswap.Cosmwasm.{MessageInfo, Cosmwasm}
use cw_streamswap.Dict.{load, remove}
use cw_streamswap.State.{
  Config, Stream, Position, Storage, active, finalized, status_eq, unwrap_or, is_killswitch_active,
}
use cw_streamswap.Threshold.{error_if_not_reached}
use cw_streamswap.Handler.{
  Send, Outcome, load_config, load_stream, save_stream, target_of, check_access,
}
use cw_streamswap.Contract.Stream.{update_stream}
use cw_streamswap.Contract.Position.{sync_position}

-- `if stream.last_updated < stream.end_time { update_stream(..)?; }`
unfoldable pub update_if_behind : Cosmwasm → ℕ → Stream → Result Stream
update_if_behind c now stream =
    if ltb stream.last_updated stream.end_time
    then (do (_, _, stream') ← update_stream c now stream; ok stream')
    else ok stream

-- `Decimal256::from_ratio(amount, 1).checked_mul(fee)? * Uint256::one()`
unfoldable pub fee_of : Cosmwasm → ℕ → ℕ → Result ℕ
fee_of c amount percent = do
  whole ← unwrap (c.num.decimal256_from_ratio amount 1)
  fee ← or_fail (c.num.decimal256_checked_mul whole percent) ContractError.overflow
  ok (c.num.decimal256_floor fee)

abbrev pub closed : Stream → Stream
closed stream =
    if status_eq stream.status active then record stream { status = finalized } else stream

-- The payments of `execute_finalize_stream`.
unfoldable pub finalize_messages : Cosmwasm → Config → ℕ → Stream → Result (List Send)
finalize_messages c config treasury stream = do
  swap_fee ← fee_of c stream.spent_in stream.stream_exit_fee_percent
  creator_revenue ← or_fail (c.num.checked_sub stream.spent_in swap_fee) ContractError.overflow
  revenue ← or_fail (c.num.to_uint128 creator_revenue) ContractError.conversion_overflow_error
  swap_fee_128 ← or_fail (c.num.to_uint128 swap_fee) ContractError.conversion_overflow_error
  let revenue_msg : Send = record {
    to_address = treasury;
    denom = stream.in_denom;
    amount = revenue;
  }
  let creation_fee_msg : Send = record {
    to_address = config.fee_collector;
    denom = stream.stream_creation_denom;
    amount = stream.stream_creation_fee;
  }
  let swap_fee_msg : Send = record {
    to_address = config.fee_collector;
    denom = stream.in_denom;
    amount = swap_fee_128;
  }
  let messages =
      if not (stream.spent_in == 0)
      then revenue_msg ∷ creation_fee_msg ∷ swap_fee_msg ∷ []
      else creation_fee_msg ∷ []
  messages' ←
      (if ltb 0 stream.out_remaining
        then (do
          remaining_out ←
              or_fail (c.num.to_uint128 stream.out_remaining)
                ContractError.conversion_overflow_error
          ok (
              messages
              ++ record { to_address = treasury; denom = stream.out_denom; amount = remaining_out }
                ∷ []))
        else ok messages)
  total_sold ←
      or_fail (c.num.checked_sub stream.out_supply stream.out_remaining) ContractError.overflow
  ok messages'

unfoldable pub execute_finalize_stream :
    Cosmwasm → ℕ → MessageInfo → ℕ → Option ℕ → Storage → Outcome
execute_finalize_stream c now info stream_id new_treasury store = do
  stream ← load_stream store stream_id
  fail_if (status_eq stream.status finalized) ContractError.stream_already_finalized
  fail_if (is_killswitch_active stream) ContractError.stream_killswitch_active
  fail_if (not (stream.treasury == info.sender)) ContractError.unauthorized
  fail_if (leb now stream.end_time) ContractError.stream_not_ended
  updated ← update_if_behind c now stream
  or_threshold (error_if_not_reached stream_id store.thresholds (closed updated))
  let store' = save_stream store stream_id (closed updated)
  config ← load_config store'
  given ← or_fail (c.api.maybe_addr new_treasury) ContractError.std
  let treasury = unwrap_or given updated.treasury
  messages ← finalize_messages c config treasury (closed updated)
  ok (messages, store')

-- The payments of `execute_exit_stream`, and the shares that the stream keeps.
unfoldable pub exit_messages : Cosmwasm → ℕ → Stream → Position → Result (ℕ × List Send)
exit_messages c target stream position = do
  swap_fee ← fee_of c position.spent stream.stream_exit_fee_percent
  purchased ← or_fail (c.num.to_uint128 position.purchased) ContractError.conversion_overflow_error
  let send_msg : Send = record { to_address = target; denom = stream.out_denom; amount = purchased }
  shares ← or_fail (c.num.checked_sub stream.shares position.shares) ContractError.overflow
  net_spent ← or_fail (c.num.checked_sub position.spent swap_fee) ContractError.overflow
  if not (position.in_balance == 0)
      then (do
        unspent ←
            or_fail (c.num.to_uint128 position.in_balance) ContractError.conversion_overflow_error
        ok (
          shares,
          send_msg ∷ record { to_address = target; denom = stream.in_denom; amount = unspent } ∷ [],
        ))
      else ok (shares, send_msg ∷ [])

unfoldable pub execute_exit_stream : Cosmwasm → ℕ → MessageInfo → ℕ → Option ℕ → Storage → Outcome
execute_exit_stream c now info stream_id operator_target store = do
  stream ← load_stream store stream_id
  _config ← load_config store
  fail_if (is_killswitch_active stream) ContractError.stream_killswitch_active
  fail_if (leb now stream.end_time) ContractError.stream_not_ended
  updated ← update_if_behind c now stream
  or_threshold (error_if_not_reached stream_id store.thresholds updated)
  target ← target_of c info operator_target
  position ← load store.positions (stream_id, target)
  check_access info position.owner position.operator
  (_, _, position') ← sync_position c updated position
  (shares, messages) ← exit_messages c target updated position'
  let store' = save_stream store stream_id (record updated { shares = shares })
  ok (messages, record store' { positions = remove store.positions (stream_id, position'.owner) })
