-- ===== src/Killswitch/Refund.antt =====
-- src/killswitch.rs: what subscribers and the treasury get back from a stream that is paused,
-- cancelled, or has ended below its threshold.
pub mod Repayment
use cw_streamswap.Base.{nat_key, pair_key, ℕ, not, Option, [], ◌∷◌, ltb, ◌==◌, if◌then◌else◌}
use cw_streamswap.Error.{
  ThresholdError, ContractError, Result, ok, ◌>>=◌, ◌>>◌, fail_if, or_threshold, unwrap,
}
use cw_streamswap.Cosmwasm.{MessageInfo, Cosmwasm}
use cw_streamswap.Dict.{load, remove}
use cw_streamswap.State.{
  Stream, Storage, finalized, cancelled, status_eq, is_paused, is_cancelled, is_killswitch_active,
}
use cw_streamswap.Threshold.{check_if_threshold_set, error_if_reached}
use cw_streamswap.Handler.{
  Outcome, load_stream, save_stream, save_position, target_of, check_access,
}
use cw_streamswap.Contract.Stream.{update_stream}
use cw_streamswap.Contract.Position.{sync_position}
use cw_streamswap.Contract.Withdraw.{take_out}
use cw_streamswap.Contract.Finish.{update_if_behind}
use cw_streamswap.Killswitch.Pause.{refund_out}

-- The stream itself is not updated while it is paused.
unfoldable pub execute_withdraw_paused :
    Cosmwasm → MessageInfo → ℕ → Option ℕ → Option ℕ → Storage → Outcome
execute_withdraw_paused c info stream_id cap operator_target store = do
  stream ← load_stream store stream_id
  fail_if (not (is_paused stream)) ContractError.stream_not_paused
  target ← target_of c info operator_target
  position ← load store.positions (stream_id, target)
  check_access info position.owner position.operator
  (_, _, position') ← sync_position c stream position
  (withdraw_amount, stream', position'') ← take_out c cap stream position'
  amount ← unwrap (c.num.to_uint128 withdraw_amount)
  ok (
    record { to_address = target; denom = stream'.in_denom; amount = amount } ∷ [],
    save_position (save_stream store stream_id stream') stream_id position''.owner position'',
  )

-- A stream that is not cancelled must have ended below a threshold that is set.
unfoldable pub check_refundable : Cosmwasm → ℕ → ℕ → Stream → Storage → Result (Unit {0})
check_refundable c now stream_id stream store =
    if not (is_cancelled stream)
    then (do
      fail_if (not (check_if_threshold_set stream_id store.thresholds))
          ContractError.stream_not_cancelled
      fail_if (is_paused stream) ContractError.stream_not_cancelled
      fail_if (ltb now stream.end_time) ContractError.stream_not_cancelled
      (_, _, stream') ← update_stream c now stream
      or_threshold (error_if_reached stream_id store.thresholds stream'))
    else ok tt

-- All that was paid in goes back; the stream's record stays as it is.
unfoldable pub execute_exit_cancelled :
    Cosmwasm → ℕ → MessageInfo → ℕ → Option ℕ → Storage → Outcome
execute_exit_cancelled c now info stream_id operator_target store = do
  stream ← load_stream store stream_id
  check_refundable c now stream_id stream store
  target ← target_of c info operator_target
  position ← load store.positions (stream_id, target)
  check_access info position.owner position.operator
  total_balance ← unwrap (c.num.add position.in_balance position.spent)
  amount ← unwrap (c.num.to_uint128 total_balance)
  ok (
    record { to_address = target; denom = stream.in_denom; amount = amount } ∷ [],
    record store { positions = remove store.positions (stream_id, position.owner) },
  )

unfoldable pub execute_cancel_stream_with_threshold :
    Cosmwasm → ℕ → MessageInfo → ℕ → Storage → Outcome
execute_cancel_stream_with_threshold c now info stream_id store = do
  stream ← load_stream store stream_id
  fail_if (ltb now stream.end_time) ContractError.stream_not_ended
  fail_if (not (info.sender == stream.treasury)) ContractError.unauthorized
  fail_if (is_killswitch_active stream) ContractError.stream_killswitch_active
  fail_if (status_eq stream.status finalized) ContractError.stream_already_finalized
  updated ← update_if_behind c now stream
  fail_if (not (check_if_threshold_set stream_id store.thresholds))
      (ContractError.threshold_error ThresholdError.threshold_not_set)
  or_threshold (error_if_reached stream_id store.thresholds updated)
  refund ← refund_out c updated
  ok (refund ∷ [], save_stream store stream_id (record updated { status = cancelled }))
