-- ===== src/Contract/Subscribe.antt =====
-- src/contract.rs: paying in tokens into a stream, once it runs and before it starts.
pub mod Payments
pub mod Joining
use cw_streamswap.Base.{
  nat_key, pair_key, ℕ, false, not, Option, none, some, [], leb, ◌==◌, if◌then◌else◌,
}
use cw_streamswap.Error.{ContractError, Result, ok, ◌>>=◌, ◌>>◌, fail_if, or_fail}
use cw_streamswap.Cosmwasm.{MessageInfo, Cosmwasm}
use cw_streamswap.Dict.{may_load}
use cw_streamswap.State.{
  Stream, Position, Storage, waiting, active, status_eq, new_position, compute_shares_amount,
  is_killswitch_active,
}
use cw_streamswap.Handler.{Outcome, save_stream, save_position, target_of, check_access}
use cw_streamswap.Contract.Stream.{update_stream}
use cw_streamswap.Contract.Position.{sync_position}

-- The payment enters a position that is there already.
unfoldable pub top_up : Cosmwasm → ℕ → ℕ → Position → Result Position
top_up c in_amount new_shares position = do
  in_balance ← or_fail (c.num.checked_add position.in_balance in_amount) ContractError.overflow
  shares ← or_fail (c.num.checked_add position.shares new_shares) ContractError.overflow
  ok (record position { in_balance = in_balance; shares = shares })

-- The last lines of both handlers.
unfoldable pub take_in : Cosmwasm → ℕ → ℕ → Stream → Result Stream
take_in c in_amount new_shares stream = do
  in_supply ← or_fail (c.num.checked_add stream.in_supply in_amount) ContractError.overflow
  shares ← or_fail (c.num.checked_add stream.shares new_shares) ContractError.overflow
  ok (record stream { in_supply = in_supply; shares = shares })

-- The match on the position, in a running stream: the stream, the position and the shares minted.
unfoldable pub join :
    Cosmwasm
    → ℕ
    → MessageInfo
    → Option ℕ
    → ℕ
    → ℕ
    → Stream
    → Option Position
    → Result (ℕ × Stream × Position)
join c now info operator target in_amount stream none = do
  fail_if (not (target == info.sender)) ContractError.unauthorized
  (_, _, stream') ← update_stream c now stream
  new_shares ← compute_shares_amount c stream' in_amount false
  ok (
    new_shares,
    stream',
    new_position info.sender in_amount new_shares (some stream'.dist_index) now operator,
  )
join c now info operator target in_amount stream (some position) = do
  check_access info position.owner position.operator
  (_, _, stream') ← update_stream c now stream
  new_shares ← compute_shares_amount c stream' in_amount false
  (_, _, position') ← sync_position c stream' position
  position'' ← top_up c in_amount new_shares position'
  ok (new_shares, stream', position'')

abbrev pub activated : Stream → Stream
activated stream =
    if status_eq stream.status waiting then record stream { status = active } else stream

unfoldable pub execute_subscribe :
    Cosmwasm → ℕ → MessageInfo → ℕ → Option ℕ → Option ℕ → Stream → Storage → Outcome
execute_subscribe c now info stream_id operator operator_target stream store = do
  fail_if (is_killswitch_active stream) ContractError.stream_killswitch_active
  fail_if (leb stream.end_time now) ContractError.stream_ended
  in_amount ← or_fail (c.api.must_pay info stream.in_denom) ContractError.payment
  operator' ← or_fail (c.api.maybe_addr operator) ContractError.std
  target ← target_of c info operator_target
  (new_shares, stream', position) ←
      join c now info operator' target in_amount (activated stream)
        (may_load store.positions (stream_id, target))
  stream'' ← take_in c in_amount new_shares stream'
  ok ([], save_stream (save_position store stream_id target position) stream_id stream'')

-- The same before the start, where neither the stream nor the position is updated.
unfoldable pub join_pending :
    Cosmwasm → ℕ → MessageInfo → Option ℕ → ℕ → ℕ → ℕ → Stream → Option Position → Result Position
join_pending c now info operator target in_amount new_shares stream none = do
  fail_if (not (target == info.sender)) ContractError.unauthorized
  ok (new_position info.sender in_amount new_shares (some stream.dist_index) now operator)
join_pending c now info operator target in_amount new_shares stream (some position) = do
  check_access info position.owner position.operator
  top_up c in_amount new_shares position

unfoldable pub execute_subscribe_pending :
    Cosmwasm → ℕ → MessageInfo → ℕ → Option ℕ → Option ℕ → Stream → Storage → Outcome
execute_subscribe_pending c now info stream_id operator operator_target stream store = do
  fail_if (is_killswitch_active stream) ContractError.stream_killswitch_active
  in_amount ← or_fail (c.api.must_pay info stream.in_denom) ContractError.payment
  new_shares ← compute_shares_amount c stream in_amount false
  operator' ← or_fail (c.api.maybe_addr operator) ContractError.std
  target ← target_of c info operator_target
  position ←
      join_pending c now info operator' target in_amount new_shares stream
        (may_load store.positions (stream_id, target))
  stream' ← take_in c in_amount new_shares stream
  ok ([], save_stream (save_position store stream_id target position) stream_id stream')
