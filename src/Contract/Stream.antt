-- ===== src/Contract/Stream.antt =====
-- src/contract.rs: the release of a stream's tokens over time.
pub mod Ratio
pub mod Release
use cw_streamswap.Base.{nat_key, ℕ, ◌-◌, not, ◌&&◌, ◌||◌, [], ltb, ◌==◌, if◌then◌else◌}
use cw_streamswap.Error.{ContractError, Result, ok, ◌>>=◌, ◌>>◌, fail_if, or_fail, unwrap}
use cw_streamswap.Cosmwasm.{Cosmwasm}
use cw_streamswap.State.{Stream, Storage, is_paused}
use cw_streamswap.Handler.{Outcome, load_stream, save_stream}

-- The share, as a Decimal, of what is left of the stream that has passed since the last update.
-- `-` is the saturating subtraction.
unfoldable pub calculate_diff : Cosmwasm → ℕ → ℕ → ℕ → Result ℕ
calculate_diff c end_time last_updated now =
    let now' = if ltb end_time now then end_time else now in
    let numerator = now' - last_updated in
    let denominator = end_time - last_updated in
    if denominator == 0 || numerator == 0
    then ok 0
    else unwrap (c.num.decimal_from_ratio numerator denominator)

-- The inner branch of `update_stream`: a new distribution raises the index and sets the price.
unfoldable pub release_out : Cosmwasm → ℕ → ℕ → Stream → Result Stream
release_out c new_distribution_balance spent_in stream =
    if not (new_distribution_balance == 0)
    then (do
      out_remaining ←
          or_fail (c.num.checked_sub stream.out_remaining new_distribution_balance)
            ContractError.overflow
      step ← unwrap (c.num.decimal256_from_ratio new_distribution_balance stream.shares)
      dist_index ←
          or_fail (c.num.decimal256_checked_add stream.dist_index step) ContractError.overflow
      price ← unwrap (c.num.decimal256_from_ratio spent_in new_distribution_balance)
      ok (record stream {
        out_remaining = out_remaining;
        dist_index = dist_index;
        current_streamed_price = price;
      }))
    else ok stream

-- The outer branch: in tokens are spent and out tokens released at the same ratio.
unfoldable pub distribute : Cosmwasm → ℕ → Stream → Result (ℕ × Stream)
distribute c diff stream =
    if not (stream.shares == 0) && not (diff == 0)
    then (do
      new_distribution_balance ←
          unwrap (c.num.multiply_ratio stream.out_remaining diff c.num.decimal_denominator)
      spent ← unwrap (c.num.multiply_ratio stream.in_supply diff c.num.decimal_denominator)
      spent_in ← or_fail (c.num.checked_add stream.spent_in spent) ContractError.overflow
      in_supply ← or_fail (c.num.checked_sub stream.in_supply spent) ContractError.overflow
      stream' ←
          release_out c new_distribution_balance spent
            (record stream { spent_in = spent_in; in_supply = in_supply })
      ok (new_distribution_balance, stream'))
    else ok (0, stream)

abbrev pub touched : ℕ → Stream → ℕ
touched now stream = if ltb now stream.start_time then stream.start_time else now

-- The ratio, the amount distributed and the stream after the update.
unfoldable pub update_stream : Cosmwasm → ℕ → Stream → Result (ℕ × ℕ × Stream)
update_stream c now stream = do
  diff ← calculate_diff c stream.end_time stream.last_updated now
  (new_distribution_balance, stream') ← distribute c diff stream
  ok (diff, new_distribution_balance, record stream' { last_updated = touched now stream' })

unfoldable pub execute_update_stream : Cosmwasm → ℕ → ℕ → Storage → Outcome
execute_update_stream c now stream_id store = do
  stream ← load_stream store stream_id
  fail_if (is_paused stream) ContractError.stream_paused
  (_, _, stream') ← update_stream c now stream
  ok ([], save_stream store stream_id stream')
