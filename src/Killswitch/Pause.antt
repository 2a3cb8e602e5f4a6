-- ===== src/Killswitch/Pause.antt =====
-- src/killswitch.rs: pausing, resuming and cancelling, by the protocol's administrator or by
-- governance (`sudo`).
pub mod Delay
use cw_streamswap.Base.{nat_key, ℕ, Bool, not, none, some, [], ◌∷◌, ltb, leb, ◌==◌}
use cw_streamswap.Error.{ContractError, Result, ok, ◌>>=◌, ◌>>◌, fail_if, unwrap, sub_u64}
use cw_streamswap.Cosmwasm.{MessageInfo, Cosmwasm}
use cw_streamswap.State.{
  Config, Stream, Storage, paused, active, cancelled, status_eq, is_paused, is_cancelled,
  is_killswitch_active,
}
use cw_streamswap.Handler.{Send, Outcome, load_config, load_stream, save_stream}
use cw_streamswap.Contract.Stream.{update_stream}

abbrev pub pause_stream : ℕ → Stream → Stream
pause_stream now stream = record stream { status = paused; pause_date = some now }

-- The checks and the update that `execute_pause_stream` and `sudo_pause_stream` share.
unfoldable pub sudo_pause_stream : Cosmwasm → ℕ → ℕ → Storage → Outcome
sudo_pause_stream c now stream_id store = do
  stream ← load_stream store stream_id
  fail_if (leb stream.end_time now) ContractError.stream_ended
  fail_if (ltb now stream.start_time) ContractError.stream_not_started
  fail_if (is_killswitch_active stream) ContractError.stream_killswitch_active
  (_, _, stream') ← update_stream c now stream
  ok ([], save_stream store stream_id (pause_stream now stream'))

abbrev is_admin : MessageInfo → Config → Bool
is_admin info config = info.sender == config.protocol_admin

unfoldable pub execute_pause_stream : Cosmwasm → ℕ → MessageInfo → ℕ → Storage → Outcome
execute_pause_stream c now info stream_id store = do
  config ← load_config store
  fail_if (not (is_admin info config)) ContractError.unauthorized
  stream ← load_stream store stream_id
  fail_if (leb stream.end_time now) ContractError.stream_ended
  fail_if (ltb now stream.start_time) ContractError.stream_not_started
  fail_if (is_killswitch_active stream) ContractError.stream_killswitch_active
  (_, _, stream') ← update_stream c now stream
  ok ([], save_stream store stream_id (pause_stream now stream'))

-- The end and the last update are put off by the length of the pause.
unfoldable pub postponed : Cosmwasm → ℕ → Stream → Result Stream
postponed c now stream = do
  pause_date ← unwrap stream.pause_date
  length ← sub_u64 now pause_date
  end_time ← unwrap (c.num.plus_nanos stream.end_time length)
  last_updated ← unwrap (c.num.plus_nanos stream.last_updated length)
  ok (record stream { end_time = end_time; last_updated = last_updated; status = active })

unfoldable pub execute_resume_stream : Cosmwasm → ℕ → MessageInfo → ℕ → Storage → Outcome
execute_resume_stream c now info stream_id store = do
  stream ← load_stream store stream_id
  cfg ← load_config store
  fail_if (is_cancelled stream) ContractError.stream_is_cancelled
  fail_if (not (status_eq stream.status paused)) ContractError.stream_not_paused
  fail_if (not (is_admin info cfg)) ContractError.unauthorized
  stream' ← postponed c now stream
  ok ([], save_stream store stream_id stream')

-- Governance's resume also forgets the date of the pause.
unfoldable pub sudo_resume_stream : Cosmwasm → ℕ → ℕ → Storage → Outcome
sudo_resume_stream c now stream_id store = do
  stream ← load_stream store stream_id
  fail_if (is_cancelled stream) ContractError.stream_is_cancelled
  fail_if (not (is_paused stream)) ContractError.stream_not_paused
  stream' ← postponed c now stream
  ok ([], save_stream store stream_id (record stream' { pause_date = none }))

-- The out tokens go back to the treasury.
unfoldable pub refund_out : Cosmwasm → Stream → Result Send
refund_out c stream = do
  out_supply ← unwrap (c.num.to_uint128 stream.out_supply)
  ok (record { to_address = stream.treasury; denom = stream.out_denom; amount = out_supply })

-- Both cancellations from their status checks on: the out tokens and the creation fee go back.
unfoldable pub sudo_cancel_stream : Cosmwasm → ℕ → Storage → Outcome
sudo_cancel_stream c stream_id store = do
  stream ← load_stream store stream_id
  fail_if (is_cancelled stream) ContractError.stream_is_cancelled
  fail_if (not (is_paused stream)) ContractError.stream_not_paused
  refund ← refund_out c stream
  let fee : Send = record {
    to_address = stream.treasury;
    denom = stream.stream_creation_denom;
    amount = stream.stream_creation_fee;
  }
  ok (refund ∷ fee ∷ [], save_stream store stream_id (record stream { status = cancelled }))

unfoldable pub execute_cancel_stream : Cosmwasm → MessageInfo → ℕ → Storage → Outcome
execute_cancel_stream c info stream_id store = do
  cfg ← load_config store
  fail_if (not (is_admin info cfg)) ContractError.unauthorized
  sudo_cancel_stream c stream_id store
