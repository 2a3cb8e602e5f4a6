-- ===== src/Entry.antt =====
-- The entry points of src/contract.rs and their messages (src/msg.rs). Every call of the contract
-- is `execute`, `sudo`, `instantiate`, `migrate` or a query.
use cw_streamswap.Base.{nat_key, ℕ, Option, ltb, if◌then◌else◌}
use cw_streamswap.Error.{ok, err, ◌>>=◌}
use cw_streamswap.Cosmwasm.{MessageInfo, Cosmwasm}
use cw_streamswap.State.{Storage}
use cw_streamswap.Handler.{Outcome, load_stream}
use cw_streamswap.Contract.Stream.{execute_update_stream}
use cw_streamswap.Contract.Position.{execute_update_position, execute_update_operator}
use cw_streamswap.Contract.Subscribe.{execute_subscribe, execute_subscribe_pending}
use cw_streamswap.Contract.Withdraw.{execute_withdraw, execute_withdraw_pending}
use cw_streamswap.Contract.Create.{CreateStream, execute_create_stream}
use cw_streamswap.Contract.Finish.{execute_finalize_stream, execute_exit_stream}
use cw_streamswap.Contract.Admin.{
  UpdateConfig, execute_update_protocol_admin, execute_update_config,
}
use cw_streamswap.Killswitch.Pause.{
  execute_pause_stream, execute_resume_stream, execute_cancel_stream, sudo_pause_stream,
  sudo_resume_stream, sudo_cancel_stream,
}
use cw_streamswap.Killswitch.Refund.{
  execute_withdraw_paused, execute_exit_cancelled, execute_cancel_stream_with_threshold,
}

pub data ExecuteMsg : Type 0 where
  create_stream : CreateStream → ExecuteMsg
  update_stream : (stream_id : ℕ) → ExecuteMsg
  update_protocol_admin : (new_protocol_admin : ℕ) → ExecuteMsg
  update_operator : (stream_id : ℕ) (new_operator : Option ℕ) → ExecuteMsg
  subscribe : (stream_id : ℕ) (operator_target operator : Option ℕ) → ExecuteMsg
  withdraw : (stream_id : ℕ) (cap operator_target : Option ℕ) → ExecuteMsg
  update_position : (stream_id : ℕ) (operator_target : Option ℕ) → ExecuteMsg
  finalize_stream : (stream_id : ℕ) (new_treasury : Option ℕ) → ExecuteMsg
  exit_stream : (stream_id : ℕ) (operator_target : Option ℕ) → ExecuteMsg
  pause_stream : (stream_id : ℕ) → ExecuteMsg
  withdraw_paused : (stream_id : ℕ) (cap operator_target : Option ℕ) → ExecuteMsg
  exit_cancelled : (stream_id : ℕ) (operator_target : Option ℕ) → ExecuteMsg
  cancel_stream_with_threshold : (stream_id : ℕ) → ExecuteMsg
  update_config : UpdateConfig → ExecuteMsg
  resume_stream : (stream_id : ℕ) → ExecuteMsg
  cancel_stream : (stream_id : ℕ) → ExecuteMsg

pub data SudoMsg : Type 0 where
  pause_stream cancel_stream resume_stream : (stream_id : ℕ) → SudoMsg

unfoldable pub execute : Cosmwasm → ℕ → MessageInfo → ExecuteMsg → Storage → Outcome
execute c now info (ExecuteMsg.create_stream msg) store = execute_create_stream c now info msg store
execute c now info (ExecuteMsg.update_operator stream_id new_operator) store =
    execute_update_operator c info stream_id new_operator store
execute c now info (ExecuteMsg.update_position stream_id operator_target) store =
    execute_update_position c now info stream_id operator_target store
execute c now info (ExecuteMsg.update_stream stream_id) store =
    execute_update_stream c now stream_id store
execute c now info (ExecuteMsg.cancel_stream_with_threshold stream_id) store =
    execute_cancel_stream_with_threshold c now info stream_id store
execute c now info (ExecuteMsg.subscribe stream_id operator_target operator) store = do
  stream ← load_stream store stream_id
  if ltb now stream.start_time
      then execute_subscribe_pending c now info stream_id operator operator_target stream store
      else execute_subscribe c now info stream_id operator operator_target stream store
execute c now info (ExecuteMsg.withdraw stream_id cap operator_target) store = do
  stream ← load_stream store stream_id
  if ltb now stream.start_time
      then execute_withdraw_pending c info stream_id stream cap operator_target store
      else execute_withdraw c now info stream_id stream cap operator_target store
execute c now info (ExecuteMsg.finalize_stream stream_id new_treasury) store =
    execute_finalize_stream c now info stream_id new_treasury store
execute c now info (ExecuteMsg.exit_stream stream_id operator_target) store =
    execute_exit_stream c now info stream_id operator_target store
execute c now info (ExecuteMsg.pause_stream stream_id) store =
    execute_pause_stream c now info stream_id store
execute c now info (ExecuteMsg.resume_stream stream_id) store =
    execute_resume_stream c now info stream_id store
execute c now info (ExecuteMsg.cancel_stream stream_id) store =
    execute_cancel_stream c info stream_id store
execute c now info (ExecuteMsg.withdraw_paused stream_id cap operator_target) store =
    execute_withdraw_paused c info stream_id cap operator_target store
execute c now info (ExecuteMsg.exit_cancelled stream_id operator_target) store =
    execute_exit_cancelled c now info stream_id operator_target store
execute c now info (ExecuteMsg.update_protocol_admin new_admin) store =
    execute_update_protocol_admin c info new_admin store
execute c now info (ExecuteMsg.update_config msg) store = execute_update_config c info msg store

unfoldable pub sudo : Cosmwasm → ℕ → SudoMsg → Storage → Outcome
sudo c now (SudoMsg.pause_stream stream_id) store = sudo_pause_stream c now stream_id store
sudo c now (SudoMsg.cancel_stream stream_id) store = sudo_cancel_stream c stream_id store
sudo c now (SudoMsg.resume_stream stream_id) store = sudo_resume_stream c now stream_id store

-- A call of the contract at a block's time.
pub data Call : Type 0 where
  by_user : MessageInfo → ExecuteMsg → Call
  by_governance : SudoMsg → Call

abbrev pub storage_after : Storage → Outcome → Storage
storage_after store (ok (messages, store')) = store'
storage_after store (err e) = store

-- What a call returns: its messages and the storage that it writes, or its error.
abbrev pub outcome : Cosmwasm → ℕ → Call → Storage → Outcome
outcome c now (by_user info msg) store = execute c now info msg store
outcome c now (by_governance msg) store = sudo c now msg store

-- The storage after a call: the host drops what a failed call has written.
unfoldable pub step : Cosmwasm → ℕ → Call → Storage → Storage
step c now call store = storage_after store (outcome c now call store)
