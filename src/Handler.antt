-- ===== src/Handler.antt =====
-- What every handler of the contract shares: the messages that it returns, and the first steps
-- that src/contract.rs and src/killswitch.rs repeat.
use cw_streamswap.Base.{nat_key, pair_key, ℕ, Bool, true, not, ◌&&◌, Option, none, some, List, ◌==◌}
use cw_streamswap.Error.{ContractError, Result, ok, ◌>>=◌, fail_if, or_fail}
use cw_streamswap.Cosmwasm.{MessageInfo, Cosmwasm}
use cw_streamswap.Dict.{load, save}
use cw_streamswap.State.{Config, Stream, Position, Storage, unwrap_or}

-- `BankMsg::Send` of one coin.
pub record Send : Type 0 where
  pub to_address : ℕ
  pub denom : ℕ
  pub amount : ℕ

-- A handler's messages and the storage that it leaves. The host keeps the storage of before where
-- a handler fails; attributes and events are left out.
abbrev pub Outcome : Type 0
Outcome = Result (List Send × Storage)

abbrev pub load_config : Storage → Result Config
load_config store = or_fail store.config ContractError.std

abbrev pub load_stream : Storage → ℕ → Result Stream
load_stream store stream_id = load store.streams stream_id

abbrev pub save_stream : Storage → ℕ → Stream → Storage
save_stream store stream_id stream = record store { streams = save store.streams stream_id stream }

abbrev pub save_position : Storage → ℕ → ℕ → Position → Storage
save_position store stream_id addr position = record store {
  positions = save store.positions (stream_id, addr) position;
}

-- `maybe_addr(deps.api, operator_target)?.unwrap_or_else(|| info.sender.clone())`
abbrev pub target_of : Cosmwasm → MessageInfo → Option ℕ → Result ℕ
target_of c info operator_target = do
  addr ← or_fail (c.api.maybe_addr operator_target) ContractError.std
  ok (unwrap_or addr info.sender)

abbrev differs : Option ℕ → ℕ → Bool
differs none sender = true
differs (some operator) sender = not (operator == sender)

unfoldable pub check_access : MessageInfo → ℕ → Option ℕ → Result (Unit {0})
check_access info position_owner position_operator =
    fail_if (not (position_owner == info.sender) && differs position_operator info.sender)
      ContractError.unauthorized
