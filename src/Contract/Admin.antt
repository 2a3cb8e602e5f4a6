-- ===== src/Contract/Admin.antt =====
-- src/contract.rs: instantiation, the configuration and its administrator.
use cw_streamswap.Base.{ℕ, Bool, false, not, ◌||◌, Option, none, some, [], ltb, leb, ◌==◌}
use cw_streamswap.Error.{ContractError, ok, ◌>>=◌, ◌>>◌, fail_if, or_fail}
use cw_streamswap.Cosmwasm.{MessageInfo, Cosmwasm}
use cw_streamswap.State.{Config, Storage, unwrap_or}
use cw_streamswap.Handler.{Outcome, load_config}

pub record InstantiateMsg : Type 0 where
  pub min_stream_seconds : ℕ
  pub min_seconds_until_start_time : ℕ
  pub stream_creation_denom : ℕ
  pub stream_creation_fee : ℕ
  pub exit_fee_percent : ℕ
  pub fee_collector : ℕ
  pub protocol_admin : ℕ
  pub accepted_in_denom : ℕ

-- The name and version of this build, which `set_contract_version` writes.
pub record Build : Type 0 where
  pub contract_name : ℕ
  pub contract_version : ℕ

unfoldable pub instantiate : Cosmwasm → Build → InstantiateMsg → Storage → Outcome
instantiate c build msg store = do
  let store' = record store { contract_info = some (build.contract_name, build.contract_version) }
  fail_if (leb c.num.decimal256_one msg.exit_fee_percent || ltb msg.exit_fee_percent 0)
      ContractError.invalid_exit_fee_percent
  fail_if (msg.stream_creation_fee == 0) ContractError.invalid_stream_creation_fee
  fee_collector ← or_fail (c.api.addr_validate msg.fee_collector) ContractError.std
  protocol_admin ← or_fail (c.api.addr_validate msg.protocol_admin) ContractError.std
  let config : Config = record {
    min_stream_seconds = msg.min_stream_seconds;
    min_seconds_until_start_time = msg.min_seconds_until_start_time;
    accepted_in_denom = msg.accepted_in_denom;
    stream_creation_denom = msg.stream_creation_denom;
    stream_creation_fee = msg.stream_creation_fee;
    exit_fee_percent = msg.exit_fee_percent;
    fee_collector = fee_collector;
    protocol_admin = protocol_admin;
  }
  ok ([], record store' { config = some config })

unfoldable pub execute_update_protocol_admin : Cosmwasm → MessageInfo → ℕ → Storage → Outcome
execute_update_protocol_admin c info new_admin store = do
  config ← load_config store
  fail_if (not (info.sender == config.protocol_admin)) ContractError.unauthorized
  protocol_admin ← or_fail (c.api.addr_validate new_admin) ContractError.std
  ok ([], record store { config = some (record config { protocol_admin = protocol_admin }) })

-- The fields of `ExecuteMsg::UpdateConfig`.
pub record UpdateConfig : Type 0 where
  pub min_stream_duration : Option ℕ
  pub min_duration_until_start_time : Option ℕ
  pub stream_creation_denom : Option ℕ
  pub stream_creation_fee : Option ℕ
  pub fee_collector : Option ℕ
  pub accepted_in_denom : Option ℕ
  pub exit_fee_percent : Option ℕ

abbrev is_zero_fee : Option ℕ → Bool
is_zero_fee none = false
is_zero_fee (some fee) = fee == 0

abbrev is_bad_percent : Cosmwasm → Option ℕ → Bool
is_bad_percent c none = false
is_bad_percent c (some percent) = leb c.num.decimal256_one percent || ltb percent 0

unfoldable pub execute_update_config : Cosmwasm → MessageInfo → UpdateConfig → Storage → Outcome
execute_update_config c info msg store = do
  cfg ← load_config store
  fail_if (not (info.sender == cfg.protocol_admin)) ContractError.unauthorized
  fail_if (is_zero_fee msg.stream_creation_fee) ContractError.invalid_stream_creation_fee
  fail_if (is_bad_percent c msg.exit_fee_percent) ContractError.invalid_exit_fee_percent
  collector ← or_fail (c.api.maybe_addr msg.fee_collector) ContractError.std
  ok (
    [],
    record store {
      config = some (record cfg {
        min_stream_seconds = unwrap_or msg.min_stream_duration cfg.min_stream_seconds;
        min_seconds_until_start_time =
            unwrap_or msg.min_duration_until_start_time cfg.min_seconds_until_start_time;
        stream_creation_denom = unwrap_or msg.stream_creation_denom cfg.stream_creation_denom;
        stream_creation_fee = unwrap_or msg.stream_creation_fee cfg.stream_creation_fee;
        accepted_in_denom = unwrap_or msg.accepted_in_denom cfg.accepted_in_denom;
        fee_collector = unwrap_or collector cfg.fee_collector;
        exit_fee_percent = unwrap_or msg.exit_fee_percent cfg.exit_fee_percent;
      });
    },
  )
