-- ===== src/Contract/Create.antt =====
-- src/contract.rs: creating a stream, which pays its creation fee and its out tokens.
use cw_streamswap.Base.{
  nat_key, ℕ, Bool, false, not, ◌&&◌, ◌||◌, Option, none, some, List, [], ◌∷◌, ltb, ◌==◌,
  if◌then◌else◌,
}
use cw_streamswap.Error.{
  ContractError, Result, ok, ◌>>=◌, ◌>>◌, fail_if, or_fail, or_threshold, unwrap, sub_u64,
}
use cw_streamswap.Cosmwasm.{Coin, MessageInfo, Cosmwasm}
use cw_streamswap.Helpers.{check_name_and_url}
use cw_streamswap.State.{Text, Config, Storage, new_stream, next_stream_id}
use cw_streamswap.Threshold.{set_threshold_if_any}
use cw_streamswap.Handler.{Outcome, load_config, save_stream}

-- The fields of `ExecuteMsg::CreateStream`.
pub record CreateStream : Type 0 where
  pub treasury : ℕ
  pub name : Text
  pub url : Option Text
  pub in_denom : ℕ
  pub out_denom : ℕ
  pub out_supply : ℕ
  pub start_time : ℕ
  pub end_time : ℕ
  pub threshold : Option ℕ

-- `funds.iter().find(|p| p.denom == denom)`
unfoldable pub find_coin : ℕ → List Coin → Option Coin
find_coin denom [] = none
find_coin denom (x ∷ xs) = if x.denom == denom then some x else find_coin denom xs

-- `funds.iter().any(|p| p.denom != a && p.denom != b)`
unfoldable pub any_other : ℕ → ℕ → List Coin → Bool
any_other a b [] = false
any_other a b (x ∷ xs) = (not (x.denom == a) && not (x.denom == b)) || any_other a b xs

-- The checks on times, denominations and supply, in the order of the source.
unfoldable pub check_terms : Cosmwasm → ℕ → Config → CreateStream → Result (Unit {0})
check_terms c now config msg = do
  fail_if (ltb msg.end_time msg.start_time) ContractError.stream_invalid_end_time
  fail_if (ltb msg.start_time now) ContractError.stream_invalid_start_time
  duration ← sub_u64 (c.num.seconds msg.end_time) (c.num.seconds msg.start_time)
  fail_if (ltb duration config.min_stream_seconds) ContractError.stream_duration_too_short
  lead ← sub_u64 (c.num.seconds msg.start_time) (c.num.seconds now)
  fail_if (ltb lead config.min_seconds_until_start_time) ContractError.stream_starts_too_soon
  fail_if (not (msg.in_denom == config.accepted_in_denom)) ContractError.in_denom_is_not_accepted
  fail_if (msg.in_denom == msg.out_denom) ContractError.same_denom_on_each_side
  fail_if (ltb msg.out_supply 1) ContractError.zero_out_supply

-- The coins sent: one of fee and supply together where they share a denomination, else one of each.
unfoldable pub check_funds : Cosmwasm → List Coin → Config → CreateStream → Result (Unit {0})
check_funds c funds config msg =
    if msg.out_denom == config.stream_creation_denom
    then (do
      total_funds ←
          or_fail (find_coin config.stream_creation_denom funds) ContractError.no_funds_sent
      due ← unwrap (c.num.add config.stream_creation_fee msg.out_supply)
      fail_if (not (total_funds.amount == due)) ContractError.stream_out_supply_funds_required
      fail_if (any_other msg.out_denom msg.out_denom funds) ContractError.invalid_funds)
    else (do
      out_funds ← or_fail (find_coin msg.out_denom funds) ContractError.no_funds_sent
      fail_if (not (out_funds.amount == msg.out_supply))
          ContractError.stream_out_supply_funds_required
      creation_fee ←
          or_fail (find_coin config.stream_creation_denom funds) ContractError.no_funds_sent
      fail_if (not (creation_fee.amount == config.stream_creation_fee))
          ContractError.stream_creation_fee_required
      fail_if (any_other msg.out_denom config.stream_creation_denom funds)
          ContractError.invalid_funds)

unfoldable pub execute_create_stream : Cosmwasm → ℕ → MessageInfo → CreateStream → Storage → Outcome
execute_create_stream c now info msg store = do
  config ← load_config store
  check_terms c now config msg
  check_funds c info.funds config msg
  check_name_and_url msg.name msg.url
  treasury ← or_fail (c.api.addr_validate msg.treasury) ContractError.std
  let stream =
      new_stream msg.name treasury msg.url msg.out_denom msg.out_supply msg.in_denom msg.start_time
        msg.end_time msg.start_time config.stream_creation_denom config.stream_creation_fee
        config.exit_fee_percent
  (id, store') ← next_stream_id store
  thresholds ← or_threshold (set_threshold_if_any msg.threshold id store'.thresholds)
  ok ([], record (save_stream store' id stream) { thresholds = thresholds })
