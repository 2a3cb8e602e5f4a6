-- ===== src/Migrate.antt =====
-- src/migrate_v0_2_1.rs and `migrate` of src/contract.rs: the state of version 0.2.0, with 128-bit
-- amounts and decimals, becomes that of version 0.2.1.
pub mod Carried
use cw_streamswap.Base.{
  nat_key, pair_key, ℕ, ◌⊎◌, inl, inr, not, Option, some, [], ◌∷◌, ltb, ◌==◌, if◌then◌else◌,
}
use cw_streamswap.Error.{ContractError, Result, ok, ◌>>=◌, ◌>>◌, fail_if, or_fail, unwrap}
use cw_streamswap.Cosmwasm.{Cosmwasm}
use cw_streamswap.Dict.{Dict, save}
use cw_streamswap.State.{Text, Status, Stream, Position, Config, Storage}
use cw_streamswap.Contract.Admin.{Build}

pub record StreamV020 : Type 0 where
  pub name : Text
  pub treasury : ℕ
  pub url : Option Text
  pub dist_index : ℕ
  pub last_updated : ℕ
  pub out_denom : ℕ
  pub out_supply : ℕ
  pub out_remaining : ℕ
  pub in_denom : ℕ
  pub in_supply : ℕ
  pub spent_in : ℕ
  pub shares : ℕ
  pub start_time : ℕ
  pub end_time : ℕ
  pub current_streamed_price : ℕ
  pub status : Status
  pub pause_date : Option ℕ
  pub stream_creation_denom : ℕ
  pub stream_creation_fee : ℕ
  pub stream_exit_fee_percent : ℕ

pub record PositionV020 : Type 0 where
  pub owner : ℕ
  pub in_balance : ℕ
  pub shares : ℕ
  pub index : ℕ
  pub last_updated : ℕ
  pub purchased : ℕ
  pub pending_purchase : ℕ
  pub spent : ℕ
  pub operator : Option ℕ

-- What version 0.2.0 left in the storage, under the same keys.
pub record OldStorage : Type 0 where
  pub config : Option Config
  pub streams : Dict ℕ StreamV020
  pub stream_id_counter : Option ℕ
  pub positions : Dict (ℕ × ℕ) PositionV020
  pub thresholds : Dict ℕ ℕ
  pub contract_info : Option (ℕ × ℕ)

-- A Decimal is carried over as the ratio of its numerator (its atomics) to its denominator.
unfoldable pub migrate_stream : Cosmwasm → StreamV020 → Result Stream
migrate_stream c stream = do
  price ←
      unwrap (c.num.decimal256_from_ratio stream.current_streamed_price c.num.decimal_denominator)
  percent ←
      unwrap (c.num.decimal256_from_ratio stream.stream_exit_fee_percent c.num.decimal_denominator)
  ok (record {
    name = stream.name;
    treasury = stream.treasury;
    url = stream.url;
    dist_index = stream.dist_index;
    last_updated = stream.last_updated;
    out_denom = stream.out_denom;
    out_supply = stream.out_supply;
    out_remaining = stream.out_remaining;
    in_denom = stream.in_denom;
    in_supply = stream.in_supply;
    spent_in = stream.spent_in;
    shares = stream.shares;
    start_time = stream.start_time;
    end_time = stream.end_time;
    current_streamed_price = price;
    status = stream.status;
    pause_date = stream.pause_date;
    stream_creation_denom = stream.stream_creation_denom;
    stream_creation_fee = stream.stream_creation_fee;
    stream_exit_fee_percent = percent;
  })

unfoldable pub migrate_position : PositionV020 → Position
migrate_position position = record {
  owner = position.owner;
  in_balance = position.in_balance;
  shares = position.shares;
  index = position.index;
  last_updated = position.last_updated;
  purchased = position.purchased;
  pending_purchase = position.pending_purchase;
  spent = position.spent;
  operator = position.operator;
}

-- The two loops, each over what was read before it and writing under the same key.
unfoldable pub migrate_streams :
    Cosmwasm → Dict ℕ StreamV020 → Dict ℕ Stream → Result (Dict ℕ Stream)
migrate_streams c [] streams = ok streams
migrate_streams c ((id, stream) ∷ rest) streams = do
  new_stream ← migrate_stream c stream
  migrate_streams c rest (save streams id new_stream)

unfoldable pub migrate_positions :
    Dict (ℕ × ℕ) PositionV020 → Dict (ℕ × ℕ) Position → Dict (ℕ × ℕ) Position
migrate_positions [] positions = positions
migrate_positions ((key, position) ∷ rest) positions =
    migrate_positions rest (save positions key (migrate_position position))

unfoldable pub migrate_v0_2_1 : Cosmwasm → OldStorage → Result Storage
migrate_v0_2_1 c store = do
  streams ← migrate_streams c store.streams []
  ok (record {
    config = store.config;
    streams = streams;
    stream_id_counter = store.stream_id_counter;
    positions = migrate_positions store.positions [];
    thresholds = store.thresholds;
    contract_info = store.contract_info;
  })

-- `migrate` on a storage of an older version. (One of this version is left as it is.) The two version
-- texts are taken to parse: versions are numbers in their order, and `from_semver` has no case.
unfoldable pub migrate : Cosmwasm → Build → OldStorage → Result (OldStorage ⊎ Storage)
migrate c build store = do
  (name, version) ← or_fail store.contract_info ContractError.std
  fail_if (not (name == build.contract_name)) (ContractError.cannot_migrate name)
  if ltb version build.contract_version
      then (do
        store' ←
            migrate_v0_2_1 c
              (record store { contract_info = some (build.contract_name, build.contract_version) })
        ok (inr store'))
      else ok (inl store)
