-- ===== src/Examples/Sale.antt =====
-- A sale of 1000 tokens between the seconds 2000 and 3000, with two subscribers.
use cw_streamswap.Base.{nat_key, pair_key, ℕ, ◌*◌, ◌^◌, ◌≡◌, none, some, List, [], ◌∷◌, refl}
use cw_streamswap.Cosmwasm.{MessageInfo, nanos_per_second}
use cw_streamswap.State.{Config, Stream, Position, Storage, active}
use cw_streamswap.Dict.{may_load}
use cw_streamswap.Contract.Admin.{Build, InstantiateMsg, instantiate}
use cw_streamswap.Contract.Create.{CreateStream}
use cw_streamswap.Helpers.{codes}
use cw_streamswap.Entry.{ExecuteMsg, Call, by_user, storage_after}
use cw_streamswap.Ledger.{IsBacked}
use cw_streamswap.Ledger.Claims.{run, empty_storage, run-IsBacked, initial}
use cw_streamswap.Cosmwasm.{u64_limit, u128_limit, u256_limit, fractional}
use cw_streamswap.Dict.{save}
use cw_streamswap.State.{
  next_stream_id, new_stream, new_position, compute_shares_amount, is_killswitch_active,
}
use cw_streamswap.Helpers.{check_name_and_url, all, len, is_name_char, contains}
use cw_streamswap.Threshold.{set_threshold_if_any}
use cw_streamswap.Handler.{check_access}
use cw_streamswap.Contract.Create.{
  execute_create_stream, check_terms, check_funds, find_coin, any_other,
}
use cw_streamswap.Contract.Stream.{update_stream, calculate_diff, distribute, release_out}
use cw_streamswap.Contract.Subscribe.{execute_subscribe, join, take_in}
use cw_streamswap.Entry.{step, execute}
use cw_streamswap.Examples.Host.{host, documented}

abbrev pub second : ℕ → ℕ
second n = n * 10 ^ 9

-- Addresses and denominations.
abbrev pub admin : ℕ
admin = 1

abbrev pub collector : ℕ
collector = 2

abbrev pub creator : ℕ
creator = 3

abbrev pub alice : ℕ
alice = 4

abbrev pub bob : ℕ
bob = 5

abbrev pub in_coin : ℕ
in_coin = 10

abbrev pub out_coin : ℕ
out_coin = 11

abbrev pub fee_coin : ℕ
fee_coin = 12

abbrev pub build : Build
build = record { contract_name = 1; contract_version = 21 }

abbrev pub set_up : InstantiateMsg
set_up = record {
  min_stream_seconds = 500;
  min_seconds_until_start_time = 500;
  stream_creation_denom = fee_coin;
  stream_creation_fee = 100;
  exit_fee_percent = 10 ^ 16;
  fee_collector = collector;
  protocol_admin = admin;
  accepted_in_denom = in_coin;
}

abbrev pub offer : CreateStream
offer = record {
  treasury = creator;
  name = codes "sale";
  url = none;
  in_denom = in_coin;
  out_denom = out_coin;
  out_supply = 1000;
  start_time = second 2000;
  end_time = second 3000;
  threshold = some 50;
}

abbrev pub paying : ℕ → ℕ → MessageInfo
paying sender amount = record {
  sender = sender;
  funds = record { denom = in_coin; amount = amount } ∷ [];
}

abbrev pub calling : ℕ → MessageInfo
calling sender = record { sender = sender; funds = [] }

abbrev pub creation : ℕ × Call
creation = (
  second 1000,
  by_user
      (record {
        sender = creator;
        funds =
            record { denom = out_coin; amount = 1000 }
            ∷ record { denom = fee_coin; amount = 100 }
            ∷ [];
      })
      (ExecuteMsg.create_stream offer),
)

abbrev pub subscription : ℕ → ℕ → Call
subscription sender amount = by_user (paying sender amount) (ExecuteMsg.subscribe 1 none none)

-- Alice subscribes at the start, and Bob after a quarter of the sale.
abbrev pub calls : List (ℕ × Call)
calls = creation ∷ (second 2000, subscription alice 60) ∷ (second 2250, subscription bob 30) ∷ []

abbrev pub opened : Storage
opened = storage_after empty_storage (instantiate host build set_up empty_storage)

abbrev pub selling : Storage
selling = run host calls opened

-- The stream and the two positions after these calls.
abbrev pub running : Stream
running = record {
  name = codes "sale";
  treasury = creator;
  url = none;
  dist_index = 4166666666666666666;
  last_updated = second 2250;
  out_denom = out_coin;
  out_supply = 1000;
  out_remaining = 750;
  in_denom = in_coin;
  in_supply = 75;
  spent_in = 15;
  shares = 100;
  start_time = second 2000;
  end_time = second 3000;
  current_streamed_price = 6 * 10 ^ 16;
  status = active;
  pause_date = none;
  stream_creation_denom = fee_coin;
  stream_creation_fee = 100;
  stream_exit_fee_percent = 10 ^ 16;
}

abbrev pub position_of_alice : Position
position_of_alice = record {
  owner = alice;
  in_balance = 60;
  shares = 60;
  index = 0;
  last_updated = second 2000;
  purchased = 0;
  pending_purchase = 0;
  spent = 0;
  operator = none;
}

abbrev pub position_of_bob : Position
position_of_bob = record {
  owner = bob;
  in_balance = 30;
  shares = 40;
  index = 4166666666666666666;
  last_updated = second 2250;
  purchased = 0;
  pending_purchase = 0;
  spent = 0;
  operator = none;
}

abbrev pub config : Config
config = record {
  min_stream_seconds = 500;
  min_seconds_until_start_time = 500;
  accepted_in_denom = in_coin;
  stream_creation_denom = fee_coin;
  stream_creation_fee = 100;
  exit_fee_percent = 10 ^ 16;
  fee_collector = collector;
  protocol_admin = admin;
}

-- The whole storage after these calls.
abbrev pub in_sale : Storage
in_sale = record {
  config = some config;
  streams = (1, running) ∷ [];
  stream_id_counter = some 1;
  positions = ((1, alice), position_of_alice) ∷ ((1, bob), position_of_bob) ∷ [];
  thresholds = (1, 50) ∷ [];
  contract_info = some (1, 21);
}

pub selling_lem : selling ≡ in_sale
unfolding run step execute instantiate execute_create_stream check_terms check_funds find_coin
    any_other check_name_and_url all len is_name_char contains next_stream_id set_threshold_if_any
    new_stream execute_subscribe join new_position update_stream calculate_diff distribute
    release_out take_in compute_shares_amount check_access is_killswitch_active may_load save
    u64_limit u128_limit u256_limit fractional nanos_per_second
selling_lem = refl

pub running_held : may_load selling.streams 1 ≡ some running
unfolding may_load
running_held = rw selling_lem refl

pub in_sale-IsBacked : IsBacked in_sale
in_sale-IsBacked =
    rw selling_lem at (run-IsBacked host documented calls opened (initial host build set_up))
