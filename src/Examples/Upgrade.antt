-- ===== src/Examples/Upgrade.antt =====
-- The migration of a stream of version 0.2.0 (src/migrate_v0_2_1.rs).
use cw_streamswap.Base.{nat_key, ℕ, ◌^◌, ◌≡◌, none, [], ◌∷◌, refl, arith}
use cw_streamswap.Error.{Returns}
use cw_streamswap.Cosmwasm.{u128_limit}
use cw_streamswap.Dict.{Dict, may_load}
use cw_streamswap.Dict.Sums.{All}
use cw_streamswap.State.{Stream, active}
use cw_streamswap.Helpers.{codes}
use cw_streamswap.Migrate.{StreamV020, migrate_streams}
use cw_streamswap.Migrate.Carried.{IsOld, IsDistinct, carried_or, migrate_streams-Returns}
use cw_streamswap.Examples.Host.{host, documented}
use cw_streamswap.Examples.Sale.{second, creator, in_coin, out_coin, fee_coin}

abbrev old_stream : StreamV020
old_stream = record {
  name = codes "sale";
  treasury = creator;
  url = none;
  dist_index = 4166666666666666666;
  last_updated = second 2250;
  out_denom = out_coin;
  out_supply = 1000;
  out_remaining = 750;
  in_denom = in_coin;
  in_supply = 75;
  spent_in = 15;
  shares = 100;
  start_time = second 2000;
  end_time = second 3000;
  current_streamed_price = 10 ^ 16;
  status = active;
  pause_date = none;
  stream_creation_denom = fee_coin;
  stream_creation_fee = 100;
  stream_exit_fee_percent = 10 ^ 16;
}

abbrev old_streams : Dict ℕ StreamV020
old_streams = (1, old_stream) ∷ (2, old_stream) ∷ []

old_streams-IsOld : All IsOld old_streams
unfolding u128_limit
old_streams-IsOld = ((omega arith, omega arith), ((omega arith, omega arith), tt))

old_streams-IsDistinct : IsDistinct old_streams
unfolding may_load
old_streams-IsDistinct = (refl, (refl, tt))

abbrev nothing : Dict ℕ Stream
nothing = []

migrate_streams-Returns_example :
    Returns
      (λ new. may_load new 2 ≡ carried_or (may_load nothing 2) (may_load old_streams 2))
      (migrate_streams host old_streams nothing)
migrate_streams-Returns_example =
    migrate_streams-Returns host documented old_streams nothing 2 old_streams-IsOld
      old_streams-IsDistinct
