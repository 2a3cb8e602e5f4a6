-- ===== src/Examples/Runs.antt =====
-- The theorems on streams, positions and the whole contract, at the sale of `Examples.Sale`.
use cw_streamswap.Base.{
  ◌+◌, nat_key, pair_key, ◌%◌, ◌≤◌, ◌<◌, ◌≡◌, none, some, true, false, refl, arith,
}
use cw_streamswap.Error.{ok, Ensures, Returns}
use cw_streamswap.Cosmwasm.{u128_limit, u256_limit, fractional}
use cw_streamswap.Dict.Sums.{total}
use cw_streamswap.State.{Stream, Position, compute_shares_amount}
use cw_streamswap.State.Shares.{
  Minted, Burnt, compute_shares_amount-Minted, compute_shares_amount-Burnt,
}
use cw_streamswap.State.Worth.{no_profit}
use cw_streamswap.Helpers.{get_decimals}
use cw_streamswap.Helpers.Decimals.{get_decimals_lem}
use cw_streamswap.Contract.Stream.{update_stream, calculate_diff, distribute}
use cw_streamswap.Contract.Stream.Ratio.{ratio, calculate_diff_lem}
use cw_streamswap.Contract.Stream.Release.{
  IsWellFormed, Updates, sold_at, spent_at, index_at, update_stream-Returns, update_stream_at_end,
  update_stream_again,
}
use cw_streamswap.Contract.Position.{update_position}
use cw_streamswap.Contract.Position.Accounting.{Syncs}
use cw_streamswap.Contract.Position.Total.{Fits, update_position-Returns}
use cw_streamswap.Contract.Withdraw.{take_out}
use cw_streamswap.Contract.Withdraw.Amounts.{TakesOut}
use cw_streamswap.Contract.Withdraw.Total.{IsCovered, take_out-Returns}
use cw_streamswap.Contract.Subscribe.{join, join_pending}
use cw_streamswap.Contract.Subscribe.Payments.{Enters, join_pending-Ensures}
use cw_streamswap.Contract.Subscribe.Joining.{Subscribes, join-Subscribes}
use cw_streamswap.Entry.{ExecuteMsg, by_user, step}
use cw_streamswap.Ledger.{IsBacked}
use cw_streamswap.Ledger.Calls.{step-IsBacked}
use cw_streamswap.Ledger.Claims.{claim_in, run-IsBacked, initial, run_claims_covered}
use cw_streamswap.Examples.Host.{host, documented}
use cw_streamswap.Examples.Sale.{
  second, alice, build, set_up, calls, calling, paying, opened, selling, running, position_of_alice,
  running_held,
}

run_claims_covered_example : total (claim_in 1 running) selling.positions ≤ 75
run_claims_covered_example =
    run_claims_covered host documented build set_up calls 1 running_held (omega arith)

step-IsBacked_example : IsBacked (
    step host
      (second 2500)
      (by_user (calling alice) (ExecuteMsg.withdraw 1 (some 10) none))
      selling)
step-IsBacked_example =
    step-IsBacked host documented (second 2500)
      (by_user (calling alice) (ExecuteMsg.withdraw 1 (some 10) none)) selling
      (run-IsBacked host documented calls opened (initial host build set_up))

running-IsWellFormed : IsWellFormed running
unfolding u128_limit fractional
running-IsWellFormed = record {
  out_fits = omega arith;
  in_fits = omega arith;
  index_covered = omega arith;
}

update_stream-Returns_example :
    Returns
      (λ (diff, sold, t).
        Updates (second 2500) running (diff, sold, t)
        × IsWellFormed t
        × (sold ≡ sold_at (ratio (second 3000) (second 2250) (second 2500)) running)
        × (t.spent_in ≡ 15 + spent_at (ratio (second 3000) (second 2250) (second 2500)) running)
        × (t.dist_index ≡ index_at sold running))
      (update_stream host (second 2500) running)
update_stream-Returns_example =
    update_stream-Returns host documented (second 2500) running running-IsWellFormed

update_stream_at_end_example :
    Returns
      (λ (diff, sold, t).
        (sold ≡ 750) × (t.out_remaining ≡ 0) × (t.in_supply ≡ 0) × (t.spent_in ≡ 90))
      (update_stream host (second 3500) running)
update_stream_at_end_example =
    update_stream_at_end host documented (second 3500) running running-IsWellFormed (omega arith)
      (omega arith) (omega arith)

alice-Fits : Fits 4166666666666666666 75 position_of_alice
unfolding u256_limit fractional
alice-Fits = record {
  shares_fit = omega arith;
  bought_fits = omega arith;
  claim_fits = omega arith;
  paid_fits = omega arith;
}

update_position-Returns_example :
    Returns
      (Syncs 4166666666666666666 100 (second 2250) 75 position_of_alice)
      (update_position host 4166666666666666666 100 (second 2250) 75 position_of_alice)
update_position-Returns_example =
    update_position-Returns host documented 4166666666666666666 100 (second 2250) 75
      position_of_alice (omega arith) alice-Fits (λ pos. omega arith)

-- Alice's position once it is up to date.
abbrev up_to_date : Position
up_to_date = record position_of_alice { in_balance = 45 }

covered : IsCovered running up_to_date 10
unfolding u256_limit
covered = record {
  some_shares = omega arith;
  shares_held = omega arith;
  up_to_date = refl;
  positive = omega arith;
  in_balance = omega arith;
  product_fits = omega arith;
}

take_out-Returns_example :
    Returns (TakesOut (some 10) running up_to_date) (take_out host (some 10) running up_to_date)
take_out-Returns_example = take_out-Returns host documented (some 10) running up_to_date covered

join-Subscribes_example :
    Ensures
      (Subscribes host (second 2500) (paying alice 20) none 20 running (some up_to_date))
      (join host (second 2500) (paying alice 20) none alice 20 running (some up_to_date))
join-Subscribes_example =
    join-Subscribes host documented (second 2500) (paying alice 20) none alice 20 running
      (some up_to_date) (omega arith)

join_pending-Ensures_example :
    Ensures (Enters (some position_of_alice) alice 20 26 4166666666666666666) (
      join_pending host
        (second 2500)
        (paying alice 20)
        none
        alice
        20
        26
        running
        (some position_of_alice))
join_pending-Ensures_example =
    join_pending-Ensures host documented (second 2500) (paying alice 20) none alice 20 26 running
      (some position_of_alice) (omega arith)

compute_shares_amount-Minted_example :
    Ensures (Minted running 20) (compute_shares_amount host running 20 false)
compute_shares_amount-Minted_example =
    compute_shares_amount-Minted host documented running 20 (omega arith)

compute_shares_amount-Burnt_example :
    Ensures (Burnt running 20) (compute_shares_amount host running 20 true)
compute_shares_amount-Burnt_example =
    compute_shares_amount-Burnt host documented running 20 (omega arith)

abbrev paid_up : Stream
paid_up = record running { in_supply = 95; shares = 126 }

minted_20 : compute_shares_amount host running 20 false ≡ ok 26
unfolding compute_shares_amount u256_limit
minted_20 = refl

burnt_19 : compute_shares_amount host paid_up 19 true ≡ ok 26
unfolding compute_shares_amount u256_limit
burnt_19 = refl

no_profit_example : 19 ≤ 20
no_profit_example =
    no_profit host documented running paid_up 20 19 (omega arith) (omega arith) (omega arith)
      minted_20 refl refl burnt_19 (omega arith)

updated_lem : update_stream host (second 2250) running ≡ ok (0, 0, running)
unfolding update_stream calculate_diff distribute
updated_lem = refl

update_stream_again_example : update_stream host (second 2250) running ≡ ok (0, 0, running)
update_stream_again_example = update_stream_again host documented (second 2250) running updated_lem

calculate_diff_lem_example :
    calculate_diff host (second 3000) (second 2250) (second 2500)
    ≡ ok (ratio (second 3000) (second 2250) (second 2500))
calculate_diff_lem_example =
    calculate_diff_lem host documented (second 3000) (second 2250) (second 2500)

small : 4166666666666666666 < u256_limit
unfolding u256_limit
small = omega arith

get_decimals_lem_example :
    get_decimals host 4166666666666666666 ≡ ok (4166666666666666666 % fractional)
get_decimals_lem_example = get_decimals_lem host documented.text 4166666666666666666 small
