-- ===== src/Examples/Settled.antt =====
-- The sale of `Examples.Sale` after its end, and a sale in which an update is refused.
use cw_streamswap.Base.{nat_key, pair_key, ℕ, ◌≡◌, none, some, List, [], ◌∷◌, refl, arith}
use cw_streamswap.Error.{ContractError, ok, err, Refused}
use cw_streamswap.Cosmwasm.{u64_limit, u128_limit, u256_limit, fractional, nanos_per_second}
use cw_streamswap.Dict.{may_load, save, remove}
use cw_streamswap.State.{
  Storage, next_stream_id, new_stream, new_position, compute_shares_amount, is_killswitch_active,
  is_paused, is_cancelled,
}
use cw_streamswap.Threshold.{
  set_threshold_if_any, error_if_not_reached, error_if_reached, check_if_threshold_set,
}
use cw_streamswap.Helpers.{
  check_name_and_url, all, len, is_name_char, contains, get_decimals, split,
}
use cw_streamswap.Handler.{Send, check_access}
use cw_streamswap.Contract.Admin.{instantiate}
use cw_streamswap.Contract.Create.{
  execute_create_stream, check_terms, check_funds, find_coin, any_other,
}
use cw_streamswap.Contract.Stream.{update_stream, calculate_diff, distribute, release_out}
use cw_streamswap.Contract.Position.{
  execute_update_position, update_position, settle, purchase, remaining_in,
}
use cw_streamswap.Contract.Subscribe.{execute_subscribe, join, take_in, top_up}
use cw_streamswap.Contract.Finish.{
  execute_finalize_stream, update_if_behind, fee_of, finalize_messages,
}
use cw_streamswap.Killswitch.Pause.{sudo_cancel_stream, execute_cancel_stream}
use cw_streamswap.Killswitch.Refund.{
  check_refundable, execute_exit_cancelled, execute_cancel_stream_with_threshold,
}
use cw_streamswap.Entry.{ExecuteMsg, SudoMsg, Call, by_user, by_governance, execute, step}
use cw_streamswap.Ledger.Claims.{run}
use cw_streamswap.Settlement.Outcome.{finalized_once, finalized_not_refunded}
use cw_streamswap.Settlement.Refunded.{refunded_not_finalized}
use cw_streamswap.Examples.Host.{host, documented}
use cw_streamswap.Examples.Sale.{
  second, creator, alice, bob, calling, creation, subscription, opened, running, in_sale,
  in_sale-IsBacked,
}

abbrev settled : Storage
settled = elim (execute_finalize_stream host (second 3500) (calling creator) 1 none in_sale) [
  | ok (messages, store) ↦ store
  | err e ↦ in_sale
]

abbrev proceeds : List Send
proceeds = elim (execute_finalize_stream host (second 3500) (calling creator) 1 none in_sale) [
  | ok (messages, store) ↦ messages
  | err e ↦ []
]

running_finalized :
    execute_finalize_stream host (second 3500) (calling creator) 1 none in_sale
    ≡ ok (proceeds, settled)
unfolding execute_finalize_stream update_if_behind update_stream calculate_diff distribute
    release_out fee_of finalize_messages error_if_not_reached is_killswitch_active may_load save
    u128_limit u256_limit fractional
running_finalized = refl

-- Alice exits, and governance tries to pause the stream.
abbrev later : List (ℕ × Call)
later =
    (second 3600, by_user (calling alice) (ExecuteMsg.exit_stream 1 none))
    ∷ (second 3700, by_governance (SudoMsg.pause_stream 1))
    ∷ []

held : may_load in_sale.streams 1 ≡ some running
unfolding may_load
held = refl

finalized_once_example :
    execute_finalize_stream host
      (second 4000)
      (calling creator)
      1
      (some alice)
      (run host later settled)
    ≡ err ContractError.stream_already_finalized
finalized_once_example =
    finalized_once host documented (second 3500) (calling creator) 1 none in_sale settled
      in_sale-IsBacked held refl running_finalized later (omega arith, (omega arith, tt))
      (second 4000) (calling creator) (some alice)

finalized_not_refunded_example :
    Refused
      (execute_exit_cancelled host (second 4000) (calling bob) 1 none (run host later settled))
    × Refused (
        execute_cancel_stream_with_threshold host
          (second 4000)
          (calling bob)
          1
          (run host later settled))
    × Refused (execute_cancel_stream host (calling bob) 1 (run host later settled))
    × Refused (sudo_cancel_stream host 1 (run host later settled))
finalized_not_refunded_example =
    finalized_not_refunded host documented (second 3500) (calling creator) 1 none in_sale settled
      in_sale-IsBacked held refl running_finalized later (omega arith, (omega arith, tt))
      (second 4000) (calling bob) none

-- Alice has 7 and Bob 3 of 10 shares. When 7 of the 10 in tokens are left, Alice's position is
-- brought up to date, and Bob pays 1 more in the same block.
abbrev rounding : List (ℕ × Call)
rounding =
    creation
    ∷ (second 2000, subscription alice 7)
    ∷ (second 2000, subscription bob 3)
    ∷ (second 2300, by_user (calling alice) (ExecuteMsg.update_position 1 none))
    ∷ (second 2300, subscription bob 1)
    ∷ []

-- Her shares then stand for 5 tokens and her balance is 4, so that her next update is refused.
update_refused :
    execute host
      (second 2300)
      (calling alice)
      (ExecuteMsg.update_position 1 none)
      (run host rounding opened)
    ≡ err ContractError.overflow
unfolding run step execute instantiate execute_create_stream check_terms check_funds find_coin
    any_other check_name_and_url all len is_name_char contains next_stream_id set_threshold_if_any
    new_stream execute_subscribe join new_position update_stream calculate_diff distribute
    release_out take_in top_up compute_shares_amount check_access is_killswitch_active is_paused
    execute_update_position update_position settle purchase remaining_in get_decimals split may_load
    save u64_limit u128_limit u256_limit fractional nanos_per_second
update_refused = refl

-- The same sale with a threshold that it does not reach.
abbrev short_sale : Storage
short_sale = record in_sale { thresholds = (1, 500) ∷ [] }

abbrev refunded : Storage
refunded = elim (execute_exit_cancelled host (second 3500) (calling alice) 1 none short_sale) [
  | ok (messages, store) ↦ store
  | err e ↦ short_sale
]

abbrev refunds : List Send
refunds = elim (execute_exit_cancelled host (second 3500) (calling alice) 1 none short_sale) [
  | ok (messages, store) ↦ messages
  | err e ↦ []
]

refund_succeeds :
    execute_exit_cancelled host (second 3500) (calling alice) 1 none short_sale
    ≡ ok (refunds, refunded)
unfolding execute_exit_cancelled check_refundable is_cancelled is_paused check_if_threshold_set
    error_if_reached update_stream calculate_diff distribute release_out check_access may_load
    remove u128_limit u256_limit fractional
refund_succeeds = refl

refunded_not_finalized_example :
    Refused (execute_finalize_stream host (second 4000) (calling creator) 1 none refunded)
refunded_not_finalized_example =
    refunded_not_finalized host documented (second 3500) (calling alice) 1 none short_sale refunded
      refund_succeeds (second 4000) (calling creator) none
