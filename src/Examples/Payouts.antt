-- ===== src/Examples/Payouts.antt =====
-- The theorems on what is paid out at the end, at the sale of `Examples.Sale`.
use cw_streamswap.Base.{
  nat_key, pair_key, ◌+◌, ◌^◌, ◌≡◌, ◌⊎◌, none, some, List, [], ◌∷◌, refl, arith,
}
use cw_streamswap.Error.{ok, err, Ensures, Returns, Refused}
use cw_streamswap.Cosmwasm.{u128_limit, u256_limit, fractional}
use cw_streamswap.Dict.{may_load, save, remove}
use cw_streamswap.State.{
  Stream, Storage, active, waiting, paused, cancelled, new_stream, is_killswitch_active,
}
use cw_streamswap.Threshold.{error_if_not_reached}
use cw_streamswap.Helpers.{codes}
use cw_streamswap.Handler.{Send}
use cw_streamswap.Contract.Stream.{update_stream, calculate_diff, distribute}
use cw_streamswap.Contract.Stream.Ratio.{ratio}
use cw_streamswap.Contract.Finish.{
  update_if_behind, fee_of, finalize_messages, exit_messages, execute_finalize_stream,
}
use cw_streamswap.Contract.Finish.Fees.{fee, sent, sent_in_all, when, finalize_messages_revenue}
use cw_streamswap.Contract.Finish.Total.{finalize_messages-Returns, exit_messages-Returns}
use cw_streamswap.Contract.Finish.Once.{waiting_finalized_again}
use cw_streamswap.Killswitch.Pause.{postponed}
use cw_streamswap.Killswitch.Pause.Delay.{resume_keeps_ratio}
use cw_streamswap.Killswitch.Refund.{execute_exit_cancelled}
use cw_streamswap.Killswitch.Refund.Repayment.{repayment, execute_exit_cancelled-Ensures}
use cw_streamswap.Entry.{SudoMsg, by_governance, outcome}
use cw_streamswap.Stopped.{cancelled_refuses}
use cw_streamswap.Examples.Host.{host, documented}
use cw_streamswap.Examples.Sale.{
  config, second, creator, alice, in_coin, out_coin, fee_coin, calling, running, position_of_alice,
}

-- A storage with one stream and Alice's position.
abbrev holding : Stream → Storage
holding s = record {
  config = some config;
  streams = (1, s) ∷ [];
  stream_id_counter = some 1;
  positions = ((1, alice), position_of_alice) ∷ [];
  thresholds = [];
  contract_info = none;
}

abbrev offered : Stream
offered =
    new_stream (codes "sale") creator none out_coin 1000 in_coin (second 2000) (second 3000)
      (second 2000) fee_coin 100 (10 ^ 16)

abbrev after : Stream → Storage
after s = elim (execute_finalize_stream host (second 3500) (calling creator) 1 none (holding s)) [
  | ok (messages, store) ↦ store
  | err e ↦ holding s
]

abbrev paid_for : Stream → List Send
paid_for s =
    elim (execute_finalize_stream host (second 3500) (calling creator) 1 none (holding s)) [
      | ok (messages, store) ↦ messages
      | err e ↦ []
    ]

offered_finalized :
    execute_finalize_stream host (second 3500) (calling creator) 1 none (holding offered)
    ≡ ok (paid_for offered, after offered)
unfolding execute_finalize_stream update_if_behind update_stream calculate_diff distribute fee_of
    finalize_messages error_if_not_reached is_killswitch_active new_stream may_load save u128_limit
    u256_limit fractional
offered_finalized = refl

held_at : (s : Stream) → may_load (holding s).streams 1 ≡ some s
unfolding may_load
held_at s = refl

offered_waits : offered.status ≡ waiting
unfolding new_stream
offered_waits = refl

waiting_finalized_again_example :
    Returns
      (λ (again, _). again ≡ paid_for offered)
      (execute_finalize_stream host (second 4000) (calling creator) 1 none (after offered))
waiting_finalized_again_example =
    waiting_finalized_again host documented (second 3500) (second 4000) (calling creator) 1 none
      (holding offered) (after offered) (held_at offered) offered_waits offered_finalized
      (omega arith)

finalize_messages-Returns_example :
    Returns
      (λ messages.
        sent_in_all in_coin messages
        ≡ when running.in_denom in_coin running.spent_in
          + when running.stream_creation_denom in_coin running.stream_creation_fee
          + when running.out_denom in_coin running.out_remaining)
      (finalize_messages host config creator running)
unfolding u128_limit fractional
finalize_messages-Returns_example =
    finalize_messages-Returns host documented config creator running in_coin (omega arith)
      (omega arith) (omega arith) (omega arith)

finalize_messages_revenue_example :
    Ensures
      (λ messages.
        sent creator in_coin messages + fee running.spent_in running.stream_exit_fee_percent
        ≡ running.spent_in)
      (finalize_messages host config creator running)
finalize_messages_revenue_example =
    finalize_messages_revenue host documented config creator running (omega arith) (omega arith)

exit_messages-Returns_example :
    Returns
      (λ (shares, messages).
        (shares + position_of_alice.shares ≡ running.shares)
        × (sent alice in_coin messages
            ≡ when running.out_denom in_coin position_of_alice.purchased
              + when running.in_denom in_coin position_of_alice.in_balance)
        × (sent_in_all in_coin messages ≡ sent alice in_coin messages))
      (exit_messages host alice running position_of_alice)
unfolding u128_limit fractional
exit_messages-Returns_example =
    exit_messages-Returns host documented alice running position_of_alice in_coin (omega arith)
      (omega arith) (omega arith) (omega arith) (omega arith)

abbrev stopped : Stream
stopped = record running { status = paused; pause_date = some (second 2250) }

resume_keeps_ratio_example :
    Ensures
      (λ t.
        (t.status ≡ active)
        × (ratio t.end_time t.last_updated (second 2500 + second 50)
            ≡ ratio (second 3000) (second 2250) (second 2250 + second 50)))
      (postponed host (second 2500) stopped)
resume_keeps_ratio_example =
    resume_keeps_ratio host documented (second 2500) (second 2250) (second 50) stopped refl

abbrev called_off : Stream
called_off = record running { status = cancelled }

alice_held : may_load (holding called_off).positions (1, alice) ≡ some position_of_alice
unfolding may_load
alice_held = refl

execute_exit_cancelled-Ensures_example :
    Ensures
      (λ (messages, store').
        (messages ≡ repayment alice called_off position_of_alice ∷ [])
        × (store'.positions ≡ remove (holding called_off).positions (1, alice))
        × (store'.streams ≡ (holding called_off).streams)
        × ((position_of_alice.owner ≡ alice) ⊎ (position_of_alice.operator ≡ some alice)))
      (execute_exit_cancelled host (second 2600) (calling alice) 1 none (holding called_off))
execute_exit_cancelled-Ensures_example =
    execute_exit_cancelled-Ensures host documented (second 2600) (calling alice) 1 none
      (holding called_off) alice (held_at called_off) refl alice_held

cancelled_refuses_example :
    Refused
      (outcome host (second 2700) (by_governance (SudoMsg.cancel_stream 1)) (holding called_off))
cancelled_refuses_example =
    cancelled_refuses host (second 2700) 1 (by_governance (SudoMsg.cancel_stream 1))
      (holding called_off) (held_at called_off) refl (omega arith) refl
