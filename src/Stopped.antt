-- ===== src/Stopped.antt =====
-- What a stream that is cancelled (src/killswitch.rs) refuses.
use cw_streamswap.Base.{nat_key, pair_key, ℕ, ◌≤◌, ◌≡◌, some, arith}
use cw_streamswap.Dict.{may_load}
use cw_streamswap.Cosmwasm.{Cosmwasm}
use cw_streamswap.Error.{Refused}
use cw_streamswap.State.{Stream, Storage, cancelled, is_killswitch_active, is_paused, is_cancelled}
use cw_streamswap.Contract.Subscribe.{execute_subscribe, execute_subscribe_pending}
use cw_streamswap.Contract.Withdraw.{execute_withdraw}
use cw_streamswap.Contract.Finish.{execute_finalize_stream, execute_exit_stream}
use cw_streamswap.Killswitch.Pause.{
  execute_pause_stream, execute_resume_stream, execute_cancel_stream, sudo_cancel_stream,
  sudo_pause_stream, sudo_resume_stream,
}
use cw_streamswap.Killswitch.Refund.{execute_withdraw_paused, execute_cancel_stream_with_threshold}
use cw_streamswap.Entry.{ExecuteMsg, SudoMsg, Call, by_user, by_governance, execute, sudo, outcome}

-- The calls that need the stream `id` to go on, or to be stopped in another way.
abbrev pub Handles : ℕ → Call → Type 0
Handles id (by_user info (ExecuteMsg.subscribe j target operator)) = j ≡ id
Handles id (by_user info (ExecuteMsg.withdraw j cap target)) = j ≡ id
Handles id (by_user info (ExecuteMsg.finalize_stream j treasury)) = j ≡ id
Handles id (by_user info (ExecuteMsg.exit_stream j target)) = j ≡ id
Handles id (by_user info (ExecuteMsg.pause_stream j)) = j ≡ id
Handles id (by_user info (ExecuteMsg.resume_stream j)) = j ≡ id
Handles id (by_user info (ExecuteMsg.cancel_stream j)) = j ≡ id
Handles id (by_user info (ExecuteMsg.withdraw_paused j cap target)) = j ≡ id
Handles id (by_user info (ExecuteMsg.cancel_stream_with_threshold j)) = j ≡ id
Handles id (by_governance (SudoMsg.pause_stream j)) = j ≡ id
Handles id (by_governance (SudoMsg.cancel_stream j)) = j ≡ id
Handles id (by_governance (SudoMsg.resume_stream j)) = j ≡ id
Handles id _ = ⊥

-- Once a stream that has started is cancelled, no call that subscribes to it, withdraws from it,
-- finalizes, exits, pauses, resumes or cancels it succeeds, whoever makes the call and whenever it
-- comes after the start: each returns an error, so that nothing is paid and nothing is written.
pub cancelled_refuses :
    (c : Cosmwasm) (now id : ℕ) (call : Call) (store : Storage) {s : Stream}
    → may_load store.streams id ≡ some s
    → s.status ≡ cancelled
    → s.start_time ≤ now
    → Handles id call
    → Refused (outcome c now call store)
unfolding execute sudo execute_subscribe execute_subscribe_pending execute_withdraw
    execute_finalize_stream execute_exit_stream execute_pause_stream execute_resume_stream
    execute_cancel_stream sudo_cancel_stream sudo_pause_stream sudo_resume_stream
    execute_withdraw_paused execute_cancel_stream_with_threshold is_killswitch_active is_paused
    is_cancelled
cancelled_refuses c now id (by_user info (ExecuteMsg.subscribe j target operator)) store l st b h =
    ground arith
cancelled_refuses c now id (by_user info (ExecuteMsg.withdraw j cap target)) store l st b h =
    ground arith
cancelled_refuses c now id (by_user info (ExecuteMsg.finalize_stream j treasury)) store l st b h =
    ground arith
cancelled_refuses c now id (by_user info (ExecuteMsg.exit_stream j target)) store l st b h =
    ground arith
cancelled_refuses c now id (by_user info (ExecuteMsg.pause_stream j)) store l st b h = ground arith
cancelled_refuses c now id (by_user info (ExecuteMsg.resume_stream j)) store l st b h = ground arith
cancelled_refuses c now id (by_user info (ExecuteMsg.cancel_stream j)) store l st b h = ground arith
cancelled_refuses c now id (by_user info (ExecuteMsg.withdraw_paused j cap target)) store l st b h =
    ground arith
cancelled_refuses c now id (by_user info (ExecuteMsg.cancel_stream_with_threshold j)) store l st b
      h =
    ground arith
cancelled_refuses c now id (by_governance (SudoMsg.pause_stream j)) store l st b h = ground arith
cancelled_refuses c now id (by_governance (SudoMsg.cancel_stream j)) store l st b h = ground arith
cancelled_refuses c now id (by_governance (SudoMsg.resume_stream j)) store l st b h = ground arith
cancelled_refuses c now id (by_user info (ExecuteMsg.create_stream msg)) store l st b h = elim h [ ]
cancelled_refuses c now id (by_user info (ExecuteMsg.update_stream j)) store l st b h = elim h [ ]
cancelled_refuses c now id (by_user info (ExecuteMsg.update_protocol_admin a)) store l st b h =
    elim h [ ]
cancelled_refuses c now id (by_user info (ExecuteMsg.update_operator j a)) store l st b h =
    elim h [ ]
cancelled_refuses c now id (by_user info (ExecuteMsg.update_position j a)) store l st b h =
    elim h [ ]
cancelled_refuses c now id (by_user info (ExecuteMsg.exit_cancelled j a)) store l st b h =
    elim h [ ]
cancelled_refuses c now id (by_user info (ExecuteMsg.update_config msg)) store l st b h = elim h [ ]
