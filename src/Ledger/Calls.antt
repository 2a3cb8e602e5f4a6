-- ===== src/Ledger/Calls.antt =====
-- The invariant and the entry points (src/contract.rs).
use cw_streamswap.Base.{nat_key, pair_key, ℕ, ◌+◌, ◌≡◌, some, arith}
use cw_streamswap.Dict.{may_load}
use cw_streamswap.Error.{ok, err, Ensures, by_option, by_result, of_Ensures, or_threshold}
use cw_streamswap.Cosmwasm.{MessageInfo, Cosmwasm}
use cw_streamswap.Cosmwasm.Documented.{Documented}
use cw_streamswap.State.{Storage, unwrap_or, next_stream_id, new_stream}
use cw_streamswap.Threshold.{set_threshold_if_any}
use cw_streamswap.Handler.{Outcome, save_stream}
use cw_streamswap.Contract.Create.{CreateStream, execute_create_stream}
use cw_streamswap.Contract.Admin.{
  UpdateConfig, execute_update_protocol_admin, execute_update_config,
}
use cw_streamswap.Entry.{
  Call, by_user, by_governance, ExecuteMsg, SudoMsg, execute, sudo, storage_after, step,
}
use cw_streamswap.Ledger.{IsBacked}
use cw_streamswap.Ledger.Writes.{create-IsBacked}
use cw_streamswap.Ledger.Running.{
  Keeps, execute_update_stream-IsBacked, execute_update_position-IsBacked,
  execute_update_operator-IsBacked,
}
use cw_streamswap.Ledger.Payments.{
  execute_withdraw-IsBacked, execute_withdraw_pending-IsBacked, execute_withdraw_paused-IsBacked,
  execute_subscribe-IsBacked, execute_subscribe_pending-IsBacked,
}
use cw_streamswap.Ledger.Ending.{execute_finalize_stream-IsBacked, execute_exit_stream-IsBacked}
use cw_streamswap.Ledger.Killswitch.{
  sudo_pause_stream-IsBacked, execute_pause_stream-IsBacked, execute_resume_stream-IsBacked,
  sudo_resume_stream-IsBacked, sudo_cancel_stream-IsBacked, execute_cancel_stream-IsBacked,
  execute_cancel_stream_with_threshold-IsBacked, execute_exit_cancelled-IsBacked,
}

-- The invariant does not speak of the other fields.
pub other_fields :
    (s t : Storage)
    → t.streams ≡ s.streams
    → t.positions ≡ s.positions
    → t.stream_id_counter ≡ s.stream_id_counter
    → IsBacked s
    → IsBacked t
other_fields s t a b e v = record {
  backed = λ id. rw (a, b) (v.backed id);
  in_step = rw (a, b) v.in_step;
  fresh = λ id h. rw a (v.fresh id (rw e at h));
}

-- The id that is given out is the next one.
pub next_stream_id-Ensures :
    (store : Storage)
    → Ensures
        (λ (id, store').
          (id ≡ unwrap_or store.stream_id_counter 0 + 1)
          × (store' ≡ record store { stream_id_counter = some id }))
        (next_stream_id store)
unfolding next_stream_id
next_stream_id-Ensures store = ground arith

execute_create_stream-IsBacked :
    (c : Cosmwasm) (now : ℕ) (info : MessageInfo) (msg : CreateStream) (store : Storage)
    → IsBacked store
    → Ensures Keeps (execute_create_stream c now info msg store)
unfolding execute_create_stream
execute_create_stream-IsBacked c now info msg store v =
    by_option store.config (λ l. simp l (ground arith))
      λ config l.
        by_option (c.api.addr_validate msg.treasury) (λ la. simp (l, la) (ground arith))
          λ treasury la.
            by_result (next_stream_id store) (λ e h. simp (l, la, h) (ground arith))
              λ (id, store') h.
                by_result (or_threshold (set_threshold_if_any msg.threshold id store'.thresholds))
                  (λ e k. simp (l, la, h, k) (ground arith))
                  λ thresholds k.
                    let u = of_Ensures _ _ (next_stream_id-Ensures store) h in
                    let stream =
                      new_stream msg.name treasury msg.url msg.out_denom msg.out_supply msg.in_denom
                        msg.start_time msg.end_time msg.start_time config.stream_creation_denom
                        config.stream_creation_fee config.exit_fee_percent in
                    let w =
                      other_fields
                        (record (save_stream store id stream) { stream_id_counter = some id })
                        (record (save_stream store' id stream) { thresholds = thresholds })
                        (ground arith) (ground arith) (ground arith)
                        (create-IsBacked store stream id v u.0) in
                    simp (l, la, h, k) (ground arith)

execute_update_protocol_admin-IsBacked :
    (c : Cosmwasm) (info : MessageInfo) (new_admin : ℕ) (store : Storage)
    → IsBacked store
    → Ensures Keeps (execute_update_protocol_admin c info new_admin store)
unfolding execute_update_protocol_admin
execute_update_protocol_admin-IsBacked c info new_admin store v = grind (arith, other_fields)

execute_update_config-IsBacked :
    (c : Cosmwasm) (info : MessageInfo) (msg : UpdateConfig) (store : Storage)
    → IsBacked store
    → Ensures Keeps (execute_update_config c info msg store)
unfolding execute_update_config
execute_update_config-IsBacked c info msg store v = grind (arith, other_fields)

execute-IsBacked :
    (c : Cosmwasm)
    → Documented c
    → (now : ℕ) (info : MessageInfo) (msg : ExecuteMsg) (store : Storage) → IsBacked store
    → Ensures Keeps (execute c now info msg store)
unfolding execute
execute-IsBacked c d now info (ExecuteMsg.create_stream msg) store v =
    execute_create_stream-IsBacked c now info msg store v
execute-IsBacked c d now info (ExecuteMsg.update_operator id o) store v =
    execute_update_operator-IsBacked c info id o store v
execute-IsBacked c d now info (ExecuteMsg.update_position id o) store v =
    execute_update_position-IsBacked c d now info id o store v
execute-IsBacked c d now info (ExecuteMsg.update_stream id) store v =
    execute_update_stream-IsBacked c d now id store v
execute-IsBacked c d now info (ExecuteMsg.cancel_stream_with_threshold id) store v =
    execute_cancel_stream_with_threshold-IsBacked c d now info id store v
execute-IsBacked c d now info (ExecuteMsg.subscribe id target operator) store v =
    by_option (may_load store.streams id) (λ l. simp l (ground arith))
      λ s l. simp l (
        ground (
          arith,
          execute_subscribe_pending-IsBacked c d now info id operator target s store v l,
          execute_subscribe-IsBacked c d now info id operator target s store v l,
        ))
execute-IsBacked c d now info (ExecuteMsg.withdraw id cap target) store v =
    by_option (may_load store.streams id) (λ l. simp l (ground arith))
      λ s l. simp l (
        ground (
          arith,
          execute_withdraw_pending-IsBacked c d info id s cap target store v l,
          execute_withdraw-IsBacked c d now info id s cap target store v l,
        ))
execute-IsBacked c d now info (ExecuteMsg.finalize_stream id o) store v =
    execute_finalize_stream-IsBacked c d now info id o store v
execute-IsBacked c d now info (ExecuteMsg.exit_stream id o) store v =
    execute_exit_stream-IsBacked c d now info id o store v
execute-IsBacked c d now info (ExecuteMsg.pause_stream id) store v =
    execute_pause_stream-IsBacked c d now info id store v
execute-IsBacked c d now info (ExecuteMsg.resume_stream id) store v =
    execute_resume_stream-IsBacked c now info id store v
execute-IsBacked c d now info (ExecuteMsg.cancel_stream id) store v =
    execute_cancel_stream-IsBacked c info id store v
execute-IsBacked c d now info (ExecuteMsg.withdraw_paused id cap o) store v =
    execute_withdraw_paused-IsBacked c d info id cap o store v
execute-IsBacked c d now info (ExecuteMsg.exit_cancelled id o) store v =
    execute_exit_cancelled-IsBacked c now info id o store v
execute-IsBacked c d now info (ExecuteMsg.update_protocol_admin a) store v =
    execute_update_protocol_admin-IsBacked c info a store v
execute-IsBacked c d now info (ExecuteMsg.update_config msg) store v =
    execute_update_config-IsBacked c info msg store v

sudo-IsBacked :
    (c : Cosmwasm)
    → Documented c
    → (now : ℕ) (msg : SudoMsg) (store : Storage) → IsBacked store
    → Ensures Keeps (sudo c now msg store)
unfolding sudo
sudo-IsBacked c d now (SudoMsg.pause_stream id) store v =
    sudo_pause_stream-IsBacked c d now id store v
sudo-IsBacked c d now (SudoMsg.cancel_stream id) store v = sudo_cancel_stream-IsBacked c id store v
sudo-IsBacked c d now (SudoMsg.resume_stream id) store v =
    sudo_resume_stream-IsBacked c now id store v

kept :
    (store : Storage) (o : Outcome)
    → IsBacked store
    → Ensures Keeps o
    → IsBacked (storage_after store o)
kept store (ok (messages, store')) v k = k
kept store (err e) v k = v

-- Every call, by a user or by governance, at any time and whether it succeeds or fails, keeps the
-- storage backed: no stream has fewer shares than its positions hold together, every position
-- stands under its owner with an index that is not ahead of its stream, and the next stream's id
-- is not taken.
pub step-IsBacked :
    (c : Cosmwasm)
    → Documented c
    → (now : ℕ) (call : Call) (store : Storage) → IsBacked store
    → IsBacked (step c now call store)
unfolding step
step-IsBacked c d now (by_user info msg) store v =
    kept store (execute c now info msg store) v (execute-IsBacked c d now info msg store v)
step-IsBacked c d now (by_governance msg) store v =
    kept store (sudo c now msg store) v (sudo-IsBacked c d now msg store v)
