-- ===== src/Settlement/Calls.antt =====
-- A finalized stream and the entry points (src/contract.rs).
use cw_streamswap.Base.{
  nat_key, pair_key, ℕ, ◌≤◌, ◌≡◌, Option, none, some, List, [], ◌∷◌, false, refl, arith, ◌==◌,
}
use cw_streamswap.Dict.{may_load}
use cw_streamswap.Dict.Laws.{may_load-save}
use cw_streamswap.Error.{ok, err, Ensures, of_Ensures, by_result, by_option, or_threshold}
use cw_streamswap.Cosmwasm.{MessageInfo, Cosmwasm}
use cw_streamswap.Cosmwasm.Documented.{Documented}
use cw_streamswap.State.{Storage, next_stream_id, new_stream}
use cw_streamswap.Threshold.{Thresholds, set_threshold_if_any}
use cw_streamswap.Handler.{Outcome, save_stream, save_position}
use cw_streamswap.Contract.Position.{execute_update_operator}
use cw_streamswap.Contract.Create.{CreateStream, execute_create_stream}
use cw_streamswap.Contract.Admin.{
  UpdateConfig, execute_update_protocol_admin, execute_update_config,
}
use cw_streamswap.Entry.{
  Call, by_user, by_governance, ExecuteMsg, SudoMsg, execute, sudo, storage_after, step,
}
use cw_streamswap.Ledger.Calls.{next_stream_id-Ensures}
use cw_streamswap.Ledger.Claims.{run}
use cw_streamswap.Settlement.{Over, Stays, save_other-Over, same-Over}
use cw_streamswap.Settlement.Handlers.{
  execute_update_stream-Over, execute_update_position-Over, execute_withdraw-Over,
  execute_withdraw_pending-Over, execute_subscribe-Over, execute_subscribe_pending-Over,
}
use cw_streamswap.Settlement.Endings.{
  execute_exit_stream-Over, execute_finalize_stream-Over, sudo_pause_stream-Over,
  execute_pause_stream-Over, sudo_resume_stream-Over, execute_resume_stream-Over,
  sudo_cancel_stream-Over, execute_cancel_stream-Over, execute_cancel_stream_with_threshold-Over,
  execute_withdraw_paused-Over, execute_exit_cancelled-Over,
}

-- A threshold is only set for the new id.
set_threshold_if_any-other :
    (threshold : Option ℕ) (new id : ℕ) (store : Thresholds) {store' : Thresholds}
    → (new == id) ≡ false
    → or_threshold (set_threshold_if_any threshold new store) ≡ ok store'
    → may_load store' id ≡ may_load store id
unfolding set_threshold_if_any
set_threshold_if_any-other none new id store other h = ground arith
set_threshold_if_any-other (some t) new id store other h =
    ground (arith, may_load-save store new id t)

module _ (c : Cosmwasm) (d : Documented c) {since id spent : ℕ} {threshold : Option ℕ} (now : ℕ)
    (le : since ≤ now) (store : Storage) (o : Over since id spent threshold store) where
  execute_create_stream-Over :
      (info : MessageInfo) (msg : CreateStream)
      → Ensures (Stays since id spent threshold) (execute_create_stream c now info msg store)
  unfolding execute_create_stream
  execute_create_stream-Over info msg =
      by_option store.config (λ l. simp l (ground arith))
        λ config l.
          by_option (c.api.addr_validate msg.treasury) (λ la. simp (l, la) (ground arith))
            λ treasury la.
              by_result (next_stream_id store) (λ e h. simp (l, la, h) (ground arith))
                λ (new, store') h.
                  by_result
                    (or_threshold (set_threshold_if_any msg.threshold new store'.thresholds))
                    (λ e k. simp (l, la, h, k) (ground arith))
                    λ thresholds k.
                      let u = of_Ensures _ _ (next_stream_id-Ensures store) h in
                      let stream =
                        new_stream msg.name treasury msg.url msg.out_denom msg.out_supply
                          msg.in_denom msg.start_time msg.end_time msg.start_time
                          config.stream_creation_denom config.stream_creation_fee
                          config.exit_fee_percent in
                      let other : (new == id) ≡ false = ground (arith, o.taken) in
                      let w = save_other-Over new other o stream store.positions in
                      let v : Over since id spent threshold
                          (record (save_stream store' new stream) { thresholds = thresholds }) =
                        record {
                          over = ground (arith, w.over);
                          bar = ground (
                            arith,
                            o.bar,
                            set_threshold_if_any-other msg.threshold new id store'.thresholds other
                                k,
                          );
                          taken = ground (arith, o.taken);
                        } in
                      simp (l, la, h, k) (ground arith)

  execute_update_operator-Over :
      (info : MessageInfo) (j : ℕ) (operator : Option ℕ)
      → Ensures (Stays since id spent threshold) (execute_update_operator c info j operator store)
  unfolding execute_update_operator
  execute_update_operator-Over info j operator =
      by_option (may_load store.positions (j, info.sender)) (λ l. ground arith)
        λ p lp.
          by_option (c.api.maybe_addr operator) (λ l. ground arith)
            λ given l.
              let v =
                same-Over {b = save_position store j info.sender (record p { operator = given })}
                  refl refl refl o in
              ground arith

  execute_update_protocol_admin-Over :
      (info : MessageInfo) (new_admin : ℕ)
      → Ensures
          (Stays since id spent threshold)
          (execute_update_protocol_admin c info new_admin store)
  unfolding execute_update_protocol_admin
  execute_update_protocol_admin-Over info new_admin = grind (arith, same-Over {a = store})

  execute_update_config-Over :
      (info : MessageInfo) (msg : UpdateConfig)
      → Ensures (Stays since id spent threshold) (execute_update_config c info msg store)
  unfolding execute_update_config
  execute_update_config-Over info msg = grind (arith, same-Over {a = store})

  execute-Over :
      (info : MessageInfo) (msg : ExecuteMsg)
      → Ensures (Stays since id spent threshold) (execute c now info msg store)
  unfolding execute
  execute-Over info (ExecuteMsg.create_stream msg) = execute_create_stream-Over info msg
  execute-Over info (ExecuteMsg.update_operator j a) = execute_update_operator-Over info j a
  execute-Over info (ExecuteMsg.update_position j a) =
      execute_update_position-Over c d now le store o info j a
  execute-Over info (ExecuteMsg.update_stream j) = execute_update_stream-Over c d now le store o j
  execute-Over info (ExecuteMsg.cancel_stream_with_threshold j) =
      execute_cancel_stream_with_threshold-Over c d now le store o info j
  execute-Over info (ExecuteMsg.subscribe j target operator) =
      by_option (may_load store.streams j) (λ l. simp l (ground arith))
        λ s l. simp l (
          ground (
            arith,
            execute_subscribe_pending-Over c d now le store o info j operator target s l,
            execute_subscribe-Over c d now le store o info j operator target s l,
          ))
  execute-Over info (ExecuteMsg.withdraw j limit target) =
      by_option (may_load store.streams j) (λ l. simp l (ground arith))
        λ s l. simp l (
          ground (
            arith,
            execute_withdraw_pending-Over c d now le store o info j s limit target l,
            execute_withdraw-Over c d now le store o info j s limit target l,
          ))
  execute-Over info (ExecuteMsg.finalize_stream j a) =
      execute_finalize_stream-Over c d now le store o info j a
  execute-Over info (ExecuteMsg.exit_stream j a) =
      execute_exit_stream-Over c d now le store o info j a
  execute-Over info (ExecuteMsg.pause_stream j) =
      execute_pause_stream-Over c d now le store o info j
  execute-Over info (ExecuteMsg.resume_stream j) =
      execute_resume_stream-Over c d now le store o info j
  execute-Over info (ExecuteMsg.cancel_stream j) =
      execute_cancel_stream-Over c d now le store o info j
  execute-Over info (ExecuteMsg.withdraw_paused j limit a) =
      execute_withdraw_paused-Over c d now le store o info j limit a
  execute-Over info (ExecuteMsg.exit_cancelled j a) =
      execute_exit_cancelled-Over c d now le store o info j a
  execute-Over info (ExecuteMsg.update_protocol_admin a) = execute_update_protocol_admin-Over info a
  execute-Over info (ExecuteMsg.update_config msg) = execute_update_config-Over info msg

  sudo-Over : (msg : SudoMsg) → Ensures (Stays since id spent threshold) (sudo c now msg store)
  unfolding sudo
  sudo-Over (SudoMsg.pause_stream j) = sudo_pause_stream-Over c d now le store o j
  sudo-Over (SudoMsg.cancel_stream j) = sudo_cancel_stream-Over c d now le store o j
  sudo-Over (SudoMsg.resume_stream j) = sudo_resume_stream-Over c d now le store o j

kept :
    {since id spent : ℕ} {threshold : Option ℕ} (store : Storage) (r : Outcome)
    → Over since id spent threshold store
    → Ensures (Stays since id spent threshold) r
    → Over since id spent threshold (storage_after store r)
kept store (ok (messages, store')) o k = k
kept store (err e) o k = o

pub step-Over :
    (c : Cosmwasm)
    → Documented c
    → {since id spent : ℕ} {threshold : Option ℕ} (now : ℕ) → since ≤ now
    → (call : Call) (store : Storage) → Over since id spent threshold store
    → Over since id spent threshold (step c now call store)
unfolding step
step-Over c d now le (by_user info msg) store o =
    kept store (execute c now info msg store) o (execute-Over c d now le store o info msg)
step-Over c d now le (by_governance msg) store o =
    kept store (sudo c now msg store) o (sudo-Over c d now le store o msg)

-- Every call comes at the time `since` or later.
abbrev pub AllSince : ℕ → List (ℕ × Call) → Type 0
AllSince since [] = Unit
AllSince since ((now, call) ∷ calls) = (since ≤ now) × AllSince since calls

pub run-Over :
    (c : Cosmwasm)
    → Documented c
    → {since id spent : ℕ} {threshold : Option ℕ} (calls : List (ℕ × Call)) (store : Storage)
    → AllSince since calls
    → Over since id spent threshold store
    → Over since id spent threshold (run c calls store)
unfolding run
run-Over c d [] store h o = o
run-Over c d ((now, call) ∷ calls) store h o =
    run-Over c d calls (step c now call store) h.1 (step-Over c d now h.0 call store o)
