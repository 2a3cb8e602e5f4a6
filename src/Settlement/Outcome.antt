-- ===== src/Settlement/Outcome.antt =====
-- What finalizing an active stream (src/contract.rs) rules out for good.
use cw_streamswap.Base.{nat_key, pair_key, ℕ, ◌≤◌, ◌<◌, ◌≡◌, Option, none, some, List, refl, arith}
use cw_streamswap.Dict.{may_load}
use cw_streamswap.Dict.Laws.{may_load-save}
use cw_streamswap.Error.{
  ContractError, ok, err, or_threshold, Refused, by_option, by_result, of_Ensures,
}
use cw_streamswap.Cosmwasm.{MessageInfo, Cosmwasm}
use cw_streamswap.Cosmwasm.Documented.{Documented}
use cw_streamswap.State.{Stream, Storage, active, is_cancelled, is_paused}
use cw_streamswap.Threshold.{error_if_not_reached, error_if_reached, check_if_threshold_set}
use cw_streamswap.Handler.{Send, save_stream}
use cw_streamswap.Contract.Stream.Release.{update_stream_over}
use cw_streamswap.Contract.Finish.{update_if_behind, closed, execute_finalize_stream}
use cw_streamswap.Contract.Finish.Once.{Ended, ended}
use cw_streamswap.Killswitch.Pause.{sudo_cancel_stream, execute_cancel_stream}
use cw_streamswap.Killswitch.Refund.{
  check_refundable, execute_exit_cancelled, execute_cancel_stream_with_threshold,
}
use cw_streamswap.Entry.{Call}
use cw_streamswap.Ledger.{IsBacked}
use cw_streamswap.Ledger.Claims.{run}
use cw_streamswap.Settlement.{Over, IsOver}
use cw_streamswap.Settlement.Calls.{AllSince, run-Over}

-- What was spent reaches the threshold, if one is set.
abbrev Reached : Option ℕ → ℕ → Type 0
Reached none spent = Unit
Reached (some threshold) spent = threshold ≤ spent

-- A threshold check that passes.
passed :
    (id : ℕ) (store : Storage) (t : Stream) {u : Unit {0}}
    → or_threshold (error_if_not_reached id store.thresholds t) ≡ ok u
    → Reached (may_load store.thresholds id) t.spent_in
unfolding error_if_not_reached
passed id store t h = ground arith

finalized-Over :
    (c : Cosmwasm)
    → Documented c
    → (now : ℕ) (info : MessageInfo) (id : ℕ) (treasury : Option ℕ) (store store' : Storage)
      {s : Stream} {messages : List Send}
    → IsBacked store
    → may_load store.streams id ≡ some s
    → s.status ≡ active
    → execute_finalize_stream c now info id treasury store ≡ ok (messages, store')
    → (spent : ℕ) × Over now id spent (may_load store.thresholds id) store'
      × Reached (may_load store.thresholds id) spent
unfolding execute_finalize_stream
finalized-Over c d now info id treasury store store' {s} {messages} v l st h =
    by_result (update_if_behind c now s) (λ e u. absurd (ground arith))
      λ t u.
        let past : s.end_time < now = ground arith in
        let e : Ended now s t = of_Ensures (Ended now s) _ (ended c d now s past) u in
        by_result (or_threshold (error_if_not_reached id store.thresholds (closed t)))
          (λ x y. absurd (ground arith))
          λ z y.
            let left : store' ≡ save_stream store id (closed t) = ground arith in
            let o : Over now id t.spent_in (may_load store.thresholds id)
                (save_stream store id (closed t)) =
              record {
                over = ground (arith, may_load-save store.streams id id (closed t));
                bar = refl;
                taken = ground (arith, v.fresh id);
              } in
            (t.spent_in, rw left o, ground (arith, passed id store (closed t) y))

-- In a backed storage, a stream that was active when it was finalized stays finalized, whatever
-- calls come after that time: the same call is refused, by whom and when it may be made.
pub finalized_once :
    (c : Cosmwasm)
    → Documented c
    → (now : ℕ) (info : MessageInfo) (id : ℕ) (treasury : Option ℕ) (store store' : Storage)
      {s : Stream} {messages : List Send}
    → IsBacked store
    → may_load store.streams id ≡ some s
    → s.status ≡ active
    → execute_finalize_stream c now info id treasury store ≡ ok (messages, store')
    → (calls : List (ℕ × Call)) → AllSince now calls
    → (now' : ℕ) (info' : MessageInfo) (treasury' : Option ℕ)
    → execute_finalize_stream c now' info' id treasury' (run c calls store')
      ≡ err ContractError.stream_already_finalized
unfolding execute_finalize_stream
finalized_once c d now info id treasury store store' v l st h calls late now' info' treasury' =
    let (spent, o, r) = finalized-Over c d now info id treasury store store' v l st h in
    let p = run-Over c d calls store' late o in ground (arith, p.over)

-- A stream that was updated at its end, and reached its threshold if it has one, is not refundable.
not_refundable :
    (c : Cosmwasm)
    → Documented c
    → (now since id spent : ℕ) (threshold : Option ℕ) (s : Stream) (store : Storage)
    → IsOver since spent s
    → may_load store.thresholds id ≡ threshold
    → Reached threshold spent
    → Refused (check_refundable c now id s store)
unfolding check_refundable is_cancelled is_paused check_if_threshold_set error_if_reached
not_refundable c d now since id spent none s store o b r =
    simp (b, update_stream_over c d now s o.2) (ground arith)
not_refundable c d now since id spent (some threshold) s store o b r =
    simp (b, update_stream_over c d now s o.2) (ground arith)

kept_from_refund :
    (c : Cosmwasm)
    → Documented c
    → {since id spent : ℕ} {threshold : Option ℕ} (store : Storage)
    → Over since id spent threshold store
    → Reached threshold spent
    → (now : ℕ) (info : MessageInfo) (target : Option ℕ)
    → Refused (execute_exit_cancelled c now info id target store)
unfolding execute_exit_cancelled
kept_from_refund c d {since} {id} {spent} {threshold} store o r now info target =
    by_option (may_load store.streams id) (λ l. absurd (ground (arith, o.over)))
      λ s l.
        let y : IsOver since spent s = ground (arith, o.over) in
        by_result (check_refundable c now id s store) (λ e k. simp (l, k) (ground arith))
          λ u k.
            absurd
              (ground (arith, not_refundable c d now since id spent threshold s store y o.bar r))

kept_from_cancel :
    (c : Cosmwasm) {since id spent : ℕ} {threshold : Option ℕ} (store : Storage)
    → Over since id spent threshold store
    → (now : ℕ) (info : MessageInfo)
    → Refused (execute_cancel_stream_with_threshold c now info id store)
      × Refused (execute_cancel_stream c info id store)
      × Refused (sudo_cancel_stream c id store)
unfolding execute_cancel_stream_with_threshold execute_cancel_stream sudo_cancel_stream is_paused
kept_from_cancel c store o now info = ground (arith, o.over)

-- In a backed storage, after an active stream was finalized, no call that comes after that time
-- makes a refund possible: whoever asks and whenever, a position is not refunded, and the stream is not cancelled, by the
-- treasury, the administrator or governance.
pub finalized_not_refunded :
    (c : Cosmwasm)
    → Documented c
    → (now : ℕ) (info : MessageInfo) (id : ℕ) (treasury : Option ℕ) (store store' : Storage)
      {s : Stream} {messages : List Send}
    → IsBacked store
    → may_load store.streams id ≡ some s
    → s.status ≡ active
    → execute_finalize_stream c now info id treasury store ≡ ok (messages, store')
    → (calls : List (ℕ × Call)) → AllSince now calls
    → (now' : ℕ) (info' : MessageInfo) (target : Option ℕ)
    → Refused (execute_exit_cancelled c now' info' id target (run c calls store'))
      × Refused (execute_cancel_stream_with_threshold c now' info' id (run c calls store'))
      × Refused (execute_cancel_stream c info' id (run c calls store'))
      × Refused (sudo_cancel_stream c id (run c calls store'))
finalized_not_refunded c d now info id treasury store store' v l st h calls late now' info' target =
    let (spent, o, r) = finalized-Over c d now info id treasury store store' v l st h in
    let p = run-Over c d calls store' late o in
    let q = kept_from_cancel c (run c calls store') p now' info' in
    (kept_from_refund c d (run c calls store') p r now' info' target, q.0, q.1, q.2)
