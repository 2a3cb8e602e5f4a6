-- ===== src/Contract/Finish/Once.antt =====
-- How often `execute_finalize_stream` (src/contract.rs) can succeed.
use cw_streamswap.Base.{
  nat_key, ℕ, ◌≤◌, ◌<◌, ◌≡◌, ◌∙◌, Option, some, List, ◌==◌, arith, false, true, leb,
}
use cw_streamswap.Dict.{may_load, save}
use cw_streamswap.Dict.Laws.{may_load-save}
use cw_streamswap.Error.{
  ContractError, ok, ◌>>=◌, ◌>>◌, or_fail, or_threshold, Ensures, Returns, by_result, of_Ensures,
}
use cw_streamswap.Cosmwasm.{MessageInfo, Cosmwasm}
use cw_streamswap.Cosmwasm.Documented.{Documented}
use cw_streamswap.Threshold.{error_if_not_reached}
use cw_streamswap.State.{
  unwrap_or, status_eq, is_killswitch_active, Stream, Storage, waiting, finalized,
}
use cw_streamswap.Handler.{Send, Outcome, save_stream, load_config}
use cw_streamswap.Contract.Stream.Release.{update_stream-Ensures}
use cw_streamswap.Contract.Finish.{
  update_if_behind, closed, execute_finalize_stream, finalize_messages,
}

-- After the update the stream is past its end, with its end, status and treasury.
abbrev pub Ended : ℕ → Stream → Stream → Type 0
Ended now s t =
    (t.end_time ≡ s.end_time)
    × (t.end_time ≤ t.last_updated)
    × (t.status ≡ s.status)
    × (t.treasury ≡ s.treasury)

pub ended :
    (c : Cosmwasm)
    → Documented c
    → (now : ℕ) (s : Stream) → s.end_time < now
    → Ensures (Ended now s) (update_if_behind c now s)
unfolding update_if_behind
ended c d now s h = ground (arith, update_stream-Ensures c d now s)

-- Such a stream is not updated again.
not_behind :
    (c : Cosmwasm) (now : ℕ) (t : Stream)
    → t.end_time ≤ t.last_updated
    → update_if_behind c now t ≡ ok t
unfolding update_if_behind
not_behind c now t h = ground arith

-- The rest of the handler, for a waiting stream, once the update is done.
abbrev after_update : Cosmwasm → ℕ → Option ℕ → Storage → Stream → Outcome
after_update c id new_treasury store t = do
  or_threshold (error_if_not_reached id store.thresholds t)
  let store' = save_stream store id t
  config ← load_config store'
  given ← or_fail (c.api.maybe_addr new_treasury) ContractError.std
  messages ← finalize_messages c config (unwrap_or given t.treasury) t
  ok (messages, store')

-- The handler's four guards let the call through.
abbrev Guards : ℕ → MessageInfo → Stream → Type 0
Guards now info s =
    (status_eq s.status finalized ≡ false)
    × (is_killswitch_active s ≡ false)
    × ((s.treasury == info.sender) ≡ true)
    × (leb now s.end_time ≡ false)

after_update_again :
    (c : Cosmwasm) (id : ℕ) (new_treasury : Option ℕ) (store store' : Storage) (t : Stream)
    {messages : List Send}
    → after_update c id new_treasury store t ≡ ok (messages, store')
    → Returns
        (λ (again, _). again ≡ messages)
        (after_update c id new_treasury (save_stream store id t) t)
after_update_again c id new_treasury store store' t h = ground arith

-- A stream that was still waiting when it was finalized (nobody subscribed after its start) can be
-- finalized again: in the storage that is left, at any later time, the treasury's same call
-- succeeds once more, and sends the same messages.
pub waiting_finalized_again :
    (c : Cosmwasm)
    → Documented c
    → (now now' : ℕ) (info : MessageInfo) (id : ℕ) (new_treasury : Option ℕ)
      (store store' : Storage) {s : Stream} {messages : List Send}
    → may_load store.streams id ≡ some s
    → s.status ≡ waiting
    → execute_finalize_stream c now info id new_treasury store ≡ ok (messages, store')
    → now ≤ now'
    → Returns
        (λ (again, _). again ≡ messages)
        (execute_finalize_stream c now' info id new_treasury store')
unfolding execute_finalize_stream is_killswitch_active
waiting_finalized_again c d now now' info id new_treasury store store' {s} {messages} l st h le =
    by_result (update_if_behind c now s) (λ e u. absurd (ground arith))
      λ t u.
        let over : s.end_time < now = ground arith in
        let e : Ended now s t = of_Ensures (Ended now s) _ (ended c d now s over) u in
        let same : closed t ≡ t = ground arith in
        let left : store' ≡ save_stream store id t = ground arith in
        let found : may_load (save store.streams id t) id ≡ some t =
          may_load-save store.streams id id t ∙ ground arith in
        let open_s : Guards now info s = ground arith in
        let open_t : Guards now' info t = ground arith in
        let first : after_update c id new_treasury store t ≡ ok (messages, store') =
          simp (l, u, same, open_s.0, open_s.1, open_s.2, open_s.3) at h in
        rw left (
          simp (found, not_behind c now' t e.1, same, open_t.0, open_t.1, open_t.2, open_t.3)
            (after_update_again c id new_treasury store store' t first))
