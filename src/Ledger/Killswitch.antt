-- ===== src/Ledger/Killswitch.antt =====
-- The invariant and the killswitch (src/killswitch.rs).
use cw_streamswap.Base.{nat_key, pair_key, ℕ, ◌≡◌, Option, none, arith}
use cw_streamswap.Dict.{may_load}
use cw_streamswap.Error.{Ensures, by_option, by_result, of_Ensures}
use cw_streamswap.Cosmwasm.{MessageInfo, Cosmwasm}
use cw_streamswap.Cosmwasm.Documented.{Documented}
use cw_streamswap.State.{Stream, Storage, cancelled, unwrap_or}
use cw_streamswap.Contract.Stream.{update_stream}
use cw_streamswap.Contract.Stream.Release.{Updates, update_stream-Ensures}
use cw_streamswap.Contract.Finish.{update_if_behind}
use cw_streamswap.Killswitch.Pause.{
  pause_stream, postponed, execute_pause_stream, execute_resume_stream, execute_cancel_stream,
  sudo_pause_stream, sudo_resume_stream, sudo_cancel_stream,
}
use cw_streamswap.Killswitch.Refund.{execute_exit_cancelled, execute_cancel_stream_with_threshold}
use cw_streamswap.Ledger.{IsBacked}
use cw_streamswap.Ledger.Writes.{save_stream-IsBacked, forget-IsBacked}
use cw_streamswap.Ledger.Running.{Keeps}
use cw_streamswap.Ledger.Ending.{update_if_behind-Ensures}

pub sudo_pause_stream-IsBacked :
    (c : Cosmwasm)
    → Documented c
    → (now id : ℕ) (store : Storage) → IsBacked store
    → Ensures Keeps (sudo_pause_stream c now id store)
unfolding sudo_pause_stream
sudo_pause_stream-IsBacked c d now id store v =
    by_option (may_load store.streams id) (λ l. simp l (ground arith))
      λ s l.
        by_result (update_stream c now s) (λ e h. simp (l, h) (ground arith))
          λ (diff, sold, t) h.
            let u : Updates now s (diff, sold, t) =
              of_Ensures (Updates now s) _ (update_stream-Ensures c d now s) h in
            let w =
              save_stream-IsBacked store id s (pause_stream now t) v l u.0.index_grows
                (omega arith) in
            simp (l, h) (ground arith)

pub execute_pause_stream-IsBacked :
    (c : Cosmwasm)
    → Documented c
    → (now : ℕ) (info : MessageInfo) (id : ℕ) (store : Storage) → IsBacked store
    → Ensures Keeps (execute_pause_stream c now info id store)
unfolding execute_pause_stream
execute_pause_stream-IsBacked c d now info id store v =
    by_option (may_load store.streams id) (λ l. simp l (ground arith))
      λ s l.
        by_result (update_stream c now s) (λ e h. simp (l, h) (ground arith))
          λ (diff, sold, t) h.
            let u : Updates now s (diff, sold, t) =
              of_Ensures (Updates now s) _ (update_stream-Ensures c d now s) h in
            let w =
              save_stream-IsBacked store id s (pause_stream now t) v l u.0.index_grows
                (omega arith) in
            simp (l, h) (ground arith)

-- Postponing a stream leaves its amounts.
postponed-Ensures :
    (c : Cosmwasm) (now : ℕ) (s : Stream)
    → Ensures (λ t. (t.dist_index ≡ s.dist_index) × (t.shares ≡ s.shares)) (postponed c now s)
unfolding postponed
postponed-Ensures c now s = ground arith

pub execute_resume_stream-IsBacked :
    (c : Cosmwasm) (now : ℕ) (info : MessageInfo) (id : ℕ) (store : Storage)
    → IsBacked store
    → Ensures Keeps (execute_resume_stream c now info id store)
unfolding execute_resume_stream
execute_resume_stream-IsBacked c now info id store v =
    by_option (may_load store.streams id) (λ l. simp l (ground arith))
      λ s l.
        by_result (postponed c now s) (λ e h. simp (l, h) (ground arith))
          λ t h.
            let u = of_Ensures _ _ (postponed-Ensures c now s) h in
            let w = save_stream-IsBacked store id s t v l (omega arith) (omega arith) in
            simp (l, h) (ground arith)

pub sudo_resume_stream-IsBacked :
    (c : Cosmwasm) (now id : ℕ) (store : Storage)
    → IsBacked store
    → Ensures Keeps (sudo_resume_stream c now id store)
unfolding sudo_resume_stream
sudo_resume_stream-IsBacked c now id store v =
    by_option (may_load store.streams id) (λ l. simp l (ground arith))
      λ s l.
        by_result (postponed c now s) (λ e h. simp (l, h) (ground arith))
          λ t h.
            let u = of_Ensures _ _ (postponed-Ensures c now s) h in
            let w =
              save_stream-IsBacked store id s (record t { pause_date = none }) v l (omega arith)
                (omega arith) in
            simp (l, h) (ground arith)

pub sudo_cancel_stream-IsBacked :
    (c : Cosmwasm) (id : ℕ) (store : Storage)
    → IsBacked store
    → Ensures Keeps (sudo_cancel_stream c id store)
unfolding sudo_cancel_stream
sudo_cancel_stream-IsBacked c id store v =
    by_option (may_load store.streams id) (λ l. simp l (ground arith))
      λ s l.
        let w =
          save_stream-IsBacked store id s (record s { status = cancelled }) v l (omega arith)
            (omega arith) in
        simp l (ground arith)

pub execute_cancel_stream-IsBacked :
    (c : Cosmwasm) (info : MessageInfo) (id : ℕ) (store : Storage)
    → IsBacked store
    → Ensures Keeps (execute_cancel_stream c info id store)
unfolding execute_cancel_stream
execute_cancel_stream-IsBacked c info id store v =
    ground (arith, sudo_cancel_stream-IsBacked c id store v)

pub execute_cancel_stream_with_threshold-IsBacked :
    (c : Cosmwasm)
    → Documented c
    → (now : ℕ) (info : MessageInfo) (id : ℕ) (store : Storage) → IsBacked store
    → Ensures Keeps (execute_cancel_stream_with_threshold c now info id store)
unfolding execute_cancel_stream_with_threshold
execute_cancel_stream_with_threshold-IsBacked c d now info id store v =
    by_option (may_load store.streams id) (λ l. simp l (ground arith))
      λ s l.
        by_result (update_if_behind c now s) (λ e h. simp (l, h) (ground arith))
          λ t h.
            let u = of_Ensures _ _ (update_if_behind-Ensures c d now s) h in
            let w =
              save_stream-IsBacked store id s (record t { status = cancelled }) v l (omega arith)
                (omega arith) in
            simp (l, h) (ground arith)

pub execute_exit_cancelled-IsBacked :
    (c : Cosmwasm) (now : ℕ) (info : MessageInfo) (id : ℕ) (operator_target : Option ℕ)
    (store : Storage)
    → IsBacked store
    → Ensures Keeps (execute_exit_cancelled c now info id operator_target store)
unfolding execute_exit_cancelled
execute_exit_cancelled-IsBacked c now info id operator_target store v =
    by_option (may_load store.streams id) (λ l. simp l (ground arith))
      λ s l.
        by_option (c.api.maybe_addr operator_target) (λ lt. simp (l, lt) (ground arith))
          λ given lt.
            by_option (may_load store.positions (id, unwrap_or given info.sender))
              (λ lp. simp (l, lt, lp) (ground arith))
              λ p lp. let w = forget-IsBacked store id p.owner v in simp (l, lt, lp) (ground arith)
