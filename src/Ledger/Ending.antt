-- ===== src/Ledger/Ending.antt =====
-- The invariant, and finalizing and exiting (src/contract.rs).
use cw_streamswap.Base.{nat_key, pair_key, ℕ, ◌+◌, ◌≤◌, ◌≡◌, Option, arith}
use cw_streamswap.Dict.{may_load}
use cw_streamswap.Error.{Ensures, by_option, by_result, of_Ensures}
use cw_streamswap.Cosmwasm.{MessageInfo, Cosmwasm}
use cw_streamswap.Cosmwasm.Documented.{Documented}
use cw_streamswap.State.{Stream, Position, Storage, unwrap_or}
use cw_streamswap.Contract.Stream.Release.{update_stream-Ensures}
use cw_streamswap.Contract.Position.{sync_position}
use cw_streamswap.Contract.Position.Accounting.{Syncs, update_position-Ensures}
use cw_streamswap.Contract.Finish.{
  update_if_behind, closed, exit_messages, execute_finalize_stream, execute_exit_stream,
}
use cw_streamswap.Ledger.{IsBacked}
use cw_streamswap.Ledger.Writes.{save_stream-IsBacked, remove-IsBacked}
use cw_streamswap.Ledger.Running.{Keeps, position_in_step}

-- The update that is made only if the stream is behind its end keeps the shares and raises the
-- index.
pub update_if_behind-Ensures :
    (c : Cosmwasm)
    → Documented c
    → (now : ℕ) (s : Stream)
    → Ensures
        (λ t.
          (s.dist_index ≤ t.dist_index)
          × (t.shares ≡ s.shares)
          × (t.in_supply + t.spent_in ≡ s.in_supply + s.spent_in))
        (update_if_behind c now s)
unfolding update_if_behind
update_if_behind-Ensures c d now s = ground (arith, update_stream-Ensures c d now s)

closed_index : (s : Stream) → (closed s).dist_index ≡ s.dist_index
closed_index s = ground arith

closed_shares : (s : Stream) → (closed s).shares ≡ s.shares
closed_shares s = ground arith

pub execute_finalize_stream-IsBacked :
    (c : Cosmwasm)
    → Documented c
    → (now : ℕ) (info : MessageInfo) (id : ℕ) (new_treasury : Option ℕ) (store : Storage)
    → IsBacked store
    → Ensures Keeps (execute_finalize_stream c now info id new_treasury store)
unfolding execute_finalize_stream
execute_finalize_stream-IsBacked c d now info id new_treasury store v =
    by_option (may_load store.streams id) (λ l. simp l (ground arith))
      λ s l.
        by_result (update_if_behind c now s) (λ e h. simp (l, h) (ground arith))
          λ t h.
            let u = of_Ensures _ _ (update_if_behind-Ensures c d now s) h in
            let w =
              save_stream-IsBacked store id s (closed t) v l (omega (arith, closed_index t))
                (omega (arith, closed_shares t)) in
            simp (l, h) (ground arith)

-- The shares that an exit leaves the stream.
exit_messages-Ensures :
    (c : Cosmwasm)
    → Documented c
    → (target : ℕ) (s : Stream) (p : Position)
    → Ensures (λ (shares, messages). shares + p.shares ≡ s.shares) (exit_messages c target s p)
unfolding exit_messages
exit_messages-Ensures c d target s p = ground (arith, d.num.checked_sub s.shares p.shares)

pub execute_exit_stream-IsBacked :
    (c : Cosmwasm)
    → Documented c
    → (now : ℕ) (info : MessageInfo) (id : ℕ) (operator_target : Option ℕ) (store : Storage)
    → IsBacked store
    → Ensures Keeps (execute_exit_stream c now info id operator_target store)
unfolding execute_exit_stream
execute_exit_stream-IsBacked c d now info id operator_target store v =
    by_option (may_load store.streams id) (λ l. simp l (ground arith))
      λ s l.
        by_result (update_if_behind c now s) (λ e h. simp (l, h) (ground arith))
          λ t h.
            by_option (c.api.maybe_addr operator_target) (λ lt. simp (l, h, lt) (ground arith))
              λ given lt.
                let target = unwrap_or given info.sender in
                by_option (may_load store.positions (id, target))
                  (λ lp. simp (l, h, lt, lp) (ground arith))
                  λ p lp.
                    by_result (sync_position c t p) (λ e k. simp (l, h, lt, lp, k) (ground arith))
                      λ (whole, spent, q) k.
                        by_result (exit_messages c target t q)
                          (λ e m. simp (l, h, lt, lp, k, m) (ground arith))
                          λ (shares, messages) m.
                            let u = of_Ensures _ _ (update_if_behind-Ensures c d now s) h in
                            let y : Syncs t.dist_index t.shares t.last_updated t.in_supply p
                                (whole, spent, q) =
                              of_Ensures (Syncs t.dist_index t.shares t.last_updated t.in_supply p)
                                _
                                (update_position-Ensures c d t.dist_index t.shares t.last_updated
                                  t.in_supply p)
                                k in
                            let x : shares + q.shares ≡ t.shares =
                              of_Ensures _ _ (exit_messages-Ensures c d target t q) m in
                            let o = position_in_step store id target s p v l lp in
                            let same : q.owner ≡ target = ground arith in
                            let w =
                              remove-IsBacked store id target s (record t { shares = shares }) p v l
                                lp (omega arith) (omega arith) in
                            simp (l, h, lt, lp, k, m, same) (ground arith)
