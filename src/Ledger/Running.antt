-- ===== src/Ledger/Running.antt =====
-- The invariant and the handlers of src/contract.rs on a stream before its end.
use cw_streamswap.Base.{nat_key, pair_key, ℕ, ◌≤◌, ◌≡◌, Option, some, List, refl, arith}
use cw_streamswap.Dict.{may_load}
use cw_streamswap.Dict.Sums.{may_load-All}
use cw_streamswap.Error.{Ensures, by_option, by_result, of_Ensures}
use cw_streamswap.Cosmwasm.{MessageInfo, Cosmwasm}
use cw_streamswap.Cosmwasm.Documented.{Documented}
use cw_streamswap.State.{Stream, Position, Storage, unwrap_or}
use cw_streamswap.Handler.{Send}
use cw_streamswap.Contract.Stream.{update_stream, execute_update_stream}
use cw_streamswap.Contract.Stream.Release.{Updates, update_stream-Ensures}
use cw_streamswap.Contract.Position.{
  sync_position, execute_update_position, execute_update_operator,
}
use cw_streamswap.Contract.Position.Accounting.{Syncs, update_position-Ensures}
use cw_streamswap.Ledger.{InStep, IsBacked}
use cw_streamswap.Ledger.Writes.{write-IsBacked, save_stream-IsBacked, save_position-IsBacked}

abbrev pub Keeps : List Send × Storage → Type 0
Keeps (messages, store') = IsBacked store'

pub execute_update_stream-IsBacked :
    (c : Cosmwasm)
    → Documented c
    → (now id : ℕ) (store : Storage) → IsBacked store
    → Ensures Keeps (execute_update_stream c now id store)
unfolding execute_update_stream
execute_update_stream-IsBacked c d now id store v =
    by_option (may_load store.streams id) (λ l. ground arith)
      λ s l.
        by_result (update_stream c now s) (λ e h. ground arith)
          λ (diff, sold, t) h.
            let u : Updates now s (diff, sold, t) =
              of_Ensures (Updates now s) _ (update_stream-Ensures c d now s) h in
            let w = save_stream-IsBacked store id s t v l u.0.index_grows (omega arith) in
            ground arith

-- The facts about a loaded position.
pub position_in_step :
    (store : Storage) (id addr : ℕ) (s : Stream) (p : Position)
    → IsBacked store
    → may_load store.streams id ≡ some s
    → may_load store.positions (id, addr) ≡ some p
    → (p.owner ≡ addr) × (p.index ≤ s.dist_index)
position_in_step store id addr s p v l lp =
    ground (arith, may_load-All (InStep store.streams) store.positions (id, addr) p v.in_step lp)

pub execute_update_position-IsBacked :
    (c : Cosmwasm)
    → Documented c
    → (now : ℕ) (info : MessageInfo) (id : ℕ) (operator_target : Option ℕ) (store : Storage)
    → IsBacked store
    → Ensures Keeps (execute_update_position c now info id operator_target store)
unfolding execute_update_position
execute_update_position-IsBacked c d now info id operator_target store v =
    by_option (c.api.maybe_addr operator_target) (λ l. ground arith)
      λ given lt.
        let target = unwrap_or given info.sender in
        by_option (may_load store.positions (id, target)) (λ l. ground arith)
          λ p lp.
            by_option (may_load store.streams id) (λ l. ground arith)
              λ s l.
                by_result (update_stream c now s) (λ e h. ground arith)
                  λ (diff, sold, t) h.
                    by_result (sync_position c t p) (λ e k. simp (lt, lp, l, h, k) (ground arith))
                      λ (whole, spent, q) k.
                        let u : Updates now s (diff, sold, t) =
                          of_Ensures (Updates now s) _ (update_stream-Ensures c d now s) h in
                        let y : Syncs t.dist_index t.shares t.last_updated t.in_supply p
                            (whole, spent, q) =
                          of_Ensures (Syncs t.dist_index t.shares t.last_updated t.in_supply p) _
                            (update_position-Ensures c d t.dist_index t.shares t.last_updated
                              t.in_supply p)
                            k in
                        let o = position_in_step store id target s p v l lp in
                        let w =
                          write-IsBacked store id q.owner s t q v l u.0.index_grows refl
                            (omega arith) (ground arith) in
                        simp (lt, lp, l, h, k) (ground arith)

pub execute_update_operator-IsBacked :
    (c : Cosmwasm) (info : MessageInfo) (id : ℕ) (operator : Option ℕ) (store : Storage)
    → IsBacked store
    → Ensures Keeps (execute_update_operator c info id operator store)
unfolding execute_update_operator
execute_update_operator-IsBacked c info id operator store v =
    by_option (may_load store.positions (id, info.sender)) (λ l. ground arith)
      λ p lp.
        by_option (c.api.maybe_addr operator) (λ l. ground arith)
          λ given l.
            let w =
              save_position-IsBacked store id info.sender p (record p { operator = given }) v lp
                refl refl refl in
            ground arith
