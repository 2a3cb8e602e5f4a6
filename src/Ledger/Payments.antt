-- ===== src/Ledger/Payments.antt =====
-- The invariant, and subscriptions and withdrawals (src/contract.rs).
use cw_streamswap.Base.{nat_key, pair_key, ℕ, ◌≤◌, ◌≡◌, Option, none, some, false, refl, ◌∙◌, arith}
use cw_streamswap.Dict.{may_load}
use cw_streamswap.Dict.Sums.{weight_at}
use cw_streamswap.Error.{Ensures, by_option, by_result, of_Ensures}
use cw_streamswap.Cosmwasm.{MessageInfo, Cosmwasm}
use cw_streamswap.Cosmwasm.Documented.{Documented}
use cw_streamswap.State.{Stream, Position, Storage, unwrap_or, compute_shares_amount}
use cw_streamswap.Contract.Stream.{update_stream}
use cw_streamswap.Contract.Stream.Release.{Updates, update_stream-Ensures}
use cw_streamswap.Contract.Position.{sync_position}
use cw_streamswap.Contract.Position.Accounting.{Syncs, update_position-Ensures}
use cw_streamswap.Contract.Subscribe.{
  activated, join, join_pending, take_in, execute_subscribe, execute_subscribe_pending,
}
use cw_streamswap.Contract.Subscribe.Payments.{
  Joins, Enters, TakesIn, owner_or, held, index_or, join-Ensures, join_pending-Ensures,
  take_in-Ensures,
}
use cw_streamswap.Contract.Withdraw.{take_out, execute_withdraw, execute_withdraw_pending}
use cw_streamswap.Contract.Withdraw.Amounts.{TakesOut, take_out-Ensures}
use cw_streamswap.Killswitch.Refund.{execute_withdraw_paused}
use cw_streamswap.Ledger.{shares_in, IsBacked}
use cw_streamswap.Ledger.Writes.{write-IsBacked}
use cw_streamswap.Ledger.Running.{Keeps, position_in_step}

pub execute_withdraw-IsBacked :
    (c : Cosmwasm)
    → Documented c
    → (now : ℕ) (info : MessageInfo) (id : ℕ) (s : Stream) (cap operator_target : Option ℕ)
      (store : Storage)
    → IsBacked store
    → may_load store.streams id ≡ some s
    → Ensures Keeps (execute_withdraw c now info id s cap operator_target store)
unfolding execute_withdraw
execute_withdraw-IsBacked c d now info id s cap operator_target store v l =
    by_option (c.api.maybe_addr operator_target) (λ lt. simp lt (ground arith))
      λ given lt.
        let target = unwrap_or given info.sender in
        by_option (may_load store.positions (id, target)) (λ lp. simp (lt, lp) (ground arith))
          λ p lp.
            by_result (update_stream c now s) (λ e h. simp (lt, lp, h) (ground arith))
              λ (diff, sold, t) h.
                by_result (sync_position c t p) (λ e k. simp (lt, lp, h, k) (ground arith))
                  λ (whole, spent, q) k.
                    by_result (take_out c cap t q) (λ e m. simp (lt, lp, h, k, m) (ground arith))
                      λ (amount, t', q') m.
                        let u : Updates now s (diff, sold, t) =
                          of_Ensures (Updates now s) _ (update_stream-Ensures c d now s) h in
                        let y : Syncs t.dist_index t.shares t.last_updated t.in_supply p
                            (whole, spent, q) =
                          of_Ensures (Syncs t.dist_index t.shares t.last_updated t.in_supply p) _
                            (update_position-Ensures c d t.dist_index t.shares t.last_updated
                              t.in_supply p)
                            k in
                        let z : TakesOut cap t q (amount, t', q') =
                          of_Ensures (TakesOut cap t q) _ (take_out-Ensures c d cap t q) m in
                        let o = position_in_step store id target s p v l lp in
                        let w =
                          write-IsBacked store id q'.owner s t' q' v l (omega arith) refl
                            (omega arith) (ground arith) in
                        simp (lt, lp, h, k, m) (ground arith)

pub execute_withdraw_pending-IsBacked :
    (c : Cosmwasm)
    → Documented c
    → (info : MessageInfo) (id : ℕ) (s : Stream) (cap operator_target : Option ℕ) (store : Storage)
    → IsBacked store
    → may_load store.streams id ≡ some s
    → Ensures Keeps (execute_withdraw_pending c info id s cap operator_target store)
unfolding execute_withdraw_pending
execute_withdraw_pending-IsBacked c d info id s cap operator_target store v l =
    by_option (c.api.maybe_addr operator_target) (λ lt. simp lt (ground arith))
      λ given lt.
        let target = unwrap_or given info.sender in
        by_option (may_load store.positions (id, target)) (λ lp. simp (lt, lp) (ground arith))
          λ p lp.
            by_result (take_out c cap s p) (λ e m. simp (lt, lp, m) (ground arith))
              λ (amount, t, q) m.
                let z : TakesOut cap s p (amount, t, q) =
                  of_Ensures (TakesOut cap s p) _ (take_out-Ensures c d cap s p) m in
                let o = position_in_step store id target s p v l lp in
                let w =
                  write-IsBacked store id q.owner s t q v l (omega arith) refl (omega arith)
                    (ground arith) in
                simp (lt, lp, m) (ground arith)

pub execute_withdraw_paused-IsBacked :
    (c : Cosmwasm)
    → Documented c
    → (info : MessageInfo) (id : ℕ) (cap operator_target : Option ℕ) (store : Storage)
    → IsBacked store
    → Ensures Keeps (execute_withdraw_paused c info id cap operator_target store)
unfolding execute_withdraw_paused
execute_withdraw_paused-IsBacked c d info id cap operator_target store v =
    by_option (may_load store.streams id) (λ l. simp l (ground arith))
      λ s l.
        by_option (c.api.maybe_addr operator_target) (λ lt. simp (l, lt) (ground arith))
          λ given lt.
            let target = unwrap_or given info.sender in
            by_option (may_load store.positions (id, target))
              (λ lp. simp (l, lt, lp) (ground arith))
              λ p lp.
                by_result (sync_position c s p) (λ e k. simp (l, lt, lp, k) (ground arith))
                  λ (whole, spent, q) k.
                    by_result (take_out c cap s q) (λ e m. simp (l, lt, lp, k, m) (ground arith))
                      λ (amount, t, q') m.
                        let y : Syncs s.dist_index s.shares s.last_updated s.in_supply p
                            (whole, spent, q) =
                          of_Ensures (Syncs s.dist_index s.shares s.last_updated s.in_supply p) _
                            (update_position-Ensures c d s.dist_index s.shares s.last_updated
                              s.in_supply p)
                            k in
                        let z : TakesOut cap s q (amount, t, q') =
                          of_Ensures (TakesOut cap s q) _ (take_out-Ensures c d cap s q) m in
                        let o = position_in_step store id target s p v l lp in
                        let w =
                          write-IsBacked store id q'.owner s t q' v l (omega arith) refl
                            (omega arith) (ground arith) in
                        simp (l, lt, lp, k, m) (ground arith)

-- A stream's first subscription activates it, and changes nothing that counts here.
activated_index : (s : Stream) → (activated s).dist_index ≡ s.dist_index
activated_index s = ground arith

activated_shares : (s : Stream) → (activated s).shares ≡ s.shares
activated_shares s = ground arith

-- A position that is there is in step; of one that is not, nothing is held.
entering :
    (store : Storage) (id addr : ℕ) (s : Stream) (o : Option Position)
    → IsBacked store
    → may_load store.streams id ≡ some s
    → may_load store.positions (id, addr) ≡ o
    → (owner_or o addr ≡ addr)
      × (weight_at (shares_in id) store.positions (id, addr) ≡ held o)
      × (index_or o ≤ s.dist_index)
entering store id addr s none v l lo = ground arith
entering store id addr s (some p) v l lo = ground (arith, position_in_step store id addr s p v l lo)

pub execute_subscribe-IsBacked :
    (c : Cosmwasm)
    → Documented c
    → (now : ℕ) (info : MessageInfo) (id : ℕ) (operator operator_target : Option ℕ) (s : Stream)
      (store : Storage)
    → IsBacked store
    → may_load store.streams id ≡ some s
    → Ensures Keeps (execute_subscribe c now info id operator operator_target s store)
unfolding execute_subscribe
execute_subscribe-IsBacked c d now info id operator operator_target s store v l =
    by_option (c.api.must_pay info s.in_denom) (λ lm. simp lm (ground arith))
      λ amount lm.
        by_option (c.api.maybe_addr operator) (λ la. simp (lm, la) (ground arith))
          λ operator' la.
            by_option (c.api.maybe_addr operator_target) (λ lt. simp (lm, la, lt) (ground arith))
              λ given lt.
                let target = unwrap_or given info.sender in
                let o = may_load store.positions (id, target) in
                by_result (join c now info operator' target amount (activated s) o)
                  (λ e h. simp (lm, la, lt, h) (ground arith))
                  λ (minted, t, q) h.
                    by_result (take_in c amount minted t)
                      (λ e k. simp (lm, la, lt, h, k) (ground arith))
                      λ t' k.
                        let y : Joins now target amount (activated s) o (minted, t, q) =
                          of_Ensures (Joins now target amount (activated s) o) _
                            (join-Ensures c d now info operator' target amount (activated s) o) h in
                        let z : TakesIn amount minted t t' =
                          of_Ensures (TakesIn amount minted t) _
                            (take_in-Ensures c d amount minted t) k in
                        let n = entering store id target s o v l refl in
                        let w =
                          write-IsBacked store id target s t' q v l
                            (omega (arith, activated_index s)) (y.0.2 ∙ n.0) (omega arith)
                            (omega (arith, activated_shares s)) in
                        simp (lm, la, lt, h, k) (ground arith)

pub execute_subscribe_pending-IsBacked :
    (c : Cosmwasm)
    → Documented c
    → (now : ℕ) (info : MessageInfo) (id : ℕ) (operator operator_target : Option ℕ) (s : Stream)
      (store : Storage)
    → IsBacked store
    → may_load store.streams id ≡ some s
    → Ensures Keeps (execute_subscribe_pending c now info id operator operator_target s store)
unfolding execute_subscribe_pending
execute_subscribe_pending-IsBacked c d now info id operator operator_target s store v l =
    by_option (c.api.must_pay info s.in_denom) (λ lm. simp lm (ground arith))
      λ amount lm.
        by_result (compute_shares_amount c s amount false) (λ e ls. simp (lm, ls) (ground arith))
          λ minted ls.
            by_option (c.api.maybe_addr operator) (λ la. simp (lm, ls, la) (ground arith))
              λ operator' la.
                by_option (c.api.maybe_addr operator_target)
                  (λ lt. simp (lm, ls, la, lt) (ground arith))
                  λ given lt.
                    let target = unwrap_or given info.sender in
                    let o = may_load store.positions (id, target) in
                    by_result (join_pending c now info operator' target amount minted s o)
                      (λ e h. simp (lm, ls, la, lt, h) (ground arith))
                      λ q h.
                        by_result (take_in c amount minted s)
                          (λ e k. simp (lm, ls, la, lt, h, k) (ground arith))
                          λ t k.
                            let n = entering store id target s o v l refl in
                            let y : Enters o target amount minted s.dist_index q =
                              of_Ensures (Enters o target amount minted s.dist_index) _
                                (join_pending-Ensures c d now info operator' target amount minted s
                                  o n.2)
                                h in
                            let z : TakesIn amount minted s t =
                              of_Ensures (TakesIn amount minted s) _
                                (take_in-Ensures c d amount minted s) k in
                            let w =
                              write-IsBacked store id target s t q v l (omega arith) (y.2 ∙ n.0)
                                (omega arith) (omega arith) in
                            simp (lm, ls, la, lt, h, k) (ground arith)
