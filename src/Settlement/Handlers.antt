-- ===== src/Settlement/Handlers.antt =====
-- A finalized stream and the handlers of src/contract.rs.
use cw_streamswap.Base.{
  nat_key, pair_key, ℕ, ◌≤◌, ◌≡◌, Option, some, false, refl, arith, Bool-cases, inl, inr, ◌==◌,
}
use cw_streamswap.Dict.{may_load, save}
use cw_streamswap.Error.{Ensures, of_Ensures, by_result, by_option}
use cw_streamswap.Cosmwasm.{MessageInfo, Cosmwasm}
use cw_streamswap.Cosmwasm.Documented.{Documented}
use cw_streamswap.State.{Stream, Storage, unwrap_or, compute_shares_amount}
use cw_streamswap.Contract.Stream.{update_stream, execute_update_stream}
use cw_streamswap.Contract.Position.{sync_position, execute_update_position}
use cw_streamswap.Contract.Subscribe.{
  join, join_pending, take_in, activated, execute_subscribe, execute_subscribe_pending,
}
use cw_streamswap.Contract.Subscribe.Payments.{TakesIn, take_in-Ensures}
use cw_streamswap.Contract.Withdraw.{take_out, execute_withdraw, execute_withdraw_pending}
use cw_streamswap.Contract.Withdraw.Amounts.{TakesOut, take_out-Ensures}
use cw_streamswap.Handler.{save_stream, save_position}
use cw_streamswap.Settlement.{
  Over, Stays, save_stream-Over, save_other-Over, same-Over, update_stream-Spares,
}

module _ (c : Cosmwasm) (d : Documented c) {since id spent : ℕ} {threshold : Option ℕ} (now : ℕ)
    (le : since ≤ now) (store : Storage) (o : Over since id spent threshold store) where
  pub execute_update_stream-Over :
      (j : ℕ) → Ensures (Stays since id spent threshold) (execute_update_stream c now j store)
  unfolding execute_update_stream
  execute_update_stream-Over j =
      by_option (may_load store.streams j) (λ l. ground arith)
        λ s l.
          by_result (update_stream c now s) (λ e h. ground arith)
            λ (diff, sold, t) h.
              let w =
                save_stream-Over j t le o l (of_Ensures _ _ (update_stream-Spares c d now s) h) in
              ground arith

  pub execute_update_position-Over :
      (info : MessageInfo) (j : ℕ) (target : Option ℕ)
      → Ensures (Stays since id spent threshold) (execute_update_position c now info j target store)
  unfolding execute_update_position
  execute_update_position-Over info j target =
      by_option (c.api.maybe_addr target) (λ lt. simp lt (ground arith))
        λ given lt.
          by_option (may_load store.positions (j, unwrap_or given info.sender))
            (λ lp. simp (lt, lp) (ground arith))
            λ p lp.
              by_option (may_load store.streams j) (λ l. simp (lt, lp, l) (ground arith))
                λ s l.
                  by_result (update_stream c now s) (λ e h. simp (lt, lp, l, h) (ground arith))
                    λ (diff, sold, t) h.
                      by_result (sync_position c t p) (λ e k. simp (lt, lp, l, h, k) (ground arith))
                        λ (whole, paid, q) k.
                          let w =
                            save_stream-Over j t le o l
                              (of_Ensures _ _ (update_stream-Spares c d now s) h) in
                          let v =
                            same-Over {b = save_position (save_stream store j t) j q.owner q} refl
                              refl refl w in
                          simp (lt, lp, l, h, k) (ground arith)

  pub execute_withdraw-Over :
      (info : MessageInfo) (j : ℕ) (s : Stream) (cap target : Option ℕ)
      → may_load store.streams j ≡ some s
      → Ensures (Stays since id spent threshold) (execute_withdraw c now info j s cap target store)
  unfolding execute_withdraw
  execute_withdraw-Over info j s cap target l = elim (Bool-cases (j == id)) [
    | inl same ↦ ground (arith, o.over)
    | inr other ↦
        by_option (c.api.maybe_addr target) (λ lt. simp lt (ground arith))
          λ given lt.
            by_option (may_load store.positions (j, unwrap_or given info.sender))
              (λ lp. simp (lt, lp) (ground arith))
              λ p lp.
                by_result (update_stream c now s) (λ e h. simp (lt, lp, h) (ground arith))
                  λ (diff, sold, t) h.
                    by_result (sync_position c t p) (λ e k. simp (lt, lp, h, k) (ground arith))
                      λ (whole, paid, q) k.
                        by_result (take_out c cap t q)
                          (λ e m. simp (lt, lp, h, k, m) (ground arith))
                          λ (amount, t', q') m.
                            let w =
                              save_other-Over j other o t'
                                (save store.positions (j, q'.owner) q') in
                            simp (lt, lp, h, k, m) (ground arith)
  ]

  pub execute_withdraw_pending-Over :
      (info : MessageInfo) (j : ℕ) (s : Stream) (cap target : Option ℕ)
      → may_load store.streams j ≡ some s
      → Ensures
          (Stays since id spent threshold)
          (execute_withdraw_pending c info j s cap target store)
  unfolding execute_withdraw_pending
  execute_withdraw_pending-Over info j s cap target l =
      by_option (c.api.maybe_addr target) (λ lt. simp lt (ground arith))
        λ given lt.
          by_option (may_load store.positions (j, unwrap_or given info.sender))
            (λ lp. simp (lt, lp) (ground arith))
            λ p lp.
              by_result (take_out c cap s p) (λ e m. simp (lt, lp, m) (ground arith))
                λ (amount, t, q) m.
                  let z : TakesOut cap s p (amount, t, q) =
                    of_Ensures (TakesOut cap s p) _ (take_out-Ensures c d cap s p) m in
                  let w = save_stream-Over {now = now} j t le o l (ground arith) in
                  let v =
                    same-Over {b = save_position (save_stream store j t) j q.owner q} refl refl refl
                      w in
                  simp (lt, lp, m) (ground arith)

  pub execute_subscribe-Over :
      (info : MessageInfo) (j : ℕ) (operator target : Option ℕ) (s : Stream)
      → may_load store.streams j ≡ some s
      → Ensures
          (Stays since id spent threshold)
          (execute_subscribe c now info j operator target s store)
  unfolding execute_subscribe
  execute_subscribe-Over info j operator target s l = elim (Bool-cases (j == id)) [
    | inl same ↦ ground (arith, o.over)
    | inr other ↦
        by_option (c.api.must_pay info s.in_denom) (λ lm. simp lm (ground arith))
          λ amount lm.
            by_option (c.api.maybe_addr operator) (λ la. simp (lm, la) (ground arith))
              λ operator' la.
                by_option (c.api.maybe_addr target) (λ lt. simp (lm, la, lt) (ground arith))
                  λ given lt.
                    let addr = unwrap_or given info.sender in
                    by_result
                      (join c now info operator' addr amount (activated s)
                        (may_load store.positions (j, addr)))
                      (λ e h. simp (lm, la, lt, h) (ground arith))
                      λ (minted, t, q) h.
                        by_result (take_in c amount minted t)
                          (λ e k. simp (lm, la, lt, h, k) (ground arith))
                          λ t' k.
                            let w =
                              save_other-Over j other o t' (save store.positions (j, addr) q) in
                            simp (lm, la, lt, h, k) (ground arith)
  ]

  pub execute_subscribe_pending-Over :
      (info : MessageInfo) (j : ℕ) (operator target : Option ℕ) (s : Stream)
      → may_load store.streams j ≡ some s
      → Ensures
          (Stays since id spent threshold)
          (execute_subscribe_pending c now info j operator target s store)
  unfolding execute_subscribe_pending
  execute_subscribe_pending-Over info j operator target s l =
      by_option (c.api.must_pay info s.in_denom) (λ lm. simp lm (ground arith))
        λ amount lm.
          by_result (compute_shares_amount c s amount false) (λ e ls. simp (lm, ls) (ground arith))
            λ minted ls.
              by_option (c.api.maybe_addr operator) (λ la. simp (lm, ls, la) (ground arith))
                λ operator' la.
                  by_option (c.api.maybe_addr target) (λ lt. simp (lm, ls, la, lt) (ground arith))
                    λ given lt.
                      let addr = unwrap_or given info.sender in
                      by_result
                        (join_pending c now info operator' addr amount minted s
                          (may_load store.positions (j, addr)))
                        (λ e h. simp (lm, ls, la, lt, h) (ground arith))
                        λ q h.
                          by_result (take_in c amount minted s)
                            (λ e k. simp (lm, ls, la, lt, h, k) (ground arith))
                            λ t k.
                              let z : TakesIn amount minted s t =
                                of_Ensures (TakesIn amount minted s) _
                                  (take_in-Ensures c d amount minted s) k in
                              let w = save_stream-Over {now = now} j t le o l (ground arith) in
                              let v =
                                same-Over {b = save_stream (save_position store j addr q) j t} refl
                                  refl refl w in
                              simp (lm, ls, la, lt, h, k) (ground arith)
