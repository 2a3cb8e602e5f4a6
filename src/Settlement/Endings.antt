-- ===== src/Settlement/Endings.antt =====
-- A finalized stream, and the handlers that end streams or stop them (src/contract.rs,
-- src/killswitch.rs).
use cw_streamswap.Base.{
  nat_key, pair_key, ℕ, ◌≤◌, Option, none, refl, arith, Bool-cases, inl, inr, ◌==◌,
}
use cw_streamswap.Dict.{may_load, save, remove}
use cw_streamswap.Error.{Ensures, of_Ensures, by_result, by_option}
use cw_streamswap.Cosmwasm.{MessageInfo, Cosmwasm}
use cw_streamswap.Cosmwasm.Documented.{Documented}
use cw_streamswap.State.{Storage, cancelled, unwrap_or, is_paused}
use cw_streamswap.Contract.Stream.{update_stream}
use cw_streamswap.Contract.Position.{sync_position}
use cw_streamswap.Contract.Finish.{
  update_if_behind, exit_messages, closed, execute_finalize_stream, execute_exit_stream,
}
use cw_streamswap.Killswitch.Pause.{
  pause_stream, postponed, execute_pause_stream, execute_resume_stream, execute_cancel_stream,
  sudo_pause_stream, sudo_resume_stream, sudo_cancel_stream,
}
use cw_streamswap.Killswitch.Refund.{
  execute_withdraw_paused, execute_exit_cancelled, execute_cancel_stream_with_threshold,
}
use cw_streamswap.Contract.Withdraw.{take_out}
use cw_streamswap.Settlement.{
  Over, Stays, Spares, save_stream-Over, save_other-Over, same-Over, update_if_behind-Spares,
}

module _ (c : Cosmwasm) (d : Documented c) {since id spent : ℕ} {threshold : Option ℕ} (now : ℕ)
    (le : since ≤ now) (store : Storage) (o : Over since id spent threshold store) where
  pub execute_exit_stream-Over :
      (info : MessageInfo) (j : ℕ) (target : Option ℕ)
      → Ensures (Stays since id spent threshold) (execute_exit_stream c now info j target store)
  unfolding execute_exit_stream
  execute_exit_stream-Over info j target =
      by_option (may_load store.streams j) (λ l. simp l (ground arith))
        λ s l.
          by_result (update_if_behind c now s) (λ e h. simp (l, h) (ground arith))
            λ t h.
              by_option (c.api.maybe_addr target) (λ lt. simp (l, h, lt) (ground arith))
                λ given lt.
                  by_option (may_load store.positions (j, unwrap_or given info.sender))
                    (λ lp. simp (l, h, lt, lp) (ground arith))
                    λ p lp.
                      by_result (sync_position c t p) (λ e k. simp (l, h, lt, lp, k) (ground arith))
                        λ (whole, paid, q) k.
                          by_result (exit_messages c (unwrap_or given info.sender) t q)
                            (λ e m. simp (l, h, lt, lp, k, m) (ground arith))
                            λ (shares, messages) m.
                              let r : Spares now s t =
                                of_Ensures (Spares now s) _ (update_if_behind-Spares c d now s) h in
                              let w =
                                save_stream-Over {now = now} j (record t { shares = shares }) le o l
                                  r in
                              let v =
                                same-Over
                                  {b = record store {
                                    streams = save store.streams j (record t { shares = shares });
                                    positions = remove store.positions (j, q.owner);
                                  }}
                                  refl refl refl w in
                              simp (l, h, lt, lp, k, m) (ground arith)

  pub execute_finalize_stream-Over :
      (info : MessageInfo) (j : ℕ) (treasury : Option ℕ)
      → Ensures
          (Stays since id spent threshold)
          (execute_finalize_stream c now info j treasury store)
  unfolding execute_finalize_stream
  execute_finalize_stream-Over info j treasury = elim (Bool-cases (j == id)) [
    | inl same ↦ ground (arith, o.over)
    | inr other ↦
        by_option (may_load store.streams j) (λ l. simp l (ground arith))
          λ s l.
            by_result (update_if_behind c now s) (λ e h. simp (l, h) (ground arith))
              λ t h.
                let w = save_other-Over j other o (closed t) store.positions in
                simp (l, h) (ground arith)
  ]

  pub sudo_pause_stream-Over :
      (j : ℕ) → Ensures (Stays since id spent threshold) (sudo_pause_stream c now j store)
  unfolding sudo_pause_stream
  sudo_pause_stream-Over j = elim (Bool-cases (j == id)) [
    | inl same ↦ ground (arith, o.over)
    | inr other ↦
        by_option (may_load store.streams j) (λ l. simp l (ground arith))
          λ s l.
            by_result (update_stream c now s) (λ e h. simp (l, h) (ground arith))
              λ (diff, sold, t) h.
                let w = save_other-Over j other o (pause_stream now t) store.positions in
                simp (l, h) (ground arith)
  ]

  pub execute_pause_stream-Over :
      (info : MessageInfo) (j : ℕ)
      → Ensures (Stays since id spent threshold) (execute_pause_stream c now info j store)
  unfolding execute_pause_stream
  execute_pause_stream-Over info j = elim (Bool-cases (j == id)) [
    | inl same ↦ ground (arith, o.over)
    | inr other ↦
        by_option (may_load store.streams j) (λ l. simp l (ground arith))
          λ s l.
            by_result (update_stream c now s) (λ e h. simp (l, h) (ground arith))
              λ (diff, sold, t) h.
                let w = save_other-Over j other o (pause_stream now t) store.positions in
                simp (l, h) (ground arith)
  ]

  pub sudo_resume_stream-Over :
      (j : ℕ) → Ensures (Stays since id spent threshold) (sudo_resume_stream c now j store)
  unfolding sudo_resume_stream is_paused
  sudo_resume_stream-Over j = elim (Bool-cases (j == id)) [
    | inl same ↦ ground (arith, o.over)
    | inr other ↦
        by_option (may_load store.streams j) (λ l. simp l (ground arith))
          λ s l.
            by_result (postponed c now s) (λ e h. simp (l, h) (ground arith))
              λ t h.
                let w =
                  save_other-Over j other o (record t { pause_date = none }) store.positions in
                simp (l, h) (ground arith)
  ]

  pub execute_resume_stream-Over :
      (info : MessageInfo) (j : ℕ)
      → Ensures (Stays since id spent threshold) (execute_resume_stream c now info j store)
  unfolding execute_resume_stream
  execute_resume_stream-Over info j = elim (Bool-cases (j == id)) [
    | inl same ↦ ground (arith, o.over)
    | inr other ↦
        by_option (may_load store.streams j) (λ l. simp l (ground arith))
          λ s l.
            by_result (postponed c now s) (λ e h. simp (l, h) (ground arith))
              λ t h.
                let w = save_other-Over j other o t store.positions in simp (l, h) (ground arith)
  ]

  pub sudo_cancel_stream-Over :
      (j : ℕ) → Ensures (Stays since id spent threshold) (sudo_cancel_stream c j store)
  unfolding sudo_cancel_stream is_paused
  sudo_cancel_stream-Over j = elim (Bool-cases (j == id)) [
    | inl same ↦ ground (arith, o.over)
    | inr other ↦
        by_option (may_load store.streams j) (λ l. simp l (ground arith))
          λ s l.
            let w = save_other-Over j other o (record s { status = cancelled }) store.positions in
            simp l (ground arith)
  ]

  pub execute_cancel_stream-Over :
      (info : MessageInfo) (j : ℕ)
      → Ensures (Stays since id spent threshold) (execute_cancel_stream c info j store)
  unfolding execute_cancel_stream
  execute_cancel_stream-Over info j = ground (arith, sudo_cancel_stream-Over j)

  pub execute_cancel_stream_with_threshold-Over :
      (info : MessageInfo) (j : ℕ)
      → Ensures
          (Stays since id spent threshold)
          (execute_cancel_stream_with_threshold c now info j store)
  unfolding execute_cancel_stream_with_threshold
  execute_cancel_stream_with_threshold-Over info j = elim (Bool-cases (j == id)) [
    | inl same ↦ ground (arith, o.over)
    | inr other ↦
        by_option (may_load store.streams j) (λ l. simp l (ground arith))
          λ s l.
            by_result (update_if_behind c now s) (λ e h. simp (l, h) (ground arith))
              λ t h.
                let w =
                  save_other-Over j other o (record t { status = cancelled }) store.positions in
                simp (l, h) (ground arith)
  ]

  pub execute_withdraw_paused-Over :
      (info : MessageInfo) (j : ℕ) (cap target : Option ℕ)
      → Ensures (Stays since id spent threshold) (execute_withdraw_paused c info j cap target store)
  unfolding execute_withdraw_paused is_paused
  execute_withdraw_paused-Over info j cap target = elim (Bool-cases (j == id)) [
    | inl same ↦ ground (arith, o.over)
    | inr other ↦
        by_option (may_load store.streams j) (λ l. simp l (ground arith))
          λ s l.
            by_option (c.api.maybe_addr target) (λ lt. simp (l, lt) (ground arith))
              λ given lt.
                by_option (may_load store.positions (j, unwrap_or given info.sender))
                  (λ lp. simp (l, lt, lp) (ground arith))
                  λ p lp.
                    by_result (sync_position c s p) (λ e k. simp (l, lt, lp, k) (ground arith))
                      λ (whole, paid, q) k.
                        by_result (take_out c cap s q)
                          (λ e m. simp (l, lt, lp, k, m) (ground arith))
                          λ (amount, t, q') m.
                            let w =
                              save_other-Over j other o t (save store.positions (j, q'.owner) q') in
                            simp (l, lt, lp, k, m) (ground arith)
  ]

  pub execute_exit_cancelled-Over :
      (info : MessageInfo) (j : ℕ) (target : Option ℕ)
      → Ensures (Stays since id spent threshold) (execute_exit_cancelled c now info j target store)
  unfolding execute_exit_cancelled
  execute_exit_cancelled-Over info j target =
      by_option (may_load store.streams j) (λ l. simp l (ground arith))
        λ s l.
          by_option (c.api.maybe_addr target) (λ lt. simp (l, lt) (ground arith))
            λ given lt.
              by_option (may_load store.positions (j, unwrap_or given info.sender))
                (λ lp. simp (l, lt, lp) (ground arith))
                λ p lp.
                  let v =
                    same-Over {b = record store { positions = remove store.positions (j, p.owner) }}
                      refl refl refl o in
                  simp (l, lt, lp) (ground arith)
