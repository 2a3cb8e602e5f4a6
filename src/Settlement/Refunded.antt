-- ===== src/Settlement/Refunded.antt =====
-- What a refund (`execute_exit_cancelled`, src/killswitch.rs) rules out.
use cw_streamswap.Base.{
  nat_key, ℕ, ◌≤◌, ◌<◌, ◌≡◌, Option, none, some, List, ltb, refl, arith, false, true, leb,
  Bool-cases, inl, inr,
}
use cw_streamswap.Dict.{may_load}
use cw_streamswap.Error.{
  ContractError, ◌>>=◌, ok, err, Refused, Ensures, by_option, by_result, of_Ensures,
}
use cw_streamswap.Cosmwasm.{MessageInfo, Cosmwasm, fractional}
use cw_streamswap.Cosmwasm.Documented.{Documented}
use cw_streamswap.State.{Stream, Storage, is_cancelled, is_killswitch_active}
use cw_streamswap.Threshold.{error_if_not_reached, error_if_reached, check_if_threshold_set}
use cw_streamswap.Handler.{Send}
use cw_streamswap.Contract.Stream.{update_stream, distribute, touched}
use cw_streamswap.Contract.Stream.Ratio.{calculate_diff_lem, ratio_after_end}
use cw_streamswap.Contract.Stream.Release.{update_stream_over}
use cw_streamswap.Contract.Finish.{update_if_behind, execute_finalize_stream}
use cw_streamswap.Killswitch.Refund.{check_refundable, execute_exit_cancelled}

updated_after_end :
    (c : Cosmwasm)
    → Documented c
    → (now : ℕ) (s : Stream) → s.end_time ≤ now
    → s.last_updated < s.end_time
    → update_stream c now s
      ≡ distribute c fractional s
        >>= (λ (sold, t). ok (fractional, sold, record t { last_updated = touched now t }))
unfolding update_stream
updated_after_end c d now s e b =
    rw (calculate_diff_lem c d, ratio_after_end s.end_time s.last_updated now e b) refl

-- The first update after the end spends the same, whenever it comes.
spent_at_end :
    (c : Cosmwasm)
    → Documented c
    → (now now' : ℕ) (s : Stream) {diff sold : ℕ} {t : Stream} → s.end_time ≤ now
    → s.end_time ≤ now'
    → update_stream c now s ≡ ok (diff, sold, t)
    → Ensures (λ u. u.spent_in ≡ t.spent_in) (update_if_behind c now' s)
unfolding update_if_behind
spent_at_end c d now now' s {diff} {sold} {t} e e' h =
    elim (Bool-cases (ltb s.last_updated s.end_time)) [
      | inl behind ↦
          by_result (distribute c fractional s)
            (λ x k. absurd (ground (arith, updated_after_end c d now s e)))
            λ (amount, u) k.
              ground (arith, updated_after_end c d now s e, updated_after_end c d now' s e')
      | inr done ↦ let k = update_stream_over c d now s (ground arith) in ground arith
    ]

-- A refund writes neither streams nor thresholds, and its check has passed.
refund_keeps :
    (c : Cosmwasm) (now : ℕ) (info : MessageInfo) (id : ℕ) (target : Option ℕ)
    (store store' : Storage) {messages : List Send} {s : Stream}
    → may_load store.streams id ≡ some s
    → execute_exit_cancelled c now info id target store ≡ ok (messages, store')
    → (store'.streams ≡ store.streams)
      × (store'.thresholds ≡ store.thresholds)
      × (check_refundable c now id s store ≡ ok tt)
unfolding execute_exit_cancelled
refund_keeps c now info id target store store' {messages} {s} l h =
    by_result (check_refundable c now id s store) (λ e k. absurd (ground arith)) λ u k. ground arith

-- The check of a stream that is not cancelled: it is past its end, and its update at `now` leaves it
-- below its threshold.
short_of :
    (c : Cosmwasm) (now id : ℕ) (s t : Stream) (store : Storage) {diff sold threshold : ℕ}
    → is_cancelled s ≡ false
    → check_refundable c now id s store ≡ ok tt
    → may_load store.thresholds id ≡ some threshold
    → update_stream c now s ≡ ok (diff, sold, t)
    → (s.end_time ≤ now) × (t.spent_in < threshold)
unfolding check_refundable check_if_threshold_set error_if_reached
short_of c now id s t store n k l h = ground arith

-- So there is a threshold, and the update succeeds.
no_threshold :
    (c : Cosmwasm) (now id : ℕ) (s : Stream) (store : Storage)
    → is_cancelled s ≡ false
    → check_refundable c now id s store ≡ ok tt
    → may_load store.thresholds id ≡ none
    → ⊥
unfolding check_refundable check_if_threshold_set
no_threshold c now id s store n k l = ground arith

no_error :
    (c : Cosmwasm) (now id : ℕ) (s : Stream) (store : Storage) {e : ContractError}
    → is_cancelled s ≡ false
    → check_refundable c now id s store ≡ ok tt
    → update_stream c now s ≡ err e
    → ⊥
unfolding check_refundable
no_error c now id s store n k h = ground arith

cancelled_not_finalized :
    (c : Cosmwasm) (now : ℕ) (info : MessageInfo) (id : ℕ) (treasury : Option ℕ) (store : Storage)
    (s : Stream)
    → may_load store.streams id ≡ some s
    → is_cancelled s ≡ true
    → Refused (execute_finalize_stream c now info id treasury store)
unfolding execute_finalize_stream is_cancelled is_killswitch_active
cancelled_not_finalized c now info id treasury store s l h = ground arith

-- Such a stream cannot be finalized.
short_not_finalized :
    (c : Cosmwasm)
    → Documented c
    → (now : ℕ) (info : MessageInfo) (id : ℕ) (treasury : Option ℕ) (store : Storage) (s : Stream)
      (spent : ℕ) {threshold : ℕ}
    → may_load store.streams id ≡ some s
    → may_load store.thresholds id ≡ some threshold
    → spent < threshold
    → (s.end_time ≤ now → Ensures (λ u. u.spent_in ≡ spent) (update_if_behind c now s))
    → Refused (execute_finalize_stream c now info id treasury store)
unfolding execute_finalize_stream error_if_not_reached
short_not_finalized c d now info id treasury store s spent l m less same =
    elim (Bool-cases (leb now s.end_time)) [
      | inl early ↦ ground arith
      | inr late ↦
          by_result (update_if_behind c now s) (λ e h. simp (l, h) (ground arith))
            λ u h.
              let k : u.spent_in ≡ spent =
                of_Ensures (λ x. x.spent_in ≡ spent) _ (same (ground arith)) h in
              ground arith
    ]

-- After a refund from a stream, the storage that it leaves does not let the stream be finalized, by
-- anyone at any time.
pub refunded_not_finalized :
    (c : Cosmwasm)
    → Documented c
    → (now : ℕ) (info : MessageInfo) (id : ℕ) (target : Option ℕ) (store store' : Storage)
      {messages : List Send}
    → execute_exit_cancelled c now info id target store ≡ ok (messages, store')
    → (now' : ℕ) (info' : MessageInfo) (treasury : Option ℕ)
    → Refused (execute_finalize_stream c now' info' id treasury store')
unfolding execute_exit_cancelled
refunded_not_finalized c d now info id target store store' h now' info' treasury =
    by_option (may_load store.streams id) (λ l. absurd (ground arith))
      λ s l.
        let k = refund_keeps c now info id target store store' l h in
        elim (Bool-cases (is_cancelled s)) [
          | inl off ↦ cancelled_not_finalized c now' info' id treasury store' s (rw k.0 l) off
          | inr on ↦
              by_option (may_load store.thresholds id)
                (λ m. absurd (no_threshold c now id s store on k.2 m))
                λ threshold m.
                  by_result (update_stream c now s)
                    (λ e x. absurd (no_error c now id s store on k.2 x))
                    λ (diff, sold, t) x.
                      let y = short_of c now id s t store on k.2 m x in
                      short_not_finalized c d now' info' id treasury store' s t.spent_in (rw k.0 l)
                        (rw k.1 m) y.1 (λ e. spent_at_end c d now now' s y.0 e x)
        ]
