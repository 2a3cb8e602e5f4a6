-- ===== src/Killswitch/Refund/Repayment.antt =====
-- What `execute_exit_cancelled` (src/killswitch.rs) pays.
use cw_streamswap.Base.{nat_key, pair_key, ℕ, ◌+◌, ◌≡◌, ◌⊎◌, Option, some, [], ◌∷◌, arith}
use cw_streamswap.Dict.{may_load, remove}
use cw_streamswap.Error.{ok, Ensures, by_result}
use cw_streamswap.Cosmwasm.{Cosmwasm, MessageInfo}
use cw_streamswap.Cosmwasm.Documented.{Documented}
use cw_streamswap.State.{Stream, Position, Storage}
use cw_streamswap.Handler.{Send, target_of, check_access}
use cw_streamswap.Killswitch.Refund.{check_refundable, execute_exit_cancelled}

allowed :
    (info : MessageInfo) (owner : ℕ) (operator : Option ℕ) {v : Unit {0}}
    → check_access info owner operator ≡ ok v
    → (owner ≡ info.sender) ⊎ (operator ≡ some info.sender)
unfolding check_access
allowed info owner operator h = ground arith

-- All that was paid into a position.
abbrev pub repayment : ℕ → Stream → Position → Send
repayment target s p = record {
  to_address = target;
  denom = s.in_denom;
  amount = p.in_balance + p.spent;
}

-- The caller of a refund is the position's owner or operator, gets back all that was ever paid in,
-- spent or not, in one payment to the position's address, and the position is gone; the streams
-- stay as they are.
pub execute_exit_cancelled-Ensures :
    (c : Cosmwasm)
    → Documented c
    → (now : ℕ) (info : MessageInfo) (id : ℕ) (operator_target : Option ℕ) (store : Storage)
      (target : ℕ) {s : Stream} {p : Position}
    → may_load store.streams id ≡ some s
    → target_of c info operator_target ≡ ok target
    → may_load store.positions (id, target) ≡ some p
    → Ensures
        (λ (messages, store').
          (messages ≡ repayment target s p ∷ [])
          × (store'.positions ≡ remove store.positions (id, p.owner))
          × (store'.streams ≡ store.streams)
          × ((p.owner ≡ info.sender) ⊎ (p.operator ≡ some info.sender)))
        (execute_exit_cancelled c now info id operator_target store)
unfolding execute_exit_cancelled
execute_exit_cancelled-Ensures c d now info id operator_target store target {s} {p} l t f =
    by_result (check_refundable c now id s store) (λ e r. simp (l, r) (ground arith))
      λ u r.
        by_result (check_access info p.owner p.operator)
          (λ e a. simp (l, r, t, f, a) (ground arith))
          λ v a.
            simp (l, r, t, f, a)
              (ground (
                arith,
                allowed info p.owner p.operator a,
                d.num.add p.in_balance p.spent,
                d.num.to_uint128 (p.in_balance + p.spent),
              ))
