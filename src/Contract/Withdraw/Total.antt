-- ===== src/Contract/Withdraw/Total.antt =====
-- When a withdrawal (`take_out`, src/contract.rs) succeeds.
use cw_streamswap.Base.{ℕ, ◌+◌, ◌-◌, ◌*◌, ◌/◌, ◌≤◌, ◌<◌, ◌≡◌, Option, arith}
use cw_streamswap.Base.Division.{div-mul-le, div-le_of_le-mul, mul_mono, div-le}
use cw_streamswap.Error.{Returns, both, by_result}
use cw_streamswap.Cosmwasm.{u256_limit, Cosmwasm}
use cw_streamswap.Cosmwasm.Documented.{Documented, Documented-eq}
use cw_streamswap.State.{Stream, Position, compute_shares_amount, unwrap_or}
use cw_streamswap.State.Shares.{burnt-le}
use cw_streamswap.Contract.Position.Accounting.{entitlement}
use cw_streamswap.Contract.Withdraw.{burnt_shares, take_out}
use cw_streamswap.Contract.Withdraw.Amounts.{TakesOut, take_out-Ensures}

-- An up to date position, of which `amount` is to be taken out of the stream.
pub record IsCovered (s : Stream) (p : Position) (amount : ℕ) : Type 0 where
  pub some_shares : 0 < s.shares
  pub shares_held : p.shares ≤ s.shares
  pub up_to_date : p.in_balance ≡ entitlement s.shares s.in_supply p
  pub positive : 0 < amount
  pub in_balance : amount ≤ p.in_balance
  pub product_fits : s.shares * amount + s.in_supply < u256_limit

-- The balance is within the stream's in tokens, and no more than what the shares are worth.
balance_within :
    (s : Stream) (p : Position) (amount : ℕ)
    → IsCovered s p amount
    → (p.in_balance ≤ s.in_supply) × (p.in_balance * s.shares ≤ s.in_supply * p.shares)
balance_within s p amount h = grind (
  arith,
  div-mul-le (s.in_supply * p.shares) s.shares,
  div-le_of_le-mul s.in_supply (s.in_supply * p.shares) s.shares,
  mul_mono p.shares s.shares s.in_supply,
)

burnt_within :
    (c : Cosmwasm)
    → Documented c
    → (s : Stream) (p : Position) (amount : ℕ) → IsCovered s p amount
    → Returns (λ burnt. burnt ≤ p.shares) (burnt_shares c s p amount)
unfolding burnt_shares compute_shares_amount
burnt_within c d = rw (Documented-eq c d) (λ s p amount h.
    let b = balance_within s p amount h in
    let worth : amount * s.shares ≤ s.in_supply * p.shares =
      grind (arith, mul_mono amount p.in_balance s.shares) in
    ground (
      arith,
      div-le (s.shares * amount + s.in_supply - 1) s.in_supply,
      div-mul-le (s.shares * amount + s.in_supply - 1) s.in_supply,
      burnt-le s.shares s.in_supply p.shares amount
          ((s.shares * amount + s.in_supply - 1) / s.in_supply) (omega arith) worth,
    ))

succeeds :
    (c : Cosmwasm)
    → Documented c
    → (cap : Option ℕ) (s : Stream) (p : Position) → IsCovered s p (unwrap_or cap p.in_balance)
    → Returns (λ _. Unit {0}) (take_out c cap s p)
unfolding take_out
succeeds c d cap s p h =
    let amount = unwrap_or cap p.in_balance in
    let b = balance_within s p amount h in
    let r = burnt_within c d s p amount h in
    by_result (burnt_shares c s p amount) (λ e k. absurd (ground arith))
      λ burnt k. simp k (
        ground (
          arith,
          d.num.checked_sub s.in_supply amount,
          d.num.checked_sub s.shares burnt,
          d.num.checked_sub p.in_balance amount,
          d.num.checked_sub p.shares burnt,
        ))

-- A withdrawal from an up to date position succeeds, for every positive amount within the balance,
-- if the position has no more shares than its stream and the product of the stream's shares and
-- the amount fits: the amount leaves the stream and the position, and so do the shares that it
-- burns, which are all of the position's for its whole balance, and else the fewest that are worth
-- the amount.
pub take_out-Returns :
    (c : Cosmwasm)
    → Documented c
    → (cap : Option ℕ) (s : Stream) (p : Position) → IsCovered s p (unwrap_or cap p.in_balance)
    → Returns (TakesOut cap s p) (take_out c cap s p)
take_out-Returns c d cap s p h = both _ _ (take_out-Ensures c d cap s p) (succeeds c d cap s p h)
