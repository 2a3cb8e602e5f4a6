-- ===== src/Contract/Position/Total.antt =====
-- When `update_position` (src/contract.rs) succeeds.
use cw_streamswap.Base.{ℕ, zero, suc, ◌+◌, ◌-◌, ◌*◌, ◌≤◌, ◌<◌, ◌≡◌, ◌^◌, arith}
use cw_streamswap.Base.Division.{div-add-mod, div-one, div-le, mul_mono}
use cw_streamswap.Error.{ok, Returns, both}
use cw_streamswap.Cosmwasm.{u256_limit, fractional, Cosmwasm}
use cw_streamswap.Cosmwasm.Documented.{Documented, Documented-eq}
use cw_streamswap.Helpers.Decimals.{get_decimals_lem}
use cw_streamswap.State.{Position}
use cw_streamswap.Contract.Position.{purchase, remaining_in, settle, update_position}
use cw_streamswap.Contract.Position.Accounting.{
  bought, entitlement, earned, Syncs, update_position-Ensures,
}

-- The products that an update forms stay within 256 bits.
pub record Fits (index in_supply : ℕ) (p : Position) : Type 0 where
  pub shares_fit : p.shares * fractional < u256_limit
  pub bought_fits : p.shares * index + bought p < u256_limit
  pub claim_fits : in_supply * p.shares < u256_limit
  pub paid_fits : p.in_balance + p.spent < u256_limit

purchase-ok :
    (c : Cosmwasm)
    → Documented c
    → (index in_supply : ℕ) (p : Position) → Fits index in_supply p
    → purchase c (index - p.index) p ≡ ok (p.shares * (index - p.index) + p.pending_purchase)
unfolding purchase
purchase-ok c d = rw (Documented-eq c d) (λ index in_supply p f. ground (
  arith,
  earned p.shares (index - p.index),
  mul_mono (index - p.index) index p.shares,
  div-one (p.shares * fractional),
))

-- The sum of what was bought and what is earned stays a decimal.
sum_in_range :
    (index in_supply : ℕ) (p : Position)
    → Fits index in_supply p
    → p.shares * (index - p.index) + p.pending_purchase < u256_limit
sum_in_range index in_supply p f = grind (arith, mul_mono (index - p.index) index p.shares)

settle-Returns :
    (c : Cosmwasm)
    → Documented c
    → (index shares in_supply : ℕ) (p : Position) → Fits index in_supply p
    → 0 < shares
    → entitlement shares in_supply p ≤ p.in_balance
    → Returns (λ _. Unit {0}) (settle c (index - p.index) shares in_supply p)
unfolding settle remaining_in fractional
settle-Returns c d index shares in_supply p f pos covered =
    rw
      (
        purchase-ok c d index in_supply p f,
        get_decimals_lem c d.text _ (sum_in_range index in_supply p f),
      )
      (rw (Documented-eq c d) (
        ground (
          arith,
          mul_mono (index - p.index) index p.shares,
          div-le (in_supply * p.shares) shares,
          div-add-mod (p.shares * (index - p.index) + p.pending_purchase) (10 ^ 18),
        )))

returns :
    (c : Cosmwasm)
    → Documented c
    → (index shares last_updated in_supply : ℕ) (p : Position) → p.index ≤ index
    → Fits index in_supply p
    → (0 < shares → entitlement shares in_supply p ≤ p.in_balance)
    → Returns (λ _. Unit {0}) (update_position c index shares last_updated in_supply p)
unfolding update_position
returns c d index zero last_updated in_supply p behind f covered =
    ground (arith, d.num.decimal256_checked_sub index p.index)
returns c d index (suc shares) last_updated in_supply p behind f covered = ground (
  arith,
  d.num.decimal256_checked_sub index p.index,
  settle-Returns c d index (suc shares) in_supply p f (omega arith) (covered (omega arith)),
)

-- An update of a position, at an index that is not behind its own and with products that fit, does
-- what `Syncs` says and never fails, provided that the balance covers the in tokens that the
-- position's shares stand for (of a stream with shares).
pub update_position-Returns :
    (c : Cosmwasm)
    → Documented c
    → (index shares last_updated in_supply : ℕ) (p : Position) → p.index ≤ index
    → Fits index in_supply p
    → (0 < shares → entitlement shares in_supply p ≤ p.in_balance)
    → Returns
        (Syncs index shares last_updated in_supply p)
        (update_position c index shares last_updated in_supply p)
update_position-Returns c d index shares last_updated in_supply p behind f covered =
    both _ _ (update_position-Ensures c d index shares last_updated in_supply p)
      (returns c d index shares last_updated in_supply p behind f covered)
