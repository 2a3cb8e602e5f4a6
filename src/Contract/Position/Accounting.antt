-- ===== src/Contract/Position/Accounting.antt =====
-- The accounts of a position under `update_position` (src/contract.rs).
use cw_streamswap.Base.{
  ℕ, ◌+◌, ◌-◌, ◌*◌, ◌/◌, ◌≤◌, ◌<◌, ◌≡◌, ◌^◌, arith, inl, inr, ◌==◌, if◌then◌else◌,
}
use cw_streamswap.Base.Division.{div-add-mod, div-one, mul-div_self}
use cw_streamswap.Error.{Result-cases, Ensures}
use cw_streamswap.Cosmwasm.{u256_limit, fractional, Cosmwasm}
use cw_streamswap.Cosmwasm.Documented.{Documented, Documented-eq}
use cw_streamswap.Helpers.Decimals.{get_decimals_lem}
use cw_streamswap.State.{Position}
use cw_streamswap.Contract.Position.{purchase, remaining_in, settle, update_position}

-- The out tokens that a position has bought, in atomics: the whole ones and the pending fraction.
abbrev pub bought : Position → ℕ
bought p = p.purchased * fractional + p.pending_purchase

-- The in tokens that the shares stand for, of a stream with shares.
abbrev pub entitlement : ℕ → ℕ → Position → ℕ
entitlement shares in_supply p = in_supply * p.shares / shares

-- The shares earn one atomic for each atomic by which the index has grown.
pub earned : (shares diff : ℕ) → shares * fractional / 1 * diff / fractional ≡ shares * diff
unfolding fractional
earned shares diff =
    rw (div-one (shares * fractional))
      (omega (arith, mul-div_self (shares * diff) (10 ^ 18) (omega arith)))

purchase-Ensures :
    (c : Cosmwasm)
    → Documented c
    → (diff : ℕ) (p : Position)
    → Ensures
        (λ v. (v ≡ p.shares * diff + p.pending_purchase) × (v < u256_limit))
        (purchase c diff p)
unfolding purchase
purchase-Ensures c d = rw (Documented-eq c d) (λ diff p. ground (arith, earned p.shares diff))

-- What the branch for a stream with shares does to the position.
abbrev Settled : ℕ → ℕ → ℕ → Position → ℕ × ℕ × Position → Type 0
Settled diff shares in_supply p (whole, spent, q) =
    (bought q ≡ bought p + p.shares * diff)
    × (q.pending_purchase < fractional)
    × (q.purchased ≡ p.purchased + whole)
    × (q.spent ≡ p.spent + spent)
    × (q.in_balance + q.spent ≡ p.in_balance + p.spent)
    × (q.in_balance ≡ entitlement shares in_supply p)
    × (q.owner ≡ p.owner)
    × (q.shares ≡ p.shares)
    × (q.operator ≡ p.operator)

settle-Ensures :
    (c : Cosmwasm)
    → Documented c
    → (diff shares in_supply : ℕ) (p : Position)
    → Ensures (Settled diff shares in_supply p) (settle c diff shares in_supply p)
unfolding settle remaining_in fractional
settle-Ensures c d diff shares in_supply p = elim (Result-cases (purchase c diff p)) [
  | inr (e, h) ↦ rw h tt
  | inl (v, h) ↦
      let f : (v ≡ p.shares * diff + p.pending_purchase) × (v < u256_limit) =
        rw h at (purchase-Ensures c d diff p) in
      rw (h, get_decimals_lem c d.text v f.1)
        (rw (Documented-eq c d) (ground (arith, div-add-mod v (10 ^ 18))))
]

-- What `update_position` does to a position of a stream with these fields.
abbrev pub Syncs : ℕ → ℕ → ℕ → ℕ → Position → ℕ × ℕ × Position → Type 0
Syncs index shares last_updated in_supply p (whole, spent, q) =
    (p.index ≤ index)
    × (q.index ≡ index)
    × (q.last_updated ≡ last_updated)
    × (q.owner ≡ p.owner)
    × (q.shares ≡ p.shares)
    × (q.operator ≡ p.operator)
    × (q.purchased ≡ p.purchased + whole)
    × (q.spent ≡ p.spent + spent)
    × (q.in_balance + q.spent ≡ p.in_balance + p.spent)
    × (q.in_balance ≡ (if shares == 0 then p.in_balance else entitlement shares in_supply p))
    × (bought q ≡ (if shares == 0 then bought p else bought p + p.shares * (index - p.index)))

pub update_position-Ensures :
    (c : Cosmwasm)
    → Documented c
    → (index shares last_updated in_supply : ℕ) (p : Position)
    → Ensures
        (Syncs index shares last_updated in_supply p)
        (update_position c index shares last_updated in_supply p)
unfolding update_position
update_position-Ensures c d index shares last_updated in_supply p = ground (
  arith,
  d.num.decimal256_checked_sub index p.index,
  settle-Ensures c d (index - p.index) shares in_supply p,
)
