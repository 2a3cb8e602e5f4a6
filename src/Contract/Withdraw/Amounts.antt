-- ===== src/Contract/Withdraw/Amounts.antt =====
-- `take_out`: what a withdrawal takes from the stream and from the position.
use cw_streamswap.Base.{ℕ, ◌+◌, ◌-◌, ◌≤◌, ◌<◌, ◌≡◌, ◌⊎◌, arith, Option}
use cw_streamswap.Error.{Ensures, by_result}
use cw_streamswap.Cosmwasm.{Cosmwasm}
use cw_streamswap.Cosmwasm.Documented.{Documented}
use cw_streamswap.State.{Stream, Position, unwrap_or}
use cw_streamswap.State.Shares.{Burnt, compute_shares_amount-Burnt}
use cw_streamswap.Contract.Withdraw.{burnt_shares, take_out}

-- The shares for an amount: all of the position's for its whole balance, else the fewest that are
-- worth the amount.
abbrev pub Burns : Stream → Position → ℕ → ℕ → Type 0
Burns s p amount burnt =
    (amount ≡ p.in_balance) × (burnt ≡ p.shares) ⊎ (amount < p.in_balance) × Burnt s amount burnt

-- A positive amount within the balance leaves the stream and the position, and with it the shares
-- that it burns.
abbrev pub TakesOut : Option ℕ → Stream → Position → ℕ × Stream × Position → Type 0
TakesOut cap s p (amount, t, q) =
    (amount ≡ unwrap_or cap p.in_balance)
    × (0 < amount)
    × (t.in_supply + amount ≡ s.in_supply)
    × (q.in_balance + amount ≡ p.in_balance)
    × (s.shares + q.shares ≡ t.shares + p.shares)
    × (t.shares ≤ s.shares)
    × Burns s p amount (s.shares - t.shares)
    × (t.dist_index ≡ s.dist_index)
    × (t.spent_in ≡ s.spent_in)
    × (t.out_remaining ≡ s.out_remaining)
    × (t.in_denom ≡ s.in_denom)
    × (q.index ≡ p.index)
    × (q.owner ≡ p.owner)
    × (q.spent ≡ p.spent)
    × (q.purchased ≡ p.purchased)
    × (t.status ≡ s.status)
    × (t.end_time ≡ s.end_time)
    × (t.last_updated ≡ s.last_updated)

burnt_shares-Burns :
    (c : Cosmwasm)
    → Documented c
    → (s : Stream) (p : Position) (amount : ℕ) → 0 < amount
    → amount ≤ p.in_balance
    → Ensures (Burns s p amount) (burnt_shares c s p amount)
unfolding burnt_shares
burnt_shares-Burns c d s p amount pos le =
    ground (arith, compute_shares_amount-Burnt c d s amount pos)

-- A withdrawal that succeeds takes a positive amount, the cap or else the whole balance, from the
-- stream's and from the position's in tokens alike, and from both the shares that the amount
-- burns; the index, what is spent and purchased and what is left to sell stay.
pub take_out-Ensures :
    (c : Cosmwasm)
    → Documented c
    → (cap : Option ℕ) (s : Stream) (p : Position) → Ensures (TakesOut cap s p) (take_out c cap s p)
unfolding take_out
take_out-Ensures c d cap s p =
    by_result (burnt_shares c s p (unwrap_or cap p.in_balance)) (λ e h. simp h (ground arith))
      λ burnt h. simp h (
        ground (
          arith,
          burnt_shares-Burns c d s p (unwrap_or cap p.in_balance),
          d.num.checked_sub s.in_supply (unwrap_or cap p.in_balance),
          d.num.checked_sub s.shares burnt,
          d.num.checked_sub p.in_balance (unwrap_or cap p.in_balance),
          d.num.checked_sub p.shares burnt,
        ))
