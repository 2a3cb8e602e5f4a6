-- ===== src/State/Worth.antt =====
-- Rounding in `compute_shares_amount` (src/state.rs), for one who pays in and takes out.
use cw_streamswap.Base.{ℕ, ◌+◌, ◌*◌, ◌≤◌, ◌<◌, ◌≡◌, inl, inr, true, false, arith}
use cw_streamswap.Base.Division.{mul_mono}
use cw_streamswap.Error.{ok, of_Ensures}
use cw_streamswap.Cosmwasm.{Cosmwasm}
use cw_streamswap.Cosmwasm.Documented.{Documented}
use cw_streamswap.State.{Stream, compute_shares_amount}
use cw_streamswap.State.Shares.{
  Minted, Burnt, compute_shares_amount-Minted, compute_shares_amount-Burnt,
}

-- In numbers: shares bought for `a` in tokens are worth at most `a` when they are sold at once.
no_gain :
    (shares supply a w minted burnt : ℕ)
    → 0 < shares
    → minted * supply ≤ shares * a
    → (shares + minted) * w ≤ burnt * (supply + a)
    → burnt ≤ minted
    → w ≤ a
no_gain shares supply a w minted burnt pos m b le =
    grind (arith, mul_mono burnt minted (supply + a), mul_mono (a + 1) w (shares + minted))

-- Who pays into a stream with shares and takes out again in the same block gets no more than what
-- was paid: if a withdrawal burns at most the shares that the payment minted, it is at most the
-- payment.
pub no_profit :
    (c : Cosmwasm)
    → Documented c
    → (s t : Stream) (amount withdrawn : ℕ) {minted burnt : ℕ} → 0 < s.shares
    → 0 < amount
    → 0 < withdrawn
    → compute_shares_amount c s amount false ≡ ok minted
    → t.in_supply ≡ s.in_supply + amount
    → t.shares ≡ s.shares + minted
    → compute_shares_amount c t withdrawn true ≡ ok burnt
    → burnt ≤ minted
    → withdrawn ≤ amount
no_profit c d s t amount withdrawn {minted} {burnt} pos p w m i h b le =
    let u : Minted s amount minted =
      of_Ensures (Minted s amount) _ (compute_shares_amount-Minted c d s amount p) m in
    let v : Burnt t withdrawn burnt =
      of_Ensures (Burnt t withdrawn) _ (compute_shares_amount-Burnt c d t withdrawn w) b in
    elim u [
      | inl (none_yet, eq) ↦ absurd (omega arith)
      | inr (some_yet, few, enough) ↦ elim v [
        | inl (none_left, eq) ↦ absurd (omega arith)
        | inr (some_left, worth, fewest) ↦
            no_gain s.shares s.in_supply amount withdrawn minted burnt pos few (rw (h, i) at worth)
              le
      ]
    ]
