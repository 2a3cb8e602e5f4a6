-- ===== src/State/Shares.antt =====
-- The exchange of in tokens and shares by `compute_shares_amount` (src/state.rs).
use cw_streamswap.Base.{ℕ, ◌+◌, ◌-◌, ◌*◌, ◌≤◌, ◌<◌, ◌≡◌, ◌⊎◌, true, false, arith}
use cw_streamswap.Base.Division.{div-mul-le, lt-div-mul, mul_mono}
use cw_streamswap.Error.{Ensures}
use cw_streamswap.Cosmwasm.{Cosmwasm}
use cw_streamswap.Cosmwasm.Documented.{Documented, Documented-eq}
use cw_streamswap.State.{Stream, compute_shares_amount}

-- The shares minted for a payment: one for each token in a stream that has none, and else the most
-- whose worth does not exceed the payment.
abbrev pub Minted : Stream → ℕ → ℕ → Type 0
Minted s amount minted =
    (s.shares ≡ 0) × (minted ≡ amount)
    ⊎ (0 < s.shares)
      × (minted * s.in_supply ≤ s.shares * amount)
      × (s.shares * amount < (minted + 1) * s.in_supply)

-- The shares burnt for a withdrawal: the fewest that are worth it.
abbrev pub Burnt : Stream → ℕ → ℕ → Type 0
Burnt s amount burnt =
    (s.shares ≡ 0) × (burnt ≡ amount)
    ⊎ (0 < s.shares)
      × (s.shares * amount ≤ burnt * s.in_supply)
      × (burnt * s.in_supply < s.shares * amount + s.in_supply)

-- The shares for a positive payment are one per token into a stream that has none, and else the
-- most whose worth at the stream's rate does not exceed the payment.
pub compute_shares_amount-Minted :
    (c : Cosmwasm)
    → Documented c
    → (s : Stream) (amount : ℕ) → 0 < amount
    → Ensures (Minted s amount) (compute_shares_amount c s amount false)
unfolding compute_shares_amount
compute_shares_amount-Minted c d = rw (Documented-eq c d) (λ s amount pos.
    ground (
      arith,
      div-mul-le (s.shares * amount) s.in_supply,
      lt-div-mul (s.shares * amount) s.in_supply,
    ))

-- The shares for a positive withdrawal are the fewest that are worth it at the stream's rate (one
-- per token of a stream that has none).
pub compute_shares_amount-Burnt :
    (c : Cosmwasm)
    → Documented c
    → (s : Stream) (amount : ℕ) → 0 < amount
    → Ensures (Burnt s amount) (compute_shares_amount c s amount true)
unfolding compute_shares_amount
compute_shares_amount-Burnt c d = rw (Documented-eq c d) (λ s amount pos. ground (
  arith,
  div-mul-le (s.shares * amount + s.in_supply - 1) s.in_supply,
  lt-div-mul (s.shares * amount + s.in_supply - 1) s.in_supply,
))

-- A withdrawal of no more than what a position's shares stand for burns no more than these.
pub burnt-le :
    (shares in_supply held amount burnt : ℕ)
    → 0 < in_supply
    → amount * shares ≤ in_supply * held
    → burnt * in_supply < shares * amount + in_supply
    → burnt ≤ held
burnt-le shares in_supply held amount burnt pos worth few =
    grind (arith, mul_mono (held + 1) burnt in_supply)
