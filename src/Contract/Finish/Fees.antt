-- ===== src/Contract/Finish/Fees.antt =====
-- What finalizing and exiting (src/contract.rs) pay out.
use cw_streamswap.Base.{ℕ, ◌+◌, ◌*◌, ◌/◌, ◌≡◌, ◌≢◌, ◌^◌, List, [], ◌∷◌, ◌==◌, if◌then◌else◌, arith}
use cw_streamswap.Base.Division.{div-one, mul-div_self}
use cw_streamswap.Error.{Ensures, by_result, of_Ensures}
use cw_streamswap.Cosmwasm.{fractional, Cosmwasm}
use cw_streamswap.Cosmwasm.Documented.{Documented, Documented-eq}
use cw_streamswap.State.{Config, Stream, Position}
use cw_streamswap.Handler.{Send}
use cw_streamswap.Contract.Finish.{fee_of, finalize_messages, exit_messages}

-- The percentage of an amount, rounded down to whole tokens.
abbrev pub fee : ℕ → ℕ → ℕ
fee amount percent = amount * percent / fractional

pub fee_atomics :
    (amount percent : ℕ) → amount * fractional / 1 * percent / fractional ≡ amount * percent
unfolding fractional
fee_atomics amount percent =
    rw (div-one (amount * fractional))
      (omega (arith, mul-div_self (amount * percent) (10 ^ 18) (omega arith)))

pub fee_of-Ensures :
    (c : Cosmwasm)
    → Documented c
    → (amount percent : ℕ) → Ensures (λ f. f ≡ fee amount percent) (fee_of c amount percent)
unfolding fee_of
fee_of-Ensures c d =
    rw (Documented-eq c d) (λ amount percent. ground (arith, fee_atomics amount percent))

-- The amounts of one denomination that the messages send to an address.
pub sent : ℕ → ℕ → List Send → ℕ
sent to_address denom [] = 0
sent to_address denom (m ∷ ms) =
    (if m.to_address == to_address then (if m.denom == denom then m.amount else 0) else 0)
    + sent to_address denom ms

-- All that the messages send of one denomination.
pub sent_in_all : ℕ → List Send → ℕ
sent_in_all denom [] = 0
sent_in_all denom (m ∷ ms) = (if m.denom == denom then m.amount else 0) + sent_in_all denom ms

abbrev pub when : ℕ → ℕ → ℕ → ℕ
when a b amount = if a == b then amount else 0

-- Finalizing pays out, in each denomination, exactly what the sale took in (split into the fee,
-- rounded down, and the revenue), the creation fee, and the out tokens that were not sold.
pub finalize_messages_sum :
    (c : Cosmwasm)
    → Documented c
    → (config : Config) (treasury : ℕ) (s : Stream) (denom : ℕ)
    → Ensures
        (λ messages.
          sent_in_all denom messages
          ≡ when s.in_denom denom s.spent_in
            + when s.stream_creation_denom denom s.stream_creation_fee
            + when s.out_denom denom s.out_remaining)
        (finalize_messages c config treasury s)
unfolding finalize_messages sent_in_all
finalize_messages_sum c d config treasury s denom =
    by_result (fee_of c s.spent_in s.stream_exit_fee_percent) (λ e h. simp h (ground arith))
      λ f h. rw h (rw (Documented-eq c d) (ground arith))

-- The treasury gets what was spent less the fee, which is the stream's percentage rounded down, if
-- it is not the fee collector too and the two sides differ in denomination.
pub finalize_messages_revenue :
    (c : Cosmwasm)
    → Documented c
    → (config : Config) (treasury : ℕ) (s : Stream) → treasury ≢ config.fee_collector
    → s.in_denom ≢ s.out_denom
    → Ensures
        (λ messages.
          sent treasury s.in_denom messages + fee s.spent_in s.stream_exit_fee_percent ≡ s.spent_in)
        (finalize_messages c config treasury s)
unfolding finalize_messages sent
finalize_messages_revenue c d config treasury s ne ni =
    by_result (fee_of c s.spent_in s.stream_exit_fee_percent) (λ e h. simp h (ground arith))
      λ f h.
        let u : f ≡ fee s.spent_in s.stream_exit_fee_percent =
          of_Ensures (λ v. v ≡ fee s.spent_in s.stream_exit_fee_percent) _
            (fee_of-Ensures c d s.spent_in s.stream_exit_fee_percent) h in
        rw h (rw (Documented-eq c d) (ground arith))

-- An exit pays the position's whole purchase and its balance, all of it to the position's address,
-- and leaves the stream the other shares.
pub exit_messages_sum :
    (c : Cosmwasm)
    → Documented c
    → (target : ℕ) (s : Stream) (p : Position) (denom : ℕ)
    → Ensures
        (λ (shares, messages).
          (shares + p.shares ≡ s.shares)
          × (sent target denom messages
              ≡ when s.out_denom denom p.purchased + when s.in_denom denom p.in_balance)
          × (sent_in_all denom messages ≡ sent target denom messages))
        (exit_messages c target s p)
unfolding exit_messages sent sent_in_all
exit_messages_sum c d target s p denom =
    by_result (fee_of c p.spent s.stream_exit_fee_percent) (λ e h. simp h (ground arith))
      λ f h. rw h (rw (Documented-eq c d) (ground arith))
