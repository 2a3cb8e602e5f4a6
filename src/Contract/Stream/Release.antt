-- ===== src/Contract/Stream/Release.antt =====
-- What `update_stream` (src/contract.rs) does to the tokens of both sides.
use cw_streamswap.Base.{ℕ, ◌+◌, ◌*◌, ◌/◌, ◌≤◌, ◌<◌, ◌≡◌, ◌^◌, arith, ◌==◌, if◌then◌else◌}
use cw_streamswap.Base.Division.{mul-div-le, mul-div_self, div-le, div-mul-le}
use cw_streamswap.Error.{ok, Ensures, Returns}
use cw_streamswap.Cosmwasm.{u128_limit, u256_limit, fractional, Cosmwasm}
use cw_streamswap.Cosmwasm.Documented.{Documented, Documented-eq}
use cw_streamswap.State.{Stream}
use cw_streamswap.Contract.Stream.{release_out, distribute, update_stream, touched}
use cw_streamswap.Contract.Stream.Ratio.{
  ratio, ratio-le, ratio_idle, ratio_over, ratio_after_end, calculate_diff_lem,
}

-- The amounts of a stream that is kept by the contract: the tokens are amounts of a coin, no more
-- is left to sell than there was, and the index has not run ahead of what was sold. (Its fraction
-- is in atomics, of which a token has `fractional`.)
pub record IsWellFormed (s : Stream) : Type 0 where
  pub out_fits : s.out_supply < u128_limit
  pub in_fits : s.in_supply + s.spent_in < u128_limit
  pub index_covered : s.dist_index + s.out_remaining * fractional ≤ s.out_supply * fractional

-- What an update leaves alone.
pub record SameTerms (s t : Stream) : Type 0 where
  pub same_shares : t.shares ≡ s.shares
  pub same_status : t.status ≡ s.status
  pub same_treasury : t.treasury ≡ s.treasury
  pub same_out_supply : t.out_supply ≡ s.out_supply
  pub same_out_denom : t.out_denom ≡ s.out_denom
  pub same_in_denom : t.in_denom ≡ s.in_denom
  pub same_start : t.start_time ≡ s.start_time
  pub same_end : t.end_time ≡ s.end_time
  pub same_pause_date : t.pause_date ≡ s.pause_date
  pub same_fee : t.stream_exit_fee_percent ≡ s.stream_exit_fee_percent
  pub same_creation_fee : t.stream_creation_fee ≡ s.stream_creation_fee
  pub same_creation_denom : t.stream_creation_denom ≡ s.stream_creation_denom

-- From `s`, the amount `sold` of out tokens was released, into `t`: no token is lost, and the index
-- grows by at most what the shares are due.
pub record Releases (s : Stream) (sold : ℕ) (t : Stream) : Type 0 where
  pub in_conserved : t.in_supply + t.spent_in ≡ s.in_supply + s.spent_in
  pub in_falls : t.in_supply ≤ s.in_supply
  pub out_conserved : t.out_remaining + sold ≡ s.out_remaining
  pub index_grows : s.dist_index ≤ t.dist_index
  pub index_due : t.dist_index * s.shares ≤ s.dist_index * s.shares + sold * fractional
  pub terms : SameTerms s t

-- A stream with shares releases the given ratio of each side, rounded down; one without, nothing.
abbrev pub sold_at : ℕ → Stream → ℕ
sold_at r s = if s.shares == 0 then 0 else s.out_remaining * r / fractional

-- The in tokens spent at the ratio, and the index after `sold` out tokens: raised by each share's
-- part of them.
abbrev pub spent_at : ℕ → Stream → ℕ
spent_at r s = if s.shares == 0 then 0 else s.in_supply * r / fractional

abbrev pub index_at : ℕ → Stream → ℕ
index_at sold s =
    if s.shares == 0 then s.dist_index else s.dist_index + sold * fractional / s.shares

distribute-Returns :
    (c : Cosmwasm)
    → Documented c
    → (r : ℕ) (s : Stream) → r ≤ fractional
    → IsWellFormed s
    → Returns
        (λ (sold, t).
          (sold ≡ sold_at r s)
          × (t.spent_in ≡ s.spent_in + spent_at r s)
          × (t.dist_index ≡ index_at sold s)
          × Releases s sold t
          × IsWellFormed t
          × (t.last_updated ≡ s.last_updated))
        (distribute c r s)
unfolding distribute release_out u128_limit u256_limit fractional
distribute-Returns c d = rw (Documented-eq c d) (λ r s h w. ground (
  arith,
  mul-div-le s.out_remaining r (10 ^ 18),
  mul-div-le s.in_supply r (10 ^ 18),
  div-le (s.out_remaining * r / 10 ^ 18 * 10 ^ 18) s.shares,
  div-le (s.in_supply * r / 10 ^ 18 * 10 ^ 18) (s.out_remaining * r / 10 ^ 18),
  div-mul-le (s.out_remaining * r / 10 ^ 18 * 10 ^ 18) s.shares,
))

-- The same of any stream, if the update returns.
distribute-Ensures :
    (c : Cosmwasm)
    → Documented c
    → (r : ℕ) (s : Stream)
    → Ensures
        (λ (sold, t). Releases s sold t × (t.last_updated ≡ s.last_updated))
        (distribute c r s)
unfolding distribute release_out
distribute-Ensures c d =
    rw (Documented-eq c d)
      (λ r s. ground (arith, div-mul-le (s.out_remaining * r / fractional * fractional) s.shares))

-- What an update at `now` does to `s`: it releases, and moves the time of the last update.
abbrev pub Updates : ℕ → Stream → ℕ × ℕ × Stream → Type 0
Updates now s (diff, sold, t) = Releases s sold t × (t.last_updated ≡ touched now s)

pub update_stream-Ensures :
    (c : Cosmwasm)
    → Documented c
    → (now : ℕ) (s : Stream) → Ensures (Updates now s) (update_stream c now s)
unfolding update_stream
update_stream-Ensures c d now s =
    rw (calculate_diff_lem c d)
      (ground (arith, distribute-Ensures c d (ratio s.end_time s.last_updated now) s))

-- A well formed stream can always be updated: nothing overflows or underflows. The in tokens and
-- the out tokens are conserved and the terms of the sale stay. Of a stream with shares, the elapsed
-- ratio of what was left of each side is released and spent (rounded down), and the index grows by
-- what is released per share (rounded down), so by no more than the released tokens are worth; of
-- one without, nothing. The stream is well formed again.
pub update_stream-Returns :
    (c : Cosmwasm)
    → Documented c
    → (now : ℕ) (s : Stream) → IsWellFormed s
    → Returns
        (λ (diff, sold, t).
          Updates now s (diff, sold, t)
          × IsWellFormed t
          × (sold ≡ sold_at (ratio s.end_time s.last_updated now) s)
          × (t.spent_in ≡ s.spent_in + spent_at (ratio s.end_time s.last_updated now) s)
          × (t.dist_index ≡ index_at sold s))
        (update_stream c now s)
unfolding update_stream
update_stream-Returns c d now s w = rw (calculate_diff_lem c d) (
    ground (
      arith,
      distribute-Returns c d (ratio s.end_time s.last_updated now) s
          (ratio-le s.end_time s.last_updated now) w,
    ))

-- Once the end is reached, the first update of a well formed stream with shares sells all that is
-- left of both sides.
pub update_stream_at_end :
    (c : Cosmwasm)
    → Documented c
    → (now : ℕ) (s : Stream) → IsWellFormed s
    → 0 < s.shares
    → s.last_updated < s.end_time
    → s.end_time ≤ now
    → Returns
        (λ (diff, sold, t).
          (sold ≡ s.out_remaining)
          × (t.out_remaining ≡ 0)
          × (t.in_supply ≡ 0)
          × (t.spent_in ≡ s.in_supply + s.spent_in))
        (update_stream c now s)
unfolding update_stream distribute release_out u128_limit u256_limit fractional
update_stream_at_end c d now s w pos behind ended =
    rw (calculate_diff_lem c d, ratio_after_end s.end_time s.last_updated now ended behind)
      (rw (Documented-eq c d) (
        ground (
          arith,
          mul-div_self s.out_remaining (10 ^ 18),
          mul-div_self s.in_supply (10 ^ 18),
          div-le (s.out_remaining * 10 ^ 18) s.shares,
          div-le (s.in_supply * 10 ^ 18) s.out_remaining,
        )))

update_stream_idle :
    (c : Cosmwasm)
    → Documented c
    → (now : ℕ) (t : Stream) → t.last_updated ≡ touched now t
    → update_stream c now t ≡ ok (0, 0, t)
unfolding update_stream distribute
update_stream_idle c d now t h =
    rw (calculate_diff_lem c d, ratio_idle t.end_time t.last_updated now (ground arith))
      (ground arith)

-- A stream that was updated at its end keeps what is spent, at every later update.
pub update_stream_over :
    (c : Cosmwasm)
    → Documented c
    → (now : ℕ) (s : Stream) → s.end_time ≤ s.last_updated
    → update_stream c now s ≡ ok (0, 0, record s { last_updated = touched now s })
unfolding update_stream distribute
update_stream_over c d now s h =
    rw (calculate_diff_lem c d, ratio_over s.end_time s.last_updated now h) (ground arith)

-- A second update in the same block changes nothing.
pub update_stream_again :
    (c : Cosmwasm)
    → Documented c
    → (now : ℕ) (s : Stream) {diff sold : ℕ} {t : Stream}
    → update_stream c now s ≡ ok (diff, sold, t)
    → update_stream c now t ≡ ok (0, 0, t)
update_stream_again c d now s {diff} {sold} {t} h =
    let f : Updates now s (diff, sold, t) = rw h at (update_stream-Ensures c d now s) in
    update_stream_idle c d now t (ground arith)
