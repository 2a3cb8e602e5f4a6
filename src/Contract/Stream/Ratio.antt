-- ===== src/Contract/Stream/Ratio.antt =====
-- The ratio of `calculate_diff`.
use cw_streamswap.Base.{refl, ◌+◌, ℕ, ◌^◌, ◌-◌, ◌*◌, ◌/◌, ◌≤◌, ◌<◌, ◌≡◌, arith, ltb, if◌then◌else◌}
use cw_streamswap.Base.Division.{ratio-le_unit, ratio_whole, div-le}
use cw_streamswap.Error.{ok}
use cw_streamswap.Cosmwasm.{u128_limit, fractional, Cosmwasm}
use cw_streamswap.Cosmwasm.Documented.{Documented, Documented-eq}
use cw_streamswap.Contract.Stream.{calculate_diff}

-- The time of the update, but not after the end.
abbrev pub capped : ℕ → ℕ → ℕ
capped end_time now = if ltb end_time now then end_time else now

-- The atomics of (min(now, end) - last) / (end - last), 0 where nothing has passed or is left.
pub ratio : ℕ → ℕ → ℕ → ℕ
ratio end_time last_updated now =
    (capped end_time now - last_updated) * fractional / (end_time - last_updated)

-- The ratio is at most one.
pub ratio-le : (end_time last_updated now : ℕ) → ratio end_time last_updated now ≤ fractional
unfolding ratio
ratio-le e l n = ratio-le_unit (capped e n - l) (e - l) fractional (ground arith)

-- It is one from the end on, if something was left.
pub ratio_after_end :
    (end_time last_updated now : ℕ)
    → end_time ≤ now
    → last_updated < end_time
    → ratio end_time last_updated now ≡ fractional
unfolding ratio
ratio_after_end e l n h p = ground (arith, ratio_whole (e - l) fractional)

-- Nothing has passed since the last update.
pub ratio_idle :
    (end_time last_updated now : ℕ) → now ≤ last_updated → ratio end_time last_updated now ≡ 0
unfolding ratio
ratio_idle e l n h = ground (arith, div-le 0 (e - l))

-- Nothing is left once the stream was updated at its end.
pub ratio_over :
    (end_time last_updated now : ℕ) → end_time ≤ last_updated → ratio end_time last_updated now ≡ 0
unfolding ratio
ratio_over e l n h = ground (arith, div-le 0 (e - l))

-- Times that are all put off by the same length have the same ratio.
pub ratio_shift :
    (length end_time last_updated now : ℕ)
    → ratio (end_time + length) (last_updated + length) (now + length)
      ≡ ratio end_time last_updated now
unfolding ratio
ratio_shift length e l n =
    let top : capped (e + length) (n + length) - (l + length) ≡ capped e n - l = ground arith in
    let bottom : e + length - (l + length) ≡ e - l = omega arith in rw (top, bottom) refl

-- `calculate_diff` never fails, and returns the ratio.
pub calculate_diff_lem :
    (c : Cosmwasm)
    → Documented c
    → (end_time last_updated now : ℕ)
    → calculate_diff c end_time last_updated now ≡ ok (ratio end_time last_updated now)
unfolding calculate_diff ratio u128_limit fractional
calculate_diff_lem c d =
    rw (Documented-eq c d)
      (λ e l n. ground (arith, ratio-le_unit (capped e n - l) (e - l) (10 ^ 18)))
