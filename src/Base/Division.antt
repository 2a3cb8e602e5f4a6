-- ===== src/Base/Division.antt =====
-- Facts on floor division by a number that is not known, which the shares and ratios rest on.
use Prim.Native.Nat.{ℕ, zero, suc, ◌+◌, ◌*◌, ◌/◌, ◌%◌, ◌≤◌, ◌<◌}
use mathlib.Core.Path.{◌≡◌}
use native.Mathlib.Omega.{arith}

pub div-mul-le : (x d : ℕ) → x / d * d ≤ x
div-mul-le x d = grind arith

pub lt-div-mul : (x d : ℕ) → 0 < d → x < (x / d + 1) * d
lt-div-mul x d h = grind arith

-- A multiple that is not above `x` is counted by the quotient, and the other way round.
pub le-div_of_mul-le : (k x d : ℕ) → 0 < d → k * d ≤ x → k ≤ x / d
le-div_of_mul-le k x d h p = grind arith

pub div-le_of_le-mul : (k x d : ℕ) → 0 < d → x ≤ k * d → x / d ≤ k
div-le_of_le-mul k x d h p = grind arith

-- A part of `x`, by a ratio of at most one, is at most `x`.
pub mul-div-le : (x n d : ℕ) → 0 < d → n ≤ d → x * n / d ≤ x
mul-div-le x n d h p = grind (arith, div-le_of_le-mul x (x * n) d)

pub mul-div_self : (x d : ℕ) → 0 < d → x * d / d ≡ x
mul-div_self x d h = grind arith

pub div-add-le : (x y d : ℕ) → x / d + y / d ≤ (x + y) / d
div-add-le x y zero = omega arith
div-add-le x y (suc d) = grind (
  arith,
  le-div_of_mul-le (x / suc d + y / suc d) (x + y) (suc d),
  div-mul-le x (suc d),
  div-mul-le y (suc d),
)

pub mul_mono : (a b k : ℕ) → a ≤ b → a * k ≤ b * k
mul_mono a b k h = grind arith

-- The ratio of a part to a positive whole, in units of `u`.
pub ratio-le_unit : (a b u : ℕ) → a ≤ b → a * u / b ≤ u
ratio-le_unit a zero u h = omega arith
ratio-le_unit a (suc b) u h =
    grind (arith, div-le_of_le-mul u (a * u) (suc b), mul_mono a (suc b) u h)

pub ratio_whole : (a u : ℕ) → 0 < a → a * u / a ≡ u
ratio_whole a u h = grind arith

pub div-le : (x d : ℕ) → x / d ≤ x
div-le x zero = omega arith
div-le x (suc d) = grind (arith, div-le_of_le-mul x x (suc d))

pub mod-le : (x d : ℕ) → x % d ≤ x
mod-le x d = grind arith

pub div-add-mod : (x d : ℕ) → x / d * d + x % d ≡ x
div-add-mod x d = grind arith

pub div-one : (x : ℕ) → x / 1 ≡ x
div-one x = omega arith
