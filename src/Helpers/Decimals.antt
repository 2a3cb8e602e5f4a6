-- ===== src/Helpers/Decimals.antt =====
-- `get_decimals` (src/helpers.rs), which goes through the printed form of a decimal.
use cw_streamswap.Base.{
  ℕ, ◌/◌, ◌%◌, ◌<◌, ◌≡◌, refl, false, List, [], ◌∷◌, ◌++◌, arith, some, ◌==◌, inl, inr, Bool-cases,
  ==_iff, ap, sym,
}
use cw_streamswap.Base.Division.{mod-le}
use cw_streamswap.Error.{ok}
use cw_streamswap.Cosmwasm.{u256_limit, fractional, Cosmwasm}
use cw_streamswap.Cosmwasm.Documented.{HasNoPoint, point, TextLaws}
use cw_streamswap.Helpers.{split, get_decimals}

-- A text with no point is one part.
split-no_point : (w : List ℕ) → HasNoPoint w → split point w ≡ w ∷ []
unfolding split
split-no_point [] h = refl
split-no_point (x ∷ xs) h = ground (arith, split-no_point xs h.1)

-- At its one point a text parts in two.
split-point :
    (w f : List ℕ) → HasNoPoint w → HasNoPoint f → split point (w ++ (point ∷ f)) ≡ w ∷ f ∷ []
unfolding split
split-point [] f hw hf = ground (arith, split-no_point f hf)
split-point (x ∷ xs) f hw hf = ground (arith, split-point xs f hw.1 hf)

mod_twice : (v : ℕ) → v % fractional % fractional ≡ v % fractional
unfolding fractional
mod_twice v = omega arith

mod_whole : (v : ℕ) → v % fractional / fractional ≡ 0
unfolding fractional
mod_whole v = omega arith

-- A fraction alone prints as "0.", and its digits.
fraction_prints :
    (c : Cosmwasm) (t : TextLaws c.text) (v : ℕ)
    → (v % fractional == 0) ≡ false
    → c.text.to_string (v % fractional) ≡ b'0' ∷ b'.' ∷ t.fraction (v % fractional)
fraction_prints c t v h =
    rw (t.to_string (v % fractional), mod_twice v, mod_whole v, h, t.whole-zero)

fraction_reads :
    (c : Cosmwasm) (t : TextLaws c.text) (v : ℕ)
    → v < u256_limit
    → (v % fractional == 0) ≡ false
    → c.text.from_str (b'0' ∷ b'.' ∷ t.fraction (v % fractional)) ≡ some (v % fractional)
fraction_reads c t v h part =
    rw (← fraction_prints c t v part)
      (t.from_str-to_string (v % fractional) (omega (arith, mod-le v fractional)))

-- For every decimal, the digits after the point, read back, are its fraction.
pub get_decimals_lem :
    (c : Cosmwasm)
    → TextLaws c.text
    → (v : ℕ) → v < u256_limit
    → get_decimals c v ≡ ok (v % fractional)
unfolding get_decimals
get_decimals_lem c t v h = elim (Bool-cases (v % fractional == 0)) [
  | inl whole ↦
      rw (t.to_string v, whole, split-no_point _ (t.whole_no_point (v / fractional)))
        (ap ok (sym ((==_iff _ _).0 whole)))
  | inr part ↦ rw (
    t.to_string v,
    part,
    split-point _ _ (t.whole_no_point (v / fractional)) (t.fraction_no_point (v % fractional)),
    fraction_reads c t v h part,
  )
]
