-- ===== src/Cosmwasm/Documented.antt =====
-- What the documentation of cosmwasm-std and cw-utils promises of the operations of `Cosmwasm`,
-- as hypotheses, and that a set of number operations that keeps them is the one written out here.
use cw_streamswap.Base.{
  ℕ, ◌+◌, ◌-◌, ◌*◌, ◌/◌, ◌%◌, ◌<◌, ◌≡◌, fun_ext, Option, none, some, List, [], ◌∷◌, ◌++◌, false,
  not, ◌&&◌, ltb, ◌==◌, if◌then◌else◌,
}
use cw_streamswap.Cosmwasm.{
  u64_limit, u128_limit, u256_limit, fractional, nanos_per_second, Coin, MessageInfo, Num,
  DecimalText, Api, Cosmwasm,
}

-- A value that an integer of this bound can hold.
abbrev pub fits : ℕ → ℕ → Option ℕ
fits limit v = if ltb v limit then some v else none

abbrev pub minus : ℕ → ℕ → Option ℕ
minus a b = if ltb a b then none else some (a - b)

abbrev pub quotient : ℕ → ℕ → ℕ → Option ℕ
quotient limit a b = if b == 0 then none else fits limit (a / b)

-- Sums, products and differences fail exactly when they leave the range; quotients are floored and
-- fail on a zero divisor.
pub record NumLaws (n : Num) : Type 0 where
  pub checked_add : (a b : ℕ) → n.checked_add a b ≡ fits u256_limit (a + b)
  pub checked_sub : (a b : ℕ) → n.checked_sub a b ≡ minus a b
  pub checked_mul : (a b : ℕ) → n.checked_mul a b ≡ fits u256_limit (a * b)
  pub checked_div : (a b : ℕ) → n.checked_div a b ≡ quotient u256_limit a b
  pub add : (a b : ℕ) → n.add a b ≡ fits u256_limit (a + b)
  pub sub : (a b : ℕ) → n.sub a b ≡ minus a b
  pub mul : (a b : ℕ) → n.mul a b ≡ fits u256_limit (a * b)
  pub div : (a b : ℕ) → n.div a b ≡ quotient u256_limit a b
  pub multiply_ratio : (a p q : ℕ) → n.multiply_ratio a p q ≡ quotient u256_limit (a * p) q
  pub to_uint128 : (a : ℕ) → n.to_uint128 a ≡ fits u128_limit a
  pub decimal_from_ratio :
      (p q : ℕ) → n.decimal_from_ratio p q ≡ quotient u128_limit (p * fractional) q
  pub decimal_denominator : n.decimal_denominator ≡ fractional
  pub decimal256_one : n.decimal256_one ≡ fractional
  pub decimal256_from_ratio :
      (p q : ℕ) → n.decimal256_from_ratio p q ≡ quotient u256_limit (p * fractional) q
  pub decimal256_checked_add : (a b : ℕ) → n.decimal256_checked_add a b ≡ fits u256_limit (a + b)
  pub decimal256_checked_sub : (a b : ℕ) → n.decimal256_checked_sub a b ≡ minus a b
  pub decimal256_checked_mul :
      (a b : ℕ) → n.decimal256_checked_mul a b ≡ fits u256_limit (a * b / fractional)
  pub decimal256_floor : (a : ℕ) → n.decimal256_floor a ≡ a / fractional
  pub seconds : (t : ℕ) → n.seconds t ≡ t / nanos_per_second
  pub plus_nanos : (t d : ℕ) → n.plus_nanos t d ≡ fits u64_limit (t + d)

abbrev pub documented_num : Num
documented_num = record {
  checked_add = λ a b. fits u256_limit (a + b);
  checked_sub = λ a b. minus a b;
  checked_mul = λ a b. fits u256_limit (a * b);
  checked_div = λ a b. quotient u256_limit a b;
  add = λ a b. fits u256_limit (a + b);
  sub = λ a b. minus a b;
  mul = λ a b. fits u256_limit (a * b);
  div = λ a b. quotient u256_limit a b;
  multiply_ratio = λ a p q. quotient u256_limit (a * p) q;
  to_uint128 = λ a. fits u128_limit a;
  decimal_from_ratio = λ p q. quotient u128_limit (p * fractional) q;
  decimal_denominator = fractional;
  decimal256_one = fractional;
  decimal256_from_ratio = λ p q. quotient u256_limit (p * fractional) q;
  decimal256_checked_add = λ a b. fits u256_limit (a + b);
  decimal256_checked_sub = λ a b. minus a b;
  decimal256_checked_mul = λ a b. fits u256_limit (a * b / fractional);
  decimal256_floor = λ a. a / fractional;
  seconds = λ t. t / nanos_per_second;
  plus_nanos = λ t d. fits u64_limit (t + d);
}

abbrev Binary : Type 0
Binary = ℕ → ℕ → Option ℕ

ext₂ : (f g : Binary) → ((a b : ℕ) → f a b ≡ g a b) → f ≡ g
ext₂ f g h = fun_ext λ a. fun_ext λ b. h a b

num-eq : (n : Num) → NumLaws n → n ≡ documented_num
num-eq n d = λ i. record {
  checked_add = ext₂ _ _ d.checked_add i;
  checked_sub = ext₂ _ _ d.checked_sub i;
  checked_mul = ext₂ _ _ d.checked_mul i;
  checked_div = ext₂ _ _ d.checked_div i;
  add = ext₂ _ _ d.add i;
  sub = ext₂ _ _ d.sub i;
  mul = ext₂ _ _ d.mul i;
  div = ext₂ _ _ d.div i;
  multiply_ratio = fun_ext (λ a. ext₂ _ _ (d.multiply_ratio a)) i;
  to_uint128 = fun_ext d.to_uint128 i;
  decimal_from_ratio = ext₂ _ _ d.decimal_from_ratio i;
  decimal_denominator = d.decimal_denominator i;
  decimal256_one = d.decimal256_one i;
  decimal256_from_ratio = ext₂ _ _ d.decimal256_from_ratio i;
  decimal256_checked_add = ext₂ _ _ d.decimal256_checked_add i;
  decimal256_checked_sub = ext₂ _ _ d.decimal256_checked_sub i;
  decimal256_checked_mul = ext₂ _ _ d.decimal256_checked_mul i;
  decimal256_floor = fun_ext d.decimal256_floor i;
  seconds = fun_ext d.seconds i;
  plus_nanos = ext₂ _ _ d.plus_nanos i;
}

abbrev pub point : ℕ
point = b'.'

abbrev pub zero_digit : ℕ
zero_digit = b'0'

-- No character of the text is the decimal point.
abbrev pub HasNoPoint : List ℕ → Type 0
HasNoPoint [] = Unit
HasNoPoint (x ∷ xs) = ((x == point) ≡ false) × HasNoPoint xs

-- A decimal prints as its whole part, followed by a point and its fraction if that is not zero; the
-- whole part zero prints as "0", neither part has a point, and what is printed reads back.
pub record TextLaws (t : DecimalText) : Type 0 where
  pub whole : ℕ → List ℕ
  pub fraction : ℕ → List ℕ
  pub to_string :
      (v : ℕ)
      → t.to_string v ≡ (
          if v % fractional == 0
          then whole (v / fractional)
          else (whole (v / fractional) ++ (point ∷ fraction (v % fractional))))
  pub whole-zero : whole 0 ≡ zero_digit ∷ []
  pub whole_no_point : (n : ℕ) → HasNoPoint (whole n)
  pub fraction_no_point : (n : ℕ) → HasNoPoint (fraction n)
  pub from_str-to_string : (v : ℕ) → v < u256_limit → t.from_str (t.to_string v) ≡ some v

abbrev pub validated : (ℕ → Option ℕ) → Option ℕ → Option (Option ℕ)
validated check none = some none
validated check (some a) = elim (check a) [ none ↦ none | some b ↦ some (some b) ]

abbrev pub sole_payment : List Coin → ℕ → Option ℕ
sole_payment [] denom = none
sole_payment (x ∷ []) denom =
    if x.denom == denom && not (x.amount == 0) then some x.amount else none
sole_payment (x ∷ y ∷ rest) denom = none

-- `maybe_addr` checks an address that is given, and `must_pay` wants a single coin, of that
-- denomination and above zero. Of `addr_validate` nothing is assumed.
pub record ApiLaws (a : Api) : Type 0 where
  pub maybe_addr : (o : Option ℕ) → a.maybe_addr o ≡ validated a.addr_validate o
  pub must_pay : (i : MessageInfo) (d : ℕ) → a.must_pay i d ≡ sole_payment i.funds d

pub record Documented (c : Cosmwasm) : Type 0 where
  pub num : NumLaws c.num
  pub text : TextLaws c.text
  pub api : ApiLaws c.api

-- The same host, with the operations on numbers written out.
abbrev pub with_num : Cosmwasm → Cosmwasm
with_num c = record { num = documented_num; text = c.text; api = c.api }

pub Documented-eq : (c : Cosmwasm) → Documented c → c ≡ with_num c
Documented-eq c d = λ i. record { num = num-eq c.num d.num i; text = c.text; api = c.api }
