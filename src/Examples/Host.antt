-- ===== src/Examples/Host.antt =====
-- A host for the concrete runs. Its decimals are written with one character for the whole part and
-- one for the atomics of the fraction; every address is valid.
use cw_streamswap.Base.{
  ℕ, ◌+◌, ◌-◌, ◌*◌, ◌/◌, ◌%◌, ◌≡◌, ◌<◌, Option, none, some, List, [], ◌∷◌, ◌++◌, arith, refl, ◌==◌,
  if◌then◌else◌,
}
use cw_streamswap.Base.Division.{div-add-mod}
use cw_streamswap.Cosmwasm.{u256_limit, fractional, Cosmwasm}
use cw_streamswap.Cosmwasm.Documented.{
  documented_num, NumLaws, Documented, point, validated, sole_payment, HasNoPoint,
}

abbrev digit : ℕ → List ℕ
digit n = (b'0' + n) ∷ []

abbrev print : ℕ → List ℕ
print v =
    if v % fractional == 0
    then digit (v / fractional)
    else digit (v / fractional) ++ (point ∷ digit (v % fractional))

abbrev read : List ℕ → Option ℕ
read (x ∷ []) = some ((x - b'0') * fractional)
read (x ∷ dot ∷ y ∷ []) = some ((x - b'0') * fractional + (y - b'0'))
read _ = none

abbrev pub host : Cosmwasm
host = record {
  num = documented_num;
  text = record { to_string = print; from_str = read };
  api = record {
    addr_validate = λ a. some a;
    maybe_addr = validated (λ a. some a);
    must_pay = λ info denom. sole_payment info.funds denom;
  };
}

num_laws : NumLaws documented_num
num_laws = record {
  checked_add = λ a b. refl;
  checked_sub = λ a b. refl;
  checked_mul = λ a b. refl;
  checked_div = λ a b. refl;
  add = λ a b. refl;
  sub = λ a b. refl;
  mul = λ a b. refl;
  div = λ a b. refl;
  multiply_ratio = λ a p q. refl;
  to_uint128 = λ a. refl;
  decimal_from_ratio = λ p q. refl;
  decimal_denominator = refl;
  decimal256_one = refl;
  decimal256_from_ratio = λ p q. refl;
  decimal256_checked_add = λ a b. refl;
  decimal256_checked_sub = λ a b. refl;
  decimal256_checked_mul = λ a b. refl;
  decimal256_floor = λ a. refl;
  seconds = λ t. refl;
  plus_nanos = λ t d. refl;
}

reads_back : (v : ℕ) → v < u256_limit → read (print v) ≡ some v
reads_back v h = ground (arith, div-add-mod v fractional)

no_point : (n : ℕ) → HasNoPoint (digit n)
no_point n = (ground arith, tt)

pub documented : Documented host
documented = record {
  num = num_laws;
  text = record {
    whole = digit;
    fraction = digit;
    to_string = λ v. refl;
    whole-zero = refl;
    whole_no_point = no_point;
    fraction_no_point = no_point;
    from_str-to_string = reads_back;
  };
  api = record { maybe_addr = λ o. refl; must_pay = λ info denom. refl };
}
