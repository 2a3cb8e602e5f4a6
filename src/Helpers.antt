-- ===== src/Helpers.antt =====
-- src/helpers.rs: the fraction of a decimal, and the checks on a stream's name and URL.
pub mod Decimals
use Prim.Native.Char.{code}
use Prim.Native.String.{String}
use cw_streamswap.Base.{
  ℕ, ◌+◌, ◌≡◌, Bool, true, false, not, ◌&&◌, ◌||◌, Option, none, some, List, [], ◌∷◌, ltb, leb,
  ◌==◌, if◌then◌else◌,
}
use cw_streamswap.Error.{ContractError, Result, ok, err, ◌>>=◌, ◌>>◌, fail_if, or_fail}
use cw_streamswap.Cosmwasm.{Cosmwasm}
use cw_streamswap.State.{Text}

abbrev pub codes : String → Text
codes String.[] = []
codes (String.◌∷◌ c s) = code c ∷ codes s

abbrev cons_first : ℕ → List Text → List Text
cons_first x [] = (x ∷ []) ∷ []
cons_first x (p ∷ ps) = (x ∷ p) ∷ ps

-- `str::split` on one character.
unfoldable pub split : ℕ → Text → List Text
split sep [] = [] ∷ []
split sep (x ∷ xs) = let rest = split sep xs in if x == sep then [] ∷ rest else cons_first x rest

abbrev decimals_of : Cosmwasm → List Text → Result ℕ
decimals_of c (whole ∷ []) = ok 0
decimals_of c (whole ∷ fraction ∷ []) =
    or_fail (c.text.from_str (b'0' ∷ b'.' ∷ fraction)) ContractError.std
decimals_of c _ = err ContractError.invalid_decimals

unfoldable pub get_decimals : Cosmwasm → ℕ → Result ℕ
get_decimals c value = decimals_of c (split b'.' (c.text.to_string value))

abbrev min_name_length : ℕ
min_name_length = 2

abbrev max_name_length : ℕ
max_name_length = 64

abbrev min_url_length : ℕ
min_url_length = 12

abbrev max_url_length : ℕ
max_url_length = 128

abbrev safe_text_chars : Text
safe_text_chars = codes "<>$!&?#()*+'-./\""

abbrev safe_url_chars : Text
safe_url_chars = codes "-_:/?#@!$&()*+,;=.~[]'%"

unfoldable pub contains : Text → ℕ → Bool
contains [] c = false
contains (x ∷ xs) c = c == x || contains xs c

unfoldable pub all : (ℕ → Bool) → Text → Bool
all p [] = true
all p (x ∷ xs) = p x && all p xs

-- `char::is_ascii_alphanumeric` and `char::is_ascii_whitespace`
abbrev is_ascii_alphanumeric : ℕ → Bool
is_ascii_alphanumeric c =
    (leb b'0' c && leb c b'9') || (leb b'A' c && leb c b'Z') || (leb b'a' c && leb c b'z')

abbrev is_ascii_whitespace : ℕ → Bool
is_ascii_whitespace c = c == 0x20 || c == 0x9 || c == 0xa || c == 0xc || c == 0xd

-- `str::len`: the bytes of the UTF-8 encoding.
abbrev utf8_width : ℕ → ℕ
utf8_width c = if ltb c 0x80 then 1 else if ltb c 0x800 then 2 else if ltb c 0x10000 then 3 else 4

unfoldable pub len : Text → ℕ
len [] = 0
len (x ∷ xs) = utf8_width x + len xs

unfoldable pub is_name_char : ℕ → Bool
unfolding contains
is_name_char c = is_ascii_alphanumeric c || is_ascii_whitespace c || contains safe_text_chars c

unfoldable pub is_url_char : ℕ → Bool
unfolding contains
is_url_char c = is_ascii_alphanumeric c || contains safe_url_chars c

abbrev check_url : Option Text → Result (Unit {0})
check_url none = ok tt
check_url (some url) = do
  fail_if (ltb (len url) min_url_length) ContractError.stream_url_too_short
  fail_if (ltb max_url_length (len url)) ContractError.stream_url_too_long
  fail_if (not (all is_url_char url)) ContractError.invalid_stream_url

unfoldable pub check_name_and_url : Text → Option Text → Result (Unit {0})
check_name_and_url name url = do
  fail_if (ltb (len name) min_name_length) ContractError.stream_name_too_short
  fail_if (ltb max_name_length (len name)) ContractError.stream_name_too_long
  fail_if (not (all is_name_char name)) ContractError.invalid_stream_name
  check_url url
