-- ===== src/Common/Decimal.antt =====
-- Python's `str` of a natural number and `int` of a text. A header is decoded as Latin-1, where the
-- digits are those of ASCII; a text of more than 4300 digits is refused by `int`.
pub mod RoundTrip
use Prim.Native.Char.{Char, code}
use repo_viva.Base.{
  ℕ, zero, suc, ◌+◌, ◌-◌, ◌*◌, ◌/◌, ◌%◌, String, Bool, true, false, ◌&&◌, Option, none, some, ltb,
  leb, ◌==◌, if◌then◌else◌, ℤ, pos, negsuc, strip,
}

abbrev pub char_at : String → ℕ → Char
char_at String.[] i = "0"
char_at (String.◌∷◌ c s) zero = c
char_at (String.◌∷◌ c s) (suc i) = char_at s i

abbrev pub digit_char : ℕ → Char
digit_char d = char_at "0123456789" d

-- The digits of `n` before `out`; the fuel `n` is enough, since each step divides by ten.
unfoldable pub emit : ℕ → ℕ → String → String
emit zero n out = out
emit (suc fuel) n out = elim (ltb 0 n) [
  | true ↦ emit fuel (n / 10) (String.◌∷◌ (digit_char (n % 10)) out)
  | false ↦ out
]

unfoldable pub str_of : ℕ → String
unfolding emit
str_of n = if n == 0 then "0" else emit n n ""

-- The number read so far, the digits counted, and whether the last character was a digit.
pub record Scan : Type 0 where
  pub value : ℕ
  pub count : ℕ
  pub on_digit : Bool

abbrev pub max_str_digits : ℕ
max_str_digits = 4300

-- Digits, with single underscores between them.
abbrev pub scan_char : Option Scan → Char → Option Scan
scan_char none c = none
scan_char (some s) c =
    if leb b'0' (code c) && leb (code c) b'9'
    then some
        (record { value = s.value * 10 + (code c - b'0'); count = suc s.count; on_digit = true })
    else if code c == b'_' && s.on_digit
    then some (record s { on_digit = false })
    else none

abbrev pub scan : Option Scan → String → Option Scan
scan s String.[] = s
scan s (String.◌∷◌ c t) = scan (scan_char s c) t

abbrev pub finish : Option Scan → Option ℕ
finish none = none
finish (some s) = if s.on_digit && leb s.count max_str_digits then some s.value else none

abbrev pub nat_of : String → Option ℕ
nat_of t = finish (scan (some (record { value = 0; count = 0; on_digit = false })) t)

abbrev pub positive : Option ℕ → Option ℤ
positive none = none
positive (some n) = some (pos n)

abbrev pub negative : Option ℕ → Option ℤ
negative none = none
negative (some zero) = some (pos 0)
negative (some (suc n)) = some (negsuc n)

abbrev pub signed : String → Option ℤ
signed String.[] = none
signed (String.◌∷◌ c t) =
    if code c == b'-'
    then negative (nat_of t)
    else if code c == b'+'
    then positive (nat_of t)
    else positive (nat_of (String.◌∷◌ c t))

-- `int(t)`, none for a ValueError.
unfoldable pub int_of : String → Option ℤ
int_of t = signed (strip t)
