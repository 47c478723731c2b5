-- ===== src/Base/Numerals.antt =====
-- `FormatInt` and `ParseInt` of Go's `strconv`, in base ten and for `int64`.
pub mod RoundTrip
use Prim.Native.Char.{Char, code}
use match_mate_dating_web.Base.{
  ℕ, zero, suc, ◌+◌, ◌-◌, ◌*◌, ◌/◌, ◌%◌, ◌^◌, Bool, true, false, Option, none, some, String, ltb,
  leb, ◌==◌, nat_eq, if◌then◌else◌,
}
use match_mate_dating_web.Base.Integers.{ℤ, pos, negsuc}
use match_mate_dating_web.Base.Text.{is_digit, is_empty}

abbrev char_at : ℕ → String → Char
char_at n String.[] = "0"
char_at zero (String.◌∷◌ c s) = c
char_at (suc n) (String.◌∷◌ c s) = char_at n s

-- The digit of a number below ten.
abbrev pub digit : ℕ → Char
digit n = char_at n "0123456789"

-- An `int64` has at most 19 digits, so that 20 rounds are enough.
unfoldable pub print_digits : ℕ → ℕ → String → String
print_digits zero n out = out
print_digits (suc k) n out =
    let rest = print_digits k (n / 10) (String.◌∷◌ (digit (n % 10)) out) in
    if ltb n 10 then String.◌∷◌ (digit n) out else rest

abbrev pub print_nat : ℕ → String
print_nat n = print_digits 20 n ""

-- `FormatInt(i, 10)`
abbrev pub format_int : ℤ → String
format_int (pos n) = print_nat n
format_int (negsuc n) = String.◌∷◌ "-" (print_nat (suc n))

unfoldable pub scan_digits : String → ℕ → Option ℕ
scan_digits String.[] n = some n
scan_digits (String.◌∷◌ c s) n =
    let rest = scan_digits s (n * 10 + (code c - b'0')) in if is_digit c then rest else none

-- The digits behind the sign, at least one.
abbrev pub magnitude : String → Option ℕ
magnitude s = if is_empty s then none else scan_digits s 0

abbrev pub positive : Option ℕ → Option ℤ
positive none = none
positive (some n) = if ltb n (2 ^ 63) then some (pos n) else none

abbrev pub negative : Option ℕ → Option ℤ
negative none = none
negative (some zero) = some (pos 0)
negative (some (suc n)) = if ltb n (2 ^ 63) then some (negsuc n) else none

-- `ParseInt(s, 10, 64)`
unfoldable pub parse_int : String → Option ℤ
parse_int String.[] = none
parse_int (String.◌∷◌ c s) =
    if code c == b'-'
    then negative (magnitude s)
    else (if code c == b'+' then positive (magnitude s) else positive (magnitude (String.◌∷◌ c s)))

-- The numbers of an `int64`.
abbrev pub fits : ℤ → Bool
fits (pos n) = ltb n (2 ^ 63)
fits (negsuc n) = ltb n (2 ^ 63)
