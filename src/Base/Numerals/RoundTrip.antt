-- ===== src/Base/Numerals/RoundTrip.antt =====
-- Every `int64` is read back from its decimal print, which holds no bar.
use Prim.Native.Char.{code}
use match_mate_dating_web.Base.{
  ℕ, zero, suc, ◌+◌, ◌*◌, ◌/◌, ◌%◌, ◌^◌, ◌<◌, ◌≡◌, refl, Bool, true, false, not, ◌&&◌, some, String,
  arith, nat_eq, ltb, ◌==◌,
}
use match_mate_dating_web.Base.Integers.{ℤ, pos, negsuc}
use match_mate_dating_web.Base.Text.{is_digit}
use match_mate_dating_web.Base.Numerals.{
  digit, print_digits, print_nat, scan_digits, magnitude, parse_int, format_int, fits,
}

digit_lem : (n : ℕ) → n < 10 → (code (digit n) ≡ b'0' + n) × (is_digit (digit n) ≡ true)
unfolding is_digit
digit_lem zero h = (refl, refl)
digit_lem (suc zero) h = (refl, refl)
digit_lem (suc (suc zero)) h = (refl, refl)
digit_lem (suc (suc (suc zero))) h = (refl, refl)
digit_lem (suc (suc (suc (suc zero)))) h = (refl, refl)
digit_lem (suc (suc (suc (suc (suc zero))))) h = (refl, refl)
digit_lem (suc (suc (suc (suc (suc (suc zero)))))) h = (refl, refl)
digit_lem (suc (suc (suc (suc (suc (suc (suc zero))))))) h = (refl, refl)
digit_lem (suc (suc (suc (suc (suc (suc (suc (suc zero)))))))) h = (refl, refl)
digit_lem (suc (suc (suc (suc (suc (suc (suc (suc (suc zero))))))))) h = (refl, refl)
digit_lem (suc (suc (suc (suc (suc (suc (suc (suc (suc (suc n)))))))))) h = absurd (omega arith)

scan_one :
    (n m : ℕ) (out : String)
    → n < 10
    → scan_digits (String.◌∷◌ (digit n) out) m ≡ scan_digits out (m * 10 + n)
unfolding scan_digits
scan_one n m out h = ground (arith, digit_lem n h)

power_step : (k : ℕ) → 10 ^ suc k ≡ 10 * 10 ^ k
power_step k = omega arith

scan-print :
    (k n : ℕ) (out : String)
    → n < 10 ^ suc k
    → scan_digits (print_digits (suc k) n out) 0 ≡ scan_digits out n
unfolding print_digits
scan-print zero n out h = ground (arith, scan_one n 0 out)
scan-print (suc k) n out h = ground (
  arith,
  h,
  power_step (suc k),
  scan_one n 0 out,
  scan_one (n % 10) (n / 10) out,
  scan-print k (n / 10) (String.◌∷◌ (digit (n % 10)) out),
)

scan-print_nat : (n : ℕ) → n < 10 ^ 20 → scan_digits (print_nat n) 0 ≡ some n
unfolding scan_digits
scan-print_nat n h = scan-print 19 n "" h

starts_with_digit : String → Bool
starts_with_digit String.[] = false
starts_with_digit (String.◌∷◌ c s) = is_digit c

print_digits-starts_with_digit :
    (k n : ℕ) (out : String)
    → n < 10 ^ suc k
    → starts_with_digit (print_digits (suc k) n out) ≡ true
unfolding print_digits starts_with_digit
print_digits-starts_with_digit zero n out h = ground (arith, digit_lem n)
print_digits-starts_with_digit (suc k) n out h = ground (
  arith,
  h,
  power_step (suc k),
  digit_lem n,
  print_digits-starts_with_digit k (n / 10) (String.◌∷◌ (digit (n % 10)) out),
)

-- A text that starts with a digit is read without a sign.
parse-unsigned :
    (s : String) (n : ℕ)
    → starts_with_digit s ≡ true
    → scan_digits s 0 ≡ some n
    → ltb n (2 ^ 63) ≡ true
    → parse_int s ≡ some (pos n)
unfolding parse_int starts_with_digit is_digit
parse-unsigned String.[] n h k f = absurd (ground arith)
parse-unsigned (String.◌∷◌ c s) n h k f = ground (arith, h, k, f)

magnitude-some :
    (s : String) (n : ℕ)
    → starts_with_digit s ≡ true
    → scan_digits s 0 ≡ some n
    → magnitude s ≡ some n
unfolding starts_with_digit
magnitude-some String.[] n h k = absurd (ground arith)
magnitude-some (String.◌∷◌ c s) n h k = ground (arith, h, k)

fits_lt : (n : ℕ) → ltb n (2 ^ 63) ≡ true → suc n < 10 ^ 20
fits_lt n h = ground (arith, h)

pub parse_int-format_int : (i : ℤ) → fits i ≡ true → parse_int (format_int i) ≡ some i
unfolding parse_int
parse_int-format_int (pos n) h =
    parse-unsigned (print_nat n) n
      (print_digits-starts_with_digit 19 n "" (omega (arith, fits_lt n h)))
      (scan-print_nat n (omega (arith, fits_lt n h))) h
parse_int-format_int (negsuc n) h = ground (
  arith,
  h,
  magnitude-some (print_nat (suc n)) (suc n)
      (print_digits-starts_with_digit 19 (suc n) "" (omega (arith, fits_lt n h)))
      (scan-print_nat (suc n) (omega (arith, fits_lt n h))),
)

-- Whether a text holds no bar.
unfoldable pub has_no_bar : String → Bool
has_no_bar String.[] = true
has_no_bar (String.◌∷◌ c s) = not (code c == b'|') && has_no_bar s

print_digits-has_no_bar :
    (k n : ℕ) (out : String) → has_no_bar out ≡ true → has_no_bar (print_digits k n out) ≡ true
unfolding print_digits has_no_bar
print_digits-has_no_bar zero n out h = h
print_digits-has_no_bar (suc k) n out h = ground (
  arith,
  h,
  digit_lem n,
  digit_lem (n % 10),
  print_digits-has_no_bar k (n / 10) (String.◌∷◌ (digit (n % 10)) out),
)

pub format_int-has_no_bar : (i : ℤ) → has_no_bar (format_int i) ≡ true
unfolding has_no_bar
format_int-has_no_bar (pos n) = print_digits-has_no_bar 20 n "" refl
format_int-has_no_bar (negsuc n) = print_digits-has_no_bar 20 (suc n) "" refl
