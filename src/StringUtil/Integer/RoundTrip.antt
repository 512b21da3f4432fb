-- ===== src/StringUtil/Integer/RoundTrip.antt =====
-- `parse_integer` reads back what `%d` wrote.
use parallel_wrapper.Base.{
  ℕ, zero, suc, ◌+◌, ◌/◌, ◌%◌, ◌^◌, ◌≤◌, ◌<◌, ◌≡◌, ◌≢◌, refl, ap, Option, none, some, Bool, true,
  false, [], ◌∷◌, ◌++◌, append-nil, append_assoc, arith, All, All-append,
}
use mathlib.Core.List.{concat-ne-nil}
use parallel_wrapper.Base.Int.{ℤ, pos, negsuc, to_int, IsInt, to_int_id, to_int-IsInt}
use parallel_wrapper.Base.Text.{Bytes}
use parallel_wrapper.StringUtil.Integer.{
  is_space, skip_space, scan_digits, starts_digit, strtol_body, strtol_sign, strtol, parsed,
  parse_integer, digits_fuel, digits, format_int,
}

abbrev pub IsDigit : ℕ → Type 0
IsDigit c = (b'0' ≤ c) × (c ≤ b'9')

scan_digits-digits :
    (f n : ℕ) (rest : Bytes) → n < f → scan_digits (digits_fuel f n ++ rest) 0 ≡ scan_digits rest n
unfolding scan_digits digits_fuel
scan_digits-digits zero n rest h = absurd (omega arith)
scan_digits-digits (suc f) n rest h = ground (
  arith,
  scan_digits-digits f (n / 10) ((b'0' + n % 10) ∷ rest),
  append_assoc (digits_fuel f (n / 10)) ((b'0' + n % 10) ∷ []) rest,
)

digits_fuel-IsDigit : (f n : ℕ) → All IsDigit (digits_fuel f n)
unfolding digits_fuel
digits_fuel-IsDigit zero n = tt
digits_fuel-IsDigit (suc f) n = ground (
  arith,
  digits_fuel-IsDigit f (n / 10),
  All-append IsDigit (digits_fuel f (n / 10)) ((b'0' + n % 10) ∷ []),
)

digits_fuel-ne-nil : (f n : ℕ) → digits_fuel (suc f) n ≢ []
unfolding digits_fuel
digits_fuel-ne-nil f n = ground (arith, concat-ne-nil (b'0' + n % 10) (digits_fuel f (n / 10)))

pub digits-ne-nil : (n : ℕ) → digits n ≢ []
unfolding digits
digits-ne-nil n = digits_fuel-ne-nil n n

pub digits-IsDigit : (n : ℕ) → All IsDigit (digits n)
unfolding digits
digits-IsDigit n = digits_fuel-IsDigit (suc n) n

scan_digits_all : (n : ℕ) → scan_digits (digits n) 0 ≡ n
unfolding digits scan_digits
scan_digits_all n =
    rw (← append-nil (digits_fuel (suc n) n)) (scan_digits-digits (suc n) n [] (omega arith))

digit_starts : (s : Bytes) → s ≢ [] → All IsDigit s → starts_digit s ≡ true
unfolding starts_digit
digit_starts [] h all = absurd (h refl)
digit_starts (c ∷ s) h all = ground arith

-- No blank and no sign stands before a digit.
strtol_digit_first : (s : Bytes) → s ≢ [] → All IsDigit s → strtol s ≡ strtol_body false s
unfolding strtol skip_space is_space strtol_sign
strtol_digit_first [] h all = absurd (h refl)
strtol_digit_first (c ∷ s) h all = ground arith

strtol_body-digits :
    (n : ℕ)
    → n < 2 ^ 63
    → strtol_body false (digits n) ≡ record { value = pos n; moved = true; erange = false }
unfolding strtol_body
strtol_body-digits n h =
    ground (arith, scan_digits_all n, digit_starts (digits n) (digits-ne-nil n) (digits-IsDigit n))

strtol_body-digits_negative :
    (n : ℕ)
    → n < 2 ^ 63
    → strtol_body true (digits (suc n)) ≡ record { value = negsuc n; moved = true; erange = false }
unfolding strtol_body
strtol_body-digits_negative n h = ground (
  arith,
  scan_digits_all (suc n),
  digit_starts (digits (suc n)) (digits-ne-nil (suc n)) (digits-IsDigit (suc n)),
)

pub strtol-digits :
    (n : ℕ)
    → n < 2 ^ 63
    → strtol (digits n) ≡ record { value = pos n; moved = true; erange = false }
strtol-digits n h =
    rw (strtol_digit_first (digits n) (digits-ne-nil n) (digits-IsDigit n)) (strtol_body-digits n h)

strtol-minus : (s : Bytes) → strtol (b'-' ∷ s) ≡ strtol_body true s
unfolding strtol skip_space is_space strtol_sign
strtol-minus s = refl

-- Any number that fits `long` is read, and what is stored are its low 32 bits: a number beyond
-- `int` is not refused.
pub parse_integer-digits :
    (n : ℕ) → n < 2 ^ 63 → parse_integer (some (digits n)) true ≡ parsed (to_int (pos n))
unfolding parse_integer
parse_integer-digits n h = rw (strtol-digits n h)

-- Every `int` is read back from its decimal print, signs included.
pub parse_integer-format_int :
    (v : ℤ) → IsInt v → parse_integer (some (format_int v)) true ≡ parsed v
unfolding parse_integer format_int
parse_integer-format_int (pos n) h =
    rw (strtol-digits n (omega arith)) (ap parsed (to_int_id (pos n) h))
parse_integer-format_int (negsuc n) h =
    rw (strtol-minus (digits (suc n)), strtol_body-digits_negative n (omega arith))
      (ap parsed (to_int_id (negsuc n) h))

-- Whatever the string, a number that is stored is a value of `int`.
pub parse_integer-IsInt :
    (string : Option Bytes) (has_value : Bool) {v : ℤ}
    → parse_integer string has_value ≡ parsed v
    → IsInt v
unfolding parse_integer
parse_integer-IsInt none has_value h = cc
parse_integer-IsInt (some string) has_value {v} h =
    ground (arith, to_int-IsInt (strtol string).value)
