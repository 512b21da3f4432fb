-- ===== src/StringUtil/Integer.antt =====
-- `parse_integer` of src/string_util.c, with what it uses of the C library: `strtol` in base 10 on
-- a 64-bit `long`, and the `%d` of `snprintf`, which writes the numbers that are read back.
pub mod RoundTrip
use parallel_wrapper.Base.{
  ℕ, zero, suc, ◌+◌, ◌-◌, ◌*◌, ◌/◌, ◌%◌, ◌^◌, Option, none, some, Bool, true, false, not, ◌&&◌,
  ◌||◌, List, [], ◌∷◌, ◌++◌, ltb, leb, ◌==◌, if◌then◌else◌,
}
use parallel_wrapper.Base.Int.{ℤ, pos, negsuc, to_int}
use parallel_wrapper.Base.Text.{Bytes}

unfoldable pub is_digit : ℕ → Bool
is_digit c = leb b'0' c && leb c b'9'

-- `isspace` in the C locale.
unfoldable pub is_space : ℕ → Bool
is_space c = c == 32 || (leb 9 c && leb c 13)

unfoldable pub skip_space : Bytes → Bytes
unfolding is_space
skip_space [] = []
skip_space (c ∷ s) = let rest = skip_space s in if is_space c then rest else c ∷ s

-- The number that the digits at the front spell, behind `acc`.
unfoldable pub scan_digits : Bytes → ℕ → ℕ
unfolding is_digit
scan_digits [] acc = acc
scan_digits (c ∷ s) acc =
    let rest = scan_digits s (acc * 10 + (c - b'0')) in if is_digit c then rest else acc

unfoldable pub starts_digit : Bytes → Bool
unfolding is_digit
starts_digit [] = false
starts_digit (c ∷ s) = is_digit c

-- What a call of `strtol` tells: its result, whether it moved `next`, and whether it set `errno`.
pub record Strtol : Type 0 where
  pub value : ℤ
  pub moved : Bool
  pub erange : Bool

-- The digits behind the sign. Out of range the result is LONG_MAX or LONG_MIN.
unfoldable pub strtol_body : Bool → Bytes → Strtol
unfolding scan_digits starts_digit
strtol_body negative s =
    let n = scan_digits s 0 in
    if not (starts_digit s)
    then record { value = pos 0; moved = false; erange = false }
    else if negative
    then (if leb n (2 ^ 63)
        then record {
          value = if n == 0 then pos 0 else negsuc (n - 1);
          moved = true;
          erange = false;
        }
        else record { value = negsuc (2 ^ 63 - 1); moved = true; erange = true })
    else if ltb n (2 ^ 63)
    then record { value = pos n; moved = true; erange = false }
    else record { value = pos (2 ^ 63 - 1); moved = true; erange = true }

unfoldable pub strtol_sign : Bytes → Strtol
unfolding strtol_body
strtol_sign [] = strtol_body false []
strtol_sign (c ∷ s) =
    if c == b'-'
    then strtol_body true s
    else if c == b'+'
    then strtol_body false s
    else strtol_body false (c ∷ s)

unfoldable pub strtol : Bytes → Strtol
unfolding strtol_sign skip_space
strtol s = strtol_sign (skip_space s)

-- The return code with `*value` left alone, or 0 with the new `*value`.
pub data Parsed : Type 0 where
  failed : ℕ → Parsed
  parsed : ℤ → Parsed

-- `has_value` says that the pointer `value` is not NULL. `strtol`'s result is stored in an `int`.
unfoldable pub parse_integer : Option Bytes → Bool → Parsed
unfolding strtol to_int
parse_integer none has_value = failed 1
parse_integer (some string) has_value =
    if not has_value
    then failed 2
    else (let r = strtol string in
        if r.erange || not r.moved then failed 3 else parsed (to_int r.value))

-- The decimal digits of `n`; `fuel > n` is enough.
unfoldable pub digits_fuel : ℕ → ℕ → Bytes
digits_fuel zero n = []
digits_fuel (suc fuel) n =
    let front = digits_fuel fuel (n / 10) in
    if ltb n 10 then (b'0' + n) ∷ [] else front ++ (b'0' + n % 10) ∷ []

unfoldable pub digits : ℕ → Bytes
unfolding digits_fuel
digits n = digits_fuel (suc n) n

-- `%d`.
unfoldable pub format_int : ℤ → Bytes
unfolding digits
format_int (pos n) = digits n
format_int (negsuc n) = b'-' ∷ digits (suc n)
