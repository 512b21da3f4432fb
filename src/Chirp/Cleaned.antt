-- ===== src/Chirp/Cleaned.antt =====
-- src/chirp_util.c on the values that the program itself writes: numbers and quoted addresses.
use parallel_wrapper.Base.{
  ℕ, zero, suc, ◌+◌, ◌*◌, ◌/◌, ◌%◌, ◌^◌, ◌≤◌, ◌<◌, ◌≡◌, ◌≢◌, refl, ap, ◌∙◌, some, true, [], ◌∷◌,
  ◌++◌, length, length-append, take, arith, All,
}
use parallel_wrapper.Base.Int.{pos, to_int_id}
use parallel_wrapper.Base.Text.{Bytes, c_str, IsText}
use parallel_wrapper.Chirp.Attributes.{
  GetAttr, strncmp_eq, cleaned, to_parsed, integer_of, get_chirp_integer, string_if_defined,
  string_of, get_chirp_string,
}
use parallel_wrapper.StringUtil.Integer.{strtol, parsed, digits, digits_fuel}
use parallel_wrapper.StringUtil.Integer.RoundTrip.{strtol-digits, digits-IsDigit, digits-ne-nil}
use parallel_wrapper.StringUtil.Quotes.{is_quote, remove_quotes}
use parallel_wrapper.StringUtil.Quotes.Cases.{remove_quotes-IsUnquoted, remove_quotes_quoted}
use parallel_wrapper.StringUtil.Quotes.Meaning.{IsUnquoted}
use parallel_wrapper.StringUtil.Trim.{is_blank, trim}
use parallel_wrapper.StringUtil.Trim.Meaning.{strip_front, cons_stripped, strip_back}
use parallel_wrapper.StringUtil.Trim.Stripped.{trim-strip}

-- The bytes of numbers and of dotted addresses, from `.` to `9`.
abbrev pub IsPlain : ℕ → Type 0
IsPlain c = (46 ≤ c) × (c ≤ 57)

IsPlain-IsText : (s : Bytes) → All IsPlain s → IsText s
IsPlain-IsText [] h = tt
IsPlain-IsText (c ∷ s) (h, t) = ((λ e. omega arith), IsPlain-IsText s t)

IsPlain-IsUnquoted : (s : Bytes) → All IsPlain s → IsUnquoted s
unfolding is_quote
IsPlain-IsUnquoted [] h = tt
IsPlain-IsUnquoted (c ∷ s) (h, t) = (ground arith, IsPlain-IsUnquoted s t)

strip_front-IsPlain : (s : Bytes) → All IsPlain s → strip_front s ≡ s
unfolding strip_front is_blank
strip_front-IsPlain [] h = refl
strip_front-IsPlain (c ∷ s) (h, t) = ground arith

cons_stripped-IsPlain : (c : ℕ) (s : Bytes) → IsPlain c → cons_stripped c s ≡ c ∷ s
unfolding cons_stripped is_blank
cons_stripped-IsPlain c [] h = ground arith
cons_stripped-IsPlain c (d ∷ s) h = refl

strip_back-IsPlain : (s : Bytes) → All IsPlain s → strip_back s ≡ s
unfolding strip_back
strip_back-IsPlain [] h = refl
strip_back-IsPlain (c ∷ s) (h, t) = rw (strip_back-IsPlain s t) (cons_stripped-IsPlain c s h)

trim-IsPlain : (s : Bytes) → All IsPlain s → trim s ≡ s
trim-IsPlain s h =
    trim-strip s (IsPlain-IsText s h)
    ∙ ap strip_back (strip_front-IsPlain s h)
    ∙ strip_back-IsPlain s h

c_str-IsText : (s : Bytes) → IsText s → c_str s ≡ s
c_str-IsText [] h = refl
c_str-IsText (c ∷ s) (h, t) = ground (arith, c_str-IsText s t)

cleaned-IsPlain : (s : Bytes) → All IsPlain s → cleaned s ≡ s
unfolding cleaned
cleaned-IsPlain s h =
    ap (λ s. trim (remove_quotes s)) (c_str-IsText s (IsPlain-IsText s h))
    ∙ ap trim (remove_quotes-IsUnquoted s (IsPlain-IsText s h) (IsPlain-IsUnquoted s h))
    ∙ trim-IsPlain s h

quoted-IsText : (s : Bytes) → All IsPlain s → IsText (s ++ b'"' ∷ [])
quoted-IsText [] h = ((λ e. omega arith), tt)
quoted-IsText (c ∷ s) (h, t) = ((λ e. omega arith), quoted-IsText s t)

cleaned_quoted : (s : Bytes) → All IsPlain s → cleaned (b'"' ∷ (s ++ b'"' ∷ [])) ≡ s
unfolding cleaned is_quote
cleaned_quoted s h =
    ap (λ s. trim (remove_quotes s))
      (c_str-IsText (b'"' ∷ (s ++ b'"' ∷ [])) ((λ e. omega arith), quoted-IsText s h))
    ∙ ap trim
        (remove_quotes_quoted b'"' b'"' s refl refl (IsPlain-IsText s h) (IsPlain-IsUnquoted s h))
    ∙ trim-IsPlain s h

string_if_defined-IsPlain :
    (n c : ℕ) (s : Bytes) → IsPlain c → string_if_defined (suc n) (c ∷ s) ≡ some (c ∷ s)
unfolding string_if_defined strncmp_eq
string_if_defined-IsPlain n c s h = ground arith

-- A quoted address is read without its quotes.
pub get_chirp_string_quoted :
    (get : GetAttr) (key : Bytes) (c : ℕ) (s : Bytes)
    → All IsPlain (c ∷ s)
    → get key ≡ some (b'"' ∷ (c ∷ s ++ b'"' ∷ []))
    → get_chirp_string true get key ≡ some (c ∷ s)
unfolding get_chirp_string
get_chirp_string_quoted get key c s h e =
    ap (string_of true) e
    ∙ ap (string_if_defined (length (b'"' ∷ (c ∷ s ++ b'"' ∷ [])))) (cleaned_quoted (c ∷ s) h)
    ∙ string_if_defined-IsPlain (length (c ∷ s ++ b'"' ∷ [])) c s h.0

digits-IsPlain : (s : Bytes) → All (λ c. (b'0' ≤ c) × (c ≤ b'9')) s → All IsPlain s
digits-IsPlain [] h = tt
digits-IsPlain (c ∷ s) (h, t) = ((omega arith, omega arith), digits-IsPlain s t)

integer_of-IsPlain :
    (s : Bytes) → s ≢ [] → All IsPlain s → integer_of true (some s) ≡ to_parsed (strtol s)
integer_of-IsPlain [] ne h = absurd (ne refl)
integer_of-IsPlain (c ∷ s) ne h = ap (λ s. to_parsed (strtol s)) (cleaned-IsPlain (c ∷ s) h)

-- A number is read as it was written.
pub get_chirp_integer-digits :
    (get : GetAttr) (key : Bytes) (n : ℕ)
    → n < 2 ^ 31
    → get key ≡ some (digits n)
    → get_chirp_integer true get key ≡ parsed (pos n)
unfolding get_chirp_integer
get_chirp_integer-digits get key n lt e =
    ap (integer_of true) e
    ∙ integer_of-IsPlain (digits n) (digits-ne-nil n) (digits-IsPlain (digits n) (digits-IsDigit n))
    ∙ ap to_parsed (strtol-digits n (omega arith))
    ∙ ap parsed (to_int_id (pos n) lt)

-- `snprintf` does not cut what is shorter than its buffer.
pub take_short : (n : ℕ) (s : Bytes) → length s ≤ n → take n s ≡ s
take_short zero [] h = refl
take_short zero (c ∷ s) h = absurd (omega arith)
take_short (suc n) [] h = refl
take_short (suc n) (c ∷ s) h = ap (λ s. c ∷ s) (take_short n s (omega arith))

power_of_ten : ℕ → ℕ
power_of_ten zero = 1
power_of_ten (suc k) = 10 * power_of_ten k

digits_fuel_short : (f n k : ℕ) → n < power_of_ten (suc k) → length (digits_fuel f n) ≤ suc k
unfolding digits_fuel power_of_ten
digits_fuel_short zero n k h = omega arith
digits_fuel_short (suc f) n zero h = ground arith
digits_fuel_short (suc f) n (suc k) h = ground (
  arith,
  digits_fuel_short f (n / 10) k (omega arith),
  length-append (digits_fuel f (n / 10)) ((b'0' + n % 10) ∷ []),
)

pub digits_short : (n : ℕ) → n < 2 ^ 31 → length (digits n) ≤ 10
unfolding digits power_of_ten
digits_short n h = digits_fuel_short (suc n) n 9 (omega arith)
