-- ===== src/Chirp/Attributes.antt =====
-- src/chirp_util.c: how a job attribute is read. The chirp client library, which is not part of the
-- program, is a parameter: what it gives for each name.
use parallel_wrapper.Base.{
  ℕ, zero, suc, Option, none, some, Bool, true, false, not, ◌||◌, [], ◌∷◌, ◌==◌, if◌then◌else◌,
  length,
}
use parallel_wrapper.Base.Int.{to_int}
use parallel_wrapper.Base.Text.{Bytes, codes, c_str}
use parallel_wrapper.StringUtil.Integer.{Strtol, strtol, Parsed, failed, parsed}
use parallel_wrapper.StringUtil.Quotes.{remove_quotes}
use parallel_wrapper.StringUtil.Trim.{trim}

-- `chirp_client_get_job_attr`: NULL, or the bytes of the value; their number is what the call returns.
abbrev pub GetAttr : Type 0
GetAttr = Bytes → Option Bytes

-- `strncmp(a, b, n) == 0`.
unfoldable pub strncmp_eq : Bytes → Bytes → ℕ → Bool
strncmp_eq a b zero = true
strncmp_eq [] [] (suc n) = true
strncmp_eq [] (d ∷ b) (suc n) = false
strncmp_eq (c ∷ a) [] (suc n) = false
strncmp_eq (c ∷ a) (d ∷ b) (suc n) = let rest = strncmp_eq a b n in if c == d then rest else false

-- `remove_quotes` and `trim`, on a copy of the value with NULs behind it.
unfoldable pub cleaned : Bytes → Bytes
cleaned value = trim (remove_quotes (c_str value))

-- `(int) strtol`, if it found a number.
abbrev pub to_parsed : Strtol → Parsed
to_parsed r = if r.erange || not r.moved then failed 5 else parsed (to_int r.value)

abbrev pub integer_of : Bool → Option Bytes → Parsed
integer_of calloc_ok none = failed 3
integer_of calloc_ok (some []) = failed 4
integer_of calloc_ok (some (c ∷ s)) =
    if not calloc_ok then failed 5 else to_parsed (strtol (cleaned (c ∷ s)))

-- Neither the connection nor the key is NULL. `failed` leaves `*value` alone.
unfoldable pub get_chirp_integer : Bool → GetAttr → Bytes → Parsed
unfolding cleaned
get_chirp_integer calloc_ok get key = integer_of calloc_ok (get key)

-- The check for an undefined value, with the length that the value had before it was cleaned.
unfoldable pub string_if_defined : ℕ → Bytes → Option Bytes
unfolding strncmp_eq
string_if_defined str_len s =
    if strncmp_eq (codes "UNDEFINED") s str_len || strncmp_eq (codes "undefined") s str_len
    then none
    else some s

abbrev pub string_of : Bool → Option Bytes → Option Bytes
string_of calloc_ok none = none
string_of calloc_ok (some []) = none
string_of calloc_ok (some (c ∷ s)) =
    if not calloc_ok then none else string_if_defined (length (c ∷ s)) (cleaned (c ∷ s))

unfoldable pub get_chirp_string : Bool → GetAttr → Bytes → Option Bytes
unfolding cleaned string_if_defined
get_chirp_string calloc_ok get key = string_of calloc_ok (get key)
