-- ===== src/StringUtil/Tokens.antt =====
-- `count_tokens` and `strsplit` of src/string_util.c, with the `strarray` of string_util.h.
-- A `char *` that may be NULL is an `Option`. `alloc n` says whether the n-th allocation of the
-- call succeeds. A write outside the array that `calloc` returned is `fault`.
pub mod Pieces
pub mod Filling
use parallel_wrapper.Base.{
  ℕ, ◌+◌, ◌-◌, Option, none, some, Bool, true, false, not, ◌&&◌, List, [], ◌∷◌, ltb, ◌==◌,
  if◌then◌else◌, length, set, take, drop, replicate,
}
use parallel_wrapper.Base.Int.{ℤ, pos, negsuc, sub_ℕ, leb_ℤ}
use parallel_wrapper.Base.Text.{Bytes}

-- The inner loop over the delimiters.
unfoldable pub found_delim : Bytes → ℕ → Bool
found_delim [] c = false
found_delim (d ∷ delim) c = if c == d then true else found_delim delim c

-- The loop over the string: the number of tokens and `last_was_delim`.
unfoldable pub count_loop : Bytes → Bytes → ℕ → Bool → ℕ × Bool
unfolding found_delim
count_loop delim [] tokens last_was_delim = (tokens, last_was_delim)
count_loop delim (c ∷ s) tokens last_was_delim =
    let found = found_delim delim c in
    count_loop delim s (if found && not last_was_delim then tokens + 1 else tokens)
      (if found then true else false)

unfoldable pub count_tokens : Option Bytes → Option Bytes → ℤ
unfolding count_loop
count_tokens none string = negsuc 0
count_tokens (some delim) none = negsuc 0
count_tokens (some delim) (some string) =
    let (tokens, last_was_delim) = count_loop delim string 1 false in
    if last_was_delim then sub_ℕ tokens 1 else pos tokens

pub record StrArray : Type 0 where
  pub dim : ℤ
  pub strings : List (Option Bytes)

-- `is_valid_strarray`. The model's arrays have been allocated.
unfoldable pub is_valid_strarray : Option StrArray → Bool
is_valid_strarray none = false
is_valid_strarray (some array) = not (leb_ℤ array.dim (pos 0))

pub data Split (A : Type 0) : Type 0 where
  ok : A → Split A
  -- The function returns NULL.
  null : Split A
  -- A write outside the array of strings.
  fault : Split A

-- The locals of the second loop.
pub record Scan : Type 0 where
  pub strings : List (Option Bytes)
  pub current_token : ℕ
  pub start_index : ℕ
  pub last_was_delim : Bool

-- `strings[current_token] = calloc(…)` and `strncpy` of the bytes from `start_index` up to
-- `end_index`.
unfoldable pub store_token : (ℕ → Bool) → Bytes → ℕ → Scan → Split (List (Option Bytes))
store_token alloc string end_index st =
    if not (ltb st.current_token (length st.strings))
    then fault
    else if not (alloc (2 + st.current_token))
    then null
    else ok (
        set st.strings st.current_token
          (some (take (end_index - st.start_index) (drop st.start_index string))))

-- One round of the loop, at index `i` with the byte `c`.
unfoldable pub split_step : (ℕ → Bool) → Bytes → Bytes → ℕ → ℕ → Scan → Split Scan
unfolding found_delim store_token
split_step alloc delim string c i st =
    let found = found_delim delim c in
    if found && not st.last_was_delim
    then elim (store_token alloc string i st) [
      | ok strings ↦ ok (record {
        strings = strings;
        current_token = st.current_token + 1;
        start_index = i + 1;
        last_was_delim = true;
      })
      | null ↦ null
      | fault ↦ fault
    ]
    else if found && st.last_was_delim
    then ok (record st { start_index = i + 1; last_was_delim = true })
    else ok (record st { last_was_delim = false })

-- `s` is what stands from index `i` on.
unfoldable pub split_loop : (ℕ → Bool) → Bytes → Bytes → Bytes → ℕ → Scan → Split Scan
unfolding split_step
split_loop alloc delim string [] i st = ok st
split_loop alloc delim string (c ∷ s) i st = elim (split_step alloc delim string c i st) [
  | ok st' ↦ split_loop alloc delim string s (i + 1) st'
  | null ↦ null
  | fault ↦ fault
]

-- What follows the loop: the last token.
unfoldable pub split_last : (ℕ → Bool) → Bytes → Scan → Split (List (Option Bytes))
unfolding store_token
split_last alloc string st =
    if not st.last_was_delim then store_token alloc string (length string) st else ok st.strings

-- The loops from the allocated array on.
unfoldable pub fill_tokens : (ℕ → Bool) → Bytes → Bytes → ℕ → Split StrArray
unfolding split_loop split_last
fill_tokens alloc delim string tokens =
    elim (split_loop alloc delim string string 0 (record {
      strings = replicate tokens none;
      current_token = 0;
      start_index = 0;
      last_was_delim = false;
    })) [
      | ok st ↦ elim (split_last alloc string st) [
        | ok strings ↦ ok (record { dim = pos tokens; strings = strings })
        | null ↦ null
        | fault ↦ fault
      ]
      | null ↦ null
      | fault ↦ fault
    ]

unfoldable pub strsplit : (ℕ → Bool) → Option Bytes → Option Bytes → Split StrArray
unfolding fill_tokens
strsplit alloc delim none = null
strsplit alloc none (some string) = null
strsplit alloc (some delim) (some string) = elim (count_tokens (some delim) (some string)) [
  | negsuc n ↦ null
  | pos tokens ↦
      if tokens == 0
      then null
      else if not (alloc 0)
      then null
      else if not (alloc 1)
      then null
      else fill_tokens alloc delim string tokens
]
