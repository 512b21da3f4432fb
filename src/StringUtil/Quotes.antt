-- ===== src/StringUtil/Quotes.antt =====
-- `remove_quotes` of src/string_util.c: the loop moves bytes down inside the caller's buffer.
pub mod Meaning
pub mod Cases
use parallel_wrapper.Base.{
  ℕ, zero, suc, ◌+◌, ◌-◌, Bool, ◌&&◌, ◌||◌, [], ◌∷◌, ◌++◌, ltb, ◌==◌, if◌then◌else◌, length, set,
  get_or,
}
use parallel_wrapper.Base.Text.{Bytes, c_str}

unfoldable pub is_quote : ℕ → Bool
is_quote c = c == b'"' || c == b'\''

-- `while (i < length && index < length)`, on the buffer, `i` and `index`. A round moves `i` on, so
-- `length` rounds are enough.
unfoldable pub quotes_loop : ℕ → ℕ → Bytes → ℕ → ℕ → Bytes × ℕ
unfolding is_quote
quotes_loop zero len buf i index = (buf, index)
quotes_loop (suc fuel) len buf i index =
    let i' = if is_quote (get_or buf i 0) then i + 1 else i in
    let buf' = if ltb i' len then set buf index (get_or buf i' 0) else buf in
    let rest = quotes_loop fuel len buf' (i' + 1) (index + 1) in
    if ltb i len && ltb index len then rest else (buf, index)

-- The `if` behind the loop, and the string that the buffer then holds.
unfoldable pub quotes_end : ℕ → Bytes × ℕ → Bytes
quotes_end len (buf, index) = c_str (if ltb index len then set buf (index - 1) 0 else buf)

-- The string before and after a call. (A NULL string is left alone: the callers see to that.)
unfoldable pub remove_quotes : Bytes → Bytes
unfolding quotes_loop quotes_end
remove_quotes [] = []
remove_quotes (c ∷ s) =
    let len = length (c ∷ s) in quotes_end len (quotes_loop len len ((c ∷ s) ++ 0 ∷ []) 0 0)
