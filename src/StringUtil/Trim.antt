-- ===== src/StringUtil/Trim.antt =====
-- `trim` of src/string_util.c.
pub mod Meaning
pub mod Stripped
use parallel_wrapper.Base.{
  ℕ, zero, suc, ◌+◌, ◌-◌, Bool, ◌&&◌, ◌||◌, [], ◌∷◌, ◌++◌, ltb, leb, ◌==◌, if◌then◌else◌, length,
  set, get_or,
}
use parallel_wrapper.Base.Text.{Bytes, c_str}

-- Space, tab, newline and carriage return.
unfoldable pub is_blank : ℕ → Bool
is_blank c = c == 32 || (c == 9 || (c == 10 || c == 13))

-- `while (start_index < length)`; a round moves `start_index` on, so `length` rounds are enough.
unfoldable pub trim_start : ℕ → Bytes → ℕ → ℕ
unfolding is_blank
trim_start zero string start_index = start_index
trim_start (suc fuel) string start_index =
    let rest = trim_start fuel string (start_index + 1) in
    if ltb start_index (length string) && is_blank (get_or string start_index 0)
    then rest
    else start_index

-- `while (end_index > 1)`.
unfoldable pub trim_end : Bytes → ℕ → ℕ
unfolding is_blank
trim_end string zero = zero
trim_end string (suc zero) = 1
trim_end string (suc (suc n)) =
    let rest = trim_end string (suc n) in
    if is_blank (get_or string (suc n) 0) then rest else suc (suc n)

-- `for (i = start_index; i < end_index; i++) string[i - start_index] = string[i];`, with `n` rounds
-- left.
unfoldable pub copy_down : ℕ → ℕ → ℕ → Bytes → Bytes
copy_down zero i start_index buf = buf
copy_down (suc n) i start_index buf =
    copy_down n (i + 1) start_index (set buf (i - start_index) (get_or buf i 0))

-- The string before and after a call.
unfoldable pub trim : Bytes → Bytes
unfolding trim_start trim_end copy_down
trim [] = []
trim (c ∷ s) =
    let string = c ∷ s in
    let buf = string ++ 0 ∷ [] in
    let start_index = trim_start (length string) string 0 in
    let end_index = trim_end string (length string) in
    if leb end_index start_index
    then c_str (set buf 0 0)
    else c_str (
        set (copy_down (end_index - start_index) start_index start_index buf)
          (end_index - start_index) 0)
