-- ===== src/StringUtil/Paths.antt =====
-- `join_paths` of src/string_util.c, in the block that `malloc` returned.
pub mod Joined
use parallel_wrapper.Base.{
  ℕ, zero, suc, ◌+◌, Option, none, some, Bool, ◌||◌, [], ◌∷◌, ◌++◌, ◌==◌, if◌then◌else◌, length,
  set, get_or, drop,
}
use parallel_wrapper.Base.Text.{Bytes, c_str}
use parallel_wrapper.System.{fresh}

unfoldable pub is_slash : ℕ → Bool
is_slash c = c == b'/' || c == b'\\'

-- `strcpy`: the bytes and the terminator at the front of the block.
unfoldable pub str_copy : Bytes → Bytes → Bytes
str_copy s buf = s ++ 0 ∷ drop (length s + 1) buf

-- `while (str1_len > 1 && …)`: separators at the end are overwritten by NUL.
unfoldable pub cut_slashes : ℕ → Bytes → Bytes
unfolding is_slash
cut_slashes zero buf = buf
cut_slashes (suc zero) buf = buf
cut_slashes (suc (suc n)) buf =
    let rest = cut_slashes (suc n) (set buf (suc n) 0) in
    if is_slash (get_or buf (suc n) 0) then rest else buf

-- `strcat(output_path, "/")`.
unfoldable pub cat_slash : Bytes → Bytes
cat_slash buf = let n = length (c_str buf) in set (set buf n b'/') (n + 1) 0

-- `while (start_index < str2_len && …)`: the number of separators at the front.
unfoldable pub skip_slashes : Bytes → ℕ
unfolding is_slash
skip_slashes [] = 0
skip_slashes (c ∷ s) = let rest = skip_slashes s in if is_slash c then suc rest else 0

-- `for (i = start_index; i < str2_len; i++)`: the bytes `s` are stored from `at` on.
unfoldable pub store_bytes : Bytes → ℕ → Bytes → Bytes
store_bytes [] at buf = buf
store_bytes (c ∷ s) at buf = store_bytes s (at + 1) (set buf at c)

-- The block after `strcpy`, the loop and `strcat`.
unfoldable pub joined_front : (ℕ → ℕ) → Bytes → Bytes → Bytes
unfolding str_copy cut_slashes cat_slash fresh
joined_front garbage path_1 path_2 = cat_slash (
    cut_slashes (length path_1)
      (str_copy path_1 (fresh garbage 0 (length path_1 + length path_2 + 5))))

-- The terminator is written at `output_len + str2_len`, also where separators were skipped.
unfoldable pub joined : (ℕ → ℕ) → Bytes → Bytes → Bytes
unfolding joined_front store_bytes skip_slashes
joined garbage path_1 path_2 =
    let front = joined_front garbage path_1 path_2 in
    let output_len = length (c_str front) in
    let start_index = skip_slashes path_2 in
    c_str
      (set (store_bytes (drop start_index path_2) output_len front) (output_len + length path_2) 0)

-- `alloc_ok` is about `malloc` and `strdup`. Two NULL paths reach `strdup(NULL)`, which the program
-- never does: the model then returns NULL.
unfoldable pub join_paths : Bool → (ℕ → ℕ) → Option Bytes → Option Bytes → Option Bytes
unfolding joined
join_paths alloc_ok garbage none path_2 = if alloc_ok then path_2 else none
join_paths alloc_ok garbage (some path_1) none = if alloc_ok then some path_1 else none
join_paths alloc_ok garbage (some path_1) (some path_2) =
    if alloc_ok then some (joined garbage path_1 path_2) else none
