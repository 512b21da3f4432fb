-- ===== src/StringUtil/Tokens/Filling.antt =====
-- The index arithmetic of `strsplit` against the pieces: every slot of the array is written, in
-- order, and nothing outside it is.
pub mod Slots
pub mod Loop
use parallel_wrapper.Base.{
  ℕ, ◌<◌, ◌≡◌, refl, ◌⊎◌, inl, inr, Option, none, some, Bool, true, false, List, [], map, arith,
  append-nil, Bool-cases, length, replicate,
}
use parallel_wrapper.Base.Int.{pos}
use parallel_wrapper.Base.Text.{Bytes}
use parallel_wrapper.StringUtil.Tokens.{null, Scan, split_loop, fill_tokens, count_tokens, strsplit}
use parallel_wrapper.StringUtil.Tokens.Pieces.{pieces, pieces_pos, count_tokens-pieces}
pub use parallel_wrapper.StringUtil.Tokens.Filling.Slots.{Yields}
use parallel_wrapper.StringUtil.Tokens.Filling.Slots.{finish}
use parallel_wrapper.StringUtil.Tokens.Filling.Loop.{finishes}

-- The definition's two loops are `finish` from the first state.
fill_tokens-finish :
    (alloc : ℕ → Bool) (delim string : Bytes) (tokens : ℕ) (v : List (Option Bytes))
    → let first : Scan = record {
      strings = replicate tokens none;
      current_token = 0;
      start_index = 0;
      last_was_delim = false;
    } in
      Yields alloc (finish alloc string (split_loop alloc delim string string 0 first)) v
      → Yields alloc
          (fill_tokens alloc delim string tokens)
          (record { dim = pos tokens; strings = v })
unfolding fill_tokens finish
fill_tokens-finish alloc delim string tokens v (inl h) = inl (ground arith)
fill_tokens-finish alloc delim string tokens v (inr (h, why)) = inr (ground arith, why)

filling :
    (alloc : ℕ → Bool) (delim string : Bytes)
    → let ps : List Bytes = pieces delim [] false string in
      Yields alloc
        (fill_tokens alloc delim string (length ps))
        (record { dim = pos (length ps); strings = map some ps })
filling alloc delim string =
    let ps : List Bytes = pieces delim [] false string in
    fill_tokens-finish alloc delim string (length ps) (map some ps) (
      rw append-nil at (
        finishes alloc delim string string false [] [] 0
          (record {
            strings = replicate (length ps) none;
            current_token = 0;
            start_index = 0;
            last_was_delim = false;
          })
          refl
          (record {
            stored = refl;
            current = refl;
            unread = refl;
            index = refl;
            total = omega arith;
          })))

module _ (alloc : ℕ → Bool) (delim string : Bytes) (n : ℕ) (pos_n : 0 < n)
    (counted : count_tokens (some delim) (some string) ≡ pos n) where
  strsplit-alloc :
      alloc 0 ≡ true
      → alloc 1 ≡ true
      → strsplit alloc (some delim) (some string) ≡ fill_tokens alloc delim string n
  unfolding strsplit
  strsplit-alloc a b = ground arith

  strsplit-null :
      (alloc 0 ≡ false) ⊎ (alloc 1 ≡ false)
      → (strsplit alloc (some delim) (some string) ≡ null) × ((k : ℕ) × (alloc k ≡ false))
  unfolding strsplit
  strsplit-null (inl a) = (ground arith, (0, a))
  strsplit-null (inr b) = (ground arith, (1, b))

-- `strsplit` of two strings that are not NULL returns an array with exactly the pieces of the
-- string, each of its slots filled, or it returns NULL and an allocation failed. So no write
-- leaves the array, and no NULL is left in it.
pub strsplit-pieces :
    (alloc : ℕ → Bool) (delim string : Bytes)
    → let ps : List Bytes = pieces delim [] false string in
      Yields alloc
        (strsplit alloc (some delim) (some string))
        (record { dim = pos (length ps); strings = map some ps })
strsplit-pieces alloc delim string =
    let n : ℕ = length (pieces delim [] false string) in
    let few : 0 < n = pieces_pos delim string [] in
    let counted : count_tokens (some delim) (some string) ≡ pos n =
      count_tokens-pieces delim string in
    elim (Bool-cases (alloc 0)) [
      | inr bad ↦ inr (strsplit-null alloc delim string n few counted (inl bad))
      | inl array ↦ elim (Bool-cases (alloc 1)) [
        | inr bad ↦ inr (strsplit-null alloc delim string n few counted (inr bad))
        | inl strings ↦
            rw (strsplit-alloc alloc delim string n few counted array strings)
              (filling alloc delim string)
      ]
    ]
