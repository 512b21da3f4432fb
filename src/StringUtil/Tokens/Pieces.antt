-- ===== src/StringUtil/Tokens/Pieces.antt =====
-- What a split means, with no index and no array: a run of delimiters ends a piece, and a run at
-- the very end starts none. `count_tokens` counts these pieces.
use parallel_wrapper.Base.{
  ℕ, suc, ◌+◌, ◌<◌, ◌≡◌, ◌≢◌, refl, some, Bool, true, false, List, [], ◌∷◌, ◌++◌, append-nil,
  append_assoc, All, arith, if◌then◌else◌, length,
}
use parallel_wrapper.Base.Int.{pos}
use parallel_wrapper.Base.Text.{Bytes}
use parallel_wrapper.StringUtil.Tokens.{found_delim, count_loop, count_tokens}

-- `cur` is the piece being read, and `last` says that the byte before was a delimiter.
unfoldable pub pieces : Bytes → Bytes → Bool → Bytes → List Bytes
pieces delim cur last [] = if last then [] else cur ∷ []
pieces delim cur last (c ∷ s) = elim (found_delim delim c) [
  | true ↦ elim last [ true ↦ pieces delim [] true s | false ↦ cur ∷ pieces delim [] true s ]
  | false ↦ pieces delim (cur ++ c ∷ []) false s
]

abbrev counted : ℕ × Bool → ℕ
counted (tokens, last) = if last then tokens else suc tokens

count_loop-pieces :
    (delim s cur : Bytes) (n : ℕ) (last : Bool)
    → counted (count_loop delim s n last) ≡ n + length (pieces delim cur last s)
unfolding count_loop pieces
count_loop-pieces delim [] cur n true = omega arith
count_loop-pieces delim [] cur n false = omega arith
count_loop-pieces delim (c ∷ s) cur n true =
    ground (
      arith,
      count_loop-pieces delim s [] n true,
      count_loop-pieces delim s (cur ++ c ∷ []) n false,
    )
count_loop-pieces delim (c ∷ s) cur n false = ground (
  arith,
  count_loop-pieces delim s [] (n + 1) true,
  count_loop-pieces delim s (cur ++ c ∷ []) n false,
)

-- The number that `count_tokens` returns is the number of pieces.
pub count_tokens-pieces :
    (delim string : Bytes)
    → count_tokens (some delim) (some string) ≡ pos (length (pieces delim [] false string))
unfolding count_tokens
count_tokens-pieces delim string = ground (arith, count_loop-pieces delim string [] 1 false)

-- There is always a piece, though it may be empty.
pub pieces_pos : (delim s cur : Bytes) → 0 < length (pieces delim cur false s)
unfolding pieces
pieces_pos delim [] cur = omega arith
pieces_pos delim (c ∷ s) cur = ground (arith, pieces_pos delim s (cur ++ c ∷ []))

-- The parts with a separator between them: what `snprintf` writes for "%d:%s:…".
abbrev pub join : ℕ → List Bytes → Bytes
join sep [] = []
join sep (p ∷ []) = p
join sep (p ∷ q ∷ ps) = p ++ sep ∷ join sep (q ∷ ps)

-- A part that a message can carry: not empty, and without a delimiter.
abbrev pub IsPart : Bytes → Bytes → Type 0
IsPart delim p = (p ≢ []) × All (λ c. found_delim delim c ≡ false) p

pieces-append :
    (delim p s cur : Bytes) (last : Bool)
    → All (λ c. found_delim delim c ≡ false) p
    → p ≢ []
    → pieces delim cur last (p ++ s) ≡ pieces delim (cur ++ p) false s
unfolding pieces
pieces-append delim [] s cur last h e = absurd (e refl)
pieces-append delim (c ∷ []) s cur last h e = ground arith
pieces-append delim (c ∷ d ∷ p) s cur last h e = ground (
  arith,
  pieces-append delim (d ∷ p) s (cur ++ c ∷ []) false h.1,
  append_assoc cur (c ∷ []) (d ∷ p),
)

pieces_at_sep :
    (delim s cur : Bytes) (sep : ℕ)
    → found_delim delim sep ≡ true
    → pieces delim cur false (sep ∷ s) ≡ cur ∷ pieces delim [] true s
unfolding pieces
pieces_at_sep delim s cur sep h = ground arith

-- Splitting joined parts gives the parts back.
pub pieces-join :
    (delim : Bytes) (sep : ℕ) (p : Bytes) (ps : List Bytes) (last : Bool)
    → found_delim delim sep ≡ true
    → All (IsPart delim) (p ∷ ps)
    → pieces delim [] last (join sep (p ∷ ps)) ≡ p ∷ ps
pieces-join delim sep p [] last hs h =
    rw (← append-nil p)
      (rw (pieces-append delim p [] [] last h.0.1 h.0.0) (rw append-nil (unfold pieces in refl)))
pieces-join delim sep p (q ∷ ps) last hs h = rw (
  pieces-append delim p (sep ∷ join sep (q ∷ ps)) [] last h.0.1 h.0.0,
  pieces_at_sep delim (join sep (q ∷ ps)) p sep hs,
  pieces-join delim sep q ps true hs h.1,
)
