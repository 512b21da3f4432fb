-- ===== src/StringUtil/Shift.antt =====
-- Moving bytes down inside one buffer, as `remove_quotes` and `trim` do: the buffer is the output so
-- far, a gap of bytes already read, and what is still to be read.
use parallel_wrapper.Base.{
  ℕ, ◌+◌, ◌≡◌, refl, sym, ap, ◌∙◌, [], ◌∷◌, ◌++◌, append_assoc, arith, length, set, get_or,
  length-append, set-append, get_or-append,
}
use parallel_wrapper.Base.Text.{Bytes}

-- The gap after one byte `c` has been moved over it.
abbrev pub next_gap : Bytes → ℕ → Bytes
next_gap [] c = []
next_gap (g ∷ gap) c = gap ++ c ∷ []

pub length-next_gap : (gap : Bytes) (c : ℕ) → length (next_gap gap c) ≡ length gap
length-next_gap [] c = refl
length-next_gap (g ∷ gap) c = omega (arith, length-append gap (c ∷ []))

-- One write at the end of the output.
pub set_gap :
    (out gap : Bytes) (c : ℕ) (s : Bytes) (i : ℕ)
    → i ≡ length out
    → set (out ++ (gap ++ c ∷ s)) i c ≡ (out ++ c ∷ []) ++ (next_gap gap c ++ s)
set_gap out [] c s i e = set-append out c s i c e ∙ sym (append_assoc out (c ∷ []) s)
set_gap out (g ∷ gap) c s i e =
    set-append out g (gap ++ c ∷ s) i c e
    ∙ ap (λ l. out ++ c ∷ l) (sym (append_assoc gap (c ∷ []) s))
    ∙ sym (append_assoc out (c ∷ []) ((gap ++ c ∷ []) ++ s))

-- The byte behind the gap.
pub get_gap :
    (out gap : Bytes) (c : ℕ) (s : Bytes) (i : ℕ)
    → i ≡ length out + length gap
    → get_or (out ++ (gap ++ c ∷ s)) i 0 ≡ c
get_gap out gap c s i e =
    rw (← append_assoc out gap (c ∷ s))
      (get_or-append (out ++ gap) c s i 0 (omega (arith, length-append out gap)))
