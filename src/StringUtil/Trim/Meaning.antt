-- ===== src/StringUtil/Trim/Meaning.antt =====
-- What `trim` computes: the string without its blanks at the front and at the back.
use parallel_wrapper.Base.{
  ℕ, zero, suc, ◌+◌, ◌≤◌, ◌<◌, ◌≡◌, refl, ap, false, [], ◌∷◌, ◌++◌, append-nil, append_assoc, arith,
  Bool-cases, inl, inr, if◌then◌else◌, length, get_or, take, length-append, get_or-append,
}
use Prim.Native.Nat.{max}
use parallel_wrapper.Base.Text.{Bytes}
use parallel_wrapper.StringUtil.Trim.{is_blank, trim_start, trim_end}

-- The blanks at the front, and what follows them.
pub blanks : Bytes → Bytes
blanks [] = []
blanks (c ∷ s) = if is_blank c then c ∷ blanks s else []

unfoldable pub strip_front : Bytes → Bytes
strip_front [] = []
strip_front (c ∷ s) = if is_blank c then strip_front s else c ∷ s

-- A byte in front of a stripped rest: a blank is dropped if nothing is left behind it.
unfoldable pub cons_stripped : ℕ → Bytes → Bytes
cons_stripped c [] = if is_blank c then [] else c ∷ []
cons_stripped c (d ∷ s) = c ∷ d ∷ s

unfoldable pub strip_back : Bytes → Bytes
strip_back [] = []
strip_back (c ∷ s) = cons_stripped c (strip_back s)

pub blanks-strip_front : (s : Bytes) → blanks s ++ strip_front s ≡ s
unfolding blanks strip_front
blanks-strip_front [] = refl
blanks-strip_front (c ∷ s) = ground (arith, blanks-strip_front s)

pub trim_start-blanks :
    (fuel : ℕ) (pre s string : Bytes) (i : ℕ)
    → string ≡ pre ++ s
    → i ≡ length pre
    → length s ≤ fuel
    → trim_start fuel string i ≡ i + length (blanks s)
unfolding trim_start blanks
trim_start-blanks zero pre [] string i e ei h = omega arith
trim_start-blanks zero pre (c ∷ s) string i e ei h = absurd (omega arith)
trim_start-blanks (suc fuel) pre [] string i e ei h = ground (arith, append-nil pre)
trim_start-blanks (suc fuel) pre (c ∷ s) string i e ei h =
    let at : get_or string i 0 ≡ c = rw e (get_or-append pre c s i 0 ei) in
    let inside : i < length string = rw e (omega (arith, length-append pre (c ∷ s))) in
    ground (
      arith,
      at,
      inside,
      trim_start-blanks fuel (pre ++ c ∷ []) s string (i + 1),
      append_assoc pre (c ∷ []) s,
      length-append pre (c ∷ []),
    )

cons_stripped-concat :
    (d : ℕ) (s : Bytes) (c : ℕ) → cons_stripped d (s ++ c ∷ []) ≡ d ∷ (s ++ c ∷ [])
unfolding cons_stripped
cons_stripped-concat d [] c = refl
cons_stripped-concat d (e ∷ s) c = refl

strip_back-concat :
    (s : Bytes) (c : ℕ)
    → strip_back (s ++ c ∷ []) ≡ (if is_blank c then strip_back s else s ++ c ∷ [])
unfolding strip_back cons_stripped
strip_back-concat [] c = refl
strip_back-concat (d ∷ s) c = ground (arith, strip_back-concat s c, cons_stripped-concat d s c)

take-suc : (s : Bytes) (n : ℕ) → n < length s → take (suc n) s ≡ take n s ++ get_or s n 0 ∷ []
take-suc [] n h = absurd (omega arith)
take-suc (c ∷ s) zero h = refl
take-suc (c ∷ s) (suc n) h = ap (λ l. c ∷ l) (take-suc s n (omega arith))

length-take : (n : ℕ) (s : Bytes) → n ≤ length s → length (take n s) ≡ n
length-take zero s h = refl
length-take (suc n) [] h = absurd (omega arith)
length-take (suc n) (c ∷ s) h = ap suc (length-take n s (omega arith))

length-strip_back-le : (s : Bytes) → length (strip_back s) ≤ length s
unfolding strip_back cons_stripped
length-strip_back-le [] = omega arith
length-strip_back-le (c ∷ s) = ground (arith, length-strip_back-le s)

-- The loop from the end stops at 1, also at a string of blanks.
pub trim_end-strip_back :
    (s : Bytes) (n : ℕ)
    → suc n ≤ length s
    → trim_end s (suc n) ≡ max 1 (length (strip_back (take (suc n) s)))
unfolding trim_end
trim_end-strip_back s zero h = omega (arith, length-strip_back-le (take 1 s), length-take 1 s h)
trim_end-strip_back s (suc n) h =
    let c : ℕ = get_or s (suc n) 0 in
    elim (Bool-cases (is_blank c)) [
      | inl blank ↦
          rw (take-suc s (suc n) (omega arith), strip_back-concat (take (suc n) s) c, blank)
            (trim_end-strip_back s n (omega arith))
      | inr other ↦
          rw (take-suc s (suc n) (omega arith), strip_back-concat (take (suc n) s) c, other)
            (omega
              (arith, length-append (take (suc n) s) (c ∷ []), length-take (suc n) s (omega arith)))
    ]

pub take_all : (s : Bytes) → take (length s) s ≡ s
take_all [] = refl
take_all (c ∷ s) = ap (λ l. c ∷ l) (take_all s)

-- What stands behind a byte that is no blank.
pub strip_front_first : (s : Bytes) {c : ℕ} {t : Bytes} → strip_front s ≡ c ∷ t → is_blank c ≡ false
unfolding strip_front
strip_front_first [] h = cc
strip_front_first (d ∷ s) {c} {t} h = elim (Bool-cases (is_blank d)) [
  | inl blank ↦ strip_front_first s {c = c} {t = t} (ground arith)
  | inr other ↦ ground arith
]
