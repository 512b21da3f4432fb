-- ===== src/StringUtil/Trim/Stripped.antt =====
-- `trim` strips: from the two loops' indices to the bytes that are moved down.
use parallel_wrapper.Base.{
  ℕ, suc, ◌+◌, ◌-◌, ◌≤◌, ◌<◌, ◌≡◌, ◌≢◌, refl, sym, ap, subst, ◌∙◌, false, [], ◌∷◌, ◌++◌, append-nil,
  append_assoc, arith, Bool-cases, inl, inr, length, set, length-append, set-append, All-split,
}
use Prim.Native.Nat.{max}
use parallel_wrapper.Base.Text.{Bytes, c_str, IsText, c_str-append}
use parallel_wrapper.StringUtil.Shift.{next_gap, length-next_gap, set_gap, get_gap}
use parallel_wrapper.StringUtil.Trim.{is_blank, trim_start, trim_end, copy_down, trim}
use parallel_wrapper.StringUtil.Trim.Meaning.{
  blanks, strip_front, strip_back, cons_stripped, blanks-strip_front, trim_start-blanks,
  trim_end-strip_back, take_all, strip_front_first,
}

-- The gap after the bytes `s` have been moved over it.
gap_after : Bytes → Bytes → Bytes
gap_after gap [] = gap
gap_after gap (c ∷ s) = gap_after (next_gap gap c) s

copy_down-suc :
    (n i start : ℕ) (out gap : Bytes) (c : ℕ) (r : Bytes)
    → i ≡ length out + length gap
    → start ≡ length gap
    → copy_down (suc n) i start (out ++ (gap ++ c ∷ r))
      ≡ copy_down n (i + 1) start ((out ++ c ∷ []) ++ (next_gap gap c ++ r))
unfolding copy_down
copy_down-suc n i start out gap c r ei es =
    ground (arith, get_gap out gap c r i ei, set_gap out gap c r (i - start) (omega arith))

copy_down-append :
    (s out gap rest : Bytes) (i start : ℕ)
    → i ≡ length out + length gap
    → start ≡ length gap
    → copy_down (length s) i start (out ++ (gap ++ (s ++ rest)))
      ≡ (out ++ s) ++ (gap_after gap s ++ rest)
unfolding copy_down gap_after
copy_down-append [] out gap rest i start ei es = rw append-nil
copy_down-append (c ∷ s) out gap rest i start ei es =
    rw (copy_down-suc (length s) i start out gap c (s ++ rest) ei es) (
      copy_down-append s (out ++ c ∷ []) (next_gap gap c) rest (i + 1) start
        (omega (arith, length-next_gap gap c, length-append out (c ∷ [])))
        (omega (arith, length-next_gap gap c))
      ∙ ap (λ l. l ++ (gap_after (next_gap gap c) s ++ rest)) (append_assoc out (c ∷ []) s))

-- The string that the buffer holds once the bytes `s` are moved and terminated.
c_str-copy_down :
    (s gap rest : Bytes) (x : ℕ)
    → IsText s
    → c_str (
        set
          (copy_down (length s) (length gap) (length gap) (gap ++ (s ++ (rest ++ x ∷ []))))
          (length s)
          0)
      ≡ s
c_str-copy_down s gap rest x h =
    rw (copy_down-append s [] gap (rest ++ x ∷ []) (length gap) (length gap) (omega arith) refl) (
      end (gap_after gap s ++ rest) (gap_after gap s ++ (rest ++ x ∷ []))
        (append_assoc (gap_after gap s) rest (x ∷ [])))
  where
    end : (r l : Bytes) → r ++ x ∷ [] ≡ l → c_str (set (s ++ l) (length s) 0) ≡ s
    end [] l e = rw (← e, set-append s x [] (length s) 0 refl) (c_str-append s [] h)
    end (y ∷ r) l e =
        rw (← e, set-append s y (r ++ x ∷ []) (length s) 0 refl) (c_str-append s (r ++ x ∷ []) h)

cons_prefix : (c : ℕ) (t w : Bytes) → (v : Bytes) × (c ∷ (t ++ w) ≡ cons_stripped c t ++ v)
unfolding cons_stripped
cons_prefix c [] w = elim (Bool-cases (is_blank c)) [
  | inl blank ↦ (c ∷ w, rw blank refl)
  | inr other ↦ (w, rw other refl)
]
cons_prefix c (d ∷ t) w = (w, refl)

strip_back_prefix : (s : Bytes) → (w : Bytes) × (s ≡ strip_back s ++ w)
unfolding strip_back
strip_back_prefix [] = ([], refl)
strip_back_prefix (c ∷ s) =
    let (w, e) = strip_back_prefix s in
    let (v, k) = cons_prefix c (strip_back s) w in (v, ap (λ l. c ∷ l) e ∙ k)

strip_back_blank : (s : Bytes) → strip_front s ≡ [] → strip_back s ≡ []
unfolding strip_back strip_front cons_stripped
strip_back_blank [] h = refl
strip_back_blank (c ∷ s) h = ground (arith, strip_back_blank s)

cons_stripped-cons : (c : ℕ) (l : Bytes) → l ≢ [] → cons_stripped c l ≡ c ∷ l
unfolding cons_stripped
cons_stripped-cons c [] h = absurd (h refl)
cons_stripped-cons c (d ∷ l) h = refl

append-ne-nil : (s t : Bytes) → t ≢ [] → s ++ t ≢ []
append-ne-nil [] t h = h
append-ne-nil (c ∷ s) t h = λ e. cc

strip_back-append :
    (pre s : Bytes) → strip_back s ≢ [] → strip_back (pre ++ s) ≡ pre ++ strip_back s
unfolding strip_back
strip_back-append [] s h = refl
strip_back-append (c ∷ pre) s h =
    rw (strip_back-append pre s h)
      (cons_stripped-cons c (pre ++ strip_back s) (append-ne-nil pre (strip_back s) h))

cons_stripped-ne-nil : (c : ℕ) (l : Bytes) → is_blank c ≡ false → cons_stripped c l ≢ []
unfolding cons_stripped
cons_stripped-ne-nil c [] h = ground arith
cons_stripped-ne-nil c (d ∷ l) h = λ e. cc

strip_back_first : (c : ℕ) (s : Bytes) → is_blank c ≡ false → strip_back (c ∷ s) ≢ []
unfolding strip_back
strip_back_first c s h = cons_stripped-ne-nil c (strip_back s) h

-- Bytes that lie between others are moved to the front and terminated.
moved :
    (string pre u w : Bytes) (start end_index : ℕ)
    → string ≡ pre ++ (u ++ w)
    → start ≡ length pre
    → end_index ≡ length pre + length u
    → IsText u
    → c_str
        (set (copy_down (end_index - start) start start (string ++ 0 ∷ [])) (end_index - start) 0)
      ≡ u
moved string pre u w start end_index e es ee h =
    let n : end_index - start ≡ length u = omega arith in
    rw (n, es, e, append_assoc pre (u ++ w) (0 ∷ []), append_assoc u w (0 ∷ []))
      (c_str-copy_down u pre w 0 h)

length_pos : (s : Bytes) → s ≢ [] → 0 < length s
length_pos [] h = absurd (h refl)
length_pos (c ∷ s) h = omega arith

module _ (c : ℕ) (s : Bytes) where
  abbrev start_of : ℕ
  start_of = trim_start (length (c ∷ s)) (c ∷ s) 0

  abbrev end_of : ℕ
  end_of = trim_end (c ∷ s) (length (c ∷ s))

  start_of_lem : start_of ≡ length (blanks (c ∷ s))
  start_of_lem =
      trim_start-blanks (length (c ∷ s)) [] (c ∷ s) (c ∷ s) 0 refl refl (omega arith) ∙ omega arith

  end_of_lem : end_of ≡ max 1 (length (strip_back (c ∷ s)))
  end_of_lem =
      trim_end-strip_back (c ∷ s) (length s) (omega arith)
      ∙ ap (λ l. max 1 (length (strip_back l))) (take_all (c ∷ s))

  trim_empty : end_of ≤ start_of → trim (c ∷ s) ≡ []
  unfolding trim
  trim_empty h = ground arith

  trim_moved :
      start_of < end_of
      → trim (c ∷ s)
        ≡ c_str (
            set
              (copy_down (end_of - start_of) start_of start_of ((c ∷ s) ++ 0 ∷ []))
              (end_of - start_of)
              0)
  unfolding trim
  trim_moved h = ground arith

  -- The cases: only blanks, or a first byte that is no blank.
  trim_by_front :
      (t : Bytes) → strip_front (c ∷ s) ≡ t → IsText (c ∷ s) → trim (c ∷ s) ≡ strip_back t
  trim_by_front [] e h =
      trim_empty (
        omega (
          arith,
          start_of_lem,
          end_of_lem,
          ap length (strip_back_blank (c ∷ s) e),
          ap length (blanks-strip_front (c ∷ s)),
          length-append (blanks (c ∷ s)) (strip_front (c ∷ s)),
          ap length e,
        ))
      ∙ unfold strip_back in refl
  trim_by_front (d ∷ t) e h =
      let pre : Bytes = blanks (c ∷ s) in
      let u : Bytes = strip_back (d ∷ t) in
      let (w, ew) = strip_back_prefix (d ∷ t) in
      let some_left : u ≢ [] = strip_back_first d t (strip_front_first (c ∷ s) e) in
      let whole : c ∷ s ≡ pre ++ (d ∷ t) =
        sym (blanks-strip_front (c ∷ s)) ∙ ap (λ l. pre ++ l) e in
      let parts : c ∷ s ≡ pre ++ (u ++ w) = whole ∙ ap (λ l. pre ++ l) ew in
      let back : strip_back (c ∷ s) ≡ pre ++ u =
        ap strip_back whole ∙ strip_back-append pre (d ∷ t) some_left in
      let last : end_of ≡ length pre + length u =
        omega (arith, end_of_lem, ap length back, length-append pre u, length_pos u some_left) in
      let text : IsText (pre ++ (u ++ w)) = subst IsText parts h in
      let text_u : IsText u =
        (All-split (λ b. b ≢ 0) u w (All-split (λ b. b ≢ 0) pre (u ++ w) text).1).0 in
      trim_moved (omega (arith, start_of_lem, last, length_pos u some_left))
      ∙ moved (c ∷ s) pre u w start_of end_of parts start_of_lem last text_u

-- `trim` drops the blanks at both ends, and nothing between them, whatever the string.
pub trim-strip : (s : Bytes) → IsText s → trim s ≡ strip_back (strip_front s)
trim-strip [] h = unfold trim strip_back strip_front in refl
trim-strip (c ∷ s) h = trim_by_front c s (strip_front (c ∷ s)) refl h
