-- ===== src/StringUtil/Quotes/Meaning.antt =====
-- What `remove_quotes` computes, with no buffer, and what follows for quoted strings.
use parallel_wrapper.Base.{
  ℕ, zero, suc, ◌+◌, ◌-◌, ◌≤◌, ◌<◌, ◌≡◌, ◌≢◌, refl, ap, ◌∙◌, Bool, true, false, [], ◌∷◌, ◌++◌,
  append-nil, append_assoc, arith, ltb, lt→ltb, Bool-cases, inl, inr, if◌then◌else◌, length, set,
  All, length-append, set-append, All-append,
}
use parallel_wrapper.Base.Text.{Bytes, c_str, IsText, c_str-append}
use parallel_wrapper.StringUtil.Shift.{next_gap, length-next_gap, set_gap, get_gap}
use parallel_wrapper.StringUtil.Quotes.{is_quote, quotes_loop, quotes_end, remove_quotes}

abbrev pub drop_last : Bytes → Bytes
drop_last [] = []
drop_last (c ∷ []) = []
drop_last (c ∷ d ∷ s) = c ∷ drop_last (d ∷ s)

-- `out` is the output so far. A quote is dropped and the byte behind it is copied, whatever it is;
-- once a quote has been dropped, the last byte of the output goes too.
unfoldable pub unquoted : Bool → Bytes → Bytes → Bytes
unquoted dropped out [] = if dropped then drop_last out else out
unquoted dropped out (c ∷ []) = if dropped then out else out ++ c ∷ []
unquoted dropped out (c ∷ d ∷ s) = elim (is_quote c) [
  | true ↦ unquoted true (out ++ d ∷ []) s
  | false ↦ unquoted dropped (out ++ c ∷ []) (d ∷ s)
]

-- One round, at a byte that is copied, and at a quote with a byte behind it.
round_copy :
    (f len i index : ℕ) (out gap : Bytes) (c : ℕ) (s : Bytes)
    → is_quote c ≡ false
    → i ≡ length out + length gap
    → index ≡ length out
    → i < len
    → quotes_loop (suc f) len (out ++ (gap ++ c ∷ s)) i index
      ≡ quotes_loop f len ((out ++ c ∷ []) ++ (next_gap gap c ++ s)) (i + 1) (index + 1)
unfolding quotes_loop
round_copy f len i index out gap c s q ei ex h =
    ground (arith, q, get_gap out gap c s i ei, set_gap out gap c s index ex)

round_quote :
    (f len i index : ℕ) (out gap : Bytes) (q d : ℕ) (s : Bytes)
    → is_quote q ≡ true
    → i ≡ length out + length gap
    → index ≡ length out
    → i + 1 < len
    → quotes_loop (suc f) len (out ++ (gap ++ q ∷ d ∷ s)) i index
      ≡ quotes_loop f len
          ((out ++ d ∷ []) ++ (next_gap (gap ++ q ∷ []) d ++ s))
          (i + 1 + 1)
          (index + 1)
unfolding quotes_loop
round_quote f len i index out gap q d s is_q ei ex h = ground (
  arith,
  is_q,
  get_gap out gap q (d ∷ s) i ei,
  append_assoc gap (q ∷ []) (d ∷ s),
  get_gap out (gap ++ q ∷ []) d s (i + 1) (omega (arith, ei, length-append gap (q ∷ []))),
  set_gap out (gap ++ q ∷ []) d s index ex,
)

-- A quote at the very end is passed over: nothing is written.
round_last :
    (f len i index : ℕ) (out gap : Bytes) (q : ℕ)
    → is_quote q ≡ true
    → i ≡ length out + length gap
    → index ≡ length out
    → i + 1 ≡ len
    → quotes_loop (suc f) len (out ++ (gap ++ q ∷ 0 ∷ [])) i index
      ≡ (out ++ (gap ++ q ∷ 0 ∷ []), index + 1)
round_last zero len i index out gap q is_q ei ex h =
    unfold quotes_loop in ground (arith, is_q, get_gap out gap q (0 ∷ []) i ei)
round_last (suc f) len i index out gap q is_q ei ex h =
    unfold quotes_loop in ground (arith, is_q, get_gap out gap q (0 ∷ []) i ei)

loop_over :
    (f len i index : ℕ) (buf : Bytes) → len ≤ i → quotes_loop f len buf i index ≡ (buf, index)
unfolding quotes_loop
loop_over zero len i index buf h = refl
loop_over (suc f) len i index buf h = ground arith

cut_last :
    (out : Bytes) (g : ℕ) (r : Bytes)
    → IsText out
    → c_str (set (out ++ g ∷ r) (length out - 1) 0) ≡ drop_last out
cut_last [] g r h = refl
cut_last (c ∷ []) g r h = refl
cut_last (c ∷ d ∷ out) g r h = ground (arith, cut_last (d ∷ out) g r h.1)

-- How the buffer ends when the input is used up, and after a quote at the very end.
end_nil :
    (out gap : Bytes) (len index : ℕ)
    → IsText out
    → index ≡ length out
    → len ≡ length out + length gap
    → quotes_end len (out ++ (gap ++ 0 ∷ []), index) ≡ unquoted (ltb 0 (length gap)) out []
unfolding quotes_end unquoted
end_nil out [] len index h ex el = ground (arith, c_str-append out [] h)
end_nil out (g ∷ gap) len index h ex el = ground (arith, cut_last out g (gap ++ 0 ∷ []) h)

end_quote :
    (out gap : Bytes) (q len index : ℕ)
    → IsText out
    → q ≢ 0
    → index ≡ length out
    → len ≡ length out + length gap + 1
    → quotes_end len (out ++ (gap ++ q ∷ 0 ∷ []), index + 1)
      ≡ unquoted (ltb 0 (length gap)) out (q ∷ [])
unfolding quotes_end unquoted
end_quote out [] q len index h hq ex el = ground (
  arith,
  append_assoc out (q ∷ []) (0 ∷ []),
  c_str-append (out ++ q ∷ []) [] (All-append (λ c. c ≢ 0) out (q ∷ []) h (hq, tt)),
)
end_quote out (g ∷ gap) q len index h hq ex el = ground (
  arith,
  set-append out g (gap ++ q ∷ 0 ∷ []) (index + 1 - 1) 0 (omega arith),
  c_str-append out (gap ++ q ∷ 0 ∷ []) h,
)

drop_last-concat : (out : Bytes) (c : ℕ) → drop_last (out ++ c ∷ []) ≡ out
drop_last-concat [] c = refl
drop_last-concat (d ∷ []) c = refl
drop_last-concat (d ∷ e ∷ out) c = ap (λ l. d ∷ l) (drop_last-concat (e ∷ out) c)

unquoted-copy :
    (dropped : Bool) (out : Bytes) (c : ℕ) (s : Bytes)
    → is_quote c ≡ false
    → unquoted dropped (out ++ c ∷ []) s ≡ unquoted dropped out (c ∷ s)
unfolding unquoted
unquoted-copy dropped out c [] q = ground (arith, drop_last-concat out c)
unquoted-copy dropped out c (d ∷ s) q = ground arith

pub unquoted-quote :
    (dropped : Bool) (out : Bytes) (q d : ℕ) (s : Bytes)
    → is_quote q ≡ true
    → unquoted true (out ++ d ∷ []) s ≡ unquoted dropped out (q ∷ d ∷ s)
unfolding unquoted
unquoted-quote dropped out q d s is_q = ground arith

-- The loop and its end, from any state in which `s` is still to be read.
abbrev Ends : Bytes → Type 0
Ends s =
    (fuel len i index : ℕ) (out gap : Bytes)
    → IsText out
    → IsText s
    → i ≡ length out + length gap
    → index ≡ length out
    → len ≡ i + length s
    → length s ≤ fuel
    → quotes_end len (quotes_loop fuel len (out ++ (gap ++ (s ++ 0 ∷ []))) i index)
      ≡ unquoted (ltb 0 (length gap)) out s

Ends-quote : (q d : ℕ) (s : Bytes) → is_quote q ≡ true → Ends s → Ends (q ∷ d ∷ s)
Ends-quote q d s is_q ih zero len i index out gap ho hs ei ex el hf = absurd (omega arith)
Ends-quote q d s is_q ih (suc fuel) len i index out gap ho hs ei ex el hf =
    let gap' : Bytes = next_gap (gap ++ q ∷ []) d in
    let long : length gap' ≡ suc (length gap) =
      omega (arith, length-next_gap (gap ++ q ∷ []) d, length-append gap (q ∷ [])) in
    rw (round_quote fuel len i index out gap q d (s ++ 0 ∷ []) is_q ei ex (omega arith)) (
      ih fuel len (i + 1 + 1) (index + 1) (out ++ d ∷ []) gap'
        (All-append (λ c. c ≢ 0) out (d ∷ []) ho (hs.1.0, tt)) hs.1.1
        (omega (arith, long, ei, length-append out (d ∷ [])))
        (omega (arith, ex, length-append out (d ∷ []))) (omega arith) (omega arith)
      ∙ ap (λ t. unquoted t (out ++ d ∷ []) s) (lt→ltb 0 (length gap') (omega arith))
      ∙ unquoted-quote (ltb 0 (length gap)) out q d s is_q)

Ends-copy : (c : ℕ) (s : Bytes) → is_quote c ≡ false → Ends s → Ends (c ∷ s)
Ends-copy c s q ih zero len i index out gap ho hs ei ex el hf = absurd (omega arith)
Ends-copy c s q ih (suc fuel) len i index out gap ho hs ei ex el hf =
    rw (round_copy fuel len i index out gap c (s ++ 0 ∷ []) q ei ex (omega arith)) (
      ih fuel len (i + 1) (index + 1) (out ++ c ∷ []) (next_gap gap c)
        (All-append (λ c. c ≢ 0) out (c ∷ []) ho (hs.0, tt)) hs.1
        (omega (arith, length-next_gap gap c, ei, length-append out (c ∷ [])))
        (omega (arith, ex, length-append out (c ∷ []))) (omega arith) (omega arith)
      ∙ ap (λ n. unquoted (ltb 0 n) (out ++ c ∷ []) s) (length-next_gap gap c)
      ∙ unquoted-copy (ltb 0 (length gap)) out c s q)

Ends-last : (q : ℕ) → is_quote q ≡ true → Ends (q ∷ [])
Ends-last q is_q zero len i index out gap ho hs ei ex el hf = absurd (omega arith)
Ends-last q is_q (suc fuel) len i index out gap ho hs ei ex el hf =
    rw (round_last fuel len i index out gap q is_q ei ex (omega arith))
      (end_quote out gap q len index ho hs.0 ex (omega arith))

Ends-nil : Ends []
Ends-nil fuel len i index out gap ho hs ei ex el hf =
    rw (loop_over fuel len i index (out ++ (gap ++ 0 ∷ [])) (omega arith))
      (end_nil out gap len index ho ex (omega arith))

ends : (s : Bytes) → Ends s
ends [] = Ends-nil
ends (c ∷ []) = elim (Bool-cases (is_quote c)) [
  | inl is_q ↦ Ends-last c is_q
  | inr q ↦ Ends-copy c [] q Ends-nil
]
ends (c ∷ d ∷ s) = elim (Bool-cases (is_quote c)) [
  | inl is_q ↦ Ends-quote c d s is_q (ends s)
  | inr q ↦ Ends-copy c (d ∷ s) q (ends (d ∷ s))
]

-- The loop over the buffer computes `unquoted`, for every string.
pub remove_quotes-unquoted : (s : Bytes) → IsText s → remove_quotes s ≡ unquoted false [] s
unfolding remove_quotes
remove_quotes-unquoted [] h = unfold unquoted in refl
remove_quotes-unquoted (c ∷ s) h =
    let n : ℕ = length (c ∷ s) in
    ends (c ∷ s) n n 0 0 [] [] tt h refl refl (omega arith) (omega arith)

-- A string without quotes.
abbrev pub IsUnquoted : Bytes → Type 0
IsUnquoted = All (λ c. is_quote c ≡ false)

pub unquoted-append :
    (dropped : Bool) (s out rest : Bytes)
    → IsUnquoted s
    → unquoted dropped out (s ++ rest) ≡ unquoted dropped (out ++ s) rest
unquoted-append dropped [] out rest h = rw append-nil
unquoted-append dropped (c ∷ s) out rest h = rw (
  ← unquoted-copy dropped out c (s ++ rest) h.0,
  unquoted-append dropped s (out ++ c ∷ []) rest h.1,
  append_assoc,
)
