-- ===== src/StringUtil/Paths/Joined.antt =====
-- What `join_paths` joins, when the second path has no separator at its front.
use parallel_wrapper.Base.{
  ℕ, zero, suc, ◌+◌, ◌<◌, ◌≤◌, append-nil, ◌≡◌, ◌≢◌, refl, sym, ap, ◌∙◌, subst, some, Bool, true,
  false, [], ◌∷◌, ◌++◌, if◌then◌else◌, length, drop, append_assoc, length-append, set-append,
  get_or-append, arith, All-append,
}
use parallel_wrapper.Base.Text.{Bytes, IsText, c_str-append}
use parallel_wrapper.StringUtil.Paths.{
  is_slash, str_copy, cut_slashes, cat_slash, skip_slashes, store_bytes, joined_front, joined,
  join_paths,
}
use parallel_wrapper.System.{fresh}

-- The bytes without the separators at the end.
unfoldable pub no_slash_end : Bytes → Bytes
no_slash_end [] = []
no_slash_end (c ∷ s) = keep c (no_slash_end s)
  where
    keep : ℕ → Bytes → Bytes
    keep c [] = if is_slash c then [] else c ∷ []
    keep c (d ∷ t) = c ∷ d ∷ t

-- A directory without the separators at its end; its first byte stays.
abbrev pub directory : Bytes → Bytes
directory [] = []
directory (c ∷ s) = c ∷ no_slash_end s

no_slash_end-slash :
    (s : Bytes) (c : ℕ) → is_slash c ≡ true → no_slash_end (s ++ c ∷ []) ≡ no_slash_end s
unfolding no_slash_end
no_slash_end-slash [] c e = rw e refl
no_slash_end-slash (d ∷ s) c e = rw (no_slash_end-slash s c e) refl

no_slash_end-other :
    (s : Bytes) (c : ℕ) → is_slash c ≡ false → no_slash_end (s ++ c ∷ []) ≡ s ++ c ∷ []
unfolding no_slash_end
no_slash_end-other [] c e = rw e refl
no_slash_end-other (d ∷ []) c e = rw (no_slash_end-other [] c e) refl
no_slash_end-other (d ∷ d' ∷ s) c e = rw (no_slash_end-other (d' ∷ s) c e) refl

-- The last byte of a string that is not empty.
last_of : (s : Bytes) → 0 < length s → (t : Bytes) × (c : ℕ) × (s ≡ t ++ c ∷ [])
last_of [] h = absurd (omega arith)
last_of (c ∷ []) h = ([], c, refl)
last_of (c ∷ d ∷ s) h =
    let (t, e, same) = last_of (d ∷ s) (omega arith) in (c ∷ t, e, ap (λ l. c ∷ l) same)

directory-slash :
    (t : Bytes) (c : ℕ) → 0 < length t → is_slash c ≡ true → directory (t ++ c ∷ []) ≡ directory t
directory-slash [] c h e = absurd (omega arith)
directory-slash (d ∷ t) c h e = ap (λ l. d ∷ l) (no_slash_end-slash t c e)

directory-other : (t : Bytes) (c : ℕ) → is_slash c ≡ false → directory (t ++ c ∷ []) ≡ t ++ c ∷ []
unfolding no_slash_end
directory-other [] c e = refl
directory-other (d ∷ t) c e = ap (λ l. d ∷ l) (no_slash_end-other t c e)

-- The buffer holds `s`, its terminator, and at least `n` bytes behind it.
record Holds (s : Bytes) (n : ℕ) (buf : Bytes) : Type 0 where
  behind : Bytes
  enough : n ≤ length behind
  is_buffer : buf ≡ s ++ 0 ∷ behind

-- A round of the loop: the byte behind `t` is a separator or not.
cut_byte-Holds :
    (n : ℕ) (t : Bytes) (c : ℕ) (rest : Bytes)
    → length t ≡ suc n
    → Holds (directory t) (length (0 ∷ rest)) (cut_slashes (suc n) (t ++ 0 ∷ 0 ∷ rest))
    → (b : Bool) → is_slash c ≡ b
    → Holds
        (directory (t ++ c ∷ []))
        (length rest)
        (if b then cut_slashes (suc n) (t ++ 0 ∷ 0 ∷ rest) else t ++ c ∷ 0 ∷ rest)
cut_byte-Holds n t c rest h shorter true e = record {
  behind = shorter.behind;
  enough = let k = shorter.enough in omega arith;
  is_buffer =
      shorter.is_buffer
      ∙ ap (λ l. l ++ 0 ∷ shorter.behind) (sym (directory-slash t c (omega arith) e));
}
cut_byte-Holds n t c rest h shorter false e = record {
  behind = rest;
  enough = omega arith;
  is_buffer =
      sym (append_assoc t (c ∷ []) (0 ∷ rest))
      ∙ ap (λ l. l ++ 0 ∷ rest) (sym (directory-other t c e));
}

cut_slashes-Holds :
    (n : ℕ) (s rest : Bytes)
    → length s ≡ n
    → Holds (directory s) (length rest) (cut_slashes n (s ++ 0 ∷ rest))
unfolding cut_slashes no_slash_end
cut_slashes-Holds zero [] rest h = record { behind = rest; enough = omega arith; is_buffer = refl }
cut_slashes-Holds zero (c ∷ s) rest h = absurd (omega arith)
cut_slashes-Holds (suc zero) [] rest h = absurd (omega arith)
cut_slashes-Holds (suc zero) (c ∷ []) rest h = record {
  behind = rest;
  enough = omega arith;
  is_buffer = refl;
}
cut_slashes-Holds (suc zero) (c ∷ d ∷ s) rest h = absurd (omega arith)
cut_slashes-Holds (suc (suc n)) s rest h =
    let (t, c, same) = last_of s (omega arith) in
    let long : length t ≡ suc n =
      let e = ap length same in let l = length-append t (c ∷ []) in omega arith in
    let step =
      cut_byte-Holds n t c rest long (cut_slashes-Holds (suc n) t (0 ∷ rest) long) (is_slash c)
        refl in
    subst (λ s. Holds (directory s) (length rest) (cut_slashes (suc (suc n)) (s ++ 0 ∷ rest)))
      (sym same)
      (rw
        (
          append_assoc t (c ∷ []) (0 ∷ rest),
          get_or-append t c (0 ∷ rest) (suc n) 0 (sym long),
          set-append t c (0 ∷ rest) (suc n) 0 (sym long),
        )
        step)

no_slash_end-IsText : (s : Bytes) → IsText s → IsText (no_slash_end s)
unfolding no_slash_end
no_slash_end-IsText [] h = tt
no_slash_end-IsText (c ∷ s) h = go (no_slash_end s) (is_slash c) (no_slash_end-IsText s h.1)
  where
    go :
        (r : Bytes) (b : Bool)
        → IsText r
        → IsText (elim r as (λ _. Bytes) [ [] ↦ (if b then [] else c ∷ []) | ◌∷◌ d t ↦ c ∷ d ∷ t ])
    go [] true k = tt
    go [] false k = (h.0, tt)
    go (d ∷ t) b k = (h.0, k)

directory-IsText : (s : Bytes) → IsText s → IsText (directory s)
directory-IsText [] h = tt
directory-IsText (c ∷ s) h = (h.0, no_slash_end-IsText s h.1)

cat_slash-append :
    (s : Bytes) (x : ℕ) (more : Bytes)
    → IsText s
    → cat_slash (s ++ 0 ∷ x ∷ more) ≡ (s ++ b'/' ∷ []) ++ 0 ∷ more
unfolding cat_slash
cat_slash-append s x more h =
    let l = length-append s (b'/' ∷ []) in
    rw
      (
        c_str-append s (x ∷ more) h,
        set-append s 0 (x ∷ more) (length s) b'/' refl,
        sym (append_assoc s (b'/' ∷ []) (x ∷ more)),
        set-append (s ++ b'/' ∷ []) x more (length s + 1) 0 (omega arith),
      )
      refl

store_bytes-append :
    (s : Bytes) (at : ℕ) (front ys : Bytes)
    → at ≡ length front
    → length s ≤ length ys
    → store_bytes s at (front ++ ys) ≡ (front ++ s) ++ drop (length s) ys
unfolding store_bytes
store_bytes-append [] at front ys e h = ap (λ l. l ++ ys) (sym (append-nil front))
store_bytes-append (c ∷ s) at front [] e h = absurd (omega arith)
store_bytes-append (c ∷ s) at front (y ∷ ys) e h =
    let l = length-append front (c ∷ []) in
    ap (store_bytes s (at + 1))
      (set-append front y ys at c e ∙ sym (append_assoc front (c ∷ []) ys))
    ∙ store_bytes-append s (at + 1) (front ++ c ∷ []) ys (omega arith) (omega arith)
    ∙ ap (λ l. l ++ drop (length s) ys) (append_assoc front (c ∷ []) s)

drop-cons : (n : ℕ) (l : Bytes) → n < length l → (y : ℕ) × (ys : Bytes) × (drop n l ≡ y ∷ ys)
drop-cons n [] h = absurd (omega arith)
drop-cons zero (x ∷ l) h = (x, l, refl)
drop-cons (suc n) (x ∷ l) h = drop-cons n l (omega arith)

length-fresh : (garbage : ℕ → ℕ) (i n : ℕ) → length (fresh garbage i n) ≡ n
unfolding fresh
length-fresh garbage i zero = refl
length-fresh garbage i (suc n) = ap suc (length-fresh garbage (i + 1) n)

long-drop : (n : ℕ) (l : Bytes) → length l ≤ n + length (drop n l)
long-drop zero l = omega arith
long-drop (suc n) [] = omega arith
long-drop (suc n) (x ∷ l) = omega (arith, long-drop n l)

-- The block before the second path is stored: the directory, a separator, and room for that path.
joined_front-Holds :
    (garbage : ℕ → ℕ) (path_1 path_2 : Bytes)
    → IsText path_1
    → Holds (directory path_1 ++ b'/' ∷ []) (length path_2) (joined_front garbage path_1 path_2)
unfolding joined_front str_copy
joined_front-Holds garbage path_1 path_2 h =
    let block = fresh garbage 0 (length path_1 + length path_2 + 5) in
    let size = length-fresh garbage 0 (length path_1 + length path_2 + 5) in
    let room = long-drop (length path_1 + 1) block in
    let cut = cut_slashes-Holds (length path_1) path_1 (drop (length path_1 + 1) block) refl in
    go cut.behind (let e = cut.enough in omega arith) cut.is_buffer
  where
    go :
        {buf : Bytes} (behind : Bytes)
        → length path_2 < length behind
        → buf ≡ directory path_1 ++ 0 ∷ behind
        → Holds (directory path_1 ++ b'/' ∷ []) (length path_2) (cat_slash buf)
    go [] k e = absurd (omega arith)
    go (x ∷ more) k e = record {
      behind = more;
      enough = omega arith;
      is_buffer =
          ap cat_slash e ∙ cat_slash-append (directory path_1) x more (directory-IsText path_1 h);
    }

-- Paths that hold no NUL, the second of which starts with no separator: if memory is found, the result
-- is the first one without the separators at its end (its first byte stays, whatever it is), a
-- separator, and the second one.
pub join_paths_lem :
    (garbage : ℕ → ℕ) (path_1 path_2 : Bytes)
    → IsText path_1
    → IsText path_2
    → skip_slashes path_2 ≡ 0
    → join_paths true garbage (some path_1) (some path_2) ≡ some (directory path_1 ++ b'/' ∷ path_2)
unfolding join_paths joined
join_paths_lem garbage path_1 path_2 h1 h2 plain =
    let front = joined_front-Holds garbage path_1 path_2 h1 in
    let base = directory path_1 ++ b'/' ∷ [] in
    let text : IsText base =
      All-append (λ c. c ≢ 0) (directory path_1) (b'/' ∷ []) (directory-IsText path_1 h1)
        ((λ e. omega arith), tt) in
    let (y, ys, more) =
      drop-cons (length path_2) (0 ∷ front.behind) (let e = front.enough in omega arith) in
    let l = length-append base path_2 in
    ap some (
      rw
        (
          front.is_buffer,
          plain,
          c_str-append base front.behind text,
          store_bytes-append path_2 (length base) base (0 ∷ front.behind) refl
              (let e = front.enough in omega arith),
          more,
          set-append (base ++ path_2) y ys (length base + length path_2) 0 (omega arith),
          c_str-append (base ++ path_2) ys (All-append (λ c. c ≢ 0) base path_2 text h2),
          append_assoc (directory path_1) (b'/' ∷ []) path_2,
        )
        refl)
