-- ===== src/StringUtil/Tokens/Filling/Slots.antt =====
-- The array of `strsplit` between two writes: what is stored, and what is still NULL.
use parallel_wrapper.Base.{
  ℕ, zero, suc, ◌+◌, ◌-◌, ◌<◌, ◌≡◌, refl, ◌⊎◌, inl, inr, Option, none, some, Bool, false, List, [],
  ◌∷◌, ◌++◌, map, arith, Bool-cases, length, drop, set, replicate, length-append, length-map,
  length-replicate, set-append, take-append, lt→ltb, ap,
}
use parallel_wrapper.Base.Text.{Bytes}
use parallel_wrapper.StringUtil.Tokens.{Split, ok, null, fault, Scan, store_token, split_last}

-- The value, or NULL after an allocation that failed.
abbrev pub Yields : {A : Type 0} → (ℕ → Bool) → Split A → A → Type 0
Yields alloc r v = (r ≡ ok v) ⊎ ((r ≡ null) × ((n : ℕ) × (alloc n ≡ false)))

-- The array after `done` has been stored, with `k` slots still NULL.
abbrev pub filled : List Bytes → ℕ → List (Option Bytes)
filled done k = map some done ++ replicate k none

pub filled-next :
    (done : List Bytes) (p : Bytes) (k : ℕ)
    → map some done ++ some p ∷ replicate k none ≡ filled (done ++ p ∷ []) k
filled-next [] p k = refl
filled-next (d ∷ done) p k = rw (filled-next done p k)

pub set-filled :
    (done : List Bytes) (p : Bytes) (k i : ℕ)
    → i ≡ length done
    → set (filled done (suc k)) i (some p) ≡ filled (done ++ p ∷ []) k
set-filled done p k i e =
    rw (set-append (map some done) none (replicate k none) i (some p) (rw length-map e))
      (filled-next done p k)

pub length-filled : (done : List Bytes) (k : ℕ) → length (filled done k) ≡ length done + k
length-filled done k = omega (
  arith,
  length-append (map some done) (replicate k none),
  length-map some done,
  length-replicate {A = Option Bytes} k none,
)

pub store_token-filled :
    (alloc : ℕ → Bool) (string cur s : Bytes) (done : List Bytes) (k e : ℕ) (st : Scan)
    → st.strings ≡ filled done (suc k)
    → st.current_token ≡ length done
    → drop st.start_index string ≡ cur ++ s
    → e ≡ st.start_index + length cur
    → Yields alloc (store_token alloc string e st) (filled (done ++ cur ∷ []) k)
unfolding store_token
store_token-filled alloc string cur s done k e st hs hc hd he =
    let inside : st.current_token < length st.strings =
      rw (hs, length-filled done (suc k)) (omega arith) in
    let n : e - st.start_index ≡ length cur = omega arith in
    elim (Bool-cases (alloc (2 + st.current_token))) [
      | inl good ↦ inl (
          rw (lt→ltb _ _ inside, good, hd, take-append cur s (e - st.start_index) n, hs)
            (ap ok (set-filled done cur k st.current_token hc)))
      | inr bad ↦ inr (rw (lt→ltb _ _ inside, bad) refl, (2 + st.current_token, bad))
    ]

-- The loop and what follows it, from any state.
unfoldable pub finish : (ℕ → Bool) → Bytes → Split Scan → Split (List (Option Bytes))
finish alloc string (ok st) = split_last alloc string st
finish alloc string null = null
finish alloc string fault = fault

-- The state before index `i`: `done` is stored, `cur` is the piece being read, `s` is unread.
pub record Reading (string cur s : Bytes) (done : List Bytes) (k i : ℕ) (st : Scan) : Type 0 where
  pub stored : st.strings ≡ filled done k
  pub current : st.current_token ≡ length done
  pub unread : drop st.start_index string ≡ cur ++ s
  pub index : i ≡ st.start_index + length cur
  pub total : i + length s ≡ length string

pub drop-later :
    (a n : ℕ) (string cur s : Bytes) (c : ℕ)
    → drop a string ≡ cur ++ c ∷ s
    → n ≡ a + length cur + 1
    → drop n string ≡ s
drop-later zero n string [] s c h e = let e' : n ≡ suc zero = omega arith in rw (h, e')
drop-later zero zero string (d ∷ cur) s c h e = absurd (omega arith)
drop-later zero (suc n) string (d ∷ cur) s c h e =
    rw h (drop-later zero n (cur ++ c ∷ s) cur s c refl (omega arith))
drop-later (suc a) n [] [] s c h e = cc
drop-later (suc a) n [] (d ∷ cur) s c h e = cc
drop-later (suc a) zero (x ∷ string) cur s c h e = absurd (omega arith)
drop-later (suc a) (suc n) (x ∷ string) cur s c h e = drop-later a n string cur s c h (omega arith)
