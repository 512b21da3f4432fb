-- ===== src/Timer/Chain.antt =====
-- The list of timers of src/timer.c: a chain of pointers that stands for a list of timers.
use parallel_wrapper.Base.{
  ℕ, zero, suc, ◌+◌, ◌-◌, ◌<◌, ◌≡◌, ◌≢◌, refl, sym, ap, subst, ◌∙◌, ◌⊎◌, inl, inr, Option, none,
  some, true, false, List, [], ◌∷◌, ◌==◌, Bool-cases, length, get_elem?, set, get_elem?-set_self,
  get_elem?-set_ne, get_elem?-lt, arith,
}
use parallel_wrapper.Timer.{
  Timer, Store, Outcome, done, in_cell, timer_at, linked, add_timer, remove_loop, remove_timer,
}
use parallel_wrapper.Wrapper.{Ptr}

-- The timers that hang behind `head`, each with its address.
abbrev pub IsChain : List (Option Timer) → Option Ptr → List (Ptr × Timer) → Type 0
IsChain heap none [] = Unit {0}
IsChain heap none (x ∷ xs) = ⊥
IsChain heap (some p) [] = ⊥
IsChain heap (some p) ((q, t) ∷ xs) = (p ≡ q) × (timer_at heap p ≡ some t) × IsChain heap t.next xs

-- No timer of the list stands at `p`.
abbrev pub IsNew : Ptr → List (Ptr × Timer) → Type 0
IsNew p [] = Unit {0}
IsNew p ((q, t) ∷ xs) = (p ≢ q) × IsNew p xs

-- The list that a store represents.
pub record Represents (s : Store) (xs : List (Ptr × Timer)) : Type 0 where
  pub chain : IsChain s.heap s.head xs
  pub count : s.num_timers ≡ length xs

timer_at-lt :
    (heap : List (Option Timer)) (p : Ptr) {t : Timer} → timer_at heap p ≡ some t → p < length heap
timer_at-lt heap p {t = t} h = in_heap (get_elem? heap p) refl h
  where
    in_heap :
        (o : Option (Option Timer)) → get_elem? heap p ≡ o → in_cell o ≡ some t → p < length heap
    in_heap none e h = cc
    in_heap (some cell) e h = get_elem?-lt heap p e

-- A store at another address does not touch the chain.
IsChain-set :
    (heap : List (Option Timer)) (x : Ptr) (cell : Option Timer) (head : Option Ptr)
    (xs : List (Ptr × Timer))
    → IsNew x xs
    → IsChain heap head xs
    → IsChain (set heap x cell) head xs
IsChain-set heap x cell none [] new h = tt
IsChain-set heap x cell none (y ∷ xs) new h = h
IsChain-set heap x cell (some p) [] new h = h
IsChain-set heap x cell (some p) ((q, t) ∷ xs) (apart, new) (at, is_t, rest) = (
  at,
  ap in_cell (get_elem?-set_ne heap x p cell (λ e. apart (e ∙ at))) ∙ is_t,
  IsChain-set heap x cell t.next xs new rest,
)

-- `add_timer` puts a timer in front that is not on the list yet, and counts it: the rest of the
-- list is as before.
pub add_timer-Represents :
    (s : Store) (xs : List (Ptr × Timer)) (x : Ptr) (t : Timer)
    → Represents s xs
    → timer_at s.heap x ≡ some t
    → IsNew x xs
    → (s' : Store) × (add_timer true (some x) s ≡ done (0, s'))
      × Represents s' ((x, record t { next = s.head }) ∷ xs)
unfolding add_timer
add_timer-Represents s xs x t r at new = (
  record {
    heap = set s.heap x (some (record t { next = s.head }));
    head = some x;
    num_timers = s.num_timers + 1;
  },
  ap (linked s x) at,
  record {
    chain = (
      refl,
      ap in_cell (
          get_elem?-set_self s.heap x (some (record t { next = s.head }))
            (timer_at-lt s.heap x at)),
      IsChain-set s.heap x (some (record t { next = s.head })) s.head xs new r.chain,
    );
    count = omega (arith, r.count);
  },
)

-- What a removal leaves when it found its timer.
abbrev pub emptied : Store → Ptr → Store
emptied s x = record { heap = set s.heap x none; head = none; num_timers = s.num_timers - 1 }

unfoldable pub Removes : Store → Ptr → List (Ptr × Timer) → Outcome (ℕ × Store) → Type 0
Removes s x xs result =
    (IsNew x xs × (result ≡ done (3, s))) ⊎ ((IsNew x xs → ⊥) × (result ≡ done (0, emptied s x)))

remove_loop_found :
    (s : Store) (x : Ptr) (fuel : ℕ) (t : Timer)
    → timer_at s.heap x ≡ some t
    → remove_loop (suc fuel) s none (some x) x ≡ done (0, emptied s x)
unfolding remove_loop
remove_loop_found s x fuel t is_t =
    let same : (x == x) ≡ true = ground arith in rw (remove_loop, is_t, same) refl

remove_loop_missed :
    (s : Store) (x p : Ptr) (fuel : ℕ) (t : Timer)
    → timer_at s.heap p ≡ some t
    → (p == x) ≡ false
    → remove_loop (suc fuel) s none (some p) x ≡ remove_loop fuel s none t.next x
unfolding remove_loop
remove_loop_missed s x p fuel t is_t e = rw (remove_loop, is_t, e) refl

remove_loop-Removes :
    (s : Store) (x : Ptr) (fuel : ℕ) (curr : Option Ptr) (xs : List (Ptr × Timer))
    → length xs < fuel
    → IsChain s.heap curr xs
    → Removes s x xs (remove_loop fuel s none curr x)
unfolding remove_loop Removes
remove_loop-Removes s x zero curr xs lt chain = ground arith
remove_loop-Removes s x (suc fuel) none [] lt chain = inl (tt, refl)
remove_loop-Removes s x (suc fuel) none (y ∷ xs) lt chain = absurd chain
remove_loop-Removes s x (suc fuel) (some p) [] lt chain = absurd chain
remove_loop-Removes s x (suc fuel) (some p) ((q, t) ∷ xs) lt (at, is_t, rest) =
    elim (Bool-cases (p == x)) [
      | inl e ↦
          let same : p ≡ x = ground arith in
          inr (
            (λ new. new.0 (sym same ∙ at)),
            subst (λ p. remove_loop (suc fuel) s none (some p) x ≡ done (0, emptied s x)) (sym same)
                (remove_loop_found s x fuel t (ap (timer_at s.heap) (sym same) ∙ is_t)),
          )
      | inr e ↦
          let other : x ≢ q = (λ same. absurd (apart (sym (same ∙ sym at)) e)) in
          later other (remove_loop_missed s x p fuel t is_t e)
            (remove_loop-Removes s x fuel t.next xs (omega arith) rest)
    ]
  where
    apart : p ≡ x → (p == x) ≡ false → ⊥
    apart h e = ground arith

    later :
        {r r' : Outcome (ℕ × Store)}
        → x ≢ q
        → r' ≡ r
        → Removes s x xs r
        → Removes s x ((q, t) ∷ xs) r'
    later other step (inl (new, same)) = inl ((other, new), step ∙ same)
    later other step (inr (old, same)) = inr ((λ new. old new.1), step ∙ same)

-- `remove_timer` of a timer on the list frees it and lowers the count by one, but leaves the list
-- empty, whatever else was on it; of a timer that is not on the list it changes nothing and returns 3. The fuel
-- is enough if it is larger than the number of timers.
pub remove_timer-Removes :
    (s : Store) (xs : List (Ptr × Timer)) (x : Ptr) (fuel : ℕ)
    → length xs < fuel
    → Represents s xs
    → Removes s x xs (remove_timer fuel true (some x) s)
unfolding remove_timer
remove_timer-Removes s xs x fuel lt r = remove_loop-Removes s x fuel s.head xs lt r.chain
