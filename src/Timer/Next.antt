-- ===== src/Timer/Next.antt =====
-- `next_timer` of src/timer.c: the soonest firing of the timers on the list.
use parallel_wrapper.Base.{
  ℕ, zero, suc, ◌+◌, ◌-◌, ◌*◌, ◌%◌, ◌≤◌, ◌<◌, ◌≡◌, refl, sym, ap, ◌∙◌, inl, inr, Option, none, some,
  true, List, [], ◌∷◌, if◌then◌else◌, ◌==◌, false, length, arith,
}
use parallel_wrapper.Base.Int.{pos, pos_part, ltb_ℤ}
use parallel_wrapper.System.{Timeval}
use parallel_wrapper.Timer.{
  Interval, micros, spelled, Timer, Store, done, crashed, head_timer, next_from,
  time_to_next_firing, remove_timer, next_loop, next_timer,
}
use parallel_wrapper.Timer.Chain.{
  IsChain, IsNew, Represents, emptied, Removes, remove_timer-Removes,
}
use parallel_wrapper.Timer.Firing.{
  clock_micros, IsRunning, micros-pos, time_to_next_firing-IsNextFiring,
}
use parallel_wrapper.Wrapper.{Ptr}
use Prim.Native.Nat.{min}

-- The specification: the microseconds until `t` fires, and the least of these on a list that is not
-- empty, each timer at a clock reading of its own.
unfoldable pub left : Timeval → Timer → ℕ
left now t =
    let period = pos_part t.delay.sec * 1000000 + pos_part t.delay.usec in
    period - (clock_micros now - clock_micros t.start) % period

unfoldable pub least : (ℕ → Timeval) → ℕ → List (Ptr × Timer) → ℕ → ℕ
least clock i [] m = m
least clock i ((p, t) ∷ xs) m = min (left (clock i) t) (least clock (i + 1) xs m)

unfoldable pub soonest : (ℕ → Timeval) → List (Ptr × Timer) → ℕ
soonest clock [] = 0
soonest clock ((p, t) ∷ xs) = least clock 1 xs (left (clock 0) t)

-- Every timer runs at the reading that is taken for it.
abbrev pub AllRunning : (ℕ → Timeval) → ℕ → List (Ptr × Timer) → Type 0
AllRunning clock i [] = Unit {0}
AllRunning clock i ((p, t) ∷ xs) = IsRunning (clock i) t × AllRunning clock (i + 1) xs

least-min :
    (clock : ℕ → Timeval) (i : ℕ) (xs : List (Ptr × Timer)) (a m : ℕ)
    → least clock i xs (min a m) ≡ min a (least clock i xs m)
unfolding least
least-min clock i [] a m = refl
least-min clock i ((p, t) ∷ xs) a m =
    let rest = least-min clock (i + 1) xs a m in rw rest (ground arith)

fires :
    (now : Timeval) (t : Timer)
    → IsRunning now t
    → (next : Interval) × (time_to_next_firing now (some t) ≡ done next)
      × (micros next ≡ pos (left now t))
unfolding left
fires now t running =
    let next = time_to_next_firing-IsNextFiring now t running in
    let elapsed = clock_micros now - clock_micros t.start in
    let same : pos_part t.delay.sec * 1000000 + pos_part t.delay.usec
        ≡ running.sec * 1000000 + running.usec =
      λ i. pos_part (running.delay_sec i) * 1000000 + pos_part (running.delay_usec i) in
    (
      record { sec = pos next.s; usec = pos next.u },
      next.is_result,
      micros-pos next.s next.u (let b = next.within in let f = running.period_fits in omega arith)
          ∙ ap pos next.remaining
          ∙ ap (λ period. pos (period - elapsed % period)) (sym same),
    )

smaller : (l m : ℕ) → (if ltb_ℤ (pos l) (pos m) then pos l else pos m) ≡ pos (min l m)
smaller l m = ground arith

next_loop_lem :
    (clock : ℕ → Timeval) (heap : List (Option Timer)) (fuel i : ℕ) (curr : Option Ptr)
    (xs : List (Ptr × Timer)) (m : ℕ)
    → length xs < fuel
    → IsChain heap curr xs
    → AllRunning clock i xs
    → next_loop clock heap fuel i curr (pos m) ≡ done (pos (least clock i xs m))
unfolding next_loop least
next_loop_lem clock heap zero i curr xs m lt chain run = ground arith
next_loop_lem clock heap (suc fuel) i none [] m lt chain run = refl
next_loop_lem clock heap (suc fuel) i none (x ∷ xs) m lt chain run = absurd chain
next_loop_lem clock heap (suc fuel) i (some p) [] m lt chain run = absurd chain
next_loop_lem clock heap (suc fuel) i (some p) ((q, t) ∷ xs) m lt (at, is_t, rest) (run, running) =
    let (next, fired, is_left) = fires (clock i) t run in
    rw (next_loop, is_t, fired, is_left, smaller (left (clock i) t) m)
      (next_loop_lem clock heap fuel (i + 1) t.next xs (min (left (clock i) t) m) (omega arith) rest
          running
        ∙ ap (λ n. done (pos n)) (least-min clock (i + 1) xs (left (clock i) t) m))

-- On a list of running timers, whose periods and clock readings fit a `long` in microseconds, `next_timer` stores the time until the soonest firing. The fuel is
-- enough if it is at least the number of timers.
pub next_timer-soonest :
    (clock : ℕ → Timeval) (s : Store) (xs : List (Ptr × Timer)) (fuel : ℕ)
    → Represents s xs
    → 0 < length xs
    → length xs ≤ fuel
    → AllRunning clock 0 xs
    → next_timer clock fuel true true s ≡ done (0, some (spelled (pos (soonest clock xs))))
unfolding next_timer soonest
next_timer-soonest clock s xs fuel r some_timer enough run =
    let counted : (s.num_timers == 0) ≡ false = ground (arith, r.count) in
    rw counted (go s.head xs r.chain enough run some_timer)
  where
    go :
        (head : Option Ptr) (xs : List (Ptr × Timer))
        → IsChain s.heap head xs
        → length xs ≤ fuel
        → AllRunning clock 0 xs
        → 0 < length xs
        → next_from clock s.heap fuel (head_timer s.heap head)
          ≡ done (0, some (spelled (pos (soonest clock xs))))
    go none [] chain enough run h = ground arith
    go none (x ∷ xs) chain enough run h = absurd chain
    go (some p) [] chain enough run h = absurd chain
    go (some p) ((q, t) ∷ xs) (at, is_t, rest) enough (run, running) h =
        let (next, fired, is_left) = fires (clock 0) t run in
        rw
          (
            is_t,
            fired,
            is_left,
            next_loop_lem clock s.heap fuel 1 t.next xs (left (clock 0) t) (omega arith) rest
                running,
          )
          refl

-- If a timer is taken off a list with others on it, the next `next_timer` follows NULL.
pub remove_timer-next_timer :
    (clock : ℕ → Timeval) (s : Store) (xs : List (Ptr × Timer)) (x : Ptr) (fuel : ℕ)
    → Represents s xs
    → length xs < fuel
    → 1 < length xs
    → (IsNew x xs → ⊥)
    → (s' : Store) × (remove_timer fuel true (some x) s ≡ done (0, s'))
      × (next_timer clock fuel true true s' ≡ crashed)
unfolding next_timer Removes
remove_timer-next_timer clock s xs x fuel r lt others old =
    (emptied s x, removed (remove_timer-Removes s xs x fuel lt r), empty)
  where
    removed :
        Removes s x xs (remove_timer fuel true (some x) s)
        → remove_timer fuel true (some x) s ≡ done (0, emptied s x)
    removed (inl (new, same)) = absurd (old new)
    removed (inr (_, same)) = same

    counted : (s.num_timers - 1 == 0) ≡ false
    counted = ground (arith, r.count)

    empty : next_timer clock fuel true true (emptied s x) ≡ crashed
    empty = rw counted refl
