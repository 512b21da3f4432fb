-- ===== src/Timer.antt =====
-- src/timer.c and include/timer.h: periodic timers on a list that is linked through the timers.
-- The products of seconds are `long`s of 64 bits, which wrap.
pub mod Firing
pub mod Chain
pub mod Next
use parallel_wrapper.Base.{
  ℕ, zero, suc, ◌+◌, ◌-◌, ◌*◌, ◌/◌, ◌%◌, Option, none, some, Bool, not, List, ◌==◌, if◌then◌else◌,
  get_elem?, set,
}
use parallel_wrapper.Base.Int.{
  to_long, ℤ, pos, negsuc, sub_ℕ, ◌+ℤ◌, ◌-ℤ◌, pos_part, neg_part, ltb_ℤ,
}
use parallel_wrapper.System.{Timeval}
use parallel_wrapper.Wrapper.{Ptr}

-- A `struct timeval` that may be negative.
pub record Interval : Type 0 where
  pub sec : ℤ
  pub usec : ℤ

abbrev pub reading : Timeval → Interval
reading t = record { sec = pos t.sec; usec = pos t.usec }

-- `usec + sec * 1000000`.
unfoldable pub micros : Interval → ℤ
unfolding ◌+ℤ◌ to_long
micros t = to_long (t.usec +ℤ sub_ℕ (pos_part t.sec * 1000000) (neg_part t.sec * 1000000))

-- `timersub`.
unfoldable pub timersub : Interval → Interval → Interval
unfolding ◌+ℤ◌ ◌-ℤ◌
timersub a b =
    if ltb_ℤ (a.usec -ℤ b.usec) (pos 0)
    then record { sec = a.sec -ℤ b.sec -ℤ pos 1; usec = a.usec -ℤ b.usec +ℤ pos 1000000 }
    else record { sec = a.sec -ℤ b.sec; usec = a.usec -ℤ b.usec }

-- `%` and `/` of C round towards 0. Here the right operand is not 0.
abbrev pub rem_ℕ : ℤ → ℕ → ℤ
rem_ℕ (pos n) d = pos (n % d)
rem_ℕ (negsuc n) d = sub_ℕ 0 ((n + 1) % d)

abbrev pub quot_ℕ : ℤ → ℕ → ℤ
quot_ℕ (pos n) d = pos (n / d)
quot_ℕ (negsuc n) d = sub_ℕ 0 ((n + 1) / d)

-- The time that `n` microseconds spell.
abbrev pub spelled : ℤ → Interval
spelled n = record { sec = quot_ℕ n 1000000; usec = rem_ℕ n 1000000 }

pub record Timer : Type 0 where
  pub start : Timeval
  pub delay : Interval
  pub next : Option Ptr

unfoldable pub new_timer : Bool → Timeval → ℤ → ℤ → Option Timer
new_timer calloc_ok now sec usec =
    if not calloc_ok
    then none
    else some (record { start = now; delay = record { sec = sec; usec = usec }; next = none })

-- What a call gives: a value, a crash (a wild pointer or a division by 0), or no result on this fuel.
pub data Outcome (A : Type 0) : Type 0 where
  done : A → Outcome A
  crashed : Outcome A
  no_fuel : Outcome A

abbrev pub then_with : {A B : Type 0} → Outcome A → (A → Outcome B) → Outcome B
then_with (done a) f = f a
then_with crashed f = crashed
then_with no_fuel f = no_fuel

-- The rest of `time_to_next_firing`, for a period of `delay` microseconds.
abbrev pub fire_in : Interval → ℤ → ℤ → Outcome Interval
fire_in delay elapsed (pos zero) = crashed
fire_in delay elapsed (pos (suc n)) = done (timersub delay (spelled (rem_ℕ elapsed (suc n))))
fire_in delay elapsed (negsuc n) = done (timersub delay (spelled (rem_ℕ elapsed (suc n))))

unfoldable pub time_to_next_firing : Timeval → Option Timer → Outcome Interval
unfolding micros timersub
time_to_next_firing now none = done (record { sec = pos 0; usec = pos 0 })
time_to_next_firing now (some x) =
    fire_in x.delay (micros (timersub (reading now) (reading x.start))) (micros x.delay)

-- The memory that holds the timers (`none` once it is freed), and the list.
pub record Store : Type 0 where
  pub heap : List (Option Timer)
  pub head : Option Ptr
  pub num_timers : ℕ

abbrev pub in_cell : Option (Option Timer) → Option Timer
in_cell none = none
in_cell (some cell) = cell

-- `*p`.
abbrev pub timer_at : List (Option Timer) → Ptr → Option Timer
timer_at heap p = in_cell (get_elem? heap p)

abbrev pub linked : Store → Ptr → Option Timer → Outcome (ℕ × Store)
linked s x none = crashed
linked s x (some t) = done (
  0,
  record {
    heap = set s.heap x (some (record t { next = s.head }));
    head = some x;
    num_timers = s.num_timers + 1;
  },
)

-- `has_list` says that the pointer `list` is not NULL.
unfoldable pub add_timer : Bool → Option Ptr → Store → Outcome (ℕ × Store)
add_timer has_list none s = done (1, s)
add_timer has_list (some x) s = if not has_list then done (2, s) else linked s x (timer_at s.heap x)

-- `prev_timer -> next = next`.
abbrev pub relink :
    List (Option Timer) → Ptr → Option Ptr → Option Timer → Outcome (List (Option Timer))
relink heap p next none = crashed
relink heap p next (some t) = done (set heap p (some (record t { next = next })))

-- The timer `curr` is found: it is unlinked and freed.
abbrev pub unlink_timer : Store → Option Ptr → Ptr → Timer → Outcome (ℕ × Store)
unlink_timer s none curr t =
    done (0, record { heap = set s.heap curr none; head = none; num_timers = s.num_timers - 1 })
unlink_timer s (some prev) curr t =
    then_with (relink s.heap prev t.next (timer_at s.heap prev))
      (λ heap. done (0, record s { heap = set heap curr none; num_timers = s.num_timers - 1 }))

-- The loop: nothing in it moves `prev_timer`.
unfoldable pub remove_loop : ℕ → Store → Option Ptr → Option Ptr → Ptr → Outcome (ℕ × Store)
remove_loop zero s prev curr x = no_fuel
remove_loop (suc fuel) s prev none x = done (3, s)
remove_loop (suc fuel) s prev (some curr) x = elim (timer_at s.heap curr) [
  | none ↦ crashed
  | some t ↦
      let later = remove_loop fuel s prev t.next x in
      if curr == x then unlink_timer s prev curr t else later
]

unfoldable pub remove_timer : ℕ → Bool → Option Ptr → Store → Outcome (ℕ × Store)
unfolding remove_loop
remove_timer fuel has_list none s = if not has_list then done (1, s) else done (2, s)
remove_timer fuel has_list (some x) s =
    if not has_list then done (1, s) else remove_loop fuel s none s.head x

-- The loop of `next_timer`, with the clock at its `i`-th reading.
unfoldable pub next_loop : (ℕ → Timeval) → List (Option Timer) → ℕ → ℕ → Option Ptr → ℤ → Outcome ℤ
unfolding time_to_next_firing micros
next_loop clock heap zero i curr min_time = no_fuel
next_loop clock heap (suc fuel) i none min_time = done min_time
next_loop clock heap (suc fuel) i (some curr) min_time = elim (timer_at heap curr) [
  | none ↦ crashed
  | some t ↦ then_with (time_to_next_firing (clock i) (some t)) (λ next_firing.
      next_loop clock heap fuel (i + 1) t.next
        (if ltb_ℤ (micros next_firing) min_time then micros next_firing else min_time))
]

-- `list -> head`, and what follows it. A NULL head passes `time_to_next_firing` and is followed then.
abbrev pub next_from :
    (ℕ → Timeval) → List (Option Timer) → ℕ → Option Timer → Outcome (ℕ × Option Interval)
next_from clock heap fuel none = crashed
next_from clock heap fuel (some t) =
    then_with (time_to_next_firing (clock 0) (some t)) (λ next_firing.
      then_with (next_loop clock heap fuel 1 t.next (micros next_firing))
        (λ min_time. done (0, some (spelled min_time))))

abbrev pub head_timer : List (Option Timer) → Option Ptr → Option Timer
head_timer heap none = none
head_timer heap (some p) = timer_at heap p

-- The return code, and what is stored in `*next_timer`, whose pointer is not NULL by `has_timeval`.
unfoldable pub next_timer : (ℕ → Timeval) → ℕ → Bool → Bool → Store → Outcome (ℕ × Option Interval)
unfolding next_loop
next_timer clock fuel has_list has_timeval s =
    if not has_list
    then done (1, none)
    else if not has_timeval
    then done (2, none)
    else if s.num_timers == 0
    then done (3, none)
    else next_from clock s.heap fuel (head_timer s.heap s.head)
