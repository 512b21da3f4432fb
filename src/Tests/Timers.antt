-- ===== src/Tests/Timers.antt =====
-- The theorems about timers at a list of two.
use parallel_wrapper.Base.{◌≡◌, refl, none, some, true, [], ◌∷◌, arith, List}
use parallel_wrapper.Base.Int.{pos}
use parallel_wrapper.System.{Timeval}
use parallel_wrapper.Timer.{
  Timer, Store, done, add_timer, remove_timer, next_timer, time_to_next_firing, spelled,
}
use parallel_wrapper.Timer.Chain.{Represents, Removes, add_timer-Represents, remove_timer-Removes}
use parallel_wrapper.Timer.Firing.{IsRunning, IsNextFiring, time_to_next_firing-IsNextFiring}
use parallel_wrapper.Timer.Next.{soonest, least, left, next_timer-soonest}
use parallel_wrapper.Wrapper.{Ptr}

abbrev now : Timeval
now = record { sec = 100; usec = 250000 }

-- Started at 97.5 s, every 2 s; and at 98 s, every 5 s.
abbrev fast : Timer
fast = record {
  start = record { sec = 97; usec = 500000 };
  delay = record { sec = pos 2; usec = pos 0 };
  next = some 1;
}

abbrev slow : Timer
slow = record {
  start = record { sec = 98; usec = 0 };
  delay = record { sec = pos 5; usec = pos 0 };
  next = none;
}

-- A third timer, which is on no list.
abbrev spare : Timer
spare = record slow { next = none }

abbrev two_timers : Store
two_timers = record {
  heap = some fast ∷ some slow ∷ some spare ∷ [];
  head = some 0;
  num_timers = 2;
}

abbrev two_list : List (Ptr × Timer)
two_list = (0, fast) ∷ (1, slow) ∷ []

abbrev two_timers-Represents : Represents two_timers two_list
two_timers-Represents = record { chain = (refl, refl, (refl, refl, tt)); count = refl }

abbrev fast-IsRunning : IsRunning now fast
fast-IsRunning = record {
  sec = 2;
  usec = 0;
  delay_sec = refl;
  delay_usec = refl;
  usec_bound = omega arith;
  positive = omega arith;
  now_bound = omega arith;
  start_bound = omega arith;
  period_fits = omega arith;
  now_fits = omega arith;
  started = omega arith;
}

abbrev slow-IsRunning : IsRunning now slow
slow-IsRunning = record {
  sec = 5;
  usec = 0;
  delay_sec = refl;
  delay_usec = refl;
  usec_bound = omega arith;
  positive = omega arith;
  now_bound = omega arith;
  start_bound = omega arith;
  period_fits = omega arith;
  now_fits = omega arith;
  started = omega arith;
}

time_to_next_firing-IsNextFiring_example :
    IsNextFiring now fast 2000000 (time_to_next_firing now (some fast))
time_to_next_firing-IsNextFiring_example = time_to_next_firing-IsNextFiring now fast fast-IsRunning

add_timer-Represents_example :
    (s' : Store) × (add_timer true (some 2) two_timers ≡ done (0, s'))
    × Represents s' ((2, record spare { next = some 0 }) ∷ two_list)
add_timer-Represents_example =
    add_timer-Represents two_timers two_list 2 spare two_timers-Represents refl
      ((λ e. omega arith), ((λ e. omega arith), tt))

remove_timer-Removes_example :
    Removes two_timers 1 two_list (remove_timer 3 true (some 1) two_timers)
remove_timer-Removes_example =
    remove_timer-Removes two_timers two_list 1 3 (omega arith) two_timers-Represents

next_timer-soonest_example :
    next_timer (λ i. now) 2 true true two_timers
    ≡ done (0, some (spelled (pos (soonest (λ i. now) two_list))))
next_timer-soonest_example =
    next_timer-soonest (λ i. now) two_timers two_list 2 two_timers-Represents (omega arith)
      (omega arith) (fast-IsRunning, (slow-IsRunning, tt))

-- The first timer fires in 1.25 s.
soonest_of_two : soonest (λ i. now) two_list ≡ 1250000
unfolding soonest least left
soonest_of_two = refl
