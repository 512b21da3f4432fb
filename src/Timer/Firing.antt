-- ===== src/Timer/Firing.antt =====
-- `time_to_next_firing` of src/timer.c: when a timer fires.
use parallel_wrapper.Base.{
  ℕ, zero, suc, ◌+◌, ◌-◌, ◌*◌, ◌/◌, ◌%◌, ◌≤◌, ◌<◌, ◌^◌, ◌≡◌, refl, ap, ◌∙◌, some, arith,
}
use parallel_wrapper.Base.Int.{to_long, to_long_pos, sub_ℕ, pos_part, neg_part, ℤ, pos, ◌+ℤ◌, ◌-ℤ◌}
use parallel_wrapper.System.{Timeval}
use parallel_wrapper.Timer.{
  Interval, reading, micros, timersub, spelled, Timer, Outcome, done, fire_in, time_to_next_firing,
}
use native.Mathlib.Nat.{mod-lt, div-add-mod'}

-- A clock reading in microseconds.
abbrev pub clock_micros : Timeval → ℕ
clock_micros t = t.sec * 1000000 + t.usec

-- A timer with the period `sec` + `usec`, which is positive, at a time that is not before its start; the
-- period and the clock, in microseconds, fit a `long`.
pub record IsRunning (now : Timeval) (t : Timer) : Type 0 where
  pub sec : ℕ
  pub usec : ℕ
  pub delay_sec : t.delay.sec ≡ pos sec
  pub delay_usec : t.delay.usec ≡ pos usec
  pub usec_bound : usec < 1000000
  pub positive : 0 < sec * 1000000 + usec
  pub now_bound : now.usec < 1000000
  pub start_bound : t.start.usec < 1000000
  pub period_fits : sec * 1000000 + usec < 2 ^ 63
  pub now_fits : clock_micros now < 2 ^ 63
  pub started : clock_micros t.start ≤ clock_micros now

-- The sum before it is narrowed.
abbrev whole : Interval → ℤ
whole t = t.usec +ℤ sub_ℕ (pos_part t.sec * 1000000) (neg_part t.sec * 1000000)

unwrapped :
    (sec usec : ℕ) → whole (record { sec = pos sec; usec = pos usec }) ≡ pos (sec * 1000000 + usec)
unfolding ◌+ℤ◌
unwrapped sec usec = ground arith

pub micros-pos :
    (sec usec : ℕ)
    → sec * 1000000 + usec < 2 ^ 63
    → micros (record { sec = pos sec; usec = pos usec }) ≡ pos (sec * 1000000 + usec)
unfolding micros
micros-pos sec usec fits = ap to_long (unwrapped sec usec) ∙ to_long_pos (sec * 1000000 + usec) fits

whole-timersub :
    (a b : Timeval)
    → a.usec < 1000000
    → b.usec < 1000000
    → clock_micros b ≤ clock_micros a
    → whole (timersub (reading a) (reading b)) ≡ pos (clock_micros a - clock_micros b)
unfolding timersub ◌+ℤ◌ ◌-ℤ◌
whole-timersub a b bound_a bound_b le = ground arith

micros-timersub :
    (a b : Timeval)
    → a.usec < 1000000
    → b.usec < 1000000
    → clock_micros b ≤ clock_micros a
    → clock_micros a < 2 ^ 63
    → micros (timersub (reading a) (reading b)) ≡ pos (clock_micros a - clock_micros b)
unfolding micros
micros-timersub a b bound_a bound_b le fits =
    ap to_long (whole-timersub a b bound_a bound_b le)
    ∙ to_long_pos (clock_micros a - clock_micros b) (omega arith)

-- The time left after `rest` microseconds of a period.
left_of :
    (sec usec rest : ℕ)
    → usec < 1000000
    → rest < sec * 1000000 + usec
    → (s u : ℕ) × (timersub (record { sec = pos sec; usec = pos usec }) (spelled (pos rest))
        ≡ record { sec = pos s; usec = pos u })
      × (u < 1000000)
      × (s * 1000000 + u ≡ sec * 1000000 + usec - rest)
unfolding timersub ◌+ℤ◌ ◌-ℤ◌
left_of sec usec rest bound lt =
    let left = sec * 1000000 + usec - rest in
    (left / 1000000, left % 1000000, ground arith, omega arith, omega arith)

-- What fires next: in `s` seconds and `u` microseconds, a whole number of periods after the start, and
-- neither at once nor later than a period.
pub record IsNextFiring (now : Timeval) (t : Timer) (period : ℕ) (result : Outcome Interval)
    : Type 0 where
  pub s : ℕ
  pub u : ℕ
  pub is_result : result ≡ done (record { sec = pos s; usec = pos u })
  pub normal : u < 1000000
  pub positive : 0 < s * 1000000 + u
  pub within : s * 1000000 + u ≤ period
  pub remaining : s * 1000000 + u ≡ period - (clock_micros now - clock_micros t.start) % period
  pub periods : ℕ
  pub on_period : clock_micros now + (s * 1000000 + u) ≡ clock_micros t.start + periods * period

fire_in_lem :
    (sec usec elapsed period : ℕ)
    → 0 < period
    → fire_in (record { sec = pos sec; usec = pos usec }) (pos elapsed) (pos period)
      ≡ done
          (timersub (record { sec = pos sec; usec = pos usec }) (spelled (pos (elapsed % period))))
fire_in_lem sec usec elapsed zero h = ground arith
fire_in_lem sec usec elapsed (suc n) h = refl

fire_in_at :
    (delay : Interval) (sec usec : ℕ)
    → delay.sec ≡ pos sec
    → delay.usec ≡ pos usec
    → (el : ℤ) (elapsed : ℕ) → el ≡ pos elapsed
    → 0 < sec * 1000000 + usec
    → sec * 1000000 + usec < 2 ^ 63
    → fire_in delay el (micros delay)
      ≡ done (
          timersub
            (record { sec = pos sec; usec = pos usec })
            (spelled (pos (elapsed % (sec * 1000000 + usec)))))
fire_in_at delay sec usec is_sec is_usec el elapsed is_el positive fits =
    let known : delay ≡ record { sec = pos sec; usec = pos usec } =
      λ i. record { sec = is_sec i; usec = is_usec i } in
    ap (λ d. fire_in d el (micros d)) known
    ∙ ap (λ m. fire_in (record { sec = pos sec; usec = pos usec }) el m) (micros-pos sec usec fits)
    ∙ ap (λ e. fire_in (record { sec = pos sec; usec = pos usec }) e (pos (sec * 1000000 + usec)))
        is_el
    ∙ fire_in_lem sec usec elapsed (sec * 1000000 + usec) positive

next_period :
    (now start period left quotient rest : ℕ)
    → start ≤ now
    → rest < period
    → left ≡ period - rest
    → quotient * period + rest ≡ now - start
    → now + left ≡ start + (quotient + 1) * period
next_period now start period left quotient rest le lt is_left split = omega arith

-- A running timer whose period and clock fit a `long` in microseconds fires a whole number of periods
-- after its start, sooner than or just one period from now and not now; the answer is a normal `struct timeval`.
pub time_to_next_firing-IsNextFiring :
    (now : Timeval) (t : Timer) (running : IsRunning now t)
    → IsNextFiring now t (running.sec * 1000000 + running.usec) (time_to_next_firing now (some t))
unfolding time_to_next_firing
time_to_next_firing-IsNextFiring now t running =
    let period = running.sec * 1000000 + running.usec in
    let elapsed = clock_micros now - clock_micros t.start in
    let (s, u, is_left, bound, left) =
      left_of running.sec running.usec (elapsed % period) running.usec_bound
        (mod-lt elapsed running.positive) in
    let rest = mod-lt elapsed running.positive in
    let split = div-add-mod' elapsed period in
    record {
      s = s;
      u = u;
      is_result =
          fire_in_at t.delay running.sec running.usec running.delay_sec running.delay_usec _ elapsed
            (micros-timersub now t.start running.now_bound running.start_bound running.started
              running.now_fits)
            running.positive running.period_fits
          ∙ ap done is_left;
      normal = bound;
      positive = omega arith;
      within = omega arith;
      remaining = left;
      periods = elapsed / period + 1;
      on_period =
          next_period (clock_micros now) (clock_micros t.start) period (s * 1000000 + u)
            (elapsed / period) (elapsed % period) running.started rest left split;
    }
