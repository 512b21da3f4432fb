-- ===== src/Main/Waiting.antt =====
-- src/main.c: the master waits for the other ranks to register.
pub mod Times
pub mod Rounds
use parallel_wrapper.Base.{
  ℕ, zero, suc, ◌+◌, ◌≤◌, ◌<◌, ◌≡◌, refl, ap, ◌∙◌, ◌⊎◌, Option, none, some, Bool, true, false, ◌||◌,
  ◌&&◌, List, [], ◌∷◌, ◌==◌, leb, if◌then◌else◌, length, arith,
}
use native.Mathlib.Decide.{ℕ_discrete}
use parallel_wrapper.Base.Int.{pos, pos_part, eqb_ℤ, leb_ℤ}
use parallel_wrapper.Main.Hosts.{first_slots}
use parallel_wrapper.UdpServer.Dispatch.{run_handler}
use parallel_wrapper.UdpServer.Loop.{Arrival, serve_all}
use parallel_wrapper.Wrapper.{Ptr}
use parallel_wrapper.Wrapper.Action.{Action, fault, pure, wrapper, deref, ◌>>=◌, ◌>>◌}

-- `finished` after the loop over the table.
unfoldable pub all_registered : List (Option Ptr) → Bool
all_registered [] = true
all_registered (none ∷ machines) = false
all_registered (some p ∷ machines) = all_registered machines

-- A round of the wait: the interval divides for every slot of the table, and a division by 0 ends the
-- process.
abbrev pub wait_step : Bool → Bool → ℕ → Action (Option ℕ) → Action (Option ℕ)
wait_step true last j rest = λ w. (fault, w)
wait_step false true j rest = pure (some j)
wait_step false false j rest = rest

-- The loop from its round `j` on, with what the listener serves while it sleeps; the result is the
-- round that has ended it, and `none` when the fuel has run out.
unfoldable pub wait_rounds : (ℕ → List Arrival) → ℕ → ℕ → Action (Option ℕ)
unfolding all_registered
wait_rounds arrivals zero j = pure none
wait_rounds arrivals (suc fuel) j = do
  pw ← wrapper
  machines ← deref pw.machines
  slots ← deref (first_slots (pos_part pw.num_procs) machines)
  wait_step (eqb_ℤ pw.ka_interval (pos 0) && leb 1 (length slots))
      (all_registered slots || leb_ℤ pw.timeout (pos (j + 1))) j
      (run_handler (serve_all (arrivals j)) >> wait_rounds arrivals fuel (j + 1))

-- How the loop on the tables below ends: in which round, or by a division by 0.
pub data Wait : Type 0 where
  waited : ℕ → Wait
  divided : Wait
  no_fuel : Wait

-- A reference for the proofs: the same loop on the tables alone, for an interval and a timeout that are
-- not negative. `machines j` is the table that round `j` sees.
unfoldable pub wait_loop : (ℕ → List (Option Ptr)) → ℕ → ℕ → ℕ → ℕ → Wait
unfolding all_registered
wait_loop machines ka_interval timeout zero j = no_fuel
wait_loop machines ka_interval timeout (suc fuel) j =
    let rest = wait_loop machines ka_interval timeout fuel (j + 1) in
    if ka_interval == 0 && leb 1 (length (machines j))
    then divided
    else if all_registered (machines j) || leb timeout (j + 1)
    then waited j
    else rest

-- Whether round `j` is the last one.
abbrev pub ends : (ℕ → List (Option Ptr)) → ℕ → ℕ → Bool
ends machines timeout j = all_registered (machines j) || leb timeout (j + 1)

-- Round `j` ends the wait that began in round `start`: all ranks are registered in it or the timeout is
-- over after it, and neither was so in a round before it.
pub record IsEnd (machines : ℕ → List (Option Ptr)) (timeout start j : ℕ) : Type 0 where
  pub from : start ≤ j
  pub last : (all_registered (machines j) ≡ true) ⊎ (timeout ≤ j + 1)
  pub earlier :
      (k : ℕ) → start ≤ k → k < j → (all_registered (machines k) ≡ false) × (k + 1 < timeout)

-- The wait ends, if the interval is positive; the fuel is enough if the rounds reach the timeout.
wait_loop-IsEnd :
    (machines : ℕ → List (Option Ptr)) (ka_interval timeout fuel j : ℕ)
    → 0 < ka_interval
    → timeout ≤ j + fuel
    → 0 < fuel
    → (j' : ℕ) × (wait_loop machines ka_interval timeout fuel j ≡ waited j')
      × IsEnd machines timeout j j'
unfolding wait_loop
wait_loop-IsEnd machines ka_interval timeout zero j positive enough fuel = absurd (omega arith)
wait_loop-IsEnd machines ka_interval timeout (suc fuel) j positive enough _ =
    let divides : (ka_interval == 0) ≡ false = ground arith in
    rw divides (
      go
        (λ more.
          wait_loop-IsEnd machines ka_interval timeout fuel (j + 1) positive (omega arith)
            (omega arith))
        (ends machines timeout j) refl)
  where
    go :
        (j + 1 < timeout
          → (j' : ℕ) × (wait_loop machines ka_interval timeout fuel (j + 1) ≡ waited j')
            × IsEnd machines timeout (j + 1) j')
        → (b : Bool) → ends machines timeout j ≡ b
        → (j' : ℕ) × ((if b then waited j else wait_loop machines ka_interval timeout fuel (j + 1))
            ≡ waited j')
          × IsEnd machines timeout j j'
    go again true e = (
      j,
      refl,
      record {
        from = omega arith;
        last = ground arith;
        earlier = λ k from before. absurd (omega arith);
      },
    )
    go again false e =
        let waits : all_registered (machines j) ≡ false = ground arith in
        let time : j + 1 < timeout = ground arith in
        let (j', same, end) = again time in
        (
          j',
          same,
          record {
            from = omega (arith, end.from);
            last = end.last;
            earlier = λ k from before. elim (ℕ_discrete k j) [
              | yes same ↦ (ap (λ k. all_registered (machines k)) same ∙ waits, omega arith)
              | no other ↦ end.earlier k (omega arith) before
            ];
          },
        )

-- Given a positive interval and enough fuel, the loop ends after as many rounds as the timeout has
-- seconds at most: in the first round in which every rank is registered or that uses the timeout up.
pub wait_loop_lem :
    (machines : ℕ → List (Option Ptr)) (ka_interval timeout fuel : ℕ)
    → 0 < ka_interval
    → 0 < timeout
    → timeout ≤ fuel
    → (j : ℕ) × (wait_loop machines ka_interval timeout fuel 0 ≡ waited j)
      × (j < timeout)
      × IsEnd machines timeout 0 j
wait_loop_lem machines ka_interval timeout fuel positive some_time enough =
    let (j, same, end) =
      wait_loop-IsEnd machines ka_interval timeout fuel 0 positive (omega arith) (omega arith) in
    (j, same, in_time j end, end)
  where
    in_time : (j : ℕ) → IsEnd machines timeout 0 j → j < timeout
    in_time zero end = some_time
    in_time (suc j) end =
        let (waits, time) = end.earlier j (omega arith) (omega arith) in omega arith
