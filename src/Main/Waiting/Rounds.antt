-- ===== src/Main/Waiting/Rounds.antt =====
-- src/main.c: how the wait of the master ends, with the listener running meanwhile.
use parallel_wrapper.Base.{
  All, ℕ, zero, suc, ◌+◌, ◌<◌, ◌≤◌, ◌≡◌, refl, sym, ap, ◌∙◌, subst, Option, none, some, Bool, true,
  false, List, [], ◌||◌, ◌&&◌, length, leb, arith, ◌==◌, if◌then◌else◌,
}
use parallel_wrapper.Base.Int.{ℤ, pos, eqb_ℤ, leb_ℤ}
use parallel_wrapper.Main.Hosts.First.{first_slots_all}
use parallel_wrapper.Main.Waiting.{
  all_registered, wait_step, wait_rounds, waited, wait_loop, ends, IsEnd, wait_loop_lem,
}
use parallel_wrapper.Main.Waiting.Times.{HasTimes, AnyState, HasTimes-IsKept}
use parallel_wrapper.UdpServer.Authority.Master.{serve_all-master}
use parallel_wrapper.UdpServer.Dispatch.{end_thread, run_handler}
use parallel_wrapper.UdpServer.Allowed.{AllowedArrival, Remembers, Anyone}
use parallel_wrapper.UdpServer.Kept.{Kept}
use parallel_wrapper.UdpServer.Kept.Rounds.{serve_all-AllKept}
use parallel_wrapper.UdpServer.Loop.{Arrival, serve_all}
use parallel_wrapper.UdpServer.OnExit.{OnExit}
use parallel_wrapper.UdpServer.Safety.Rounds.{
  serve_all-Safe, later_rank, later_table, master-IsSlave,
}
use parallel_wrapper.Wrapper.{Ptr, World, master_rank}
use parallel_wrapper.Wrapper.Action.{Action, Result, ok, returned, exited, fault, then_do, ◌>>◌}
use parallel_wrapper.Wrapper.Ensures.{IsSlave, Ensures, Any, Good, Good-refl, Good-trans}
use parallel_wrapper.Wrapper.Invariant.{IsValid, IsTable}

-- The state in which round `j` looks at the table.
unfoldable pub state_at : (ℕ → List Arrival) → World → ℕ → World
state_at arrivals w zero = w
state_at arrivals w (suc j) =
    let before = state_at arrivals w j in (serve_all (arrivals j) before).1

table_or_empty : Option (List (Option Ptr)) → List (Option Ptr)
table_or_empty none = []
table_or_empty (some table) = table

-- The table that round `j` sees.
unfoldable pub table_at : (ℕ → List Arrival) → World → ℕ → List (Option Ptr)
unfolding table_or_empty
table_at arrivals w j = table_or_empty (state_at arrivals w j).par_wrapper.machines

-- What a round does on a valid table.
round_lem :
    (arrivals : ℕ → List Arrival) (fuel j : ℕ) (w : World) (interval timeout : ℤ)
    → (t : IsTable w.par_wrapper w.heap) → HasTimes interval timeout w
    → wait_rounds arrivals (suc fuel) j w
      ≡ wait_step
          (eqb_ℤ interval (pos 0) && leb 1 (length t.table))
          (all_registered t.table || leb_ℤ timeout (pos (j + 1)))
          j
          (run_handler (serve_all (arrivals j)) >> wait_rounds arrivals fuel (j + 1))
          w
unfolding wait_rounds
round_lem arrivals fuel j w interval timeout t h =
    rw t.is_table
      (rw t.size (rw (first_slots_all t.table) (rw h.same_interval (rw h.same_timeout refl))))

module _ (arrivals : ℕ → List Arrival) (w : World) (v : IsValid w.par_wrapper w.heap)
    (allowed : (j : ℕ) → All (AllowedArrival Remembers Anyone) (arrivals j))
    (rank : v.me.rank ≡ master_rank) (interval timeout : ℤ)
    (times : HasTimes interval timeout w) where
  -- The listener has served all before round `j`, in a state like the first one.
  record IsServed (before : World) (r : Result (Unit {0}) × World) : Type 0 where
    ended : end_thread r ≡ (ok tt, r.1)
    good : Good before r.1
    same_times : HasTimes interval timeout r.1

  IsServed-intro :
      (before : World) (r : Result (Unit {0}) × World)
      → Ensures {A = Unit {0}} before Any r
      → Kept (HasTimes interval timeout) AnyState r
      → OnExit ⊥ r
      → ((w' : World) → Good before w' → IsSlave w' → ⊥)
      → IsServed before r
  IsServed-intro before (ok a, w') good kept stays upright = record {
    ended = refl;
    good = good.0;
    same_times = kept;
  }
  IsServed-intro before (returned rc, w') good kept stays upright = record {
    ended = refl;
    good = good;
    same_times = kept;
  }
  IsServed-intro before (exited code, w') good kept stays upright = absurd stays
  IsServed-intro before (fault, w') good kept stays upright = absurd (upright w' good.0 good.1)

  round-IsServed :
      (j : ℕ) (before : World)
      → Good w before
      → HasTimes interval timeout before
      → IsServed before (serve_all (arrivals j) before)
  round-IsServed j before g t =
      let b = g.valid in
      let still_master = later_rank w v before b.me g b.is_me ∙ rank in
      IsServed-intro before (serve_all (arrivals j) before)
        (serve_all-Safe before (arrivals j) (allowed j) before (Good-refl before b))
        (serve_all-AllKept (HasTimes interval timeout) AnyState Remembers Anyone
          (HasTimes-IsKept interval timeout) (arrivals j) (allowed j) before t)
        (serve_all-master (arrivals j) before (allowed j) b still_master)
        (λ w' g' slave. master-IsSlave before b w' still_master g' slave)

  state_at-Good :
      (j : ℕ) → Good w (state_at arrivals w j) × HasTimes interval timeout (state_at arrivals w j)
  unfolding state_at
  state_at-Good zero = (Good-refl w v, times)
  state_at-Good (suc j) =
      let (g, t) = state_at-Good j in
      let s = round-IsServed j (state_at arrivals w j) g t in (Good-trans g s.good, s.same_times)

  -- The sleep of a round leads to the state of the next one.
  sleep_lem :
      {A : Type 0} (j : ℕ) (f : Action A)
      → (run_handler (serve_all (arrivals j)) >> f) (state_at arrivals w j)
        ≡ f (state_at arrivals w (suc j))
  unfolding state_at
  sleep_lem j f =
      let (g, t) = state_at-Good j in
      ap (λ r. then_do r (λ _. f)) ((round-IsServed j (state_at arrivals w j) g t).ended)

  seen :
      (j : ℕ) (table : IsTable (state_at arrivals w j).par_wrapper (state_at arrivals w j).heap)
      → table_at arrivals w j ≡ table.table
  unfolding table_at table_or_empty
  seen j table = ap table_or_empty table.is_table

  -- If the loop on the tables ends, then the wait ends in the same round.
  wait_rounds-waited :
      (k t fuel j last : ℕ)
      → 0 < k
      → interval ≡ pos k
      → timeout ≡ pos t
      → wait_loop (table_at arrivals w) k t fuel j ≡ waited last
      → wait_rounds arrivals fuel j (state_at arrivals w j)
        ≡ (ok (some last), state_at arrivals w last)
  unfolding wait_loop
  wait_rounds-waited k t zero j last positive is_k is_t h = absurd cc
  wait_rounds-waited k t (suc fuel) j last positive is_k is_t h =
      let s = state_at arrivals w j in
      let (g, same) = state_at-Good j in
      let table = later_table w v s rank g in
      let divides : (k == 0) ≡ false = ground arith in
      let go_on : Action (Option ℕ) =
        run_handler (serve_all (arrivals j)) >> wait_rounds arrivals fuel (j + 1) in
      round_lem arrivals fuel j s interval timeout table same
      ∙ ap
          (λ l.
            wait_step (eqb_ℤ interval (pos 0) && leb 1 (length l))
              (all_registered l || leb_ℤ timeout (pos (j + 1))) j go_on s)
          (sym (seen j table))
      ∙ tested is_k is_t
      ∙ go (ends (table_at arrivals w) t j)
          (λ more. wait_rounds-waited k t fuel (j + 1) last positive is_k is_t more)
          (rw divides at h)
    where
      tested :
          interval ≡ pos k
          → timeout ≡ pos t
          → wait_step
              (eqb_ℤ interval (pos 0) && leb 1 (length (table_at arrivals w j)))
              (all_registered (table_at arrivals w j) || leb_ℤ timeout (pos (j + 1)))
              j
              (run_handler (serve_all (arrivals j)) >> wait_rounds arrivals fuel (j + 1))
              (state_at arrivals w j)
            ≡ wait_step false
                (ends (table_at arrivals w) t j)
                j
                (run_handler (serve_all (arrivals j)) >> wait_rounds arrivals fuel (j + 1))
                (state_at arrivals w j)
      tested a b =
          let no : eqb_ℤ (pos k) (pos 0) ≡ false = ground arith in
          let plain : leb_ℤ (pos t) (pos (j + 1)) ≡ leb t (j + 1) = ground arith in
          rw a (rw b (rw no (rw plain refl)))

      go :
          (b : Bool)
          → (wait_loop (table_at arrivals w) k t fuel (j + 1) ≡ waited last
              → wait_rounds arrivals fuel (j + 1) (state_at arrivals w (j + 1))
                ≡ (ok (some last), state_at arrivals w last))
          → (if b then waited j else wait_loop (table_at arrivals w) k t fuel (j + 1)) ≡ waited last
          → wait_step false b j
              (run_handler (serve_all (arrivals j)) >> wait_rounds arrivals fuel (j + 1))
              (state_at arrivals w j)
            ≡ (ok (some last), state_at arrivals w last)
      go true again h =
          let same : j ≡ last = cc in ap (λ n. (ok (some n), state_at arrivals w n)) same
      go false again h =
          let next : j + 1 ≡ suc j = omega arith in
          sleep_lem j (wait_rounds arrivals fuel (j + 1))
          ∙ subst
              (λ n.
                wait_rounds arrivals fuel (j + 1) (state_at arrivals w n)
                ≡ (ok (some last), state_at arrivals w last))
              next (again h)

-- In a valid state of the master with a positive interval and a positive timeout, and with fuel for as
-- many rounds as the timeout has seconds, the wait for the other ranks ends, whatever arrives while it
-- sleeps, if the address of each machine that registers can be copied: in the first round in which
-- every rank is registered or that uses the timeout up. Then the state is valid, and nothing that was
-- registered at the start has been changed or replaced.
pub wait_rounds-IsEnd :
    (arrivals : ℕ → List Arrival) (w : World) (v : IsValid w.par_wrapper w.heap)
    → ((j : ℕ) → All (AllowedArrival Remembers Anyone) (arrivals j))
    → v.me.rank ≡ master_rank
    → (k t fuel : ℕ) → w.par_wrapper.ka_interval ≡ pos k
    → w.par_wrapper.timeout ≡ pos t
    → 0 < k
    → 0 < t
    → t ≤ fuel
    → (j : ℕ) × (wait_rounds arrivals fuel 0 w ≡ (ok (some j), state_at arrivals w j))
      × (j < t)
      × IsEnd (table_at arrivals w) t 0 j
      × Good w (state_at arrivals w j)
unfolding state_at
wait_rounds-IsEnd arrivals w v allowed rank k t fuel is_k is_t positive some_time enough =
    let (j, e, in_time, end) =
      wait_loop_lem (table_at arrivals w) k t fuel positive some_time enough in
    let times : HasTimes (pos k) (pos t) w = record { same_interval = is_k; same_timeout = is_t } in
    (
      j,
      wait_rounds-waited arrivals w v allowed rank (pos k) (pos t) times k t fuel 0 j positive refl
          refl e,
      in_time,
      end,
      (state_at-Good arrivals w v allowed rank (pos k) (pos t) times j).0,
    )
