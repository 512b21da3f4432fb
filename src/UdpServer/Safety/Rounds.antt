-- ===== src/UdpServer/Safety/Rounds.antt =====
-- The rounds of `udp_server`, with the keep-alive thread.
use parallel_wrapper.Base.{
  All, ◌≡◌, refl, sym, ap, subst, ◌∙◌, Option, none, some, Bool, true, false, List, [], ◌∷◌, inl,
  inr, get_elem?, if◌then◌else◌, arith,
}
use parallel_wrapper.Base.Int.{pos, pos_part, eqb_ℤ, eqb_ℤ→eq}
use parallel_wrapper.Cleanup.{cleanup}
use parallel_wrapper.System.{Os}
use parallel_wrapper.UdpClient.{query}
use parallel_wrapper.UdpServer.Dispatch.{
  serve_datagram, keep_alive, keep_alive_on, keep_alive_if, set_locked, query_all, query_machine,
  check_all,
}
use parallel_wrapper.UdpServer.KeepAlive.{check_all_cases}
use parallel_wrapper.UdpServer.Loop.{
  Arrival, serve_all, Wake, select_failed, ready, expired, signalled, on_timeout, on_wake,
  check_exit, udp_server,
}
use parallel_wrapper.UdpServer.Safety.Serve.{serve_datagram-Ensures}
use parallel_wrapper.UdpServer.Allowed.{AllowedArrival, AllowedWake, Remembers, Anyone}
use parallel_wrapper.UdpServer.Safety.Term.{cleanup-Good}
use parallel_wrapper.Wrapper.{Machine, Ptr, World, master_rank}
use parallel_wrapper.Wrapper.Action.{Action, pure, ◌>>◌}
use parallel_wrapper.Wrapper.Ensures.{
  IsSlave, Good, Good-refl, Good-trace, Ensures, Any, Ensures-bind, Ensures-deref, Ensures-load,
}
use parallel_wrapper.Wrapper.Invariant.{IsValid, IsTable}
use parallel_wrapper.Wrapper.Machines.{for_machines}
use parallel_wrapper.Wrapper.Machines.Quiet.{on_trace-AllQuiet, for_machines-AllQuiet}

module _ (w : World) where
  abbrev Safe : Action (Unit {0}) → Type 0
  Safe m = (w' : World) → Good w w' → Ensures {A = Unit {0}} w Any (m w')

  Safe-then : (m k : Action (Unit {0})) → Safe m → Safe k → Safe (m >> k)
  Safe-then m k hm hk w' g =
      Ensures-bind {B = Unit {0}} w Any Any m (λ _. k) w' (hm w' g) (λ _ w'' g' _. hk w'' g')

  pub serve_all-Safe :
      (arrivals : List Arrival)
      → All (AllowedArrival Remembers Anyone) arrivals
      → Safe (serve_all arrivals)
  unfolding serve_all
  serve_all-Safe [] k = λ w' g. (g, tt)
  serve_all-Safe ((os, (from, datagram)) ∷ arrivals) k =
      Safe-then (serve_datagram os from datagram) (serve_all arrivals)
        (λ w' g. serve_datagram-Ensures w w' g os k.0.0 from datagram) (serve_all-Safe arrivals k.1)

  set_locked-Safe : (b : Bool) → Safe (set_locked b)
  unfolding set_locked
  set_locked-Safe b w' g = (record { valid = g.valid; keeps = g.keeps }, tt)

  query_all-Ensures :
      (os : Os) (w' : World)
      → Good w w'
      → IsTable w'.par_wrapper w'.heap
      → Ensures {A = Unit {0}} w Any (query_all os w')
  unfolding query_all query_machine
  query_all-Ensures os w' g table =
      let socketfd = w'.par_wrapper.command_socket in
      let (t, e) =
        for_machines-AllQuiet w' table.table (query_machine os socketfd) table.known
          (λ i m. on_trace-AllQuiet (query os socketfd m.ip_addr m.port) w')
          (pos_part w'.par_wrapper.num_procs) 0
          (λ j j<. let size = ap pos_part table.size in omega arith) w'.trace in
      Ensures-deref {B = Unit {0}} w Any w' w'.par_wrapper.machines table.table
        (λ machines.
          for_machines (pos_part w'.par_wrapper.num_procs) 0 machines (query_machine os socketfd))
        table.is_table (subst (Ensures {A = Unit {0}} w Any) (sym e) (Good-trace t g, tt))

  check_all-Ensures :
      (os : Os) (w' : World)
      → Good w w'
      → IsTable w'.par_wrapper w'.heap
      → Ensures {A = Unit {0}} w Any (check_all os w')
  check_all-Ensures os w' g table = elim (check_all_cases os w' g.valid table) [
    | inl ((t, e), _) ↦
        subst (Ensures {A = Unit {0}} w Any) (sym e) (record { valid = g.valid; keeps = g.keeps })
    | inr (e, _) ↦ subst (Ensures {A = Unit {0}} w Any) (sym e) (g, tt)
  ]

module _ (w : World) (v : IsValid w.par_wrapper w.heap) where
  -- The rank of the process is what it was.
  pub later_rank :
      (w' : World) (m : Machine)
      → Good w w'
      → get_elem? w'.heap w'.par_wrapper.this_machine ≡ some m
      → m.rank ≡ v.me.rank
  later_rank w' m g here =
      let (m', there, same) = g.keeps.machines_here w.par_wrapper.this_machine v.me v.is_me in
      let at_this : get_elem? w'.heap w'.par_wrapper.this_machine ≡ some m' =
        ap (get_elem? w'.heap) g.keeps.this_machine ∙ there in
      ap (λ m. m.rank) (one m m' here at_this) ∙ same.rank
    where
      one : (m m' : Machine) {o : Option Machine} → o ≡ some m → o ≡ some m' → m ≡ m'
      one m m' h k = cc

  -- Only a slave crashes, so the master does not.
  pub master-IsSlave : (w' : World) → v.me.rank ≡ master_rank → Good w w' → IsSlave w' → ⊥
  master-IsSlave w' is_master g (m, here, other) = other (later_rank w' m g here ∙ is_master)

  pub later_table :
      (w' : World) → v.me.rank ≡ master_rank → Good w w' → IsTable w'.par_wrapper w'.heap
  later_table w' is_master g =
      g.valid.has_table (later_rank w' g.valid.me g g.valid.is_me ∙ is_master)

  module _ (is_master : v.me.rank ≡ master_rank) (os os' : Os) (others : Action (Unit {0}))
      (safe : Safe w others) where
    keep_alive_if-Safe : (locked : Bool) → Safe w (keep_alive_if locked os os' others)
    keep_alive_if-Safe true = λ w' g. (g, tt)
    keep_alive_if-Safe false = Safe-then w (set_locked true) _ (set_locked-Safe w true) (
        Safe-then w (query_all os) _
          (λ w' g. query_all-Ensures w os w' g (later_table w' is_master g))
          (Safe-then w others _ safe (
            Safe-then w (check_all os') _
              (λ w' g. check_all-Ensures w os' w' g (later_table w' is_master g))
              (set_locked-Safe w false))))

    keep_alive_on-Safe : (o : Option (List (Option Ptr))) → Safe w (keep_alive_on o os os' others)
    keep_alive_on-Safe none w' g = (g, tt)
    keep_alive_on-Safe (some machines) w' g = keep_alive_if-Safe w'.keep_alive_locked w' g

    keep_alive-Safe : Safe w (keep_alive os os' others)
    unfolding keep_alive
    keep_alive-Safe w' g = keep_alive_on-Safe w'.par_wrapper.machines w' g

  on_timeout-Safe :
      (created : Bool) (thread : Action (Unit {0}))
      → Safe w thread
      → Safe w (on_timeout true created thread)
  on_timeout-Safe created thread safe w' g = go w'.disable_timeout created
    where
      go :
          (disabled created : Bool)
          → Ensures {A = Unit {0}} w Any
              ((if disabled then pure tt else if created then thread else pure tt) w')
      go true created = (g, tt)
      go false true = safe w' g
      go false false = (g, tt)

  on_wake-Safe :
      (master : Bool) (wake : Wake)
      → (master ≡ true → v.me.rank ≡ master_rank)
      → AllowedWake Remembers Anyone wake
      → Safe w (on_wake master wake)
  unfolding on_wake
  on_wake-Safe master select_failed h k w' g = g
  on_wake-Safe master (ready false created (os, (from, datagram))) h k w' g = g
  on_wake-Safe master (ready true false (os, (from, datagram))) h k w' g = (g, tt)
  on_wake-Safe master (ready true true (os, (from, datagram))) h k w' g =
      serve_datagram-Ensures w w' g os k.0 from datagram
  on_wake-Safe true (expired created os os' others) h k w' g =
      on_timeout-Safe created (keep_alive os os' (serve_all others))
        (keep_alive-Safe (h refl) os os' (serve_all others) (serve_all-Safe w others k.1)) w' g
  on_wake-Safe false (expired created os os' others) h k w' g = (g, tt)
  on_wake-Safe master signalled h k w' g = (record { valid = g.valid; keeps = g.keeps }, tt)

  check_exit-Safe : (os : Os) → Safe w (check_exit os)
  unfolding check_exit
  check_exit-Safe os w' g = go w'.exit_flag
    where
      go :
          (flag : Bool)
          → Ensures {A = Unit {0}} w Any ((if flag then cleanup os (pos 250) else pure tt) w')
      go true = cleanup-Good w w' g os (pos 250)
      go false = (g, tt)

  udp_server-Safe :
      (os : Os) (wakes : List Wake)
      → All (AllowedWake Remembers Anyone) wakes
      → Safe w (udp_server os wakes)
  unfolding udp_server
  udp_server-Safe os [] k = check_exit-Safe os
  udp_server-Safe os (wake ∷ wakes) k = Safe-then w (check_exit os) _ (check_exit-Safe os) (λ w' g.
      Ensures-load {B = Unit {0}} w Any w' w'.par_wrapper.this_machine g.valid.me
        (λ me. on_wake (eqb_ℤ me.rank master_rank) wake >> udp_server os wakes) g.valid.is_me
        (Safe-then w (on_wake (eqb_ℤ g.valid.me.rank master_rank) wake) (udp_server os wakes)
          (on_wake-Safe (eqb_ℤ g.valid.me.rank master_rank) wake
            (λ e.
              sym (later_rank w' g.valid.me g g.valid.is_me)
              ∙ eqb_ℤ→eq g.valid.me.rank master_rank e)
            k.0)
          (udp_server-Safe os wakes k.1) w' g))

-- From a valid state, whatever datagrams arrive, intervals expire, signals come and calls fail, except the
-- copy of the address of a machine that registers: the server crashes on a slave at most. Afterwards,
-- or when it has exited or crashed, the state is valid, and nothing that was registered at the start
-- has been changed or replaced.
pub udp_server-Good :
    (os : Os) (wakes : List Wake) (w : World)
    → All (AllowedWake Remembers Anyone) wakes
    → IsValid w.par_wrapper w.heap
    → Ensures w Any (udp_server os wakes w)
udp_server-Good os wakes w k v = udp_server-Safe w v os wakes k w (Good-refl w v)
