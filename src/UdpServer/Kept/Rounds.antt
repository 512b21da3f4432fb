-- ===== src/UdpServer/Kept/Rounds.antt =====
-- `keep_alive` and the rounds of `udp_server` in src/udp_server.c keep what their steps keep.
use parallel_wrapper.Base.{Option, none, some, Bool, true, false, List, [], ◌∷◌, if◌then◌else◌, All}
use parallel_wrapper.Base.Int.{pos, pos_part, ltb_ℤ, eqb_ℤ}
use parallel_wrapper.Cleanup.{cleanup}
use parallel_wrapper.System.{Os, Sockaddr, timersub_sec}
use parallel_wrapper.UdpClient.{query}
use parallel_wrapper.UdpServer.Dispatch.{
  serve_datagram, keep_alive, keep_alive_on, keep_alive_if, set_locked, query_all, query_machine,
  check_all, check_machine, abort_if,
}
use parallel_wrapper.UdpServer.Allowed.{
  AllowedArrival, AllowedWake, Remembers, Anyone, AllowedWake-map,
}
use parallel_wrapper.UdpServer.Kept.{Kept, IsKept, Kept-bind, Kept-deref, Kept-load}
use parallel_wrapper.UdpServer.Kept.Loops.{AllKept, for_machines-AllKept, on_trace-AllKept}
use parallel_wrapper.UdpServer.Kept.Term.{cleanup-AllKept}
use parallel_wrapper.UdpServer.Kept.Messages.{then_AllKept, serve_datagram-AllKept}
use parallel_wrapper.UdpServer.Links.{query-IsLinkless}
use parallel_wrapper.UdpServer.Loop.{
  Arrival, serve_all, Wake, select_failed, ready, expired, signalled, on_timeout, on_wake,
  check_exit, udp_server,
}
use parallel_wrapper.UdpServer.Safety.Rounds.{udp_server-Good}
use parallel_wrapper.Wrapper.Ensures.{IsSlave, Ensures, Any}
use parallel_wrapper.Wrapper.Invariant.{IsValid}
use parallel_wrapper.Wrapper.{Ptr, World, master_rank}
use parallel_wrapper.Wrapper.Action.{Result, ok, returned, exited, fault, Action, pure, on_trace}

module _ (P E : World → Type 0) (Allowed : Os → Type 0) (From : Sockaddr → Type 0)
    (law : IsKept P E Allowed From) where
  pub serve_all-AllKept :
      (arrivals : List Arrival)
      → All (AllowedArrival Allowed From) arrivals
      → AllKept P E (serve_all arrivals)
  unfolding serve_all
  serve_all-AllKept [] k w h = h
  serve_all-AllKept ((os, (from, datagram)) ∷ arrivals) k w h =
      then_AllKept P E Allowed From law (serve_datagram os from datagram) (serve_all arrivals)
        (serve_datagram-AllKept P E Allowed From law os k.0.0 from k.0.1 datagram)
        (serve_all-AllKept arrivals k.1) w h

  set_locked-AllKept : (b : Bool) → AllKept P E (set_locked b)
  unfolding set_locked
  set_locked-AllKept b w h = law.flagged w b w.exit_flag h

  query_all-AllKept : (os : Os) → AllKept P E (query_all os)
  unfolding query_all query_machine
  query_all-AllKept os w h =
      let fd = w.par_wrapper.command_socket in
      Kept-deref P E w h w.par_wrapper.machines _ λ machines _.
        for_machines-AllKept P E machines (query_machine os fd)
          (λ i m w h.
            Kept-bind P E (on_trace (query os fd m.ip_addr m.port) w) (λ _. pure tt)
              (on_trace-AllKept P E Allowed From law (query os fd m.ip_addr m.port)
                (λ t. query-IsLinkless os t fd m.ip_addr m.port) w h)
              (λ _ w' h'. h'))
          (pos_part w.par_wrapper.num_procs) 0 w h

  abort_if-AllKept : (b : Bool) (os : Os) → Allowed os → AllKept P E (abort_if b os)
  abort_if-AllKept true os allowed = λ w h.
      then_AllKept P E Allowed From law (set_locked false) (cleanup os (pos 250))
        (set_locked-AllKept false) (cleanup-AllKept P E Allowed From law os allowed (pos 250)) w h
  abort_if-AllKept false os allowed = λ w h. h

  check_all-AllKept : (os : Os) → Allowed os → AllKept P E (check_all os)
  unfolding check_all check_machine
  check_all-AllKept os allowed w h = Kept-deref P E w h w.par_wrapper.machines _ λ machines _.
      for_machines-AllKept P E machines (check_machine os w.par_wrapper.timeout)
        (λ i m.
          abort_if-AllKept (ltb_ℤ w.par_wrapper.timeout (timersub_sec os.now m.last_alive)) os
            allowed)
        (pos_part w.par_wrapper.num_procs) 0 w h

  module _ (os os' : Os) (allowed : Allowed os') (others : Action (Unit {0}))
      (k : AllKept P E others) where
    keep_alive_if-AllKept : (locked : Bool) → AllKept P E (keep_alive_if locked os os' others)
    keep_alive_if-AllKept true = λ w h. h
    keep_alive_if-AllKept false =
        then_AllKept P E Allowed From law (set_locked true) _ (set_locked-AllKept true) (
          then_AllKept P E Allowed From law (query_all os) _ (query_all-AllKept os) (
            then_AllKept P E Allowed From law others _ k (
              then_AllKept P E Allowed From law (check_all os') _ (check_all-AllKept os' allowed)
                (set_locked-AllKept false))))

    keep_alive_on-AllKept :
        (o : Option (List (Option Ptr))) → AllKept P E (keep_alive_on o os os' others)
    keep_alive_on-AllKept none w h = h
    keep_alive_on-AllKept (some _) w h = keep_alive_if-AllKept w.keep_alive_locked w h

    keep_alive-AllKept : AllKept P E (keep_alive os os' others)
    unfolding keep_alive
    keep_alive-AllKept w h = keep_alive_on-AllKept w.par_wrapper.machines w h

  on_timeout-AllKept :
      (master created : Bool) (thread : Action (Unit {0}))
      → AllKept P E thread
      → AllKept P E (on_timeout master created thread)
  on_timeout-AllKept false created thread k w h = h
  on_timeout-AllKept true created thread k w h = go w.disable_timeout created
    where
      go :
          (disabled created : Bool)
          → Kept P E ((if disabled then pure tt else if created then thread else pure tt) w)
      go true created = h
      go false true = k w h
      go false false = h

  on_wake-AllKept :
      (master : Bool) (wake : Wake)
      → AllowedWake Allowed From wake
      → AllKept P E (on_wake master wake)
  unfolding on_wake
  on_wake-AllKept master select_failed k w h = h
  on_wake-AllKept master (ready false created (os, (from, datagram))) k w h = h
  on_wake-AllKept master (ready true false (os, (from, datagram))) k w h = h
  on_wake-AllKept master (ready true true (os, (from, datagram))) k w h =
      serve_datagram-AllKept P E Allowed From law os k.0 from k.1 datagram w h
  on_wake-AllKept master (expired created os os' others) k w h =
      on_timeout-AllKept master created (keep_alive os os' (serve_all others))
        (keep_alive-AllKept os os' k.0 (serve_all others) (serve_all-AllKept others k.1)) w h
  on_wake-AllKept master signalled k w h = law.flagged w w.keep_alive_locked true h

  module _ (os : Os) (allowed : Allowed os) where
    check_exit-AllKept : AllKept P E (check_exit os)
    unfolding check_exit
    check_exit-AllKept w h = go w.exit_flag
      where
        go : (flag : Bool) → Kept P E ((if flag then cleanup os (pos 250) else pure tt) w)
        go true = cleanup-AllKept P E Allowed From law os allowed (pos 250) w h
        go false = h

    pub udp_server-AllKept :
        (wakes : List Wake)
        → All (AllowedWake Allowed From) wakes
        → AllKept P E (udp_server os wakes)
    unfolding udp_server
    udp_server-AllKept [] k w h = check_exit-AllKept w h
    udp_server-AllKept (wake ∷ wakes) k w h =
        Kept-bind P E (check_exit os w) _ (check_exit-AllKept w h) λ _ w1 h1.
          Kept-load P E w1 h1 w1.par_wrapper.this_machine _ λ me _.
            then_AllKept P E Allowed From law (on_wake (eqb_ℤ me.rank master_rank) wake)
              (udp_server os wakes) (on_wake-AllKept (eqb_ℤ me.rank master_rank) wake k.0)
              (udp_server-AllKept wakes k.1) w1 h1

-- `P` holds afterwards, or `E` if the process has exited; only a slave has crashed, and then `P` holds.
abbrev pub Reaches : (P E : World → Type 0) → Result (Unit {0}) × World → Type 0
Reaches P E (ok a, w) = P w
Reaches P E (returned rc, w) = P w
Reaches P E (exited code, w) = E w
Reaches P E (fault, w) = P w × IsSlave w

module _ (P E : World → Type 0) (w : World) where
  uncrashed :
      (r : Result (Unit {0}) × World) → Ensures {A = Unit {0}} w Any r → Kept P E r → Reaches P E r
  uncrashed (ok a, w') g h = h
  uncrashed (returned rc, w') g h = h
  uncrashed (exited code, w') g h = h
  uncrashed (fault, w') g h = (h, g.1)

  pub udp_server-Reaches :
      (Allowed : Os → Type 0) (From : Sockaddr → Type 0)
      → IsKept P E Allowed From
      → ((os : Os) → Allowed os → Remembers os)
      → (os : Os) → Allowed os
      → (wakes : List Wake) → All (AllowedWake Allowed From) wakes
      → IsValid w.par_wrapper w.heap
      → P w
      → Reaches P E (udp_server os wakes w)
  udp_server-Reaches Allowed From law remembers os allowed wakes k v h =
      uncrashed (udp_server os wakes w)
        (udp_server-Good os wakes w
          (AllowedWake-map Allowed Remembers From Anyone remembers (λ _ _. tt) wakes k) v)
        (udp_server-AllKept P E Allowed From law os allowed wakes k w h)
