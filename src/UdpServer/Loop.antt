-- ===== src/UdpServer/Loop.antt =====
-- The loop of `udp_server` in src/udp_server.c, and the signals of src/cleanup.c that break it.
use parallel_wrapper.Base.{Bool, true, List, [], ◌∷◌, if◌then◌else◌}
use parallel_wrapper.Base.Int.{pos, eqb_ℤ}
use parallel_wrapper.Base.Text.{Bytes}
use parallel_wrapper.Cleanup.{cleanup}
use parallel_wrapper.System.{Os, Sockaddr}
use parallel_wrapper.UdpServer.Dispatch.{serve_datagram, keep_alive}
use parallel_wrapper.Wrapper.{master_rank}
use parallel_wrapper.Wrapper.Action.{Action, ok, pure, leave, gets, load, wrapper, ◌>>=◌, ◌>>◌}

-- A datagram with its sender, and the answers that its thread gets.
abbrev pub Arrival : Type 0
Arrival = Os × (Sockaddr × Bytes)

unfoldable pub serve_all : List Arrival → Action (Unit {0})
serve_all [] = pure tt
serve_all ((os, (from, datagram)) ∷ arrivals) =
    serve_datagram os from datagram >> serve_all arrivals

-- What ends a wait in `select`.
pub data Wake : Type 0 where
  select_failed : Wake
  -- A datagram; whether `calloc` finds memory for its message, and `pthread_create` makes a thread.
  ready : Bool → Bool → Arrival → Wake
  -- The keep-alive interval is over; whether a thread is made, its answers before and after its
  -- sleep, and what is served while it sleeps.
  expired : Bool → Os → Os → List Arrival → Wake
  -- A signal was caught: `handle_exit_signal` jumps back to the test of `exit_flag`.
  signalled : Wake

abbrev pub handle_exit_signal : Action (Unit {0})
handle_exit_signal w = (ok tt, record w { exit_flag = true })

-- A thread runs to its end before the next round. Only the master waits with a timeout.
abbrev pub on_timeout : Bool → Bool → Action (Unit {0}) → Action (Unit {0})
on_timeout master created thread =
    if master
    then (gets (λ w. w.disable_timeout) >>= λ disabled.
        if disabled then pure tt else if created then thread else pure tt)
    else pure tt

unfoldable pub on_wake : Bool → Wake → Action (Unit {0})
unfolding serve_all
on_wake master select_failed = leave 0
on_wake master (ready allocated created (os, (from, datagram))) =
    if allocated then (if created then serve_datagram os from datagram else pure tt) else leave 0
on_wake master (expired created os os' others) =
    on_timeout master created (keep_alive os os' (serve_all others))
on_wake master signalled = handle_exit_signal

unfoldable pub check_exit : Os → Action (Unit {0})
check_exit os = gets (λ w. w.exit_flag) >>= λ flag. if flag then cleanup os (pos 250) else pure tt

-- The rounds of the loop; `os` answers when the process ends by a signal.
unfoldable pub udp_server : Os → List Wake → Action (Unit {0})
unfolding check_exit on_wake
udp_server os [] = check_exit os
udp_server os (wake ∷ wakes) = do
  check_exit os
  pw ← wrapper
  me ← load pw.this_machine
  on_wake (eqb_ℤ me.rank master_rank) wake
  udp_server os wakes
