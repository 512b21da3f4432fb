-- ===== src/Main/Job.antt =====
-- src/main.c: what the master and a slave do once the listener runs.
pub mod Ending
use parallel_wrapper.Base.{ℕ, suc, Option, none, some, Bool, true, false, List, ◌==◌, if◌then◌else◌}
use parallel_wrapper.Base.Int.{ℤ, pos, negsuc, pos_part, eqb_ℤ}
use parallel_wrapper.Base.Text.{Bytes}
use parallel_wrapper.Cleanup.{cleanup}
use parallel_wrapper.Main.Answers.{Round, LinkRound, register, link_hosts}
use parallel_wrapper.Main.Child.{child_settings, set_all}
use parallel_wrapper.Main.Hosts.{identify_hosts}
use parallel_wrapper.Main.Prepare.{StartOs, strdup, prepare, connect}
use parallel_wrapper.Main.Waiting.{wait_rounds}
use parallel_wrapper.Main.SharedFs.{shared_fs, fake_fs}
use parallel_wrapper.Scratch.Create.{ScratchOs, create_machine_file, create_ssh_config}
use parallel_wrapper.System.{Os}
use parallel_wrapper.UdpServer.Dispatch.{run_handler, set_locked}
use parallel_wrapper.UdpServer.Loop.{Arrival, Wake, udp_server}
use parallel_wrapper.Wrapper.{World, master_rank}
use parallel_wrapper.Wrapper.Action.{
  Action, Result, Handler, pure, leave, exit_with, deref, gets, load, wrapper, put_wrapper, then_do,
  ◌>>=◌, ◌>>◌,
}

-- `if (RC != 0) { …; cleanup(par_wrapper, 5); }`
abbrev pub stop_unless : Os → Bool → Action (Unit {0})
stop_unless os true = pure tt
stop_unless os false = cleanup os (pos 5)

-- The files of the master.
unfoldable pub write_files : Os → ScratchOs → Action (Unit {0})
write_files os scratch = do
  rc ← create_machine_file os scratch
  stop_unless os (rc == 0)
  rc ← create_ssh_config os scratch
  stop_unless os (rc == 0)

-- `par_wrapper -> shared_fs = strdup(…)`.
abbrev pub keep_fs : Os → Bytes → Action (Unit {0})
keep_fs os fs = do pw ← wrapper; put_wrapper (record pw { shared_fs = strdup os fs })

-- Both branches of the test of the flag; `none` when the rounds have run out.
abbrev pub share_if : Bool → Os → ℤ → (ℕ → List LinkRound) → Bytes → Action (Option Bool)
share_if true os curr_time rounds iwd = keep_fs os iwd >> pure (some true)
share_if false os curr_time rounds iwd = do
  pw ← wrapper
  done ← link_hosts rounds (fake_fs pw.cluster_id curr_time) (pos_part pw.num_procs) 0
  if done then keep_fs os (fake_fs pw.cluster_id curr_time) >> pure (some false) else pure none

-- The test for a shared file system, and the links where there is none. `curr_time` is from `time`.
unfoldable pub share : Os → ℤ → (ℕ → List LinkRound) → Action (Option Bool)
share os curr_time rounds = do
  pw ← wrapper
  p ← deref pw.master
  m ← load p
  iwd ← deref m.iwd
  machines ← deref pw.machines
  flag ← gets (λ w. shared_fs w.heap iwd machines)
  shared ← deref flag
  share_if shared os curr_time rounds iwd

-- How `fork` returns. In the child: what `execvp` returns when it fails. In the parent: the number of
-- the child, the result of `setpgid`, the rounds of the listener while `waitpid` waits, with the
-- keep-alive checks and signals among them, and the status that it stores.
pub data Fork : Type 0 where
  fork_failed : Fork
  in_child : ℤ → Fork
  in_parent : ℤ → ℤ → Os → List Wake → ℤ → Fork

unfoldable pub start : Os → Bool → Fork → Handler
start os shared fork_failed = do
  pw ← wrapper
  put_wrapper (record pw { child_pid = negsuc 0 })
  cleanup os (pos 10)
start os shared (in_child process_rc) = do
  pw ← wrapper
  put_wrapper (record pw { child_pid = pos 0 })
  me ← load pw.this_machine
  machines ← deref pw.machines
  settings ← gets (λ w. set_all (child_settings os pw me w.heap machines shared))
  deref settings
  exit_with process_rc
start os shared (in_parent child_pid group listener during child_status) = do
  pw ← wrapper
  put_wrapper (record pw { child_pid = child_pid; pgid = group })
  run_handler (udp_server listener during)
  cleanup os child_status

-- The answers that the rest of `main` gets, and what the listener serves in each second of the
-- master's wait for the other ranks.
pub record Job : Type 0 where
  pub os : Os
  pub scratch : ScratchOs
  pub waiting : ℕ → List Arrival
  pub curr_time : ℤ
  pub links : ℕ → List LinkRound
  pub registration : List Round
  pub fork : Fork

abbrev pub start_if : Option Bool → Job → Action Bool
start_if none j = pure false
start_if (some shared) j = set_locked false >> start j.os shared j.fork >> pure true

-- The master's part from the end of its wait on.
abbrev pub run_ranks : Option ℕ → Job → Action Bool
run_ranks none j = pure false
run_ranks (some _) j = do
  write_files j.os j.scratch
  identify_hosts
  shared ← share j.os j.curr_time j.links
  start_if shared j

-- The master's part. Its wait has a round for each second of the timeout, and one more.
unfoldable pub run_master : Job → Action Bool
unfolding write_files share start
run_master j = do
  pw ← wrapper
  last ← wait_rounds j.waiting (suc (pos_part pw.timeout)) 0
  run_ranks last j

-- A slave's part: then it only waits for its listener.
unfoldable pub run_slave : Job → Action Bool
run_slave j = do done ← register j.registration; set_locked false; pure done

-- `main`: what it returns after the wait for the listener is 0; `false` when the fuel has run out.
unfoldable pub main : StartOs → ℕ → Job → Result Bool × World
unfolding run_master run_slave
main s rounds j = then_do (prepare s) (λ _. connect s rounds >>= λ found.
    if found
    then (do
      pw ← wrapper
      me ← load pw.this_machine
      if eqb_ℤ me.rank master_rank then run_master j else run_slave j)
    else pure false)
