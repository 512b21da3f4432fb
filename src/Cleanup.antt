-- ===== src/Cleanup.antt =====
-- src/cleanup.c: what a process does before it exits.
pub mod Exits
use parallel_wrapper.Base.{
  ℕ, Bool, false, ◌-◌, Option, none, some, true, ◌&&◌, List, [], ◌∷◌, if◌then◌else◌,
}
use parallel_wrapper.Base.Int.{ℤ, pos, pos_part, ltb_ℤ, eqb_ℤ}
use parallel_wrapper.Base.Text.{Bytes}
use parallel_wrapper.System.{unlinked, killed_group, Trace, Os}
use parallel_wrapper.Sll.{SlList}
use parallel_wrapper.Scratch.{cleanup_scratch}
use parallel_wrapper.UdpClient.{term}
use parallel_wrapper.Wrapper.{Machine, Ptr, ParallelWrapper, master_rank}
use parallel_wrapper.Wrapper.Action.{
  Action, ok, Handler, pure, exit_with, load, wrapper, on_trace, emit, ◌>>=◌, ◌>>◌,
}
use parallel_wrapper.Wrapper.Machines.{for_machines, repeat}

-- TERM to one machine, ten times.
unfoldable pub term_machine : Os → ℤ → ℤ → ℕ → Machine → Action (Unit {0})
term_machine os socketfd return_code i m =
    repeat 10 (on_trace (term os socketfd return_code m.ip_addr m.port) >> pure tt)

-- The loop runs from 1: no TERM to the master itself.
abbrev pub term_table : Os → ℤ → ParallelWrapper → Option (List (Option Ptr)) → Action (Unit {0})
term_table os return_code pw none = pure tt
term_table os return_code pw (some machines) =
    for_machines (pos_part pw.num_procs - 1) 1 machines
      (term_machine os pw.command_socket return_code)

-- Only the master sends any.
abbrev pub term_if : Bool → Os → ℤ → ParallelWrapper → Action (Unit {0})
term_if true os return_code pw = term_table os return_code pw pw.machines
term_if false os return_code pw = pure tt

unfoldable pub term_all : Os → ℤ → Action (Unit {0})
term_all os return_code = do
  pw ← wrapper
  me ← load pw.this_machine
  term_if (eqb_ℤ me.rank master_rank) os return_code pw

abbrev pub kill_if : Bool → ℤ → Action (Unit {0})
kill_if true child_pid = emit (killed_group child_pid)
kill_if false child_pid = pure tt

unfoldable pub kill_children : Action (Unit {0})
kill_children = do
  pw ← wrapper
  kill_if (ltb_ℤ (pos 0) pw.pgid && ltb_ℤ (pos 0) pw.child_pid) pw.child_pid

-- The loop over the links that were made.
unfoldable pub unlink_loop : Os → List (Option Bytes) → Trace → Trace
unlink_loop os [] t = t
unlink_loop os (none ∷ elements) t = unlink_loop os elements t
unlink_loop os (some filename ∷ elements) t =
    unlink_loop os elements (if os.unlink_ok filename then unlinked filename ∷ t else t)

unfoldable pub unlink_all : Os → Option SlList → Trace → Trace
unlink_all os none t = t
unlink_all os (some list) t = unlink_loop os list.elements t

-- `pthread_mutex_trylock(&keep_alive_mutex)`: locked afterwards, whoever held it.
unfoldable pub lock_keep_alive : Action (Unit {0})
lock_keep_alive w = (ok tt, record w { keep_alive_locked = true })

unfoldable pub cleanup : Os → ℤ → Handler
cleanup os return_code = do
  lock_keep_alive
  term_all os return_code
  kill_children
  pw ← wrapper
  on_trace (cleanup_scratch os pw.scratch_dir)
  on_trace (λ t. (tt, unlink_all os pw.symlinks t))
  exit_with return_code
