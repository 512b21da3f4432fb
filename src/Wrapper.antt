-- ===== src/Wrapper.antt =====
-- The state of one process, from include/wrapper.h: the `parallel_wrapper` structure, the machines
-- that its pointers share, and what the process has done to the outside.
pub mod Action
pub mod Machines
pub mod Invariant
pub mod Ensures
pub mod Completes
use parallel_wrapper.Base.{ℕ, Bool, Option, none, List}
use parallel_wrapper.Base.Int.{ℤ, pos}
use parallel_wrapper.Base.Text.{Bytes}
use parallel_wrapper.System.{Timeval, Trace}
use parallel_wrapper.Sll.{SlList}

-- `MASTER`.
abbrev pub master_rank : ℤ
master_rank = pos 0

pub record Machine : Type 0 where
  pub port : ℕ
  pub rank : ℤ
  pub cpus : ℤ
  pub unique : Bool
  pub iwd : Option Bytes
  pub ip_addr : Option Bytes
  pub user : Option Bytes
  pub schedd_iwd : Option Bytes
  pub last_alive : Timeval

-- A machine as `calloc` leaves it.
abbrev pub blank_machine : Machine
blank_machine = record {
  port = 0;
  rank = pos 0;
  cpus = pos 0;
  unique = Bool.false;
  iwd = none;
  ip_addr = none;
  user = none;
  schedd_iwd = none;
  last_alive = record { sec = 0; usec = 0 };
}

-- A `machine *` that is not NULL: a position in `heap`. On the master, `this_machine`, `master` and
-- `machines[0]` are one pointer.
abbrev pub Ptr : Type 0
Ptr = ℕ

-- `listener` and `mutex` hold no data of the program.
pub record ParallelWrapper : Type 0 where
  pub cluster_id : ℤ
  pub entered_current_status : ℤ
  pub executable_length : ℤ
  pub num_procs : ℤ
  pub command_socket : ℤ
  pub timeout : ℤ
  pub ka_interval : ℤ
  pub child_pid : ℤ
  pub pgid : ℤ
  pub low_port : ℕ
  pub high_port : ℕ
  pub this_machine : Ptr
  pub master : Option Ptr
  pub scratch_dir : Option Bytes
  pub shared_fs : Option Bytes
  pub executable : List Bytes
  pub machines : Option (List (Option Ptr))
  pub symlinks : Option SlList

pub record World : Type 0 where
  pub par_wrapper : ParallelWrapper
  pub heap : List Machine
  pub keep_alive_locked : Bool
  pub exit_flag : Bool
  pub disable_timeout : Bool
  pub trace : Trace
