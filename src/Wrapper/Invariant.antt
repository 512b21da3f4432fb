-- ===== src/Wrapper/Invariant.antt =====
-- The invariant of the state, and what no message may change. Both speak of the wrapper and of the
-- heap alone.
pub mod Laws
use parallel_wrapper.Base.{
  ℕ, suc, ◌+◌, ◌<◌, ◌≡◌, ◌≢◌, refl, sym, ap, ◌∙◌, Option, none, some, List, [], ◌∷◌, ◌++◌, length,
  get_elem?, set, arith,
}
use parallel_wrapper.Base.Int.{ℤ, pos}
use parallel_wrapper.Base.Text.{Bytes}
use parallel_wrapper.Wrapper.{Machine, Ptr, master_rank, ParallelWrapper}

-- A pointer to a machine whose address is known.
abbrev pub IsKnown : List Machine → Ptr → Type 0
IsKnown heap p = (m : Machine) × (ip : Bytes) × (get_elem? heap p ≡ some m) × (m.ip_addr ≡ some ip)

-- The table of the master: a slot for each rank, and an address behind each pointer.
pub record IsTable (pw : ParallelWrapper) (heap : List Machine) : Type 0 where
  pub table : List (Option Ptr)
  pub is_table : pw.machines ≡ some table
  pub size : pw.num_procs ≡ pos (length table)
  pub known : (r : ℕ) (p : Ptr) → get_elem? table r ≡ some (some p) → IsKnown heap p

-- What `main` has set up before the server starts, and every message keeps.
pub record IsValid (pw : ParallelWrapper) (heap : List Machine) : Type 0 where
  pub me : Machine
  pub is_me : get_elem? heap pw.this_machine ≡ some me
  pub master : (p : Ptr) → pw.master ≡ some p → (m : Machine) × (get_elem? heap p ≡ some m)
  pub has_table : me.rank ≡ master_rank → IsTable pw heap

-- The same machine, but for the time it was last heard of.
pub record SameMachine (m m' : Machine) : Type 0 where
  pub port : m'.port ≡ m.port
  pub rank : m'.rank ≡ m.rank
  pub cpus : m'.cpus ≡ m.cpus
  pub iwd : m'.iwd ≡ m.iwd
  pub ip_addr : m'.ip_addr ≡ m.ip_addr
  pub user : m'.user ≡ m.user

-- From one state to a later one: the machines that are there stay what they are, and a rank that has
-- a machine keeps it.
pub record Keeps (pw : ParallelWrapper) (heap : List Machine) (pw' : ParallelWrapper)
    (heap' : List Machine) : Type 0 where
  pub num_procs : pw'.num_procs ≡ pw.num_procs
  pub command_socket : pw'.command_socket ≡ pw.command_socket
  pub this_machine : pw'.this_machine ≡ pw.this_machine
  pub master : pw'.master ≡ pw.master
  pub machines_here :
      (p : Ptr) (m : Machine)
      → get_elem? heap p ≡ some m
      → (m' : Machine) × (get_elem? heap' p ≡ some m') × SameMachine m m'
  pub ranks :
      (table : List (Option Ptr))
      → pw.machines ≡ some table
      → (table' : List (Option Ptr)) × (pw'.machines ≡ some table')
        × (length table' ≡ length table)
        × ((r : ℕ) (p : Ptr)
            → get_elem? table r ≡ some (some p)
            → get_elem? table' r ≡ some (some p))
