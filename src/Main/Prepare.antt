-- ===== src/Main/Prepare.antt =====
-- src/main.c up to the start of the listener: the structures of the process are set up.
pub mod Stages
pub mod Valid
use parallel_wrapper.Base.{
  ℕ, zero, suc, Option, none, some, Bool, true, false, not, List, [], ◌∷◌, ◌++◌, if◌then◌else◌,
  length, replicate,
}
use parallel_wrapper.Args.{
  Opt, parse_environment_vars, parse_args, PathResult, path_kept, path_set, overflow,
  set_environment_vars,
}
use parallel_wrapper.Base.Int.{ℤ, pos, negsuc, pos_part, ◌+ℤ◌, to_int, ltb_ℤ, leb_ℤ, eqb_ℤ}
use parallel_wrapper.Base.Text.{Bytes, codes}
use parallel_wrapper.Chirp.{ChirpOs, chirp_info}
use parallel_wrapper.NetworkUtil.Interfaces.{
  Interface, Address, no_address, address, fault, get_ip_addr,
}
use parallel_wrapper.NetworkUtil.Sockets.{
  SocketOs, RangeResult, bound, not_bound, get_bound_dgram_socket_by_range,
}
use parallel_wrapper.Scratch.Create.{ScratchOs, create_scratch}
use parallel_wrapper.Sll.{sll_get_list}
use parallel_wrapper.System.{Os}
use parallel_wrapper.Wrapper.{blank_machine, ParallelWrapper, World, master_rank}
use parallel_wrapper.Wrapper.Action.{
  Result, ok, returned, exited, Action, pure, leave, crash, load, store, wrapper, put_wrapper,
  return_if, ◌>>=◌, ◌>>◌,
}

-- The answers of the outside while a process starts: the command line as `getopt_long` splits it,
-- the user's name from `getpwuid`, the interfaces, and the descriptors that are open already.
pub record StartOs : Type 0 where
  pub os : Os
  pub sockets : SocketOs
  pub scratch : ScratchOs
  pub chirp : ChirpOs
  pub opts : List Opt
  pub words : List Bytes
  pub getcwd : Option Bytes
  pub pw_name : Option Bytes
  pub ifaddrs : Option (List Interface)
  pub open_fds : List ℤ

abbrev pub low_port : ℕ
low_port = 51000

abbrev pub high_port : ℕ
high_port = 61000

-- `TIMEOUT` and `KA_INTERVAL`.
abbrev pub default_timeout : ℤ
default_timeout = pos 300

abbrev pub default_ka_interval : ℤ
default_ka_interval = pos 30

abbrev pub user_or_nobody : Option Bytes → Bytes
user_or_nobody none = codes "nobody"
user_or_nobody (some user) = user

abbrev pub strdup : Os → Bytes → Option Bytes
strdup os s = if os.malloc_ok then some s else none

-- The two structures with their default values. `keep_alive_mutex` is taken at the start.
unfoldable pub initial : StartOs → World
initial s = record {
  par_wrapper = record {
    cluster_id = pos 0;
    entered_current_status = pos 0;
    executable_length = pos 0;
    num_procs = negsuc 0;
    command_socket = negsuc 0;
    timeout = default_timeout;
    ka_interval = default_ka_interval;
    child_pid = pos 0;
    pgid = negsuc 0;
    low_port = low_port;
    high_port = high_port;
    this_machine = 0;
    master = none;
    scratch_dir = none;
    shared_fs = none;
    executable = [];
    machines = none;
    symlinks = sll_get_list s.os.calloc_ok s.os.calloc_ok;
  };
  heap =
      record blank_machine {
        rank = negsuc 0;
        iwd = s.getcwd;
        user = strdup s.os (user_or_nobody s.pw_name);
      }
      ∷ [];
  keep_alive_locked = true;
  exit_flag = false;
  disable_timeout = false;
  trace = [];
}

-- `set_environment_vars`: a buffer that is overrun is a crash.
abbrev pub take_path : PathResult → Action (Unit {0})
take_path path_kept = pure tt
take_path (path_set path) = pure tt
take_path overflow = crash

-- `if (timeout <= 2 * ka_interval)`; the product is an `int`.
abbrev pub too_close : ParallelWrapper → Bool
too_close pw = leb_ℤ pw.timeout (to_int (pw.ka_interval +ℤ pw.ka_interval))

unfoldable pub space_intervals : Action (Unit {0})
space_intervals = do
  pw ← wrapper
  put_wrapper (
      if too_close pw
      then record pw { timeout = default_timeout; ka_interval = default_ka_interval }
      else pw)

abbrev pub take_address : Address → Action (Unit {0})
take_address no_address = leave 2
take_address (address ip) = do
  pw ← wrapper
  me ← load pw.this_machine
  store pw.this_machine (record me { ip_addr = some ip })
take_address fault = crash

abbrev pub store_port : RangeResult → Action (Unit {0})
store_port not_bound = leave 2
store_port (bound port socketfd) = do
  pw ← wrapper
  me ← load pw.this_machine
  store pw.this_machine (record me { port = port })
  put_wrapper (record pw { command_socket = socketfd })

-- The table of the master, with itself at rank 0: a write behind the end of a table of no slots.
abbrev pub new_table : ParallelWrapper → ℕ → Action (Unit {0})
new_table pw zero = crash
new_table pw (suc n) = put_wrapper (record pw {
  master = some pw.this_machine;
  machines = some (some pw.this_machine ∷ replicate n none);
})

-- In another process the master is a new structure, of which only the rank is known.
abbrev pub new_master : ParallelWrapper → Action (Unit {0})
new_master pw w = (
  ok tt,
  record w {
    heap = w.heap ++ record blank_machine { rank = master_rank } ∷ [];
    par_wrapper = record pw { master = some (length w.heap) };
  },
)

unfoldable pub set_master : Os → Action (Unit {0})
set_master os = do
  pw ← wrapper
  me ← load pw.this_machine
  if eqb_ℤ me.rank master_rank
      then return_if (not os.calloc_ok) 3 >> new_table pw (pos_part pw.num_procs)
      else return_if (not os.calloc_ok) 2 >> new_master pw

-- The checks behind the command line: the rank, and the number of processes.
unfoldable pub check_required : Action (Unit {0})
check_required = do
  pw ← wrapper
  me ← load pw.this_machine
  return_if (ltb_ℤ me.rank (pos 0)) 2
  return_if (ltb_ℤ pw.num_procs (pos 0)) 2

-- From the default values to the table.
unfoldable pub configure : StartOs → Action (Unit {0})
unfolding space_intervals set_master check_required
configure s = do
  parse_environment_vars s.scratch.getenv
  parse_args s.os.calloc_ok s.opts s.words
  take_path (set_environment_vars s.os.calloc_ok s.scratch.getenv)
  check_required
  space_intervals
  take_address (get_ip_addr s.os s.ifaddrs)
  store_port (get_bound_dgram_socket_by_range s.sockets low_port high_port s.open_fds).0
  set_master s.os

unfoldable pub prepare : StartOs → Result (Unit {0}) × World
unfolding initial configure
prepare s = if not s.os.calloc_ok then (returned 1, initial s) else configure s (initial s)

-- `main` returns 2 whatever `chirp_info` returned.
abbrev pub as_two : Result Bool × World → Result Bool × World
as_two (ok b, w) = (ok b, w)
as_two (returned rc, w) = (returned 2, w)
as_two (exited code, w) = (exited code, w)
as_two (Result.fault, w) = (Result.fault, w)

-- The scratch directory and the attributes of the job: the code of `create_scratch` is not looked at.
unfoldable pub connect : StartOs → ℕ → Action Bool
connect s rounds =
    create_scratch s.os s.scratch >>= λ _ w. as_two (chirp_info s.os s.chirp rounds w)
