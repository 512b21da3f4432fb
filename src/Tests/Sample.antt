-- ===== src/Tests/Sample.antt =====
-- A job of three processes: the master's state, with rank 1 registered and rank 2 not, and the state
-- of rank 1.
use parallel_wrapper.Base.{
  ℕ, zero, suc, ◌≡◌, refl, ap, subst, arith, none, some, true, false, [], ◌∷◌, get_elem?,
}
use parallel_wrapper.Base.Int.{ℤ, pos, pos_part}
use parallel_wrapper.Base.Text.{Bytes, codes}
use parallel_wrapper.System.{Os, Sockaddr, inet}
use parallel_wrapper.Wrapper.{Machine, blank_machine, Ptr, ParallelWrapper, World}
use parallel_wrapper.Wrapper.Invariant.{IsKnown, IsTable, IsValid}

-- Address 0 is the master's, 1 that of rank 1, and any other one a stranger's.
abbrev address : ℕ → Bytes
address zero = codes "10.0.0.1"
address (suc zero) = codes "10.0.0.2"
address (suc (suc n)) = codes "10.0.0.9"

abbrev pub os : Os
os = record {
  malloc_ok = true;
  calloc_ok = true;
  strdup_ok = λ _. true;
  alloc = λ _. true;
  garbage = λ _. 0;
  after_buffer = 0 ∷ [];
  after_delim = 0 ∷ [];
  now = record { sec = 1000; usec = 0 };
  ntop4 = address;
  ntop6 = λ _. codes "::1";
  getaddrinfo = λ host port. some (7 ∷ []);
  sendto = λ e s. true;
  stat_ok = λ path. true;
  symlink_ok = λ src dest. true;
  unlink_ok = λ path. true;
  remove_errno = λ path. 0;
  rmdir_errno = λ path. 0;
}

abbrev machine_at : Bytes → ℕ → ℤ → Machine
machine_at ip port rank = record blank_machine {
  port = port;
  rank = rank;
  cpus = pos 1;
  ip_addr = some ip;
  iwd = some (codes "/work");
  user = some (codes "alice");
}

abbrev pub master_machine : Machine
master_machine = machine_at (codes "10.0.0.1") 51000 (pos 0)

abbrev pub slave_machine : Machine
slave_machine = machine_at (codes "10.0.0.2") 51001 (pos 1)

abbrev wrapper_of : ParallelWrapper
wrapper_of = record {
  cluster_id = pos 17;
  entered_current_status = pos 0;
  executable_length = pos 1;
  num_procs = pos 3;
  command_socket = pos 5;
  timeout = pos 300;
  ka_interval = pos 60;
  child_pid = pos 4242;
  pgid = pos 0;
  low_port = 51000;
  high_port = 61000;
  this_machine = 0;
  master = some 0;
  scratch_dir = some (codes "/tmp/x");
  shared_fs = some (codes "/tmp/shared");
  executable = codes "sleep" ∷ [];
  machines = some (some 0 ∷ some 1 ∷ none ∷ []);
  symlinks = some (record { elements = []; num_elements = 0 });
}

abbrev world_of : ParallelWrapper → World
world_of pw = record {
  par_wrapper = pw;
  heap = master_machine ∷ slave_machine ∷ [];
  keep_alive_locked = false;
  exit_flag = false;
  disable_timeout = false;
  trace = [];
}

abbrev pub master_world : World
master_world = world_of wrapper_of

-- On rank 1 there is no table.
abbrev pub slave_world : World
slave_world = world_of (record wrapper_of { this_machine = 1; machines = none })

abbrev pub master_address : Sockaddr
master_address = inet 0 51000

abbrev pub slave_address : Sockaddr
slave_address = inet 1 51001

abbrev pub stranger_address : Sockaddr
stranger_address = inet 9 51001

pub is_first : (p : Ptr) → 0 ≡ p → IsKnown master_world.heap p
is_first p e = subst (IsKnown master_world.heap) e (master_machine, codes "10.0.0.1", refl, refl)

is_second : (p : Ptr) → 1 ≡ p → IsKnown master_world.heap p
is_second p e = subst (IsKnown master_world.heap) e (slave_machine, codes "10.0.0.2", refl, refl)

pub ranks-IsKnown :
    (r : ℕ) (p : Ptr)
    → get_elem? (some 0 ∷ some 1 ∷ none ∷ []) r ≡ some (some p)
    → IsKnown master_world.heap p
ranks-IsKnown zero p h = is_first p cc
ranks-IsKnown (suc zero) p h = is_second p cc
ranks-IsKnown (suc (suc zero)) p h = absurd cc
ranks-IsKnown (suc (suc (suc r))) p h = absurd cc

abbrev pub master_world-IsTable : IsTable master_world.par_wrapper master_world.heap
master_world-IsTable = record {
  table = some 0 ∷ some 1 ∷ none ∷ [];
  is_table = refl;
  size = refl;
  known = ranks-IsKnown;
}

abbrev pub master_world-IsValid : IsValid master_world.par_wrapper master_world.heap
master_world-IsValid = record {
  me = master_machine;
  is_me = refl;
  master = λ p h. let (m, ip, here, known) = is_first p cc in (m, here);
  has_table = λ _. master_world-IsTable;
}

pub slave_world-IsValid : IsValid slave_world.par_wrapper slave_world.heap
slave_world-IsValid = record {
  me = slave_machine;
  is_me = refl;
  master = λ p h. let (m, ip, here, known) = is_first p cc in (m, here);
  has_table = λ h. absurd (let n = ap pos_part h in omega arith);
}
