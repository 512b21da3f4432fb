-- ===== src/Tests/Start.antt =====
-- The theorems about the start of a process: the command line, the rendezvous, and the
-- master's machine file.
use parallel_wrapper.Base.{
  ◌<◌, ◌≤◌, ◌≡◌, refl, ap, ◌⊎◌, none, some, true, [], ◌∷◌, ◌++◌, Option, length, arith, All,
  if◌then◌else◌,
}
use parallel_wrapper.Args.{
  timeout, ka_interval, path_set, overflow, system_dirs, path_or_empty, parse_args,
  set_environment_vars,
}
use parallel_wrapper.Args.Bounds.{IsConfigured, Configures, parse_args-Configures}
use parallel_wrapper.Args.SearchPath.{set_environment_vars_cases}
use parallel_wrapper.Base.Text.{Bytes, codes, str_eq}
use parallel_wrapper.Chirp.{ChirpOs, publish, fetch_round}
use parallel_wrapper.Chirp.Cleaned.{IsPlain}
use parallel_wrapper.Chirp.Rendezvous.{attr_of, with_master, publish-fetch_round}
use parallel_wrapper.Main.Prepare.{StartOs, initial, prepare}
use parallel_wrapper.Main.Prepare.Valid.{IsPrepared, prepare-IsPrepared}
use parallel_wrapper.Scratch.{machine_file}
use parallel_wrapper.StringUtil.Paths.{join_paths}
use parallel_wrapper.Scratch.Create.{ScratchOs, path_in, create_machine_file}
use parallel_wrapper.Scratch.Files.{line_of, create_machine_file_lem}
use parallel_wrapper.Scratch.Files.Printing.{file_text, machines_text}
use parallel_wrapper.System.{Environment, Trace}
use parallel_wrapper.Tests.Network.{interfaces, sockets}
use parallel_wrapper.Tests.Sample.{
  os, master_machine, master_world, master_world-IsValid, master_world-IsTable, slave_world,
}
use parallel_wrapper.Wrapper.{Machine, World, master_rank}
use parallel_wrapper.Wrapper.Action.{ok}
use parallel_wrapper.Wrapper.Completes.{OnOk}

-- Rank 0 of three.
abbrev environment : Environment
environment name =
    if str_eq name (codes "_CONDOR_PROCNO")
    then some (codes "0")
    else if str_eq name (codes "_CONDOR_NPROCS")
    then some (codes "3")
    else none

-- Of the job's attributes only the time of its status is there.
abbrev attribute : Bytes → Option Bytes
attribute name = if str_eq name (codes "EnteredCurrentStatus") then some (codes "1") else none

abbrev pub chirp : ChirpOs
chirp = record {
  connects = true;
  get = attribute;
  set_ok = λ name value. true;
  cluster_rand = 1;
  rand = 4242;
  getcwd = codes "/work";
  in_round = λ i name. none;
}

abbrev pub scratch : ScratchOs
scratch = record {
  getenv = environment;
  mkdtemp = λ template. some template;
  fopen_ok = λ file. true;
}

abbrev pub start_up : StartOs
start_up = record {
  os = os;
  sockets = sockets;
  scratch = scratch;
  chirp = chirp;
  opts = timeout (codes "120") ∷ ka_interval (codes "0") ∷ [];
  words = codes "sleep" ∷ codes "10" ∷ [];
  getcwd = some (codes "/work");
  pw_name = some (codes "alice");
  ifaddrs = some interfaces;
  open_fds = [];
}

prepare-IsPrepared_example : OnOk (λ _ w. IsPrepared w) (prepare start_up)
prepare-IsPrepared_example = prepare-IsPrepared start_up

abbrev initial-IsConfigured : IsConfigured (initial start_up)
unfolding initial
initial-IsConfigured = record {
  me = _;
  is_heap = refl;
  is_this = refl;
  num_procs_int = omega arith;
  timeout_int = omega arith;
  timeout_bound = omega arith;
  interval_int = omega arith;
  interval_bound = omega arith;
}

parse_args-Configures_example :
    Configures (parse_args true start_up.opts start_up.words (initial start_up))
parse_args-Configures_example =
    parse_args-Configures true start_up.opts start_up.words (initial start_up) initial-IsConfigured

set_environment_vars_cases_example :
    let text = path_or_empty (environment (codes "PATH")) ++ system_dirs in
    ((length text < 2048) × (set_environment_vars true environment ≡ path_set text))
    ⊎ ((2048 ≤ length text) × (set_environment_vars true environment ≡ overflow))
set_environment_vars_cases_example = set_environment_vars_cases environment

master_ip-IsPlain : All IsPlain (codes "10.0.0.1")
master_ip-IsPlain = ground arith

publish-fetch_round_example :
    (w' : World) × (publish chirp master_machine master_world ≡ (ok tt, w'))
    × (fetch_round true (attr_of w'.trace) slave_world
        ≡ (ok true, with_master slave_world 0 master_machine (codes "10.0.0.1") 51000))
publish-fetch_round_example =
    publish-fetch_round chirp master_machine 49 (codes "0.0.0.1") master_world slave_world 0
      master_machine (λ name value. refl) refl master_ip-IsPlain (omega arith) (omega arith) refl
      refl

machines_path : path_in os (some (codes "/tmp/x")) machine_file ≡ some (codes "/tmp/x/machines.txt")
unfolding join_paths
machines_path = refl

same_rank : (m : Machine) → some master_machine ≡ some m → m.rank ≡ master_rank
same_rank m h = let same : m ≡ master_machine = cc in ap (λ m. m.rank) same

create_machine_file_lem_example :
    (t : Trace) × (create_machine_file os scratch master_world
      ≡ (ok 0, record master_world { trace = t }))
    × (file_text t (codes "/tmp/x/machines.txt")
        ≡ machines_text master_world.heap line_of master_world-IsTable.table)
create_machine_file_lem_example =
    create_machine_file_lem os scratch master_world master_world-IsValid master_world-IsTable
      (codes "/tmp/x") (codes "/tmp/x/machines.txt") (same_rank _ master_world-IsValid.is_me) refl
      machines_path refl
