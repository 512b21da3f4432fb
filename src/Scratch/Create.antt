-- ===== src/Scratch/Create.antt =====
-- src/scratch.c: the scratch directory and the files that the master writes there.
use parallel_wrapper.Base.{
  ℕ, Option, none, some, Bool, true, false, List, [], ◌∷◌, ◌++◌, ◌==◌, if◌then◌else◌,
}
use parallel_wrapper.Base.Int.{ℤ, pos_part, eqb_ℤ}
use parallel_wrapper.Base.Text.{Bytes, codes}
use parallel_wrapper.Scratch.{ssh_config, ssh_wrapper, machine_file, cleanup_scratch}
use parallel_wrapper.StringUtil.Integer.{format_int}
use parallel_wrapper.StringUtil.Paths.{join_paths}
use parallel_wrapper.System.{Os, Environment, opened, printed}
use parallel_wrapper.Wrapper.{Machine, Ptr, ParallelWrapper, master_rank}
use parallel_wrapper.Wrapper.Action.{
  ok, Action, pure, crash, deref, load, wrapper, on_trace, emit, ◌>>=◌, ◌>>◌,
}
use parallel_wrapper.Wrapper.Machines.{for_machines}

-- `mkdtemp`, and whether `fopen` for writing succeeds. The result of `chmod` is only reported.
pub record ScratchOs : Type 0 where
  pub getenv : Environment
  pub mkdtemp : Bytes → Option Bytes
  pub fopen_ok : Bytes → Bool

abbrev pub or_try : Option Bytes → Option Bytes → Option Bytes
or_try none later = later
or_try (some dir) later = some dir

unfoldable pub tmpdir : Environment → Option Bytes
tmpdir getenv = or_try (getenv (codes "TMP")) (
    or_try (getenv (codes "TMPDIR")) (
      or_try (getenv (codes "TEMPDIR"))
        (or_try (getenv (codes "_CONDOR_SCRATCH_DIR")) (some (codes "/tmp")))))

abbrev pub set_scratch_dir : Option Bytes → Action (Unit {0})
set_scratch_dir dir w =
    (ok tt, record w { par_wrapper = record w.par_wrapper { scratch_dir = dir } })

-- An old directory is cleaned up first.
abbrev pub clean_old : Os → Option Bytes → Action (Unit {0})
clean_old os none = pure tt
clean_old os (some dir) = on_trace (cleanup_scratch os (some dir)) >> pure tt

abbrev pub made_dir : Option Bytes → Action ℕ
made_dir none = set_scratch_dir none >> pure 2
made_dir (some dir) = set_scratch_dir (some dir) >> pure 0

abbrev pub from_template : ScratchOs → Option Bytes → Action ℕ
from_template sos none = set_scratch_dir none >> pure 1
from_template sos (some template) = made_dir (sos.mkdtemp template)

-- The return code.
unfoldable pub create_scratch : Os → ScratchOs → Action ℕ
unfolding tmpdir
create_scratch os sos = do
  pw ← wrapper
  clean_old os pw.scratch_dir
  from_template sos (
      join_paths os.malloc_ok os.garbage (tmpdir sos.getenv)
        (some (codes ".condor_scratch_XXXXXX")))

-- A scratch directory, made now if there is none.
abbrev pub need_scratch : Os → ScratchOs → Option Bytes → Action Bool
need_scratch os sos none = create_scratch os sos >>= λ rc. pure (rc == 0)
need_scratch os sos (some dir) = pure true

abbrev pub path_in : Os → Option Bytes → Bytes → Option Bytes
path_in os scratch_dir name = join_paths os.malloc_ok os.garbage scratch_dir (some name)

-- `fopen` of the path, NULL being a crash, and what follows if it succeeds; else `rc` is returned.
abbrev pub with_file : ScratchOs → ℕ → Option Bytes → (Bytes → Action ℕ) → Action ℕ
with_file sos rc none body = crash
with_file sos rc (some name) body =
    if sos.fopen_ok name then emit (opened name) >> body name else pure rc

-- The format `%s:%d # %s`, with a newline.
unfoldable pub machine_line : Bytes → ℤ → Bytes
machine_line ip cpus = ip ++ b':' ∷ (format_int cpus ++ (codes " # TODO HOSTNAME" ++ 10 ∷ []))

unfoldable pub print_machine : Bytes → ℕ → Machine → Action (Unit {0})
unfolding machine_line
print_machine file i m = do ip ← deref m.ip_addr; emit (printed file (machine_line ip m.cpus))

unfoldable pub print_machines : ParallelWrapper → List (Option Ptr) → Bytes → Action ℕ
unfolding print_machine
print_machines pw machines file =
    for_machines (pos_part pw.num_procs) 0 machines (print_machine file) >> pure 0

abbrev pub machine_file_in : Os → ScratchOs → List (Option Ptr) → Bool → Action ℕ
machine_file_in os sos machines false = pure 1
machine_file_in os sos machines true = do
  pw ← wrapper
  with_file sos 4 (path_in os pw.scratch_dir machine_file) (print_machines pw machines)

abbrev pub machine_file_of : Os → ScratchOs → Option Bytes → Option (List (Option Ptr)) → Action ℕ
machine_file_of os sos scratch_dir none = pure 3
machine_file_of os sos scratch_dir (some machines) =
    need_scratch os sos scratch_dir >>= machine_file_in os sos machines

unfoldable pub create_machine_file : Os → ScratchOs → Action ℕ
unfolding create_scratch print_machines
create_machine_file os sos = do
  pw ← wrapper
  me ← load pw.this_machine
  if eqb_ℤ me.rank master_rank then machine_file_of os sos pw.scratch_dir pw.machines else pure 2

-- A file that is printed to without a look at the result of `fopen`.
abbrev pub must_open : ScratchOs → Option Bytes → Action Bytes
must_open sos none = crash
must_open sos (some name) = if sos.fopen_ok name then emit (opened name) >> pure name else crash

abbrev pub name_or_null : Option Bytes → Bytes
name_or_null none = codes "(null)"
name_or_null (some name) = name

abbrev pub line : Bytes → Bytes
line s = s ++ 10 ∷ []

-- `SSH_EXECUTABLE` is `ssh`.
unfoldable pub create_ssh_wrapper : Os → ScratchOs → Option Bytes → Action ℕ
create_ssh_wrapper os sos none = pure 1
create_ssh_wrapper os sos (some scratch_dir) = do
  file ← must_open sos (path_in os (some scratch_dir) ssh_wrapper)
  emit (printed file (line (codes "#!/bin/sh")))
  emit (
      printed file (
        line (
          codes "ssh -F "
          ++ (name_or_null (path_in os (some scratch_dir) ssh_config) ++ codes " $@"))))
  pure 0

-- The nine lines at the top of the file.
unfoldable pub config_lines : List Bytes
config_lines =
    codes "BatchMode=yes"
    ∷ codes "UserKnownHostsFile=/dev/null"
    ∷ codes "StrictHostKeyChecking=no"
    ∷ codes "Cipher=none"
    ∷ codes "Compression=no"
    ∷ codes "ForwardX11=no"
    ∷ codes "FallBackToRsh=yes"
    ∷ codes "KeepAlive=yes"
    ∷ codes "ServerAliveInterval=120"
    ∷ []

unfoldable pub print_lines : Bytes → List Bytes → Action (Unit {0})
print_lines file [] = pure tt
print_lines file (s ∷ lines) = emit (printed file (line s)) >> print_lines file lines

unfoldable pub print_host : Bytes → ℕ → Machine → Action (Unit {0})
print_host file i m = do
  ip ← deref m.ip_addr
  emit (printed file (line (codes "Host=" ++ ip)))
  user ← deref m.user
  emit (printed file (line (9 ∷ (codes "User=" ++ user))))
  emit (printed file (line (9 ∷ codes "Port=22")))

unfoldable pub print_config :
    Os → ScratchOs → ParallelWrapper → List (Option Ptr) → Bytes → Action ℕ
unfolding config_lines print_lines print_host create_ssh_wrapper
print_config os sos pw machines file = do
  print_lines file config_lines
  for_machines (pos_part pw.num_procs) 0 machines (print_host file)
  rc ← create_ssh_wrapper os sos pw.scratch_dir
  pure 0

abbrev pub ssh_config_in : Os → ScratchOs → List (Option Ptr) → Bool → Action ℕ
ssh_config_in os sos machines false = pure 2
ssh_config_in os sos machines true = do
  pw ← wrapper
  with_file sos 3 (path_in os pw.scratch_dir ssh_config) (print_config os sos pw machines)

abbrev pub ssh_config_of : Os → ScratchOs → Option Bytes → Option (List (Option Ptr)) → Action ℕ
ssh_config_of os sos scratch_dir none = pure 2
ssh_config_of os sos scratch_dir (some machines) =
    need_scratch os sos scratch_dir >>= ssh_config_in os sos machines

unfoldable pub create_ssh_config : Os → ScratchOs → Action ℕ
unfolding create_scratch print_config
create_ssh_config os sos = do
  pw ← wrapper
  me ← load pw.this_machine
  if eqb_ℤ me.rank master_rank then ssh_config_of os sos pw.scratch_dir pw.machines else pure 1
