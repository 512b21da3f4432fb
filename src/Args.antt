-- ===== src/Args.antt =====
-- src/parse_args_env.c: the environment and the command line. The options that `getopt_long` of the C
-- library gives, in order, and the words that it leaves are parameters.
pub mod Bounds
pub mod SearchPath
use parallel_wrapper.Base.{
  ℕ, ◌+◌, ◌-◌, Option, none, some, Bool, true, not, List, [], ◌∷◌, ◌++◌, ltb, if◌then◌else◌, length,
  take,
}
use parallel_wrapper.Base.Int.{ℤ, pos, ltb_ℤ}
use parallel_wrapper.Base.Text.{Bytes, codes}
use parallel_wrapper.StringUtil.Integer.{Parsed, failed, parsed, parse_integer}
use parallel_wrapper.System.{Environment}
use parallel_wrapper.Wrapper.Action.{
  ok, Action, pure, exit_with, crash, load, store, wrapper, put_wrapper, ◌>>=◌, ◌>>◌,
}

-- `*value` is stored only by a parse that succeeds.
abbrev pub set_rank : Parsed → Action (Unit {0})
set_rank (failed rc) = pure tt
set_rank (parsed v) = do
  pw ← wrapper
  me ← load pw.this_machine
  store pw.this_machine (record me { rank = v })

abbrev pub set_num_procs : Parsed → Action (Unit {0})
set_num_procs (failed rc) = pure tt
set_num_procs (parsed v) = do pw ← wrapper; put_wrapper (record pw { num_procs = v })

unfoldable pub parse_environment_vars : Environment → Action (Unit {0})
parse_environment_vars getenv = do
  set_rank (parse_integer (getenv (codes "_CONDOR_PROCNO")) true)
  set_num_procs (parse_integer (getenv (codes "_CONDOR_NPROCS")) true)

-- What one call of `getopt_long` finds: an option of the table, or one that is not in it.
pub data Opt : Type 0 where
  verbose : Opt
  no_timeout : Opt
  help : Opt
  num_procs : Bytes → Opt
  rank : Bytes → Opt
  ports : Bytes → Opt
  timeout : Bytes → Opt
  ka_interval : Bytes → Opt
  unknown : Opt

-- `help(); exit(1)` if the number cannot be parsed.
abbrev pub number : Parsed → Action ℤ
number (failed rc) = exit_with (pos 1)
number (parsed v) = pure v

-- The number, but at least `low`.
abbrev pub at_least : ℤ → ℤ → ℤ
at_least low v = if ltb_ℤ v low then low else v

abbrev pub set_no_timeout : Action (Unit {0})
set_no_timeout w = (ok tt, record w { disable_timeout = true })

-- One round of the loop: the `switch`. Only the log reads `verbose`.
unfoldable pub parse_opt : Opt → Action (Unit {0})
parse_opt verbose = pure tt
parse_opt no_timeout = set_no_timeout
parse_opt help = exit_with (pos 0)
parse_opt (num_procs optarg) = do
  v ← number (parse_integer (some optarg) true)
  set_num_procs (parsed v)
parse_opt (rank optarg) = do v ← number (parse_integer (some optarg) true); set_rank (parsed v)
parse_opt (ports optarg) = pure tt
parse_opt (timeout optarg) = do
  v ← number (parse_integer (some optarg) true)
  pw ← wrapper
  put_wrapper (record pw { timeout = at_least (pos 10) v })
parse_opt (ka_interval optarg) = do
  v ← number (parse_integer (some optarg) true)
  pw ← wrapper
  put_wrapper (record pw { ka_interval = at_least (pos 1) v })
parse_opt unknown = exit_with (pos 4)

unfoldable pub parse_opts : List Opt → Action (Unit {0})
unfolding parse_opt
parse_opts [] = pure tt
parse_opts (opt ∷ opts) = parse_opt opt >> parse_opts opts

-- The words behind the options are the executable and its arguments. The result of `calloc` is not
-- looked at before it is written to.
abbrev pub take_executable : Bool → List Bytes → Action (Unit {0})
take_executable calloc_ok [] = exit_with (pos 2)
take_executable calloc_ok (word ∷ words) = if not calloc_ok then crash else (do
  pw ← wrapper
  put_wrapper
      (record pw { executable_length = pos (length (word ∷ words)); executable = word ∷ words }))

unfoldable pub parse_args : Bool → List Opt → List Bytes → Action (Unit {0})
unfolding parse_opts
parse_args calloc_ok opts words = parse_opts opts >> take_executable calloc_ok words

-- `set_environment_vars`: the new value of `PATH`, none when there is no memory for it, or a write
-- behind the end of the buffer.
pub data PathResult : Type 0 where
  path_kept : PathResult
  path_set : Bytes → PathResult
  overflow : PathResult

abbrev pub system_dirs : Bytes
system_dirs = codes ":/usr/local/bin:/usr/bin:/bin:/usr/local/sbin:/usr/sbin:/sbin:."

abbrev pub path_or_empty : Option Bytes → Bytes
path_or_empty none = []
path_or_empty (some path) = path

-- `snprintf(path, size, …)` on a block of `block` bytes: at most `size - 1` bytes and a NUL are written.
abbrev pub print_into : ℕ → ℕ → Bytes → PathResult
print_into block size text =
    let out = take (size - 1) text in if ltb (length out) block then path_set out else overflow

-- The block has 2048 bytes, and `size` is `string_length - 1`.
unfoldable pub set_environment_vars : Bool → Environment → PathResult
set_environment_vars calloc_ok getenv =
    let temp = path_or_empty (getenv (codes "PATH")) in
    if not calloc_ok
    then path_kept
    else print_into 2048 (2048 + length temp - 1) (temp ++ system_dirs)
