-- ===== src/Main/Child.antt =====
-- src/main.c: the environment that the master's child starts with.
pub mod Cpus
use parallel_wrapper.Base.{Option, none, some, Bool, List, [], ◌∷◌, if◌then◌else◌, get_elem?}
use parallel_wrapper.Base.Int.{ℤ, pos, ◌+ℤ◌, to_int}
use parallel_wrapper.Base.Text.{Bytes, codes}
use parallel_wrapper.Scratch.{machine_file, ssh_config, ssh_wrapper}
use parallel_wrapper.Scratch.Create.{path_in}
use parallel_wrapper.StringUtil.Integer.{format_int}
use parallel_wrapper.System.{Os}
use parallel_wrapper.Wrapper.{Machine, Ptr, ParallelWrapper}

-- The sum of the processors, as an `int`. A pointer of the table is never wild.
abbrev pub add_cpus : ℤ → Option Machine → ℤ
add_cpus total none = total
add_cpus total (some m) = to_int (total +ℤ m.cpus)

unfoldable pub total_cpus : List Machine → List (Option Ptr) → ℤ → ℤ
total_cpus heap [] total = total
total_cpus heap (none ∷ slots) total = total_cpus heap slots total
total_cpus heap (some p ∷ slots) total = total_cpus heap slots (add_cpus total (get_elem? heap p))

-- `setenv` of a name and a value, in the order of the calls. NULL as a value is a crash.
abbrev pub Setting : Type 0
Setting = Bytes × Option Bytes

-- `shared` is the flag `shared_fs`, which stands for both branches of the three `?:`.
unfoldable pub child_settings :
    Os → ParallelWrapper → Machine → List Machine → List (Option Ptr) → Bool → List Setting
unfolding total_cpus
child_settings os pw me heap slots shared =
    let cpus = format_int (total_cpus heap slots (pos 0)) in
    let fs = if shared then me.iwd else pw.shared_fs in
    (codes "MACHINE_FILE", path_in os pw.scratch_dir machine_file)
    ∷ (codes "SSH_CONFIG", path_in os pw.scratch_dir ssh_config)
    ∷ (codes "SSH_WRAPPER", path_in os pw.scratch_dir ssh_wrapper)
    ∷ (codes "NUM_MACHINES", some (format_int pw.num_procs))
    ∷ (codes "CPUS", some cpus)
    ∷ (codes "NUM_PROCS", some cpus)
    ∷ (codes "RANK", some (format_int me.rank))
    ∷ (codes "CLUSTER_ID", some (format_int pw.cluster_id))
    ∷ (codes "CMD_PORT", some (format_int (pos me.port)))
    ∷ (codes "REQUEST_CPUS", some (format_int me.cpus))
    ∷ (codes "SCRATCH_DIR", pw.scratch_dir)
    ∷ (codes "IWD", me.iwd)
    ∷ (codes "IP_ADDR", me.ip_addr)
    ∷ (codes "TRANSFER_FILES", some (if shared then codes "TRUE" else codes "FALSE"))
    ∷ (codes "SHARED_FS", fs)
    ∷ (codes "SHARED_DIR", fs)
    ∷ (codes "SCHEDD_IWD", me.schedd_iwd)
    ∷ []

abbrev pub add_setting :
    Bytes → Option Bytes → Option (List (Bytes × Bytes)) → Option (List (Bytes × Bytes))
add_setting name none rest = none
add_setting name (some value) none = none
add_setting name (some value) (some rest) = some ((name, value) ∷ rest)

unfoldable pub set_all : List Setting → Option (List (Bytes × Bytes))
set_all [] = some []
set_all ((name, value) ∷ settings) = add_setting name value (set_all settings)
