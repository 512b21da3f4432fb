-- ===== src/Tests/Child.antt =====
-- The environment of the child of a master with one other machine.
use parallel_wrapper.Base.{◌≡◌, refl, some, true, [], ◌∷◌, List, arith}
use parallel_wrapper.Base.Int.{pos, to_int, ◌+ℤ◌}
use parallel_wrapper.Base.Text.{Bytes, codes}
use parallel_wrapper.Main.Child.{child_settings, set_all}
use parallel_wrapper.Main.Child.Cpus.{sum_cpus, environment_of, child_settings_lem}
use parallel_wrapper.StringUtil.Integer.{parsed, parse_integer, format_int}
use parallel_wrapper.StringUtil.Paths.{join_paths}
use parallel_wrapper.Tests.Sample.{os, master_machine, master_world, master_world-IsTable}
use parallel_wrapper.Wrapper.{Machine}

abbrev me : Machine
me = record master_machine { schedd_iwd = some (codes "/home/alice") }

abbrev environment : List (Bytes × Bytes)
environment =
    (codes "MACHINE_FILE", codes "/tmp/x/machines.txt")
    ∷ (codes "SSH_CONFIG", codes "/tmp/x/ssh_config")
    ∷ (codes "SSH_WRAPPER", codes "/tmp/x/ssh_wrapper")
    ∷ (codes "NUM_MACHINES", codes "3")
    ∷ (codes "CPUS", codes "2")
    ∷ (codes "NUM_PROCS", codes "2")
    ∷ (codes "RANK", codes "0")
    ∷ (codes "CLUSTER_ID", codes "17")
    ∷ (codes "CMD_PORT", codes "51000")
    ∷ (codes "REQUEST_CPUS", codes "1")
    ∷ (codes "SCRATCH_DIR", codes "/tmp/x")
    ∷ (codes "IWD", codes "/work")
    ∷ (codes "IP_ADDR", codes "10.0.0.1")
    ∷ (codes "TRANSFER_FILES", codes "TRUE")
    ∷ (codes "SHARED_FS", codes "/work")
    ∷ (codes "SHARED_DIR", codes "/work")
    ∷ (codes "SCHEDD_IWD", codes "/home/alice")
    ∷ []

environment_set :
    set_all (
      child_settings os master_world.par_wrapper me master_world.heap master_world-IsTable.table
        true)
    ≡ some environment
unfolding set_all child_settings join_paths format_int to_int ◌+ℤ◌
environment_set = refl

child_settings_lem_example :
    (parse_integer (environment_of environment (codes "CPUS")) true
      ≡ parsed (pos (sum_cpus master_world.heap master_world-IsTable.table)))
    × (environment_of environment (codes "NUM_PROCS") ≡ environment_of environment (codes "CPUS"))
    × (environment_of environment (codes "SHARED_FS") ≡ some (codes "/work"))
child_settings_lem_example =
    child_settings_lem os master_world.par_wrapper me master_world.heap master_world-IsTable.table
      true environment (omega arith, (omega arith, tt)) (omega arith) environment_set
