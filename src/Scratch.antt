-- ===== src/Scratch.antt =====
-- src/scratch.c: the scratch directory. Here its removal, which `cleanup` calls.
pub mod Create
pub mod Files
pub mod Removal
pub mod SshConfig
use parallel_wrapper.Base.{ℕ, Option, none, some, not, ◌∷◌, ◌==◌, if◌then◌else◌}
use parallel_wrapper.Base.Text.{Bytes, codes}
use parallel_wrapper.StringUtil.Paths.{join_paths}
use parallel_wrapper.System.{removed, removed_dir, Trace, Os}

abbrev pub sshd_log : Bytes
sshd_log = codes "sshd.log"

abbrev pub ssh_config : Bytes
ssh_config = codes "ssh_config"

abbrev pub ssh_wrapper : Bytes
ssh_wrapper = codes "ssh_wrapper"

abbrev pub machine_file : Bytes
machine_file = codes "machines.txt"

unfoldable pub remove_file : Os → Option Bytes → Trace → ℕ × Trace
remove_file os none t = (0, t)
remove_file os (some filename) t =
    if not (os.stat_ok filename)
    then (0, t)
    else if os.remove_errno filename == 0
    then (0, removed filename ∷ t)
    else (os.remove_errno filename, t)

-- `join_paths` and `remove_file` for one name; its return code is not looked at.
unfoldable pub remove_in : Os → Bytes → Bytes → Trace → Trace
unfolding remove_file
remove_in os scratch name t =
    (remove_file os (join_paths os.malloc_ok os.garbage (some scratch) (some name)) t).1

unfoldable pub cleanup_scratch : Os → Option Bytes → Trace → ℕ × Trace
unfolding remove_in
cleanup_scratch os none t = (1, t)
cleanup_scratch os (some scratch) t =
    let t' = remove_in os scratch machine_file (
      remove_in os scratch ssh_wrapper
        (remove_in os scratch ssh_config (remove_in os scratch sshd_log t))) in
    if os.rmdir_errno scratch == 0 then (0, removed_dir scratch ∷ t') else (2, t')
