-- ===== src/Scratch/Removal.antt =====
-- What `cleanup_scratch` of src/scratch.c removes: the files that the process has made in its scratch
-- directory, and the directory.
use parallel_wrapper.Base.{◌≡◌, refl, ap, ◌∙◌, some, true, List, [], ◌∷◌, ◌++◌, All}
use parallel_wrapper.Base.Text.{Bytes, IsText, is_text-IsText}
use parallel_wrapper.Scratch.{sshd_log, ssh_config, ssh_wrapper, machine_file}
use parallel_wrapper.Scratch.Create.{path_in}
use parallel_wrapper.StringUtil.Paths.{is_slash, skip_slashes, join_paths}
use parallel_wrapper.StringUtil.Paths.Joined.{directory, join_paths_lem}
use parallel_wrapper.System.{Os}

-- A file of the scratch directory.
abbrev pub file_in : Bytes → Bytes → Bytes
file_in dir name = directory dir ++ b'/' ∷ name

-- A name that can be joined to a directory.
abbrev pub IsName : Bytes → Type 0
IsName name = IsText name × (skip_slashes name ≡ 0)

-- The four names of src/include/scratch.h.
abbrev pub names : List Bytes
names = machine_file ∷ ssh_wrapper ∷ ssh_config ∷ sshd_log ∷ []

-- Every removal succeeds, and memory is found.
pub record Removes (os : Os) : Type 0 where
  pub memory : os.malloc_ok ≡ true
  pub is_there : (filename : Bytes) → os.stat_ok filename ≡ true
  pub goes : (filename : Bytes) → os.remove_errno filename ≡ 0
  pub empty : (dir : Bytes) → os.rmdir_errno dir ≡ 0

pub path_in_lem :
    (os : Os) (dir name : Bytes)
    → os.malloc_ok ≡ true
    → IsText dir
    → IsName name
    → path_in os (some dir) name ≡ some (file_in dir name)
path_in_lem os dir name memory text n =
    ap (λ b. join_paths b os.garbage (some dir) (some name)) memory
    ∙ join_paths_lem os.garbage dir name text n.0 n.1

pub names-IsName : All IsName names
unfolding skip_slashes is_slash
names-IsName = (
  (is_text-IsText machine_file refl, refl),
  (
    (is_text-IsText ssh_wrapper refl, refl),
    ((is_text-IsText ssh_config refl, refl), ((is_text-IsText sshd_log refl, refl), tt)),
  ),
)
