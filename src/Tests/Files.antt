-- ===== src/Tests/Files.antt =====
-- The theorems about paths and about the scratch directory of the master.
use parallel_wrapper.Base.{ℕ, ◌≡◌, refl, subst, some, true, ◌++◌, get_elem?, zero, suc}
use parallel_wrapper.Base.Text.{codes, is_text-IsText}
use parallel_wrapper.Scratch.Create.{create_ssh_config}
use parallel_wrapper.Scratch.Files.Printing.{file_text, machines_text}
use parallel_wrapper.Scratch.SshConfig.{
  options, HasHost, host_of, lines_text, script, create_ssh_config_lem,
}
use parallel_wrapper.StringUtil.Paths.{join_paths, skip_slashes, is_slash}
use parallel_wrapper.StringUtil.Paths.Joined.{no_slash_end, join_paths_lem}
use parallel_wrapper.System.{Trace}
use parallel_wrapper.Tests.Sample.{
  os, master_machine, slave_machine, master_world, master_world-IsValid, master_world-IsTable,
}
use parallel_wrapper.Tests.Start.{scratch}
use parallel_wrapper.Wrapper.{Machine, Ptr}
use parallel_wrapper.Wrapper.Action.{ok}

no_slash : skip_slashes (codes "b/c") ≡ 0
unfolding skip_slashes is_slash
no_slash = refl

join_paths_lem_example :
    join_paths true (λ _. 7) (some (codes "/a//")) (some (codes "b/c")) ≡ some (codes "/a/b/c")
unfolding no_slash_end is_slash
join_paths_lem_example =
    join_paths_lem (λ _. 7) (codes "/a//") (codes "b/c") (is_text-IsText (codes "/a//") refl)
      (is_text-IsText (codes "b/c") refl) no_slash

abbrev HostAt : Ptr → Type 0
HostAt p = (m : Machine) × (get_elem? master_world.heap p ≡ some m) × HasHost m

first_host : (p : Ptr) → 0 ≡ p → HostAt p
first_host p e =
    subst HostAt e (master_machine, refl, (codes "10.0.0.1", codes "alice", refl, refl))

second_host : (p : Ptr) → 1 ≡ p → HostAt p
second_host p e =
    subst HostAt e (slave_machine, refl, (codes "10.0.0.2", codes "alice", refl, refl))

sample_host : (r : ℕ) (p : Ptr) → get_elem? master_world-IsTable.table r ≡ some (some p) → HostAt p
sample_host zero p h = first_host p cc
sample_host (suc zero) p h = second_host p cc
sample_host (suc (suc zero)) p h = absurd cc
sample_host (suc (suc (suc r))) p h = absurd cc

create_ssh_config_lem_example :
    (t : Trace) × (create_ssh_config os scratch master_world
      ≡ (ok 0, record master_world { trace = t }))
    × (file_text t (codes "/tmp/x/ssh_config")
        ≡ lines_text options ++ machines_text master_world.heap host_of master_world-IsTable.table)
    × (file_text t (codes "/tmp/x/ssh_wrapper") ≡ script (codes "/tmp/x/ssh_config"))
unfolding no_slash_end is_slash
create_ssh_config_lem_example =
    create_ssh_config_lem os scratch (codes "/tmp/x") refl (is_text-IsText (codes "/tmp/x") refl)
      (λ f. refl) master_world master_world-IsValid master_world-IsTable refl refl sample_host
